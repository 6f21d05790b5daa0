-- ===== src/Delivery/Storing.antt =====
-- A genuine packet that is ahead of the expected one goes into the window, whole.
use cpe464_a.Base.{
  ℕ, zero, suc, ◌+◌, ◌≤◌, ◌<◌, ◌≡◌, ◌≢◌, inl, inr, refl, ◌∙◌, ap, some, arith, List, [], ◌∷◌,
  length, take, drop, ◌++◌, take-append_of_le, take_all, length-take,
}
use native.Mathlib.Decide.{ℕ_discrete}
use cpe464_a.Checksum.{max_pdu_buf}
use cpe464_a.Flag
use cpe464_a.Pdu.{Received}
use cpe464_a.Rcopy.{Client}
use cpe464_a.Window.{Buffer, Window, put_slot, window_add, overwrite}
use cpe464_a.Window.Slots.{
  IsValid, slot-some, put_slot-IsValid, slot-put_slot_self, added, window_add_at,
}
use cpe464_a.Delivery.{Stream, IsStream, IsData, IsEof, IsGenuine, Stored, Entries, Known, Buffers}
use cpe464_a.Delivery.Entries.{Entries-add}

-- A copy of the first `k + n` bytes has the `n` bytes from `k` on.
take-drop_front :
    (k n m : ℕ) (bs rest : List ℕ)
    → m ≡ k + n
    → length (take n (drop k bs)) ≡ n
    → take n (drop k (take m bs ++ rest)) ≡ take n (drop k bs)
take-drop_front zero n m bs rest e l =
    let same : m ≡ n = omega arith in
    rw same (
      take-append_of_le n (take n bs) rest (omega (arith, l))
      ∙ take_all n (take n bs) (omega (arith, l)))
take-drop_front (suc k) n m [] rest e l =
    let nil : List ℕ = [] in let none : n ≡ 0 = omega (arith, l, length-take n nil) in rw none
take-drop_front (suc k) n zero (x ∷ bs) rest e l = absurd (omega arith)
take-drop_front (suc k) n (suc m) (x ∷ bs) rest e l = take-drop_front k n m bs rest (omega arith) l

-- The invariant does not read `highest` and `client_seq_num`, and wants any valid window.
pub Known-update :
    {s : Stream} {c : Client} {out : List ℕ} (window : Window) (highest client_seq_num : ℕ)
    → IsValid window
    → Known s c out
    → Known s (record c { window = window; highest = highest; client_seq_num = client_seq_num }) out
Known-update window highest client_seq_num valid known = record {
  window_valid = valid;
  started = known.started;
  within = known.within;
  data_len_known = known.data_len_known;
  eof_is = known.eof_is;
  final_is = known.final_is;
  disk = known.disk;
}

-- What the client knows once it has noted the packet.
pub record Learned (s : Stream) (c : Client) (r : Received) : Type 0 where
  pub eof_seen : r.flag ≡ Flag.end_of_file → c.eof_seq ≡ s.count + 1
  pub final_seen :
      r.flag ≡ Flag.data_flag
      → r.seq_num ≡ s.count
      → length (s.chunk s.count) ≢ s.full
      → c.final_packet_seq ≡ s.count

genuine_len :
    {s : Stream} (ok : IsStream s) (expected : ℕ) {r : Received}
    → IsGenuine s expected r
    → length (take r.len r.buf) ≤ max_pdu_buf
genuine_len ok expected {r} (inl g) =
    omega (arith, length-take r.len r.buf, g.data_len, ok.fits r.seq_num)
genuine_len ok expected {r} (inr g) = omega (arith, length-take r.len r.buf, g.eof_len)

module _ {s : Stream} (ok : IsStream s) {c : Client} {r : Received} where
  Stored-IsData :
      IsData s c.expected r
      → Learned s c r
      → c.expected < r.seq_num
      → (b : Buffer)
      → Stored s c.eof_seq c.final_packet_seq r.seq_num r.seq_num
          (added r.seq_num (take r.len r.buf) b)
  unfolding overwrite
  Stored-IsData g learned lt b = record {
    marked = refl;
    up_to = omega arith;
    inside = omega (arith, g.to_count);
    content = λ le. take-drop_front 7 _ r.len r.buf _ g.data_len (ap length g.payload) ∙ g.payload;
    eof_known = λ q. absurd (omega (arith, g.to_count));
    final_known = learned.final_seen plain;
  }
    where
      plain : r.flag ≡ Flag.data_flag
      plain = elim (ℕ_discrete r.flag Flag.data_flag) [
        | yes same ↦ same
        | no other ↦ absurd (omega (arith, g.retransmitted other))
      ]

  Stored-IsEof :
      IsEof s r
      → Learned s c r
      → (b : Buffer)
      → Stored s c.eof_seq c.final_packet_seq r.seq_num r.seq_num
          (added r.seq_num (take r.len r.buf) b)
  Stored-IsEof g learned b = record {
    marked = refl;
    up_to = omega arith;
    inside = omega (arith, g.after_all);
    content = λ le. absurd (omega (arith, g.after_all));
    eof_known = λ q. learned.eof_seen g.eof_flag;
    final_known = λ q. absurd (omega (arith, g.after_all));
  }

  pub Stored-IsGenuine :
      IsGenuine s c.expected r
      → Learned s c r
      → c.expected < r.seq_num
      → (b : Buffer)
      → Stored s c.eof_seq c.final_packet_seq r.seq_num r.seq_num
          (added r.seq_num (take r.len r.buf) b)
  Stored-IsGenuine (inl g) learned lt b = Stored-IsData g learned lt b
  Stored-IsGenuine (inr g) learned lt b = Stored-IsEof g learned b

  -- `window_add` of such a packet succeeds, and the client that keeps the new window and raises
  -- `highest` to it buffers.
  pub store-Buffers :
      {out : List ℕ} {k : ℕ} (client_seq_num : ℕ)
      → Known s c out
      → Entries s c.window c.expected c.eof_seq c.final_packet_seq k
      → IsGenuine s c.expected r
      → Learned s c r
      → k ≤ r.seq_num
      → c.expected < r.seq_num
      → r.seq_num < c.expected + c.window.size
      → (b : Buffer) × (window_add c.window r.seq_num (take r.len r.buf)
          ≡ some (put_slot c.window r.seq_num b))
        × Buffers s
            (record c {
              window = put_slot c.window r.seq_num b;
              highest = r.seq_num;
              client_seq_num = client_seq_num;
            })
            out
  unfolding put_slot
  store-Buffers client_seq_num known entries g learned le lt near =
      let (b, here) = slot-some known.window_valid r.seq_num in
      let stored = Stored-IsGenuine g learned lt b in
      let new = added r.seq_num (take r.len r.buf) b in
      (
        new,
        window_add_at c.window r.seq_num _ here (genuine_len ok c.expected g),
        record {
          flushes = record {
            known =
                Known-update _ r.seq_num client_seq_num
                  (put_slot-IsValid known.window_valid r.seq_num new) known;
            entries =
                Entries-add s r.seq_num known.window_valid (omega arith) near le (λ q. q) (λ q. q)
                  stored entries;
            ahead = omega arith;
            near = near;
            top = (new, slot-put_slot_self known.window_valid r.seq_num r.seq_num new refl, stored);
          };
          hole = lt;
        },
      )
