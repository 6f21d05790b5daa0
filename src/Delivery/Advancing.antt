-- ===== src/Delivery/Advancing.antt =====
-- The expected packet leaves the window for the disk, and the client expects the next one.
use cpe464_a.Base.{
  ℕ, ◌+◌, ◌%◌, ◌≤◌, ◌<◌, ◌≡◌, ◌≢◌, inl, inr, refl, ◌∙◌, some, arith, List, ◌++◌, u32,
}
use cpe464_a.Rcopy.{Client}
use cpe464_a.Rcopy.Flush.{take_buffered}
use cpe464_a.Window.{Buffer, slot, put_slot}
use cpe464_a.Window.Slots.{
  put_slot-IsValid, slot-put_slot_ne, slot-put_slot_self, index_injective, window_get_packet_at,
  window_remove_at,
}
use cpe464_a.Delivery.{Stream, IsStream, Stored, IsEntry, Entries, Known, Receives, Flushes}
use cpe464_a.Delivery.Entries.{Entries-advance, Entries-remove}
use cpe464_a.Delivery.Packets.{disk_bytes-content, length_of_buffered_lem}
use cpe464_a.Delivery.Receiving.{advance-Known}

-- The variables once the entry `b` of the expected packet is emptied.
abbrev pub advanced : Client → Buffer → Client
advanced c b = record c {
  window = put_slot c.window c.expected (record b { valid = 0 });
  expected = u32 (c.expected + 1);
}

module _ {s : Stream} (ok : IsStream s) {c : Client} {out : List ℕ} {b : Buffer} where
  module _ (fl : Flushes s c out) (here : slot c.window c.expected ≡ some b)
      (inside : c.expected ≤ s.count) where
    advanced-Known : Known s (advanced c b) (out ++ s.chunk c.expected)
    advanced-Known =
        advance-Known ok _ c.highest c.client_seq_num fl.known
          (put_slot-IsValid fl.known.window_valid c.expected _) inside

    advanced-Entries :
        Entries s
          (advanced c b).window
          (u32 (c.expected + 1))
          c.eof_seq
          c.final_packet_seq
          c.highest
    advanced-Entries =
        rw next
          (Entries-advance s _ c.expected emptied refl (Entries-remove s valid here fl.entries))
      where
        open fl.known use {window_valid as valid}

        next : u32 (c.expected + 1) ≡ c.expected + 1
        next = omega (arith, ok.bounded)

        emptied : slot (advanced c b).window c.expected ≡ some (record b { valid = 0 })
        emptied = slot-put_slot_self valid c.expected c.expected _ refl

  -- With more packets in the window, FLUSH goes on.
  pub advance-Flushes :
      Flushes s c out
      → slot c.window c.expected ≡ some b
      → c.expected < c.highest
      → Flushes s (advanced c b) (out ++ s.chunk c.expected)
  unfolding put_slot
  advance-Flushes fl here lt = record {
    known = advanced-Known fl here inside;
    entries = advanced-Entries fl here inside;
    ahead = omega arith;
    near = omega (arith, fl.near, next);
    top = (fl.top.0, slot-put_slot_ne c.window c.expected c.highest _ apart ∙ fl.top.1, fl.top.2);
  }
    where
      inside : c.expected ≤ s.count
      inside = omega (arith, fl.top.2.inside)

      next : u32 (c.expected + 1) ≡ c.expected + 1
      next = omega (arith, ok.bounded)

      apart : c.expected % c.window.size ≢ c.highest % c.window.size
      apart q =
          let same : c.expected ≡ c.highest =
            index_injective c.window.size c.expected c.highest fl.known.window_valid.positive
              (omega arith) fl.near q in
          omega arith

  -- With the last packet written the window is empty, and RECV_DATA follows.
  pub advance-Receives :
      Flushes s c out
      → slot c.window c.expected ≡ some b
      → c.highest ≤ c.expected
      → c.expected ≤ s.count
      → Receives s (advanced c b) (out ++ s.chunk c.expected)
  advance-Receives fl here le inside = record {
    known = advanced-Known fl here inside;
    empty = λ i lo hi.
        let (b', at, entry) = advanced-Entries fl here inside i lo hi in
        (b', at, past i (omega (arith, ok.bounded)) entry);
  }
    where
      past :
          (i : ℕ) {x : Buffer}
          → c.highest < i
          → IsEntry s c.eof_seq c.final_packet_seq c.highest i x
          → IsEntry s c.eof_seq c.final_packet_seq 0 i x
      past i lt (inl empty) = inl empty
      past i lt (inr st) = absurd (omega (arith, st.up_to))

  -- A stored packet of the file is written whole.
  pub take_buffered_at :
      Known s c out
      → slot c.window c.expected ≡ some b
      → {k : ℕ} → Stored s c.eof_seq c.final_packet_seq k c.expected b
      → c.expected ≤ s.count
      → take_buffered c c.expected ≡ some (advanced c b, s.chunk c.expected)
  unfolding take_buffered
  take_buffered_at known here st inside = rw (
    window_get_packet_at c.window c.expected here,
    length_of_buffered_lem ok known c.expected known.started inside st.final_known,
    disk_bytes-content (s.chunk c.expected) b.packet (ok.some_bytes c.expected known.started inside)
        (ok.fits _) (st.content inside),
    window_remove_at c.window c.expected here,
    take_buffered,
  )
