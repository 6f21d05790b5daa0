-- ===== src/Delivery/Receiving.antt =====
-- `recv_data` keeps what it promises on a genuine packet.
use cpe464_a.Base.{
  ℕ, ◌+◌, ◌-◌, ◌≤◌, ◌<◌, ◌≡◌, inl, inr, ◌∙◌, ap, arith, List, [], ◌∷◌, ◌==◌, ◌++◌, append-nil,
  if◌then◌else◌, eq→==, ne→==, lt→ltb, le→ltb, Bool-cases, false, ltb, u32,
}
use native.Mathlib.Decide.{dec_lt, ℕ_discrete}
use cpe464_a.Flag
use cpe464_a.Pdu.{Received, is_corrupt}
use cpe464_a.Process.{goes, exits, write}
use cpe464_a.Window.Slots.{IsValid}
use cpe464_a.Rcopy.{State, Client, send_seq}
use cpe464_a.Rcopy.Receive.{
  note_packet, recv_in_order, recv_out_of_order, recv_old, recv_data_packet,
}
use cpe464_a.Window.{Buffer, Window}
use cpe464_a.Delivery.{
  Stream, IsStream, delivered, IsData, IsGenuine, Known, Receives, IsPrefix, Promised, Arrives,
  IsEntry,
}
use cpe464_a.Delivery.Entries.{Entries-advance, Stored-mono}
use cpe464_a.Delivery.Storing.{Learned, Known-update, store-Buffers}
use cpe464_a.Delivery.Packets.{Noted, note_genuine, disk_bytes-content, delivered-suc}

pub Known-IsPrefix : {s : Stream} {c : Client} {out : List ℕ} → Known s c out → IsPrefix s out
Known-IsPrefix {s} {c} known =
    (c.expected - 1, omega (arith, known.within, known.started), known.disk)

module _ {s : Stream} (ok : IsStream s) {c : Client} {out : List ℕ} where
  -- The variables that `note_packet` sets keep the invariant.
  pub Noted-Known :
      {r : Received}
      → Known s c out
      → (n : Noted s c r)
      → Known s
          (record c {
            final_packet_len = n.final_len;
            final_packet_seq = n.final_seq;
            eof_seq = n.eof;
          })
          out
  Noted-Known known n = record {
    window_valid = known.window_valid;
    started = known.started;
    within = known.within;
    data_len_known = known.data_len_known;
    eof_is = n.eof_still;
    final_is = n.final_still;
    disk = known.disk;
  }

  -- Writing the expected chunk and counting on keeps it.
  pub advance-Known :
      (window : Window) (highest client_seq_num : ℕ)
      → Known s c out
      → IsValid window
      → c.expected ≤ s.count
      → Known s
          (record c {
            window = window;
            highest = highest;
            expected = u32 (c.expected + 1);
            client_seq_num = client_seq_num;
          })
          (out ++ s.chunk c.expected)
  advance-Known window highest client_seq_num known valid le = record {
    window_valid = valid;
    started = omega (arith, ok.bounded);
    within = omega (arith, ok.bounded);
    data_len_known = known.data_len_known;
    eof_is = known.eof_is;
    final_is = known.final_is;
    disk =
        let next : u32 (c.expected + 1) - 1 ≡ c.expected = omega (arith, ok.bounded) in
        rw (next, known.disk) (delivered-suc s c.expected known.started);
  }

-- The variables once the packet is noted.
abbrev pub noted_client : {s : Stream} {c : Client} {r : Received} → Noted s c r → Client
noted_client {s} {c} {r} n = record c {
  final_packet_len = n.final_len;
  final_packet_seq = n.final_seq;
  eof_seq = n.eof;
}

pub Noted-Receives :
    {s : Stream} (ok : IsStream s) {c : Client} {out : List ℕ} {r : Received}
    → Receives s c out
    → (n : Noted s c r) → Receives s (noted_client n) out
Noted-Receives {s} ok rec n = record {
  known = Noted-Known ok rec.known n;
  empty = λ i lo hi.
      let (b, here, entry) = rec.empty i lo hi in
      (b, here, Stored-mono s (omega arith) n.eof_kept n.final_kept entry);
}

-- An entry that must belong to a packet up to 0 is empty.
pub entry_empty : {s : Stream} {x y i : ℕ} {b : Buffer} → 1 ≤ i → IsEntry s x y 0 i b → b.valid ≡ 0
entry_empty le (inl empty) = empty
entry_empty le (inr st) = absurd (omega (arith, st.up_to))

pub Noted-Learned :
    {s : Stream} {c : Client} {r : Received} (n : Noted s c r)
    → Learned s
        (record c {
          final_packet_len = n.final_len;
          final_packet_seq = n.final_seq;
          eof_seq = n.eof;
        })
        r
Noted-Learned n = record { eof_seen = n.eof_seen; final_seen = n.final_seen }

module _ (in_cksum : List ℕ → ℕ) {s : Stream} (ok : IsStream s) (c : Client) (r : Received) where
  pub recv_in_order-data :
      IsData s c.expected r
      → recv_in_order in_cksum c r
        ≡ goes State.recv_data
            (record c {
              highest = c.expected;
              expected = u32 (c.expected + 1);
              client_seq_num = u32 (c.client_seq_num + 1);
            })
            (send_seq in_cksum c Flag.rr (u32 (r.seq_num + 1)) ∷ write (s.chunk r.seq_num) ∷ [])
  unfolding recv_in_order
  recv_in_order-data g = rw (
    ne→== _ _ g.not_eof,
    g.data_len,
    disk_bytes-content _ _ (ok.some_bytes _ g.from_one g.to_count) (ok.fits _) g.payload,
  )

  pub recv_in_order-eof :
      r.flag ≡ Flag.end_of_file
      → recv_in_order in_cksum c r
        ≡ exits 0 (send_seq in_cksum c Flag.eof_ack (u32 (r.seq_num + 1)) ∷ [])
  unfolding recv_in_order
  recv_in_order-eof e = rw e

  module _ {out : List ℕ} (rec : Receives s c out) where
    recv_in_order-Promised :
        IsGenuine s c.expected r
        → r.seq_num ≡ c.expected
        → Promised s out (recv_in_order in_cksum c r)
    unfolding send_seq
    recv_in_order-Promised (inl g) at =
        let (b, here, entry) =
          rec.empty c.expected (omega arith) (omega (arith, rec.known.window_valid.positive)) in
        let next : u32 (c.expected + 1) ≡ c.expected + 1 = omega (arith, ok.bounded) in
        rw (recv_in_order-data g, at, append-nil (s.chunk c.expected))
          (record {
            known =
                advance-Known ok c.window c.expected (u32 (c.client_seq_num + 1)) rec.known
                  rec.known.window_valid (omega (arith, g.to_count));
            empty = rw next (
                Entries-advance s c.window c.expected here (entry_empty rec.known.started entry)
                  rec.empty);
          })
    recv_in_order-Promised (inr g) at =
        rw (recv_in_order-eof g.eof_flag, append-nil out)
          (
            Known-IsPrefix rec.known,
            λ z.
                let all : c.expected - 1 ≡ s.count = omega (arith, g.after_all) in
                rec.known.disk ∙ ap (delivered s) all,
          )

    recv_out_of_order-Promised :
        IsGenuine s c.expected r
        → Learned s c r
        → c.expected < r.seq_num
        → r.seq_num < c.expected + c.window.size
        → Promised s out (recv_out_of_order in_cksum c r)
    unfolding send_seq recv_out_of_order
    recv_out_of_order-Promised g learned lt near =
        let (w, stored, buffers) =
          store-Buffers ok (u32 (c.client_seq_num + 1)) rec.known rec.empty g learned (omega arith)
            lt near in
        rw (stored, recv_out_of_order, append-nil out) buffers

    recv_old-Promised : Promised s out (recv_old in_cksum c r)
    unfolding recv_old send_seq
    recv_old-Promised = rw (append-nil out) (record {
      known = Known-update c.window c.highest _ rec.known.window_valid rec.known;
      empty = rec.empty;
    })

module _ (in_cksum : List ℕ → ℕ) (c c' : Client) (r : Received) where
  pub recv_data_packet-noted :
      is_corrupt in_cksum r ≡ false
      → note_packet c r ≡ c'
      → recv_data_packet in_cksum c r ≡ (
          if r.seq_num == c'.expected
          then recv_in_order in_cksum c' r
          else if ltb c'.expected r.seq_num
          then recv_out_of_order in_cksum c' r
          else recv_old in_cksum c' r)
  unfolding recv_data_packet
  recv_data_packet-noted clean noted = rw (clean, noted)

module _ (in_cksum : List ℕ → ℕ) {s : Stream} (ok : IsStream s) {c : Client} {out : List ℕ} where
  -- A genuine packet that passes the checksum test, in order, ahead or old.
  pub recv_genuine-Promised :
      (r : Received)
      → Receives s c out
      → is_corrupt in_cksum r ≡ false
      → IsGenuine s c.expected r
      → r.seq_num < c.expected + c.window.size
      → Promised s out (recv_data_packet in_cksum c r)
  recv_genuine-Promised r rec clean g near = elim (ℕ_discrete r.seq_num c.expected) [
    | yes at ↦
        rw (recv_data_packet-noted in_cksum c c' r clean n.noted, eq→== _ _ at)
          (recv_in_order-Promised in_cksum ok c' r rec' g at)
    | no other ↦ elim (dec_lt c.expected r.seq_num) [
      | yes lt ↦
          rw (recv_data_packet-noted in_cksum c c' r clean n.noted, ne→== _ _ other, lt→ltb _ _ lt)
            (recv_out_of_order-Promised in_cksum ok c' r rec' g (Noted-Learned n) lt near)
      | no old ↦
          rw
            (
              recv_data_packet-noted in_cksum c c' r clean n.noted,
              ne→== _ _ other,
              le→ltb c.expected r.seq_num (omega arith),
            )
            (recv_old-Promised in_cksum ok c' r rec')
    ]
  ]
    where
      n : Noted s c r
      n = note_genuine ok rec.known r g

      c' : Client
      c' = noted_client n

      rec' : Receives s c' out
      rec' = Noted-Receives ok rec n

  -- Where the invariant of RECV_DATA holds, recv_data's treatment of a received packet that may
  -- arrive there (damaged as the checksum shows, or genuine with its number below the end of the
  -- window; in order, ahead or old) has no fault and leaves the invariant of the state that it goes
  -- to; if it exits, the disk has a prefix of the file, and all of it if the code is 0.
  pub recv_data_packet-Promised :
      (r : Received)
      → Receives s c out
      → Arrives s in_cksum c r
      → Promised s out (recv_data_packet in_cksum c r)
  unfolding recv_data_packet
  recv_data_packet-Promised r rec (inl bad) = rw (bad, append-nil out) rec
  recv_data_packet-Promised r rec (inr (g, near)) = elim (Bool-cases (is_corrupt in_cksum r)) [
    | inl bad ↦ rw (bad, append-nil out) rec
    | inr clean ↦ recv_genuine-Promised r rec clean g near
  ]
