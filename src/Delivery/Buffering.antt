-- ===== src/Delivery/Buffering.antt =====
-- `buffer` keeps what it promises on a genuine packet, in a network that does not reorder.
use cpe464_a.Base.{
  ℕ, ◌+◌, ◌≤◌, ◌<◌, ◌≡◌, ◌⊎◌, inl, inr, some, arith, List, [], ◌∷◌, ◌==◌, append-nil, if◌then◌else◌,
  eq→==, ne→==, le→ltb, Bool-cases, false,
}
use cpe464_a.Process.{goes, write, stray}
use cpe464_a.Pdu.{Received, is_corrupt}
use cpe464_a.Rcopy.{State, Client, disk_bytes}
use cpe464_a.Rcopy.Receive.{note_packet, buffer_in_order, buffer_out_of_order, buffer_packet}
use cpe464_a.Window.{Buffer, slot, window_remove}
use cpe464_a.Window.Slots.{window_remove_at}
use cpe464_a.Delivery.{Stream, IsStream, IsData, IsGenuine, Buffers, Promised, ArrivesInOrder}
use cpe464_a.Delivery.Entries.{Stored-mono, Stored-learn}
use cpe464_a.Delivery.Storing.{Learned, store-Buffers}
use cpe464_a.Delivery.Packets.{Noted, note_genuine, disk_bytes-content}
use cpe464_a.Delivery.Receiving.{Noted-Known, Noted-Learned, noted_client}
use cpe464_a.Delivery.Advancing.{advanced, advance-Flushes}

pub Noted-Buffers :
    {s : Stream} (ok : IsStream s) {c : Client} {out : List ℕ} {r : Received}
    → Buffers s c out
    → (n : Noted s c r) → Buffers s (noted_client n) out
Noted-Buffers {s} ok buf n = record {
  flushes = record {
    known = Noted-Known ok buf.flushes.known n;
    entries = λ i lo hi.
        let (b, here, entry) = buf.flushes.entries i lo hi in
        (b, here, Stored-mono s (omega arith) n.eof_kept n.final_kept entry);
    ahead = buf.flushes.ahead;
    near = buf.flushes.near;
    top =
        let (b, here, st) = buf.flushes.top in
        (b, here, Stored-learn s (omega arith) n.eof_kept n.final_kept st);
  };
  hole = buf.hole;
}

module _ {s : Stream} (ok : IsStream s) (c : Client) (r : Received) where
  pub buffer_in_order-data :
      {b : Buffer}
      → IsData s c.expected r
      → r.seq_num ≡ c.expected
      → slot c.window c.expected ≡ some b
      → buffer_in_order c r
        ≡ goes State.flush (advanced c b) (write (s.chunk c.expected) ∷ stray ∷ [])
  unfolding buffer_in_order
  buffer_in_order-data {b} g at here = rw (disk, removed, buffer_in_order)
    where
      disk : disk_bytes r.len r.buf ≡ some (s.chunk c.expected)
      disk =
          rw (← at, g.data_len)
            (disk_bytes-content (s.chunk r.seq_num) r.buf (ok.some_bytes _ g.from_one g.to_count)
              (ok.fits _) g.payload)

      removed : window_remove c.window r.seq_num ≡ some (advanced c b).window
      removed = rw at (window_remove_at c.window c.expected here)

  module _ {out : List ℕ} (buf : Buffers s c out) where
    buffer_in_order-Promised :
        IsData s c.expected r → r.seq_num ≡ c.expected → Promised s out (buffer_in_order c r)
    buffer_in_order-Promised g at =
        let (b, here, entry) =
          buf.flushes.entries c.expected (omega arith)
            (omega (arith, buf.flushes.known.window_valid.positive)) in
        rw (buffer_in_order-data g at here, append-nil (s.chunk c.expected))
          (advance-Flushes ok buf.flushes here buf.hole)

    buffer_out_of_order-Promised :
        IsGenuine s c.expected r
        → Learned s c r
        → r.seq_num < c.expected + c.window.size
        → c.highest < r.seq_num
        → Promised s out (buffer_out_of_order c r)
    unfolding buffer_out_of_order
    buffer_out_of_order-Promised g learned near above =
        let (w, stored, buffers) =
          store-Buffers ok c.client_seq_num buf.flushes.known buf.flushes.entries g learned
            (omega arith) (omega (arith, buf.hole)) near in
        rw (stored, buffer_out_of_order, append-nil out) buffers

module _ (in_cksum : List ℕ → ℕ) (c c' : Client) (r : Received) where
  pub buffer_packet-noted :
      is_corrupt in_cksum r ≡ false
      → c.expected ≤ r.seq_num
      → note_packet c r ≡ c'
      → buffer_packet in_cksum c r
        ≡ (if r.seq_num == c'.expected then buffer_in_order c' r else buffer_out_of_order c' r)
  unfolding buffer_packet
  buffer_packet-noted clean le noted = rw (clean, le→ltb r.seq_num c.expected le, noted)

module _ (in_cksum : List ℕ → ℕ) {s : Stream} (ok : IsStream s) {c : Client} {out : List ℕ} where
  -- A genuine packet that passes the checksum test, the expected one or one ahead of all.
  buffer_genuine-Promised :
      (r : Received)
      → Buffers s c out
      → is_corrupt in_cksum r ≡ false
      → IsGenuine s c.expected r
      → r.seq_num < c.expected + c.window.size
      → (r.seq_num ≡ c.expected) ⊎ (c.highest < r.seq_num)
      → Promised s out (buffer_packet in_cksum c r)
  buffer_genuine-Promised r buf clean g near order = elim order [
    | inl at ↦
        rw (buffer_packet-noted in_cksum c c' r clean (omega arith) n.noted, eq→== _ _ at)
          (buffer_in_order-Promised ok c' r buf' (expected_data at) at)
    | inr above ↦
        rw
          (
            buffer_packet-noted in_cksum c c' r clean (omega (arith, buf.hole)) n.noted,
            ne→== r.seq_num c.expected (omega (arith, buf.hole)),
          )
          (buffer_out_of_order-Promised ok c' r buf' g (Noted-Learned n) near above)
  ]
    where
      n : Noted s c r
      n = note_genuine ok buf.flushes.known r g

      c' : Client
      c' = noted_client n

      buf' : Buffers s c' out
      buf' = Noted-Buffers ok buf n

      -- The EOF packet comes after all that are stored, so it is not the expected one.
      expected_data : r.seq_num ≡ c.expected → IsData s c.expected r
      expected_data at = elim g [
        | inl is_data ↦ is_data
        | inr is_eof ↦ absurd (omega (arith, is_eof.after_all, buf.hole, buf.flushes.top.2.inside))
      ]

  -- Where the invariant of BUFFER holds, and the packet may arrive there, the invariant of the state
  -- that `buffer` goes to holds.
  pub buffer_packet-Promised :
      (r : Received)
      → Buffers s c out
      → ArrivesInOrder s in_cksum c r
      → Promised s out (buffer_packet in_cksum c r)
  unfolding buffer_packet
  buffer_packet-Promised r buf (inl bad) = rw (bad, append-nil out) buf
  buffer_packet-Promised r buf (inr (g, near, order)) = elim (Bool-cases (is_corrupt in_cksum r)) [
    | inl bad ↦ rw (bad, append-nil out) buf
    | inr clean ↦ buffer_genuine-Promised r buf clean g near order
  ]
