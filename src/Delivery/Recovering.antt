-- ===== src/Delivery/Recovering.antt =====
-- `recv_data` and `buffer` of rcopy.c while one packet is missing.
use cpe464_a.Base.{
  ℕ, ◌+◌, ◌%◌, ◌≤◌, ◌<◌, ◌≡◌, ◌≢◌, ◌⊎◌, inl, inr, some, false, List, [], ◌∷◌, ◌++◌, arith, ap, refl,
  sym, ◌∙◌, u32, take, htonl_bytes, eq→==, ne→==, lt→ltb,
}
use native.Mathlib.Decide.{dec_lt}
use cpe464_a.Flag
use cpe464_a.Process.{send, write, stray, goes}
use cpe464_a.Pdu.{Received, is_corrupt, create_pdu, send_buf}
use cpe464_a.Window.{Buffer, Window, slot, put_slot, window_add}
use cpe464_a.Window.Slots.{slot-put_slot_ne, index_injective}
use cpe464_a.Rcopy.{State, Client, send_seq}
use cpe464_a.Rcopy.Receive.{
  recv_data_packet, recv_out_of_order, buffer_packet, buffer_out_of_order, note_packet,
}
use cpe464_a.Delivery.{Stream, IsStream, IsData, Receives, Flushes, Buffers}
use cpe464_a.Delivery.Packets.{note_genuine}
use cpe464_a.Delivery.Storing.{store-Buffers}
use cpe464_a.Delivery.Receiving.{
  noted_client, Noted-Receives, Noted-Learned, recv_data_packet-noted,
}
use cpe464_a.Delivery.Buffering.{Noted-Buffers, buffer_packet-noted, buffer_in_order-data}
use cpe464_a.Delivery.Advancing.{advanced, advance-Flushes}

-- Every packet from `lo` to `highest` is in the window.
abbrev pub IsSolid : Client → ℕ → Type 0
IsSolid c lo =
    (i : ℕ) → lo ≤ i → i ≤ c.highest → (b : Buffer) × (slot c.window i ≡ some b) × (b.valid ≡ 1)

-- The highest one is.
top-IsSolid : {s : Stream} {c : Client} {out : List ℕ} → Flushes s c out → IsSolid c c.highest
top-IsSolid {s} {c} fl i from to =
    let same : i ≡ c.highest = omega arith in
    (fl.top.0, ap (slot c.window) same ∙ fl.top.1, fl.top.2.marked)

-- Another entry, above `highest` or below `lo`, leaves the packets between them.
pub put_slot-IsSolid :
    (c : Client) (lo j : ℕ) (b : Buffer) (i : ℕ)
    → 0 < c.window.size
    → IsSolid c lo
    → lo ≤ i
    → i ≤ c.highest
    → (j < lo) × (c.highest < j + c.window.size) ⊎ (c.highest < j) × (j < lo + c.window.size)
    → (b' : Buffer) × (slot (put_slot c.window j b) i ≡ some b') × (b'.valid ≡ 1)
put_slot-IsSolid c lo j b i pos solid from to apart =
    let (b', here, marked) = solid i from to in
    (b', slot-put_slot_ne c.window j i b ne ∙ here, marked)
  where
    ne : j % c.window.size ≢ i % c.window.size
    ne q = elim apart [
      | inl (below, near) ↦
          let same = index_injective c.window.size j i pos (omega arith) (omega arith) q in
          omega (arith, same)
      | inr (above, near) ↦
          let same = index_injective c.window.size i j pos (omega arith) (omega arith) (sym q) in
          omega (arith, same)
    ]

module _ (in_cksum : List ℕ → ℕ) (c' : Client) (r : Received) {w : Window}
    (stored : window_add c'.window r.seq_num (take r.len r.buf) ≡ some w) where
  pub recv_out_of_order_at :
      recv_out_of_order in_cksum c' r
      ≡ goes State.buffer
          (record c' {
            window = w;
            highest = r.seq_num;
            client_seq_num = u32 (c'.client_seq_num + 1);
          })
          (send (create_pdu in_cksum c'.client_seq_num Flag.srej (htonl_bytes c'.expected)) ∷ [])
  unfolding recv_out_of_order send_seq send_buf
  recv_out_of_order_at = rw (stored, recv_out_of_order) refl

  pub buffer_out_of_order_at :
      buffer_out_of_order c' r
      ≡ goes State.buffer (record c' { window = w; highest = r.seq_num }) []
  unfolding buffer_out_of_order
  buffer_out_of_order_at = rw (stored, buffer_out_of_order) refl

module _ (in_cksum : List ℕ → ℕ) {s : Stream} (ok : IsStream s) {c : Client} {out : List ℕ} where
  -- A packet after the expected one is asked for and kept.
  pub recv_data_packet-ahead :
      (r : Received)
      → Receives s c out
      → is_corrupt in_cksum r ≡ false
      → IsData s c.expected r
      → r.seq_num ≡ c.expected + 1
      → 1 < c.window.size
      → (c' : Client) × (recv_data_packet in_cksum c r
          ≡ goes State.buffer c'
              (send (create_pdu in_cksum c.client_seq_num Flag.srej (htonl_bytes c.expected)) ∷ []))
        × Buffers s c' out
        × IsSolid c' (c.expected + 1)
        × (c'.expected ≡ c.expected)
        × (c'.highest ≡ c.expected + 1)
        × (c'.window.size ≡ c.window.size)
        × (c'.client_seq_num ≡ u32 (c.client_seq_num + 1))
  unfolding put_slot
  recv_data_packet-ahead r rec clean g at room =
      let n = note_genuine ok rec.known r (inl g) in
      let rec' = Noted-Receives ok rec n in
      let (b, stored, buffers) =
        store-Buffers ok (u32 (c.client_seq_num + 1)) rec'.known rec'.empty (inl g)
          (Noted-Learned n) (omega arith) (omega (arith, at)) (omega (arith, at)) in
      (
        record (noted_client n) {
          window = put_slot c.window r.seq_num b;
          highest = r.seq_num;
          client_seq_num = u32 (c.client_seq_num + 1);
        },
        recv_data_packet-noted in_cksum c (noted_client n) r clean n.noted
            ∙ rw
                (
                  ne→== r.seq_num c.expected (omega (arith, at)),
                  lt→ltb c.expected r.seq_num (omega (arith, at)),
                )
                refl
            ∙ recv_out_of_order_at in_cksum (noted_client n) r stored,
        buffers,
        (λ i from to. top-IsSolid buffers.flushes i (omega (arith, at)) to),
        refl,
        at,
        refl,
        refl,
      )

  -- So is each packet after the highest one, without a word.
  pub buffer_packet-ahead :
      (r : Received)
      → Buffers s c out
      → IsSolid c (c.expected + 1)
      → is_corrupt in_cksum r ≡ false
      → IsData s c.expected r
      → r.seq_num ≡ c.highest + 1
      → r.seq_num < c.expected + c.window.size
      → (c' : Client) × (buffer_packet in_cksum c r ≡ goes State.buffer c' [])
        × Buffers s c' out
        × IsSolid c' (c.expected + 1)
        × (c'.expected ≡ c.expected)
        × (c'.highest ≡ c.highest + 1)
        × (c'.window.size ≡ c.window.size)
        × (c'.client_seq_num ≡ c.client_seq_num)
  unfolding put_slot
  buffer_packet-ahead r buf solid clean g at near =
      let n = note_genuine ok buf.flushes.known r (inl g) in
      let buf' = Noted-Buffers ok buf n in
      let (b, stored, buffers) =
        store-Buffers ok c.client_seq_num buf'.flushes.known buf'.flushes.entries (inl g)
          (Noted-Learned n) (omega (arith, at)) (omega (arith, at, buf.hole)) near in
      (
        record (noted_client n) { window = put_slot c.window r.seq_num b; highest = r.seq_num },
        buffer_packet-noted in_cksum c (noted_client n) r clean (omega (arith, at, buf.hole))
              n.noted
            ∙ rw (ne→== r.seq_num c.expected (omega (arith, at, buf.hole))) refl
            ∙ buffer_out_of_order_at in_cksum (noted_client n) r stored,
        buffers,
        (λ i from to. elim (dec_lt c.highest i) [
          | yes new ↦ top-IsSolid buffers.flushes i (omega (arith, at)) to
          | no old ↦
              put_slot-IsSolid c (c.expected + 1) r.seq_num b i
                buf.flushes.known.window_valid.positive solid from (omega arith)
                (inr (omega (arith, at), omega arith))
        ]),
        refl,
        at,
        refl,
        refl,
      )

  -- The missing packet, sent again, is written.
  pub buffer_packet-fills :
      (r : Received)
      → Buffers s c out
      → IsSolid c (c.expected + 1)
      → is_corrupt in_cksum r ≡ false
      → IsData s c.expected r
      → r.seq_num ≡ c.expected
      → r.flag ≡ Flag.srej_retran
      → (c' : Client) × (buffer_packet in_cksum c r
          ≡ goes State.flush c' (write (s.chunk c.expected) ∷ stray ∷ []))
        × Flushes s c' (out ++ s.chunk c.expected)
        × IsSolid c' c'.expected
        × (c'.expected ≡ c.expected + 1)
        × (c'.highest ≡ c.highest)
        × (c'.client_seq_num ≡ c.client_seq_num)
  unfolding note_packet put_slot
  buffer_packet-fills r buf solid clean g at flag =
      let (b, here, entry) =
        buf.flushes.entries c.expected (omega arith)
          (omega (arith, buf.flushes.known.window_valid.positive)) in
      let next : u32 (c.expected + 1) ≡ c.expected + 1 =
        omega (arith, ok.bounded, g.to_count, at) in
      (
        advanced c b,
        buffer_packet-noted in_cksum c c r clean (omega (arith, at)) (rw flag refl)
            ∙ rw (eq→== r.seq_num c.expected at) refl
            ∙ buffer_in_order-data ok c r g at here,
        advance-Flushes ok buf.flushes here buf.hole,
        (λ i from to.
            put_slot-IsSolid c (c.expected + 1) c.expected _ i
              buf.flushes.known.window_valid.positive solid (omega (arith, next)) to
              (inl (omega arith, buf.flushes.near))),
        next,
        refl,
        refl,
      )
