-- ===== src/Delivery/Progress.antt =====
-- `recv_data` makes progress on the packet that it expects.
use cpe464_a.Base.{
  ℕ, ◌+◌, ◌≡◌, inl, inr, arith, List, [], ◌∷◌, ◌++◌, refl, subst, eq→==, false, u32, htonl_bytes,
}
use cpe464_a.Flag
use cpe464_a.Pdu.{Received, is_corrupt, create_pdu, send_buf}
use cpe464_a.Process.{Action, sent, written, goes, exits, write}
use cpe464_a.Rcopy.{State, Client, send_seq}
use cpe464_a.Rcopy.Receive.{recv_data_packet}
use cpe464_a.Delivery.{Stream, IsStream, delivered, IsData, IsEof, Receives, Promised}
use cpe464_a.Delivery.Packets.{Noted, note_genuine}
use cpe464_a.Delivery.Receiving.{
  recv_in_order-data, recv_in_order-eof, recv_data_packet-noted, recv_genuine-Promised,
}

module _ (in_cksum : List ℕ → ℕ) {s : Stream} (ok : IsStream s) {c : Client} {out : List ℕ} where
  -- The expected data packet is written and answered by an RR for the next one, and the client stays
  -- in RECV_DATA for that.
  pub recv_data_packet-next :
      (r : Received)
      → Receives s c out
      → is_corrupt in_cksum r ≡ false
      → IsData s c.expected r
      → r.seq_num ≡ c.expected
      → (c' : Client) × (acts : List Action) × (recv_data_packet in_cksum c r
          ≡ goes State.recv_data c' acts)
        × Receives s c' (out ++ written acts)
        × (c'.expected ≡ c.expected + 1)
        × (sent acts
            ≡ create_pdu in_cksum c.client_seq_num Flag.rr (htonl_bytes (u32 (r.seq_num + 1))) ∷ [])
        × (c'.client_seq_num ≡ u32 (c.client_seq_num + 1))
  unfolding send_seq send_buf
  recv_data_packet-next r rec clean g at = (
    _,
    _,
    runs,
    subst (Promised s out) runs (
        recv_genuine-Promised in_cksum ok r rec clean (inl g)
          (omega (arith, rec.known.window_valid.positive))),
    omega (arith, ok.bounded, g.to_count),
    refl,
    refl,
  )
    where
      n : Noted s c r
      n = note_genuine ok rec.known r (inl g)

      c' : Client
      c' = record c {
        final_packet_len = n.final_len;
        final_packet_seq = n.final_seq;
        eof_seq = n.eof;
      }

      runs :
          recv_data_packet in_cksum c r
          ≡ goes State.recv_data
              (record c' {
                highest = c.expected;
                expected = u32 (c.expected + 1);
                client_seq_num = u32 (c.client_seq_num + 1);
              })
              (send_seq in_cksum c' Flag.rr (u32 (r.seq_num + 1)) ∷ write (s.chunk r.seq_num) ∷ [])
      runs =
          rw (recv_data_packet-noted in_cksum c c' r clean n.noted, eq→== _ _ at)
            (recv_in_order-data in_cksum ok c' r g)

  -- The EOF packet in its turn is answered by an EOF_ACK and ends the program, with the whole file on
  -- the disk.
  pub recv_data_packet-last :
      (r : Received)
      → Receives s c out
      → is_corrupt in_cksum r ≡ false
      → IsEof s r
      → r.seq_num ≡ c.expected
      → (acts : List Action) × (recv_data_packet in_cksum c r ≡ exits 0 acts)
        × (out ++ written acts ≡ delivered s s.count)
        × (sent acts
            ≡ create_pdu in_cksum c.client_seq_num Flag.eof_ack (htonl_bytes (u32 (r.seq_num + 1)))
              ∷ [])
  unfolding send_seq send_buf
  recv_data_packet-last r rec clean g at = (
    _,
    runs,
    (subst (Promised s out) runs (
          recv_genuine-Promised in_cksum ok r rec clean (inr g)
            (omega (arith, rec.known.window_valid.positive)))).1
        refl,
    refl,
  )
    where
      n : Noted s c r
      n = note_genuine ok rec.known r (inr g)

      c' : Client
      c' = record c {
        final_packet_len = n.final_len;
        final_packet_seq = n.final_seq;
        eof_seq = n.eof;
      }

      runs :
          recv_data_packet in_cksum c r
          ≡ exits 0 (send_seq in_cksum c' Flag.eof_ack (u32 (r.seq_num + 1)) ∷ [])
      runs =
          rw (recv_data_packet-noted in_cksum c c' r clean n.noted, eq→== _ _ at)
            (recv_in_order-eof in_cksum ok c' r g.eof_flag)
