-- ===== src/Pdu/RoundTrip.antt =====
-- createPDU against recv_buf: what is sent arrives as it was, and passes the checksum test.
use cpe464_a.Base.{
  ℕ, ◌+◌, ◌^◌, ◌≤◌, ◌<◌, ◌≡◌, refl, false, List, [], ◌∷◌, length, take, drop, htonl_bytes, take_all,
  take-append_self, ◌++◌, arith, ap, ◌∙◌, get_or, eq→==, not,
}
use cpe464_a.Checksum.{IsBytes, max_pdu_buf, IsChecksum}
use cpe464_a.Pdu.{Received, recv_buf, read_u32, create_pdu, is_corrupt}

-- A datagram that fits is at the front of the buffer, whole, and the fields are read from it.
pub record IsWhole (stack datagram : List ℕ) (r : Received) : Type 0 where
  pub len_whole : r.len ≡ length datagram
  pub bytes_whole : take r.len r.buf ≡ datagram
  pub flag_read : r.flag ≡ get_or (datagram ++ drop (length datagram) stack) 6 0
  pub seq_num_read : r.seq_num ≡ read_u32 (datagram ++ drop (length datagram) stack) 0

pub recv_buf-IsWhole :
    (stack datagram : List ℕ)
    → length datagram ≤ max_pdu_buf
    → IsWhole stack datagram (recv_buf stack datagram)
unfolding recv_buf
recv_buf-IsWhole stack datagram h = record {
  len_whole = ap length whole;
  bytes_whole = rw whole (take-append_self datagram (drop (length datagram) stack));
  flag_read = ap (λ bs. get_or (bs ++ drop (length bs) stack) 6 0) whole;
  seq_num_read = ap (λ bs. read_u32 (bs ++ drop (length bs) stack) 0) whole;
}
  where
    whole : take max_pdu_buf datagram ≡ datagram
    whole = take_all max_pdu_buf datagram h

-- What a receiver has of a datagram that its sender built.
pub record IsReceived (seq_num flag : ℕ) (payload : List ℕ) (r : Received) : Type 0 where
  pub seq_num_kept : r.seq_num ≡ seq_num
  pub flag_kept : r.flag ≡ flag
  pub len_kept : r.len ≡ 7 + length payload
  pub payload_kept : drop 7 (take r.len r.buf) ≡ payload

module _ (in_cksum : List ℕ → ℕ) where
  pub length-create_pdu :
      (seq_num flag : ℕ) (payload : List ℕ)
      → length (create_pdu in_cksum seq_num flag payload) ≡ 7 + length payload
  unfolding create_pdu
  length-create_pdu seq_num flag payload = omega arith

  -- The checksum of a packet that `createPDU` built is 0.
  pub in_cksum-create_pdu :
      IsChecksum in_cksum
      → (seq_num flag : ℕ) (payload : List ℕ) → flag < 256
      → IsBytes payload
      → length payload ≤ 1400
      → in_cksum (create_pdu in_cksum seq_num flag payload) ≡ 0
  unfolding create_pdu
  in_cksum-create_pdu ck seq_num flag payload hf hb hl =
      ck.verifies _ _ _ _ (flag ∷ payload) _ header (omega arith) refl
    where
      header : IsBytes (htonl_bytes seq_num ++ (flag ∷ payload))
      header = (omega arith, (omega arith, (omega arith, (omega arith, (hf, hb)))))

  pub read_u32-create_pdu :
      (seq_num flag : ℕ) (payload rest : List ℕ)
      → seq_num < 2 ^ 32
      → read_u32 (create_pdu in_cksum seq_num flag payload ++ rest) 0 ≡ seq_num
  unfolding create_pdu read_u32
  read_u32-create_pdu seq_num flag payload rest h = omega arith

  pub create_pdu-parts :
      (seq_num flag : ℕ) (payload rest : List ℕ)
      → (get_or (create_pdu in_cksum seq_num flag payload ++ rest) 6 0 ≡ flag)
        × (drop 7 (create_pdu in_cksum seq_num flag payload) ≡ payload)
  unfolding create_pdu
  create_pdu-parts seq_num flag payload rest = (refl, refl)

  create_pdu-IsReceived :
      (stack : List ℕ) (seq_num flag : ℕ) (payload : List ℕ)
      → seq_num < 2 ^ 32
      → length payload ≤ 1400
      → IsReceived seq_num flag payload (recv_buf stack (create_pdu in_cksum seq_num flag payload))
  create_pdu-IsReceived stack seq_num flag payload hs hl = record {
    seq_num_kept = whole.seq_num_read ∙ read_u32-create_pdu seq_num flag payload _ hs;
    flag_kept = whole.flag_read ∙ (create_pdu-parts seq_num flag payload _).0;
    len_kept = whole.len_whole ∙ length-create_pdu seq_num flag payload;
    payload_kept = ap (drop 7) whole.bytes_whole ∙ (create_pdu-parts seq_num flag payload []).1;
  }
    where
      whole :
          IsWhole stack
            (create_pdu in_cksum seq_num flag payload)
            (recv_buf stack (create_pdu in_cksum seq_num flag payload))
      whole = recv_buf-IsWhole stack _ (omega (arith, length-create_pdu seq_num flag payload))

  -- If in_cksum is a checksum, then a packet that createPDU builds from a sequence number below
  -- 2^32, a flag below 256 and a payload of at most 1400 bytes, received by recv_buf into a buffer
  -- of any content, passes the test for flipped bits, and its sequence number, flag, length and
  -- payload come out as they went in.
  pub recv_buf-create_pdu :
      IsChecksum in_cksum
      → (stack : List ℕ) (seq_num flag : ℕ) (payload : List ℕ) → seq_num < 2 ^ 32
      → flag < 256
      → IsBytes payload
      → length payload ≤ 1400
      → let r = recv_buf stack (create_pdu in_cksum seq_num flag payload) in
        (is_corrupt in_cksum r ≡ false) × IsReceived seq_num flag payload r
  unfolding is_corrupt
  recv_buf-create_pdu ck stack seq_num flag payload hs hf hb hl =
      (ap not (eq→== _ 0 clean), create_pdu-IsReceived stack seq_num flag payload hs hl)
    where
      whole :
          IsWhole stack
            (create_pdu in_cksum seq_num flag payload)
            (recv_buf stack (create_pdu in_cksum seq_num flag payload))
      whole = recv_buf-IsWhole stack _ (omega (arith, length-create_pdu seq_num flag payload))

      clean :
          in_cksum (
            take
              (recv_buf stack (create_pdu in_cksum seq_num flag payload)).len
              (recv_buf stack (create_pdu in_cksum seq_num flag payload)).buf)
          ≡ 0
      clean = ap in_cksum whole.bytes_whole ∙ in_cksum-create_pdu ck seq_num flag payload hf hb hl
