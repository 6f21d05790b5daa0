-- ===== src/Pdu.antt =====
-- pdu.c: the application PDU, 4 bytes of sequence number, 2 of checksum, 1 of flag, then payload.
pub mod RoundTrip
pub mod Printing
use cpe464_a.Base.{
  ℕ, ◌/◌, ◌%◌, ◌+◌, ◌-◌, Bool, not, List, [], ◌∷◌, ◌++◌, length, take, drop, get_or, htonl_bytes,
  ntohl_bytes, ◌==◌,
}
use cpe464_a.Checksum.{max_pdu_buf}
use cpe464_a.Process.{Action, send}

-- The four bytes at `at`, read by memcpy and `ntohl`.
unfoldable pub read_u32 : List ℕ → ℕ → ℕ
unfolding ntohl_bytes
read_u32 bs at =
    ntohl_bytes (get_or bs at 0) (get_or bs (at + 1) 0) (get_or bs (at + 2) 0)
      (get_or bs (at + 3) 0)

-- What `recv_buf` hands to its caller: the buffer, the length received, and the two header fields.
pub record Received : Type 0 where
  pub buf : List ℕ
  pub len : ℕ
  pub flag : ℕ
  pub seq_num : ℕ

-- `recv_buf` on a datagram, into a buffer that held `stack`. A datagram longer than the buffer is
-- cut; one shorter than the header leaves what the buffer held in the fields.
unfoldable pub recv_buf : List ℕ → List ℕ → Received
unfolding read_u32
recv_buf stack datagram =
    let got = take max_pdu_buf datagram in
    let buf = got ++ drop (length got) stack in
    record { buf = buf; len = length got; flag = get_or buf 6 0; seq_num = read_u32 buf 0 }

module _ (in_cksum : List ℕ → ℕ) where
  -- The first `7 + payloadLen` bytes of `pduBuffer` after `createPDU`.
  unfoldable pub create_pdu : ℕ → ℕ → List ℕ → List ℕ
  unfolding htonl_bytes
  create_pdu sequence_number flag payload =
      let net_seq = htonl_bytes sequence_number in
      let checksum = in_cksum (net_seq ++ (0 ∷ 0 ∷ flag ∷ payload)) in
      net_seq ++ ((checksum % 256) ∷ (checksum / 256) ∷ flag ∷ payload)

  -- `send_buf`: the packet that it builds, which is the datagram that it sends.
  unfoldable pub send_buf : ℕ → ℕ → List ℕ → Action
  send_buf client_seq_num flag payload = send (create_pdu client_seq_num flag payload)

  -- `send_init`: it builds and sends its packet as `send_buf` does.
  abbrev pub send_init : (flag client_seq_num : ℕ) → List ℕ → Action
  send_init flag client_seq_num buf = send (create_pdu client_seq_num flag buf)

  -- The test for flipped bits that the receivers make on what `recv_buf` returned.
  unfoldable pub is_corrupt : Received → Bool
  is_corrupt r = not (in_cksum (take r.len r.buf) == 0)
