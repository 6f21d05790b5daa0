-- ===== src/Service/Link.antt =====
-- The two ends of the link: what the client gets of what the server sends, and the server of what
-- the client sends.
use cpe464_a.Base.{
  ℕ, ◌+◌, ◌^◌, ◌≤◌, ◌<◌, ◌≡◌, ◌≢◌, ◌⊎◌, inl, inr, false, List, [], ◌∷◌, length, arith, sym, ◌∙◌,
  refl, subst, htonl_bytes, ntohl-htonl,
}
use cpe464_a.Checksum.{IsBytes, IsChecksum}
use cpe464_a.Flag
use cpe464_a.Process.{Action, send, write, stray}
use cpe464_a.Pdu.{recv_buf, read_u32, create_pdu, send_buf, is_corrupt}
use cpe464_a.Pdu.RoundTrip.{recv_buf-create_pdu}
use cpe464_a.Rcopy.{Client, send_seq}
use cpe464_a.Delivery.{IsGenuine}
use cpe464_a.Delivery.Transfer.{drop-take}
use cpe464_a.Server.Sending.{part}
use cpe464_a.Server.Cutting.{cut}
use cpe464_a.Service.{
  Fills, IsDataFlag, IsSent, AllSent, IsOther, Transmits, resent, eof_sent, empty_sent, data_packet,
  eof_packet, empty_datagram,
}
use cpe464_a.Service.Lengths.{part-le}

data_flag_lt : {flag : ℕ} → IsDataFlag flag → (flag < 256) × (flag ≢ Flag.end_of_file)
data_flag_lt (inl is) = (omega arith, omega arith)
data_flag_lt (inr (inl is)) = (omega arith, omega arith)
data_flag_lt (inr (inr is)) = (omega arith, omega arith)

IsOther-IsSent :
    (in_cksum : List ℕ → ℕ) (n : ℕ) (file : List ℕ) (count next : ℕ) (datagram : List ℕ)
    → IsOther in_cksum n file count next datagram
    → IsSent in_cksum n file count datagram
IsOther-IsSent in_cksum n file count next datagram (resent i flag from before to again is) =
    data_packet i flag from to (inr again) is
IsOther-IsSent in_cksum n file count next datagram (eof_sent byte past is) = eof_packet byte is
IsOther-IsSent in_cksum n file count next datagram (empty_sent is) = empty_datagram is

-- What a run sends are such datagrams.
pub Transmits-AllSent :
    (in_cksum : List ℕ → ℕ) (n : ℕ) (file : List ℕ) (count from to : ℕ) (acts : List Action)
    → 1 ≤ from
    → Transmits in_cksum n file count from to acts
    → AllSent in_cksum n file count acts
Transmits-AllSent in_cksum n file count from to [] pos is = tt
Transmits-AllSent in_cksum n file count from to (send datagram ∷ acts) pos (inl (new, is)) = (
  data_packet from Flag.data_flag pos new.to_count (inl refl) new.bytes,
  Transmits-AllSent in_cksum n file count (from + 1) to acts (omega arith) is,
)
Transmits-AllSent in_cksum n file count from to (send datagram ∷ acts) pos (inr (other, is)) = (
  IsOther-IsSent in_cksum n file count from datagram other,
  Transmits-AllSent in_cksum n file count from to acts pos is,
)
Transmits-AllSent in_cksum n file count from to (write bytes ∷ acts) pos is = is
Transmits-AllSent in_cksum n file count from to (stray ∷ acts) pos is =
    Transmits-AllSent in_cksum n file count from to acts pos is

module _ (in_cksum : List ℕ → ℕ) where
  IsBytes-payload :
      (seq_num flag : ℕ) (payload : List ℕ)
      → IsBytes (create_pdu in_cksum seq_num flag payload)
      → IsBytes payload
  unfolding create_pdu htonl_bytes
  IsBytes-payload seq_num flag payload bytes = bytes.1.1.1.1.1.1.1

  pub IsBytes-htonl_bytes : (number : ℕ) → IsBytes (htonl_bytes number)
  unfolding htonl_bytes
  IsBytes-htonl_bytes number = (omega arith, (omega arith, (omega arith, (omega arith, tt))))

  pub length-htonl_bytes : (number : ℕ) → length (htonl_bytes number) ≤ 1400
  unfolding htonl_bytes
  length-htonl_bytes number = omega arith

  pub number_read :
      (stack : List ℕ) (seq_num flag number : ℕ)
      → number < 2 ^ 32
      → read_u32 (recv_buf stack (create_pdu in_cksum seq_num flag (htonl_bytes number))).buf 7
        ≡ number
  unfolding recv_buf create_pdu htonl_bytes read_u32
  number_read stack seq_num flag number lt = ntohl-htonl number lt

  module _ (ck : IsChecksum in_cksum) where
    -- If in_cksum is a checksum, then an answer of the client with a flag below 256, a number
    -- below 2^32 and its own sequence number below 2^32, received by recv_buf into a buffer of any
    -- content, passes the test for flipped bits, and the server reads the flag, the sequence
    -- number and the number at offset 7 as they went in.
    pub recv_buf-send_seq :
        (c : Client) (flag number : ℕ) (stack : List ℕ)
        → c.client_seq_num < 2 ^ 32
        → flag < 256
        → number < 2 ^ 32
        → (datagram : List ℕ) × (send_seq in_cksum c flag number ≡ send datagram)
          × (is_corrupt in_cksum (recv_buf stack datagram) ≡ false)
          × ((recv_buf stack datagram).flag ≡ flag)
          × ((recv_buf stack datagram).seq_num ≡ c.client_seq_num)
          × (read_u32 (recv_buf stack datagram).buf 7 ≡ number)
    unfolding send_seq send_buf
    recv_buf-send_seq c flag number stack seq_lt flag_lt lt =
        let (clean, got) =
          recv_buf-create_pdu in_cksum ck stack c.client_seq_num flag (htonl_bytes number) seq_lt
            flag_lt (IsBytes-htonl_bytes number) (length-htonl_bytes number) in
        (
          create_pdu in_cksum c.client_seq_num flag (htonl_bytes number),
          refl,
          clean,
          got.flag_kept,
          got.seq_num_kept,
          number_read stack c.client_seq_num flag number lt,
        )

    module _ {n : ℕ} {file : List ℕ} {count : ℕ} (fl : Fills n file count)
        (in_word : count + 2 < 2 ^ 32) where
      -- Let in_cksum be a checksum. A datagram of bytes that the server may send of a file with
      -- count packets, count + 2 below 2^32, is either empty, or passes the client's test for
      -- flipped bits once recv_buf has received it into a buffer of any content, and is then a
      -- packet of the file's stream as the client's theorems admit it, provided that it is EOF, or
      -- under the flag DATA, or its number is at most the one that the client expects.
      pub IsSent-IsGenuine :
          (datagram stack : List ℕ) (expected : ℕ)
          → IsBytes datagram
          → IsSent in_cksum n file count datagram
          → ((recv_buf stack datagram).flag ≡ Flag.end_of_file)
            ⊎ ((recv_buf stack datagram).flag ≡ Flag.data_flag)
            ⊎ ((recv_buf stack datagram).seq_num ≤ expected)
          → (datagram ≡ [])
            ⊎ ((is_corrupt in_cksum (recv_buf stack datagram) ≡ false)
                × IsGenuine (cut n file count) expected (recv_buf stack datagram))
      IsSent-IsGenuine datagram stack expected bytes (empty_datagram is) may = inl is
      IsSent-IsGenuine datagram stack expected bytes (eof_packet byte is) may =
          let packet = create_pdu in_cksum (count + 1) Flag.end_of_file (byte ∷ []) in
          let (clean, got) =
            recv_buf-create_pdu in_cksum ck stack (count + 1) Flag.end_of_file (byte ∷ [])
              (omega arith) (omega arith) (IsBytes-payload _ _ _ (subst IsBytes is bytes))
              (omega arith) in
          inr (
            rw is (
              clean,
              inr (record {
                after_all = got.seq_num_kept;
                eof_flag = got.flag_kept;
                eof_len = omega (arith, got.len_kept);
              }),
            ))
      IsSent-IsGenuine datagram stack expected bytes (data_packet i flag from to is_flag is) may =
          let (clean, got) =
            recv_buf-create_pdu in_cksum ck stack i flag (part n file i) (omega arith)
              (data_flag_lt is_flag).0 (IsBytes-payload _ _ _ (subst IsBytes is bytes))
              (omega (arith, part-le fl i, fl.size_le)) in
          inr (
            rw is (
              clean,
              inl (record {
                from_one = omega (arith, got.seq_num_kept);
                to_count = omega (arith, got.seq_num_kept);
                data_len = rw (got.seq_num_kept) got.len_kept;
                payload = rw (got.seq_num_kept) (
                    sym (drop-take 7 (length (part n file i)) _ _ got.len_kept) ∙ got.payload_kept);
                not_eof = λ q. (data_flag_lt is_flag).1 (sym got.flag_kept ∙ q);
                retransmitted = λ other.
                    elim (subst
                      (λ d.
                        ((recv_buf stack d).flag ≡ Flag.end_of_file)
                        ⊎ ((recv_buf stack d).flag ≡ Flag.data_flag)
                        ⊎ ((recv_buf stack d).seq_num ≤ expected))
                      is may) [
                        | inl eof ↦ absurd ((data_flag_lt is_flag).1 (sym got.flag_kept ∙ eof))
                        | inr (inl plain) ↦ absurd (other plain)
                        | inr (inr before) ↦ before
                      ];
              }),
            ))
