-- ===== src/Session/Receiving.antt =====
-- The client in a session: what it does with the packet that it expects.
use cpe464_a.Base.{
  ℕ, ◌+◌, ◌^◌, ◌≤◌, ◌<◌, ◌≡◌, Bool, List, [], htonl_bytes, ◌∷◌, ◌++◌, arith, ap, refl, sym, ◌∙◌,
  u32,
}
use cpe464_a.Checksum.{IsBytes, IsChecksum}
use cpe464_a.Flag
use cpe464_a.Process.{Action, written, sent, arrived, goes, exits}
use cpe464_a.Pdu.{recv_buf, create_pdu}
use cpe464_a.Rcopy.{State, Client}
use cpe464_a.Rcopy.Receive.{recv_data, recv_data_packet}
use cpe464_a.Rcopy.Run.{step}
use cpe464_a.Delivery.{Receives}
use cpe464_a.Delivery.Progress.{recv_data_packet-next, recv_data_packet-last}
use cpe464_a.Delivery.Transfer.{
  answer, stream_packet, stream_packet_past, stream_packet_within, received-IsData, received-IsEof,
}
use cpe464_a.Server.Cutting.{cut, Cuts, cut-IsStream, delivered-cut}
use cpe464_a.Service.Copy.{cut-IsByteStream}
use cpe464_a.Session.Packets.{IsAnswer}

next_number : {seq_num : ℕ} (i : ℕ) → seq_num ≡ i → i + 1 < 2 ^ 32 → u32 (seq_num + 1) ≡ i + 1
next_number i is lt = omega (arith, is)

module _ (in_cksum atoi : List ℕ → ℕ) (calloc : ℕ → ℕ → Bool) (argv : List (List ℕ)) where
  recv_data-hears :
      (c : Client) (stack datagram : List ℕ)
      → step in_cksum atoi calloc argv State.recv_data c (answer (arrived stack datagram))
        ≡ recv_data_packet in_cksum c (recv_buf stack datagram)
  unfolding step recv_data
  recv_data-hears c stack datagram = refl

  module _ (ck : IsChecksum in_cksum) {n : ℕ} {file : List ℕ} {count byte : ℕ}
      (cuts : Cuts n file count) (bytes : IsBytes file) (small : byte < 256) (c : Client)
      (out stack : List ℕ) (rec : Receives (cut n file count) c out)
      (in_word : c.client_seq_num < 2 ^ 32) where
    -- The packet that the client expects.
    abbrev due : List ℕ
    due = stream_packet in_cksum (cut n file count) (byte ∷ []) c.expected

    pub recv_data-takes :
        c.expected ≤ count
        → (c' : Client) × (acts : List Action) × (datagram : List ℕ) × (step in_cksum atoi calloc
              argv State.recv_data c
              (answer (arrived stack due))
            ≡ goes State.recv_data c' acts)
          × Receives (cut n file count) c' (out ++ written acts)
          × (c'.expected ≡ c.expected + 1)
          × (c'.client_seq_num < 2 ^ 32)
          × (sent acts ≡ datagram ∷ [])
          × IsAnswer in_cksum Flag.rr (c.expected + 1) datagram
    recv_data-takes to =
        let ok = cut-IsStream n file count cuts in
        let (clean, got, seq) =
          received-IsData in_cksum (cut n file count) (byte ∷ []) ck ok
            (cut-IsByteStream in_cksum n file count byte bytes small) stack c.expected c.expected
            rec.known.started to in
        let (c', acts, runs, rec', at', answered, seq_num') =
          recv_data_packet-next in_cksum ok _ rec clean got seq in
        (
          c',
          acts,
          _,
          recv_data-hears c stack due
              ∙ rw
                  (stream_packet_within in_cksum (cut n file count) (byte ∷ []) c.expected
                    (omega arith))
                  runs,
          rec',
          at',
          omega (arith, seq_num'),
          answered,
          record {
            seq_num = c.client_seq_num;
            in_word = in_word;
            bytes =
                ap (λ k. create_pdu in_cksum c.client_seq_num Flag.rr (htonl_bytes k))
                  (next_number (c.expected) (omega (arith, seq)) (omega (arith, cuts.in_word)));
          },
        )

    pub recv_data-ends :
        c.expected ≡ count + 1
        → (acts : List Action) × (datagram : List ℕ) × (step in_cksum atoi calloc argv
              State.recv_data c
              (answer (arrived stack due))
            ≡ exits 0 acts)
          × (out ++ written acts ≡ file)
          × (sent acts ≡ datagram ∷ [])
          × IsAnswer in_cksum Flag.eof_ack (count + 2) datagram
    recv_data-ends last =
        let ok = cut-IsStream n file count cuts in
        let (clean, eof) =
          received-IsEof in_cksum (cut n file count) (byte ∷ []) ck ok
            (cut-IsByteStream in_cksum n file count byte bytes small) stack in
        let (acts, runs, whole, answered) =
          recv_data_packet-last in_cksum ok _ rec clean eof (eof.after_all ∙ sym last) in
        (
          acts,
          _,
          recv_data-hears c stack due
              ∙ ap (λ d. recv_data_packet in_cksum c (recv_buf stack d))
                  (stream_packet_past in_cksum (cut n file count) (byte ∷ []) c.expected
                      (omega (arith, last))
                    ∙ ap (λ i. create_pdu in_cksum i Flag.end_of_file (byte ∷ [])) last)
              ∙ runs,
          whole ∙ delivered-cut n file count cuts,
          answered,
          record {
            seq_num = c.client_seq_num;
            in_word = in_word;
            bytes =
                ap (λ k. create_pdu in_cksum c.client_seq_num Flag.eof_ack (htonl_bytes k))
                  (next_number (count + 1) eof.after_all (omega (arith, cuts.in_word))
                    ∙ omega arith);
          },
        )
