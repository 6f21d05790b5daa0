-- ===== src/Delivery/Transfer.antt =====
-- The link delivers: when the packets arrive in their order, with any damaged datagrams between
-- them, the client finishes with the whole file.
use cpe464_a.Base.{
  ℕ, zero, suc, ◌+◌, ◌≤◌, ◌<◌, ◌≡◌, ◌≢◌, refl, sym, ◌∙◌, ap, List, [], ◌∷◌, ◌++◌, length, take,
  drop, append-nil, arith, true, false, Bool,
}
use native.Mathlib.Decide.{dec_lt}
use cpe464_a.Checksum.{IsBytes, IsChecksum}
use cpe464_a.Flag
use cpe464_a.Process.{after, and_then, silent, Action, Event, arrived, goes, exits, written}
use cpe464_a.Pdu.{Received, recv_buf, create_pdu, is_corrupt}
use cpe464_a.Pdu.RoundTrip.{recv_buf-create_pdu}
use cpe464_a.Rcopy.{State, Client, Result}
use cpe464_a.Delivery.Runs.{joined}
use cpe464_a.Rcopy.Setup.{no_socket}
use cpe464_a.Rcopy.Receive.{recv_data, recv_data_packet}
use cpe464_a.Rcopy.Run.{Answers, step, is_done, process_file}
use cpe464_a.Delivery.{Stream, IsStream, delivered, IsData, IsEof, Receives}
use cpe464_a.Delivery.Progress.{recv_data_packet-next, recv_data_packet-last}

-- What the link hands over: a damaged datagram, or the next packet of the stream, into a buffer
-- that held something.
pub data Item : Type 0 where
  damaged : List ℕ → List ℕ → Item
  next : List ℕ → Item

-- How many packets of the stream there are.
abbrev pub packets : List Item → ℕ
packets [] = 0
packets (damaged stack datagram ∷ items) = packets items
packets (next stack ∷ items) = suc (packets items)

-- Answers in which only the datagram matters.
abbrev pub answer : Event → Answers
answer event = record { socket = no_socket; select = silent; event = event; file_opened = false }

pub drop-take : (k n m : ℕ) (bs : List ℕ) → m ≡ k + n → drop k (take m bs) ≡ take n (drop k bs)
drop-take zero n m bs e = let same : m ≡ n = omega arith in rw same
drop-take (suc k) n zero [] e = absurd (omega arith)
drop-take (suc k) zero (suc m) [] e = refl
drop-take (suc k) (suc n) (suc m) [] e = refl
drop-take (suc k) n zero (x ∷ bs) e = absurd (omega arith)
drop-take (suc k) n (suc m) (x ∷ bs) e = drop-take k n m bs (omega arith)

module _ (in_cksum : List ℕ → ℕ) (s : Stream) (filler : List ℕ) where
  -- Packet `i` as `createPDU` builds it: data, or EOF with the filler that the server sends in it.
  unfoldable pub stream_packet : ℕ → List ℕ
  stream_packet i = elim (dec_lt s.count i) [
    | yes past ↦ create_pdu in_cksum i Flag.end_of_file filler
    | no within ↦ create_pdu in_cksum i Flag.data_flag (s.chunk i)
  ]

  pub stream_packet_past :
      (i : ℕ) → s.count < i → stream_packet i ≡ create_pdu in_cksum i Flag.end_of_file filler
  unfolding stream_packet
  stream_packet_past i past = ground arith

  pub stream_packet_within :
      (i : ℕ) → ¬ (s.count < i) → stream_packet i ≡ create_pdu in_cksum i Flag.data_flag (s.chunk i)
  unfolding stream_packet
  stream_packet_within i within = ground arith

  -- The answers to the client, the next packet being `i`.
  unfoldable pub play : ℕ → List Item → List Answers
  play i [] = []
  play i (damaged stack datagram ∷ items) = answer (arrived stack datagram) ∷ play i items
  play i (next stack ∷ items) = answer (arrived stack (stream_packet i)) ∷ play (i + 1) items

  -- The damage shows in the checksum.
  abbrev pub DamageShows : List Item → Type 0
  DamageShows [] = Unit
  DamageShows (damaged stack datagram ∷ items) =
      (is_corrupt in_cksum (recv_buf stack datagram) ≡ true) × DamageShows items
  DamageShows (next stack ∷ items) = DamageShows items

  pub record IsByteStream : Type 0 where
    pub bytes : (i : ℕ) → IsBytes (s.chunk i)
    pub filler_bytes : IsBytes filler
    pub filler_fits : length filler ≤ 1400

  module _ (ck : IsChecksum in_cksum) (ok : IsStream s) (bs : IsByteStream) where
    -- The packets as they arrive.
    pub received_under :
        (stack : List ℕ) (i flag expected : ℕ)
        → 1 ≤ i
        → i ≤ s.count
        → flag < 256
        → flag ≢ Flag.end_of_file
        → (flag ≢ Flag.data_flag → i ≤ expected)
        → let r = recv_buf stack (create_pdu in_cksum i flag (s.chunk i)) in
          (is_corrupt in_cksum r ≡ false) × IsData s expected r × (r.seq_num ≡ i) × (r.flag ≡ flag)
    received_under stack i flag expected from to lt not_eof again =
        let (clean, got) =
          recv_buf-create_pdu in_cksum ck stack i flag (s.chunk i) (omega (arith, ok.bounded)) lt
            (bs.bytes i) (ok.fits i) in
        (
          clean,
          record {
            from_one = omega (arith, got.seq_num_kept);
            to_count = omega (arith, got.seq_num_kept);
            data_len = rw (got.seq_num_kept) got.len_kept;
            payload =
                rw (got.seq_num_kept)
                  (sym (drop-take 7 (length (s.chunk i)) _ _ got.len_kept) ∙ got.payload_kept);
            not_eof = λ q. not_eof (sym got.flag_kept ∙ q);
            retransmitted =
                λ q. omega (arith, got.seq_num_kept, again (λ plain. q (got.flag_kept ∙ plain)));
          },
          got.seq_num_kept,
          got.flag_kept,
        )

    pub received-IsData :
        (stack : List ℕ) (i expected : ℕ)
        → 1 ≤ i
        → i ≤ s.count
        → let r = recv_buf stack (create_pdu in_cksum i Flag.data_flag (s.chunk i)) in
          (is_corrupt in_cksum r ≡ false) × IsData s expected r × (r.seq_num ≡ i)
    received-IsData stack i expected from to =
        let (clean, got, seq_num, flag) =
          received_under stack i Flag.data_flag expected from to (omega arith) (omega arith)
            (λ other. absurd (other refl)) in
        (clean, got, seq_num)

    pub received-IsEof :
        (stack : List ℕ)
        → let r = recv_buf stack (create_pdu in_cksum (s.count + 1) Flag.end_of_file filler) in
          (is_corrupt in_cksum r ≡ false) × IsEof s r
    received-IsEof stack =
        let (clean, got) =
          recv_buf-create_pdu in_cksum ck stack (s.count + 1) Flag.end_of_file filler
            (omega (arith, ok.bounded)) (omega arith) bs.filler_bytes bs.filler_fits in
        (
          clean,
          record {
            after_all = got.seq_num_kept;
            eof_flag = got.flag_kept;
            eof_len = omega (arith, got.len_kept, bs.filler_fits);
          },
        )

module _ (in_cksum atoi : List ℕ → ℕ) (calloc : ℕ → ℕ → Bool) (argv : List (List ℕ)) (s : Stream)
    (filler : List ℕ) where
  -- The program ends with exit(0), the whole file on the disk.
  abbrev pub Completes : List ℕ → Result → Type 0
  Completes out o =
      (acts : List Action) × (o ≡ exits 0 acts) × (out ++ written acts ≡ delivered s s.count)

  -- `processFile` in RECV_DATA.
  process_file-recv :
      (c : Client) (stack datagram : List ℕ) (rest : List Answers)
      → process_file in_cksum atoi calloc argv State.recv_data c
          (answer (arrived stack datagram) ∷ rest)
        ≡ and_then
            (λ st' c'. process_file in_cksum atoi calloc argv st' c' rest)
            (recv_data_packet in_cksum c (recv_buf stack datagram))
  unfolding process_file is_done step recv_data
  process_file-recv c stack datagram rest = refl

  recv_data_packet-damaged :
      (c : Client) (r : Received)
      → is_corrupt in_cksum r ≡ true
      → recv_data_packet in_cksum c r ≡ goes State.recv_data c []
  unfolding recv_data_packet
  recv_data_packet-damaged c r bad = rw bad

  Completes-after :
      (out : List ℕ) (acts : List Action) (o : Result)
      → Completes (out ++ written acts) o
      → Completes out (after acts o)
  Completes-after out acts o (more, runs, whole) =
      (acts ++ more, ap (after acts) runs, sym (joined out acts more) ∙ whole)

  module _ (ck : IsChecksum in_cksum) (ok : IsStream s) (bs : IsByteStream in_cksum s filler) where
    -- Let in_cksum be a checksum, and the client be in RECV_DATA with an empty window and all
    -- packets before i on the disk. If it is handed packet i and all later packets of the stream
    -- as createPDU builds them, the EOF packet last, in order, with any number of datagrams
    -- between them whose damage the checksum shows, then processFile exits with 0 and the whole
    -- file is on the disk.
    pub play-Completes :
        (items : List Item) (i : ℕ) (c : Client) (out : List ℕ)
        → Receives s c out
        → c.expected ≡ i
        → DamageShows in_cksum s filler items
        → i + packets items ≡ s.count + 2
        → Completes out (
            process_file in_cksum atoi calloc argv State.recv_data c
              (play in_cksum s filler i items))
    unfolding play
    play-Completes [] i c out rec at shows enough = absurd (omega (arith, rec.known.within))
    play-Completes (damaged stack datagram ∷ items) i c out rec at shows enough =
        rw (process_file-recv, recv_data_packet-damaged c _ shows.0)
          (Completes-after out [] _
            (play-Completes items i c (out ++ []) (rw (append-nil out) rec) at shows.1 enough))
    play-Completes (next stack ∷ items) i c out rec at shows enough = elim (dec_lt s.count i) [
      | yes past ↦
          let last : c.expected ≡ s.count + 1 = omega (arith, rec.known.within) in
          let (clean, eof) = received-IsEof in_cksum s filler ck ok bs stack in
          let (acts, runs, whole, answered) =
            recv_data_packet-last in_cksum ok _ rec clean eof (eof.after_all ∙ sym last) in
          let i_last : i ≡ s.count + 1 = sym at ∙ last in
          rw (stream_packet_past in_cksum s filler i past, process_file-recv, i_last, runs)
            (acts, refl, whole)
      | no within ↦
          let (clean, got, seq) =
            received-IsData in_cksum s filler ck ok bs stack i i (omega (arith, rec.known.started))
              (omega arith) in
          let (c', acts, runs, rec', at', answered, seq_num') =
            recv_data_packet-next in_cksum ok _ rec clean (rw at got) (seq ∙ sym at) in
          rw (stream_packet_within in_cksum s filler i within, process_file-recv, runs)
            (Completes-after out acts _ (
              play-Completes items (i + 1) c' (out ++ written acts) rec' (omega arith) shows
                (omega arith)))
    ]
