-- ===== src/Session/Bytes.antt =====
-- What the datagrams that are on their way in a session consist of.
use cpe464_a.Base.{
  ℕ, zero, suc, ◌+◌, ◌-◌, ◌≤◌, ◌<◌, ◌≡◌, Bool, Option, List, [], ◌∷◌, ◌++◌, length, arith, subst,
  sym, htonl_bytes,
}
use native.Mathlib.Decide.{dec_lt}
use cpe464_a.Checksum.{IsBytes, IsChecksum}
use cpe464_a.Flag
use cpe464_a.Pdu.{Received, create_pdu}
use cpe464_a.Pdu.RoundTrip.{length-create_pdu}
use cpe464_a.Rcopy.{Client}
use cpe464_a.Rcopy as Rcopy
use cpe464_a.Rcopy.Setup.{arg}
use cpe464_a.Delivery.{delivered}
use cpe464_a.Delivery.Transfer.{stream_packet_past, stream_packet_within, IsByteStream}
use cpe464_a.Server.Cutting.{cut}
use cpe464_a.Service.{Fills}
use cpe464_a.Service.Lengths.{part-le}
use cpe464_a.Service.Link.{IsBytes-htonl_bytes}
use cpe464_a.Service.Request.{Fits}
use cpe464_a.Service.Copy.{cut-IsByteStream}
use cpe464_a.Session.{Session, live, running, Run}
use cpe464_a.Session.Packets.{stretch, IsAnswer, AreRrs}
use cpe464_a.Session.Joined.{JoinedAt}
use cpe464_a.Session.Whole.{begun, Run-begun}

-- Arrays of so many bytes at most.
abbrev pub ArePackets : ℕ → List (List ℕ) → Type 0
ArePackets limit [] = Unit
ArePackets limit (datagram ∷ rest) =
    IsBytes datagram × (length datagram ≤ limit) × ArePackets limit rest

append-IsBytes : (xs ys : List ℕ) → IsBytes xs → IsBytes ys → IsBytes (xs ++ ys)
append-IsBytes [] ys these those = those
append-IsBytes (x ∷ xs) ys these those = (these.0, append-IsBytes xs ys these.1 those)

module _ (in_cksum : List ℕ → ℕ) (ck : IsChecksum in_cksum) where
  create_pdu-IsBytes :
      (seq_num flag : ℕ) (payload : List ℕ)
      → flag < 256
      → IsBytes payload
      → IsBytes (create_pdu in_cksum seq_num flag payload)
  unfolding create_pdu htonl_bytes
  create_pdu-IsBytes seq_num flag payload small bytes =
      let range = ck.in_range (htonl_bytes seq_num ++ (0 ∷ 0 ∷ flag ∷ payload)) in
      (
        omega arith,
        (
          omega arith,
          (omega arith, (omega arith, (omega arith, (omega (arith, range), (small, bytes))))),
        ),
      )

  IsAnswer-ArePackets :
      {flag number : ℕ} {datagram : List ℕ} (rest : List (List ℕ))
      → flag < 256
      → IsAnswer in_cksum flag number datagram
      → ArePackets 11 rest
      → ArePackets 11 (datagram ∷ rest)
  unfolding htonl_bytes
  IsAnswer-ArePackets {flag} {number} rest small is others =
      subst (λ d. ArePackets 11 (d ∷ rest)) (sym is.bytes)
        (
          create_pdu-IsBytes is.seq_num flag (htonl_bytes number) small
              (IsBytes-htonl_bytes in_cksum number),
          omega (arith, length-create_pdu in_cksum is.seq_num flag (htonl_bytes number)),
          others,
        )

  AreRrs-ArePackets : (i : ℕ) (rrs : List (List ℕ)) → AreRrs in_cksum i rrs → ArePackets 11 rrs
  AreRrs-ArePackets i [] are = tt
  AreRrs-ArePackets i (rr ∷ rrs) are =
      IsAnswer-ArePackets rrs (omega arith) are.0 (AreRrs-ArePackets (i + 1) rrs are.1)

  module _ {n : ℕ} {file : List ℕ} {count : ℕ} (fl : Fills n file count) (byte : ℕ)
      (bs : IsByteStream in_cksum (cut n file count) (byte ∷ [])) where
    stretch-ArePackets : (i k : ℕ) → ArePackets (7 + n) (stretch in_cksum n file count byte i k)
    stretch-ArePackets i zero = tt
    stretch-ArePackets i (suc k) = elim (dec_lt count i) [
      | yes past ↦ rw (stream_packet_past in_cksum (cut n file count) (byte ∷ []) i past) (
        create_pdu-IsBytes i Flag.end_of_file (byte ∷ []) (omega arith) bs.filler_bytes,
        omega (arith, length-create_pdu in_cksum i Flag.end_of_file (byte ∷ []), fl.size_pos),
        stretch-ArePackets (i + 1) k,
      )
      | no within ↦ rw (stream_packet_within in_cksum (cut n file count) (byte ∷ []) i within) (
        create_pdu-IsBytes i Flag.data_flag _ (omega arith) (bs.bytes i),
        omega (
          arith,
          length-create_pdu in_cksum i Flag.data_flag ((cut n file count).chunk i),
          part-le fl i,
        ),
        stretch-ArePackets (i + 1) k,
      )
    ]

    delivered-IsBytes : (k : ℕ) → IsBytes (delivered (cut n file count) k)
    unfolding delivered
    delivered-IsBytes zero = tt
    delivered-IsBytes (suc k) = append-IsBytes _ _ (delivered-IsBytes k) (bs.bytes (suc k))

module _ (in_cksum atoi : List ℕ → ℕ) (calloc : ℕ → ℕ → Bool) {argv : List (List ℕ)}
    (open_file : List ℕ → Option (List ℕ)) (establishment : Received) {file : List ℕ} {count : ℕ}
    (fits : Fits atoi argv file count) (socket byte : ℕ) where
  Joined-ArePackets :
      (s : Session) (st : Rcopy.State) (c : Client)
      → IsChecksum in_cksum
      → IsBytes file
      → byte < 256
      → JoinedAt in_cksum (atoi (arg argv 4)) file count byte (running st c) s
      → ArePackets (7 + atoi (arg argv 4)) s.to_client × ArePackets 11 s.to_server × IsBytes s.disk
  Joined-ArePackets s Rcopy.State.recv_data c ck bytes small tr =
      let n = atoi (arg argv 4) in
      let bs = cut-IsByteStream in_cksum n file count byte bytes small in
      (
        subst (ArePackets (7 + n)) (sym tr.on_way)
            (stretch-ArePackets in_cksum ck fits.fills byte bs c.expected tr.ahead),
        AreRrs-ArePackets in_cksum ck (tr.acked + 1) s.to_server tr.answers,
        subst IsBytes (sym tr.receives.known.disk)
            (delivered-IsBytes in_cksum ck fits.fills byte bs (c.expected - 1)),
      )
  Joined-ArePackets s Rcopy.State.start_state c ck bytes small j = absurd j
  Joined-ArePackets s Rcopy.State.filename c ck bytes small j = absurd j
  Joined-ArePackets s Rcopy.State.file_ok c ck bytes small j = absurd j
  Joined-ArePackets s Rcopy.State.buffer c ck bytes small j = absurd j
  Joined-ArePackets s Rcopy.State.flush c ck bytes small j = absurd j
  Joined-ArePackets s Rcopy.State.done c ck bytes small j = absurd j
  Joined-ArePackets s Rcopy.State.wait_file_ack c ck bytes small j = absurd j

  -- Let in_cksum be a checksum, let the client's arguments name a buffer size of 1 to 1400, by
  -- which a file (a list of numbers below 256) makes count packets, and a window size of at least
  -- 2, and let count, the window size and 3 together be below 2^32. Let a session begin when the
  -- server has opened the file and the client waits for its data, with a queue of datagrams in
  -- each direction that loses nothing and keeps the order; let a program that polls take the first
  -- datagram of its queue and never time out, let no read fail, and let one byte of the server's
  -- stack stay what it is. Then, after any number of rounds in any order, as long as the client
  -- runs, each datagram on the way to the client is a list of numbers below 256 of at most 7 more
  -- than the buffer size, each on the way to the server one of at most 11, and the disk has
  -- numbers below 256 only.
  pub Run-ArePackets :
      {s : Session} {k : ℕ}
      → IsChecksum in_cksum
      → IsBytes file
      → byte < 256
      → 2 ≤ atoi (arg argv 3)
      → Run in_cksum atoi calloc argv open_file establishment byte
          (live (begun atoi argv socket file))
          k
          (live s)
      → (st : Rcopy.State) (c : Client) → s.receiver ≡ running st c
      → ArePackets (7 + atoi (arg argv 4)) s.to_client × ArePackets 11 s.to_server × IsBytes s.disk
  Run-ArePackets {s} ck bytes small two run st c at = Joined-ArePackets s st c ck bytes small (
      subst (λ receiver. JoinedAt in_cksum (atoi (arg argv 4)) file count byte receiver s) at
        (Run-begun in_cksum atoi calloc open_file establishment fits socket byte ck bytes small two
          run).0)
