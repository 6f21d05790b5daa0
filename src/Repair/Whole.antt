-- ===== src/Repair/Whole.antt =====
-- The client, the server and the datagrams between them, from the loss of a packet to its repair.
use cpe464_a.Base.{
  ℕ, ◌+◌, ◌^◌, ◌≤◌, ◌<◌, ◌≡◌, Bool, List, [], ◌∷◌, ◌++◌, length, arith, refl, u32, htonl_bytes,
}
use cpe464_a.Checksum.{IsBytes, IsChecksum}
use cpe464_a.Flag
use cpe464_a.Process.{Action, send, stray, sent, written, goes, after, arrived, timed_out}
use cpe464_a.Pdu.{create_pdu}
use cpe464_a.Rcopy.{Client}
use cpe464_a.Rcopy as Rcopy
use cpe464_a.Rcopy.Setup.{arg}
use cpe464_a.Rcopy.Run as ClientRun
use cpe464_a.Delivery.{Receives}
use cpe464_a.Delivery.Transfer.{answer}
use cpe464_a.Server.{State, Server}
use cpe464_a.Server.Sending.{part}
use cpe464_a.Server.Ack.{wait_on_ack}
use cpe464_a.Server.Cutting.{cut}
use cpe464_a.Service.{Sends}
use cpe464_a.Service.Request.{Fits}
use cpe464_a.Service.Copy.{Fits-Cuts, cut-IsByteStream}
use cpe464_a.Session.{hears}
use cpe464_a.Session.Packets.{IsAnswer}
use cpe464_a.Repair.{late}
use cpe464_a.Repair.Asked.{wait_on_ack-srej}
use cpe464_a.Repair.Late.{process_file-repairs}

module _ (in_cksum atoi : List ℕ → ℕ) (calloc : ℕ → ℕ → Bool) {argv : List (List ℕ)} {file : List ℕ}
    {count : ℕ} (fits : Fits atoi argv file count) (byte : ℕ) where
  -- Let in_cksum be a checksum and let the client's arguments name a buffer size of 1 to 1400, by
  -- which a file of bytes makes count packets, and a positive window size, count, the window size
  -- and 3 together below 2^32. Let the client be in RECV_DATA with its invariant, and let a data
  -- packet be lost that it expects, one that the server has sent, together with one or more data
  -- packets after it, and has not slid its window past; let the server have its invariant and no
  -- timeouts counted, and the client's sequence number be below 2^32. Let both programs go on past
  -- their stray operations (the byte after data[] at rcopy.c:387 and rcopy.c:473, and the array of
  -- printPacket at server.c:415, undefined in C whenever these lines run). If those later packets,
  -- which with the lost one are no more than the client's window holds, arrive in order, each
  -- once, then there are an SREJ, a packet that the server, receiving that SREJ in WAIT_ON_ACK,
  -- sends again before it goes on in SEND_DATA with its invariant, and an RR, such that
  -- processFile, receiving that packet after those, comes back to RECV_DATA with its invariant,
  -- expecting the packet after them all, has sent the SREJ and the RR and no other datagram, and
  -- has the payloads of all of them on the disk. The RR's number is that of the last of them.
  pub process_file-asks_once :
      (sr : Server) (c : Client) (out stack again asked : List ℕ) (stacks : List (List ℕ))
      (rest : List ClientRun.Answers)
      → IsChecksum in_cksum
      → IsBytes file
      → byte < 256
      → Sends in_cksum (atoi (arg argv 4)) file count sr
      → sr.retry_count ≡ 0
      → Receives (cut (atoi (arg argv 4)) file count) c out
      → c.client_seq_num < 2 ^ 32
      → sr.window.lower ≤ c.expected
      → c.expected + 1 + length stacks < sr.seq_num
      → 1 + length stacks < c.window.size
      → (srej repeated rr : List ℕ) × (sr' : Server) × (c' : Client) × (acts : List Action)
        × (wait_on_ack in_cksum sr (hears byte asked srej)
            ≡ goes State.send_data sr' (stray ∷ send repeated ∷ []))
        × Sends in_cksum (atoi (arg argv 4)) file count sr'
        × (ClientRun.process_file in_cksum atoi calloc argv Rcopy.State.recv_data c (
              late in_cksum (atoi (arg argv 4)) file (c.expected + 1) (stack ∷ stacks)
              ++ (answer (arrived again repeated) ∷ answer timed_out ∷ rest))
            ≡ after acts
                (ClientRun.process_file in_cksum atoi calloc argv Rcopy.State.recv_data c' rest))
        × Receives (cut (atoi (arg argv 4)) file count) c' (out ++ written acts)
        × (c'.expected ≡ c.expected + 2 + length stacks)
        × (sent acts ≡ srej ∷ rr ∷ [])
        × IsAnswer in_cksum Flag.rr (c.expected + 1 + length stacks) rr
  process_file-asks_once sr c out stack again asked stacks rest ck bytes small sends none_yet rec
        in_word from sent_all room =
      let n = atoi (arg argv 4) in
      let srej = create_pdu in_cksum c.client_seq_num Flag.srej (htonl_bytes c.expected) in
      let (sr', resends, sends') =
        wait_on_ack-srej in_cksum ck fits.fills byte sr c.expected asked srej sends none_yet
          (record { seq_num = c.client_seq_num; in_word = in_word; bytes = refl }) from
          (omega arith) (omega (arith, sends.to_count)) in
      let (c', acts, runs, rec', at, answers) =
        process_file-repairs in_cksum atoi calloc argv ck (Fits-Cuts atoi fits)
          (cut-IsByteStream in_cksum n file count byte bytes small) rest stack again stacks c out
          rec (omega (arith, sends.to_count)) room in
      (
        srej,
        create_pdu in_cksum c.expected Flag.srej_retran (part n file c.expected),
        _,
        sr',
        c',
        acts,
        resends,
        sends',
        runs,
        rec',
        at,
        answers,
        record { seq_num = u32 (c.client_seq_num + 1); in_word = omega arith; bytes = refl },
      )
