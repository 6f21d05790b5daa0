-- ===== src/Repair/Asked.antt =====
-- The server when the client asks for a packet.
use cpe464_a.Base.{ℕ, ◌≤◌, ◌<◌, ◌≡◌, inr, List, [], ◌∷◌, some, false, arith, refl, ◌∙◌}
use cpe464_a.Checksum.{IsChecksum}
use cpe464_a.Flag
use cpe464_a.Process.{Action, goes, send, stray}
use cpe464_a.Pdu.{Received, create_pdu, recv_buf, is_corrupt}
use cpe464_a.Server.{State, Server}
use cpe464_a.Server.Sending.{part}
use cpe464_a.Server.Resend.{send_srej}
use cpe464_a.Server.Resending.{send_srej_at}
use cpe464_a.Server.Ack.{ack_packet, wait_on_ack}
use cpe464_a.Service.{Fills, Sends, held_data, held_eof}
use cpe464_a.Service.Lengths.{length_of_sent-part}
use cpe464_a.Service.Resending.{Sends-refreshed, fits, below_current}
use cpe464_a.Session.{hears}
use cpe464_a.Session.Packets.{IsAnswer}
use cpe464_a.Session.Hearing.{IsAnswer-IsHeard, wait_on_ack-hears}

ack_packet-srej :
    (in_cksum : List ℕ → ℕ) (sr sr' : Server) (r : Received) (acts : List Action)
    → is_corrupt in_cksum r ≡ false
    → r.flag ≡ Flag.srej
    → send_srej in_cksum sr r ≡ some (sr', acts)
    → ack_packet in_cksum sr r ≡ goes State.send_data sr' acts
unfolding ack_packet
ack_packet-srej in_cksum sr sr' r acts intact is resends = simp (intact, is, resends) refl

module _ (in_cksum : List ℕ → ℕ) (ck : IsChecksum in_cksum) {n : ℕ} {file : List ℕ} {count : ℕ}
    (fl : Fills n file count) (byte : ℕ) where
  pub wait_on_ack-srej :
      (sr : Server) (i : ℕ) (stack datagram : List ℕ)
      → Sends in_cksum n file count sr
      → sr.retry_count ≡ 0
      → IsAnswer in_cksum Flag.srej i datagram
      → sr.window.lower ≤ i
      → i < sr.seq_num
      → i ≤ count
      → (sr' : Server) × (wait_on_ack in_cksum sr (hears byte stack datagram)
          ≡ goes State.send_data sr'
              (stray ∷ send (create_pdu in_cksum i Flag.srej_retran (part n file i)) ∷ []))
        × Sends in_cksum n file count sr'
  wait_on_ack-srej sr i stack datagram sends none_yet is from before to =
      let heard =
        IsAnswer-IsHeard in_cksum ck Flag.srej i datagram stack is (omega arith)
          (omega (arith, sends.in_word)) in
      let (b, here, held) = sends.held i from (below_current in_cksum fl sends i before) in
      elim held [
        | held_eof byte rest at e ↦ absurd (omega (arith, at))
        | held_data old rest to' is_flag e ↦ (
          _,
          wait_on_ack-hears in_cksum ck fl byte sr stack datagram none_yet
              ∙ ack_packet-srej in_cksum sr _ (recv_buf stack datagram) _ heard.intact heard.flag_is
                  (send_srej_at in_cksum sr (recv_buf stack datagram) i old (part n file i) rest b
                    heard.number_is here e (omega arith) (fits in_cksum fl sends i)
                    (length_of_sent-part fl sends i (omega (arith, sends.lower_from_one)) to
                      before)),
          Sends-refreshed in_cksum fl sends i Flag.srej_retran rest b from before to
              (inr (inr refl)),
        )
      ]
