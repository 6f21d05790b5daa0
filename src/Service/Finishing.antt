-- ===== src/Service/Finishing.antt =====
-- `wait_on_eof_ack` keeps the invariant, and so do effects in front of a result.
use cpe464_a.Base.{
  ℕ, ◌+◌, ◌-◌, ◌≡◌, ◌==◌, inl, inr, Bool-cases, Option, some, none, List, [], ◌∷◌, ◌++◌, length,
  take, arith, sym, ◌∙◌, ap, refl, subst, ltb, take-append_self,
}
use mathlib.Core.Option.{some-injective}
use cpe464_a.Flag
use cpe464_a.Process.{
  ready, silent, failed, Poll, Action, after, goes, exits, fault, out_of_fuel, send, write, stray,
}
use cpe464_a.Pdu.{Received, recv_buf, is_corrupt, create_pdu}
use cpe464_a.Pdu.RoundTrip.{length-create_pdu}
use cpe464_a.Window.{Buffer, slot}
use cpe464_a.Window.Slots.{slot-some, window_get_packet_at}
use cpe464_a.Server.{Server, Result, Answers, max_retrans}
use cpe464_a.Server.Ack.{eof_ack_packet, eof_received, eof_polled, wait_on_eof_ack}
use cpe464_a.Service.{
  Fills, Held, held_data, held_eof, IsOther, Transmits, eof_sent, empty_sent, Sends, Promised,
}
use cpe464_a.Service.Resending.{Sends-counts}

Transmits-append :
    (in_cksum : List ℕ → ℕ) (n : ℕ) (file : List ℕ) (count from mid to : ℕ)
    (acts more : List Action)
    → Transmits in_cksum n file count from mid acts
    → Transmits in_cksum n file count mid to more
    → Transmits in_cksum n file count from to (acts ++ more)
Transmits-append in_cksum n file count from mid to [] more is rest =
    subst (λ k. Transmits in_cksum n file count k to more) is rest
Transmits-append in_cksum n file count from mid to (send datagram ∷ acts) more (inl (new, is))
      rest =
    inl (new, Transmits-append in_cksum n file count (from + 1) mid to acts more is rest)
Transmits-append in_cksum n file count from mid to (send datagram ∷ acts) more (inr (old, is))
      rest =
    inr (old, Transmits-append in_cksum n file count from mid to acts more is rest)
Transmits-append in_cksum n file count from mid to (write bytes ∷ acts) more is rest = is
Transmits-append in_cksum n file count from mid to (stray ∷ acts) more is rest =
    Transmits-append in_cksum n file count from mid to acts more is rest

module _ (in_cksum : List ℕ → ℕ) {n : ℕ} {file : List ℕ} {count : ℕ} (fl : Fills n file count) where
  -- The state after a round in WAIT_ON_EOF_ACK that sends nothing itself.
  eof_packet-Promised :
      (sr : Server) (r : Received)
      → Sends in_cksum n file count sr
      → Promised in_cksum n file count sr.seq_num (eof_ack_packet in_cksum sr r)
  unfolding eof_ack_packet
  eof_packet-Promised sr r sends = elim (Bool-cases (is_corrupt in_cksum r)) [
    | inl bad ↦ rw bad (Sends-counts in_cksum sends sr.retry_count (sr.eof_retry_count + 1), refl)
    | inr intact ↦ elim (Bool-cases (r.flag == Flag.eof_ack)) [
      | inl acked ↦ rw (intact, acked) (tt, refl)
      | inr not_acked ↦ rw (intact, not_acked) (sends, refl)
    ]
  ]

  eof_received-Promised :
      (sr : Server) (answer : Option (List ℕ × List ℕ))
      → Sends in_cksum n file count sr
      → Promised in_cksum n file count sr.seq_num (eof_received in_cksum sr answer)
  unfolding eof_received
  eof_received-Promised sr none sends = (sr.seq_num, refl)
  eof_received-Promised sr (some (stack, datagram)) sends =
      eof_packet-Promised sr (recv_buf stack datagram) sends

  eof_polled-Promised :
      (sr : Server) (a : Answers) (answer : Poll)
      → Sends in_cksum n file count sr
      → Promised in_cksum n file count sr.seq_num (eof_polled in_cksum sr a answer)
  unfolding eof_polled
  eof_polled-Promised sr a silent sends =
      (Sends-counts in_cksum sends sr.retry_count (sr.eof_retry_count + 1), refl)
  eof_polled-Promised sr a ready sends = eof_received-Promised sr a.datagram sends
  eof_polled-Promised sr a failed sends = (sr.seq_num, refl)

  -- What WAIT_ON_EOF_ACK sends: the EOF packet, or nothing at all before that was sent.
  eof_IsOther :
      (sr : Server)
      → Sends in_cksum n file count sr
      → (b : Buffer) → slot sr.window sr.last_seq_num ≡ some b
      → IsOther in_cksum n file count sr.seq_num (take sr.eof_len b.packet)
  eof_IsOther sr sends b here = elim sends.phase [
    | inl open_now ↦ empty_sent (ap (λ k. take k b.packet) open_now.no_eof)
    | inr closed ↦
        let (x, there, held) =
          sends.held sr.last_seq_num (omega (arith, closed.last_is, sends.lower_le, sends.to_count))
            (omega (arith, closed.last_is, closed.current_is, closed.seq_is)) in
        eof_held closed.last_is closed.eof_len_is closed.seq_is (
          subst (λ y. Held in_cksum n file count sr.last_seq_num y)
            (some-injective _ _ (sym there ∙ here)) held)
  ]
    where
      eof_held :
          sr.last_seq_num ≡ count + 1
          → sr.eof_len ≡ 8
          → sr.seq_num ≡ count + 1
          → Held in_cksum n file count sr.last_seq_num b
          → IsOther in_cksum n file count sr.seq_num (take sr.eof_len b.packet)
      eof_held last len seq (held_data flag rest to is e) = absurd (omega arith)
      eof_held last len seq (held_eof byte rest at e) = eof_sent byte seq (
          ap (λ k. take k b.packet)
            (len ∙ sym (length-create_pdu in_cksum sr.last_seq_num Flag.end_of_file (byte ∷ [])))
          ∙ ap (take (length (create_pdu in_cksum sr.last_seq_num Flag.end_of_file (byte ∷ [])))) e
          ∙ take-append_self (create_pdu in_cksum sr.last_seq_num Flag.end_of_file (byte ∷ [])) rest
          ∙ ap (λ k. create_pdu in_cksum k Flag.end_of_file (byte ∷ [])) at)

  -- Effects in front of a result that keeps the promise.
  pub Promised-after :
      (from mid : ℕ) (acts : List Action) (o : Result)
      → Transmits in_cksum n file count from mid acts
      → Promised in_cksum n file count mid o
      → Promised in_cksum n file count from (after acts o)
  Promised-after from mid acts (goes st sr more) sent p =
      (p.0, Transmits-append in_cksum n file count from mid sr.seq_num acts more sent p.1)
  Promised-after from mid acts (exits code more) sent p =
      (p.0, Transmits-append in_cksum n file count from mid p.0 acts more sent p.1)
  Promised-after from mid acts fault sent p = p
  Promised-after from mid acts out_of_fuel sent p = p

  pub wait_on_eof_ack-Promised :
      (sr : Server) (a : Answers)
      → Sends in_cksum n file count sr
      → Promised in_cksum n file count sr.seq_num (wait_on_eof_ack in_cksum sr a)
  unfolding wait_on_eof_ack
  wait_on_eof_ack-Promised sr a sends =
      let (b, here) = slot-some sends.window_valid sr.last_seq_num in
      elim (Bool-cases (ltb (max_retrans - 1) sr.eof_retry_count)) [
        | inl over ↦
            rw (window_get_packet_at sr.window sr.last_seq_num here, over, wait_on_eof_ack)
              (sr.seq_num, refl)
        | inr left ↦
            rw (window_get_packet_at sr.window sr.last_seq_num here, left, wait_on_eof_ack)
              (Promised-after sr.seq_num sr.seq_num (send (take sr.eof_len b.packet) ∷ [])
                (eof_polled in_cksum sr a (a.poll 1000)) (inr (eof_IsOther sr sends b here, refl))
                (eof_polled-Promised sr a (a.poll 1000) sends))
      ]
