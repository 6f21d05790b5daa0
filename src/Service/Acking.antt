-- ===== src/Service/Acking.antt =====
-- `wait_on_ack` keeps the invariant, whatever the time and the client do that they may do.
use cpe464_a.Base.{
  ℕ, ◌+◌, ◌≤◌, ◌<◌, ◌≡◌, ◌==◌, inl, inr, Bool-cases, false, Option, some, none, List, arith, sym,
  ◌∙◌, refl, subst, u32, ltb, ==→eq,
}
use mathlib.Core.Option.{some-injective}
use mathlib.Core.Bool.{false≢true}
use cpe464_a.Flag
use cpe464_a.Process.{ready, silent, failed, Poll}
use cpe464_a.Pdu.{Received, recv_buf, read_u32, is_corrupt}
use cpe464_a.Window.{Buffer, slot, put_slot, window_slide}
use cpe464_a.Window.Slots.{IsValid, slot-some, put_slot-IsValid, window_remove_at}
use cpe464_a.Window.Bounds.{IsBounded, window_slide-IsBounded}
use cpe464_a.Server.{Server, Answers, max_retrans}
use cpe464_a.Server.Ack.{
  rr_packet, ack_packet, ack_received, ack_selected, wait_on_ack, process_select, poll_time,
}
use cpe464_a.Service.{
  Fills, Held, held_data, held_eof, Sends, Waits, Promised, MayAnswer, MayMeet, damaged, rr, srej,
  other,
}
use cpe464_a.Service.Resending.{Sends-with, Sends-counts, put_slot-Holds, send_srej-Sends}

-- What a datagram that is not damaged and asks for a packet asks for.
module _ (in_cksum : List ℕ → ℕ) {n : ℕ} {file : List ℕ} {count : ℕ} {sr : Server} {r : Received}
    (intact : is_corrupt in_cksum r ≡ false) where
  MayAnswer-srej :
      MayAnswer in_cksum n file count sr r
      → r.flag ≡ Flag.srej
      → (sr.window.lower ≤ read_u32 r.buf 7)
        × (read_u32 r.buf 7 < sr.seq_num)
        × (read_u32 r.buf 7 ≤ count)
  MayAnswer-srej (damaged bad) is = absurd (false≢true (sym intact ∙ bad))
  MayAnswer-srej (rr from to ne) is = absurd (ne is)
  MayAnswer-srej (srej from sent to ne) is = (from, sent, to)
  MayAnswer-srej (other ne_rr ne_srej) is = absurd (ne_srej is)

  MayAnswer-rr :
      MayAnswer in_cksum n file count sr r
      → r.flag ≡ Flag.rr
      → (sr.window.lower ≤ read_u32 r.buf 7) × (read_u32 r.buf 7 ≤ sr.seq_num)
  MayAnswer-rr (damaged bad) is = absurd (false≢true (sym intact ∙ bad))
  MayAnswer-rr (rr from to ne) is = (from, to)
  MayAnswer-rr (srej from sent to ne) is = absurd (ne is)
  MayAnswer-rr (other ne_rr ne_srej) is = absurd (ne_rr is)

module _ (in_cksum : List ℕ → ℕ) {n : ℕ} {file : List ℕ} {count : ℕ} (fl : Fills n file count) where
  -- The `valid` of an entry does not matter.
  Held-valid :
      (i : ℕ) (b : Buffer)
      → Held in_cksum n file count i b
      → Held in_cksum n file count i (record b { valid = 0 })
  Held-valid i b (held_data flag rest to is e) = held_data flag rest to is e
  Held-valid i b (held_eof byte rest at e) = held_eof byte rest at e

  module _ {sr : Server} (sends : Sends in_cksum n file count sr) where
    current-le : sr.seq_num ≤ sr.window.current
    current-le = elim sends.phase [
      | inl open_now ↦ omega (arith, open_now.current_is)
      | inr closed ↦ omega (arith, closed.current_is)
    ]

    -- The window after an RR.
    pub Sends-slid :
        (rr_seq : ℕ)
        → sr.window.lower ≤ rr_seq
        → rr_seq ≤ sr.seq_num
        → (b : Buffer) → slot sr.window rr_seq ≡ some b
        → Sends in_cksum n file count (record sr {
          window = put_slot (window_slide sr.window rr_seq) rr_seq (record b { valid = 0 });
        })
    unfolding put_slot window_slide slot
    Sends-slid rr_seq from to b here =
        let w = window_slide sr.window rr_seq in
        let v : IsValid w = record {
          sized = sends.window_valid.sized;
          positive = sends.window_valid.positive;
        } in
        let bd : IsBounded w =
          (window_slide-IsBounded sends.window_bounded rr_seq from (omega (arith, current-le))
            (omega (arith, sends.in_word, sends.to_count))).0 in
        Sends-with in_cksum sends refl refl (put_slot-IsValid v rr_seq _)
          (record {
            upper_is = bd.upper_is;
            in_word = bd.in_word;
            above = bd.above;
            below = bd.below;
          })
          (omega (arith, sends.lower_from_one)) to
          (put_slot-Holds in_cksum v bd (λ i above below. sends.held i (omega arith) below) rr_seq _
            (omega arith) (omega (arith, sends.window_valid.positive))
            (λ below. at_rr (sends.held rr_seq from below)))
          sr.retry_count sr.eof_retry_count
      where
        at_rr :
            (x : Buffer) × (slot sr.window rr_seq ≡ some x) × Held in_cksum n file count rr_seq x
            → Held in_cksum n file count rr_seq (record b { valid = 0 })
        at_rr (x, there, held) =
            subst (λ y. Held in_cksum n file count rr_seq (record y { valid = 0 }))
              (some-injective _ _ (sym there ∙ here)) (Held-valid rr_seq x held)

    rr_packet-Promised :
        (r : Received)
        → sr.window.lower ≤ read_u32 r.buf 7
        → read_u32 r.buf 7 ≤ sr.seq_num
        → Promised in_cksum n file count sr.seq_num (rr_packet sr r)
    unfolding rr_packet slot window_slide
    rr_packet-Promised r from to =
        let (b, here) = slot-some sends.window_valid (read_u32 r.buf 7) in
        elim (Bool-cases (read_u32 r.buf 7 == u32 (sr.final_packet_seq + 1))) [
          | inl last ↦ rw last (sends, refl)
          | inr more ↦
              rw
                (
                  more,
                  window_remove_at (window_slide sr.window (read_u32 r.buf 7)) (read_u32 r.buf 7)
                      here,
                )
                (Sends-slid (read_u32 r.buf 7) from to b here, refl)
        ]

  ack_packet-Promised :
      (sr : Server) (r : Received)
      → Waits in_cksum n file count sr
      → MayAnswer in_cksum n file count sr r
      → Promised in_cksum n file count sr.seq_num (ack_packet in_cksum sr r)
  unfolding ack_packet
  ack_packet-Promised sr r waits may = elim (Bool-cases (is_corrupt in_cksum r)) [
    | inl bad ↦ rw bad (waits, refl)
    | inr intact ↦ elim (Bool-cases (r.flag == Flag.srej)) [
      | inl asks ↦
          let (from, sent, to) = MayAnswer-srej in_cksum intact may (==→eq _ _ asks) in
          let (sr', acts, runs, sends, all_sent) =
            send_srej-Sends in_cksum fl waits.sends r from sent to in
          rw (intact, asks, runs) (sends, all_sent)
      | inr not_srej ↦ elim (Bool-cases (r.flag == Flag.eof_ack)) [
        | inl acked ↦ rw (intact, not_srej, acked) (tt, refl)
        | inr not_eof_ack ↦ elim (Bool-cases (r.flag == Flag.rr)) [
          | inl is_rr ↦
              let (from, to) = MayAnswer-rr in_cksum intact may (==→eq _ _ is_rr) in
              rw (intact, not_srej, not_eof_ack, is_rr) (rr_packet-Promised waits.sends r from to)
          | inr not_rr ↦ rw (intact, not_srej, not_eof_ack, not_rr) (tt, refl)
        ]
      ]
    ]
  ]

  ack_received-Promised :
      (sr : Server)
      → Waits in_cksum n file count sr
      → (answer : Option (List ℕ × List ℕ))
      → ((stack datagram : List ℕ)
          → answer ≡ some (stack, datagram)
          → MayAnswer in_cksum n file count sr (recv_buf stack datagram))
      → Promised in_cksum n file count sr.seq_num (ack_received in_cksum sr answer)
  unfolding ack_received
  ack_received-Promised sr waits none may = (sr.seq_num, refl)
  ack_received-Promised sr waits (some (stack, datagram)) may =
      ack_packet-Promised sr (recv_buf stack datagram) waits (may stack datagram refl)

  MayAnswer-count :
      {sr : Server} {r : Received}
      → MayAnswer in_cksum n file count sr r
      → MayAnswer in_cksum n file count (record sr { retry_count = 0 }) r
  MayAnswer-count (damaged bad) = damaged bad
  MayAnswer-count (rr from to ne) = rr from to ne
  MayAnswer-count (srej from sent to ne) = srej from sent to ne
  MayAnswer-count (other ne_rr ne_srej) = other ne_rr ne_srej

  -- The counts are not part of what holds in WAIT_ON_ACK.
  Waits-count :
      {sr : Server}
      → Waits in_cksum n file count sr
      → (retry_count : ℕ) → Waits in_cksum n file count (record sr { retry_count = retry_count })
  Waits-count {sr} waits k = record {
    sends = Sends-counts in_cksum waits.sends k sr.eof_retry_count;
    shut = waits.shut;
  }

  polled-Promised :
      (sr : Server) (a : Answers)
      → Waits in_cksum n file count sr
      → MayMeet in_cksum n file count sr a
      → ltb max_retrans (sr.retry_count + 1) ≡ false
      → (answer : Poll) → a.poll (poll_time sr.window sr.finished) ≡ answer
      → Promised in_cksum n file count sr.seq_num (wait_on_ack in_cksum sr a)
  unfolding wait_on_ack process_select ack_selected
  polled-Promised sr a waits may left ready is =
      rw (is, left, wait_on_ack, process_select)
        (ack_received-Promised (record sr { retry_count = 0 }) (Waits-count waits 0) a.datagram
          answered)
    where
      answered :
          (stack datagram : List ℕ)
          → a.datagram ≡ some (stack, datagram)
          → MayAnswer in_cksum n file count
              (record sr { retry_count = 0 })
              (recv_buf stack datagram)
      answered stack datagram e = MayAnswer-count (may.answers stack datagram e)
  polled-Promised sr a waits may left silent is =
      rw (is, left, wait_on_ack, process_select)
        (
          record { waits = Waits-count waits (sr.retry_count + 1); data_lower = may.timeouts is },
          refl,
        )
  polled-Promised sr a waits may left failed is =
      rw (is, left, wait_on_ack, process_select) (sr.seq_num, refl)

  pub wait_on_ack-Promised :
      (sr : Server) (a : Answers)
      → Waits in_cksum n file count sr
      → MayMeet in_cksum n file count sr a
      → Promised in_cksum n file count sr.seq_num (wait_on_ack in_cksum sr a)
  unfolding wait_on_ack process_select ack_selected
  wait_on_ack-Promised sr a waits may = elim (Bool-cases (ltb max_retrans (sr.retry_count + 1))) [
    | inl over ↦ rw (over, wait_on_ack, process_select) (tt, refl)
    | inr left ↦ polled-Promised sr a waits may left (a.poll (poll_time sr.window sr.finished)) refl
  ]
