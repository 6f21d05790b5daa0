-- ===== src/Session/Hearing.antt =====
-- The server in a session: what it does with the client's answers.
use cpe464_a.Base.{
  ℕ, ◌+◌, ◌^◌, ◌≤◌, ◌<◌, ◌≡◌, ◌==◌, ◌⊎◌, inl, inr, Bool-cases, false, some, List, [], ◌∷◌, take,
  arith, refl, sym, ◌∙◌, u32, ==→eq, subst, htonl_bytes,
}
use cpe464_a.Checksum.{IsChecksum}
use cpe464_a.Flag
use cpe464_a.Process.{goes, send}
use cpe464_a.Pdu.{Received, recv_buf, read_u32, is_corrupt}
use cpe464_a.Pdu.RoundTrip.{recv_buf-create_pdu}
use cpe464_a.Window.{Buffer, slot, put_slot, window_slide, window_full}
use cpe464_a.Window.Slots.{slot-some, window_remove_at, window_get_packet_at}
use cpe464_a.Server.{State, Server}
use cpe464_a.Server.Ack.{
  rr_packet, ack_packet, ack_received, ack_selected, wait_on_ack, process_select, wait_on_eof_ack,
  eof_polled, eof_received, eof_ack_packet,
}
use cpe464_a.Service.{Fills, Closed, Sends}
use cpe464_a.Service.Link.{IsBytes-htonl_bytes, length-htonl_bytes, number_read}
use cpe464_a.Service.Acking.{Sends-slid}
use cpe464_a.Session.{hears}
use cpe464_a.Session.Packets.{IsAnswer}
use cpe464_a.Session.Serving.{Serves, Moved}

module _ (in_cksum : List ℕ → ℕ) (ck : IsChecksum in_cksum) where
  -- An answer as the server receives it.
  pub record IsHeard (flag number : ℕ) (r : Received) : Type 0 where
    pub intact : is_corrupt in_cksum r ≡ false
    pub flag_is : r.flag ≡ flag
    pub number_is : read_u32 r.buf 7 ≡ number

  pub IsAnswer-IsHeard :
      (flag number : ℕ) (datagram stack : List ℕ)
      → IsAnswer in_cksum flag number datagram
      → flag < 256
      → number < 2 ^ 32
      → IsHeard flag number (recv_buf stack datagram)
  IsAnswer-IsHeard flag number datagram stack is flag_lt number_lt =
      let (clean, got) =
        recv_buf-create_pdu in_cksum ck stack is.seq_num flag (htonl_bytes number) is.in_word
          flag_lt (IsBytes-htonl_bytes in_cksum number) (length-htonl_bytes in_cksum number) in
      subst (λ d. IsHeard flag number (recv_buf stack d)) (sym is.bytes)
        (record {
          intact = clean;
          flag_is = got.flag_kept;
          number_is = number_read in_cksum stack is.seq_num flag number number_lt;
        })

  module _ {n : ℕ} {file : List ℕ} {count : ℕ} (fl : Fills n file count) (byte : ℕ) where
    pub wait_on_ack-hears :
        (sr : Server) (stack datagram : List ℕ)
        → sr.retry_count ≡ 0
        → wait_on_ack in_cksum sr (hears byte stack datagram)
          ≡ ack_packet in_cksum sr (recv_buf stack datagram)
    unfolding wait_on_ack process_select ack_selected ack_received
    wait_on_ack-hears sr stack datagram none_yet =
        subst
          (λ k.
            wait_on_ack in_cksum (record sr { retry_count = k }) (hears byte stack datagram)
            ≡ ack_packet in_cksum (record sr { retry_count = k }) (recv_buf stack datagram))
          (sym none_yet) refl

    ack_packet-rr :
        (sr : Server) (r : Received)
        → is_corrupt in_cksum r ≡ false
        → r.flag ≡ Flag.rr
        → ack_packet in_cksum sr r ≡ rr_packet sr r
    unfolding ack_packet
    ack_packet-rr sr r intact is = simp (intact, is) refl

    -- The server after an RR that slides its window.
    abbrev slid : Server → ℕ → Buffer → Server
    slid sr number b = record sr {
      window = put_slot (window_slide sr.window number) number (record b { valid = 0 });
    }

    module _ (sr : Server) (acked : ℕ)
        (serves : Serves in_cksum n file count State.wait_on_ack sr acked)
        (sent_it : acked + 1 ≤ sr.window.current) (to : acked ≤ count) where
      -- Data that is acknowledged was sent.
      sent_to : acked + 1 ≤ sr.seq_num
      sent_to = elim serves.at.0.sends.phase [
        | inl open_now ↦ omega (arith, open_now.current_is)
        | inr closed ↦ omega (arith, closed.seq_is)
      ]

      -- The RR for the last packet of the file comes when EOF is out.
      last-Closed :
          acked + 1 ≡ u32 (sr.final_packet_seq + 1)
          → Closed in_cksum n file count sr × (acked ≡ count)
      unfolding window_full
      last-Closed is = elim serves.at.0.sends.final_is [
        | inl none_yet ↦
            absurd (omega (arith, is, none_yet, serves.at.1, serves.at.0.sends.lower_from_one))
        | inr (last, len) ↦
            let all : acked ≡ count = omega (arith, is, last, serves.at.0.sends.in_word) in
            elim serves.at.0.sends.phase [
              | inr closed ↦ (closed, all)
              | inl open_now ↦ elim serves.at.0.shut [
                | inr finished ↦ absurd (omega (arith, finished, open_now.unfinished))
                | inl full ↦ absurd (
                    omega (
                      arith,
                      ==→eq _ _ full,
                      serves.at.0.sends.window_bounded.upper_is,
                      open_now.current_is,
                      all,
                      serves.at.1,
                      serves.two,
                      serves.at.0.sends.to_count,
                      serves.at.0.sends.in_word,
                    ))
              ]
            ]
      ]

      rr-last :
          acked + 1 ≡ u32 (sr.final_packet_seq + 1)
          → Moved in_cksum n file count byte sr (acked + 1) State.wait_on_eof_ack sr []
      rr-last is =
          let (closed, all) = last-Closed is in
          record {
            serves = record {
              at = (serves.at.0.sends, closed, omega (arith, all));
              two = serves.two;
              no_retry = serves.no_retry;
              no_eof_retry = serves.no_eof_retry;
            };
            new = 0;
            current_is = omega arith;
            sent_is = refl;
            still_closed = λ c. c;
          }

      rr-slides :
          (b : Buffer)
          → slot sr.window (acked + 1) ≡ some b
          → Moved in_cksum n file count byte sr
              (acked + 1)
              State.send_data
              (slid sr (acked + 1) b)
              []
      unfolding put_slot window_slide
      rr-slides b here = record {
        serves = record {
          at = (
            Sends-slid in_cksum fl serves.at.0.sends (acked + 1) (omega (arith, serves.at.1))
                sent_to b here,
            refl,
          );
          two = serves.two;
          no_retry = serves.no_retry;
          no_eof_retry = serves.no_eof_retry;
        };
        new = 0;
        current_is = omega arith;
        sent_is = refl;
        still_closed = λ c. record {
          is_finished = c.is_finished;
          current_is = c.current_is;
          seq_is = c.seq_is;
          last_is = c.last_is;
          eof_len_is = c.eof_len_is;
        };
      }

      -- An RR that ends the data, or that slides the window by one.
      rr_packet-moves :
          (r : Received)
          → read_u32 r.buf 7 ≡ acked + 1
          → (st' : State) × (sr' : Server) × (rr_packet sr r ≡ goes st' sr' [])
            × Moved in_cksum n file count byte sr (acked + 1) st' sr' []
            × ((st' ≡ State.send_data) ⊎ (st' ≡ State.wait_on_eof_ack))
      unfolding rr_packet window_slide slot
      rr_packet-moves r number =
          let (b, here) = slot-some serves.at.0.sends.window_valid (acked + 1) in
          elim (Bool-cases ((acked + 1) == u32 (sr.final_packet_seq + 1))) [
            | inl last ↦ (
              State.wait_on_eof_ack,
              sr,
              rw (number, last) refl,
              rr-last (==→eq _ _ last),
              inr refl,
            )
            | inr more ↦ (
              State.send_data,
              slid sr (acked + 1) b,
              rw
                  (
                    number,
                    more,
                    window_remove_at (window_slide sr.window (acked + 1)) (acked + 1) here,
                  )
                  refl,
              rr-slides b here,
              inl refl,
            )
          ]

    pub wait_on_ack-rr :
        (sr : Server) (acked : ℕ) (stack datagram : List ℕ)
        → Serves in_cksum n file count State.wait_on_ack sr acked
        → IsAnswer in_cksum Flag.rr (acked + 1) datagram
        → acked + 1 ≤ sr.window.current
        → acked ≤ count
        → (st' : State) × (sr' : Server) × (wait_on_ack in_cksum sr (hears byte stack datagram)
            ≡ goes st' sr' [])
          × Moved in_cksum n file count byte sr (acked + 1) st' sr' []
          × ((st' ≡ State.send_data) ⊎ (st' ≡ State.wait_on_eof_ack))
    wait_on_ack-rr sr acked stack datagram serves is sent to =
        let heard =
          IsAnswer-IsHeard Flag.rr (acked + 1) datagram stack is (omega arith)
            (omega (arith, serves.at.0.sends.in_word)) in
        let (st', sr', runs, moved, which) =
          rr_packet-moves sr acked serves sent to (recv_buf stack datagram) heard.number_is in
        (
          st',
          sr',
          wait_on_ack-hears sr stack datagram serves.no_retry
              ∙ ack_packet-rr sr _ heard.intact heard.flag_is
              ∙ runs,
          moved,
          which,
        )

    pub wait_on_ack-eof_ack :
        (sr : Server) (number : ℕ) (stack datagram : List ℕ)
        → sr.retry_count ≡ 0
        → IsAnswer in_cksum Flag.eof_ack number datagram
        → number < 2 ^ 32
        → wait_on_ack in_cksum sr (hears byte stack datagram) ≡ goes State.done sr []
    unfolding ack_packet
    wait_on_ack-eof_ack sr number stack datagram none_yet is lt =
        let heard = IsAnswer-IsHeard Flag.eof_ack number datagram stack is (omega arith) lt in
        wait_on_ack-hears sr stack datagram none_yet ∙ rw (heard.intact, heard.flag_is) refl

    pub wait_on_eof_ack-eof_ack :
        (sr : Server) (number : ℕ) (stack datagram : List ℕ)
        → Sends in_cksum n file count sr
        → sr.eof_retry_count ≡ 0
        → IsAnswer in_cksum Flag.eof_ack number datagram
        → number < 2 ^ 32
        → (again : List ℕ) × (wait_on_eof_ack in_cksum sr (hears byte stack datagram)
            ≡ goes State.done sr (send again ∷ []))
    unfolding wait_on_eof_ack eof_polled eof_received eof_ack_packet
    wait_on_eof_ack-eof_ack sr number stack datagram sends none_yet is lt =
        let heard = IsAnswer-IsHeard Flag.eof_ack number datagram stack is (omega arith) lt in
        let (b, here) = slot-some sends.window_valid sr.last_seq_num in
        (
          take sr.eof_len b.packet,
          rw
              (
                wait_on_eof_ack,
                window_get_packet_at sr.window sr.last_seq_num here,
                none_yet,
                heard.intact,
                heard.flag_is,
              )
              refl,
        )
