-- ===== src/Server/Ack.antt =====
-- `processSelect`, `wait_on_ack` and `wait_on_eof_ack` of server.c.
use cpe464_a.Base.{
  ℕ, ◌+◌, ◌-◌, Option, none, some, List, [], ◌∷◌, take, ltb, ◌==◌, ◌||◌, if◌then◌else◌, u32,
}
use cpe464_a.Flag
use cpe464_a.Process.{Poll, ready, silent, failed, goes, exits, fault, send, after}
use cpe464_a.Pdu.{Received, recv_buf, read_u32, is_corrupt}
use cpe464_a.Window.{Window, window_full, window_slide, window_remove, window_get_packet}
use cpe464_a.Server.{State, Server, Result, Answers, max_retrans}
use cpe464_a.Server.Resend.{send_srej}

-- How long `processSelect` polls: a second if the window is closed, else not at all.
unfoldable pub poll_time : Window → (finished : ℕ) → ℕ
poll_time w finished = if window_full w || finished == 1 then 1000 else 0

-- `processSelect`: the next state and the new count, or none for the exit(-1) of `pollCall`.
unfoldable pub process_select :
    (retry_count : ℕ) → Poll → (timeout_state data_state done_state : State) → Option (State × ℕ)
process_select retry_count answer timeout_state data_state done_state =
    if ltb max_retrans (retry_count + 1) then some (done_state, retry_count + 1) else elim answer [
      | ready ↦ some (data_state, 0)
      | silent ↦ some (timeout_state, retry_count + 1)
      | failed ↦ none
    ]

-- "Successful Transmission".
unfoldable pub rr_packet : Server → Received → Result
rr_packet sr r =
    let rr_seq = read_u32 r.buf 7 in
    if rr_seq == u32 (sr.final_packet_seq + 1)
    then goes State.wait_on_eof_ack sr []
    else elim (window_remove (window_slide sr.window rr_seq) rr_seq) [
      | none ↦ fault
      | some w ↦ goes State.send_data (record sr { window = w }) []
    ]

module _ (in_cksum : List ℕ → ℕ) where
  unfoldable pub ack_packet : Server → Received → Result
  ack_packet sr r =
      if is_corrupt in_cksum r
      then goes State.wait_on_ack sr []
      else if r.flag == Flag.srej
      then elim (send_srej in_cksum sr r) [
        | none ↦ fault
        | some (sr', acts) ↦ goes State.send_data sr' acts
      ]
      else if r.flag == Flag.eof_ack
      then goes State.done sr []
      else if r.flag == Flag.rr
      then rr_packet sr r
      else goes State.done sr []

  -- After `processSelect` found something to receive.
  unfoldable pub ack_received : Server → Option (List ℕ × List ℕ) → Result
  ack_received sr none = exits 255 []
  ack_received sr (some (stack, datagram)) = ack_packet sr (recv_buf stack datagram)

  -- What `wait_on_ack` does with the state that `processSelect` returns.
  unfoldable pub ack_selected : Server → Option (List ℕ × List ℕ) → State → Result
  ack_selected sr datagram State.send_data = ack_received sr datagram
  ack_selected sr datagram st = goes st sr []

  unfoldable pub wait_on_ack : Server → Answers → Result
  wait_on_ack sr a =
      elim (process_select sr.retry_count (a.poll (poll_time sr.window sr.finished))
        State.timeout_on_ack State.send_data State.done) [
          | none ↦ exits 255 []
          | some (st, retry_count) ↦
              ack_selected (record sr { retry_count = retry_count }) a.datagram st
        ]

  -- After a datagram came in the loop of `wait_on_eof_ack`.
  unfoldable pub eof_ack_packet : Server → Received → Result
  eof_ack_packet sr r =
      if is_corrupt in_cksum r
      then goes State.wait_on_eof_ack (record sr { eof_retry_count = sr.eof_retry_count + 1 }) []
      else if r.flag == Flag.eof_ack
      then goes State.done sr []
      else goes State.wait_on_eof_ack sr []

  unfoldable pub eof_received : Server → Option (List ℕ × List ℕ) → Result
  eof_received sr none = exits 255 []
  eof_received sr (some (stack, datagram)) = eof_ack_packet sr (recv_buf stack datagram)

  unfoldable pub eof_polled : Server → Answers → Poll → Result
  eof_polled sr a silent =
      goes State.wait_on_eof_ack (record sr { eof_retry_count = sr.eof_retry_count + 1 }) []
  eof_polled sr a ready = eof_received sr a.datagram
  eof_polled sr a failed = exits 255 []

  -- One round of the loop of `wait_on_eof_ack`; where the loop goes round, the next round is that of
  -- the same state.
  unfoldable pub wait_on_eof_ack : Server → Answers → Result
  wait_on_eof_ack sr a = elim (window_get_packet sr.window sr.last_seq_num) [
    | none ↦ fault
    | some packet ↦
        if ltb (max_retrans - 1) sr.eof_retry_count
        then exits 0 []
        else after (send (take sr.eof_len packet) ∷ []) (eof_polled sr a (a.poll 1000))
  ]
