-- ===== src/Rcopy/Receive.antt =====
-- `recv_data` and `buffer` of rcopy.c: one poll, one datagram, and what is done with it.
use cpe464_a.Base.{ℕ, ◌+◌, List, [], ◌∷◌, none, some, take, ltb, ◌==◌, if◌then◌else◌, u32}
use cpe464_a.Flag
use cpe464_a.Process.{
  write, stray, Event, timed_out, poll_failed, recv_failed, arrived, goes, exits, fault,
}
use cpe464_a.Pdu.{Received, recv_buf, is_corrupt}
use cpe464_a.Window.{window_add, window_remove}
use cpe464_a.Rcopy.{State, Client, Result, disk_bytes, send_seq}

-- "Populate Global Variables": a data packet of another length than the first is the last one, and
-- EOF's sequence number is kept.
unfoldable pub note_packet : Client → Received → Client
note_packet c r =
    if r.flag == Flag.data_flag
    then (if r.len == c.data_packet_len
        then c
        else record c { final_packet_len = r.len; final_packet_seq = r.seq_num })
    else (if r.flag == Flag.end_of_file then record c { eof_seq = r.seq_num } else c)

-- `buffer`, "In Order Data"; `data[actual_data_len] = '\0'` is the stray byte.
unfoldable pub buffer_in_order : Client → Received → Result
buffer_in_order c r = elim (disk_bytes r.len r.buf) [
  | none ↦ fault
  | some bytes ↦ elim (window_remove c.window r.seq_num) [
    | none ↦ fault
    | some window ↦
        goes State.flush (record c { window = window; expected = u32 (c.expected + 1) })
          (write bytes ∷ stray ∷ [])
  ]
]

-- `buffer`, "Out of Order Data".
unfoldable pub buffer_out_of_order : Client → Received → Result
buffer_out_of_order c r = elim (window_add c.window r.seq_num (take r.len r.buf)) [
  | none ↦ fault
  | some window ↦ goes State.buffer (record c { window = window; highest = r.seq_num }) []
]

module _ (in_cksum : List ℕ → ℕ) where
  -- `recv_data`, "In Order Data".
  unfoldable pub recv_in_order : Client → Received → Result
  recv_in_order c r =
      let ack_seq_num = u32 (r.seq_num + 1) in
      if r.flag == Flag.end_of_file
      then exits 0 (send_seq in_cksum c Flag.eof_ack ack_seq_num ∷ [])
      else elim (disk_bytes r.len r.buf) [
        | none ↦ fault
        | some bytes ↦
            goes State.recv_data
              (record c {
                highest = c.expected;
                expected = u32 (c.expected + 1);
                client_seq_num = u32 (c.client_seq_num + 1);
              })
              (send_seq in_cksum c Flag.rr ack_seq_num ∷ write bytes ∷ [])
      ]

  -- `recv_data`, "Out of Order Data".
  unfoldable pub recv_out_of_order : Client → Received → Result
  recv_out_of_order c r = elim (window_add c.window r.seq_num (take r.len r.buf)) [
    | none ↦ fault
    | some window ↦
        goes State.buffer
          (record c {
            window = window;
            highest = r.seq_num;
            client_seq_num = u32 (c.client_seq_num + 1);
          })
          (send_seq in_cksum c Flag.srej c.expected ∷ [])
  ]

  -- `recv_data`, a packet from before the expected one.
  unfoldable pub recv_old : Client → Received → Result
  recv_old c r =
      goes State.recv_data (record c { client_seq_num = u32 (c.client_seq_num + 1) })
        (send_seq in_cksum c Flag.rr (u32 (r.seq_num + 1)) ∷ [])

  unfoldable pub recv_data_packet : Client → Received → Result
  recv_data_packet c r =
      if is_corrupt in_cksum r
      then goes State.recv_data c []
      else let c' = note_packet c r in
        if r.seq_num == c'.expected
        then recv_in_order c' r
        else if ltb c'.expected r.seq_num
        then recv_out_of_order c' r
        else recv_old c' r

  unfoldable pub recv_data : Client → Event → Result
  recv_data c timed_out = goes State.done c []
  recv_data c poll_failed = exits 255 []
  recv_data c recv_failed = exits 255 []
  recv_data c (arrived stack datagram) = recv_data_packet c (recv_buf stack datagram)

  -- `buffer`, a packet from before the expected one.
  unfoldable pub buffer_old : Client → Received → Result
  buffer_old c r = goes State.recv_data c (
      send_seq in_cksum c Flag.srej c.expected
      ∷ send_seq in_cksum c Flag.rr (u32 (r.seq_num + 1))
      ∷ [])

  unfoldable pub buffer_packet : Client → Received → Result
  buffer_packet c r =
      if is_corrupt in_cksum r
      then goes State.buffer c []
      else if ltb r.seq_num c.expected
      then buffer_old c r
      else let c' = note_packet c r in
        if r.seq_num == c'.expected then buffer_in_order c' r else buffer_out_of_order c' r

  unfoldable pub buffer : Client → Event → Result
  buffer c timed_out = goes State.done c []
  buffer c poll_failed = exits 255 []
  buffer c recv_failed = exits 255 []
  buffer c (arrived stack datagram) = buffer_packet c (recv_buf stack datagram)
