-- ===== src/Rcopy/Setup.antt =====
-- The states of rcopy.c before data: `checkArgs`, `start_state`, `filename`, `processSelect` and
-- `file_ok`. `argv` is the list of the arguments' bytes, the program's name first; `atoi` is libc's,
-- by the bit pattern of its int.
use cpe464_a.Base.{
  ℕ, ◌+◌, Bool, true, false, Option, none, some, List, [], ◌∷◌, ◌++◌, length, get_or, ltb, ◌==◌,
  not, if◌then◌else◌, u32, htonl_bytes,
}
use cpe464_a.Flag
use cpe464_a.Process.{
  Poll, ready, silent, failed, Event, timed_out, poll_failed, recv_failed, arrived, goes, exits,
}
use cpe464_a.Pdu.{Received, recv_buf, send_init, is_corrupt}
use cpe464_a.Window.{window_create}
use cpe464_a.Rcopy.{State, Client, Result}

abbrev pub max_file_len : ℕ
max_file_len = 100

abbrev pub max_window : ℕ
max_window = 1073741824

abbrev pub max_retrans : ℕ
max_retrans = 10

abbrev pub arg : List (List ℕ) → ℕ → List ℕ
arg argv i = get_or argv i []

-- `checkArgs`: whether it returns; it exits with 1 otherwise.
unfoldable pub check_args : List (List ℕ) → Bool
check_args argv =
    if not (length argv == 8)
    then false
    else if ltb max_file_len (length (arg argv 1))
    then false
    else if ltb max_file_len (length (arg argv 2))
    then false
    else if ltb max_window (length (arg argv 3))
    then false
    else if ltb 1400 (length (arg argv 4))
    then false
    else true

-- What `setupUdpClientToServer` and the calls that set up the poll table come to: no socket, no such
-- host or no memory for the table (these exit), or a socket.
pub data Socket : Type 0 where
  no_socket no_host no_poll_set : Socket
  opened : ℕ → Socket

-- `processSelect`: the next state and the new count, or none for the exit(-1) of `pollCall`.
unfoldable pub process_select :
    (retry_count : ℕ) → Poll → (timeout_state data_state done_state : State) → Option (State × ℕ)
process_select retry_count answer timeout_state data_state done_state =
    if ltb max_retrans (retry_count + 1) then some (done_state, retry_count + 1) else elim answer [
      | ready ↦ some (data_state, 0)
      | silent ↦ some (timeout_state, retry_count + 1)
      | failed ↦ none
    ]

module _ (in_cksum : List ℕ → ℕ) where
  -- `filename`, a received packet. A damaged one is counted, and its flag is looked at all the same.
  unfoldable pub filename_packet : Client → Received → Result
  filename_packet c r =
      let damaged = is_corrupt in_cksum r in
      let c' = (if damaged then record c { retry_count = c.retry_count + 1 } else c) in
      if r.flag == Flag.fname_bad
      then exits 1 []
      else if r.flag == Flag.data_flag
      then goes State.file_ok c' []
      else if damaged
      then goes State.filename c' []
      else goes State.file_ok c' []

  unfoldable pub filename_event : Client → Event → Result
  filename_event c timed_out = goes State.done c []
  filename_event c poll_failed = exits 255 []
  filename_event c recv_failed = exits 255 []
  filename_event c (arrived stack datagram) = filename_packet c (recv_buf stack datagram)

  -- What `filename` does with the state that `processSelect` returns.
  unfoldable pub filename_selected : Client → Event → State → Result
  filename_selected c event State.file_ok = filename_event c event
  filename_selected c event st = goes st c []

  -- What it does with what `processSelect` returns.
  unfoldable pub filename_after : Client → Event → Option (State × ℕ) → Result
  filename_after c event none = exits 255 []
  filename_after c event (some (st, retry_count)) =
      filename_selected (record c { retry_count = retry_count }) event st

  -- `filename`: the poll of `processSelect`, then that of its own.
  unfoldable pub filename : Client → Poll → Event → Result
  filename c answer event =
      filename_after c event
        (process_select c.retry_count answer State.start_state State.file_ok State.done)

  -- The establishment packet's payload: buffer size, window size, file name.
  unfoldable pub init_payload : (List ℕ → ℕ) → List (List ℕ) → List ℕ
  init_payload atoi argv =
      htonl_bytes (atoi (arg argv 4)) ++ (htonl_bytes (atoi (arg argv 3)) ++ arg argv 1)

  unfoldable pub start_state : (List ℕ → ℕ) → List (List ℕ) → Client → Socket → Result
  start_state atoi argv c no_socket = goes State.done c []
  start_state atoi argv c no_host = exits 255 []
  start_state atoi argv c no_poll_set = exits 255 []
  start_state atoi argv c (opened n) =
      goes State.filename
        (record c {
          sk_num = n;
          data_packet_len = u32 (7 + atoi (arg argv 4));
          client_seq_num = u32 (c.client_seq_num + 1);
        })
        (send_init in_cksum Flag.filename_init c.client_seq_num (init_payload atoi argv) ∷ [])

-- `file_ok`: the output file, which `open` may refuse, and the window.
unfoldable pub file_ok : (calloc : ℕ → ℕ → Bool) → ℕ → Client → (file_opened : Bool) → Result
file_ok calloc window_size c file_opened =
    if file_opened
    then elim (window_create calloc window_size) [
      | none ↦ exits 1 []
      | some window ↦ goes State.recv_data (record c { window = window }) []
    ]
    else goes State.done c []
