-- ===== src/Tests/Client.antt =====
-- The client on a file of four bytes, cut into packets of three.
use cpe464_a.Base.{
  ℕ, zero, suc, ◌-◌, ◌≡◌, ◌≤◌, ◌<◌, refl, inl, inr, List, [], ◌∷◌, get_or, length, arith, true,
  Bool,
}
use cpe464_a.Base.{htonl_bytes, ntohl_bytes, Option, some, none}
use cpe464_a.Checksum.{IsBytes}
use cpe464_a.Process.{ready, fault, out_of_fuel}
use cpe464_a.Rcopy.{Result, send_seq, disk_bytes}
use cpe464_a.Rcopy.Run.{is_done, step}
use cpe464_a.Rcopy.Setup.{
  start_state, filename, process_select, filename_after, filename_selected, filename_event,
  filename_packet, file_ok, init_payload,
}
use cpe464_a.Rcopy.Receive.{
  recv_data, recv_data_packet, note_packet, recv_in_order, recv_out_of_order, recv_old, buffer,
  buffer_packet, buffer_in_order, buffer_out_of_order,
}
use cpe464_a.Rcopy.Flush.{
  flush, flush_loop, flush_round, flush_body, flush_last, flush_end, flush_hole, after_loop,
  take_buffered, length_of_buffered,
}
use cpe464_a.Pdu.{send_buf}
use cpe464_a.Window.{
  window_create, size_t_of_int, zero_buffer, window_add, window_remove, window_isvalid,
  window_get_packet, slot, put_slot, overwrite,
}
use cpe464_a.Delivery.Opening.{Asks-Receives}
use cpe464_a.Delivery.Transfer.{DamageShows}
use cpe464_a.Delivery.Runs.{AllowedRun, process_file-Promised}
use cpe464_a.Delivery.{IsData, IsEof}
use cpe464_a.Checksum.Internet.{internet_checksum, internet_checksum-IsChecksum}
use cpe464_a.Flag
use cpe464_a.Process.{Event, arrived, timed_out, goes, exits, written}
use cpe464_a.Pdu.{Received, recv_buf, read_u32, create_pdu, is_corrupt}
use cpe464_a.Rcopy.{State, Client, initial_client}
use cpe464_a.Rcopy.Setup.{opened}
use cpe464_a.Rcopy.Run.{Answers, process_file}
use cpe464_a.Window.{new_window}
use cpe464_a.Delivery.{Stream, IsStream, Receives, Promised}
use cpe464_a.Delivery.Opening.{IsConfigured}
use cpe464_a.Delivery.Transfer.{
  Item, damaged, next, answer, play, IsByteStream, play-Completes, Completes,
}

abbrev chunks : ℕ → List ℕ
chunks zero = []
chunks (suc zero) = 1 ∷ 2 ∷ 3 ∷ []
chunks (suc (suc zero)) = 4 ∷ []
chunks (suc (suc (suc n))) = []

abbrev pub small : Stream
small = record { chunk = chunks; count = 2; full = 3 }

small-fits : (i : ℕ) → length (chunks i) ≤ 1400
small-fits zero = omega arith
small-fits (suc zero) = omega arith
small-fits (suc (suc zero)) = omega arith
small-fits (suc (suc (suc n))) = omega arith

small-whole : (i : ℕ) → 1 ≤ i → i < 2 → length (chunks i) ≡ 3
small-whole zero h k = absurd (omega arith)
small-whole (suc zero) h k = refl
small-whole (suc (suc i)) h k = absurd (omega arith)

small_some : (i : ℕ) → 1 ≤ i → i ≤ 2 → 0 < length (chunks i)
small_some zero h k = absurd (omega arith)
small_some (suc zero) h k = omega arith
small_some (suc (suc zero)) h k = omega arith
small_some (suc (suc (suc i))) h k = absurd (omega arith)

pub small-IsStream : IsStream small
small-IsStream = record {
  fits = small-fits;
  whole = small-whole;
  bounded = omega arith;
  some_bytes = small_some;
}

-- Digits only, which is all that the tests give it.
unfoldable pub atoi : List ℕ → ℕ
atoi bs = get_or bs 0 48 - 48

abbrev pub argv : List (List ℕ)
argv =
    (b'r' ∷ [])
    ∷ (b'f' ∷ [])
    ∷ (b't' ∷ [])
    ∷ (b'4' ∷ [])
    ∷ (b'3' ∷ [])
    ∷ (b'0' ∷ [])
    ∷ (b'h' ∷ [])
    ∷ (b'1' ∷ [])
    ∷ []

small-IsConfigured : IsConfigured atoi argv small
unfolding atoi
small-IsConfigured = record {
  buffer_size = refl;
  buffer_size_le = omega arith;
  window_size_pos = omega arith;
}

abbrev pub calloc : ℕ → ℕ → Bool
calloc count size = true

abbrev pub ready_client : Client
ready_client = record initial_client { window = new_window 4; data_packet_len = 10 }

pub ready-Receives : Receives small ready_client []
ready-Receives =
    Asks-Receives {c = record ready_client { window = initial_client.window }} 4 (omega arith)
      (record {
        opens = record { nothing = refl; first_expected = refl; no_eof = refl; no_final = refl };
        data_len_set = refl;
      })

small-IsByteStream : IsByteStream internet_checksum small (0 ∷ [])
small-IsByteStream = record {
  bytes = small-IsBytes;
  filler_bytes = omega arith;
  filler_fits = omega arith;
}
  where
    small-IsBytes : (i : ℕ) → IsBytes (chunks i)
    small-IsBytes zero = omega arith
    small-IsBytes (suc zero) = omega arith
    small-IsBytes (suc (suc zero)) = omega arith
    small-IsBytes (suc (suc (suc n))) = omega arith

-- The three packets, the second after a damaged datagram.
abbrev noisy : List Item
noisy = next [] ∷ damaged [] (1 ∷ 2 ∷ []) ∷ next [] ∷ next [] ∷ []

noisy-DamageShows : DamageShows internet_checksum small (0 ∷ []) noisy
unfolding is_corrupt recv_buf internet_checksum
noisy-DamageShows = (refl, tt)

play-Completes_example : Completes internet_checksum atoi calloc argv small (0 ∷ []) [] (
    process_file internet_checksum atoi calloc argv State.recv_data ready_client
      (play internet_checksum small (0 ∷ []) 1 noisy))
play-Completes_example =
    play-Completes internet_checksum atoi calloc argv small (0 ∷ []) internet_checksum-IsChecksum
      small-IsStream small-IsByteStream noisy 1 ready_client [] ready-Receives refl
      noisy-DamageShows refl

-- The same run by evaluation: the effects, and the bytes that they write.
abbrev packet : ℕ → ℕ → List ℕ → Event
packet seq_num flag payload = arrived [] (create_pdu internet_checksum seq_num flag payload)

abbrev pub shuffled : List Answers
shuffled =
    record (answer timed_out) { socket = opened 5 }
    ∷ record (answer (packet 0 Flag.fname_ok [])) { select = ready }
    ∷ record (answer timed_out) { file_opened = true }
    ∷ answer (packet 1 Flag.data_flag (1 ∷ 2 ∷ 3 ∷ []))
    ∷ answer (packet 3 Flag.end_of_file (0 ∷ []))
    ∷ answer (packet 2 Flag.srej_retran (4 ∷ []))
    ∷ answer timed_out
    ∷ []

abbrev disk_of : Result → List ℕ
disk_of (goes st c acts) = written acts
disk_of (exits code acts) = written acts
disk_of fault = []
disk_of out_of_fuel = []

abbrev code_of : Result → Option ℕ
code_of (exits code acts) = some code
code_of _ = none

-- All that a run of the client computes with.
unfoldable pub client_code : Unit {0}
unfolding process_file is_done step start_state filename process_select filename_after
    filename_selected filename_event filename_packet file_ok window_create size_t_of_int new_window
    zero_buffer recv_data recv_data_packet note_packet recv_in_order recv_out_of_order recv_old
    buffer buffer_packet buffer_in_order buffer_out_of_order flush flush_loop flush_round flush_body
    flush_last flush_end flush_hole after_loop take_buffered length_of_buffered send_seq send_buf
    disk_bytes recv_buf read_u32 create_pdu is_corrupt internet_checksum atoi init_payload
    window_add window_remove window_isvalid window_get_packet slot put_slot overwrite ntohl_bytes
    htonl_bytes
client_code = tt

-- EOF overtakes the last data packet, waits in the window, and ends the program from there.
shuffled_runs :
    let o =
      process_file internet_checksum atoi calloc argv State.start_state initial_client shuffled in
    (disk_of o ≡ 1 ∷ 2 ∷ 3 ∷ 4 ∷ []) × (code_of o ≡ some 0)
unfolding client_code
shuffled_runs = (refl, refl)

abbrev pub received : ℕ → ℕ → List ℕ → Received
received seq_num flag payload = recv_buf [] (create_pdu internet_checksum seq_num flag payload)

pub first-IsData : IsData small 1 (received 1 Flag.data_flag (1 ∷ 2 ∷ 3 ∷ []))
unfolding client_code
first-IsData = record {
  from_one = omega arith;
  to_count = omega arith;
  data_len = refl;
  payload = refl;
  not_eof = λ q. absurd (omega arith);
  retransmitted = λ q. omega arith;
}

second-IsData : IsData small 2 (received 2 Flag.srej_retran (4 ∷ []))
unfolding client_code
second-IsData = record {
  from_one = omega arith;
  to_count = omega arith;
  data_len = refl;
  payload = refl;
  not_eof = λ q. absurd (omega arith);
  retransmitted = λ q. omega arith;
}

last-IsEof : IsEof small (received 3 Flag.end_of_file (0 ∷ []))
unfolding client_code
last-IsEof = record { after_all = refl; eof_flag = refl; eof_len = omega arith }

shuffled-AllowedRun :
    AllowedRun internet_checksum atoi calloc argv small State.start_state initial_client shuffled
unfolding client_code
shuffled-AllowedRun = inr (
  tt,
  inr (
    tt,
    inr (
      tt,
      inr (
        inr (inl first-IsData, omega arith),
        inr (
          inr (inr last-IsEof, omega arith),
          inr (inr (inl second-IsData, omega arith, inl refl), inr (tt, tt)),
        ),
      ),
    ),
  ),
)

process_file-Promised_example :
    Promised small []
      (process_file internet_checksum atoi calloc argv State.start_state initial_client shuffled)
process_file-Promised_example =
    process_file-Promised internet_checksum atoi calloc argv small small-IsStream small-IsConfigured
      shuffled shuffled-AllowedRun
