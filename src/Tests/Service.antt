-- ===== src/Tests/Service.antt =====
-- The server against its contract, on a file of five bytes, two at a time, through a window of four.
use cpe464_a.Base.{
  ℕ, ◌+◌, ◌-◌, ◌*◌, ◌<◌, ◌≡◌, ◌⊎◌, refl, inr, Bool, true, false, Option, none, some, List, [], ◌∷◌,
  htonl_bytes, ntohl_bytes, arith,
}
use cpe464_a.Checksum.{IsBytes}
use cpe464_a.Checksum.Internet.{internet_checksum, internet_checksum-IsChecksum}
use cpe464_a.Flag
use cpe464_a.Process.{Action, silent, goes, exits, after, send, sent, written}
use cpe464_a.Pdu.{recv_buf, send_buf, read_u32, create_pdu, is_corrupt}
use mathlib.Core.Option.{none-ne-some}
use cpe464_a.Window.{
  new_window, window_full, window_add, window_cur_update, zero_buffer, slot, put_slot, overwrite,
}
use cpe464_a.Server.Resend.{timeout_on_ack, length_of_sent, refresh, set_flag}
use cpe464_a.Server.Ack.{wait_on_ack, process_select, poll_time, ack_selected}
use cpe464_a.Rcopy.{initial_client, send_seq}
use cpe464_a.Rcopy as Rcopy
use cpe464_a.Rcopy.Run as ClientRun
use cpe464_a.Delivery.{IsGenuine}
use cpe464_a.Server.{State, Server, Result, Answers, initial_server}
use cpe464_a.Server.Setup.{filename}
use cpe464_a.Server.Send.{send_data, send_payload, send_eof, transmit, note_final}
use cpe464_a.Server.Run.{is_done, step, process_client, process_server}
use cpe464_a.Server.Cutting.{cut}
use cpe464_a.Service.{data_packet, Promised}
use cpe464_a.Service.Reading.{Turned, send_data-Turned}
use cpe464_a.Service.Runs.{MeetsRun, process_client-Promised}
use cpe464_a.Service.Request.{Names, Fits, establishment}
use cpe464_a.Service.Opening.{opened, opened-Sends, filename-init_payload, process_server-Promised}
use cpe464_a.Service.Link.{IsSent-IsGenuine, recv_buf-send_seq}
use cpe464_a.Service.Whole.{answered_by, process_file-copies_all}

-- The value of decimal digits.
unfoldable pub decimal_from : ℕ → List ℕ → ℕ
decimal_from acc [] = acc
decimal_from acc (digit ∷ rest) = decimal_from (acc * 10 + (digit - 48)) rest

unfoldable pub decimal : List ℕ → ℕ
unfolding decimal_from
decimal bs = decimal_from 0 bs

abbrev pub five : List ℕ
five = 1 ∷ 2 ∷ 3 ∷ 4 ∷ 5 ∷ []

abbrev pub disk : List ℕ → Option (List ℕ)
disk name = some five

abbrev pub zeroed : ℕ → ℕ → Bool
zeroed count size = true

-- rcopy's arguments, with a name, a window size and a buffer size.
abbrev pub arguments : List ℕ → List ℕ → List ℕ → List (List ℕ)
arguments name window_size buffer_size =
    (b'r' ∷ [])
    ∷ name
    ∷ (b't' ∷ [])
    ∷ window_size
    ∷ buffer_size
    ∷ (b'0' ∷ [])
    ∷ (b'h' ∷ [])
    ∷ (b'1' ∷ [])
    ∷ []

abbrev pub asked : List (List ℕ)
asked = arguments (b'f' ∷ []) (b'4' ∷ []) (b'2' ∷ [])

asked-Names : Names decimal zeroed disk asked five
unfolding decimal
asked-Names = record {
  size_word = omega arith;
  window_word = omega arith;
  name_le = omega arith;
  name_string = (omega arith, tt);
  name_bytes = (omega arith, tt);
  file_there = refl;
  found = refl;
}

pub asked-Fits : Fits decimal asked five 3
unfolding decimal
asked-Fits = record {
  fills = record {
    size_pos = omega arith;
    size_le = omega arith;
    all = omega arith;
    last = λ positive. omega arith;
  };
  window_pos = omega arith;
  in_word = omega arith;
}

abbrev pub quiet : Answers
quiet = record { poll = λ ms. silent; datagram = none; read_fails = false; stack_byte = 9 }

process_file-copies_all_example :
    (request : List ℕ) × (sr : Server) × (acts acts' : List Action) × (process_server
        internet_checksum zeroed disk
        (recv_buf [] request)
        (quiet ∷ quiet ∷ quiet ∷ quiet ∷ quiet ∷ quiet ∷ [])
      ≡ some (goes State.wait_on_ack sr acts))
    × (ClientRun.process_file internet_checksum decimal zeroed asked Rcopy.State.start_state
          initial_client
          (answered_by 3 [] (sent acts))
        ≡ exits 0 (send request ∷ acts'))
    × (written acts' ≡ five)
unfolding decimal
process_file-copies_all_example =
    process_file-copies_all internet_checksum decimal zeroed disk 9 internet_checksum-IsChecksum
      asked-Names asked-Fits
      (omega arith, (omega arith, (omega arith, (omega arith, (omega arith, tt))))) (omega arith)
      (omega arith) quiet quiet (quiet ∷ quiet ∷ quiet ∷ quiet ∷ [])
      (refl, refl, (refl, refl, (refl, refl, (refl, refl, tt)))) refl 3 [] []

send_data-Turned_example : Turned internet_checksum 2 five 3 (opened 2 4 five) quiet
unfolding decimal
send_data-Turned_example =
    send_data-Turned internet_checksum asked-Fits.fills
      (opened-Sends internet_checksum decimal asked-Fits) quiet

-- The file and EOF, then a timeout, and the first packet again.
abbrev unanswered : List Answers
unanswered = quiet ∷ quiet ∷ quiet ∷ quiet ∷ quiet ∷ quiet ∷ []

-- All that such a run computes with.
unfoldable pub server_code : Unit {0}
unfolding decimal recv_buf read_u32 create_pdu is_corrupt internet_checksum ntohl_bytes htonl_bytes
    step is_done send_data send_payload send_eof transmit note_final wait_on_ack process_select
    poll_time ack_selected timeout_on_ack length_of_sent refresh set_flag window_full window_add
    window_cur_update new_window zero_buffer slot put_slot overwrite
server_code = tt

unanswered-MeetsRun :
    MeetsRun internet_checksum zeroed disk
      (establishment internet_checksum decimal asked [])
      2
      five
      3
      State.send_data
      (opened 2 4 five)
      unanswered
unfolding server_code
unanswered-MeetsRun = inr (
  tt,
  inr (
    tt,
    inr (
      tt,
      inr (
        tt,
        inr (
          record {
            answers = λ stack datagram e. absurd (none-ne-some _ e);
            timeouts = λ e. omega arith;
          },
          inr (tt, tt),
        ),
      ),
    ),
  ),
)

process_client-Promised_example : Promised internet_checksum 2 five 3 1 (
    process_client internet_checksum zeroed disk
      (establishment internet_checksum decimal asked [])
      State.send_data
      (opened 2 4 five)
      unanswered)
unfolding decimal
process_client-Promised_example =
    process_client-Promised internet_checksum zeroed disk
      (establishment internet_checksum decimal asked []) 2 five 3 asked-Fits.fills unanswered
      State.send_data (opened 2 4 five) (opened-Sends internet_checksum decimal asked-Fits)
      unanswered-MeetsRun

process_server-Promised_example :
    (o : Result) × (process_server internet_checksum zeroed disk
        (establishment internet_checksum decimal asked [])
        (quiet ∷ quiet ∷ unanswered)
      ≡ some (after (send_buf internet_checksum 0 Flag.fname_ok [] ∷ []) o))
    × Promised internet_checksum 2 five 3 1 o
unfolding decimal
process_server-Promised_example =
    process_server-Promised internet_checksum decimal asked-Fits zeroed disk asked-Names
      internet_checksum-IsChecksum [] quiet quiet unanswered unanswered-MeetsRun

recv_buf-send_seq_example :
    (datagram : List ℕ) × (send_seq internet_checksum initial_client Flag.rr 70000 ≡ send datagram)
    × (is_corrupt internet_checksum (recv_buf [] datagram) ≡ false)
    × ((recv_buf [] datagram).flag ≡ Flag.rr)
    × ((recv_buf [] datagram).seq_num ≡ initial_client.client_seq_num)
    × (read_u32 (recv_buf [] datagram).buf 7 ≡ 70000)
recv_buf-send_seq_example =
    recv_buf-send_seq internet_checksum internet_checksum-IsChecksum initial_client Flag.rr 70000 []
      (omega arith) (omega arith) (omega arith)

filename-init_payload_example :
    filename internet_checksum zeroed disk initial_server
      (establishment internet_checksum decimal asked [])
    ≡ goes State.send_data (opened 2 4 five) (send_buf internet_checksum 0 Flag.fname_ok [] ∷ [])
unfolding decimal
filename-init_payload_example =
    filename-init_payload internet_checksum decimal zeroed disk asked-Names []

-- A packet that is sent again.
abbrev again : List ℕ
again = create_pdu internet_checksum 3 Flag.srej_retran (5 ∷ [])

again-IsBytes : IsBytes again
unfolding create_pdu htonl_bytes internet_checksum
again-IsBytes = (
  omega arith,
  (
    omega arith,
    (omega arith, (omega arith, (omega arith, (omega arith, (omega arith, (omega arith, tt)))))),
  ),
)

again-seq_num : (recv_buf [] again).seq_num < 4
unfolding recv_buf read_u32 create_pdu htonl_bytes ntohl_bytes
again-seq_num = omega arith

IsSent-IsGenuine_example :
    (again ≡ [])
    ⊎ ((is_corrupt internet_checksum (recv_buf [] again) ≡ false)
        × IsGenuine (cut 2 five 3) 3 (recv_buf [] again))
unfolding decimal
IsSent-IsGenuine_example =
    IsSent-IsGenuine internet_checksum internet_checksum-IsChecksum asked-Fits.fills (omega arith)
      again [] 3 again-IsBytes
      (data_packet 3 Flag.srej_retran (omega arith) (omega arith) (inr (inr refl)) refl)
      (inr (inr (omega (arith, again-seq_num))))
