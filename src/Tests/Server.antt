-- ===== src/Tests/Server.antt =====
-- The server on a file of five bytes, sent two at a time through a window of three.
use cpe464_a.Base.{
  ℕ, zero, suc, ◌+◌, ◌≡◌, Bool, Option, none, some, List, [], ◌∷◌, ◌++◌, length, drop, replicate,
  refl, arith, true, false, htonl_bytes, ntohl_bytes,
}
use cpe464_a.Checksum.Internet.{internet_checksum}
use cpe464_a.Flag
use cpe464_a.Process.{Action, silent, goes, exits, send, stray, sent, and_then}
use cpe464_a.Pdu.{Received, create_pdu, recv_buf, read_u32}
use cpe464_a.Window.{
  Buffer, Window, slot, put_slot, new_window, zero_buffer, overwrite, window_full,
  window_get_packet,
}
use cpe464_a.Window.Slots.{IsValid, added, new_window-IsValid, put_slot-IsValid}
use cpe464_a.Server.{State, Server, Answers, initial_server}
use cpe464_a.Server.Send.{send_data}
use cpe464_a.Server.Resend.{length_of_sent, timeout_on_ack, send_srej}
use cpe464_a.Server.Ack.{rr_packet}
use cpe464_a.Server.Run.{process_client}
use cpe464_a.Server.Sending.{Reads, send_data-part}
use cpe464_a.Server.Ending.{send_data-eof}
use cpe464_a.Server.Resending.{timeout_on_ack-packet, send_srej-packet}
use cpe464_a.Server.Waiting.{Silent, wait_on_eof_ack-ends, rr_packet-early}
use cpe464_a.Server.Timeouts.{wait_on_ack-ends}

abbrev file : List ℕ
file = 1 ∷ 2 ∷ 3 ∷ 4 ∷ 5 ∷ []

abbrev opened_server : Server
opened_server = record initial_server {
  data_file = file;
  buf_size = 2;
  data_packet_len = 9;
  window_size = 3;
  window = new_window 3;
}

abbrev quiet : Answers
quiet = record { poll = λ ms. silent; datagram = none; read_fails = false; stack_byte = 0 }

opened_server-Reads : Reads file opened_server
unfolding new_window
opened_server-Reads = record {
  size_pos = omega arith;
  size_le = omega arith;
  from_one = omega arith;
  rest = refl;
  window_valid = new_window-IsValid 3 (omega arith);
  window_bounded = record {
    upper_is = refl;
    in_word = omega arith;
    above = omega arith;
    below = omega arith;
  };
  current_is = refl;
}

send_data-part_example :
    (sr' : Server) × (send_data internet_checksum opened_server quiet
      ≡ goes State.send_data sr'
          (send (create_pdu internet_checksum 1 Flag.data_flag (1 ∷ 2 ∷ [])) ∷ []))
    × Reads file sr'
    × (sr'.seq_num ≡ 1 + 1)
    × (rest : List ℕ) × (window_get_packet sr'.window 1
        ≡ some (create_pdu internet_checksum 1 Flag.data_flag (1 ∷ 2 ∷ []) ++ rest))
unfolding new_window window_full
send_data-part_example =
    send_data-part internet_checksum opened_server-Reads quiet refl refl (omega arith) (omega arith)

-- All three packets are sent, and two of them acknowledged.
abbrev drained_server : Server
drained_server = record opened_server {
  data_file = [];
  seq_num = 4;
  window = record (new_window 3) { lower = 3; current = 4; upper = 6 };
}

drained_server-Reads : Reads file drained_server
unfolding new_window
drained_server-Reads = record {
  size_pos = omega arith;
  size_le = omega arith;
  from_one = omega arith;
  rest = refl;
  window_valid =
      let v = new_window-IsValid 3 (omega arith) in
      record { sized = v.sized; positive = v.positive };
  window_bounded = record {
    upper_is = refl;
    in_word = omega arith;
    above = omega arith;
    below = omega arith;
  };
  current_is = refl;
}

send_data-eof_example :
    let packet = create_pdu internet_checksum 4 Flag.end_of_file (0 ∷ []) in
    (sr' : Server) × (send_data internet_checksum drained_server quiet
      ≡ goes State.wait_on_ack sr' (send packet ∷ []))
    × (sr'.finished ≡ 1)
    × (sr'.last_seq_num ≡ 4)
    × (sr'.eof_len ≡ length packet)
    × (rest : List ℕ) × (window_get_packet sr'.window sr'.last_seq_num ≡ some (packet ++ rest))
unfolding new_window window_full
send_data-eof_example =
    send_data-eof internet_checksum drained_server-Reads quiet refl refl (omega arith) refl

-- Packet 1 is in the window.
abbrev first_entry : Buffer
first_entry = added 1 (create_pdu internet_checksum 1 Flag.data_flag (1 ∷ 2 ∷ [])) zero_buffer

abbrev waiting_server : Server
waiting_server = record opened_server {
  window = put_slot (new_window 3) 1 first_entry;
  seq_num = 2;
}

waiting_server-IsValid : IsValid waiting_server.window
waiting_server-IsValid = put_slot-IsValid (new_window-IsValid 3 (omega arith)) 1 first_entry

timeout_on_ack-packet_example :
    (w : Window) × (timeout_on_ack internet_checksum waiting_server
      ≡ goes State.wait_on_ack
          (record waiting_server { window = w })
          (send (create_pdu internet_checksum 1 Flag.data_timeout (1 ∷ 2 ∷ [])) ∷ []))
    × (window_get_packet w 1
        ≡ some (
            create_pdu internet_checksum 1 Flag.data_timeout (1 ∷ 2 ∷ [])
            ++ drop 9 zero_buffer.packet))
unfolding new_window put_slot slot overwrite create_pdu htonl_bytes length_of_sent
timeout_on_ack-packet_example =
    timeout_on_ack-packet internet_checksum waiting_server-IsValid 1 Flag.data_flag (1 ∷ 2 ∷ [])
      (drop 9 zero_buffer.packet) first_entry refl refl (omega arith) (omega arith) refl

abbrev srej_received : Received
srej_received = recv_buf [] (create_pdu internet_checksum 0 Flag.srej (0 ∷ 0 ∷ 0 ∷ 1 ∷ []))

send_srej-packet_example :
    (w : Window) × (send_srej internet_checksum waiting_server srej_received
      ≡ some (
        record waiting_server { window = w },
        stray ∷ send (create_pdu internet_checksum 1 Flag.srej_retran (1 ∷ 2 ∷ [])) ∷ [],
      ))
    × (window_get_packet w 1
        ≡ some (
            create_pdu internet_checksum 1 Flag.srej_retran (1 ∷ 2 ∷ [])
            ++ drop 9 zero_buffer.packet))
unfolding new_window put_slot slot overwrite create_pdu htonl_bytes length_of_sent recv_buf read_u32
    ntohl_bytes
send_srej-packet_example =
    send_srej-packet internet_checksum waiting_server-IsValid srej_received 1 Flag.data_flag
      (1 ∷ 2 ∷ []) (drop 9 zero_buffer.packet) first_entry refl refl refl (omega arith)
      (omega arith) refl

replicate-Silent : (n : ℕ) → Silent (replicate n quiet)
replicate-Silent zero = tt
replicate-Silent (suc n) = (λ ms. refl, replicate-Silent n)

abbrev memory : ℕ → ℕ → Bool
memory count size = true

abbrev no_files : List ℕ → Option (List ℕ)
no_files name = none

-- EOF is packet 4.
abbrev eof_entry : Buffer
eof_entry = added 4 (create_pdu internet_checksum 4 Flag.end_of_file (0 ∷ [])) zero_buffer

abbrev finished_server : Server
finished_server = record opened_server {
  window = put_slot (new_window 3) 4 eof_entry;
  last_seq_num = 4;
  eof_len = 8;
  finished = 1;
}

wait_on_eof_ack-ends_example :
    process_client internet_checksum memory no_files srej_received State.wait_on_eof_ack
      finished_server
      (replicate 11 quiet)
    ≡ exits 0 (replicate 10 (send (create_pdu internet_checksum 4 Flag.end_of_file (0 ∷ []))))
unfolding new_window put_slot slot overwrite create_pdu htonl_bytes window_get_packet
wait_on_eof_ack-ends_example =
    wait_on_eof_ack-ends internet_checksum memory no_files srej_received (replicate 11 quiet)
      finished_server eof_entry.packet (omega arith) (replicate-Silent 11) refl (omega arith)

-- Packet 3 is the last, and the window has no room for EOF before it is acknowledged.
abbrev hurried_server : Server
hurried_server = record opened_server { seq_num = 4; final_packet_seq = 3; final_packet_len = 8 }

abbrev rr_received : Received
rr_received = recv_buf [] (create_pdu internet_checksum 2 Flag.rr (0 ∷ 0 ∷ 0 ∷ 4 ∷ []))

rr_packet-early_example :
    and_then
      (λ st' sr'.
        process_client internet_checksum memory no_files srej_received st' sr' (replicate 11 quiet))
      (rr_packet hurried_server rr_received)
    ≡ exits 0 (replicate 10 (send []))
unfolding new_window slot window_get_packet recv_buf read_u32 ntohl_bytes create_pdu htonl_bytes
rr_packet-early_example =
    rr_packet-early internet_checksum memory no_files srej_received (replicate 11 quiet)
      hurried_server rr_received zero_buffer.packet refl refl (omega arith) (replicate-Silent 11)
      refl (omega arith)

wait_on_ack-ends_example :
    (sr' : Server) × (acts : List Action) × (process_client internet_checksum memory no_files
        srej_received State.wait_on_ack waiting_server
        (replicate 22 quiet)
      ≡ goes State.done sr' acts)
    × (length (sent acts) ≡ 10)
unfolding new_window put_slot
wait_on_ack-ends_example =
    wait_on_ack-ends internet_checksum memory no_files srej_received (replicate 22 quiet)
      waiting_server 10
      (record {
        window_valid = waiting_server-IsValid;
        data_len_le = omega arith;
        final_len_le = omega arith;
      })
      refl (replicate-Silent 22) (omega arith)
