-- ===== src/Rcopy.antt =====
-- rcopy.c, the client: its states, its variables, and what its handlers share.
pub mod Setup
pub mod Receive
pub mod Flush
pub mod Run
pub mod Main
use cpe464_a.Base.{
  ℕ, ◌-◌, List, Option, none, some, take, drop, ltb, ◌||◌, if◌then◌else◌, htonl_bytes, [],
}
use cpe464_a.Checksum.{max_pdu_buf}
use cpe464_a.Process.{Action, Outcome}
use cpe464_a.Pdu.{send_buf}
use cpe464_a.Window.{Window}

-- `enum State`.
pub data State : Type 0 where
  start_state done filename wait_file_ack file_ok recv_data buffer flush : State

-- The local variables of `processFile`, with the static `retryCount` of `filename` and the socket
-- number of `server`.
pub record Client : Type 0 where
  pub sk_num : ℕ
  pub client_seq_num : ℕ
  pub window : Window
  pub expected : ℕ
  pub highest : ℕ
  pub data_packet_len : ℕ
  pub final_packet_len : ℕ
  pub final_packet_seq : ℕ
  pub eof_seq : ℕ
  pub retry_count : ℕ

-- The variables as `processFile` declares them; `calloc` clears the window.
abbrev pub initial_client : Client
initial_client = record {
  sk_num = 0;
  client_seq_num = 0;
  window = record { upper = 0; current = 0; lower = 0; size = 0; window_buffer = [] };
  expected = 1;
  highest = 1;
  data_packet_len = 0;
  final_packet_len = 0;
  final_packet_seq = 0;
  eof_seq = 0;
  retry_count = 0;
}

abbrev pub Result : Type 0
Result = Outcome State Client

-- The bytes of a packet that go to disk, as `writeDisk` takes them: `packet_len - 7` bytes from
-- offset 7. `none` is an array of no bytes or fewer, or a read past the packet array.
unfoldable pub disk_bytes : ℕ → List ℕ → Option (List ℕ)
disk_bytes packet_len packet =
    if ltb packet_len 8 || ltb max_pdu_buf packet_len
    then none
    else some (take (packet_len - 7) (drop 7 packet))

-- `send_buf` of a sequence number in network order: the shape of every RR, SREJ and EOF_ACK.
unfoldable pub send_seq : (List ℕ → ℕ) → Client → ℕ → ℕ → Action
unfolding send_buf
send_seq in_cksum c flag n = send_buf in_cksum c.client_seq_num flag (htonl_bytes n)
