-- ===== src/Server.antt =====
-- server.c, the process of one client: its states, its variables, and what its handlers share.
pub mod Setup
pub mod Send
pub mod Resend
pub mod Ack
pub mod Run
pub mod Main
pub mod Children
pub mod Sending
pub mod Cutting
pub mod Ending
pub mod Waiting
pub mod Timeouts
pub mod Resending
use cpe464_a.Base.{ℕ, List, [], Bool, Option}
use cpe464_a.Process.{Poll, Outcome}
use cpe464_a.Window.{Window}

-- `enum State`.
pub data State : Type 0 where
  start done filename send_data wait_on_eof_ack wait_on_ack timeout_on_ack timeout_on_eof_ack :
      State

-- The local variables of `process_client`, with the static `retryCount` of `wait_on_ack` and that of
-- `wait_on_eof_ack`. `data_file` is what `read` has not returned yet of the open file, and `packet`
-- the part of the array that `send_buf` last filled.
pub record Server : Type 0 where
  pub data_file : List ℕ
  pub packet_len : ℕ
  pub eof_len : ℕ
  pub packet : List ℕ
  pub buf_size : ℕ
  pub window_size : ℕ
  pub seq_num : ℕ
  pub last_seq_num : ℕ
  pub window : Window
  pub finished : ℕ
  pub data_packet_len : ℕ
  pub final_packet_len : ℕ
  pub final_packet_seq : ℕ
  pub retry_count : ℕ
  pub eof_retry_count : ℕ

-- The variables as `process_client` declares them; `calloc` clears the window.
abbrev pub initial_server : Server
initial_server = record {
  data_file = [];
  packet_len = 0;
  eof_len = 0;
  packet = [];
  buf_size = 0;
  window_size = 0;
  seq_num = 1;
  last_seq_num = 0;
  window = record { upper = 0; current = 0; lower = 0; size = 0; window_buffer = [] };
  finished = 0;
  data_packet_len = 0;
  final_packet_len = 0;
  final_packet_seq = 0;
  retry_count = 0;
  eof_retry_count = 0;
}

abbrev pub Result : Type 0
Result = Outcome State Server

-- What the surroundings answer in one round: a `pollCall` of so many milliseconds, the datagram that
-- `recv_buf` gets with what the buffer held before (none if it fails), whether `read` fails, and the
-- first byte of the uninitialized `buf` of `send_data`.
pub record Answers : Type 0 where
  pub poll : ℕ → Poll
  pub datagram : Option (List ℕ × List ℕ)
  pub read_fails : Bool
  pub stack_byte : ℕ

abbrev pub max_retrans : ℕ
max_retrans = 10
