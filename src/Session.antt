-- ===== src/Session.antt =====
-- rcopy.c and server.c side by side, with a queue of datagrams in each direction between them that
-- loses nothing and keeps the order, and nobody waiting too long.
pub mod Packets
pub mod Serving
pub mod Hearing
pub mod Receiving
pub mod Joined
pub mod Rounds
pub mod Turns
pub mod Keeping
pub mod Answering
pub mod Waiting
pub mod Whole
pub mod Bytes
use cpe464_a.Base.{
  ℕ, zero, suc, ◌+◌, ◌-◌, ◌*◌, ◌≡◌, Bool, true, false, Option, none, some, List, ◌∷◌, ◌++◌, length,
}
use cpe464_a.Process.{
  Action, ready, silent, timed_out, arrived, sent, written, goes, exits, fault, out_of_fuel,
}
use cpe464_a.Pdu.{Received}
use cpe464_a.Rcopy.{Client}
use cpe464_a.Rcopy as Rcopy
use cpe464_a.Rcopy.Run as ClientRun
use cpe464_a.Delivery.Transfer.{answer}
use cpe464_a.Server.{State, Server, Result, Answers}
use cpe464_a.Server.Run.{is_done, step}

-- The client: in a state, or gone with an exit code.
pub data Receiver : Type 0 where
  running : Rcopy.State → Client → Receiver
  ended : ℕ → Receiver

pub record Session : Type 0 where
  pub server_state : State
  pub server : Server
  pub receiver : Receiver
  pub disk : List ℕ
  pub to_client : List (List ℕ)
  pub to_server : List (List ℕ)

-- A program that ends in any other way than it should ends the model.
pub data System : Type 0 where
  live : Session → System
  failed : System

-- The states in which a program waits for a datagram.
unfoldable pub server_polls : State → Bool
server_polls State.wait_on_ack = true
server_polls State.wait_on_eof_ack = true
server_polls st = false

unfoldable pub client_polls : Rcopy.State → Bool
client_polls Rcopy.State.recv_data = true
client_polls Rcopy.State.buffer = true
client_polls st = false

-- The surroundings of a round without a datagram, and with one.
abbrev pub reads : ℕ → Answers
reads byte = record { poll = λ ms. silent; datagram = none; read_fails = false; stack_byte = byte }

abbrev pub hears : ℕ → List ℕ → List ℕ → Answers
hears byte stack datagram = record {
  poll = λ ms. ready;
  datagram = some (stack, datagram);
  read_fails = false;
  stack_byte = byte;
}

-- The session after a round of the server, or of the client, that leaves `rest` of its queue.
abbrev pub with_server : Session → List (List ℕ) → State → Server → List Action → Session
with_server s rest st sr acts = record s {
  server_state = st;
  server = sr;
  to_client = s.to_client ++ sent acts;
  to_server = rest;
}

abbrev pub with_receiver : Session → List (List ℕ) → Receiver → List Action → Session
with_receiver s rest receiver acts = record s {
  receiver = receiver;
  disk = s.disk ++ written acts;
  to_client = rest;
  to_server = s.to_server ++ sent acts;
}

abbrev pub after_server : Session → List (List ℕ) → Result → System
after_server s rest (goes st sr acts) = live (with_server s rest st sr acts)
after_server s rest (exits code acts) = failed
after_server s rest fault = failed
after_server s rest out_of_fuel = failed

abbrev pub after_client : Session → List (List ℕ) → Rcopy.Result → System
after_client s rest (goes st c acts) = live (with_receiver s rest (running st c) acts)
after_client s rest (exits code acts) = live (with_receiver s rest (ended code) acts)
after_client s rest fault = failed
after_client s rest out_of_fuel = failed

module _ (in_cksum atoi : List ℕ → ℕ) (calloc : ℕ → ℕ → Bool) (argv : List (List ℕ))
    (open_file : List ℕ → Option (List ℕ)) (establishment : Received) (byte : ℕ) where
  -- One round of one of the programs. One that waits for a datagram takes the first of its queue.
  pub data Step (s : Session) : System → Type 0 where
    server_moves :
        server_polls s.server_state ≡ false
        → is_done s.server_state ≡ false
        → Step s (
            after_server s s.to_server
              (step in_cksum calloc open_file establishment s.server_state s.server (reads byte)))
    server_hears :
        (stack datagram : List ℕ) (rest : List (List ℕ))
        → server_polls s.server_state ≡ true
        → s.to_server ≡ datagram ∷ rest
        → Step s (
            after_server s rest (
              step in_cksum calloc open_file establishment s.server_state s.server
                (hears byte stack datagram)))
    client_hears :
        (st : Rcopy.State) (c : Client) (stack datagram : List ℕ) (rest : List (List ℕ))
        → s.receiver ≡ running st c
        → client_polls st ≡ true
        → s.to_client ≡ datagram ∷ rest
        → Step s (
            after_client s rest
              (ClientRun.step in_cksum atoi calloc argv st c (answer (arrived stack datagram))))
    client_flushes :
        (c : Client)
        → s.receiver ≡ running Rcopy.State.flush c
        → Step s (
            after_client s s.to_client
              (ClientRun.step in_cksum atoi calloc argv Rcopy.State.flush c (answer timed_out)))

  -- So many rounds, in any order.
  pub data Run (start : System) : ℕ → System → Type 0 where
    here : Run start 0 start
    there :
        {k : ℕ} {s : Session} {t : System} → Run start k (live s) → Step s t → Run start (suc k) t

-- What is left to do, in a measure that each round lowers.
unfoldable pub weight : State → ℕ
weight State.send_data = 2
weight State.wait_on_ack = 1
weight State.wait_on_eof_ack = 10
weight st = 0

abbrev pub work : (count : ℕ) → Session → ℕ
work count s =
    14 * (count + 2 - s.server.window.current)
    + 13 * length s.to_client
    + 12 * length s.to_server
    + weight s.server_state
