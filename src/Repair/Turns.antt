-- ===== src/Repair/Turns.antt =====
-- Rounds of `processFile` one after the other.
use cpe464_a.Base.{ℕ, ◌≡◌, Bool, List, ◌∷◌, ◌++◌, ap, refl, sym, append_assoc}
use cpe464_a.Process.{Action, goes, exits, fault, out_of_fuel, after, and_then, arrived, timed_out}
use cpe464_a.Pdu.{recv_buf}
use cpe464_a.Rcopy.{State, Client, Result}
use cpe464_a.Rcopy.Receive.{recv_data, recv_data_packet, buffer, buffer_packet}
use cpe464_a.Rcopy.Flush.{flush}
use cpe464_a.Rcopy.Run.{Answers, is_done, step, process_file}
use cpe464_a.Delivery.Transfer.{answer}

pub after-after : (xs ys : List Action) (o : Result) → after xs (after ys o) ≡ after (xs ++ ys) o
after-after xs ys (goes st c acts) = ap (goes st c) (sym (append_assoc xs ys acts))
after-after xs ys (exits code acts) = ap (exits code) (sym (append_assoc xs ys acts))
after-after xs ys fault = refl
after-after xs ys out_of_fuel = refl

module _ (in_cksum atoi : List ℕ → ℕ) (calloc : ℕ → ℕ → Bool) (argv : List (List ℕ)) where
  abbrev pub client_runs : State → Client → List Answers → Result
  client_runs = process_file in_cksum atoi calloc argv

  -- A round of the loop that goes on.
  pub buffer_round :
      (c c' : Client) (acts : List Action) (st : State) (stack datagram : List ℕ)
      (rest : List Answers)
      → buffer_packet in_cksum c (recv_buf stack datagram) ≡ goes st c' acts
      → client_runs State.buffer c (answer (arrived stack datagram) ∷ rest)
        ≡ after acts (client_runs st c' rest)
  unfolding process_file is_done step buffer
  buffer_round c c' acts st stack datagram rest runs =
      ap (and_then (λ st' c''. client_runs st' c'' rest)) runs

  pub recv_round :
      (c c' : Client) (acts : List Action) (st : State) (stack datagram : List ℕ)
      (rest : List Answers)
      → recv_data_packet in_cksum c (recv_buf stack datagram) ≡ goes st c' acts
      → client_runs State.recv_data c (answer (arrived stack datagram) ∷ rest)
        ≡ after acts (client_runs st c' rest)
  unfolding process_file is_done step recv_data
  recv_round c c' acts st stack datagram rest runs =
      ap (and_then (λ st' c''. client_runs st' c'' rest)) runs

  pub flush_turn :
      (c c' : Client) (acts : List Action) (st : State) (rest : List Answers)
      → flush in_cksum c ≡ goes st c' acts
      → client_runs State.flush c (answer timed_out ∷ rest) ≡ after acts (client_runs st c' rest)
  unfolding process_file is_done step
  flush_turn c c' acts st rest runs = ap (and_then (λ st' c''. client_runs st' c'' rest)) runs
