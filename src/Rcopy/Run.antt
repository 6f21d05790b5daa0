-- ===== src/Rcopy/Run.antt =====
-- `processFile` of rcopy.c: the loop over the states.
use cpe464_a.Base.{ℕ, Bool, true, false, List, [], ◌∷◌}
use cpe464_a.Process.{and_then, Poll, Event, goes, exits}
use cpe464_a.Rcopy.{State, Client, Result}
use cpe464_a.Rcopy.Setup.{Socket, start_state, filename, file_ok, arg}
use cpe464_a.Rcopy.Receive
use cpe464_a.Rcopy.Flush

-- What the surroundings answer in one round of the loop; the handler of the state looks at what it
-- asks for.
pub record Answers : Type 0 where
  pub socket : Socket
  pub select : Poll
  pub event : Event
  pub file_opened : Bool

-- The loop's test, `state != DONE`, turned round.
unfoldable pub is_done : State → Bool
is_done State.done = true
is_done st = false

module _ (in_cksum atoi : List ℕ → ℕ) (calloc : ℕ → ℕ → Bool) (argv : List (List ℕ)) where
  -- One round of the `while`: the `switch`.
  unfoldable pub step : State → Client → Answers → Result
  step State.start_state c a = start_state in_cksum atoi argv c a.socket
  step State.filename c a = filename in_cksum c a.select a.event
  step State.file_ok c a = file_ok calloc (atoi (arg argv 3)) c a.file_opened
  step State.recv_data c a = Receive.recv_data in_cksum c a.event
  step State.buffer c a = Receive.buffer in_cksum c a.event
  step State.flush c a = Flush.flush in_cksum c
  step State.wait_file_ack c a = goes State.wait_file_ack c []
  step State.done c a = exits 0 []

  -- The `while`, a round for each record of answers; at DONE it makes no more.
  unfoldable pub process_file : State → Client → List Answers → Result
  process_file st c [] = goes st c []
  process_file st c (a ∷ rest) = elim (is_done st) [
    | true ↦ goes st c []
    | false ↦ and_then (λ st' c'. process_file st' c' rest) (step st c a)
  ]
