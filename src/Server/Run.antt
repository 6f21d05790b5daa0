-- ===== src/Server/Run.antt =====
-- `process_client` of server.c, the loop over the states, and what `process_server` does with the
-- packet that starts a client.
use cpe464_a.Base.{ℕ, Bool, true, false, Option, none, some, List, [], ◌∷◌, if◌then◌else◌}
use cpe464_a.Process.{goes, and_then}
use cpe464_a.Pdu.{Received, is_corrupt}
use cpe464_a.Server.{State, Server, Result, Answers, initial_server}
use cpe464_a.Server.Setup
use cpe464_a.Server.Send
use cpe464_a.Server.Resend
use cpe464_a.Server.Ack

unfoldable pub is_done : State → Bool
is_done State.done = true
is_done st = false

module _ (in_cksum : List ℕ → ℕ) (calloc : ℕ → ℕ → Bool) (open_file : List ℕ → Option (List ℕ))
    (establishment : Received) where
  -- One round of the `while`: the `switch`.
  unfoldable pub step : State → Server → Answers → Result
  step State.start sr a = goes State.filename sr []
  step State.filename sr a = Setup.filename in_cksum calloc open_file sr establishment
  step State.send_data sr a = Send.send_data in_cksum sr a
  step State.wait_on_ack sr a = Ack.wait_on_ack in_cksum sr a
  step State.wait_on_eof_ack sr a = Ack.wait_on_eof_ack in_cksum sr a
  step State.timeout_on_ack sr a = Resend.timeout_on_ack in_cksum sr
  step State.timeout_on_eof_ack sr a = Resend.timeout_on_eof_ack sr
  step State.done sr a = goes State.done sr []

  -- The `while`, a round for each record of answers.
  unfoldable pub process_client : State → Server → List Answers → Result
  process_client st sr [] = goes st sr []
  process_client st sr (a ∷ rest) = elim (is_done st) [
    | true ↦ goes st sr []
    | false ↦ and_then (λ st' sr'. process_client st' sr' rest) (step st sr a)
  ]

-- `process_server`, one datagram: nothing if it is damaged, else a child that runs `process_client`
-- on it, whatever its flag.
unfoldable pub process_server :
    (List ℕ → ℕ)
    → (ℕ → ℕ → Bool)
    → (List ℕ → Option (List ℕ))
    → Received
    → List Answers
    → Option Result
process_server in_cksum calloc open_file r answers =
    if is_corrupt in_cksum r
    then none
    else some (process_client in_cksum calloc open_file r State.start initial_server answers)
