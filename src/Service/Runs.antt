-- ===== src/Service/Runs.antt =====
-- `process_client` as a whole, from SEND_DATA on.
use cpe464_a.Base.{
  ℕ, ◌≡◌, ◌⊎◌, inl, inr, Bool, Bool-cases, true, false, Option, List, [], ◌∷◌, sym, ◌∙◌, refl,
}
use mathlib.Core.Bool.{false≢true}
use cpe464_a.Process.{and_then, goes, exits, fault, out_of_fuel}
use cpe464_a.Pdu.{Received}
use cpe464_a.Server.{State, Server, Result, Answers}
use cpe464_a.Server.Run.{is_done, step, process_client}
use cpe464_a.Service.{Fills, InState, Promised, MayMeet}
use cpe464_a.Service.Reading.{send_data-Promised}
use cpe464_a.Service.Resending.{timeout_on_ack-Promised}
use cpe464_a.Service.Acking.{wait_on_ack-Promised}
use cpe464_a.Service.Finishing.{Promised-after, wait_on_eof_ack-Promised}

module _ (in_cksum : List ℕ → ℕ) (calloc : ℕ → ℕ → Bool) (open_file : List ℕ → Option (List ℕ))
    (establishment : Received) (n : ℕ) (file : List ℕ) (count : ℕ) where
  -- What a round may meet: in WAIT_ON_ACK as `MayMeet` says, elsewhere anything.
  abbrev pub Meets : State → Server → Answers → Type 0
  Meets State.wait_on_ack sr a = MayMeet in_cksum n file count sr a
  Meets State.start sr a = Unit
  Meets State.done sr a = Unit
  Meets State.filename sr a = Unit
  Meets State.send_data sr a = Unit
  Meets State.wait_on_eof_ack sr a = Unit
  Meets State.timeout_on_ack sr a = Unit
  Meets State.timeout_on_eof_ack sr a = Unit

  -- A condition on the state that a round leaves, if the program goes on.
  abbrev pub Then : (State → Server → Type 0) → Result → Type 0
  Then P (goes st sr acts) = P st sr
  Then P (exits code acts) = Unit
  Then P fault = Unit
  Then P out_of_fuel = Unit

  -- Each round of a run meets what its state may meet.
  abbrev pub MeetsRun : State → Server → List Answers → Type 0
  MeetsRun st sr [] = Unit
  MeetsRun st sr (a ∷ rest) =
      (is_done st ≡ true)
      ⊎ (Meets st sr a
          × Then (λ st' sr'. MeetsRun st' sr' rest)
              (step in_cksum calloc open_file establishment st sr a))

  module _ (fl : Fills n file count) where
    step-Promised :
        (st : State) (sr : Server) (a : Answers)
        → InState in_cksum n file count st sr
        → Meets st sr a
        → Promised in_cksum n file count sr.seq_num
            (step in_cksum calloc open_file establishment st sr a)
    unfolding step
    step-Promised State.send_data sr a inv may = send_data-Promised in_cksum fl inv a
    step-Promised State.wait_on_ack sr a inv may = wait_on_ack-Promised in_cksum fl sr a inv may
    step-Promised State.timeout_on_ack sr a inv may = timeout_on_ack-Promised in_cksum fl sr inv
    step-Promised State.wait_on_eof_ack sr a inv may = wait_on_eof_ack-Promised in_cksum fl sr a inv
    step-Promised State.done sr a inv may = (tt, refl)
    step-Promised State.start sr a inv may = absurd inv
    step-Promised State.filename sr a inv may = absurd inv
    step-Promised State.timeout_on_eof_ack sr a inv may = absurd inv

    Promised-and_then :
        (P : State → Server → Type 0) (next : State → Server → Result)
        → ((st : State) (sr : Server)
            → InState in_cksum n file count st sr
            → P st sr
            → Promised in_cksum n file count sr.seq_num (next st sr))
        → (from : ℕ) (o : Result) → Promised in_cksum n file count from o
        → Then P o
        → Promised in_cksum n file count from (and_then next o)
    Promised-and_then P next keep from (goes st sr acts) p t =
        Promised-after in_cksum fl from sr.seq_num acts (next st sr) p.1 (keep st sr p.0 t)
    Promised-and_then P next keep from (exits code acts) p t = p
    Promised-and_then P next keep from fault p t = p
    Promised-and_then P next keep from out_of_fuel p t = p

    -- From any state from SEND_DATA on with its invariant for a file that a number of buffers of 1
    -- to 1400 bytes hold, each round meeting only what its state may meet (as in
    -- Service.Opening.process_server-Promised), process_client has no undefined behaviour but the
    -- stray operation that server.c:415 is whenever an SREJ is answered, past which it is taken to
    -- go on, keeps the invariant of the state that it is in, and sends only data packets of the
    -- file for the first time, in the order of their numbers from seq_num on, packets from before
    -- the next one again, EOF after the last one, and empty datagrams.
    pub process_client-Promised :
        (answers : List Answers) (st : State) (sr : Server)
        → InState in_cksum n file count st sr
        → MeetsRun st sr answers
        → Promised in_cksum n file count sr.seq_num
            (process_client in_cksum calloc open_file establishment st sr answers)
    unfolding process_client
    process_client-Promised [] st sr inv may = (inv, refl)
    process_client-Promised (a ∷ rest) st sr inv may = elim (Bool-cases (is_done st)) [
      | inl over ↦ rw (over, process_client) (inv, refl)
      | inr more ↦
          rw (more, process_client)
            (Promised-and_then (λ st' sr'. MeetsRun st' sr' rest) _
              (λ st' sr' inv' may'. process_client-Promised rest st' sr' inv' may') sr.seq_num
              (step in_cksum calloc open_file establishment st sr a)
              (step-Promised st sr a inv (met more).0) (met more).1)
    ]
      where
        met :
            is_done st ≡ false
            → Meets st sr a
              × Then
                  (λ st' sr'. MeetsRun st' sr' rest)
                  (step in_cksum calloc open_file establishment st sr a)
        met more = elim may [ inl over ↦ absurd (false≢true (sym more ∙ over)) | inr here ↦ here ]
