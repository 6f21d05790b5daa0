-- ===== src/Delivery/Runs.antt =====
-- `processFile` as a whole: every run in which only what may arrive arrives.
use cpe464_a.Base.{
  ℕ, ◌≡◌, refl, sym, ◌∙◌, subst, inl, inr, ◌⊎◌, List, [], ◌∷◌, ◌++◌, append-nil, append_assoc, true,
  false, Bool, Bool-cases,
}
use mathlib.Core.Bool.{false≢true}
use cpe464_a.Process.{
  after, and_then, Action, goes, exits, fault, out_of_fuel, written, written-append,
}
use cpe464_a.Rcopy.{State, Client, Result, initial_client}
use cpe464_a.Rcopy.Run.{Answers, step, is_done, process_file}
use cpe464_a.Delivery.{Stream, IsStream, IsPrefix, InState, Promised}
use cpe464_a.Delivery.Opening.{IsConfigured}
use cpe464_a.Delivery.Steps.{Allowed, step-Promised}

pub joined :
    (out : List ℕ) (acts more : List Action)
    → (out ++ written acts) ++ written more ≡ out ++ written (acts ++ more)
joined out acts more =
    rw (written-append acts more) (append_assoc out (written acts) (written more))

-- Effects in front of a result that keeps the promise.
pub Promised-after :
    (s : Stream) (out : List ℕ) (acts : List Action) (o : Result)
    → Promised s (out ++ written acts) o
    → Promised s out (after acts o)
Promised-after s out acts (goes st c more) p = subst (InState s st c) (joined out acts more) p
Promised-after s out acts (exits code more) p =
    (subst (IsPrefix s) (joined out acts more) p.0, λ z. sym (joined out acts more) ∙ p.1 z)
Promised-after s out acts fault p = p
Promised-after s out acts out_of_fuel p = p

-- A condition on the state that a round leaves, if the program goes on.
abbrev pub Then : (State → Client → Type 0) → Result → Type 0
Then P (goes st c acts) = P st c
Then P (exits code acts) = Unit
Then P fault = Unit
Then P out_of_fuel = Unit

Promised-and_then :
    (s : Stream) (out : List ℕ) (P : State → Client → Type 0) (next : State → Client → Result)
    → ((st : State) (c : Client) (out' : List ℕ)
        → InState s st c out'
        → P st c
        → Promised s out' (next st c))
    → (o : Result) → Promised s out o
    → Then P o
    → Promised s out (and_then next o)
Promised-and_then s out P next keep (goes st c acts) p t =
    Promised-after s out acts (next st c) (keep st c (out ++ written acts) p t)
Promised-and_then s out P next keep (exits code acts) p t = p
Promised-and_then s out P next keep fault p t = p
Promised-and_then s out P next keep out_of_fuel p t = p

module _ (in_cksum atoi : List ℕ → ℕ) (calloc : ℕ → ℕ → Bool) (argv : List (List ℕ))
    (s : Stream) where
  -- Each round of the run meets what `Allowed` says of its state.
  abbrev pub AllowedRun : State → Client → List Answers → Type 0
  AllowedRun st c [] = Unit
  AllowedRun st c (a ∷ rest) =
      (is_done st ≡ true)
      ⊎ (Allowed s in_cksum st c a.event
          × Then (λ st' c'. AllowedRun st' c' rest) (step in_cksum atoi calloc argv st c a))

  module _ (ok : IsStream s) (configured : IsConfigured atoi argv s) where
    run-Promised :
        (answers : List Answers) (st : State) (c : Client) (out : List ℕ)
        → InState s st c out
        → AllowedRun st c answers
        → Promised s out (process_file in_cksum atoi calloc argv st c answers)
    unfolding process_file
    run-Promised [] st c out inv may = rw (append-nil out) inv
    run-Promised (a ∷ rest) st c out inv may = elim (Bool-cases (is_done st)) [
      | inl over ↦ rw (over, process_file, append-nil out) inv
      | inr more ↦
          rw (more, process_file)
            (Promised-and_then s out (λ st' c'. AllowedRun st' c' rest) _
              (λ st' c' out' inv' may'. run-Promised rest st' c' out' inv' may')
              (step in_cksum atoi calloc argv st c a)
              (step-Promised in_cksum atoi calloc argv ok configured st c out a inv
                (allowed more).0)
              (allowed more).1)
    ]
      where
        allowed :
            is_done st ≡ false
            → Allowed s in_cksum st c a.event
              × Then (λ st' c'. AllowedRun st' c' rest) (step in_cksum atoi calloc argv st c a)
        allowed more = elim may [
          | inl over ↦ absurd (false≢true (sym more ∙ over))
          | inr here ↦ here
        ]

    -- Let the arguments name the stream's buffer size, at most 1400, and a positive window size.
    -- In a run of processFile from its start in which every datagram that arrives is one whose
    -- damage the checksum shows, or a packet of the stream that the state admits (its number below
    -- the end of the window; in BUFFER, the expected packet or one above all that are stored), no
    -- handler runs out of fuel or has undefined behaviour but stray operations (a stray operation
    -- is one that the source leaves undefined whenever its line runs, marked in the effects, past
    -- which the program is taken to go on: the byte after data[] at rcopy.c:387 and rcopy.c:473);
    -- if the program exits, then the disk has a prefix of the stream's packets in order, and the
    -- whole of it if the code is 0; if it stops in DONE, the disk has such a prefix; and if it is
    -- still running, the invariant of its state holds.
    pub process_file-Promised :
        (answers : List Answers)
        → AllowedRun State.start_state initial_client answers
        → Promised s []
            (process_file in_cksum atoi calloc argv State.start_state initial_client answers)
    process_file-Promised answers may =
        run-Promised answers State.start_state initial_client [] begun may
      where
        begun : InState s State.start_state initial_client []
        begun = record { nothing = refl; first_expected = refl; no_eof = refl; no_final = refl }
