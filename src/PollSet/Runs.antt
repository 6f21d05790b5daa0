-- ===== src/PollSet/Runs.antt =====
-- Any sequence of calls of pollLib.c, from `setupPollSet` to a `pollCall`, against the set of sockets.
use cpe464_a.Base.{
  ℕ, ◌+◌, ◌^◌, ◌<◌, ◌≡◌, refl, Bool, true, false, Option, some, List, [], ◌∷◌, arith,
}
use cpe464_a.SafeUtil.{Checked, returns, stops, crashes}
use cpe464_a.PollSet.{
  PollFd, PollSet, initial_poll_set, poll_set_size, setup_poll_set, add_to_poll_set,
  remove_from_poll_set, poll_call,
}
use cpe464_a.PollSet.Watched.{
  Sockets, no_sockets, insert, delete, Represents, setup_poll_set-Represents,
  add_to_poll_set-Represents, remove_from_poll_set-Represents,
}
use cpe464_a.PollSet.Ready.{Lowest, poll_call-Lowest, poll_call-stray}

-- A call of `addToPollSet`, with what realloc leaves in new entries, or of `removeFromPollSet`.
pub data Op : Type 0 where
  add : (garbage : ℕ → PollFd) → ℕ → Op
  remove : ℕ → Op

module _ (realloc : ℕ → Bool) where
  unfoldable pub run_op : Op → PollSet → Checked PollSet
  run_op (add garbage s) p = add_to_poll_set realloc garbage s p
  run_op (remove s) p = remove_from_poll_set s p

  -- One call after the other, while they return.
  unfoldable pub run_ops : List Op → PollSet → Checked PollSet
  run_ops [] p = returns p
  run_ops (op ∷ ops) p = elim (run_op op p) [
    | returns p' ↦ run_ops ops p'
    | stops code ↦ stops code
    | crashes ↦ crashes
  ]

-- The same calls on the set.
abbrev pub watch_op : Op → Sockets → Sockets
watch_op (add garbage s) w = insert s w
watch_op (remove s) w = delete s w

abbrev pub watch_ops : List Op → Sockets → Sockets
watch_ops [] w = w
watch_ops (op ∷ ops) w = watch_ops ops (watch_op op w)

-- A socket that is added is no huge number, and one that is removed is watched.
abbrev pub IsLegalOp : Op → Sockets → Type 0
IsLegalOp (add garbage s) w = s + poll_set_size < 2 ^ 31
IsLegalOp (remove s) w = w s ≡ true

abbrev pub IsLegal : List Op → Sockets → Type 0
IsLegal [] w = Unit
IsLegal (op ∷ ops) w = IsLegalOp op w × IsLegal ops (watch_op op w)

module _ (realloc : ℕ → Bool) (memory : (size : ℕ) → realloc size ≡ true) where
  run_op-Represents :
      (op : Op) (w : Sockets) (p : PollSet)
      → Represents w p
      → IsLegalOp op w
      → (p' : PollSet) × (run_op realloc op p ≡ returns p') × Represents (watch_op op w) p'
  unfolding run_op
  run_op-Represents (add garbage s) w p rep small =
      add_to_poll_set-Represents rep realloc garbage s small (memory _)
  run_op-Represents (remove s) w p rep watched =
      remove_from_poll_set-Represents rep s (omega (arith, rep.inside s watched, rep.covered))

  run_ops-Represents :
      (ops : List Op) (w : Sockets) (p : PollSet)
      → Represents w p
      → IsLegal ops w
      → (p' : PollSet) × (run_ops realloc ops p ≡ returns p') × Represents (watch_ops ops w) p'
  unfolding run_ops
  run_ops-Represents [] w p rep legal = (p, refl, rep)
  run_ops-Represents (op ∷ ops) w p rep legal =
      let (p₁, runs, rep₁) = run_op-Represents op w p rep legal.0 in
      let (p', runs', rep') = run_ops-Represents ops (watch_op op w) p₁ rep₁ legal.1 in
      (p', rw (runs, run_ops) runs', rep')

  -- If calloc and realloc find memory, then after setupPollSet any sequence of addToPollSet of
  -- numbers below 2^31 - 10 and of removeFromPollSet of watched sockets returns, whatever realloc
  -- leaves in new entries, and a pollCall then returns the lowest socket of the set that these
  -- calls made which poll reports, and -1 exactly if it reports none, provided that poll reports
  -- nothing for descriptor 0 with no events asked for.
  pub run_ops_refines :
      (calloc : ℕ → ℕ → Bool) (ops : List Op) (kernel : ℕ → ℕ → ℕ)
      → calloc poll_set_size 8 ≡ true
      → IsLegal ops no_sockets
      → kernel 0 0 ≡ 0
      → (p₀ p₁ p₂ : PollSet) × (o : Option ℕ) × (setup_poll_set calloc initial_poll_set
          ≡ returns p₀)
        × (run_ops realloc ops p₀ ≡ returns p₁)
        × (poll_call (some kernel) p₁ ≡ returns (p₂, o))
        × Lowest (watch_ops ops no_sockets) kernel o
  run_ops_refines calloc ops kernel found legal nothing =
      let (p₀, starts, rep₀) = setup_poll_set-Represents calloc found in
      let (p₁, runs, rep₁) = run_ops-Represents ops no_sockets p₀ rep₀ legal in
      let (p₂, o, polls, rep₂, lowest) = poll_call-Lowest rep₁ kernel nothing in
      (p₀, p₁, p₂, o, starts, runs, polls, lowest)

  -- In the same setting, with a socket that is watched and 0 not watched, if poll reports
  -- something for descriptor 0 with no events asked for, as POLLHUP of a closed standard input,
  -- then pollCall returns 0, a socket that is not in the set.
  pub run_ops-stray :
      (calloc : ℕ → ℕ → Bool) (ops : List Op) (kernel : ℕ → ℕ → ℕ) (s : ℕ)
      → calloc poll_set_size 8 ≡ true
      → IsLegal ops no_sockets
      → watch_ops ops no_sockets s ≡ true
      → watch_ops ops no_sockets 0 ≡ false
      → 0 < kernel 0 0
      → (p₀ p₁ p₂ : PollSet) × (setup_poll_set calloc initial_poll_set ≡ returns p₀)
        × (run_ops realloc ops p₀ ≡ returns p₁)
        × (poll_call (some kernel) p₁ ≡ returns (p₂, some 0))
  run_ops-stray calloc ops kernel s found legal watched out hung =
      let (p₀, starts, rep₀) = setup_poll_set-Represents calloc found in
      let (p₁, runs, rep₁) = run_ops-Represents ops no_sockets p₀ rep₀ legal in
      let (p₂, polls) =
        poll_call-stray rep₁ kernel (omega (arith, rep₁.inside s watched)) out hung in
      (p₀, p₁, p₂, starts, runs, polls)
