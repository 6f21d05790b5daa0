-- ===== src/PollSet/Cleared.antt =====
-- The loop of `growPollSet` that clears the new entries.
use cpe464_a.Base.{
  ℕ, zero, suc, ◌+◌, ◌≤◌, ◌<◌, ◌≡◌, ◌∙◌, sym, ap, subst, refl, Option, some, List, [], ◌∷◌, ◌++◌,
  length, get_elem?, set, arith, get_elem?_lt, get_elem?-set_self, get_elem?-set_ne, length-set,
}
use native.Mathlib.Decide.{ℕ_discrete}
use cpe464_a.PollSet.{PollFd, fresh_entries, clear_entries}

module _ {ℓ} {A : Type ℓ} where
  pub get_elem?-append_lt :
      (xs ys : List A) (i : ℕ) → i < length xs → get_elem? (xs ++ ys) i ≡ get_elem? xs i
  get_elem?-append_lt [] ys i h = absurd (omega arith)
  get_elem?-append_lt (x ∷ xs) ys zero h = refl
  get_elem?-append_lt (x ∷ xs) ys (suc i) h = get_elem?-append_lt xs ys i (omega arith)

pub length-fresh_entries :
    (garbage : ℕ → PollFd) (count i : ℕ) → length (fresh_entries garbage count i) ≡ count
unfolding fresh_entries
length-fresh_entries garbage zero i = refl
length-fresh_entries garbage (suc count) i = ap suc (length-fresh_entries garbage count (suc i))

-- The loop that clears entries keeps those before it, and the number of them.
pub clear_entries-before :
    (count i : ℕ) (fds : List PollFd) (j : ℕ)
    → i + count ≤ length fds
    → j < i
    → get_elem? (clear_entries count i fds) j ≡ get_elem? fds j
unfolding clear_entries
clear_entries-before zero i fds j fits before = refl
clear_entries-before (suc count) i fds j fits before =
    let (e, here) = get_elem?_lt fds i (omega arith) in
    let cleared = record e { fd = 0; events = 0 } in
    rw (here, clear_entries)
      (clear_entries-before count (suc i) (set fds i cleared) j
          (omega (arith, length-set fds i cleared)) (omega arith)
        ∙ get_elem?-set_ne fds i j cleared (omega arith))

pub length-clear_entries :
    (count i : ℕ) (fds : List PollFd)
    → i + count ≤ length fds
    → length (clear_entries count i fds) ≡ length fds
unfolding clear_entries
length-clear_entries zero i fds fits = refl
length-clear_entries (suc count) i fds fits =
    let (e, here) = get_elem?_lt fds i (omega arith) in
    let cleared = record e { fd = 0; events = 0 } in
    rw (here, clear_entries)
      (length-clear_entries count (suc i) (set fds i cleared)
          (omega (arith, length-set fds i cleared))
        ∙ length-set fds i cleared)

clear_entries_at :
    (count i : ℕ) (fds : List PollFd) (e : PollFd)
    → get_elem? fds i ≡ some e
    → clear_entries (suc count) i fds
      ≡ clear_entries count (suc i) (set fds i (record e { fd = 0; events = 0 }))
unfolding clear_entries
clear_entries_at count i fds e here = rw (here, clear_entries) refl

-- An entry that asks for nothing.
abbrev pub IsCleared : Option PollFd → Type 0
IsCleared o = (e : PollFd) × (o ≡ some e) × (e.fd ≡ 0) × (e.events ≡ 0)

clear_entries-first :
    (count i : ℕ) (fds : List PollFd)
    → i + suc count ≤ length fds
    → IsCleared (get_elem? (clear_entries (suc count) i fds) i)
unfolding clear_entries
clear_entries-first count i fds fits =
    let (e, here) = get_elem?_lt fds i (omega arith) in
    let cleared = record e { fd = 0; events = 0 } in
    (
      cleared,
      rw (here, clear_entries)
          (clear_entries-before count (suc i) (set fds i cleared) i
              (omega (arith, length-set fds i cleared)) (omega arith)
            ∙ get_elem?-set_self fds i cleared (omega arith)),
      refl,
      refl,
    )

pub clear_entries-IsCleared :
    (count i : ℕ) (fds : List PollFd) (j : ℕ)
    → i + count ≤ length fds
    → i ≤ j
    → j < i + count
    → IsCleared (get_elem? (clear_entries count i fds) j)
clear_entries-IsCleared zero i fds j fits from to = absurd (omega arith)
clear_entries-IsCleared (suc count) i fds j fits from to = elim (ℕ_discrete i j) [
  | yes at ↦
      subst (λ k. IsCleared (get_elem? (clear_entries (suc count) i fds) k)) at
        (clear_entries-first count i fds fits)
  | no other ↦
      let (e, here) = get_elem?_lt fds i (omega arith) in
      let cleared = record e { fd = 0; events = 0 } in
      subst (λ l. IsCleared (get_elem? l j)) (sym (clear_entries_at count i fds e here))
        (clear_entries-IsCleared count (suc i) (set fds i cleared) j
          (omega (arith, length-set fds i cleared)) (omega arith) (omega arith))
]
