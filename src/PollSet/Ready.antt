-- ===== src/PollSet/Ready.antt =====
-- `pollCall` against the set of watched sockets: the lowest one that `poll` reports.
use cpe464_a.Base.{
  ℕ, zero, suc, ◌+◌, ◌≤◌, ◌<◌, ◌≡◌, sym, ◌∙◌, ap, ap₂, refl, inl, inr, true, false, Bool-cases,
  Option, none, some, List, [], ◌∷◌, length, get_elem?, ltb, if◌then◌else◌, arith, ltb→lt, ltb→le,
  le→ltb,
}
use mathlib.Core.Option.{some-injective, none-ne-some}
use cpe464_a.SafeUtil.{returns}
use cpe464_a.PollSet.{PollFd, PollSet, pollin, polled, poll_value, first_ready, poll_call}
use cpe464_a.PollSet.Watched.{Sockets, Represents}

length-polled :
    (kernel : ℕ → ℕ → ℕ) (n : ℕ) (fds : List PollFd) → length (polled kernel n fds) ≡ length fds
unfolding polled
length-polled kernel zero fds = refl
length-polled kernel (suc n) [] = refl
length-polled kernel (suc n) (e ∷ fds) = ap suc (length-polled kernel n fds)

-- What `poll` makes of an entry.
abbrev reported : (ℕ → ℕ → ℕ) → PollFd → PollFd
reported kernel e = record e { revents = kernel e.fd e.events }

polled-get_elem? :
    (kernel : ℕ → ℕ → ℕ) (n : ℕ) (fds : List PollFd) (i : ℕ) (e : PollFd)
    → i < n
    → get_elem? fds i ≡ some e
    → get_elem? (polled kernel n fds) i ≡ some (reported kernel e)
unfolding polled
polled-get_elem? kernel zero fds i e lt here = absurd (omega arith)
polled-get_elem? kernel (suc n) [] i e lt here = absurd (none-ne-some _ here)
polled-get_elem? kernel (suc n) (x ∷ fds) zero e lt here =
    ap (λ o. some (reported kernel o)) (some-injective _ _ here)
polled-get_elem? kernel (suc n) (x ∷ fds) (suc i) e lt here =
    polled-get_elem? kernel n fds i e (omega arith) here

polled-keeps :
    (kernel : ℕ → ℕ → ℕ) (n : ℕ) (fds : List PollFd) (i : ℕ) (e : PollFd)
    → get_elem? fds i ≡ some e
    → (e' : PollFd) × (get_elem? (polled kernel n fds) i ≡ some e')
      × (e'.fd ≡ e.fd)
      × (e'.events ≡ e.events)
unfolding polled
polled-keeps kernel zero fds i e here = (e, here, refl, refl)
polled-keeps kernel (suc n) [] i e here = absurd (none-ne-some _ here)
polled-keeps kernel (suc n) (x ∷ fds) zero e here =
    let same : x ≡ e = some-injective _ _ here in
    (reported kernel x, refl, ap (λ y. y.fd) same, ap (λ y. y.events) same)
polled-keeps kernel (suc n) (x ∷ fds) (suc i) e here = polled-keeps kernel n fds i e here

-- The entries before `n` report nothing.
abbrev Quiet : ℕ → List PollFd → Type 0
Quiet n fds = (j : ℕ) → j < n → (e : PollFd) → get_elem? fds j ≡ some e → e.revents ≡ 0

-- What the loop of `pollCall` finds from `i` on in `n` rounds.
abbrev Found : ℕ → ℕ → List PollFd → Option ℕ → Type 0
Found n i fds none = Quiet n fds
Found n i fds (some r) =
    (j : ℕ) × (r ≡ i + j)
    × (j < n)
    × (e : PollFd) × (get_elem? fds j ≡ some e)
    × (0 < e.revents)
    × Quiet j fds

Quiet-cons :
    (n : ℕ) (e : PollFd) (fds : List PollFd) → e.revents ≡ 0 → Quiet n fds → Quiet (suc n) (e ∷ fds)
Quiet-cons n e fds nothing rest zero lt x here =
    ap (λ o. o.revents) (sym (some-injective _ _ here)) ∙ nothing
Quiet-cons n e fds nothing rest (suc j) lt x here = rest j (omega arith) x here

Found-cons :
    (n i : ℕ) (e : PollFd) (fds : List PollFd) (o : Option ℕ)
    → e.revents ≡ 0
    → Found n (suc i) fds o
    → Found (suc n) i (e ∷ fds) o
Found-cons n i e fds none nothing rest = Quiet-cons n e fds nothing rest
Found-cons n i e fds (some r) nothing (j, at, lt, x, here, some_in, before) =
    (suc j, omega arith, omega arith, x, here, some_in, Quiet-cons j e fds nothing before)

first_ready-Found : (n i : ℕ) (fds : List PollFd) → Found n i fds (first_ready n i fds)
unfolding first_ready
first_ready-Found zero i fds = λ j lt. absurd (omega arith)
first_ready-Found (suc n) i [] = λ j lt e here. absurd (none-ne-some _ here)
first_ready-Found (suc n) i (e ∷ fds) = elim (Bool-cases (ltb 0 e.revents)) [
  | inl some_in ↦ rw some_in (
    0,
    omega arith,
    omega arith,
    e,
    refl,
    ltb→lt 0 e.revents some_in,
    λ j lt. absurd (omega arith),
  )
  | inr nothing ↦ rw nothing (
      Found-cons n i e fds (first_ready n (suc i) fds) (omega (arith, ltb→le 0 e.revents nothing))
        (first_ready-Found n (suc i) fds))
]

-- The loop finds nothing where `poll` counts nothing.
poll_value-first_ready :
    (n i : ℕ) (fds : List PollFd) → poll_value n fds ≡ 0 → first_ready n i fds ≡ none
unfolding poll_value first_ready
poll_value-first_ready zero i fds none_in = refl
poll_value-first_ready (suc n) i [] none_in = refl
poll_value-first_ready (suc n) i (e ∷ fds) none_in = elim (Bool-cases (ltb 0 e.revents)) [
  | inl some_in ↦ absurd (ground arith)
  | inr nothing ↦ rw nothing (poll_value-first_ready n (suc i) fds (ground arith))
]

-- So the test of the count makes no difference.
counted :
    (n i : ℕ) (fds : List PollFd)
    → (if ltb 0 (poll_value n fds) then first_ready n i fds else none) ≡ first_ready n i fds
counted n i fds = elim (Bool-cases (ltb 0 (poll_value n fds))) [
  | inl some_in ↦ rw some_in refl
  | inr nothing ↦
      rw nothing
        (sym (poll_value-first_ready n i fds (omega (arith, ltb→le 0 (poll_value n fds) nothing))))
]

-- The socket that is to be read, if there is one: watched, reported, and the lowest such.
abbrev pub Lowest : Sockets → (ℕ → ℕ → ℕ) → Option ℕ → Type 0
Lowest w kernel none = (s : ℕ) → w s ≡ true → kernel s pollin ≡ 0
Lowest w kernel (some s) =
    (w s ≡ true) × (0 < kernel s pollin) × ((j : ℕ) → j < s → w j ≡ true → kernel j pollin ≡ 0)

module _ {w : Sockets} {p : PollSet} (rep : Represents w p) (kernel : ℕ → ℕ → ℕ) where
  abbrev after_poll : PollSet
  after_poll = record p {
    poll_file_descriptors = polled kernel p.max_file_descriptor p.poll_file_descriptors;
  }

  poll_call-runs :
      poll_call (some kernel) p
      ≡ returns (after_poll, first_ready p.max_file_descriptor 0 after_poll.poll_file_descriptors)
  unfolding poll_call
  poll_call-runs =
      rw
        (
          le→ltb (length p.poll_file_descriptors) p.max_file_descriptor
              (omega (arith, rep.sized, rep.covered)),
          counted p.max_file_descriptor 0
              (polled kernel p.max_file_descriptor p.poll_file_descriptors),
        )
        refl

  -- What an entry reports.
  entry_reports :
      (i : ℕ)
      → i < p.max_file_descriptor
      → (e : PollFd) × (get_elem? after_poll.poll_file_descriptors i ≡ some e)
        × (e.revents ≡ kernel (if w i then i else 0) (if w i then pollin else 0))
  entry_reports i lt =
      let (e, here, is) = rep.entries i (omega (arith, rep.covered)) in
      (
        reported kernel e,
        polled-get_elem? kernel p.max_file_descriptor p.poll_file_descriptors i e lt here,
        ap₂ kernel is.fd_is is.events_is,
      )

  after_poll-Represents : Represents w after_poll
  after_poll-Represents = record {
    sized = length-polled kernel p.max_file_descriptor p.poll_file_descriptors ∙ rep.sized;
    covered = rep.covered;
    entries = λ i lt.
        let (e, here, is) = rep.entries i lt in
        let (e', here', same_fd, same_events) =
          polled-keeps kernel p.max_file_descriptor p.poll_file_descriptors i e here in
        (e', here', record { fd_is = same_fd ∙ is.fd_is; events_is = same_events ∙ is.events_is });
    inside = rep.inside;
  }

  reports_watched :
      (i : ℕ)
      → i < p.max_file_descriptor
      → w i ≡ true
      → (e : PollFd) × (get_elem? after_poll.poll_file_descriptors i ≡ some e)
        × (e.revents ≡ kernel i pollin)
  reports_watched i lt watched =
      let (e, here, reports) = entry_reports i lt in (e, here, reports ∙ rw watched refl)

  before-Lowest :
      (n : ℕ)
      → n ≤ p.max_file_descriptor
      → Quiet n after_poll.poll_file_descriptors
      → (j : ℕ) → j < n
      → w j ≡ true
      → kernel j pollin ≡ 0
  before-Lowest n le quiet j lt watched =
      let (e, here, reports) = reports_watched j (omega arith) watched in
      sym reports ∙ quiet j lt e here

  Found-Lowest :
      kernel 0 0 ≡ 0
      → (o : Option ℕ) → Found p.max_file_descriptor 0 after_poll.poll_file_descriptors o
      → Lowest w kernel o
  Found-Lowest nothing none quiet = λ s watched.
      before-Lowest p.max_file_descriptor (omega arith) quiet s (rep.inside s watched) watched
  Found-Lowest nothing (some r) (j, at, lt, e, here, some_in, before) =
      let (e', here', reports) = entry_reports j lt in
      let same : e ≡ e' = some-injective e e' (sym here ∙ here') in
      let in_kernel : e.revents ≡ kernel (if w j then j else 0) (if w j then pollin else 0) =
        ap (λ x. x.revents) same ∙ reports in
      let here_j : r ≡ j = at ∙ omega arith in
      rw here_j (elim (Bool-cases (w j)) [
        | inl watched ↦
            let mine : e.revents ≡ kernel j pollin = in_kernel ∙ rw watched refl in
            (watched, omega arith, before-Lowest j (omega arith) before)
        | inr out ↦
            let stray : e.revents ≡ kernel 0 0 = in_kernel ∙ rw out refl in absurd (omega arith)
      ])

  pub poll_call-Lowest :
      kernel 0 0 ≡ 0
      → (p' : PollSet) × (o : Option ℕ) × (poll_call (some kernel) p ≡ returns (p', o))
        × Represents w p'
        × Lowest w kernel o
  poll_call-Lowest nothing = (
    after_poll,
    first_ready p.max_file_descriptor 0 after_poll.poll_file_descriptors,
    poll_call-runs,
    after_poll-Represents,
    Found-Lowest nothing _
        (first_ready-Found p.max_file_descriptor 0 after_poll.poll_file_descriptors),
  )

  Found-stray :
      0 < p.max_file_descriptor
      → w 0 ≡ false
      → 0 < kernel 0 0
      → (o : Option ℕ) → Found p.max_file_descriptor 0 after_poll.poll_file_descriptors o
      → o ≡ some 0
  Found-stray some_watched out hung none quiet =
      let (e, here, reports) = entry_reports 0 some_watched in
      let stray : e.revents ≡ kernel 0 0 = reports ∙ rw out refl in
      absurd (omega (arith, quiet 0 some_watched e here))
  Found-stray some_watched out hung (some r) (zero, at, lt, e, here, some_in, before) =
      ap (λ n. some n) at
  Found-stray some_watched out hung (some r) (suc j, at, lt, e₁, here₁, some_in, before) =
      let (e, here, reports) = entry_reports 0 some_watched in
      let stray : e.revents ≡ kernel 0 0 = reports ∙ rw out refl in
      absurd (omega (arith, before 0 (omega arith) e here))

  pub poll_call-stray :
      0 < p.max_file_descriptor
      → w 0 ≡ false
      → 0 < kernel 0 0
      → (p' : PollSet) × (poll_call (some kernel) p ≡ returns (p', some 0))
  poll_call-stray some_watched out hung = (
    after_poll,
    poll_call-runs
        ∙ ap (λ o. returns (after_poll, o))
            (Found-stray some_watched out hung _
              (first_ready-Found p.max_file_descriptor 0 after_poll.poll_file_descriptors)),
  )
