-- ===== src/PollSet/Watched.antt =====
-- The poll table as the set of the sockets that it watches: what each operation of pollLib.c does to
-- the set.
use cpe464_a.Base.{
  ℕ, ◌+◌, ◌-◌, ◌*◌, ◌^◌, ◌≤◌, ◌<◌, ◌≡◌, ◌==◌, ◌∙◌, refl, inl, inr, Bool-cases, Bool, true, false,
  some, ◌++◌, length, get_elem?, set, take, replicate, leb, if◌then◌else◌, arith,
  get_elem?-set_self, get_elem?-set_ne, get_elem?-replicate, length-set, length-append, take_all,
  le→leb, lt→leb,
}
use native.Mathlib.Decide.{ℕ_discrete, dec_lt}
use mathlib.Core.Bool.{false≢true}
use cpe464_a.SafeUtil.{returns, srealloc, s_calloc}
use cpe464_a.PollSet.{
  PollFd, PollSet, initial_poll_set, poll_set_size, pollin, zero_poll_fd, setup_poll_set,
  fresh_entries, clear_entries, grow_poll_set, watch, add_to_poll_set, remove_from_poll_set,
}
use cpe464_a.PollSet.Cleared.{
  get_elem?-append_lt, length-fresh_entries, clear_entries-before, length-clear_entries,
  clear_entries-IsCleared,
}

abbrev pub Sockets : Type 0
Sockets = ℕ → Bool

abbrev pub no_sockets : Sockets
no_sockets i = false

abbrev pub insert : ℕ → Sockets → Sockets
insert s w i = if i == s then true else w i

abbrev pub delete : ℕ → Sockets → Sockets
delete s w i = if i == s then false else w i

-- The entry of a watched socket asks for input, and any other is cleared.
pub record IsEntry (w : Sockets) (i : ℕ) (e : PollFd) : Type 0 where
  pub fd_is : e.fd ≡ (if w i then i else 0)
  pub events_is : e.events ≡ (if w i then pollin else 0)

-- The table stands for the set.
pub record Represents (w : Sockets) (p : PollSet) : Type 0 where
  pub sized : length p.poll_file_descriptors ≡ p.current_poll_set_size
  pub covered : p.max_file_descriptor ≤ p.current_poll_set_size
  pub entries :
      (i : ℕ)
      → i < p.current_poll_set_size
      → (e : PollFd) × (get_elem? p.poll_file_descriptors i ≡ some e) × IsEntry w i e
  pub inside : (i : ℕ) → w i ≡ true → i < p.max_file_descriptor

IsEntry-outside :
    {w : Sockets} {i : ℕ} {e : PollFd} → w i ≡ false → e.fd ≡ 0 → e.events ≡ 0 → IsEntry w i e
IsEntry-outside out no_fd no_events = record { fd_is = rw out no_fd; events_is = rw out no_events }

module _ {w : Sockets} {p : PollSet} (rep : Represents w p) where
  unwatched : (i : ℕ) → p.current_poll_set_size ≤ i → w i ≡ false
  unwatched i far = elim (Bool-cases (w i)) [
    | inl watched ↦ absurd (omega (arith, rep.inside i watched, rep.covered))
    | inr out ↦ out
  ]

  -- Growing the table leaves the set.
  grow_poll_set-Represents :
      (realloc : ℕ → Bool) (garbage : ℕ → PollFd) (size : ℕ)
      → p.current_poll_set_size < size
      → realloc (size * 8) ≡ true
      → (p' : PollSet) × (grow_poll_set realloc garbage size p ≡ returns p')
        × Represents w p'
        × (p'.current_poll_set_size ≡ size)
  unfolding grow_poll_set srealloc
  grow_poll_set-Represents realloc garbage size lt found =
      let size_of = p.current_poll_set_size in
      let more = size - size_of in
      let keep : take size_of p.poll_file_descriptors ≡ p.poll_file_descriptors =
        take_all size_of p.poll_file_descriptors (omega (arith, rep.sized)) in
      let base = p.poll_file_descriptors ++ fresh_entries garbage more size_of in
      let len : length base ≡ size = omega (
        arith,
        length-append p.poll_file_descriptors (fresh_entries garbage more size_of),
        length-fresh_entries garbage more size_of,
        rep.sized,
      ) in
      let fits : size_of + more ≤ length base = omega arith in
      (
        record p {
          current_poll_set_size = size;
          poll_file_descriptors = clear_entries more size_of base;
        },
        rw (lt→leb size_of size lt, found, keep) refl,
        record {
          sized = length-clear_entries more size_of base fits ∙ len;
          covered = omega (arith, rep.covered);
          entries = λ i inside_size. elim (dec_lt i size_of) [
            | yes old ↦
                let (e, here, is) = rep.entries i old in
                (
                  e,
                  clear_entries-before more size_of base i fits old
                      ∙ get_elem?-append_lt p.poll_file_descriptors
                          (fresh_entries garbage more size_of) i (omega (arith, rep.sized))
                      ∙ here,
                  is,
                )
            | no new ↦
                let (e, here, no_fd, no_events) =
                  clear_entries-IsCleared more size_of base i fits (omega arith) (omega arith) in
                (e, here, IsEntry-outside (unwatched i (omega arith)) no_fd no_events)
          ];
          inside = rep.inside;
        },
        refl,
      )

  pub remove_from_poll_set-Represents :
      (s : ℕ)
      → s < p.current_poll_set_size
      → (p' : PollSet) × (remove_from_poll_set s p ≡ returns p') × Represents (delete s w) p'
  unfolding remove_from_poll_set
  remove_from_poll_set-Represents s lt =
      let (e, here, is) = rep.entries s lt in
      let e' = record e { fd = 0; events = 0 } in
      (
        record p { poll_file_descriptors = set p.poll_file_descriptors s e' },
        rw (here, remove_from_poll_set) refl,
        record {
          sized = length-set p.poll_file_descriptors s e' ∙ rep.sized;
          covered = rep.covered;
          entries = λ i inside_size. elim (ℕ_discrete i s) [
            | yes at ↦ (
              e',
              rw at (get_elem?-set_self p.poll_file_descriptors s e' (omega (arith, rep.sized))),
              record { fd_is = ground arith; events_is = ground arith },
            )
            | no other ↦
                let (e₁, here₁, is₁) = rep.entries i inside_size in
                (
                  e₁,
                  get_elem?-set_ne p.poll_file_descriptors s i e' (omega arith) ∙ here₁,
                  record {
                    fd_is = ground (arith, is₁.fd_is);
                    events_is = ground (arith, is₁.events_is);
                  },
                )
          ];
          inside = λ i h. ground (arith, rep.inside i);
        },
      )

  -- The writes for a socket that has an entry insert it.
  watch-Represents :
      (s : ℕ)
      → s < p.current_poll_set_size
      → (p' : PollSet) × (watch s p ≡ returns p') × Represents (insert s w) p'
  unfolding watch
  watch-Represents s lt =
      let (e, here, is) = rep.entries s lt in
      let e' = record e { fd = s; events = pollin } in
      (
        record p {
          max_file_descriptor =
              (if leb p.max_file_descriptor (s + 1) then s + 1 else p.max_file_descriptor);
          poll_file_descriptors = set p.poll_file_descriptors s e';
        },
        rw (here, watch) refl,
        record {
          sized = length-set p.poll_file_descriptors s e' ∙ rep.sized;
          covered = ground (arith, rep.covered);
          entries = λ i inside_size. elim (ℕ_discrete i s) [
            | yes at ↦ (
              e',
              rw at (get_elem?-set_self p.poll_file_descriptors s e' (omega (arith, rep.sized))),
              record { fd_is = ground arith; events_is = ground arith },
            )
            | no other ↦
                let (e₁, here₁, is₁) = rep.entries i inside_size in
                (
                  e₁,
                  get_elem?-set_ne p.poll_file_descriptors s i e' (omega arith) ∙ here₁,
                  record {
                    fd_is = ground (arith, is₁.fd_is);
                    events_is = ground (arith, is₁.events_is);
                  },
                )
          ];
          inside = λ i h. ground (arith, rep.inside i);
        },
      )

pub add_to_poll_set-Represents :
    {w : Sockets} {p : PollSet}
    → Represents w p
    → (realloc : ℕ → Bool) (garbage : ℕ → PollFd) (s : ℕ) → s + poll_set_size < 2 ^ 31
    → realloc ((s + poll_set_size) * 8) ≡ true
    → (p' : PollSet) × (add_to_poll_set realloc garbage s p ≡ returns p')
      × Represents (insert s w) p'
unfolding add_to_poll_set
add_to_poll_set-Represents {w} {p} rep realloc garbage s small found =
    elim (dec_lt s p.current_poll_set_size) [
      | yes room ↦
          let (p', runs, rep') = watch-Represents rep s room in
          (
            p',
            rw (lt→leb (s + 10) (2 ^ 31) small, lt→leb s p.current_poll_set_size room) runs,
            rep',
          )
      | no full ↦
          let (p₁, grows, rep₁, size₁) =
            grow_poll_set-Represents rep realloc garbage (s + poll_set_size) (omega arith) found in
          let (p', runs, rep') = watch-Represents rep₁ s (omega arith) in
          (
            p',
            rw
                (
                  lt→leb (s + 10) (2 ^ 31) small,
                  le→leb p.current_poll_set_size s (omega arith),
                  grows,
                  add_to_poll_set,
                )
                runs,
            rep',
          )
    ]

pub setup_poll_set-Represents :
    (calloc : ℕ → ℕ → Bool)
    → calloc poll_set_size 8 ≡ true
    → (p' : PollSet) × (setup_poll_set calloc initial_poll_set ≡ returns p')
      × Represents no_sockets p'
unfolding setup_poll_set s_calloc
setup_poll_set-Represents calloc found = (
  record initial_poll_set {
    poll_file_descriptors = replicate poll_set_size zero_poll_fd;
    current_poll_set_size = poll_set_size;
  },
  rw found refl,
  record {
    sized = refl;
    covered = omega arith;
    entries = λ i lt. (
      zero_poll_fd,
      get_elem?-replicate poll_set_size i zero_poll_fd lt,
      record { fd_is = refl; events_is = refl },
    );
    inside = λ i h. absurd (false≢true h);
  },
)
