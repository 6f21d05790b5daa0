-- ===== src/PollSet.antt =====
-- pollLib.c: the table that `poll` is called with, a global of each process. An entry stands at the
-- index of its socket.
pub mod Cleared
pub mod Watched
pub mod Ready
pub mod Runs
use cpe464_a.Base.{
  ℕ, zero, suc, ◌+◌, ◌-◌, ◌*◌, ◌^◌, Bool, Option, none, some, List, [], ◌∷◌, ◌++◌, length,
  get_elem?, set, take, replicate, ltb, leb, if◌then◌else◌,
}
use cpe464_a.SafeUtil.{Checked, returns, stops, crashes, srealloc, s_calloc}

-- `struct pollfd`.
pub record PollFd : Type 0 where
  pub fd : ℕ
  pub events : ℕ
  pub revents : ℕ

-- The three static variables.
pub record PollSet : Type 0 where
  pub poll_file_descriptors : List PollFd
  pub max_file_descriptor : ℕ
  pub current_poll_set_size : ℕ

abbrev pub initial_poll_set : PollSet
initial_poll_set = record {
  poll_file_descriptors = [];
  max_file_descriptor = 0;
  current_poll_set_size = 0;
}

abbrev pub poll_set_size : ℕ
poll_set_size = 10

-- POLLIN
abbrev pub pollin : ℕ
pollin = 1

abbrev pub zero_poll_fd : PollFd
zero_poll_fd = record { fd = 0; events = 0; revents = 0 }

unfoldable pub setup_poll_set : (calloc : ℕ → ℕ → Bool) → PollSet → Checked PollSet
unfolding s_calloc
setup_poll_set calloc p = s_calloc calloc poll_set_size 8 (record p {
  current_poll_set_size = poll_set_size;
  poll_file_descriptors = replicate poll_set_size zero_poll_fd;
})

-- What the entries from `i` on hold after a realloc: anything.
unfoldable pub fresh_entries : (garbage : ℕ → PollFd) → (count i : ℕ) → List PollFd
fresh_entries garbage zero i = []
fresh_entries garbage (suc count) i = garbage i ∷ fresh_entries garbage count (suc i)

-- The loop of `growPollSet`, `count` rounds from `i` on.
unfoldable pub clear_entries : (count i : ℕ) → List PollFd → List PollFd
clear_entries zero i fds = fds
clear_entries (suc count) i fds = elim (get_elem? fds i) [
  | none ↦ fds
  | some e ↦ clear_entries count (suc i) (set fds i (record e { fd = 0; events = 0 }))
]

unfoldable pub grow_poll_set :
    (realloc : ℕ → Bool) (garbage : ℕ → PollFd) (new_set_size : ℕ) → PollSet → Checked PollSet
unfolding srealloc fresh_entries clear_entries
grow_poll_set realloc garbage new_set_size p =
    let size = p.current_poll_set_size in
    let more = new_set_size - size in
    if leb new_set_size size
    then stops 255
    else srealloc realloc (new_set_size * 8) (record p {
      current_poll_set_size = new_set_size;
      poll_file_descriptors =
          clear_entries more size
            (take size p.poll_file_descriptors ++ fresh_entries garbage more size);
    })

-- The writes of `addToPollSet`, in a table that has the entry.
unfoldable pub watch : ℕ → PollSet → Checked PollSet
watch socket_number p = elim (get_elem? p.poll_file_descriptors socket_number) [
  | none ↦ crashes
  | some e ↦ returns (record p {
    max_file_descriptor =
        (if leb p.max_file_descriptor (socket_number + 1)
          then socket_number + 1
          else p.max_file_descriptor);
    poll_file_descriptors =
        set p.poll_file_descriptors socket_number
          (record e { fd = socket_number; events = pollin });
  })
]

-- A negative number is an index out of bounds, and a size past INT_MAX an overflow.
unfoldable pub add_to_poll_set :
    (realloc : ℕ → Bool) (garbage : ℕ → PollFd) → ℕ → PollSet → Checked PollSet
unfolding watch
add_to_poll_set realloc garbage socket_number p =
    if leb (2 ^ 31) (socket_number + poll_set_size)
    then crashes
    else if leb p.current_poll_set_size socket_number
    then elim (grow_poll_set realloc garbage (socket_number + poll_set_size) p) [
      | returns p' ↦ watch socket_number p'
      | stops code ↦ stops code
      | crashes ↦ crashes
    ]
    else watch socket_number p

unfoldable pub remove_from_poll_set : ℕ → PollSet → Checked PollSet
remove_from_poll_set socket_number p = elim (get_elem? p.poll_file_descriptors socket_number) [
  | none ↦ crashes
  | some e ↦ returns (record p {
    poll_file_descriptors =
        set p.poll_file_descriptors socket_number (record e { fd = 0; events = 0 });
  })
]

-- What `poll` leaves in the first `count` entries, where `kernel` has the revents for a descriptor and
-- the events asked for, and its result, the number of entries with something in them.
unfoldable pub polled : (kernel : ℕ → ℕ → ℕ) → ℕ → List PollFd → List PollFd
polled kernel zero fds = fds
polled kernel (suc count) [] = []
polled kernel (suc count) (e ∷ fds) =
    record e { revents = kernel e.fd e.events } ∷ polled kernel count fds

unfoldable pub poll_value : ℕ → List PollFd → ℕ
poll_value zero fds = 0
poll_value (suc count) [] = 0
poll_value (suc count) (e ∷ fds) = (if ltb 0 e.revents then 1 else 0) + poll_value count fds

-- The loop of `pollCall`, from `i` on, with `count` rounds left.
unfoldable pub first_ready : (count i : ℕ) → List PollFd → Option ℕ
first_ready zero i fds = none
first_ready (suc count) i [] = none
first_ready (suc count) i (e ∷ fds) =
    let rest = first_ready count (suc i) fds in if ltb 0 e.revents then some i else rest

-- `pollCall`, when `poll` came to `kernel` (none is its failure). A table shorter than
-- `maxFileDescriptor` is read past its end. None is the result -1.
unfoldable pub poll_call : (kernel : Option (ℕ → ℕ → ℕ)) → PollSet → Checked (PollSet × Option ℕ)
poll_call none p = stops 255
poll_call (some kernel) p =
    let count = p.max_file_descriptor in
    let fds = polled kernel count p.poll_file_descriptors in
    if ltb (length p.poll_file_descriptors) count
    then crashes
    else returns (
      record p { poll_file_descriptors = fds },
      if ltb 0 (poll_value count fds) then first_ready count 0 fds else none,
    )
