-- ===== src/Delivery/Opening.antt =====
-- The states before data keep what they promise: they write nothing.
use cpe464_a.Base.{
  ℕ, ◌+◌, ◌-◌, ◌≤◌, ◌<◌, ◌≡◌, refl, inl, inr, List, [], append-nil, arith, Bool, true, false, ◌==◌,
  if◌then◌else◌, Bool-cases, Option-cases, Option, none, some, ltb,
}
use cpe464_a.Flag
use cpe464_a.Process.{
  Poll, ready, silent, failed, Event, timed_out, poll_failed, recv_failed, arrived, goes, exits,
}
use cpe464_a.Pdu.{Received, recv_buf, send_buf, is_corrupt}
use cpe464_a.Window.{Window, new_window, window_create, zero_buffer}
use cpe464_a.Window.Slots.{new_window-IsValid, slot-new_window}
use cpe464_a.Rcopy.{State, Client}
use cpe464_a.Rcopy.Setup.{
  arg, Socket, no_socket, no_host, no_poll_set, opened, start_state, process_select, max_retrans,
  filename, filename_after, filename_selected, filename_event, filename_packet, file_ok,
}
use cpe464_a.Delivery.{Stream, delivered, Receives, Opens, Asks, IsPrefix, Promised}

-- The arguments ask for the stream's chunk size, which a packet can carry, and for a window.
pub record IsConfigured (atoi : List ℕ → ℕ) (argv : List (List ℕ)) (s : Stream) : Type 0 where
  pub buffer_size : atoi (arg argv 4) ≡ s.full
  pub buffer_size_le : s.full ≤ 1400
  pub window_size_pos : 0 < atoi (arg argv 3)

-- What `processSelect` may return.
process_select_cases {ℓ} :
    (P : Option (State × ℕ) → Type ℓ) (retry_count : ℕ) (answer : Poll)
    (timeout_state data_state done_state : State)
    → P none
    → ((n : ℕ) → P (some (timeout_state, n)))
    → ((n : ℕ) → P (some (data_state, n)))
    → ((n : ℕ) → P (some (done_state, n)))
    → P (process_select retry_count answer timeout_state data_state done_state)
unfolding process_select
process_select_cases P count ready t d e none' timeouts datas dones =
    elim (Bool-cases (ltb max_retrans (count + 1))) [
      | inl over ↦ rw over (dones _)
      | inr within ↦ rw within (datas _)
    ]
process_select_cases P count silent t d e none' timeouts datas dones =
    elim (Bool-cases (ltb max_retrans (count + 1))) [
      | inl over ↦ rw over (dones _)
      | inr within ↦ rw within (timeouts _)
    ]
process_select_cases P count failed t d e none' timeouts datas dones =
    elim (Bool-cases (ltb max_retrans (count + 1))) [
      | inl over ↦ rw over (dones _)
      | inr within ↦ rw within none'
    ]

window_create-new :
    (calloc : ℕ → ℕ → Bool) (n : ℕ) (w : Window)
    → window_create calloc n ≡ some w
    → w ≡ new_window n
unfolding window_create
window_create-new calloc n w e = ground arith

module _ {s : Stream} where
  Opens-IsPrefix : {c : Client} {out : List ℕ} → Opens s c out → IsPrefix s out
  unfolding delivered
  Opens-IsPrefix o = (0, omega arith, o.nothing)

  Asks-retry :
      {c : Client} {out : List ℕ} (n : ℕ) → Asks s c out → Asks s (record c { retry_count = n }) out
  Asks-retry n a = record {
    opens = record {
      nothing = a.opens.nothing;
      first_expected = a.opens.first_expected;
      no_eof = a.opens.no_eof;
      no_final = a.opens.no_final;
    };
    data_len_set = a.data_len_set;
  }

  Asks-counted :
      (damaged : Bool) {c : Client} {out : List ℕ}
      → Asks s c out
      → Asks s (if damaged then record c { retry_count = c.retry_count + 1 } else c) out
  Asks-counted true {c} a = Asks-retry (c.retry_count + 1) a
  Asks-counted false a = a

  filename_branches :
      (bad plain damaged : Bool) {c : Client} (out : List ℕ)
      → Asks s c out
      → Promised s out (
          if bad
          then exits 1 []
          else if plain
          then goes State.file_ok c []
          else if damaged
          then goes State.filename c []
          else goes State.file_ok c [])
  filename_branches true plain damaged out a =
      rw (append-nil out) (Opens-IsPrefix a.opens, λ z. absurd (omega arith))
  filename_branches false true damaged out a = rw (append-nil out) a
  filename_branches false false true out a = rw (append-nil out) a
  filename_branches false false false out a = rw (append-nil out) a

  -- A new window makes the client ready to receive.
  pub Asks-Receives :
      {c : Client} {out : List ℕ} (n : ℕ)
      → 0 < n
      → Asks s c out
      → Receives s (record c { window = new_window n }) out
  unfolding delivered zero_buffer
  Asks-Receives {c} {out} n pos a = record {
    known = record {
      window_valid = new_window-IsValid n pos;
      started = omega (arith, a.opens.first_expected);
      within = omega (arith, a.opens.first_expected);
      data_len_known = a.data_len_set;
      eof_is = inl a.opens.no_eof;
      final_is = inl a.opens.no_final;
      disk =
          let none_yet : c.expected - 1 ≡ 0 = omega (arith, a.opens.first_expected) in
          rw none_yet (a.opens.nothing);
    };
    empty = λ i lo hi. (zero_buffer, slot-new_window n i pos, inl refl);
  }

  module _ (in_cksum : List ℕ → ℕ) where
    pub start_state-Promised :
        (atoi : List ℕ → ℕ) (argv : List (List ℕ))
        → IsConfigured atoi argv s
        → (c : Client) (out : List ℕ) (socket : Socket) → Opens s c out
        → Promised s out (start_state in_cksum atoi argv c socket)
    unfolding start_state send_buf
    start_state-Promised atoi argv cfg c out no_socket o = rw (append-nil out) (Opens-IsPrefix o)
    start_state-Promised atoi argv cfg c out no_host o =
        rw (append-nil out) (Opens-IsPrefix o, λ z. absurd (omega arith))
    start_state-Promised atoi argv cfg c out no_poll_set o =
        rw (append-nil out) (Opens-IsPrefix o, λ z. absurd (omega arith))
    start_state-Promised atoi argv cfg c out (opened n) o = rw (append-nil out) (record {
      opens = record {
        nothing = o.nothing;
        first_expected = o.first_expected;
        no_eof = o.no_eof;
        no_final = o.no_final;
      };
      data_len_set = omega (arith, cfg.buffer_size, cfg.buffer_size_le);
    })

    filename_packet-Promised :
        (c : Client) (out : List ℕ) (r : Received)
        → Asks s c out
        → Promised s out (filename_packet in_cksum c r)
    unfolding filename_packet
    filename_packet-Promised c out r a =
        filename_branches (r.flag == Flag.fname_bad) (r.flag == Flag.data_flag)
          (is_corrupt in_cksum r) out (Asks-counted (is_corrupt in_cksum r) a)

    filename_event-Promised :
        (c : Client) (out : List ℕ) (event : Event)
        → Asks s c out
        → Promised s out (filename_event in_cksum c event)
    unfolding filename_event
    filename_event-Promised c out timed_out a = rw (append-nil out) (Opens-IsPrefix a.opens)
    filename_event-Promised c out poll_failed a =
        rw (append-nil out) (Opens-IsPrefix a.opens, λ z. absurd (omega arith))
    filename_event-Promised c out recv_failed a =
        rw (append-nil out) (Opens-IsPrefix a.opens, λ z. absurd (omega arith))
    filename_event-Promised c out (arrived stack datagram) a =
        filename_packet-Promised c out (recv_buf stack datagram) a

    pub filename-Promised :
        (c : Client) (out : List ℕ) (answer : Poll) (event : Event)
        → Asks s c out
        → Promised s out (filename in_cksum c answer event)
    unfolding filename filename_after filename_selected
    filename-Promised c out answer event a =
        process_select_cases (λ o. Promised s out (filename_after in_cksum c event o)) c.retry_count
          answer State.start_state State.file_ok State.done
          (rw (append-nil out) (Opens-IsPrefix a.opens, λ z. absurd (omega arith)))
          (λ n. rw (append-nil out) ((Asks-retry n a).opens))
          (λ n. filename_event-Promised (record c { retry_count = n }) out event (Asks-retry n a))
          (λ n. rw (append-nil out) (Opens-IsPrefix a.opens))

  pub file_ok-Promised :
      (calloc : ℕ → ℕ → Bool) (window_size : ℕ)
      → 0 < window_size
      → (c : Client) (out : List ℕ) (file_opened : Bool) → Asks s c out
      → Promised s out (file_ok calloc window_size c file_opened)
  unfolding file_ok
  file_ok-Promised calloc n pos c out false a = rw (append-nil out) (Opens-IsPrefix a.opens)
  file_ok-Promised calloc n pos c out true a = elim (Option-cases (window_create calloc n)) [
    | inl refused ↦ rw (refused, append-nil out) (Opens-IsPrefix a.opens, λ z. absurd (omega arith))
    | inr (w, made) ↦
        rw (made, append-nil out, window_create-new calloc n w made) (Asks-Receives n pos a)
  ]
