-- ===== src/Tests/PollSet.antt =====
-- A table of sockets 5 and 12, and the addresses of a port.
use cpe464_a.Base.{
  ℕ, ◌+◌, ◌*◌, ◌≡◌, refl, Bool, true, Option, some, List, [], ◌∷◌, get_or, replicate, if◌then◌else◌,
  ◌==◌, arith,
}
use cpe464_a.SafeUtil.{returns}
use cpe464_a.PollSet.{PollFd, PollSet, initial_poll_set, setup_poll_set, poll_call}
use cpe464_a.PollSet.Watched.{no_sockets}
use cpe464_a.PollSet.Ready.{Lowest}
use cpe464_a.PollSet.Runs.{Op, add, remove, run_ops, watch_ops, run_ops_refines, run_ops-stray}
use cpe464_a.Networks.{SockAddr}
use cpe464_a.Networks.Udp.{setup_udp_client_to_server, udp_server_setup}
use cpe464_a.Networks.Meeting.{setup_udp_client_to_server-port}

abbrev memory : ℕ → Bool
memory size = true

abbrev zeroed : ℕ → ℕ → Bool
zeroed count size = true

-- What new entries hold before they are cleared.
abbrev stale : ℕ → PollFd
stale i = record { fd = i; events = 7; revents = 7 }

abbrev calls : List Op
calls = add stale 5 ∷ add stale 12 ∷ remove 5 ∷ []

-- Data on socket 12.
abbrev busy : ℕ → ℕ → ℕ
busy fd events = if fd == 12 then events else 0

-- Standard input is closed.
abbrev hung_up : ℕ → ℕ → ℕ
hung_up fd events = if fd == 0 then 16 else 0

run_ops_refines_example :
    (p₀ p₁ p₂ : PollSet) × (o : Option ℕ) × (setup_poll_set zeroed initial_poll_set ≡ returns p₀)
    × (run_ops memory calls p₀ ≡ returns p₁)
    × (poll_call (some busy) p₁ ≡ returns (p₂, o))
    × Lowest (watch_ops calls no_sockets) busy o
run_ops_refines_example =
    run_ops_refines memory (λ size. refl) zeroed calls busy refl
      (omega arith, (omega arith, (refl, tt))) refl

run_ops-stray_example :
    (p₀ p₁ p₂ : PollSet) × (setup_poll_set zeroed initial_poll_set ≡ returns p₀)
    × (run_ops memory calls p₀ ≡ returns p₁)
    × (poll_call (some hung_up) p₁ ≡ returns (p₂, some 0))
run_ops-stray_example =
    run_ops-stray memory (λ size. refl) zeroed calls hung_up 12 refl
      (omega arith, (omega arith, (refl, tt))) refl refl (omega arith)

abbrev resolver : ℕ → ℕ → List ℕ → Option (List ℕ)
resolver flags family host = some (replicate 16 7)

abbrev free_port : SockAddr → Bool
free_port a = true

setup_udp_client_to_server-port_example :
    (a b : SockAddr) × (setup_udp_client_to_server resolver [] (some 3) (1 ∷ []) 50000
      ≡ returns (some (3, a)))
    × (udp_server_setup (some 4) free_port 50000 ≡ returns (4, b))
    × (a.addr ≡ replicate 16 7)
    × (a.family ≡ b.family)
    × (a.port ≡ b.port)
    × (get_or a.port 0 0 * 256 + get_or a.port 1 0 ≡ 50000)
setup_udp_client_to_server-port_example =
    setup_udp_client_to_server-port resolver [] (1 ∷ []) (replicate 16 7) 3 4 50000 free_port
      (omega arith) refl refl (λ a. refl)
