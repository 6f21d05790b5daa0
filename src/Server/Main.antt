-- ===== src/Server/Main.antt =====
-- `main` and `checkArgs` of server.c, and the loop of `process_server`.
use cpe464_a.Base.{
  ℕ, Bool, true, false, Option, none, some, List, [], ◌∷◌, length, get_or, ltb, ◌==◌, ◌||◌,
  if◌then◌else◌,
}
use cpe464_a.SafeUtil.{Checked, returns, stops, crashes}
use cpe464_a.Pdu.{Received}
use cpe464_a.Server.{Result, Answers}
use cpe464_a.Server.Run.{process_server}
use cpe464_a.Networks.{SockAddr}
use cpe464_a.Networks.Udp.{udp_server_setup}

-- The port, or exit(-1).
unfoldable pub server_args : (atoi : List ℕ → ℕ) → (argv : List (List ℕ)) → Checked ℕ
server_args atoi argv =
    if ltb 3 (length argv) || ltb (length argv) 2
    then stops 255
    else if length argv == 3
    then returns (atoi (get_or argv 2 []))
    else returns 0

-- A datagram that `recv_buf` got, whether a `fork` would succeed then, and what the child, if one is
-- started on it, meets in each round.
pub record Arrival : Type 0 where
  pub received : Received
  pub fork : Bool
  pub answers : List Answers

-- How far each child came, in the order in which they were started, and whether a `fork` that failed
-- has ended the loop.
pub record Served : Type 0 where
  pub children : List Result
  pub ended : Bool

module _ (in_cksum : List ℕ → ℕ) (calloc : ℕ → ℕ → Bool)
    (open_file : List ℕ → Option (List ℕ)) where
  -- The loop, a round for each datagram.
  unfoldable pub serve : List Arrival → Served
  serve [] = record { children = []; ended = false }
  serve (a ∷ rest) =
      let more = serve rest in
      elim (process_server in_cksum calloc open_file a.received a.answers) [
        | none ↦ more
        | some child ↦
            if a.fork
            then record more { children = child ∷ more.children }
            else record { children = []; ended = true }
      ]

-- `main`, which never returns: its loop ends only with the process.
unfoldable pub server_main :
    (in_cksum : List ℕ → ℕ) (calloc : ℕ → ℕ → Bool) (open_file : List ℕ → Option (List ℕ))
    (atoi : List ℕ → ℕ) (socket : Option ℕ) (bind : SockAddr → Bool) (argv : List (List ℕ))
    → List Arrival
    → Checked Served
server_main in_cksum calloc open_file atoi socket bind argv arrivals =
    elim (server_args atoi argv) [
      | stops code ↦ stops code
      | crashes ↦ crashes
      | returns port ↦ elim (udp_server_setup socket bind port) [
        | stops code ↦ stops code
        | crashes ↦ crashes
        | returns bound ↦
            let served = serve in_cksum calloc open_file arrivals in
            if served.ended then stops 255 else returns served
      ]
    ]
