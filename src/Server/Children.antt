-- ===== src/Server/Children.antt =====
-- The children that the loop of `process_server` starts on what comes to the server's socket.
use cpe464_a.Base.{
  ℕ, ◌≡◌, ◌≢◌, ◌<◌, ◌≤◌, ◌^◌, refl, ap, Bool, true, false, not, Option, none, some, List, [], ◌∷◌,
  length, replicate, take, ne→==,
}
use cpe464_a.Checksum.{IsBytes, IsChecksum}
use cpe464_a.SafeUtil.{returns}
use cpe464_a.Networks.{SockAddr, af_inet6, htons_bytes}
use cpe464_a.Networks.Udp.{udp_server_setup}
use cpe464_a.Pdu.{Received, is_corrupt, recv_buf, create_pdu}
use cpe464_a.Pdu.RoundTrip.{recv_buf-create_pdu}
use cpe464_a.Server.{State, Result, Answers, initial_server}
use cpe464_a.Server.Main.{Arrival, serve, server_args, server_main}
use cpe464_a.Server.Run.{process_client, process_server}

-- What comes to the socket: a packet as `create_pdu` of a client builds it, or a datagram that the
-- network damaged. A child that is started on it would meet `answers`.
pub data Coming : Type 0 where
  packet : (seq_num flag : ℕ) (payload stack : List ℕ) (answers : List Answers) → Coming
  noise : (r : Received) (answers : List Answers) → Coming

module _ (in_cksum : List ℕ → ℕ) where
  -- The packet's fields fit, and the checksum shows the damage.
  abbrev pub MayCome : Coming → Type 0
  MayCome (packet seq_num flag payload stack answers) =
      (seq_num < 2 ^ 32) × (flag < 256) × IsBytes payload × (length payload ≤ 1400)
  MayCome (noise r answers) = in_cksum (take r.len r.buf) ≢ 0

  abbrev pub AllMayCome : List Coming → Type 0
  AllMayCome [] = Unit
  AllMayCome (x ∷ xs) = MayCome x × AllMayCome xs

  -- As the loop gets it, when `fork` succeeds.
  abbrev pub arrival : Coming → Arrival
  arrival (packet seq_num flag payload stack answers) = record {
    received = recv_buf stack (create_pdu in_cksum seq_num flag payload);
    fork = true;
    answers = answers;
  }
  arrival (noise r answers) = record { received = r; fork = true; answers = answers }

  abbrev pub arrivals_of : List Coming → List Arrival
  arrivals_of [] = []
  arrivals_of (x ∷ xs) = arrival x ∷ arrivals_of xs

module _ (in_cksum : List ℕ → ℕ) (calloc : ℕ → ℕ → Bool)
    (open_file : List ℕ → Option (List ℕ)) where
  -- A run of `process_client` for each packet, in their order, and none for noise.
  abbrev pub clients_of : List Coming → List Result
  clients_of [] = []
  clients_of (packet seq_num flag payload stack answers ∷ xs) =
      process_client in_cksum calloc open_file
        (recv_buf stack (create_pdu in_cksum seq_num flag payload)) State.start initial_server
        answers
      ∷ clients_of xs
  clients_of (noise r answers ∷ xs) = clients_of xs

  is_corrupt-noise : (r : Received) → in_cksum (take r.len r.buf) ≢ 0 → is_corrupt in_cksum r ≡ true
  unfolding is_corrupt
  is_corrupt-noise r bad = ap not (ne→== _ 0 bad)

  process_server-clean :
      (r : Received) (answers : List Answers)
      → is_corrupt in_cksum r ≡ false
      → process_server in_cksum calloc open_file r answers
        ≡ some (process_client in_cksum calloc open_file r State.start initial_server answers)
  unfolding process_server
  process_server-clean r answers clean = rw clean refl

  process_server-noise :
      (r : Received) (answers : List Answers)
      → in_cksum (take r.len r.buf) ≢ 0
      → process_server in_cksum calloc open_file r answers ≡ none
  unfolding process_server
  process_server-noise r answers bad = rw (is_corrupt-noise r bad) refl

  serve-arrivals :
      IsChecksum in_cksum
      → (xs : List Coming) → AllMayCome in_cksum xs
      → serve in_cksum calloc open_file (arrivals_of in_cksum xs)
        ≡ record { children = clients_of xs; ended = false }
  unfolding serve
  serve-arrivals ck [] may = refl
  serve-arrivals ck (packet seq_num flag payload stack answers ∷ xs) ((hs, hf, hb, hl), rest) =
      rw
        (
          process_server-clean (recv_buf stack (create_pdu in_cksum seq_num flag payload)) answers
              (recv_buf-create_pdu in_cksum ck stack seq_num flag payload hs hf hb hl).0,
          serve-arrivals ck xs rest,
          serve,
        )
        refl
  serve-arrivals ck (noise r answers ∷ xs) (bad, rest) =
      rw (process_server-noise r answers bad, serve) (serve-arrivals ck xs rest)

  -- Let in_cksum be a checksum, let checkArgs of server.c return a port, the socket be had, and
  -- bind accept every address of that port. If any number of datagrams come, each of them a packet
  -- as createPDU builds it (its number below 2^32, its flag below 256, a payload of at most 1400
  -- bytes) or one whose checksum is not 0, and every fork succeeds, then main is in the loop of
  -- process_server, and has started a child, a run of process_client on that packet from its first
  -- state, for each of the packets in the order in which they came, and none for a damaged
  -- datagram.
  pub server_main-clients_of :
      IsChecksum in_cksum
      → (atoi : List ℕ → ℕ) (socket port : ℕ) (bind : SockAddr → Bool) (argv : List (List ℕ))
        (xs : List Coming)
      → server_args atoi argv ≡ returns port
      → ((a : SockAddr) → a.port ≡ htons_bytes port → bind a ≡ true)
      → AllMayCome in_cksum xs
      → server_main in_cksum calloc open_file atoi (some socket) bind argv (arrivals_of in_cksum xs)
        ≡ returns (record { children = clients_of xs; ended = false })
  unfolding server_main udp_server_setup
  server_main-clients_of ck atoi socket port bind argv xs is bound may =
      rw
        (
          server_main,
          is,
          udp_server_setup,
          bound (record { family = af_inet6; port = htons_bytes port; addr = replicate 16 0 }) refl,
          serve-arrivals ck xs may,
        )
        refl
