-- ===== src/Session/Whole.antt =====
-- All runs of a session, from the moment when the server has opened the file and the client waits for
-- the data.
use cpe464_a.Base.{
  ℕ, suc, ◌+◌, ◌-◌, ◌*◌, ◌≤◌, ◌<◌, ◌≡◌, ◌⊎◌, Bool, Option, List, [], length, arith, refl, sym, ap,
  subst,
}
use cpe464_a.Checksum.{IsBytes, IsChecksum}
use cpe464_a.Pdu.{Received}
use cpe464_a.Window.{new_window}
use cpe464_a.Rcopy.{Client}
use cpe464_a.Rcopy as Rcopy
use cpe464_a.Rcopy.Setup.{arg}
use cpe464_a.Delivery.{delivered}
use cpe464_a.Server.{State}
use cpe464_a.Server.Cutting.{cut, Cuts}
use cpe464_a.Service.{Fills}
use cpe464_a.Service.Request.{Fits}
use cpe464_a.Service.Opening.{opened, opened-Sends}
use cpe464_a.Service.Copy.{Fits-Cuts}
use cpe464_a.Service.Whole.{ready_client, ready_client-Receives}
use cpe464_a.Session.{
  Session, System, live, failed, running, Step, Run, here, there, server_moves, server_hears,
  client_hears, client_flushes, weight, work,
}
use cpe464_a.Session.Packets.{length-stretch}
use cpe464_a.Session.Serving.{ServerAt-Sends, Serves-lower}
use cpe464_a.Session.Joined.{JoinedAt, Joined}
use cpe464_a.Session.Keeping.{Goes, server_moves-Goes, server_hears-Goes}
use cpe464_a.Session.Answering.{client_hears-Goes}
use cpe464_a.Session.Waiting.{IsComplete, CanGoOn, JoinedAt-CanGoOn}

-- The session at its start, the arguments naming the buffer size and the window size.
abbrev pub begun : (atoi : List ℕ → ℕ) (argv : List (List ℕ)) (socket : ℕ) (file : List ℕ) → Session
begun atoi argv socket file = record {
  server_state = State.send_data;
  server = opened (atoi (arg argv 4)) (atoi (arg argv 3)) file;
  receiver =
      running Rcopy.State.recv_data (ready_client socket (atoi (arg argv 4)) (atoi (arg argv 3)));
  disk = [];
  to_client = [];
  to_server = [];
}

module _ (in_cksum : List ℕ → ℕ) (n : ℕ) (file : List ℕ) (count byte : ℕ) where
  -- A system that is joined, with so much left to do.
  abbrev pub JoinedSystem : System → ℕ → ℕ → Type 0
  JoinedSystem (live s) k total = Joined in_cksum n file count byte s × (k + work count s ≤ total)
  JoinedSystem failed k total = ⊥

module _ (in_cksum atoi : List ℕ → ℕ) (calloc : ℕ → ℕ → Bool) (argv : List (List ℕ))
    (open_file : List ℕ → Option (List ℕ)) (establishment : Received) (ck : IsChecksum in_cksum)
    {n : ℕ} {file : List ℕ} {count byte : ℕ} (fl : Fills n file count) (cuts : Cuts n file count)
    (bytes : IsBytes file) (small : byte < 256) where
  Step-Goes :
      (s : Session) (t : System)
      → Joined in_cksum n file count byte s
      → Step in_cksum atoi calloc argv open_file establishment byte s t
      → Goes in_cksum n file count byte s t
  Step-Goes s _ j (server_moves waits busy) =
      server_moves-Goes in_cksum ck calloc open_file establishment fl byte s s.receiver refl j waits
        busy
  Step-Goes s _ j (server_hears stack datagram rest waits queue) =
      server_hears-Goes in_cksum ck calloc open_file establishment fl byte s stack datagram rest
        waits queue s.receiver refl j
  Step-Goes s _ j (client_hears st c stack datagram rest at waits queue) =
      client_hears-Goes in_cksum atoi calloc argv ck cuts bytes small s stack datagram rest queue st
        c (subst (λ receiver. JoinedAt in_cksum n file count byte receiver s) at j)
  Step-Goes s _ j (client_flushes c at) =
      absurd (subst (λ receiver. JoinedAt in_cksum n file count byte receiver s) at j)

  pub Run-Joined :
      {start t : System} {k : ℕ} (total : ℕ)
      → JoinedSystem in_cksum n file count byte start 0 total
      → Run in_cksum atoi calloc argv open_file establishment byte start k t
      → JoinedSystem in_cksum n file count byte t k total
  Run-Joined total j here = j
  Run-Joined total j (there {k} {s} run step) =
      let (joined, to) = Run-Joined total j run in
      let goes_on = Step-Goes s _ joined step in
      subst (λ t. JoinedSystem in_cksum n file count byte t (suc k) total) (sym goes_on.is)
        (goes_on.joined, omega (arith, to, goes_on.lower))

-- How the system goes on: it is live, and it is complete or some round is possible.
pub record IsGoing (in_cksum atoi : List ℕ → ℕ) (calloc : ℕ → ℕ → Bool) (argv : List (List ℕ))
    (open_file : List ℕ → Option (List ℕ)) (establishment : Received) (byte : ℕ) (file : List ℕ)
    (t : System) : Type 0 where
  pub session : Session
  pub is_live : t ≡ live session
  pub goes_on :
      IsComplete file session
      ⊎ CanGoOn in_cksum atoi calloc argv open_file establishment byte session

module _ (in_cksum atoi : List ℕ → ℕ) (calloc : ℕ → ℕ → Bool) {argv : List (List ℕ)}
    (open_file : List ℕ → Option (List ℕ)) (establishment : Received) {file : List ℕ} {count : ℕ}
    (fits : Fits atoi argv file count) (socket byte : ℕ) where
  begun-Joined :
      2 ≤ atoi (arg argv 3)
      → Joined in_cksum (atoi (arg argv 4)) file count byte (begun atoi argv socket file)
  unfolding new_window
  begun-Joined two = record {
    acked = 1;
    ahead = 0;
    serves = record {
      at = (opened-Sends in_cksum atoi fits, refl);
      two = two;
      no_retry = refl;
      no_eof_retry = refl;
    };
    receives = ready_client-Receives in_cksum atoi calloc open_file socket fits;
    in_word = omega arith;
    on_way = refl;
    ahead_is = refl;
    answers = tt;
    answers_to = refl;
  }

  begun-work : work count (begun atoi argv socket file) ≤ 14 * (count + 1) + 2
  unfolding new_window weight
  begun-work = omega arith

  -- What holds after so many rounds.
  pub Run-begun :
      {t : System} {k : ℕ}
      → IsChecksum in_cksum
      → IsBytes file
      → byte < 256
      → 2 ≤ atoi (arg argv 3)
      → Run in_cksum atoi calloc argv open_file establishment byte
          (live (begun atoi argv socket file))
          k
          t
      → JoinedSystem in_cksum (atoi (arg argv 4)) file count byte t k (14 * (count + 1) + 2)
  Run-begun ck bytes small two run =
      Run-Joined in_cksum atoi calloc argv open_file establishment ck fits.fills
        (Fits-Cuts atoi fits) bytes small (14 * (count + 1) + 2)
        (begun-Joined two, omega (arith, begun-work)) run

  -- A session that is joined goes on, within the bound.
  JoinedSystem-IsGoing :
      (t : System) (k total : ℕ)
      → JoinedSystem in_cksum (atoi (arg argv 4)) file count byte t k total
      → (k ≤ total) × IsGoing in_cksum atoi calloc argv open_file establishment byte file t
  JoinedSystem-IsGoing (live s) k total (joined, to) = (
    omega (arith, to),
    record {
      session = s;
      is_live = refl;
      goes_on =
          JoinedAt-CanGoOn in_cksum atoi calloc argv open_file establishment (atoi (arg argv 4))
            file count byte s s.receiver refl joined;
    },
  )
  JoinedSystem-IsGoing failed k total j = absurd j

  -- Let in_cksum be a checksum, let the client's arguments name a buffer size of 1 to 1400, by
  -- which a file of bytes makes count packets, and a window size of at least 2, and let count, the
  -- window size and 3 together be below 2^32. Let a session begin when the server has opened the
  -- file and the client waits for its data, with a queue of datagrams in each direction that loses
  -- nothing and keeps the order; let a program that polls take the first datagram of its queue and
  -- never time out, let no read fail, and let one byte of the server's stack stay what it is.
  -- Then, however the rounds of the two programs interleave, there are at most 14 * (count + 1) +
  -- 2 of them, no program has undefined behaviour, the server does not exit, and after any of them
  -- either the server is in DONE, the client has ended with code 0 and its disk has exactly the
  -- file, or one more round is possible.
  pub Run-IsGoing :
      {t : System} {k : ℕ}
      → IsChecksum in_cksum
      → IsBytes file
      → byte < 256
      → 2 ≤ atoi (arg argv 3)
      → Run in_cksum atoi calloc argv open_file establishment byte
          (live (begun atoi argv socket file))
          k
          t
      → (k ≤ 14 * (count + 1) + 2)
        × IsGoing in_cksum atoi calloc argv open_file establishment byte file t
  Run-IsGoing {t} {k} ck bytes small two run =
      JoinedSystem-IsGoing t k _ (Run-begun ck bytes small two run)

  -- The windows of a session in which the client still runs.
  Joined-agree :
      (s : Session) (st : Rcopy.State) (c : Client)
      → JoinedAt in_cksum (atoi (arg argv 4)) file count byte (running st c) s
      → (st ≡ Rcopy.State.recv_data)
        × (s.server.window.lower ≤ c.expected)
        × (c.expected ≤ s.server.window.current)
        × (s.server.window.current ≤ s.server.window.lower + s.server.window.size)
        × (length s.to_client ≤ s.server.window.size)
        × (s.disk ≡ delivered (cut (atoi (arg argv 4)) file count) (c.expected - 1))
  Joined-agree s Rcopy.State.recv_data c tr =
      let sends =
        ServerAt-Sends in_cksum (atoi (arg argv 4)) file count s.server_state s.server tr.acked
          tr.serves.at in
      let low = Serves-lower in_cksum tr.serves in
      (
        refl,
        omega (arith, low, tr.answers_to),
        omega (arith, tr.ahead_is),
        sends.window_bounded.below,
        omega (
          arith,
          low,
          tr.answers_to,
          tr.ahead_is,
          sends.window_bounded.below,
          ap length tr.on_way,
          length-stretch in_cksum (atoi (arg argv 4)) file count byte c.expected tr.ahead,
        ),
        tr.receives.known.disk,
      )
  Joined-agree s Rcopy.State.start_state c j = absurd j
  Joined-agree s Rcopy.State.filename c j = absurd j
  Joined-agree s Rcopy.State.file_ok c j = absurd j
  Joined-agree s Rcopy.State.buffer c j = absurd j
  Joined-agree s Rcopy.State.flush c j = absurd j
  Joined-agree s Rcopy.State.done c j = absurd j
  Joined-agree s Rcopy.State.wait_file_ack c j = absurd j

  -- Let in_cksum be a checksum, let the client's arguments name a buffer size of 1 to 1400, by
  -- which a file of bytes makes count packets, and a window size of at least 2, and let count, the
  -- window size and 3 together be below 2^32. Let a session begin when the server has opened the
  -- file and the client waits for its data, with a queue of datagrams in each direction that loses
  -- nothing and keeps the order; let a program that polls take the first datagram of its queue and
  -- never time out, let no read fail, and let one byte of the server's stack stay what it is.
  -- Then, after any number of rounds in any order, as long as the client runs it is in RECV_DATA,
  -- the number that it expects lies from the lower end of the server's window to the window's
  -- current number, that is at most a window size after the lower end, no more than a window size
  -- of datagrams is on the way to the client, and its disk has exactly the payloads of the packets
  -- before the one that it expects.
  pub Run-agree :
      {s : Session} {k : ℕ}
      → IsChecksum in_cksum
      → IsBytes file
      → byte < 256
      → 2 ≤ atoi (arg argv 3)
      → Run in_cksum atoi calloc argv open_file establishment byte
          (live (begun atoi argv socket file))
          k
          (live s)
      → (st : Rcopy.State) (c : Client) → s.receiver ≡ running st c
      → (st ≡ Rcopy.State.recv_data)
        × (s.server.window.lower ≤ c.expected)
        × (c.expected ≤ s.server.window.current)
        × (s.server.window.current ≤ s.server.window.lower + s.server.window.size)
        × (length s.to_client ≤ s.server.window.size)
        × (s.disk ≡ delivered (cut (atoi (arg argv 4)) file count) (c.expected - 1))
  Run-agree {s} ck bytes small two run st c at = Joined-agree s st c (
      subst (λ receiver. JoinedAt in_cksum (atoi (arg argv 4)) file count byte receiver s) at
        (Run-begun ck bytes small two run).0)
