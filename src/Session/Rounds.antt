-- ===== src/Session/Rounds.antt =====
-- The rounds of the server in a session, whether the client still receives or has ended.
use cpe464_a.Base.{
  ℕ, ◌+◌, ◌*◌, ◌≤◌, ◌<◌, ◌≡◌, inl, inr, Bool, Option, List, [], ◌∷◌, length, arith, ap,
  length-append,
}
use cpe464_a.Checksum.{IsChecksum}
use cpe464_a.Flag
use cpe464_a.Process.{Action, sent, send}
use cpe464_a.Pdu.{Received}
use cpe464_a.Server.{State, Server, Answers}
use cpe464_a.Server.Run.{step}
use cpe464_a.Service.{Fills}
use cpe464_a.Session.{Session, System, live, reads, hears, with_server, after_server, weight, work}
use cpe464_a.Session.Packets.{length-stretch, IsAnswer}
use cpe464_a.Session.Serving.{Serves, Moved, ServerAt-Sends, send_data-moves}
use cpe464_a.Session.Hearing.{wait_on_ack-rr, wait_on_ack-eof_ack, wait_on_eof_ack-eof_ack}

module _ (in_cksum : List ℕ → ℕ) {n : ℕ} {file : List ℕ} {count : ℕ} where
  pub current-le :
      {st : State} {sr : Server} {acked : ℕ}
      → Serves in_cksum n file count st sr acked
      → sr.window.current ≤ count + 2
  current-le {st} {sr} {acked} serves =
      let sends = ServerAt-Sends in_cksum n file count st sr acked serves.at in
      elim sends.phase [
        | inl open_now ↦ omega (arith, open_now.current_is, sends.to_count)
        | inr closed ↦ omega (arith, closed.current_is, sends.to_count)
      ]

module _ (in_cksum : List ℕ → ℕ) (n : ℕ) (file : List ℕ) (count byte : ℕ) where
  -- A round of the server that takes `acked` to `acked'` and leaves `rest` of its queue.
  pub record Round (s : Session) (rest : List (List ℕ)) (acked' : ℕ) (t : System) : Type 0 where
    pub server_state : State
    pub server : Server
    pub acts : List Action
    pub is : t ≡ live (with_server s rest server_state server acts)
    pub moved : Moved in_cksum n file count byte s.server acked' server_state server acts
    pub lower : work count (with_server s rest server_state server acts) < work count s

  -- A round of the server that is its last one.
  pub record LastRound (s : Session) (rest : List (List ℕ)) (t : System) : Type 0 where
    pub server : Server
    pub acts : List Action
    pub is : t ≡ live (with_server s rest State.done server acts)
    pub lower : work count (with_server s rest State.done server acts) < work count s

module _ (in_cksum : List ℕ → ℕ) (calloc : ℕ → ℕ → Bool) (open_file : List ℕ → Option (List ℕ))
    (establishment : Received) where
  -- The round of the server in a state, with or without a datagram.
  abbrev pub round : Session → List (List ℕ) → State → Answers → System
  round s rest st a =
      after_server s rest (step in_cksum calloc open_file establishment st s.server a)

module _ (in_cksum : List ℕ → ℕ) (ck : IsChecksum in_cksum) (calloc : ℕ → ℕ → Bool)
    (open_file : List ℕ → Option (List ℕ)) (establishment : Received) {n : ℕ} {file : List ℕ}
    {count : ℕ} (fl : Fills n file count) (byte : ℕ) where
  Moved-work :
      (s : Session) (rest : List (List ℕ)) {acked' : ℕ} {st' : State} {sr' : Server}
      {acts : List Action}
      → (m : Moved in_cksum n file count byte s.server acked' st' sr' acts)
      → 12 * length rest + weight st' < 12 * length s.to_server + weight s.server_state + m.new
      → work count (with_server s rest st' sr' acts) < work count s
  Moved-work s rest {acked'} {st'} {sr'} {acts} m less = omega (
    arith,
    m.current_is,
    current-le in_cksum m.serves,
    length-append s.to_client (sent acts),
    ap length m.sent_is,
    length-stretch in_cksum n file count byte s.server.window.current m.new,
  )

  pub send_data-Round :
      (s : Session) (acked : ℕ)
      → Serves in_cksum n file count State.send_data s.server acked
      → s.server_state ≡ State.send_data
      → Round in_cksum n file count byte s s.to_server acked
          (round in_cksum calloc open_file establishment s s.to_server State.send_data (reads byte))
  unfolding step weight
  send_data-Round s acked serves at =
      let (st', sr', acts, runs, moved, which) = send_data-moves in_cksum fl byte serves in
      record {
        server_state = st';
        server = sr';
        acts = acts;
        is = ap (after_server s s.to_server) runs;
        moved = moved;
        lower = Moved-work s s.to_server moved (elim which [
          | inl waits ↦ omega (arith, ap weight waits, ap weight at)
          | inr (again, one) ↦ omega (arith, ap weight again, ap weight at, one)
        ]);
      }

  pub wait_on_ack-Round :
      (s : Session) (acked : ℕ) (stack datagram : List ℕ) (rest : List (List ℕ))
      → Serves in_cksum n file count State.wait_on_ack s.server acked
      → s.server_state ≡ State.wait_on_ack
      → s.to_server ≡ datagram ∷ rest
      → IsAnswer in_cksum Flag.rr (acked + 1) datagram
      → acked + 1 ≤ s.server.window.current
      → acked ≤ count
      → Round in_cksum n file count byte s rest (acked + 1) (
          round in_cksum calloc open_file establishment s rest State.wait_on_ack
            (hears byte stack datagram))
  unfolding step weight
  wait_on_ack-Round s acked stack datagram rest serves at queue is sent_it to =
      let (st', sr', runs, moved, which) =
        wait_on_ack-rr in_cksum ck fl byte s.server acked stack datagram serves is sent_it to in
      record {
        server_state = st';
        server = sr';
        acts = [];
        is = ap (after_server s rest) runs;
        moved = moved;
        lower = Moved-work s rest moved (elim which [
          | inl again ↦ omega (arith, ap weight again, ap weight at, ap length queue)
          | inr ends ↦ omega (arith, ap weight ends, ap weight at, ap length queue)
        ]);
      }

  pub wait_on_ack-LastRound :
      (s : Session) (acked : ℕ) (stack datagram : List ℕ) (rest : List (List ℕ))
      → Serves in_cksum n file count State.wait_on_ack s.server acked
      → s.server_state ≡ State.wait_on_ack
      → s.to_server ≡ datagram ∷ rest
      → IsAnswer in_cksum Flag.eof_ack (count + 2) datagram
      → LastRound in_cksum n file count byte s rest (
          round in_cksum calloc open_file establishment s rest State.wait_on_ack
            (hears byte stack datagram))
  unfolding step weight
  wait_on_ack-LastRound s acked stack datagram rest serves at queue is = record {
    server = s.server;
    acts = [];
    is = ap (after_server s rest) (
        wait_on_ack-eof_ack in_cksum ck fl byte s.server (count + 2) stack datagram serves.no_retry
          is (omega (arith, serves.at.0.sends.in_word)));
    lower = omega (arith, ap weight at, ap length queue, length-append s.to_client []);
  }

  pub wait_on_eof_ack-LastRound :
      (s : Session) (acked : ℕ) (stack datagram : List ℕ) (rest : List (List ℕ))
      → Serves in_cksum n file count State.wait_on_eof_ack s.server acked
      → s.server_state ≡ State.wait_on_eof_ack
      → s.to_server ≡ datagram ∷ rest
      → IsAnswer in_cksum Flag.eof_ack (count + 2) datagram
      → LastRound in_cksum n file count byte s rest (
          round in_cksum calloc open_file establishment s rest State.wait_on_eof_ack
            (hears byte stack datagram))
  unfolding step weight
  wait_on_eof_ack-LastRound s acked stack datagram rest serves at queue is =
      let (again, runs) =
        wait_on_eof_ack-eof_ack in_cksum ck fl byte s.server (count + 2) stack datagram serves.at.0
          serves.no_eof_retry is (omega (arith, serves.at.0.in_word)) in
      record {
        server = s.server;
        acts = send again ∷ [];
        is = ap (after_server s rest) runs;
        lower =
            omega (arith, ap weight at, ap length queue, length-append s.to_client (again ∷ []));
      }
