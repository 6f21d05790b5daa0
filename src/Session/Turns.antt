-- ===== src/Session/Turns.antt =====
-- The rounds of the server in a session, in the state that it is in.
use cpe464_a.Base.{
  ℕ, ◌+◌, ◌≤◌, ◌≡◌, ◌⊎◌, inl, inr, Bool, true, false, Option, List, ◌∷◌, arith, refl, sym, subst,
}
use mathlib.Core.Bool.{false≢true}
use cpe464_a.Checksum.{IsChecksum}
use cpe464_a.Flag
use cpe464_a.Pdu.{Received}
use cpe464_a.Server.{State, Server}
use cpe464_a.Service.{Fills}
use cpe464_a.Session.{Session, System, reads, hears, server_polls}
use cpe464_a.Session.Packets.{IsAnswer}
use cpe464_a.Session.Serving.{Serves}
use cpe464_a.Session.Rounds.{
  Round, LastRound, round, send_data-Round, wait_on_ack-Round, wait_on_ack-LastRound,
  wait_on_eof_ack-LastRound,
}

pub hears_at :
    (st : State) → server_polls st ≡ true → (st ≡ State.wait_on_ack) ⊎ (st ≡ State.wait_on_eof_ack)
unfolding server_polls
hears_at State.wait_on_ack waits = inl refl
hears_at State.wait_on_eof_ack waits = inr refl
hears_at State.send_data waits = absurd (false≢true waits)
hears_at State.start waits = absurd (false≢true waits)
hears_at State.filename waits = absurd (false≢true waits)
hears_at State.done waits = absurd (false≢true waits)
hears_at State.timeout_on_ack waits = absurd (false≢true waits)
hears_at State.timeout_on_eof_ack waits = absurd (false≢true waits)

module _ (in_cksum : List ℕ → ℕ) {n : ℕ} {file : List ℕ} {count : ℕ} where
  -- A server that has not finished and does not poll is in SEND_DATA.
  pub moves_at :
      (st : State) (sr : Server) (acked : ℕ)
      → Serves in_cksum n file count st sr acked
      → server_polls st ≡ false
      → st ≡ State.send_data
  unfolding server_polls
  moves_at State.send_data sr acked serves waits = refl
  moves_at State.wait_on_ack sr acked serves waits = absurd (false≢true (sym waits))
  moves_at State.wait_on_eof_ack sr acked serves waits = absurd (false≢true (sym waits))
  moves_at State.start sr acked serves waits = absurd serves.at
  moves_at State.filename sr acked serves waits = absurd serves.at
  moves_at State.done sr acked serves waits = absurd serves.at
  moves_at State.timeout_on_ack sr acked serves waits = absurd serves.at
  moves_at State.timeout_on_eof_ack sr acked serves waits = absurd serves.at

module _ (in_cksum : List ℕ → ℕ) (ck : IsChecksum in_cksum) (calloc : ℕ → ℕ → Bool)
    (open_file : List ℕ → Option (List ℕ)) (establishment : Received) {n : ℕ} {file : List ℕ}
    {count : ℕ} (fl : Fills n file count) (byte : ℕ) (s : Session) (acked : ℕ)
    (serves : Serves in_cksum n file count s.server_state s.server acked) where
  pub server_moves-Round :
      server_polls s.server_state ≡ false
      → Round in_cksum n file count byte s s.to_server acked
          (round in_cksum calloc open_file establishment s s.to_server s.server_state (reads byte))
  server_moves-Round waits =
      let at = moves_at in_cksum s.server_state s.server acked serves waits in
      subst
        (λ st.
          Round in_cksum n file count byte s s.to_server acked
            (round in_cksum calloc open_file establishment s s.to_server st (reads byte)))
        (sym at)
        (send_data-Round in_cksum ck calloc open_file establishment fl byte s acked
          (subst (λ st. Serves in_cksum n file count st s.server acked) at serves) at)

  module _ (stack datagram : List ℕ) (rest : List (List ℕ))
      (waits : server_polls s.server_state ≡ true) (queue : s.to_server ≡ datagram ∷ rest) where
    abbrev heard : State → System
    heard st = round in_cksum calloc open_file establishment s rest st (hears byte stack datagram)

    pub server_hears-Round :
        IsAnswer in_cksum Flag.rr (acked + 1) datagram
        → acked + 1 ≤ s.server.window.current
        → acked ≤ count
        → Round in_cksum n file count byte s rest (acked + 1) (heard s.server_state)
    server_hears-Round is sent_it to = elim (hears_at s.server_state waits) [
      | inl at ↦
          subst (λ st. Round in_cksum n file count byte s rest (acked + 1) (heard st)) (sym at)
            (wait_on_ack-Round in_cksum ck calloc open_file establishment fl byte s acked stack
              datagram rest (subst (λ st. Serves in_cksum n file count st s.server acked) at serves)
              at queue is sent_it to)
      | inr at ↦ absurd (
          omega
            (arith, (subst (λ st. Serves in_cksum n file count st s.server acked) at serves).at.2))
    ]

    pub server_hears-LastRound :
        IsAnswer in_cksum Flag.eof_ack (count + 2) datagram
        → LastRound in_cksum n file count byte s rest (heard s.server_state)
    server_hears-LastRound is = elim (hears_at s.server_state waits) [
      | inl at ↦
          subst (λ st. LastRound in_cksum n file count byte s rest (heard st)) (sym at)
            (wait_on_ack-LastRound in_cksum ck calloc open_file establishment fl byte s acked stack
              datagram rest (subst (λ st. Serves in_cksum n file count st s.server acked) at serves)
              at queue is)
      | inr at ↦
          subst (λ st. LastRound in_cksum n file count byte s rest (heard st)) (sym at)
            (wait_on_eof_ack-LastRound in_cksum ck calloc open_file establishment fl byte s acked
              stack datagram rest
              (subst (λ st. Serves in_cksum n file count st s.server acked) at serves) at queue is)
    ]
