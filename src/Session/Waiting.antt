-- ===== src/Session/Waiting.antt =====
-- Which program of a session can go on.
use cpe464_a.Base.{
  ℕ, zero, suc, ◌<◌, ◌≡◌, ◌⊎◌, inl, inr, Bool, Bool-cases, true, Option, List, [], ◌∷◌, ◌++◌,
  length, arith, ap, refl, ◌∙◌, subst, ==→eq,
}
use cpe464_a.Pdu.{Received}
use cpe464_a.Window.{window_full}
use cpe464_a.Rcopy.{Client}
use cpe464_a.Rcopy as Rcopy
use cpe464_a.Server.{State}
use cpe464_a.Server.Run.{is_done}
use cpe464_a.Service.{Closed}
use cpe464_a.Session.{
  Session, System, Receiver, running, ended, Step, server_moves, server_hears, client_hears,
  server_polls, client_polls,
}
use cpe464_a.Session.Packets.{stretch}
use cpe464_a.Session.Serving.{Serves}
use cpe464_a.Session.Turns.{moves_at, hears_at}
use cpe464_a.Session.Joined.{Transferring, Ending, JoinedAt}

-- Both programs have ended, and the disk has the file.
pub record IsComplete (file : List ℕ) (s : Session) : Type 0 where
  pub server_done : s.server_state ≡ State.done
  pub receiver_ended : s.receiver ≡ ended 0
  pub whole : s.disk ≡ file

not_empty :
    (queue : List (List ℕ))
    → 0 < length queue
    → (d : List ℕ) × (rest : List (List ℕ)) × (queue ≡ d ∷ rest)
not_empty [] some_left = absurd (omega arith)
not_empty (d ∷ rest) some_left = (d, rest, refl)

module _ (in_cksum atoi : List ℕ → ℕ) (calloc : ℕ → ℕ → Bool) (argv : List (List ℕ))
    (open_file : List ℕ → Option (List ℕ)) (establishment : Received) (byte : ℕ) (s : Session) where
  abbrev pub CanGoOn : Type 0
  CanGoOn = (t : System) × Step in_cksum atoi calloc argv open_file establishment byte s t

module _ (in_cksum atoi : List ℕ → ℕ) (calloc : ℕ → ℕ → Bool) (argv : List (List ℕ))
    (open_file : List ℕ → Option (List ℕ)) (establishment : Received) (n : ℕ) (file : List ℕ)
    (count byte : ℕ) (s : Session) where
  abbrev pub GoesOn : Type 0
  GoesOn = CanGoOn in_cksum atoi calloc argv open_file establishment byte s

  -- The server can go on if it does not wait, or if its queue has a datagram.
  server-CanGoOn :
      (acked : ℕ)
      → Serves in_cksum n file count s.server_state s.server acked
      → (server_polls s.server_state ≡ true → 0 < length s.to_server)
      → GoesOn
  unfolding is_done
  server-CanGoOn acked serves unless = elim (Bool-cases (server_polls s.server_state)) [
    | inl waits ↦
        let (datagram, rest, queue) = not_empty s.to_server (unless waits) in
        (_, server_hears [] datagram rest waits queue)
    | inr busy ↦ (
      _,
      server_moves busy (ap is_done (moves_at in_cksum s.server_state s.server acked serves busy)),
    )
  ]

  -- When nothing is on the way to the client, a server that waits has RRs to take.
  caught_up :
      (c : Client) (tr : Transferring in_cksum n file count byte c s)
      → tr.ahead ≡ 0
      → server_polls s.server_state ≡ true
      → 0 < length s.to_server
  unfolding window_full
  caught_up c tr none_ahead waits =
      let no_eof : Closed in_cksum n file count s.server → ⊥ = (λ closed. omega (
        arith, closed.current_is, closed.seq_is, tr.ahead_is, none_ahead, tr.receives.known.within,
      )) in
      elim (hears_at s.server_state waits) [
        | inl at ↦
            let serves =
              subst (λ st. Serves in_cksum n file count st s.server tr.acked) at tr.serves in
            elim serves.at.0.shut [
              | inl full ↦ omega (
                arith,
                ==→eq _ _ full,
                serves.at.0.sends.window_bounded.upper_is,
                serves.at.1,
                serves.two,
                tr.answers_to,
                tr.ahead_is,
                none_ahead,
                serves.at.0.sends.in_word,
                tr.receives.known.within,
              )
              | inr finished ↦ elim serves.at.0.sends.phase [
                | inl open_now ↦ absurd (omega (arith, finished, open_now.unfinished))
                | inr closed ↦ absurd (no_eof closed)
              ]
            ]
        | inr at ↦ absurd (
            no_eof
              (subst (λ st. Serves in_cksum n file count st s.server tr.acked) at tr.serves).at.1)
      ]

  Transferring-CanGoOn :
      (c : Client) (tr : Transferring in_cksum n file count byte c s)
      → s.receiver ≡ running Rcopy.State.recv_data c
      → (ahead : ℕ) → tr.ahead ≡ ahead
      → GoesOn
  unfolding client_polls
  Transferring-CanGoOn c tr at (suc left) ahead = (
    _,
    client_hears Rcopy.State.recv_data c [] _ _ at refl
        (tr.on_way ∙ ap (stretch in_cksum n file count byte c.expected) ahead),
  )
  Transferring-CanGoOn c tr at zero ahead = server-CanGoOn tr.acked tr.serves (caught_up c tr ahead)

  Ending-CanGoOn : Ending in_cksum n file count byte s → GoesOn
  Ending-CanGoOn e = server-CanGoOn e.acked e.serves (λ waits. rw e.queue (ends_some e.rrs))
    where
      ends_some : (rrs : List (List ℕ)) → 0 < length (rrs ++ (e.last ∷ []))
      ends_some [] = omega arith
      ends_some (rr ∷ rrs) = omega arith

  pub JoinedAt-CanGoOn :
      (receiver : Receiver)
      → s.receiver ≡ receiver
      → JoinedAt in_cksum n file count byte receiver s
      → IsComplete file s ⊎ GoesOn
  JoinedAt-CanGoOn (running Rcopy.State.recv_data c) at tr =
      inr (Transferring-CanGoOn c tr at tr.ahead refl)
  JoinedAt-CanGoOn (ended zero) at (whole, inl finished) =
      inl (record { server_done = finished; receiver_ended = at; whole = whole })
  JoinedAt-CanGoOn (ended zero) at (whole, inr e) = inr (Ending-CanGoOn e)
  JoinedAt-CanGoOn (running Rcopy.State.start_state c) at j = absurd j
  JoinedAt-CanGoOn (running Rcopy.State.filename c) at j = absurd j
  JoinedAt-CanGoOn (running Rcopy.State.file_ok c) at j = absurd j
  JoinedAt-CanGoOn (running Rcopy.State.buffer c) at j = absurd j
  JoinedAt-CanGoOn (running Rcopy.State.flush c) at j = absurd j
  JoinedAt-CanGoOn (running Rcopy.State.done c) at j = absurd j
  JoinedAt-CanGoOn (running Rcopy.State.wait_file_ack c) at j = absurd j
  JoinedAt-CanGoOn (ended (suc code)) at j = absurd j
