-- ===== src/Session/Keeping.antt =====
-- The rounds of the server, the joint invariant of a session and what is left to do.
use cpe464_a.Base.{
  ℕ, zero, suc, ◌+◌, ◌<◌, ◌≡◌, inl, inr, Bool, true, false, Option, List, [], ◌∷◌, ◌++◌, length,
  arith, ap, refl, sym, ◌∙◌, subst,
}
use mathlib.Core.Bool.{false≢true}
use mathlib.Core.List.{head-eq_of_cons-eq, tail-eq_of_cons-eq}
use cpe464_a.Checksum.{IsChecksum}
use cpe464_a.Flag
use cpe464_a.Pdu.{Received}
use cpe464_a.Rcopy.{Client}
use cpe464_a.Rcopy as Rcopy
use cpe464_a.Server.{State}
use cpe464_a.Server.Run.{is_done}
use cpe464_a.Service.{Fills}
use cpe464_a.Session.{
  Session, System, live, Receiver, running, ended, with_server, server_polls, work, reads, hears,
}
use cpe464_a.Session.Packets.{stretch-append, IsAnswer, AreRrs}
use cpe464_a.Session.Rounds.{Round, LastRound, round}
use cpe464_a.Session.Turns.{server_moves-Round, server_hears-Round, server_hears-LastRound}
use cpe464_a.Session.Joined.{Transferring, Ending, JoinedAt, Joined}

module _ (in_cksum : List ℕ → ℕ) (n : ℕ) (file : List ℕ) (count byte : ℕ) where
  -- The session goes on, joined, with less to do.
  pub record Goes (s : Session) (t : System) : Type 0 where
    pub next : Session
    pub is : t ≡ live next
    pub joined : Joined in_cksum n file count byte next
    pub lower : work count next < work count s

  module _ (s : Session) (rest : List (List ℕ)) (t : System) where
    -- A round of the server while the client receives, or after.
    pub Round-Transferring :
        {acked' : ℕ} {c : Client} (tr : Transferring in_cksum n file count byte c s)
        → s.receiver ≡ running Rcopy.State.recv_data c
        → Round in_cksum n file count byte s rest acked' t
        → AreRrs in_cksum (acked' + 1) rest
        → acked' + length rest ≡ c.expected
        → Goes s t
    Round-Transferring {acked'} {c} tr at r answers to = record {
      next = with_server s rest r.server_state r.server r.acts;
      is = r.is;
      joined =
          subst
            (λ receiver.
              JoinedAt in_cksum n file count byte receiver
                (with_server s rest r.server_state r.server r.acts))
            (sym at)
            (record {
              acked = acked';
              ahead = tr.ahead + r.moved.new;
              serves = r.moved.serves;
              receives = tr.receives;
              in_word = tr.in_word;
              on_way =
                  rw (tr.on_way, r.moved.sent_is)
                    (stretch-append in_cksum n file count byte c.expected tr.ahead
                      s.server.window.current r.moved.new tr.ahead_is);
              ahead_is = omega (arith, tr.ahead_is, r.moved.current_is);
              answers = answers;
              answers_to = to;
            });
      lower = r.lower;
    }

    pub Round-Ending :
        {acked' : ℕ} (e : Ending in_cksum n file count byte s) (rrs : List (List ℕ))
        → s.receiver ≡ ended 0
        → s.disk ≡ file
        → Round in_cksum n file count byte s rest acked' t
        → rest ≡ rrs ++ (e.last ∷ [])
        → AreRrs in_cksum (acked' + 1) rrs
        → acked' + length rrs ≡ count + 1
        → Goes s t
    Round-Ending {acked'} e rrs at whole r queue answers to = record {
      next = with_server s rest r.server_state r.server r.acts;
      is = r.is;
      joined =
          subst
            (λ receiver.
              JoinedAt in_cksum n file count byte receiver
                (with_server s rest r.server_state r.server r.acts))
            (sym at)
            (
              whole,
              inr (record {
                acked = acked';
                rrs = rrs;
                last = e.last;
                serves = r.moved.serves;
                closed = r.moved.still_closed e.closed;
                queue = queue;
                answers = answers;
                answers_to = to;
                last_is = e.last_is;
              }),
            );
      lower = r.lower;
    }

    pub LastRound-Goes :
        s.receiver ≡ ended 0
        → s.disk ≡ file
        → LastRound in_cksum n file count byte s rest t
        → Goes s t
    LastRound-Goes at whole r = record {
      next = with_server s rest State.done r.server r.acts;
      is = r.is;
      joined =
          subst
            (λ receiver.
              JoinedAt in_cksum n file count byte receiver
                (with_server s rest State.done r.server r.acts))
            (sym at) (whole, inl refl);
      lower = r.lower;
    }

module _ (in_cksum : List ℕ → ℕ) (ck : IsChecksum in_cksum) (calloc : ℕ → ℕ → Bool)
    (open_file : List ℕ → Option (List ℕ)) (establishment : Received) {n : ℕ} {file : List ℕ}
    {count : ℕ} (fl : Fills n file count) (byte : ℕ) (s : Session) where
  -- The server goes on by itself.
  pub server_moves-Goes :
      (receiver : Receiver)
      → s.receiver ≡ receiver
      → JoinedAt in_cksum n file count byte receiver s
      → server_polls s.server_state ≡ false
      → is_done s.server_state ≡ false
      → Goes in_cksum n file count byte s
          (round in_cksum calloc open_file establishment s s.to_server s.server_state (reads byte))
  unfolding is_done
  server_moves-Goes (running Rcopy.State.recv_data c) at tr waits busy =
      Round-Transferring in_cksum n file count byte s s.to_server _ tr at
        (server_moves-Round in_cksum ck calloc open_file establishment fl byte s tr.acked tr.serves
          waits)
        tr.answers tr.answers_to
  server_moves-Goes (ended zero) at (whole, inr e) waits busy =
      Round-Ending in_cksum n file count byte s s.to_server _ e e.rrs at whole
        (server_moves-Round in_cksum ck calloc open_file establishment fl byte s e.acked e.serves
          waits)
        e.queue e.answers e.answers_to
  server_moves-Goes (ended zero) at (whole, inl finished) waits busy =
      absurd (false≢true (sym busy ∙ ap is_done finished))
  server_moves-Goes (running Rcopy.State.start_state c) at j waits busy = absurd j
  server_moves-Goes (running Rcopy.State.filename c) at j waits busy = absurd j
  server_moves-Goes (running Rcopy.State.file_ok c) at j waits busy = absurd j
  server_moves-Goes (running Rcopy.State.buffer c) at j waits busy = absurd j
  server_moves-Goes (running Rcopy.State.flush c) at j waits busy = absurd j
  server_moves-Goes (running Rcopy.State.done c) at j waits busy = absurd j
  server_moves-Goes (running Rcopy.State.wait_file_ack c) at j waits busy = absurd j
  server_moves-Goes (ended (suc code)) at j waits busy = absurd j

  module _ (stack datagram : List ℕ) (rest : List (List ℕ))
      (waits : server_polls s.server_state ≡ true) (queue : s.to_server ≡ datagram ∷ rest) where
    abbrev heard : System
    heard =
        round in_cksum calloc open_file establishment s rest s.server_state
          (hears byte stack datagram)

    server_hears-Transferring :
        (c : Client)
        → s.receiver ≡ running Rcopy.State.recv_data c
        → Transferring in_cksum n file count byte c s
        → Goes in_cksum n file count byte s heard
    server_hears-Transferring c at tr =
        let (is, more) = subst (AreRrs in_cksum (tr.acked + 1)) queue tr.answers in
        Round-Transferring in_cksum n file count byte s rest _ tr at
          (server_hears-Round in_cksum ck calloc open_file establishment fl byte s tr.acked
            tr.serves stack datagram rest waits queue is
            (omega (arith, ap length queue, tr.answers_to, tr.ahead_is))
            (omega (arith, ap length queue, tr.answers_to, tr.receives.known.within)))
          more (omega (arith, ap length queue, tr.answers_to))

    server_hears-Ending :
        (e : Ending in_cksum n file count byte s) (rrs : List (List ℕ))
        → s.receiver ≡ ended 0
        → s.disk ≡ file
        → datagram ∷ rest ≡ rrs ++ (e.last ∷ [])
        → AreRrs in_cksum (e.acked + 1) rrs
        → e.acked + length rrs ≡ count + 1
        → Goes in_cksum n file count byte s heard
    server_hears-Ending e [] at whole is answers to =
        LastRound-Goes in_cksum n file count byte s rest _ at whole (
          server_hears-LastRound in_cksum ck calloc open_file establishment fl byte s e.acked
            e.serves stack datagram rest waits queue
            (subst (IsAnswer in_cksum Flag.eof_ack (count + 2)) (sym (head-eq_of_cons-eq is))
              e.last_is))
    server_hears-Ending e (rr ∷ rrs) at whole is answers to =
        Round-Ending in_cksum n file count byte s rest _ e rrs at whole
          (server_hears-Round in_cksum ck calloc open_file establishment fl byte s e.acked e.serves
            stack datagram rest waits queue
            (subst (IsAnswer in_cksum Flag.rr (e.acked + 1)) (sym (head-eq_of_cons-eq is))
              answers.0)
            (omega (arith, e.closed.current_is, e.closed.seq_is, to)) (omega (arith, to)))
          (tail-eq_of_cons-eq is) answers.1 (omega (arith, to))

    -- The server takes the first datagram of its queue.
    pub server_hears-Goes :
        (receiver : Receiver)
        → s.receiver ≡ receiver
        → JoinedAt in_cksum n file count byte receiver s
        → Goes in_cksum n file count byte s heard
    unfolding server_polls
    server_hears-Goes (running Rcopy.State.recv_data c) at tr = server_hears-Transferring c at tr
    server_hears-Goes (ended zero) at (whole, inr e) =
        server_hears-Ending e e.rrs at whole (sym queue ∙ e.queue) e.answers e.answers_to
    server_hears-Goes (ended zero) at (whole, inl finished) =
        absurd (false≢true (ap server_polls (sym finished) ∙ waits))
    server_hears-Goes (running Rcopy.State.start_state c) at j = absurd j
    server_hears-Goes (running Rcopy.State.filename c) at j = absurd j
    server_hears-Goes (running Rcopy.State.file_ok c) at j = absurd j
    server_hears-Goes (running Rcopy.State.buffer c) at j = absurd j
    server_hears-Goes (running Rcopy.State.flush c) at j = absurd j
    server_hears-Goes (running Rcopy.State.done c) at j = absurd j
    server_hears-Goes (running Rcopy.State.wait_file_ack c) at j = absurd j
    server_hears-Goes (ended (suc code)) at j = absurd j
