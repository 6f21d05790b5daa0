-- ===== src/Session/Joined.antt =====
-- The joint invariant of a session: where the two programs are, and what is on its way.
use cpe464_a.Base.{ℕ, zero, suc, ◌+◌, ◌^◌, ◌<◌, ◌≡◌, ◌⊎◌, List, [], ◌∷◌, ◌++◌, length}
use cpe464_a.Flag
use cpe464_a.Rcopy.{Client}
use cpe464_a.Rcopy as Rcopy
use cpe464_a.Delivery.{Receives}
use cpe464_a.Server.{State}
use cpe464_a.Server.Cutting.{cut}
use cpe464_a.Service.{Closed}
use cpe464_a.Session.{Session, Receiver, running, ended}
use cpe464_a.Session.Packets.{stretch, IsAnswer, AreRrs}
use cpe464_a.Session.Serving.{Serves}

module _ (in_cksum : List ℕ → ℕ) (n : ℕ) (file : List ℕ) (count byte : ℕ) where
  -- The client receives. On the way to it are the packets from the one that it expects up to the
  -- server's current one; on the way back are the RRs that the server has not taken.
  pub record Transferring (c : Client) (s : Session) : Type 0 where
    pub acked : ℕ
    pub ahead : ℕ
    pub serves : Serves in_cksum n file count s.server_state s.server acked
    pub receives : Receives (cut n file count) c s.disk
    pub in_word : c.client_seq_num < 2 ^ 32
    pub on_way : s.to_client ≡ stretch in_cksum n file count byte c.expected ahead
    pub ahead_is : c.expected + ahead ≡ s.server.window.current
    pub answers : AreRrs in_cksum (acked + 1) s.to_server
    pub answers_to : acked + length s.to_server ≡ c.expected

  -- The client has ended; its EOF_ACK is the last datagram on the way to the server.
  pub record Ending (s : Session) : Type 0 where
    pub acked : ℕ
    pub rrs : List (List ℕ)
    pub last : List ℕ
    pub serves : Serves in_cksum n file count s.server_state s.server acked
    pub closed : Closed in_cksum n file count s.server
    pub queue : s.to_server ≡ rrs ++ (last ∷ [])
    pub answers : AreRrs in_cksum (acked + 1) rrs
    pub answers_to : acked + length rrs ≡ count + 1
    pub last_is : IsAnswer in_cksum Flag.eof_ack (count + 2) last

  abbrev pub JoinedAt : Receiver → Session → Type 0
  JoinedAt (running Rcopy.State.recv_data c) s = Transferring c s
  JoinedAt (running st c) s = ⊥
  JoinedAt (ended zero) s = (s.disk ≡ file) × ((s.server_state ≡ State.done) ⊎ Ending s)
  JoinedAt (ended (suc code)) s = ⊥

  abbrev pub Joined : Session → Type 0
  Joined s = JoinedAt s.receiver s
