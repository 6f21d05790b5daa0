-- ===== src/Session/Answering.antt =====
-- The rounds of the client in a session.
use cpe464_a.Base.{
  ℕ, ◌+◌, ◌≤◌, ◌<◌, ◌≡◌, inl, inr, Bool, List, [], ◌∷◌, ◌++◌, length, arith, ap, sym, ◌∙◌,
  length-append,
}
use native.Mathlib.Decide.{dec_lt}
use cpe464_a.Checksum.{IsBytes, IsChecksum}
use cpe464_a.Process.{sent, arrived}
use cpe464_a.Rcopy.{Client}
use cpe464_a.Rcopy as Rcopy
use cpe464_a.Rcopy.Run as ClientRun
use cpe464_a.Delivery.Transfer.{answer, stream_packet}
use cpe464_a.Server.Cutting.{cut, Cuts}
use cpe464_a.Service.{Closed}
use cpe464_a.Session.{Session, System, running, ended, with_receiver, after_client}
use cpe464_a.Session.Packets.{stretch, stretch-head, AreRrs-next}
use cpe464_a.Session.Serving.{ServerAt-Sends}
use cpe464_a.Session.Receiving.{recv_data-takes, recv_data-ends}
use cpe464_a.Session.Joined.{Transferring, JoinedAt}
use cpe464_a.Session.Keeping.{Goes}

module _ (in_cksum : List ℕ → ℕ) {n : ℕ} {file : List ℕ} {count byte : ℕ} {c : Client} {s : Session}
    (tr : Transferring in_cksum n file count byte c s) where
  -- While EOF is on the way, the server has sent it.
  Transferring-Closed :
      c.expected ≡ count + 1 → 0 < tr.ahead → Closed in_cksum n file count s.server
  Transferring-Closed last some_ahead =
      let sends =
        ServerAt-Sends in_cksum n file count s.server_state s.server tr.acked tr.serves.at in
      elim sends.phase [
        | inr closed ↦ closed
        | inl open_now ↦ absurd (omega (arith, tr.ahead_is, open_now.current_is, sends.to_count))
      ]

module _ (in_cksum atoi : List ℕ → ℕ) (calloc : ℕ → ℕ → Bool) (argv : List (List ℕ))
    (ck : IsChecksum in_cksum) {n : ℕ} {file : List ℕ} {count byte : ℕ} (cuts : Cuts n file count)
    (bytes : IsBytes file) (small : byte < 256) (s : Session) (stack datagram : List ℕ)
    (rest : List (List ℕ)) (queue : s.to_client ≡ datagram ∷ rest) where
  abbrev heard : Rcopy.State → Client → System
  heard st c =
      after_client s rest
        (ClientRun.step in_cksum atoi calloc argv st c (answer (arrived stack datagram)))

  abbrev due : Client → List ℕ
  due c = stream_packet in_cksum (cut n file count) (byte ∷ []) c.expected

  module _ (c : Client) (tr : Transferring in_cksum n file count byte c s) (left : ℕ)
      (ahead : tr.ahead ≡ left + 1) (first : datagram ≡ due c)
      (others : rest ≡ stretch in_cksum n file count byte (c.expected + 1) left) where
    takes-Goes :
        c.expected ≤ count → Goes in_cksum n file count byte s (heard Rcopy.State.recv_data c)
    takes-Goes to =
        let (c', acts, back, runs, rec, at, in_word, sent_is, is) =
          recv_data-takes in_cksum atoi calloc argv ck cuts bytes small c s.disk stack tr.receives
            tr.in_word to in
        record {
          next = with_receiver s rest (running Rcopy.State.recv_data c') acts;
          is = ap (after_client s rest) (
              ap
                (λ d.
                  ClientRun.step in_cksum atoi calloc argv Rcopy.State.recv_data c
                    (answer (arrived stack d)))
                first
              ∙ runs);
          joined = record {
            acked = tr.acked;
            ahead = left;
            serves = tr.serves;
            receives = rec;
            in_word = in_word;
            on_way = others ∙ ap (λ i. stretch in_cksum n file count byte i left) (sym at);
            ahead_is = omega (arith, tr.ahead_is, ahead, at);
            answers = rw sent_is (
                AreRrs-next in_cksum (tr.acked + 1) s.to_server (c.expected + 1) back tr.answers
                  (omega (arith, tr.answers_to)) is);
            answers_to = omega (
              arith,
              length-append s.to_server (sent acts),
              ap length sent_is,
              tr.answers_to,
              at,
            );
          };
          lower =
              omega
                (arith, length-append s.to_server (sent acts), ap length sent_is, ap length queue);
        }

    ends-Goes :
        c.expected ≡ count + 1 → Goes in_cksum n file count byte s (heard Rcopy.State.recv_data c)
    ends-Goes last =
        let (acts, back, runs, whole, sent_is, is) =
          recv_data-ends in_cksum atoi calloc argv ck cuts bytes small c s.disk stack tr.receives
            tr.in_word last in
        record {
          next = with_receiver s rest (ended 0) acts;
          is = ap (after_client s rest) (
              ap
                (λ d.
                  ClientRun.step in_cksum atoi calloc argv Rcopy.State.recv_data c
                    (answer (arrived stack d)))
                first
              ∙ runs);
          joined = (
            whole,
            inr (record {
              acked = tr.acked;
              rrs = s.to_server;
              last = back;
              serves = tr.serves;
              closed = Transferring-Closed in_cksum tr last (omega (arith, ahead));
              queue = ap (◌++◌ s.to_server) sent_is;
              answers = tr.answers;
              answers_to = tr.answers_to ∙ last;
              last_is = is;
            }),
          );
          lower =
              omega
                (arith, length-append s.to_server (sent acts), ap length sent_is, ap length queue);
        }

  -- The client takes the first datagram of its queue.
  pub client_hears-Goes :
      (st : Rcopy.State) (c : Client)
      → JoinedAt in_cksum n file count byte (running st c) s
      → Goes in_cksum n file count byte s (heard st c)
  client_hears-Goes Rcopy.State.recv_data c tr =
      let (left, ahead, first, others) =
        stretch-head in_cksum n file count byte c.expected tr.ahead datagram rest
          (sym queue ∙ tr.on_way) in
      elim (dec_lt count c.expected) [
        | yes past ↦
            ends-Goes c tr left ahead first others (omega (arith, tr.receives.known.within))
        | no within ↦ takes-Goes c tr left ahead first others (omega arith)
      ]
  client_hears-Goes Rcopy.State.start_state c j = absurd j
  client_hears-Goes Rcopy.State.filename c j = absurd j
  client_hears-Goes Rcopy.State.file_ok c j = absurd j
  client_hears-Goes Rcopy.State.buffer c j = absurd j
  client_hears-Goes Rcopy.State.flush c j = absurd j
  client_hears-Goes Rcopy.State.done c j = absurd j
  client_hears-Goes Rcopy.State.wait_file_ack c j = absurd j
