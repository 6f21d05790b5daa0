-- ===== src/Server/Waiting.antt =====
-- A server in WAIT_ON_EOF_ACK whose client is gone gives up.
use cpe464_a.Base.{
  Bool, ℕ, suc, ◌+◌, ◌-◌, ◌≤◌, ◌<◌, ◌≡◌, Option, some, List, [], ◌∷◌, length, take, replicate,
  arith, u32, refl, ap, lt→ltb, le→ltb, eq→==,
}
use native.Mathlib.Decide.{dec_lt}
use cpe464_a.Process.{silent, goes, exits, send, after, and_then}
use cpe464_a.Pdu.{Received, read_u32}
use cpe464_a.Window.{window_get_packet}
use cpe464_a.Server.{State, Server, Answers}
use cpe464_a.Server.Ack.{rr_packet, wait_on_eof_ack, eof_polled}
use cpe464_a.Server.Run.{is_done, step, process_client}

-- Every poll of the rounds finds nothing.
abbrev pub Silent : List Answers → Type 0
Silent [] = Unit
Silent (a ∷ rest) = ((ms : ℕ) → a.poll ms ≡ silent) × Silent rest

module _ (in_cksum : List ℕ → ℕ) (calloc : ℕ → ℕ → Bool) (open_file : List ℕ → Option (List ℕ))
    (establishment : Received) where
  -- Rounds of `wait_on_eof_ack` without an answer.
  wait_on_eof_ack-silent :
      (sr : Server) (a : Answers) (packet : List ℕ)
      → window_get_packet sr.window sr.last_seq_num ≡ some packet
      → a.poll 1000 ≡ silent
      → sr.eof_retry_count < 10
      → wait_on_eof_ack in_cksum sr a
        ≡ goes State.wait_on_eof_ack
            (record sr { eof_retry_count = sr.eof_retry_count + 1 })
            (send (take sr.eof_len packet) ∷ [])
  unfolding wait_on_eof_ack eof_polled
  wait_on_eof_ack-silent sr a packet held quiet lt =
      rw (held, le→ltb 9 sr.eof_retry_count (omega arith), quiet, wait_on_eof_ack, eof_polled) refl

  wait_on_eof_ack-over :
      (sr : Server) (a : Answers) (packet : List ℕ)
      → window_get_packet sr.window sr.last_seq_num ≡ some packet
      → 10 ≤ sr.eof_retry_count
      → wait_on_eof_ack in_cksum sr a ≡ exits 0 []
  unfolding wait_on_eof_ack
  wait_on_eof_ack-over sr a packet held le =
      rw (held, lt→ltb 9 sr.eof_retry_count (omega arith), wait_on_eof_ack) refl

  process_client-eof :
      (sr : Server) (a : Answers) (rest : List Answers)
      → process_client in_cksum calloc open_file establishment State.wait_on_eof_ack sr (a ∷ rest)
        ≡ and_then
            (λ st' sr'. process_client in_cksum calloc open_file establishment st' sr' rest)
            (wait_on_eof_ack in_cksum sr a)
  unfolding process_client is_done step
  process_client-eof sr a rest = refl

  -- If the window has an entry for last_seq_num, retryCount is at most 10, and no poll finds
  -- anything for more than 10 - retryCount rounds, then process_client in WAIT_ON_EOF_ACK exits
  -- with 0 after sending the first eof_len bytes of that entry exactly 10 - retryCount times.
  pub wait_on_eof_ack-ends :
      (answers : List Answers) (sr : Server) (packet : List ℕ)
      → sr.eof_retry_count ≤ 10
      → Silent answers
      → window_get_packet sr.window sr.last_seq_num ≡ some packet
      → 10 < sr.eof_retry_count + length answers
      → process_client in_cksum calloc open_file establishment State.wait_on_eof_ack sr answers
        ≡ exits 0 (replicate (10 - sr.eof_retry_count) (send (take sr.eof_len packet)))
  wait_on_eof_ack-ends [] sr packet le quiet held enough = absurd (omega arith)
  wait_on_eof_ack-ends (a ∷ rest) sr packet le quiet held enough =
      elim (dec_lt sr.eof_retry_count 10) [
        | yes lt ↦
            let one_less : 10 - sr.eof_retry_count ≡ suc (10 - (sr.eof_retry_count + 1)) =
              omega arith in
            rw
              (
                process_client-eof,
                wait_on_eof_ack-silent sr a packet held (quiet.0 1000) lt,
                one_less,
              )
              (ap (after (send (take sr.eof_len packet) ∷ [])) (
                wait_on_eof_ack-ends rest (record sr { eof_retry_count = sr.eof_retry_count + 1 })
                  packet (omega arith) quiet.1 held (omega arith)))
        | no over ↦
            let none_left : 10 - sr.eof_retry_count ≡ 0 = omega arith in
            rw (process_client-eof, wait_on_eof_ack-over sr a packet held (omega arith), none_left)
              refl
      ]

  -- If the RR of the last data packet arrives while eof_len is still 0, EOF not having been sent,
  -- and no poll finds anything from then on for more than 10 - retryCount rounds, retryCount being
  -- at most 10, then the server exits with 0 after sending nothing but 10 - retryCount empty
  -- datagrams.
  pub rr_packet-early :
      (answers : List Answers) (sr : Server) (r : Received) (packet : List ℕ)
      → read_u32 r.buf 7 ≡ u32 (sr.final_packet_seq + 1)
      → sr.eof_len ≡ 0
      → sr.eof_retry_count ≤ 10
      → Silent answers
      → window_get_packet sr.window sr.last_seq_num ≡ some packet
      → 10 < sr.eof_retry_count + length answers
      → and_then
          (λ st' sr'. process_client in_cksum calloc open_file establishment st' sr' answers)
          (rr_packet sr r)
        ≡ exits 0 (replicate (10 - sr.eof_retry_count) (send []))
  unfolding rr_packet
  rr_packet-early answers sr r packet last unsent le quiet held enough =
      rw (eq→== _ _ last, wait_on_eof_ack-ends answers sr packet le quiet held enough, unsent) refl
