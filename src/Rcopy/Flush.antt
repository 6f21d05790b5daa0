-- ===== src/Rcopy/Flush.antt =====
-- `flush` of rcopy.c: write out what the window holds from the expected packet on.
use cpe464_a.Base.{
  ℕ, zero, suc, ◌+◌, ◌-◌, ◌&&◌, ◌||◌, List, [], ◌∷◌, ◌++◌, Option, none, some, leb, ltb, ◌==◌,
  if◌then◌else◌, u32,
}
use cpe464_a.Flag
use cpe464_a.Process.{Action, write, stray, Outcome, goes, exits, fault, out_of_fuel}
use cpe464_a.Window.{window_isvalid, window_get_packet, window_remove}
use cpe464_a.Rcopy.{State, Client, Result, disk_bytes, send_seq}

-- The length that is used for the buffered packet `seq_num`.
unfoldable pub length_of_buffered : Client → ℕ → ℕ
length_of_buffered c seq_num =
    if seq_num == c.final_packet_seq then c.final_packet_len else c.data_packet_len

-- What one round of the loop does: leave the loop, go round again, or end the program.
pub data Round : Type 0 where
  leave : Round
  again : Client → List ℕ → Round
  finish : Action → Round
  broken : Round

-- Writes the buffered packet `seq_num` to disk and removes it: the variables after it, with
-- `expected` advanced, and the bytes. These lines stand in `flush` twice, in the loop and after it.
unfoldable pub take_buffered : Client → ℕ → Option (Client × List ℕ)
take_buffered c seq_num = elim (window_get_packet c.window seq_num) [
  | none ↦ none
  | some packet ↦ elim (disk_bytes (length_of_buffered c seq_num) packet) [
    | none ↦ none
    | some bytes ↦ elim (window_remove c.window seq_num) [
      | none ↦ none
      | some window ↦ some (record c { window = window; expected = u32 (c.expected + 1) }, bytes)
    ]
  ]
]

module _ (in_cksum : List ℕ → ℕ) where
  -- The body of the loop, past its test.
  unfoldable pub flush_body : ℕ → Client → ℕ → Round
  flush_body valid c cur_seq =
      if leb c.highest c.expected || (ltb c.expected c.highest && valid == 0)
      then leave
      else if cur_seq == c.eof_seq
      then finish (send_seq in_cksum c Flag.eof_ack c.expected)
      else elim (take_buffered c cur_seq) [ none ↦ broken | some (c', bytes) ↦ again c' bytes ]

  -- One round, its test included.
  unfoldable pub flush_round : Client → ℕ → Round
  flush_round c cur_seq =
      if cur_seq == c.expected
      then elim (window_isvalid c.window cur_seq) [
        | none ↦ broken
        | some valid ↦ if valid == 1 then flush_body valid c cur_seq else leave
      ]
      else leave

  -- The loop, with the effects so far; it ends with `cur_seq`. `data[actual_data_len] = '\0'` is the
  -- stray byte of each round.
  unfoldable pub flush_loop : ℕ → Client → ℕ → List Action → Outcome ℕ Client
  flush_loop zero c cur_seq acts = out_of_fuel
  flush_loop (suc fuel) c cur_seq acts = elim (flush_round c cur_seq) [
    | leave ↦ goes cur_seq c acts
    | again c' bytes ↦ flush_loop fuel c' (u32 (cur_seq + 1)) (acts ++ (write bytes ∷ stray ∷ []))
    | finish act ↦ exits 0 (acts ++ (act ∷ []))
    | broken ↦ fault
  ]

  -- "Go back to RECV_DATA".
  unfoldable pub flush_last : Client → List Action → Result
  flush_last c acts =
      let rr = send_seq in_cksum c Flag.rr c.expected in
      if c.expected == c.eof_seq
      then exits 0 (acts ++ (rr ∷ send_seq in_cksum c Flag.eof_ack c.expected ∷ []))
      else elim (take_buffered c c.expected) [
        | none ↦ fault
        | some (c', bytes) ↦ goes State.recv_data c' (acts ++ (rr ∷ write bytes ∷ []))
      ]

  -- "Go back to Buffering".
  unfoldable pub flush_hole : Client → ℕ → List Action → Result
  flush_hole c cur_seq acts =
      if ltb c.expected c.highest
      then elim (window_isvalid c.window cur_seq) [
        | none ↦ fault
        | some valid ↦
            if valid == 0
            then goes State.buffer c (
                acts
                ++ (send_seq in_cksum c Flag.srej c.expected
                    ∷ send_seq in_cksum c Flag.rr c.expected
                    ∷ []))
            else goes State.buffer c acts
      ]
      else goes State.buffer c acts

  -- What follows the loop.
  unfoldable pub flush_end : Client → ℕ → List Action → Result
  flush_end c cur_seq acts =
      if leb c.highest c.expected then flush_last c acts else flush_hole c cur_seq acts

  -- From the loop's end to what follows it.
  unfoldable pub after_loop : Outcome ℕ Client → Result
  after_loop (goes cur_seq c acts) = flush_end c cur_seq acts
  after_loop (exits code acts) = exits code acts
  after_loop fault = fault
  after_loop out_of_fuel = out_of_fuel

  -- The fuel is one more than the rounds that the loop can make: each raises `expected`, and it is
  -- left once `expected` has come up to `highest`.
  unfoldable pub flush : Client → Result
  flush c = after_loop (flush_loop (suc (c.highest - c.expected)) c c.expected [])
