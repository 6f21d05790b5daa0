-- ===== src/Delivery/Flushing.antt =====
-- `flush` keeps what it promises, and its loop never runs out of fuel.
use cpe464_a.Base.{
  ℕ, zero, suc, ◌+◌, ◌-◌, ◌≤◌, ◌<◌, ◌≡◌, ◌≢◌, ◌⊎◌, inl, inr, refl, sym, ◌∙◌, ap, some, arith, List,
  [], ◌∷◌, ◌++◌, append-nil, append_assoc, eq→==, ne→==, subst, lt→ltb, lt→leb, le→leb,
}
use native.Mathlib.Decide.{dec_lt, ℕ_discrete}
use cpe464_a.Process.{
  Action, Outcome, goes, exits, fault, out_of_fuel, write, stray, written, written-append,
}
use cpe464_a.Rcopy.{State, Client, Result, send_seq}
use cpe464_a.Rcopy.Flush.{
  leave, again, flush_body, flush_round, flush_loop, flush_last, flush_hole, flush_end, after_loop,
  flush,
}
use cpe464_a.Window.{Buffer, slot}
use cpe464_a.Window.Slots.{window_isvalid_at}
use cpe464_a.Delivery.{
  Stream, IsStream, delivered, Stored, Known, Flushes, Receives, Buffers, Promised,
}
use cpe464_a.Delivery.Advancing.{advanced, advance-Flushes, advance-Receives, take_buffered_at}

-- How `flush` ends that was called with `out` on the disk and with `highest`: in RECV_DATA, with the
-- packets up to `highest` on the disk; in BUFFER, with the expected packet missing from the window;
-- or with exit(0) and the whole file on the disk.
abbrev pub Flushed : Stream → ℕ → List ℕ → Result → Type 0
Flushed s highest out (goes State.recv_data c acts) =
    Receives s c (out ++ written acts) × (c.expected ≡ highest + 1)
Flushed s highest out (goes State.buffer c acts) =
    Buffers s c (out ++ written acts)
    × (c.highest ≡ highest)
    × (b : Buffer) × (slot c.window c.expected ≡ some b)
    × (b.valid ≡ 0)
Flushed s highest out (goes State.flush c acts) = ⊥
Flushed s highest out (goes State.done c acts) = ⊥
Flushed s highest out (goes State.start_state c acts) = ⊥
Flushed s highest out (goes State.wait_file_ack c acts) = ⊥
Flushed s highest out (goes State.filename c acts) = ⊥
Flushed s highest out (goes State.file_ok c acts) = ⊥
Flushed s highest out (exits zero acts) = out ++ written acts ≡ delivered s s.count
Flushed s highest out (exits (suc code) acts) = ⊥
Flushed s highest out fault = ⊥
Flushed s highest out out_of_fuel = ⊥

module _ (in_cksum : List ℕ → ℕ) {s : Stream} (ok : IsStream s) where
  -- One round of the loop.
  flush_round-empty :
      (c : Client) {b : Buffer}
      → slot c.window c.expected ≡ some b
      → b.valid ≡ 0
      → flush_round in_cksum c c.expected ≡ leave
  unfolding flush_round
  flush_round-empty c here empty = rw (
    eq→== c.expected c.expected refl,
    window_isvalid_at c.window c.expected here,
    empty,
    flush_round,
  )

  pub flush_round-stored :
      (c : Client) {b : Buffer}
      → slot c.window c.expected ≡ some b
      → b.valid ≡ 1
      → flush_round in_cksum c c.expected ≡ flush_body in_cksum 1 c c.expected
  unfolding flush_round
  flush_round-stored c here marked = rw (
    eq→== c.expected c.expected refl,
    window_isvalid_at c.window c.expected here,
    marked,
    flush_round,
  )

  pub flush_body-top :
      (c : Client) → c.highest ≤ c.expected → flush_body in_cksum 1 c c.expected ≡ leave
  unfolding flush_body
  flush_body-top c le = ground arith

  pub flush_body-again :
      {out : List ℕ} (c : Client) {b : Buffer}
      → Known s c out
      → slot c.window c.expected ≡ some b
      → {k : ℕ} → Stored s c.eof_seq c.final_packet_seq k c.expected b
      → c.expected ≤ s.count
      → c.expected < c.highest
      → flush_body in_cksum 1 c c.expected ≡ again (advanced c b) (s.chunk c.expected)
  unfolding flush_body
  flush_body-again c {b} known here st inside lt = rw (
    lt→leb c.expected c.highest lt,
    lt→ltb c.expected c.highest lt,
    ne→== c.expected c.eof_seq not_eof,
    take_buffered_at ok known here st inside,
    flush_body,
  )
    where
      not_eof : c.expected ≢ c.eof_seq
      not_eof q = elim known.eof_is [
        | inl unset ↦ omega (arith, known.started)
        | inr set ↦ omega arith
      ]

  -- How the loop ends, with `out` on the disk before `flush`: at the expected packet, with the
  -- invariant, and either up to `highest` or at a hole.
  abbrev Left : List ℕ → ℕ → Outcome ℕ Client → Type 0
  Left out highest (goes cur_seq c acts) =
      (cur_seq ≡ c.expected)
      × (c.highest ≡ highest)
      × Flushes s c (out ++ written acts)
      × ((c.highest ≤ c.expected)
          ⊎ ((b : Buffer) × (slot c.window c.expected ≡ some b) × (b.valid ≡ 0)))
  Left out highest (exits code acts) = ⊥
  Left out highest fault = ⊥
  Left out highest out_of_fuel = ⊥

  pub written-snoc :
      (out : List ℕ) (acts : List Action) (bs : List ℕ)
      → (out ++ written acts) ++ bs ≡ out ++ written (acts ++ (write bs ∷ stray ∷ []))
  written-snoc out acts bs =
      rw (written-append acts (write bs ∷ stray ∷ []), append-nil bs)
        (append_assoc out (written acts) bs)

  flush_loop-Left :
      (fuel : ℕ) (out : List ℕ) (c : Client) (acts : List Action)
      → Flushes s c (out ++ written acts)
      → c.highest - c.expected < fuel
      → Left out c.highest (flush_loop in_cksum fuel c c.expected acts)
  unfolding flush_loop
  flush_loop-Left zero out c acts fl lt = absurd (omega arith)
  flush_loop-Left (suc fuel) out c acts fl enough =
      let (b, here, entry) =
        fl.entries c.expected (omega arith) (omega (arith, fl.known.window_valid.positive)) in
      elim entry [
        | inl empty ↦
            rw (flush_round-empty c here empty, flush_loop) (refl, refl, fl, inr (b, here, empty))
        | inr st ↦ elim (dec_lt c.expected c.highest) [
          | yes lt ↦
              let inside : c.expected ≤ s.count = omega (arith, fl.top.2.inside) in
              let next =
                subst (Flushes s (advanced c b)) (written-snoc out acts (s.chunk c.expected))
                  (advance-Flushes ok fl here lt) in
              rw
                (
                  flush_round-stored c here st.marked,
                  flush_body-again c fl.known here st inside lt,
                  flush_loop,
                )
                (flush_loop-Left fuel out (advanced c b)
                  (acts ++ (write (s.chunk c.expected) ∷ stray ∷ [])) next
                  (omega (arith, ok.bounded)))
          | no top ↦
              rw (flush_round-stored c here st.marked, flush_body-top c (omega arith), flush_loop)
                (refl, refl, fl, inl (omega arith))
        ]
      ]

  -- After the loop, with `expected` come up to `highest`.
  flush_last-Flushed :
      (out : List ℕ) (c : Client) (acts : List Action)
      → Flushes s c (out ++ written acts)
      → c.highest ≤ c.expected
      → Flushed s c.highest out (flush_last in_cksum c acts)
  unfolding flush_last send_seq
  flush_last-Flushed out c acts fl le = elim (ℕ_discrete c.expected c.eof_seq) [
    | yes eof ↦
        let all : c.expected - 1 ≡ s.count = after_all eof in
        rw (eq→== _ _ eof, written-append, append-nil (written acts))
          (fl.known.disk ∙ ap (delivered s) all)
    | no other ↦
        let inside : c.expected ≤ s.count = not_last other in
        rw
          (
            ne→== _ _ other,
            take_buffered_at ok fl.known here st inside,
            flush_last,
            written-append,
            append-nil (s.chunk c.expected),
            ← append_assoc,
          )
          (advance-Receives ok fl here le inside, omega (arith, at, inside, ok.bounded))
  ]
    where
      at : c.highest ≡ c.expected
      at = omega (arith, fl.ahead)

      here : slot c.window c.expected ≡ some fl.top.0
      here = rw (← at) (fl.top.1)

      st : Stored s c.eof_seq c.final_packet_seq c.highest c.expected fl.top.0
      st = subst (λ i. Stored s c.eof_seq c.final_packet_seq c.highest i fl.top.0) at fl.top.2

      after_all : c.expected ≡ c.eof_seq → c.expected - 1 ≡ s.count
      after_all eof = elim fl.known.eof_is [
        | inl unset ↦ absurd (omega (arith, fl.known.started))
        | inr set ↦ omega arith
      ]

      not_last : c.expected ≢ c.eof_seq → c.expected ≤ s.count
      not_last other = elim (dec_lt s.count c.expected) [
        | yes past ↦
            let eof : c.expected ≡ s.count + 1 = omega (arith, fl.known.within) in
            absurd (other (eof ∙ sym (st.eof_known eof)))
        | no within ↦ omega arith
      ]

  -- After the loop, at a hole.
  flush_hole-Flushed :
      (out : List ℕ) (c : Client) (acts : List Action) {b : Buffer}
      → Flushes s c (out ++ written acts)
      → c.expected < c.highest
      → slot c.window c.expected ≡ some b
      → b.valid ≡ 0
      → Flushed s c.highest out (flush_hole in_cksum c c.expected acts)
  unfolding flush_hole send_seq
  flush_hole-Flushed out c acts {b} fl lt here empty =
      rw
        (
          lt→ltb c.expected c.highest lt,
          window_isvalid_at c.window c.expected here,
          empty,
          flush_hole,
          written-append,
          append-nil (written acts),
        )
        (record { flushes = fl; hole = lt }, refl, b, here, empty)

  flush_end-Flushed :
      (out : List ℕ) (c : Client) (acts : List Action)
      → Flushes s c (out ++ written acts)
      → (c.highest ≤ c.expected)
        ⊎ ((b : Buffer) × (slot c.window c.expected ≡ some b) × (b.valid ≡ 0))
      → Flushed s c.highest out (flush_end in_cksum c c.expected acts)
  unfolding flush_end
  flush_end-Flushed out c acts fl (inl le) =
      rw (le→leb c.highest c.expected le) (flush_last-Flushed out c acts fl le)
  flush_end-Flushed out c acts fl (inr (b, here, empty)) = elim (dec_lt c.expected c.highest) [
    | yes lt ↦ rw (lt→leb c.expected c.highest lt) (flush_hole-Flushed out c acts fl lt here empty)
    | no top ↦
        let le : c.highest ≤ c.expected = omega arith in
        rw (le→leb c.highest c.expected le) (flush_last-Flushed out c acts fl le)
  ]

  end_of_loop :
      (out : List ℕ) (highest : ℕ) (o : Outcome ℕ Client)
      → Left out highest o
      → Flushed s highest out (after_loop in_cksum o)
  unfolding after_loop
  end_of_loop out highest (goes cur_seq c acts) (at, same, fl, why) =
      rw (at, ← same) (flush_end-Flushed out c acts fl why)
  end_of_loop out highest (exits code acts) left = absurd left
  end_of_loop out highest fault left = absurd left
  end_of_loop out highest out_of_fuel left = absurd left

  -- Where the invariant of FLUSH holds, flush (taken to go on past the stray byte of rcopy.c:473)
  -- leaves its loop within its fuel and without another undefined behaviour, and ends in one of
  -- three ways: in RECV_DATA with its invariant, all packets up to highest written and the one
  -- after highest expected; in BUFFER with its invariant, highest the same and the entry of the
  -- expected packet empty; or with exit(0) and the whole file on the disk.
  pub flush-Flushed :
      (c : Client) {out : List ℕ} → Flushes s c out → Flushed s c.highest out (flush in_cksum c)
  unfolding flush
  flush-Flushed c {out} fl = end_of_loop out c.highest _ (
      flush_loop-Left (suc (c.highest - c.expected)) out c [] (rw (append-nil out) fl)
        (omega arith))

  -- So it keeps the invariant of the state that it goes to.
  pub flush-Promised :
      (c : Client) {out : List ℕ} → Flushes s c out → Promised s out (flush in_cksum c)
  flush-Promised c {out} fl = Flushed-Promised out (flush in_cksum c) (flush-Flushed c fl)
    where
      Flushed-Promised : (out : List ℕ) (o : Result) → Flushed s c.highest out o → Promised s out o
      Flushed-Promised out (goes State.recv_data c' acts) left = left.0
      Flushed-Promised out (goes State.buffer c' acts) left = left.0
      Flushed-Promised out (goes State.flush c' acts) left = absurd left
      Flushed-Promised out (goes State.done c' acts) left = absurd left
      Flushed-Promised out (goes State.start_state c' acts) left = absurd left
      Flushed-Promised out (goes State.wait_file_ack c' acts) left = absurd left
      Flushed-Promised out (goes State.filename c' acts) left = absurd left
      Flushed-Promised out (goes State.file_ok c' acts) left = absurd left
      Flushed-Promised out (exits zero acts) left = ((s.count, omega arith, left), λ z. left)
      Flushed-Promised out (exits (suc code) acts) left = absurd left
      Flushed-Promised out fault left = absurd left
      Flushed-Promised out out_of_fuel left = absurd left
