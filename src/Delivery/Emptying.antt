-- ===== src/Delivery/Emptying.antt =====
-- `flush` of rcopy.c when no packet is missing up to the highest one.
use cpe464_a.Base.{
  ℕ, zero, suc, ◌+◌, ◌-◌, ◌≤◌, ◌<◌, ◌≡◌, ◌≢◌, inl, inr, some, List, [], ◌∷◌, ◌++◌, arith, ap, refl,
  sym, ◌∙◌, subst, u32, htonl_bytes, append-nil, append_assoc, ne→==, le→leb,
}
use native.Mathlib.Decide.{dec_lt}
use mathlib.Core.Option.{some-injective}
use cpe464_a.Flag
use cpe464_a.Process.{Action, send, write, stray, sent, written, written-append, goes}
use cpe464_a.Pdu.{create_pdu, send_buf}
use cpe464_a.Window.{Buffer, slot, put_slot}
use cpe464_a.Rcopy.{State, Client, send_seq}
use cpe464_a.Rcopy.Flush.{flush, flush_loop, flush_end, flush_last, after_loop}
use cpe464_a.Delivery.{Stream, IsStream, Stored, Receives, Flushes}
use cpe464_a.Delivery.Advancing.{advanced, advance-Flushes, advance-Receives, take_buffered_at}
use cpe464_a.Delivery.Flushing.{flush_round-stored, flush_body-top, flush_body-again, written-snoc}
use cpe464_a.Delivery.Recovering.{IsSolid, put_slot-IsSolid}

sent-append : (xs ys : List Action) → sent (xs ++ ys) ≡ sent xs ++ sent ys
sent-append [] ys = refl
sent-append (send bs ∷ xs) ys = ap (λ rest. bs ∷ rest) (sent-append xs ys)
sent-append (write bs ∷ xs) ys = sent-append xs ys
sent-append (stray ∷ xs) ys = sent-append xs ys

module _ (in_cksum : List ℕ → ℕ) {s : Stream} (ok : IsStream s) where
  -- The expected packet is in the window.
  solid-Stored :
      {c : Client} {out : List ℕ}
      → Flushes s c out
      → IsSolid c c.expected
      → (b : Buffer) × (slot c.window c.expected ≡ some b)
        × Stored s c.eof_seq c.final_packet_seq c.highest c.expected b
  solid-Stored {c} fl solid =
      let (b, here, entry) =
        fl.entries c.expected (omega arith) (omega (arith, fl.known.window_valid.positive)) in
      let (b', there, marked) = solid c.expected (omega arith) fl.ahead in
      elim entry [
        | inl empty ↦ absurd (
            omega (arith, empty, marked, ap (λ x. x.valid) (some-injective _ _ (sym here ∙ there))))
        | inr st ↦ (b, here, st)
      ]

  -- The loop goes up to the highest packet.
  flush_loop-IsSolid :
      (fuel : ℕ) (out : List ℕ) (c : Client) (acts : List Action)
      → Flushes s c (out ++ written acts)
      → IsSolid c c.expected
      → c.highest - c.expected < fuel
      → (c' : Client) × (acts' : List Action) × (flush_loop in_cksum fuel c c.expected acts
          ≡ goes c'.expected c' acts')
        × Flushes s c' (out ++ written acts')
        × IsSolid c' c'.expected
        × (c'.expected ≡ c.highest)
        × (c'.highest ≡ c.highest)
        × (sent acts' ≡ sent acts)
        × (c'.client_seq_num ≡ c.client_seq_num)
  unfolding flush_loop put_slot
  flush_loop-IsSolid zero out c acts fl solid enough = absurd (omega arith)
  flush_loop-IsSolid (suc fuel) out c acts fl solid enough =
      let (b, here, st) = solid-Stored fl solid in
      elim (dec_lt c.expected c.highest) [
        | no top ↦ (
          c,
          acts,
          rw
              (
                flush_round-stored in_cksum ok c here st.marked,
                flush_body-top in_cksum ok c (omega arith),
                flush_loop,
              )
              refl,
          fl,
          solid,
          omega (arith, fl.ahead),
          refl,
          refl,
          refl,
        )
        | yes lt ↦
            let inside : c.expected ≤ s.count = omega (arith, fl.top.2.inside) in
            let next : u32 (c.expected + 1) ≡ c.expected + 1 = omega (arith, ok.bounded) in
            let left =
              subst (Flushes s (advanced c b))
                (written-snoc in_cksum ok out acts (s.chunk c.expected))
                (advance-Flushes ok fl here lt) in
            let (c', acts', runs, fl', solid', at, highest, same, seq) =
              flush_loop-IsSolid fuel out (advanced c b)
                (acts ++ (write (s.chunk c.expected) ∷ stray ∷ [])) left
                (λ i from to.
                  put_slot-IsSolid c (c.expected + 1) c.expected _ i fl.known.window_valid.positive
                    (λ j lo hi. solid j (omega arith) hi) (omega (arith, next)) to
                    (inl (omega arith, fl.near)))
                (omega (arith, ok.bounded)) in
            (
              c',
              acts',
              rw
                  (
                    flush_round-stored in_cksum ok c here st.marked,
                    flush_body-again in_cksum ok c fl.known here st inside lt,
                    flush_loop,
                  )
                  runs,
              fl',
              solid',
              at,
              highest,
              same
                  ∙ sent-append acts (write (s.chunk c.expected) ∷ stray ∷ [])
                  ∙ append-nil (sent acts),
              seq,
            )
      ]

  flush_last-data :
      (out : List ℕ) (c : Client) (acts : List Action)
      → Flushes s c (out ++ written acts)
      → IsSolid c c.expected
      → c.expected ≡ c.highest
      → c.expected ≤ s.count
      → (c' : Client) × (acts' : List Action) × (flush_last in_cksum c acts
          ≡ goes State.recv_data c' acts')
        × Receives s c' (out ++ written acts')
        × (c'.expected ≡ c.expected + 1)
        × (sent acts'
            ≡ sent acts
              ++ (create_pdu in_cksum c.client_seq_num Flag.rr (htonl_bytes c.expected) ∷ []))
        × (c'.client_seq_num ≡ c.client_seq_num)
  unfolding flush_last send_seq send_buf
  flush_last-data out c acts fl solid at inside =
      let (b, here, st) = solid-Stored fl solid in
      let not_eof : c.expected ≢ c.eof_seq = (λ q. elim fl.known.eof_is [
        | inl unset ↦ omega (arith, q, unset, fl.known.started)
        | inr set ↦ omega (arith, q, set)
      ]) in
      let rr = create_pdu in_cksum c.client_seq_num Flag.rr (htonl_bytes c.expected) in
      let more = send rr ∷ write (s.chunk c.expected) ∷ [] in
      let disk : (out ++ written acts) ++ s.chunk c.expected ≡ out ++ written (acts ++ more) =
        rw (written-append, append-nil (s.chunk c.expected))
          (append_assoc out (written acts) (s.chunk c.expected)) in
      (
        advanced c b,
        acts ++ more,
        rw (ne→== _ _ not_eof, take_buffered_at ok fl.known here st inside, flush_last) refl,
        subst (Receives s (advanced c b)) disk
            (advance-Receives ok fl here (omega (arith, at)) inside),
        omega (arith, ok.bounded),
        sent-append acts more,
        refl,
      )

  pub flush-IsSolid :
      {c : Client} {out : List ℕ}
      → Flushes s c out
      → IsSolid c c.expected
      → c.highest ≤ s.count
      → (c' : Client) × (acts : List Action) × (flush in_cksum c ≡ goes State.recv_data c' acts)
        × Receives s c' (out ++ written acts)
        × (c'.expected ≡ c.highest + 1)
        × (sent acts ≡ create_pdu in_cksum c.client_seq_num Flag.rr (htonl_bytes c.highest) ∷ [])
        × (c'.client_seq_num ≡ c.client_seq_num)
  unfolding flush flush_end after_loop
  flush-IsSolid {c} {out} fl solid inside =
      let (c1, acts1, loops, fl1, solid1, at, highest, quiet, seq) =
        flush_loop-IsSolid (suc (c.highest - c.expected)) out c [] (rw (append-nil out) fl) solid
          (omega arith) in
      let (c2, acts2, runs, rec, at2, answers, seq2) =
        flush_last-data out c1 acts1 fl1 solid1 (omega (arith, at, highest)) (omega (arith, at)) in
      (
        c2,
        acts2,
        ap (after_loop in_cksum) loops
            ∙ rw (le→leb c1.highest c1.expected (omega (arith, at, highest))) runs,
        rec,
        omega (arith, at, at2),
        answers
            ∙ ap
                (λ q.
                  q
                  ++ (create_pdu in_cksum c1.client_seq_num Flag.rr (htonl_bytes c1.expected) ∷ []))
                quiet
            ∙ ap (λ k. create_pdu in_cksum k Flag.rr (htonl_bytes c1.expected) ∷ []) seq
            ∙ ap (λ e. create_pdu in_cksum c.client_seq_num Flag.rr (htonl_bytes e) ∷ []) at,
        seq2 ∙ seq,
      )
