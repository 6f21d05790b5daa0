-- ===== src/Repair/Late.antt =====
-- The client from the loss of a packet to its repair.
use cpe464_a.Base.{
  ℕ, ◌+◌, ◌≤◌, ◌<◌, ◌≡◌, Bool, List, [], ◌∷◌, ◌++◌, length, arith, ap, refl, sym, ◌∙◌, subst, u32,
  htonl_bytes, append_assoc,
}
use cpe464_a.Checksum.{IsChecksum}
use cpe464_a.Flag
use cpe464_a.Process.{
  Action, send, write, stray, sent, written, after, after-nil, arrived, timed_out,
}
use cpe464_a.Pdu.{create_pdu}
use cpe464_a.Rcopy.{State, Client}
use cpe464_a.Rcopy.Run.{Answers}
use cpe464_a.Delivery.{Receives, Buffers}
use cpe464_a.Delivery.Transfer.{answer, IsByteStream, received_under}
use cpe464_a.Delivery.Recovering.{
  IsSolid, recv_data_packet-ahead, buffer_packet-ahead, buffer_packet-fills,
}
use cpe464_a.Delivery.Emptying.{flush-IsSolid}
use cpe464_a.Server.Sending.{part}
use cpe464_a.Server.Cutting.{cut, Cuts, cut-IsStream}
use cpe464_a.Repair.{late}
use cpe464_a.Repair.Turns.{client_runs, after-after, buffer_round, recv_round, flush_turn}

module _ (in_cksum atoi : List ℕ → ℕ) (calloc : ℕ → ℕ → Bool) (argv : List (List ℕ))
    (ck : IsChecksum in_cksum) {n : ℕ} {file : List ℕ} {count : ℕ} (cuts : Cuts n file count)
    {filler : List ℕ} (bs : IsByteStream in_cksum (cut n file count) filler)
    (rest : List Answers) where
  -- The packet after the expected one comes first.
  recv_data-late :
      (stack : List ℕ) (c : Client) (out : List ℕ) (more : List Answers)
      → Receives (cut n file count) c out
      → c.expected + 1 ≤ count
      → 1 < c.window.size
      → (c' : Client) × (client_runs in_cksum atoi calloc argv State.recv_data c
            (late in_cksum n file (c.expected + 1) (stack ∷ []) ++ more)
          ≡ after
              (send (create_pdu in_cksum c.client_seq_num Flag.srej (htonl_bytes c.expected)) ∷ [])
              (client_runs in_cksum atoi calloc argv State.buffer c' more))
        × Buffers (cut n file count) c' out
        × IsSolid c' (c'.expected + 1)
        × (c'.expected ≡ c.expected)
        × (c'.highest ≡ c.expected + 1)
        × (c'.window.size ≡ c.window.size)
        × (c'.client_seq_num ≡ u32 (c.client_seq_num + 1))
  recv_data-late stack c out more rec to room =
      let ok = cut-IsStream n file count cuts in
      let (clean, g, seq_num, flag) =
        received_under in_cksum (cut n file count) filler ck ok bs stack (c.expected + 1)
          Flag.data_flag c.expected (omega arith) to (omega arith) (omega arith)
          (λ other. absurd (other refl)) in
      let (c1, runs, buf, solid, at, highest, size, seq) =
        recv_data_packet-ahead in_cksum ok _ rec clean g seq_num room in
      (
        c1,
        recv_round in_cksum atoi calloc argv c c1 _ State.buffer stack _ more runs,
        buf,
        (λ i from hi. solid i (omega (arith, at)) hi),
        at,
        highest,
        size,
        seq,
      )

  -- In BUFFER, the packet after the highest one is kept.
  buffer-late :
      (stack : List ℕ) (c : Client) (out : List ℕ) (more : List Answers)
      → Buffers (cut n file count) c out
      → IsSolid c (c.expected + 1)
      → c.highest + 1 ≤ count
      → c.highest + 1 < c.expected + c.window.size
      → (c' : Client) × (client_runs in_cksum atoi calloc argv State.buffer c
            (late in_cksum n file (c.highest + 1) (stack ∷ []) ++ more)
          ≡ client_runs in_cksum atoi calloc argv State.buffer c' more)
        × Buffers (cut n file count) c' out
        × IsSolid c' (c'.expected + 1)
        × (c'.expected ≡ c.expected)
        × (c'.highest ≡ c.highest + 1)
        × (c'.window.size ≡ c.window.size)
        × (c'.client_seq_num ≡ c.client_seq_num)
  buffer-late stack c out more buf solid to near =
      let ok = cut-IsStream n file count cuts in
      let (clean, g, seq_num, flag) =
        received_under in_cksum (cut n file count) filler ck ok bs stack (c.highest + 1)
          Flag.data_flag c.expected (omega arith) to (omega arith) (omega arith)
          (λ other. absurd (other refl)) in
      let (c1, runs, buf1, solid1, at, highest, size, seq) =
        buffer_packet-ahead in_cksum ok _ buf solid clean g seq_num (omega (arith, seq_num)) in
      (
        c1,
        buffer_round in_cksum atoi calloc argv c c1 [] State.buffer stack _ more runs ∙ after-nil _,
        buf1,
        (λ i from hi. solid1 i (omega (arith, at)) hi),
        at,
        highest,
        size,
        seq,
      )

  -- So are all that follow.
  buffer-late_all :
      (stacks : List (List ℕ)) (c : Client) (out : List ℕ) (j : ℕ) (more : List Answers)
      → j ≡ c.highest + 1
      → Buffers (cut n file count) c out
      → IsSolid c (c.expected + 1)
      → c.highest + length stacks ≤ count
      → c.highest + length stacks < c.expected + c.window.size
      → (c' : Client) × (client_runs in_cksum atoi calloc argv State.buffer c
            (late in_cksum n file j stacks ++ more)
          ≡ client_runs in_cksum atoi calloc argv State.buffer c' more)
        × Buffers (cut n file count) c' out
        × IsSolid c' (c'.expected + 1)
        × (c'.expected ≡ c.expected)
        × (c'.highest ≡ c.highest + length stacks)
        × (c'.client_seq_num ≡ c.client_seq_num)
  buffer-late_all [] c out j more at_j buf solid to near =
      (c, refl, buf, solid, refl, omega arith, refl)
  buffer-late_all (stack ∷ stacks) c out j more at_j buf solid to near =
      let (c1, runs1, buf1, solid1, at1, highest1, size1, seq1) =
        buffer-late stack c out (late in_cksum n file (j + 1) stacks ++ more) buf solid
          (omega arith) (omega arith) in
      let (c2, runs2, buf2, solid2, at2, highest2, seq2) =
        buffer-late_all stacks c1 out (j + 1) more (omega (arith, highest1, at_j)) buf1 solid1
          (omega (arith, highest1)) (omega (arith, highest1, at1, size1)) in
      (
        c2,
        ap
              (λ i. client_runs in_cksum atoi calloc argv State.buffer c (
                late in_cksum n file i (stack ∷ [])
                ++ (late in_cksum n file (j + 1) stacks ++ more)))
              at_j
            ∙ (runs1 ∙ runs2),
        buf2,
        solid2,
        at2 ∙ at1,
        omega (arith, highest1, highest2),
        seq2 ∙ seq1,
      )

  -- The missing packet brings the client to FLUSH, and that to RECV_DATA.
  buffer-repairs :
      (again : List ℕ) (c : Client) (out : List ℕ) (i : ℕ)
      → i ≡ c.expected
      → Buffers (cut n file count) c out
      → IsSolid c (c.expected + 1)
      → c.highest ≤ count
      → (c' : Client) × (acts : List Action) × (client_runs in_cksum atoi calloc argv State.buffer c
            (answer (arrived again (create_pdu in_cksum i Flag.srej_retran (part n file i)))
              ∷ answer timed_out
              ∷ rest)
          ≡ after acts (client_runs in_cksum atoi calloc argv State.recv_data c' rest))
        × Receives (cut n file count) c' (out ++ written acts)
        × (c'.expected ≡ c.highest + 1)
        × (sent acts ≡ create_pdu in_cksum c.client_seq_num Flag.rr (htonl_bytes c.highest) ∷ [])
        × (c'.client_seq_num ≡ c.client_seq_num)
  buffer-repairs again c out i at_i buf solid to =
      let ok = cut-IsStream n file count cuts in
      let (clean, g, seq_num, flag) =
        received_under in_cksum (cut n file count) filler ck ok bs again i Flag.srej_retran
          c.expected (omega (arith, buf.flushes.known.started)) (omega (arith, buf.hole))
          (omega arith) (omega arith) (λ other. omega arith) in
      let (c1, runs1, fl, solid1, at1, highest1, seq1) =
        buffer_packet-fills in_cksum ok _ buf solid clean g (seq_num ∙ at_i) flag in
      let (c2, acts, runs2, rec, at2, answers, seq2) =
        flush-IsSolid in_cksum ok fl solid1 (omega (arith, highest1)) in
      (
        c2,
        write (part n file c.expected) ∷ stray ∷ acts,
        buffer_round in_cksum atoi calloc argv c c1 _ State.flush again _ _ runs1
            ∙ ap (after (write (part n file c.expected) ∷ stray ∷ []))
                (flush_turn in_cksum atoi calloc argv c1 c2 acts State.recv_data rest runs2)
            ∙ after-after (write (part n file c.expected) ∷ stray ∷ []) acts
                (client_runs in_cksum atoi calloc argv State.recv_data c2 rest),
        subst (Receives (cut n file count) c2)
            (append_assoc out (part n file c.expected) (written acts)) rec,
        omega (arith, at2, highest1),
        answers
            ∙ ap (λ k. create_pdu in_cksum k Flag.rr (htonl_bytes c1.highest) ∷ []) seq1
            ∙ ap (λ k. create_pdu in_cksum c.client_seq_num Flag.rr (htonl_bytes k) ∷ []) highest1,
        seq2 ∙ seq1,
      )

  -- From RECV_DATA back to RECV_DATA: the SREJ, then the missing packet, then one RR.
  pub process_file-repairs :
      (stack again : List ℕ) (stacks : List (List ℕ)) (c : Client) (out : List ℕ)
      → Receives (cut n file count) c out
      → c.expected + 1 + length stacks ≤ count
      → 1 + length stacks < c.window.size
      → (c' : Client) × (acts : List Action) × (client_runs in_cksum atoi calloc argv
            State.recv_data c
            (late in_cksum n file (c.expected + 1) (stack ∷ stacks)
              ++ (answer (
                    arrived again
                      (create_pdu in_cksum c.expected Flag.srej_retran (part n file c.expected)))
                  ∷ answer timed_out
                  ∷ rest))
          ≡ after acts (client_runs in_cksum atoi calloc argv State.recv_data c' rest))
        × Receives (cut n file count) c' (out ++ written acts)
        × (c'.expected ≡ c.expected + 2 + length stacks)
        × (sent acts
            ≡ create_pdu in_cksum c.client_seq_num Flag.srej (htonl_bytes c.expected)
              ∷ create_pdu in_cksum
                  (u32 (c.client_seq_num + 1))
                  Flag.rr
                  (htonl_bytes (c.expected + 1 + length stacks))
              ∷ [])
  process_file-repairs stack again stacks c out rec to room =
      let srej = create_pdu in_cksum c.client_seq_num Flag.srej (htonl_bytes c.expected) in
      let last =
        answer
          (arrived again (create_pdu in_cksum c.expected Flag.srej_retran (part n file c.expected)))
        ∷ answer timed_out
        ∷ rest in
      let (c1, runs1, buf1, solid1, at1, highest1, size1, seq1) =
        recv_data-late stack c out (late in_cksum n file (c.expected + 1 + 1) stacks ++ last) rec
          (omega arith) (omega arith) in
      let (c2, runs2, buf2, solid2, at2, highest2, seq2) =
        buffer-late_all stacks c1 out (c.expected + 1 + 1) last (omega (arith, highest1)) buf1
          solid1 (omega (arith, highest1)) (omega (arith, highest1, at1, size1)) in
      let (c3, acts, runs3, rec3, at3, answers, seq3) =
        buffer-repairs again c2 out c.expected (sym (at2 ∙ at1)) buf2 solid2
          (omega (arith, highest2, highest1)) in
      (
        c3,
        send srej ∷ acts,
        runs1
            ∙ ap (after (send srej ∷ [])) (runs2 ∙ runs3)
            ∙ after-after (send srej ∷ []) acts
                (client_runs in_cksum atoi calloc argv State.recv_data c3 rest),
        rec3,
        omega (arith, at3, highest2, highest1),
        ap (λ q. srej ∷ q)
            (answers
              ∙ ap (λ k. create_pdu in_cksum k Flag.rr (htonl_bytes c2.highest) ∷ []) (seq2 ∙ seq1)
              ∙ ap
                  (λ k.
                    create_pdu in_cksum (u32 (c.client_seq_num + 1)) Flag.rr (htonl_bytes k) ∷ [])
                  (highest2 ∙ ap (λ h. h + length stacks) highest1)),
      )
