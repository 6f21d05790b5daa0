-- ===== src/Delivery/Outcomes.antt =====
-- What `recv_data` and `buffer` of rcopy.c do with a packet that they get, on every branch.
use cpe464_a.Base.{
  ℕ, ◌+◌, ◌<◌, ◌≡◌, ◌⊎◌, inl, inr, true, false, Bool-cases, List, [], ◌∷◌, ◌++◌, arith, ap, refl,
  sym, ◌∙◌, u32, htonl_bytes, eq→==, ne→==, lt→ltb, le→ltb, append-nil, subst,
}
use native.Mathlib.Decide.{dec_lt, ℕ_discrete}
use cpe464_a.Flag
use cpe464_a.Process.{Action, send, write, stray, goes, exits}
use cpe464_a.Pdu.{Received, is_corrupt, create_pdu, send_buf}
use cpe464_a.Window.{put_slot}
use cpe464_a.Rcopy.{State, Client, Result, send_seq}
use cpe464_a.Rcopy.Receive.{recv_data_packet, recv_old, buffer_packet}
use cpe464_a.Delivery.{
  Stream, IsStream, delivered, IsData, IsEof, IsGenuine, Receives, Flushes, Buffers, Promised,
  Arrives, ArrivesInOrder,
}
use cpe464_a.Delivery.Packets.{Noted, note_genuine}
use cpe464_a.Delivery.Storing.{store-Buffers, Known-update}
use cpe464_a.Delivery.Receiving.{
  noted_client, Noted-Receives, Noted-Learned, recv_data_packet-noted, recv_in_order-data,
  recv_in_order-eof, recv_genuine-Promised,
}
use cpe464_a.Delivery.Buffering.{Noted-Buffers, buffer_packet-noted, buffer_in_order-data}
use cpe464_a.Delivery.Advancing.{advanced, advance-Flushes}
use cpe464_a.Delivery.Recovering.{recv_out_of_order_at, buffer_out_of_order_at}

module _ (in_cksum : List ℕ → ℕ) (s : Stream) (out : List ℕ) (c : Client) (r : Received) where
  -- The packet is damaged and dropped, and nothing is changed or sent.
  abbrev pub Dropped : State → Result → Type 0
  Dropped st result = (is_corrupt in_cksum r ≡ true) × (result ≡ goes st c [])

  -- It is ahead, and is kept as the highest one; the expected one stays the same.
  abbrev pub Kept : List Action → Result → Type 0
  Kept acts result =
      (is_corrupt in_cksum r ≡ false)
      × (c.expected < r.seq_num)
      × (c' : Client) × (result ≡ goes State.buffer c' acts)
      × Buffers s c' out
      × (c'.expected ≡ c.expected)
      × (c'.highest ≡ r.seq_num)

  -- `buffer` got the expected packet.
  abbrev pub Filled : Result → Type 0
  Filled result =
      (is_corrupt in_cksum r ≡ false)
      × (r.seq_num ≡ c.expected)
      × (c' : Client) × (result ≡ goes State.flush c' (write (s.chunk c.expected) ∷ stray ∷ []))
      × Flushes s c' (out ++ s.chunk c.expected)
      × (c'.expected ≡ c.expected + 1)
      × (c'.highest ≡ c.highest)

  -- An answer of the client with a number in it.
  abbrev pub answer : (flag number : ℕ) → Action
  answer flag number = send (create_pdu in_cksum c.client_seq_num flag (htonl_bytes number))

  -- `recv_data` got the expected data packet.
  abbrev pub Written : Result → Type 0
  Written result =
      (is_corrupt in_cksum r ≡ false)
      × IsData s c.expected r
      × (r.seq_num ≡ c.expected)
      × (c' : Client) × (result
          ≡ goes State.recv_data c'
              (answer Flag.rr (u32 (r.seq_num + 1)) ∷ write (s.chunk c.expected) ∷ []))
      × Receives s c' (out ++ s.chunk c.expected)
      × (c'.expected ≡ c.expected + 1)

  -- `recv_data` got EOF in its turn.
  abbrev pub Finished : Result → Type 0
  Finished result =
      (is_corrupt in_cksum r ≡ false)
      × IsEof s r
      × (r.seq_num ≡ c.expected)
      × (result ≡ exits 0 (answer Flag.eof_ack (u32 (r.seq_num + 1)) ∷ []))
      × (out ≡ delivered s s.count)

  -- `recv_data` got a packet from before the expected one.
  abbrev pub Repeated : Result → Type 0
  Repeated result =
      (is_corrupt in_cksum r ≡ false)
      × (r.seq_num < c.expected)
      × (c' : Client) × (result
          ≡ goes State.recv_data c' (answer Flag.rr (u32 (r.seq_num + 1)) ∷ []))
      × Receives s c' out
      × (c'.expected ≡ c.expected)

  abbrev pub BufferTreats : Type 0
  BufferTreats =
      let result = buffer_packet in_cksum c r in
      Dropped State.buffer result ⊎ (Filled result ⊎ Kept [] result)

  abbrev pub RecvTreats : Type 0
  RecvTreats =
      let result = recv_data_packet in_cksum c r in
      Dropped State.recv_data result
      ⊎ (Written result
          ⊎ (Finished result ⊎ (Kept (answer Flag.srej c.expected ∷ []) result ⊎ Repeated result)))

module _ (in_cksum : List ℕ → ℕ) {s : Stream} (ok : IsStream s) {c : Client} {out : List ℕ}
    (r : Received) where
  -- The EOF packet comes after all that are stored, so it is not the one that `buffer` expects.
  expected-IsData :
      Buffers s c out → IsGenuine s c.expected r → r.seq_num ≡ c.expected → IsData s c.expected r
  expected-IsData buf g at = elim g [
    | inl is_data ↦ is_data
    | inr is_eof ↦ absurd (omega (arith, is_eof.after_all, buf.hole, buf.flushes.top.2.inside))
  ]

  buffer_genuine :
      Buffers s c out
      → is_corrupt in_cksum r ≡ false
      → IsGenuine s c.expected r
      → r.seq_num < c.expected + c.window.size
      → (r.seq_num ≡ c.expected) ⊎ (c.highest < r.seq_num)
      → BufferTreats in_cksum s out c r
  unfolding put_slot
  buffer_genuine buf clean g near order = elim order [
    | inl at ↦
        let is_data = expected-IsData buf g at in
        let (b, here, entry) =
          buf.flushes.entries c.expected (omega arith)
            (omega (arith, buf.flushes.known.window_valid.positive)) in
        inr (
          inl (
            clean,
            at,
            advanced (noted_client n) b,
            buffer_packet-noted in_cksum c (noted_client n) r clean (omega (arith, at)) n.noted
                ∙ rw (eq→== r.seq_num c.expected at) refl
                ∙ buffer_in_order-data ok (noted_client n) r is_data at here,
            advance-Flushes ok buf'.flushes here buf.hole,
            omega (arith, ok.bounded, is_data.to_count, at),
            refl,
          ))
    | inr above ↦
        let (b, stored, buffers) =
          store-Buffers ok c.client_seq_num buf'.flushes.known buf'.flushes.entries g
            (Noted-Learned n) (omega arith) (omega (arith, buf.hole)) near in
        inr (
          inr (
            clean,
            omega (arith, buf.hole),
            record (noted_client n) { window = put_slot c.window r.seq_num b; highest = r.seq_num },
            buffer_packet-noted in_cksum c (noted_client n) r clean (omega (arith, buf.hole))
                  n.noted
                ∙ rw (ne→== r.seq_num c.expected (omega (arith, buf.hole))) refl
                ∙ buffer_out_of_order_at in_cksum (noted_client n) r stored,
            buffers,
            refl,
            refl,
          ))
  ]
    where
      n : Noted s c r
      n = note_genuine ok buf.flushes.known r g

      buf' : Buffers s (noted_client n) out
      buf' = Noted-Buffers ok buf n

  -- Where the invariant of BUFFER holds, buffer does one of three things with a received packet
  -- that may arrive there (damaged as the checksum shows, or genuine with its number below the end
  -- of the window and either expected or above all that are stored). One whose checksum is wrong
  -- is dropped: it stays in BUFFER and changes, sends and writes nothing. The expected one is
  -- written, with the stray byte of rcopy.c:387 after it (undefined in C, past which the program
  -- is taken to go on) and nothing else, expected goes up by 1 and highest stays, and FLUSH is
  -- next, with its invariant. One ahead is stored and becomes the highest, expected stays, nothing
  -- is sent or written, and it stays in BUFFER with its invariant.
  pub buffer_packet-BufferTreats :
      Buffers s c out → ArrivesInOrder s in_cksum c r → BufferTreats in_cksum s out c r
  unfolding buffer_packet
  buffer_packet-BufferTreats buf may = elim (Bool-cases (is_corrupt in_cksum r)) [
    | inl bad ↦ inl (bad, rw bad refl)
    | inr clean ↦ elim may [
      | inl bad ↦ inl (bad, rw bad refl)
      | inr (g, near, order) ↦ buffer_genuine buf clean g near order
    ]
  ]

  module _ (rec : Receives s c out) (clean : is_corrupt in_cksum r ≡ false)
      (g : IsGenuine s c.expected r) (near : r.seq_num < c.expected + c.window.size) where
    n : Noted s c r
    n = note_genuine ok rec.known r g

    rec' : Receives s (noted_client n) out
    rec' = Noted-Receives ok rec n

    keeps : Promised s out (recv_data_packet in_cksum c r)
    keeps = recv_genuine-Promised in_cksum ok r rec clean g near

    expected_treats : r.seq_num ≡ c.expected → RecvTreats in_cksum s out c r
    unfolding send_seq send_buf
    expected_treats at = elim g [
      | inl is_data ↦
          let runs =
            recv_data_packet-noted in_cksum c (noted_client n) r clean n.noted
            ∙ rw (eq→== r.seq_num c.expected at) refl
            ∙ recv_in_order-data in_cksum ok (noted_client n) r is_data
            ∙ ap
                (λ i.
                  goes State.recv_data
                    (record (noted_client n) {
                      highest = c.expected;
                      expected = u32 (c.expected + 1);
                      client_seq_num = u32 (c.client_seq_num + 1);
                    })
                    (answer in_cksum s out c r Flag.rr (u32 (r.seq_num + 1))
                      ∷ write (s.chunk i)
                      ∷ []))
                at in
          inr (
            inl (
              clean,
              is_data,
              at,
              _,
              runs,
              subst (Receives s _) (ap (λ bs. out ++ bs) (append-nil (s.chunk c.expected)))
                  (subst (Promised s out) runs keeps),
              omega (arith, ok.bounded, is_data.to_count, at),
            ))
      | inr is_eof ↦
          let runs =
            recv_data_packet-noted in_cksum c (noted_client n) r clean n.noted
            ∙ rw (eq→== r.seq_num c.expected at) refl
            ∙ recv_in_order-eof in_cksum ok (noted_client n) r is_eof.eof_flag in
          inr (
            inr (
              inl (
                clean,
                is_eof,
                at,
                runs,
                sym (append-nil out) ∙ (subst (Promised s out) runs keeps).1 refl,
              )))
    ]

    ahead_treats : c.expected < r.seq_num → RecvTreats in_cksum s out c r
    unfolding put_slot
    ahead_treats lt =
        let (b, stored, buffers) =
          store-Buffers ok (u32 (c.client_seq_num + 1)) rec'.known rec'.empty g (Noted-Learned n)
            (omega arith) lt near in
        inr (
          inr (
            inr (
              inl (
                clean,
                lt,
                _,
                recv_data_packet-noted in_cksum c (noted_client n) r clean n.noted
                    ∙ rw (ne→== r.seq_num c.expected (omega arith), lt→ltb c.expected r.seq_num lt)
                        refl
                    ∙ recv_out_of_order_at in_cksum (noted_client n) r stored,
                buffers,
                refl,
                refl,
              ))))

    old_treats : r.seq_num < c.expected → RecvTreats in_cksum s out c r
    unfolding recv_old send_seq send_buf
    old_treats lt = inr (
        inr (
          inr (
            inr (
              clean,
              lt,
              record (noted_client n) { client_seq_num = u32 (c.client_seq_num + 1) },
              recv_data_packet-noted in_cksum c (noted_client n) r clean n.noted
                  ∙ rw
                      (
                        ne→== r.seq_num c.expected (omega arith),
                        le→ltb c.expected r.seq_num (omega arith),
                      )
                      refl,
              record {
                known = Known-update c.window c.highest _ rec'.known.window_valid rec'.known;
                empty = rec'.empty;
              },
              refl,
            ))))

    recv_genuine : RecvTreats in_cksum s out c r
    recv_genuine = elim (ℕ_discrete r.seq_num c.expected) [
      | yes at ↦ expected_treats at
      | no other ↦ elim (dec_lt c.expected r.seq_num) [
        | yes lt ↦ ahead_treats lt
        | no old ↦ old_treats (omega arith)
      ]
    ]

  -- Where the invariant of RECV_DATA holds, recv_data does one of five things with a received
  -- packet that may arrive there (damaged as the checksum shows, or genuine with its number below
  -- the end of the window). One whose checksum is wrong is dropped, and nothing is changed, sent
  -- or written. The expected data packet is answered by an RR for the number after it and written,
  -- expected goes up by 1, and it stays in RECV_DATA with its invariant. The EOF packet in its
  -- turn is answered by an EOF_ACK for the number after it, and the program exits with 0 and the
  -- whole file on the disk. For a packet ahead an SREJ for the expected one is sent, the packet is
  -- stored as the highest, and BUFFER is next, with its invariant and the same packet expected.
  -- For a packet from before the expected one an RR for the number after that packet is sent, and
  -- it stays in RECV_DATA with its invariant and the same packet expected.
  pub recv_data_packet-RecvTreats :
      Receives s c out → Arrives s in_cksum c r → RecvTreats in_cksum s out c r
  unfolding recv_data_packet
  recv_data_packet-RecvTreats rec may = elim (Bool-cases (is_corrupt in_cksum r)) [
    | inl bad ↦ inl (bad, rw bad refl)
    | inr clean ↦ elim may [
      | inl bad ↦ inl (bad, rw bad refl)
      | inr (g, near) ↦ recv_genuine rec clean g near
    ]
  ]
