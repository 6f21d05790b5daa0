-- ===== src/Service/Reading.antt =====
-- `send_data` on every branch: full window, failed read, data, EOF, and the reads after EOF.
use cpe464_a.Base.{
  ℕ, ◌+◌, ◌-◌, ◌*◌, ◌≤◌, ◌<◌, ◌≡◌, ◌⊎◌, inl, inr, Bool-cases, false, true, some, List, [], ◌∷◌,
  length, take, drop, arith, ◌∙◌, ap, refl, sym, subst, eq→==, ne→==, le→ltb, length-drop,
  length-take,
}
use native.Mathlib.Decide.{dec_lt}
use cpe464_a.Flag
use cpe464_a.Process.{goes, send}
use cpe464_a.Pdu.{create_pdu}
use cpe464_a.Window.{Buffer, slot, window_full}
use cpe464_a.Window.Slots.{slot-some}
use cpe464_a.Server.{State, Server, Answers}
use cpe464_a.Server.Send.{send_data, send_eof}
use cpe464_a.Server.Sending.{part, FinalNoted, sent_on, send_payload_at, send_data-payload}
use cpe464_a.Server.Ending.{send_data-eof_on}
use cpe464_a.Service.{Fills, Open, Closed, Sends, Promised, eof_sent}
use cpe464_a.Service.Lengths.{part_some, part_end}
use cpe464_a.Service.Sending.{Open-Reads, Sends-data, Sends-eof}

-- How a call of `send_data` ends.
module _ (in_cksum : List ℕ → ℕ) (n : ℕ) (file : List ℕ) (count : ℕ) (sr : Server)
    (a : Answers) where
  -- It waits: the window is full, or EOF was sent before and the read gives nothing.
  abbrev pub Waited : Type 0
  Waited =
      ((window_full sr.window ≡ true)
        ⊎ ((sr.finished ≡ 1) × (window_full sr.window ≡ false) × (a.read_fails ≡ false)))
      × (send_data in_cksum sr a ≡ goes State.wait_on_ack sr [])

  -- The read failed.
  abbrev pub ReadFailed : Type 0
  ReadFailed =
      (window_full sr.window ≡ false)
      × (a.read_fails ≡ true)
      × (send_data in_cksum sr a ≡ goes State.done sr [])

  -- It sent the next packet of the file.
  abbrev pub SentData : Type 0
  SentData =
      (window_full sr.window ≡ false)
      × (a.read_fails ≡ false)
      × Open in_cksum n file count sr
      × (sr.seq_num ≤ count)
      × (sr' : Server) × (send_data in_cksum sr a
          ≡ goes State.send_data sr'
              (send (create_pdu in_cksum sr.seq_num Flag.data_flag (part n file sr.seq_num)) ∷ []))
      × Sends in_cksum n file count sr'
      × (sr'.seq_num ≡ sr.seq_num + 1)

  -- It sent EOF.
  abbrev pub SentEof : Type 0
  SentEof =
      (window_full sr.window ≡ false)
      × (a.read_fails ≡ false)
      × Open in_cksum n file count sr
      × (sr.seq_num ≡ count + 1)
      × (sr' : Server) × (send_data in_cksum sr a
          ≡ goes State.wait_on_ack sr'
              (send (create_pdu in_cksum sr.seq_num Flag.end_of_file (a.stack_byte ∷ [])) ∷ []))
      × Sends in_cksum n file count sr'
      × (sr'.finished ≡ 1)
      × (sr'.seq_num ≡ sr.seq_num)

  abbrev pub Turned : Type 0
  Turned = Waited ⊎ (ReadFailed ⊎ (SentData ⊎ SentEof))

module _ (in_cksum : List ℕ → ℕ) {n : ℕ} {file : List ℕ} {count : ℕ} (fl : Fills n file count)
    {sr : Server} (sends : Sends in_cksum n file count sr) (a : Answers) where
  pub send_data-data :
      Open in_cksum n file count sr
      → window_full sr.window ≡ false
      → a.read_fails ≡ false
      → sr.seq_num ≤ count
      → (b : Buffer) → slot sr.window sr.seq_num ≡ some b
      → let packet = create_pdu in_cksum sr.seq_num Flag.data_flag (part n file sr.seq_num) in
        (final_len final_seq : ℕ) × (send_data in_cksum sr a
          ≡ goes State.send_data (sent_on sr b packet final_len final_seq) (send packet ∷ []))
        × FinalNoted sr packet final_len final_seq
  send_data-data open_now room reads to b here =
      subst
        (λ k.
          let packet = create_pdu in_cksum sr.seq_num Flag.data_flag (part k file sr.seq_num) in
          (final_len final_seq : ℕ) × (send_data in_cksum sr a
            ≡ goes State.send_data (sent_on sr b packet final_len final_seq) (send packet ∷ []))
          × FinalNoted sr packet final_len final_seq)
        sends.size_is
        (let (final_len, final_seq, runs, noted) =
            send_payload_at in_cksum sr (part sr.buf_size file sr.seq_num) b here fits in
          (
            final_len,
            final_seq,
            send_data-payload in_cksum (Open-Reads in_cksum fl sends open_now) a room reads more
                ∙ runs,
            noted,
          ))
    where
      from : 1 ≤ sr.seq_num
      from = omega (arith, sends.lower_from_one, sends.lower_le)

      more : (sr.seq_num - 1) * sr.buf_size < length file
      more =
          subst (λ k. (sr.seq_num - 1) * k < length file) (sym sends.size_is)
            (omega (
              arith,
              part_some fl sr.seq_num from to,
              length-take n (drop ((sr.seq_num - 1) * n) file),
              length-drop ((sr.seq_num - 1) * n) file,
            ))

      fits : length (part sr.buf_size file sr.seq_num) ≤ 1400
      fits = omega (
        arith,
        length-take sr.buf_size (drop ((sr.seq_num - 1) * sr.buf_size) file),
        sends.size_is,
        fl.size_le,
      )

  pub send_data-Closed :
      Closed in_cksum n file count sr
      → window_full sr.window ≡ false
      → a.read_fails ≡ false
      → send_data in_cksum sr a ≡ goes State.wait_on_ack sr []
  unfolding send_data send_eof
  send_data-Closed closed room reads =
      rw
        (
          room,
          le→ltb 1406 sr.buf_size (omega (arith, sends.size_is, fl.size_le)),
          reads,
          sends.unread,
          eq→== (length (take sr.buf_size (drop ((sr.seq_num - 1) * n) file))) 0 none_read,
          ne→== sr.finished 0 (omega (arith, closed.is_finished)),
        )
        refl
    where
      none_read : length (take sr.buf_size (drop ((sr.seq_num - 1) * n) file)) ≡ 0
      none_read = omega (
        arith,
        length-take sr.buf_size (drop ((sr.seq_num - 1) * n) file),
        length-drop ((sr.seq_num - 1) * n) file,
        part_end fl sr.seq_num (omega (arith, closed.seq_is)),
      )

  pub at_end : count < sr.seq_num → length file ≤ (sr.seq_num - 1) * sr.buf_size
  at_end past =
      subst (λ k. length file ≤ (sr.seq_num - 1) * k) (sym sends.size_is)
        (part_end fl sr.seq_num past)

  -- What `send_data` does when the window has room and the read succeeds, before EOF.
  read-Open :
      window_full sr.window ≡ false
      → a.read_fails ≡ false
      → Open in_cksum n file count sr
      → SentData in_cksum n file count sr a ⊎ SentEof in_cksum n file count sr a
  read-Open room reads open_now =
      let (b, here) = slot-some sends.window_valid sr.seq_num in
      elim (dec_lt count sr.seq_num) [
        | yes past ↦ inr (
          room,
          reads,
          open_now,
          omega (arith, sends.to_count),
          _,
          send_data-eof_on in_cksum (Open-Reads in_cksum fl sends open_now) a room reads
              (at_end past) open_now.unfinished b here,
          Sends-eof in_cksum fl sends open_now room past b a.stack_byte,
          refl,
          refl,
        )
        | no within ↦
            let to : sr.seq_num ≤ count = omega arith in
            let (final_len, final_seq, runs, noted) =
              send_data-data open_now room reads to b here in
            inl (
              room,
              reads,
              open_now,
              to,
              _,
              runs,
              Sends-data in_cksum fl sends open_now room to b final_len final_seq noted,
              omega (arith, sends.in_word),
            )
      ]

  -- Where the invariant of SEND_DATA holds, for a file that count buffers of 1 to 1400 bytes hold,
  -- one call of send_data does one of four things, whatever the surroundings answer. If the window
  -- is full, or EOF was sent before and the read does not fail, it goes to WAIT_ON_ACK and changes
  -- and sends nothing. If the window has room and the read fails, it goes to DONE, likewise. If
  -- there is room, the read succeeds, EOF was not sent, and the next number is at most count, it
  -- sends exactly the data packet of that number and stays in SEND_DATA with its invariant for the
  -- number after it. If the next number is count + 1 instead, it sends exactly EOF under that
  -- number, keeps the number, sets finished and goes to WAIT_ON_ACK, and the invariant of the
  -- variables holds.
  pub send_data-Turned : Turned in_cksum n file count sr a
  unfolding send_data
  send_data-Turned = elim (Bool-cases (window_full sr.window)) [
    | inl full ↦ inl (inl full, rw full refl)
    | inr room ↦ elim (Bool-cases a.read_fails) [
      | inl fails ↦ inr (
          inl (
            room,
            fails,
            rw (room, le→ltb 1406 sr.buf_size (omega (arith, sends.size_is, fl.size_le)), fails)
                refl,
          ))
      | inr reads ↦ elim sends.phase [
        | inl open_now ↦ inr (inr (read-Open room reads open_now))
        | inr closed ↦
            inl (inr (closed.is_finished, room, reads), send_data-Closed closed room reads)
      ]
    ]
  ]

  -- So it has no fault, and keeps the invariants and the order of what is sent.
  pub send_data-Promised : Promised in_cksum n file count sr.seq_num (send_data in_cksum sr a)
  send_data-Promised = elim send_data-Turned [
    | inl (inl full, runs) ↦ rw runs (record { sends = sends; shut = inl full }, refl)
    | inl (inr (over, room, reads), runs) ↦
        rw runs (record { sends = sends; shut = inr over }, refl)
    | inr (inl (room, fails, runs)) ↦ rw runs (tt, refl)
    | inr (inr (inl (room, reads, open_now, to, sr', runs, next, counts))) ↦
        rw runs (next, inl (record { to_count = to; bytes = refl }, counts))
    | inr (inr (inr (room, reads, open_now, at, sr', runs, next, over, counts))) ↦ rw runs (
      record { sends = next; shut = inr over },
      inr (
        eof_sent a.stack_byte at
            (ap (λ k. create_pdu in_cksum k Flag.end_of_file (a.stack_byte ∷ [])) at),
        counts,
      ),
    )
  ]
