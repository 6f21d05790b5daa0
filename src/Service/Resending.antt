-- ===== src/Service/Resending.antt =====
-- `timeout_on_ack` and `send_srej` keep the invariant: what goes out again is a packet of the file.
use cpe464_a.Base.{
  ℕ, ◌+◌, ◌%◌, ◌≤◌, ◌<◌, ◌≡◌, ◌⊎◌, inl, inr, some, List, length, arith, sym, ◌∙◌, ap, refl, subst,
  ==→eq,
}
use native.Mathlib.Decide.{ℕ_discrete}
use cpe464_a.Flag
use cpe464_a.Process.{Action}
use cpe464_a.Pdu.{Received, create_pdu, read_u32}
use cpe464_a.Window.{Buffer, Window, put_slot, window_full}
use cpe464_a.Window.Slots.{IsValid, put_slot-IsValid, slot-put_slot_self, slot-put_slot_ne}
use cpe464_a.Window.Bounds.{IsBounded}
use cpe464_a.Window.Laws.{near_index}
use cpe464_a.Server.{Server}
use cpe464_a.Server.Sending.{part}
use cpe464_a.Server.Resend.{timeout_on_ack, send_srej}
use cpe464_a.Server.Resending.{refreshed, timeout_on_ack_at, send_srej_at}
use cpe464_a.Service.{
  Fills, Held, Holds, held_data, held_eof, Sends, TimesOut, Promised, Transmits, resent,
}
use cpe464_a.Service.Lengths.{part-le, length_of_sent-part}

module _ (in_cksum : List ℕ → ℕ) {n : ℕ} {file : List ℕ} {count : ℕ} where
  -- Another window for the same packets.
  pub Sends-with :
      {sr : Server}
      → Sends in_cksum n file count sr
      → {w : Window} → w.size ≡ sr.window.size
      → w.current ≡ sr.window.current
      → IsValid w
      → IsBounded w
      → 1 ≤ w.lower
      → w.lower ≤ sr.seq_num
      → Holds in_cksum n file count w
      → (retry_count eof_retry_count : ℕ)
      → Sends in_cksum n file count
          (record sr { window = w; retry_count = retry_count; eof_retry_count = eof_retry_count })
  Sends-with {sr} sends {w} size current valid bounded from le holds r e = record {
    size_is = sends.size_is;
    data_len_is = sends.data_len_is;
    window_valid = valid;
    window_bounded = bounded;
    in_word = omega (arith, sends.in_word);
    lower_from_one = from;
    lower_le = le;
    to_count = sends.to_count;
    unread = sends.unread;
    phase = elim sends.phase [
      | inl open_now ↦ inl (record {
        unfinished = open_now.unfinished;
        current_is = current ∙ open_now.current_is;
        no_eof = open_now.no_eof;
      })
      | inr closed ↦ inr (record {
        is_finished = closed.is_finished;
        current_is = current ∙ closed.current_is;
        seq_is = closed.seq_is;
        last_is = closed.last_is;
        eof_len_is = closed.eof_len_is;
      })
    ];
    final_is = sends.final_is;
    final_known = sends.final_known;
    held = holds;
  }

  -- The counts are not part of the invariant.
  pub Sends-counts :
      {sr : Server}
      → Sends in_cksum n file count sr
      → (retry_count eof_retry_count : ℕ)
      → Sends in_cksum n file count
          (record sr { retry_count = retry_count; eof_retry_count = eof_retry_count })
  Sends-counts sends r e =
      Sends-with sends refl refl sends.window_valid sends.window_bounded sends.lower_from_one
        sends.lower_le sends.held r e

  -- A new entry for `s`.
  pub put_slot-Holds :
      {w : Window}
      → IsValid w
      → IsBounded w
      → Holds in_cksum n file count w
      → (s : ℕ) (e : Buffer) → w.lower ≤ s
      → s < w.lower + w.size
      → (s < w.current → Held in_cksum n file count s e)
      → Holds in_cksum n file count (put_slot w s e)
  unfolding put_slot
  put_slot-Holds {w} v bd holds s e above below new i from to = elim (ℕ_discrete i s) [
    | yes at ↦ (
      e,
      slot-put_slot_self v s i e (ap (λ k. k % w.size) at),
      subst (λ k. Held in_cksum n file count k e) (sym at) (new (omega arith)),
    )
    | no other ↦
        let (x, here, held) = holds i from to in
        (
          x,
          slot-put_slot_ne w s i e (
                near_index w.size s i v.positive (omega (arith, bd.below)) (omega (arith, bd.below))
                  (omega arith))
              ∙ here,
          held,
        )
  ]

  module _ (fl : Fills n file count) {sr : Server} (sends : Sends in_cksum n file count sr) where
    -- What was sent has a place below `current`.
    pub below_current : (i : ℕ) → i < sr.seq_num → i < sr.window.current
    below_current i lt = elim sends.phase [
      | inl open_now ↦ omega (arith, open_now.current_is)
      | inr closed ↦ omega (arith, closed.current_is)
    ]

    -- The packet of `i` under another flag.
    pub Sends-refreshed :
        (i flag : ℕ) (rest : List ℕ) (b : Buffer)
        → sr.window.lower ≤ i
        → i < sr.seq_num
        → i ≤ count
        → (flag ≡ Flag.data_flag) ⊎ (flag ≡ Flag.data_timeout) ⊎ (flag ≡ Flag.srej_retran)
        → Sends in_cksum n file count (record sr {
          window =
              refreshed in_cksum sr.window i b (create_pdu in_cksum i flag (part n file i)) rest;
        })
    unfolding put_slot
    Sends-refreshed i flag rest b from sent to is =
        let v = sends.window_valid in
        let bd = sends.window_bounded in
        Sends-with sends refl refl (put_slot-IsValid v i _)
          (record {
            upper_is = bd.upper_is;
            in_word = bd.in_word;
            above = bd.above;
            below = bd.below;
          })
          sends.lower_from_one sends.lower_le
          (put_slot-Holds v bd sends.held i _ from (omega (arith, below_current i sent, bd.below))
            (λ below. held_data flag rest to is refl))
          sr.retry_count sr.eof_retry_count

    pub fits : (i : ℕ) → length (part n file i) ≤ 1400
    fits i = omega (arith, part-le fl i, fl.size_le)

    pub send_srej-Sends :
        (r : Received)
        → sr.window.lower ≤ read_u32 r.buf 7
        → read_u32 r.buf 7 < sr.seq_num
        → read_u32 r.buf 7 ≤ count
        → (sr' : Server) × (acts : List Action) × (send_srej in_cksum sr r ≡ some (sr', acts))
          × Sends in_cksum n file count sr'
          × Transmits in_cksum n file count sr.seq_num sr'.seq_num acts
    send_srej-Sends r from sent to =
        let i = read_u32 r.buf 7 in
        let (b, here, held) = sends.held i from (below_current i sent) in
        elim held [
          | held_eof byte rest at e ↦ absurd (omega arith)
          | held_data old rest to' is e ↦ (
            _,
            _,
            send_srej_at in_cksum sr r i old (part n file i) rest b refl here e (omega arith)
                (fits i)
                (length_of_sent-part fl sends i (omega (arith, sends.lower_from_one)) to sent),
            Sends-refreshed i Flag.srej_retran rest b from sent to (inr (inr refl)),
            inr (
              resent i Flag.srej_retran (omega (arith, sends.lower_from_one)) sent to (inr refl)
                  refl,
              refl,
            ),
          )
        ]

  lower_sent : {sr : Server} → TimesOut in_cksum n file count sr → sr.window.lower < sr.seq_num
  unfolding window_full
  lower_sent {sr} out =
      let sends = out.waits.sends in
      elim sends.phase [
        | inr closed ↦ omega (arith, closed.seq_is, out.data_lower)
        | inl open_now ↦ elim out.waits.shut [
          | inr finished ↦ absurd (omega (arith, open_now.unfinished))
          | inl full ↦
              let at : sr.window.current ≡ sr.window.upper = ==→eq _ _ full in
              omega (
                arith, open_now.current_is, sends.window_bounded.upper_is,
                sends.window_valid.positive,
              )
        ]
      ]

  pub timeout_on_ack-Promised :
      Fills n file count
      → (sr : Server) → TimesOut in_cksum n file count sr
      → Promised in_cksum n file count sr.seq_num (timeout_on_ack in_cksum sr)
  unfolding put_slot window_full
  timeout_on_ack-Promised fl sr out =
      let sends = out.waits.sends in
      let i = sr.window.lower in
      let sent = lower_sent out in
      let (b, here, held) = sends.held i (omega arith) (below_current fl sends i sent) in
      elim held [
        | held_eof byte rest at e ↦ absurd (omega (arith, out.data_lower))
        | held_data old rest to is e ↦
            rw
              (timeout_on_ack_at in_cksum sr i old (part n file i) rest b here e
                (omega (arith, sends.in_word, to)) (fits fl sends i)
                (length_of_sent-part fl sends i sends.lower_from_one to sent))
              (
                record {
                  sends =
                      Sends-refreshed fl sends i Flag.data_timeout rest b (omega arith) sent to
                        (inr (inl refl));
                  shut = out.waits.shut;
                },
                inr (resent i Flag.data_timeout sends.lower_from_one sent to (inl refl) refl, refl),
              )
      ]
