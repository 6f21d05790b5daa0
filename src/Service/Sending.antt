-- ===== src/Service/Sending.antt =====
-- `send_data` sends the next packet of the file, and keeps the invariant.
use cpe464_a.Base.{
  ℕ, ◌+◌, ◌-◌, ◌*◌, ◌%◌, ◌≤◌, ◌<◌, ◌≡◌, ◌≢◌, inl, inr, false, some, List, [], ◌∷◌, length, drop,
  arith, u32, sym, ◌∙◌, ap, refl, subst, ==→ne,
}
use native.Mathlib.Decide.{dec_lt, ℕ_discrete}
use cpe464_a.Flag
use cpe464_a.Pdu.{create_pdu}
use cpe464_a.Pdu.RoundTrip.{length-create_pdu}
use cpe464_a.Window.{Buffer, Window, overwrite, slot, put_slot, window_full, window_cur_update}
use cpe464_a.Window.Slots.{IsValid, slot-put_slot_self, slot-put_slot_ne, added}
use cpe464_a.Window.Laws.{near_index}
use cpe464_a.Server.{Server}
use cpe464_a.Server.Sending.{
  Reads, part, FinalNoted, sent_on, stored-IsValid, stored-IsBounded, Reads-next,
}
use cpe464_a.Server.Ending.{eof_on}
use cpe464_a.Service.{Fills, Held, held_data, held_eof, Open, Sends}
use cpe464_a.Service.Lengths.{part_full}

cur_update_slot : (w : Window) (j : ℕ) → slot (window_cur_update w) j ≡ slot w j
unfolding window_cur_update slot
cur_update_slot w j = refl

module _ (in_cksum : List ℕ → ℕ) {n : ℕ} {file : List ℕ} {count : ℕ} (fl : Fills n file count) where
  -- The window holds what it held, and the packet that was added.
  added-Held :
      {w : Window}
      → IsValid w
      → (s : ℕ) (e : Buffer) → w.lower ≤ s
      → s < w.lower + w.size
      → ((i : ℕ)
          → w.lower ≤ i
          → i < s
          → (x : Buffer) × (slot w i ≡ some x) × Held in_cksum n file count i x)
      → Held in_cksum n file count s e
      → (i : ℕ) → w.lower ≤ i
      → i < s + 1
      → (x : Buffer) × (slot (window_cur_update (put_slot w s e)) i ≡ some x)
        × Held in_cksum n file count i x
  added-Held {w} v s e above below old new i from to = elim (ℕ_discrete i s) [
    | yes at ↦ (
      e,
      cur_update_slot (put_slot w s e) i ∙ slot-put_slot_self v s i e (ap (λ k. k % w.size) at),
      subst (λ k. Held in_cksum n file count k e) (sym at) new,
    )
    | no other ↦
        let (x, here, held) = old i from (omega arith) in
        (
          x,
          cur_update_slot (put_slot w s e) i
              ∙ slot-put_slot_ne w s i e
                  (near_index w.size s i v.positive (omega arith) (omega arith) (omega arith))
              ∙ here,
          held,
        )
  ]

  module _ {sr : Server} (sends : Sends in_cksum n file count sr) where
    pub Open-Reads : Open in_cksum n file count sr → Reads file sr
    Open-Reads open_now = record {
      size_pos = omega (arith, fl.size_pos, sends.size_is);
      size_le = omega (arith, fl.size_le, sends.size_is);
      from_one = omega (arith, sends.lower_from_one, sends.lower_le);
      rest = rw sends.size_is sends.unread;
      window_valid = sends.window_valid;
      window_bounded = sends.window_bounded;
      current_is = open_now.current_is;
    }

    pub not_full :
        window_full sr.window ≡ false → sr.window.current < sr.window.lower + sr.window.size
    unfolding window_full
    not_full room =
        let other : sr.window.current ≢ sr.window.upper = ==→ne _ _ room in
        omega (arith, sends.window_bounded.upper_is, sends.window_bounded.below)

    pub Open-sent :
        Open in_cksum n file count sr
        → (b : Buffer) (packet : List ℕ) (final_len final_seq : ℕ)
        → Open in_cksum n file count (sent_on sr b packet final_len final_seq)
    unfolding window_cur_update put_slot
    Open-sent open_now b packet final_len final_seq = record {
      unfinished = open_now.unfinished;
      current_is = ap (λ k. u32 (k + 1)) open_now.current_is;
      no_eof = open_now.no_eof;
    }

    -- After a data packet.
    pub Sends-data :
        Open in_cksum n file count sr
        → window_full sr.window ≡ false
        → sr.seq_num ≤ count
        → (b : Buffer) (final_len final_seq : ℕ)
        → let packet = create_pdu in_cksum sr.seq_num Flag.data_flag (part n file sr.seq_num) in
          FinalNoted sr packet final_len final_seq
          → Sends in_cksum n file count (sent_on sr b packet final_len final_seq)
    unfolding window_cur_update put_slot overwrite
    Sends-data open_now room to b final_len final_seq noted = record {
      size_is = sends.size_is;
      data_len_is = sends.data_len_is;
      window_valid = stored-IsValid sends.window_valid sr.seq_num _;
      window_bounded = stored-IsBounded sends.window_bounded room sr.seq_num _;
      in_word = sends.in_word;
      lower_from_one = sends.lower_from_one;
      lower_le = omega (arith, sends.lower_le, sends.in_word);
      to_count = omega (arith, sends.in_word);
      unread =
          subst (λ k. drop sr.buf_size sr.data_file ≡ drop ((u32 (sr.seq_num + 1) - 1) * k) file)
            sends.size_is
            (Reads-next (Open-Reads open_now) room (omega (arith, sends.in_word)) b packet final_len
              final_seq).rest;
      phase = inl (Open-sent open_now b packet final_len final_seq);
      final_is = elim noted [
        | inl (full, len, seq) ↦ elim sends.final_is [
          | inl unset ↦ inl (seq ∙ unset)
          | inr (at, len_is) ↦ inr (seq ∙ at, len ∙ len_is)
        ]
        | inr (short, len, seq) ↦
            inr (
              seq ∙ last short,
              len ∙ length_is ∙ ap (λ k. 7 + length (part n file k)) (last short),
            )
      ];
      final_known = λ past short. elim noted [
        | inl (full, len, seq) ↦
            let at : count ≡ sr.seq_num = omega (arith, sends.in_word) in
            absurd (short (ap (λ k. length (part n file k)) at ∙ whole full))
        | inr (odd, len, seq) ↦ seq ∙ last odd
      ];
      held = λ i from below.
          added-Held sends.window_valid sr.seq_num (added sr.seq_num packet b) sends.lower_le
            (omega (arith, not_full room, open_now.current_is))
            (λ j from_j below_j. sends.held j from_j (omega (arith, open_now.current_is)))
            (held_data Flag.data_flag _ to (inl refl) refl) i from
            (omega (arith, open_now.current_is, sends.in_word));
    }
      where
        packet : List ℕ
        packet = create_pdu in_cksum sr.seq_num Flag.data_flag (part n file sr.seq_num)

        length_is : length packet ≡ 7 + length (part n file sr.seq_num)
        length_is = length-create_pdu in_cksum sr.seq_num Flag.data_flag (part n file sr.seq_num)

        whole : length packet ≡ sr.data_packet_len → length (part n file sr.seq_num) ≡ n
        whole full = omega (arith, length_is, sends.data_len_is)

        last : length packet ≢ sr.data_packet_len → sr.seq_num ≡ count
        last short = elim (dec_lt sr.seq_num count) [
          | yes lt ↦
              let full =
                part_full fl sr.seq_num (omega (arith, sends.lower_from_one, sends.lower_le)) lt in
              absurd (short (omega (arith, length_is, sends.data_len_is)))
          | no not_lt ↦ omega arith
        ]

    -- After EOF.
    pub Sends-eof :
        Open in_cksum n file count sr
        → window_full sr.window ≡ false
        → count < sr.seq_num
        → (b : Buffer) (byte : ℕ)
        → Sends in_cksum n file count
            (eof_on sr b (create_pdu in_cksum sr.seq_num Flag.end_of_file (byte ∷ [])))
    unfolding window_cur_update put_slot overwrite
    Sends-eof open_now room past b byte =
        let at : sr.seq_num ≡ count + 1 = omega (arith, sends.to_count) in
        record {
          size_is = sends.size_is;
          data_len_is = sends.data_len_is;
          window_valid = stored-IsValid sends.window_valid sr.seq_num _;
          window_bounded = stored-IsBounded sends.window_bounded room sr.seq_num _;
          in_word = sends.in_word;
          lower_from_one = sends.lower_from_one;
          lower_le = sends.lower_le;
          to_count = sends.to_count;
          unread = sends.unread;
          phase = inr (record {
            is_finished = refl;
            current_is = omega (arith, open_now.current_is, sends.in_word);
            seq_is = at;
            last_is = at;
            eof_len_is = length-create_pdu in_cksum sr.seq_num Flag.end_of_file (byte ∷ []);
          });
          final_is = sends.final_is;
          final_known = sends.final_known;
          held = λ i from below.
              added-Held sends.window_valid sr.seq_num
                (added sr.seq_num (create_pdu in_cksum sr.seq_num Flag.end_of_file (byte ∷ [])) b)
                sends.lower_le (omega (arith, not_full room, open_now.current_is))
                (λ j from_j below_j. sends.held j from_j (omega (arith, open_now.current_is)))
                (held_eof byte _ at refl) i from
                (omega (arith, open_now.current_is, sends.in_word));
        }
