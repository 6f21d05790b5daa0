-- ===== src/Server/Sending.antt =====
-- `send_data` against the file: the packets that it sends are the file, cut at the buffer size.
use cpe464_a.Base.{
  ℕ, zero, suc, ◌+◌, ◌-◌, ◌*◌, ◌^◌, ◌≤◌, ◌<◌, ◌≡◌, ◌≢◌, ◌⊎◌, ==→eq, inl, inr, some, List, [], ◌∷◌,
  length, take, drop, Bool-cases, arith, u32, false, ◌==◌, ap, sym, ◌∙◌, refl, ne→==, le→ltb,
  length-take, length-drop, ==→ne, ◌++◌,
}
use cpe464_a.Flag
use cpe464_a.Process.{goes, send}
use cpe464_a.Pdu.{create_pdu}
use cpe464_a.Pdu.RoundTrip.{length-create_pdu}
use cpe464_a.Window.{
  overwrite, Buffer, Window, window_get_packet, slot, put_slot, window_full, window_cur_update,
}
use cpe464_a.Window.Slots.{
  IsValid, slot-some, put_slot-IsValid, slot-put_slot_self, window_get_packet_at, added,
  window_add_at,
}
use cpe464_a.Window.Bounds.{IsBounded}
use cpe464_a.Server.{State, Server, Answers}
use cpe464_a.Server.Send.{note_final, transmit, send_payload, send_data}

-- The payload of packet `i`, from 1, of a file in buffers of `n` bytes.
abbrev pub part : ℕ → List ℕ → ℕ → List ℕ
part n file i = take n (drop ((i - 1) * n) file)

-- While the file is read: what is left of it, and the window.
pub record Reads (file : List ℕ) (sr : Server) : Type 0 where
  pub size_pos : 0 < sr.buf_size
  pub size_le : sr.buf_size ≤ 1400
  pub from_one : 1 ≤ sr.seq_num
  pub rest : sr.data_file ≡ drop ((sr.seq_num - 1) * sr.buf_size) file
  pub window_valid : IsValid sr.window
  pub window_bounded : IsBounded sr.window
  pub current_is : sr.window.current ≡ sr.seq_num

drop-nil {ℓ} : {A : Type ℓ} (m : ℕ) → drop {A = A} m [] ≡ []
drop-nil zero = refl
drop-nil (suc m) = refl

pub drop-drop {ℓ} : {A : Type ℓ} (m n : ℕ) (xs : List A) → drop m (drop n xs) ≡ drop (n + m) xs
drop-drop m zero xs = let same : 0 + m ≡ m = omega arith in rw same
drop-drop m (suc n) [] = drop-nil m ∙ sym (drop-nil (suc n + m))
drop-drop m (suc n) (x ∷ xs) =
    let next : suc n + m ≡ suc (n + m) = omega arith in rw next (drop-drop m n xs)

pub next_part : (s n : ℕ) → 1 ≤ s → (s - 1) * n + n ≡ s * n
next_part zero n h = absurd (omega arith)
next_part (suc s) n h = grind arith

-- The variables after a data packet went out, into an entry that was `b`.
abbrev pub sent_on : Server → Buffer → (packet : List ℕ) → (final_len final_seq : ℕ) → Server
sent_on sr b packet final_len final_seq = record sr {
  data_file = drop sr.buf_size sr.data_file;
  packet = packet;
  packet_len = length packet;
  window = window_cur_update (put_slot sr.window sr.seq_num (added sr.seq_num packet b));
  final_packet_len = final_len;
  final_packet_seq = final_seq;
  seq_num = u32 (sr.seq_num + 1);
}

-- What `send_data` notes of a packet: its length and number, if it is not a full one.
abbrev pub FinalNoted : Server → (packet : List ℕ) → (final_len final_seq : ℕ) → Type 0
FinalNoted sr packet final_len final_seq =
    ((length packet ≡ sr.data_packet_len)
      × (final_len ≡ sr.final_packet_len)
      × (final_seq ≡ sr.final_packet_seq))
    ⊎ ((length packet ≢ sr.data_packet_len)
        × (final_len ≡ length packet)
        × (final_seq ≡ sr.seq_num))

module _ (in_cksum : List ℕ → ℕ) where
  pub transmit_at :
      (sr : Server) (flag : ℕ) (payload : List ℕ) (b : Buffer)
      → slot sr.window sr.seq_num ≡ some b
      → length payload ≤ 1400
      → let packet = create_pdu in_cksum sr.seq_num flag payload in
        transmit in_cksum sr flag payload
        ≡ some (
          record sr {
            packet = packet;
            packet_len = length packet;
            window = window_cur_update (put_slot sr.window sr.seq_num (added sr.seq_num packet b));
          },
          packet,
        )
  unfolding transmit
  transmit_at sr flag payload b here fits = rw (
    window_add_at sr.window sr.seq_num (create_pdu in_cksum sr.seq_num flag payload) here
        (omega (arith, length-create_pdu in_cksum sr.seq_num flag payload)),
    transmit,
  )

  -- A payload goes out in the packet of the next number, into a window that has room.
  pub send_payload_at :
      (sr : Server) (payload : List ℕ) (b : Buffer)
      → slot sr.window sr.seq_num ≡ some b
      → length payload ≤ 1400
      → let packet = create_pdu in_cksum sr.seq_num Flag.data_flag payload in
        (final_len final_seq : ℕ) × (send_payload in_cksum
            (record sr { data_file = drop sr.buf_size sr.data_file })
            payload
          ≡ goes State.send_data (sent_on sr b packet final_len final_seq) (send packet ∷ []))
        × FinalNoted sr packet final_len final_seq
  unfolding send_payload note_final create_pdu window_cur_update
  send_payload_at sr payload b here fits =
      let packet = create_pdu in_cksum sr.seq_num Flag.data_flag payload in
      elim (Bool-cases (length packet == sr.data_packet_len)) [
        | inl full ↦ (
          sr.final_packet_len,
          sr.final_packet_seq,
          rw (
            transmit_at (record sr { data_file = drop sr.buf_size sr.data_file }) Flag.data_flag
                payload b here fits,
            note_final,
            full,
            send_payload,
          ),
          inl (==→eq _ _ full, refl, refl),
        )
        | inr last ↦ (
          length packet,
          sr.seq_num,
          rw (
            transmit_at (record sr { data_file = drop sr.buf_size sr.data_file }) Flag.data_flag
                payload b here fits,
            note_final,
            last,
            send_payload,
          ),
          inr (==→ne _ _ last, refl, refl),
        )
      ]

-- A packet in a window with room leaves it of its array's size, and bounded.
pub stored-IsValid :
    {w : Window} → IsValid w → (s : ℕ) (b : Buffer) → IsValid (window_cur_update (put_slot w s b))
unfolding window_cur_update
stored-IsValid v s b =
    let v' = put_slot-IsValid v s b in record { sized = v'.sized; positive = v'.positive }

pub stored-IsBounded :
    {w : Window}
    → IsBounded w
    → window_full w ≡ false
    → (s : ℕ) (b : Buffer) → IsBounded (window_cur_update (put_slot w s b))
unfolding window_cur_update put_slot window_full
stored-IsBounded {w} bd room s b =
    let not_full : w.current ≢ w.upper = ==→ne _ _ room in
    record {
      upper_is = bd.upper_is;
      in_word = bd.in_word;
      above = omega (arith, bd.above, bd.below, bd.in_word, bd.upper_is);
      below = omega (arith, bd.upper_is, bd.below, bd.in_word);
    }

pub cur_update_packet :
    (w : Window) (j : ℕ) → window_get_packet (window_cur_update w) j ≡ window_get_packet w j
unfolding window_cur_update window_get_packet slot
cur_update_packet w j = refl

-- The invariant is kept when a packet of the file goes out.
pub Reads-next :
    {file : List ℕ} {sr : Server}
    → Reads file sr
    → window_full sr.window ≡ false
    → sr.seq_num + 1 < 2 ^ 32
    → (b : Buffer) (packet : List ℕ) (final_len final_seq : ℕ)
    → Reads file (sent_on sr b packet final_len final_seq)
unfolding window_cur_update put_slot
Reads-next {file} {sr} rd room in_word b packet final_len final_seq = record {
  size_pos = rd.size_pos;
  size_le = rd.size_le;
  from_one = omega arith;
  rest =
      let next : (u32 (sr.seq_num + 1) - 1) * sr.buf_size
          ≡ (sr.seq_num - 1) * sr.buf_size + sr.buf_size =
        ap (λ k. k * sr.buf_size) (omega arith)
        ∙ sym (next_part sr.seq_num sr.buf_size rd.from_one) in
      rw (next, rd.rest) (drop-drop sr.buf_size ((sr.seq_num - 1) * sr.buf_size) file);
  window_valid = stored-IsValid rd.window_valid sr.seq_num _;
  window_bounded = stored-IsBounded rd.window_bounded room sr.seq_num _;
  current_is = ap (λ k. u32 (k + 1)) rd.current_is;
}

module _ (in_cksum : List ℕ → ℕ) {file : List ℕ} {sr : Server} (rd : Reads file sr)
    (a : Answers) where
  pub send_data-payload :
      window_full sr.window ≡ false
      → a.read_fails ≡ false
      → (sr.seq_num - 1) * sr.buf_size < length file
      → send_data in_cksum sr a
        ≡ send_payload in_cksum
            (record sr { data_file = drop sr.buf_size sr.data_file })
            (part sr.buf_size file sr.seq_num)
  unfolding send_data
  send_data-payload room reads more =
      rw
        (
          room,
          le→ltb 1406 sr.buf_size (omega (arith, rd.size_le)),
          reads,
          rd.rest,
          ne→== _ _ some_read,
        )
        refl
    where
      some_read : length (part sr.buf_size file sr.seq_num) ≢ 0
      some_read q = omega (
        arith,
        length-take sr.buf_size (drop ((sr.seq_num - 1) * sr.buf_size) file),
        length-drop ((sr.seq_num - 1) * sr.buf_size) file,
        rd.size_pos,
      )

  pub part_fits : length (part sr.buf_size file sr.seq_num) ≤ 1400
  part_fits =
      omega
        (arith, length-take sr.buf_size (drop ((sr.seq_num - 1) * sr.buf_size) file), rd.size_le)

  -- Let the server have sent the packets before seq_num of a file, with a buffer size of 1 to
  -- 1400, a bounded window of its array's size that is not full, and more of the file to read. If
  -- the read succeeds and seq_num does not wrap round, then send_data sends exactly the packet
  -- that createPDU builds of the next buffer-size bytes of the file under seq_num, stays in
  -- SEND_DATA with seq_num one up and the same invariant for the packets up to it, and the window
  -- holds the packet for retransmission.
  pub send_data-part :
      window_full sr.window ≡ false
      → a.read_fails ≡ false
      → sr.seq_num + 1 < 2 ^ 32
      → (sr.seq_num - 1) * sr.buf_size < length file
      → let packet =
          create_pdu in_cksum sr.seq_num Flag.data_flag (part sr.buf_size file sr.seq_num) in
        (sr' : Server) × (send_data in_cksum sr a ≡ goes State.send_data sr' (send packet ∷ []))
        × Reads file sr'
        × (sr'.seq_num ≡ sr.seq_num + 1)
        × (rest : List ℕ) × (window_get_packet sr'.window sr.seq_num ≡ some (packet ++ rest))
  unfolding window_cur_update overwrite
  send_data-part room reads in_word more =
      let (b, here) = slot-some rd.window_valid sr.seq_num in
      let (final_len, final_seq, runs, noted) =
        send_payload_at in_cksum sr (part sr.buf_size file sr.seq_num) b here part_fits in
      (
        sent_on sr b _ final_len final_seq,
        send_data-payload room reads more ∙ runs,
        Reads-next rd room in_word b _ final_len final_seq,
        omega arith,
        _,
        cur_update_packet _ sr.seq_num
            ∙ window_get_packet_at _ sr.seq_num
                (slot-put_slot_self rd.window_valid sr.seq_num sr.seq_num _ refl),
      )
