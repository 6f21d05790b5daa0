-- ===== src/Server/Ending.antt =====
-- `send_data` at the end of the file.
use cpe464_a.Base.{
  ℕ, ◌-◌, ◌*◌, ◌≤◌, ◌≡◌, some, List, [], ◌∷◌, ◌++◌, length, take, drop, arith, false, refl, ◌∙◌,
  eq→==, ne→==, le→ltb, length-take, length-drop,
}
use cpe464_a.Flag
use cpe464_a.Process.{goes, send}
use cpe464_a.Pdu.{create_pdu}
use cpe464_a.Window.{
  Buffer, slot, overwrite, put_slot, window_cur_update, window_full, window_get_packet,
}
use cpe464_a.Window.Slots.{added, slot-some, slot-put_slot_self, window_get_packet_at}
use cpe464_a.Server.{State, Server, Answers}
use cpe464_a.Server.Send.{send_eof, send_data}
use cpe464_a.Server.Sending.{Reads, transmit_at, cur_update_packet}

-- The variables after EOF went out, into an entry that was `b`.
abbrev pub eof_on : Server → Buffer → (packet : List ℕ) → Server
eof_on sr b packet = record sr {
  packet = packet;
  packet_len = length packet;
  window = window_cur_update (put_slot sr.window sr.seq_num (added sr.seq_num packet b));
  last_seq_num = sr.seq_num;
  eof_len = length packet;
  finished = 1;
}

module _ (in_cksum : List ℕ → ℕ) {file : List ℕ} {sr : Server} (rd : Reads file sr)
    (a : Answers) where
  send_data-empty :
      window_full sr.window ≡ false
      → a.read_fails ≡ false
      → length file ≤ (sr.seq_num - 1) * sr.buf_size
      → send_data in_cksum sr a ≡ send_eof in_cksum sr a.stack_byte
  unfolding send_data
  send_data-empty room reads over =
      rw
        (
          room,
          le→ltb 1406 sr.buf_size (omega (arith, rd.size_le)),
          reads,
          rd.rest,
          eq→== _ _ none_read,
        )
        refl
    where
      none_read : length (take sr.buf_size (drop ((sr.seq_num - 1) * sr.buf_size) file)) ≡ 0
      none_read = omega (
        arith,
        length-take sr.buf_size (drop ((sr.seq_num - 1) * sr.buf_size) file),
        length-drop ((sr.seq_num - 1) * sr.buf_size) file,
      )

  pub send_data-eof_on :
      window_full sr.window ≡ false
      → a.read_fails ≡ false
      → length file ≤ (sr.seq_num - 1) * sr.buf_size
      → sr.finished ≡ 0
      → (b : Buffer) → slot sr.window sr.seq_num ≡ some b
      → let packet = create_pdu in_cksum sr.seq_num Flag.end_of_file (a.stack_byte ∷ []) in
        send_data in_cksum sr a ≡ goes State.wait_on_ack (eof_on sr b packet) (send packet ∷ [])
  unfolding send_eof
  send_data-eof_on room reads over first b here =
      send_data-empty room reads over
      ∙ rw
          (
            eq→== sr.finished 0 first,
            ne→== sr.buf_size 0 (omega (arith, rd.size_pos)),
            transmit_at in_cksum sr Flag.end_of_file (a.stack_byte ∷ []) b here (omega arith),
            send_eof,
          )
          refl

  -- Let the server have sent all packets of a file, with the invariant of SEND_DATA, a window that
  -- is not full, and EOF not sent yet. If the read succeeds, then send_data sends the EOF packet
  -- under seq_num, goes to WAIT_ON_ACK with EOF marked as sent, and last_seq_num and eof_len name
  -- the entry of the window that holds exactly that packet at its start, which WAIT_ON_EOF_ACK
  -- sends again.
  pub send_data-eof :
      window_full sr.window ≡ false
      → a.read_fails ≡ false
      → length file ≤ (sr.seq_num - 1) * sr.buf_size
      → sr.finished ≡ 0
      → let packet = create_pdu in_cksum sr.seq_num Flag.end_of_file (a.stack_byte ∷ []) in
        (sr' : Server) × (send_data in_cksum sr a ≡ goes State.wait_on_ack sr' (send packet ∷ []))
        × (sr'.finished ≡ 1)
        × (sr'.last_seq_num ≡ sr.seq_num)
        × (sr'.eof_len ≡ length packet)
        × (rest : List ℕ) × (window_get_packet sr'.window sr'.last_seq_num ≡ some (packet ++ rest))
  unfolding overwrite
  send_data-eof room reads over first =
      let (b, here) = slot-some rd.window_valid sr.seq_num in
      (
        eof_on sr b (create_pdu in_cksum sr.seq_num Flag.end_of_file (a.stack_byte ∷ [])),
        send_data-eof_on room reads over first b here,
        refl,
        refl,
        refl,
        _,
        cur_update_packet _ sr.seq_num
            ∙ window_get_packet_at _ sr.seq_num
                (slot-put_slot_self rd.window_valid sr.seq_num sr.seq_num _ refl),
      )
