-- ===== src/Server/Send.antt =====
-- `send_data` of server.c: the next packet of the file, or EOF, unless the window is full.
use cpe464_a.Base.{
  ℕ, ◌+◌, Option, none, some, List, [], ◌∷◌, length, take, drop, ltb, ◌==◌, if◌then◌else◌, u32,
}
use cpe464_a.Flag
use cpe464_a.Process.{goes, fault, send}
use cpe464_a.Pdu.{create_pdu}
use cpe464_a.Window.{window_full, window_add, window_cur_update}
use cpe464_a.Server.{State, Server, Result, Answers}

-- A data packet of another length than a full one is the last.
unfoldable pub note_final : Server → Server
note_final sr =
    if sr.packet_len == sr.data_packet_len
    then sr
    else record sr { final_packet_len = sr.packet_len; final_packet_seq = sr.seq_num }

module _ (in_cksum : List ℕ → ℕ) where
  -- `send_buf` into `packet`, `window_add` and `window_CURUpdate`, as both kinds of packet go out; the
  -- packet with them. `none` is a packet that its array, or the window's entry, does not hold.
  unfoldable pub transmit : Server → (flag : ℕ) → (payload : List ℕ) → Option (Server × List ℕ)
  transmit sr flag payload =
      let packet = create_pdu in_cksum sr.seq_num flag payload in
      elim (window_add sr.window sr.seq_num packet) [
        | none ↦ none
        | some w ↦ some (
          record sr { packet = packet; packet_len = length packet; window = window_cur_update w },
          packet,
        )
      ]

  -- The case of no bytes read. The payload of EOF is the first byte of `buf`, whatever that is; with a
  -- buffer size of 0 it is the zero that `send_data` put there.
  unfoldable pub send_eof : Server → ℕ → Result
  send_eof sr stack_byte =
      if sr.finished == 0
      then elim (transmit sr Flag.end_of_file ((if sr.buf_size == 0 then 0 else stack_byte) ∷ [])) [
        | none ↦ fault
        | some (sr', packet) ↦
            goes State.wait_on_ack
              (record sr' { last_seq_num = sr'.seq_num; eof_len = sr'.packet_len; finished = 1 })
              (send packet ∷ [])
      ]
      else goes State.wait_on_ack sr []

  -- The case of `payload` read.
  unfoldable pub send_payload : Server → List ℕ → Result
  send_payload sr payload = elim (transmit sr Flag.data_flag payload) [
    | none ↦ fault
    | some (sr', packet) ↦
        goes State.send_data (record (note_final sr') { seq_num = u32 (sr'.seq_num + 1) })
          (send packet ∷ [])
  ]

  -- `buf[buf_size] = '\0'` writes past `buf` from a size of MAXPDUBUF on.
  unfoldable pub send_data : Server → Answers → Result
  send_data sr a =
      if window_full sr.window
      then goes State.wait_on_ack sr []
      else if ltb 1406 sr.buf_size
      then fault
      else if a.read_fails
      then goes State.done sr []
      else let payload = take sr.buf_size sr.data_file in
        if length payload == 0
        then send_eof sr a.stack_byte
        else send_payload (record sr { data_file = drop sr.buf_size sr.data_file }) payload
