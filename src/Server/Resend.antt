-- ===== src/Server/Resend.antt =====
-- `timeout_on_ack`, `timeout_on_eof_ack` and `send_srej` of server.c: a packet of the window, sent
-- again under another flag.
use cpe464_a.Base.{
  ℕ, ◌/◌, ◌%◌, Option, none, some, List, [], ◌∷◌, ◌++◌, take, drop, ltb, ◌==◌, if◌then◌else◌,
}
use cpe464_a.Checksum.{max_pdu_buf}
use cpe464_a.Flag
use cpe464_a.Process.{Action, goes, fault, send, stray}
use cpe464_a.Pdu.{Received, read_u32}
use cpe464_a.Window.{Window, slot, put_slot}
use cpe464_a.Server.{State, Server, Result}

-- The length that is used for packet `seq_num`.
unfoldable pub length_of_sent : Server → ℕ → ℕ
length_of_sent sr seq_num =
    if seq_num == sr.final_packet_seq then sr.final_packet_len else sr.data_packet_len

-- The packet that `send_data` built last.
unfoldable pub timeout_on_eof_ack : Server → Result
timeout_on_eof_ack sr = goes State.wait_on_eof_ack sr (send (take sr.packet_len sr.packet) ∷ [])

module _ (in_cksum : List ℕ → ℕ) where
  -- The new flag and the checksum of the first `len` bytes, written into the packet.
  unfoldable pub set_flag : (flag len : ℕ) → List ℕ → List ℕ
  set_flag flag len packet =
      let cleared = take 4 packet ++ (0 ∷ 0 ∷ flag ∷ drop 7 packet) in
      let checksum = in_cksum (take len cleared) in
      take 4 packet ++ ((checksum % 256) ∷ (checksum / 256) ∷ flag ∷ drop 7 packet)

  -- The same in the window's entry for `seq_num`: the window and the packet. `none` is a fault: no
  -- such entry, or a length beyond its array.
  unfoldable pub refresh : (flag len seq_num : ℕ) → Window → Option (Window × List ℕ)
  refresh flag len seq_num w = elim (slot w seq_num) [
    | none ↦ none
    | some b ↦
        if ltb max_pdu_buf len
        then none
        else let packet = set_flag flag len b.packet in
          some (put_slot w seq_num (record b { packet = packet }), packet)
  ]

  -- The packet at `lower` again, the length chosen by the number in its header.
  unfoldable pub timeout_on_ack : Server → Result
  timeout_on_ack sr = elim (slot sr.window sr.window.lower) [
    | none ↦ fault
    | some b ↦
        let len = length_of_sent sr (read_u32 b.packet 0) in
        elim (refresh Flag.data_timeout len sr.window.lower sr.window) [
          | none ↦ fault
          | some (w, packet) ↦
              goes State.wait_on_ack (record sr { window = w }) (send (take len packet) ∷ [])
        ]
  ]

  -- The packet that the SREJ `r` asks for; one that is not sent yet is not sent, though its entry
  -- gets the flag. The stray operation is `printPacket(retransmission, 12)`, whose array `filename`
  -- would have -3 elements. Its caller goes to SEND_DATA, whatever it returns.
  unfoldable pub send_srej : Server → Received → Option (Server × List Action)
  send_srej sr r =
      let srej_seq = read_u32 r.buf 7 in
      let len = length_of_sent sr srej_seq in
      elim (refresh Flag.srej_retran len srej_seq sr.window) [
        | none ↦ none
        | some (w, packet) ↦
            let acts = (if srej_seq == sr.seq_num then [] else send (take len packet) ∷ []) in
            some (record sr { window = w }, stray ∷ acts)
      ]
