-- ===== src/Server/Resending.antt =====
-- What is sent again is the packet that the window holds, under the other flag, as createPDU would
-- have built it.
use cpe464_a.Base.{
  ℕ, ◌+◌, ◌^◌, ◌≤◌, ◌<◌, ◌≡◌, ◌≢◌, some, List, [], ◌∷◌, ◌++◌, length, take, arith, htonl_bytes,
  take-append_self, refl, ap, sym, ◌∙◌, le→ltb, ne→==,
}
use cpe464_a.Flag
use cpe464_a.Process.{goes, send, stray}
use cpe464_a.Pdu.{Received, create_pdu, read_u32}
use cpe464_a.Pdu.RoundTrip.{length-create_pdu, read_u32-create_pdu}
use cpe464_a.Window.{Buffer, Window, slot, put_slot, window_get_packet}
use cpe464_a.Window.Slots.{IsValid, slot-put_slot_self, window_get_packet_at}
use cpe464_a.Server.{State, Server}
use cpe464_a.Server.Resend.{length_of_sent, set_flag, refresh, timeout_on_ack, send_srej}

module _ (in_cksum : List ℕ → ℕ) where
  set_flag-create_pdu :
      (seq_num old flag len : ℕ) (payload rest : List ℕ)
      → len ≡ 7 + length payload
      → set_flag in_cksum flag len (create_pdu in_cksum seq_num old payload ++ rest)
        ≡ create_pdu in_cksum seq_num flag payload ++ rest
  unfolding set_flag create_pdu htonl_bytes
  set_flag-create_pdu seq_num old flag len payload rest e =
      let size : len ≡ length (htonl_bytes seq_num ++ (0 ∷ 0 ∷ flag ∷ payload)) = omega arith in
      let same : take len (htonl_bytes seq_num ++ (0 ∷ 0 ∷ flag ∷ (payload ++ rest)))
          ≡ htonl_bytes seq_num ++ (0 ∷ 0 ∷ flag ∷ payload) =
        ap (λ n. take n ((htonl_bytes seq_num ++ (0 ∷ 0 ∷ flag ∷ payload)) ++ rest)) size
        ∙ take-append_self (htonl_bytes seq_num ++ (0 ∷ 0 ∷ flag ∷ payload)) rest in
      rw same refl

  refresh_packet :
      (seq_num old flag len i : ℕ) (payload rest : List ℕ) (w : Window) (b : Buffer)
      → slot w i ≡ some b
      → b.packet ≡ create_pdu in_cksum seq_num old payload ++ rest
      → len ≡ 7 + length payload
      → length payload ≤ 1400
      → refresh in_cksum flag len i w
        ≡ some (
          put_slot w i (record b { packet = create_pdu in_cksum seq_num flag payload ++ rest }),
          create_pdu in_cksum seq_num flag payload ++ rest,
        )
  unfolding refresh
  refresh_packet seq_num old flag len i payload rest w b here held e fits =
      rw
        (
          here,
          le→ltb 1407 len (omega arith),
          held,
          set_flag-create_pdu seq_num old flag len payload rest e,
          refresh,
        )
        refl

  take_packet :
      (seq_num flag len : ℕ) (payload rest : List ℕ)
      → len ≡ 7 + length payload
      → take len (create_pdu in_cksum seq_num flag payload ++ rest)
        ≡ create_pdu in_cksum seq_num flag payload
  take_packet seq_num flag len payload rest e =
      ap (λ n. take n (create_pdu in_cksum seq_num flag payload ++ rest))
        (e ∙ sym (length-create_pdu in_cksum seq_num flag payload))
      ∙ take-append_self (create_pdu in_cksum seq_num flag payload) rest

  -- The window after the entry `b` for `i` got the packet under a new flag.
  abbrev pub refreshed : Window → ℕ → Buffer → (packet rest : List ℕ) → Window
  refreshed w i b packet rest = put_slot w i (record b { packet = packet ++ rest })

  pub timeout_on_ack_at :
      (sr : Server) (seq_num old : ℕ) (payload rest : List ℕ) (b : Buffer)
      → slot sr.window sr.window.lower ≡ some b
      → b.packet ≡ create_pdu in_cksum seq_num old payload ++ rest
      → seq_num < 2 ^ 32
      → length payload ≤ 1400
      → length_of_sent sr seq_num ≡ 7 + length payload
      → let packet = create_pdu in_cksum seq_num Flag.data_timeout payload in
        timeout_on_ack in_cksum sr
        ≡ goes State.wait_on_ack
            (record sr { window = refreshed sr.window sr.window.lower b packet rest })
            (send packet ∷ [])
  unfolding timeout_on_ack
  timeout_on_ack_at sr seq_num old payload rest b here held small fits len =
      rw
        (
          here,
          number,
          refresh_packet seq_num old Flag.data_timeout (length_of_sent sr seq_num) sr.window.lower
              payload rest sr.window b here held len fits,
          number,
          take_packet seq_num Flag.data_timeout (length_of_sent sr seq_num) payload rest len,
          timeout_on_ack,
        )
        refl
    where
      number : read_u32 b.packet 0 ≡ seq_num
      number =
          ap (λ p. read_u32 p 0) held ∙ read_u32-create_pdu in_cksum seq_num old payload rest small

  pub send_srej_at :
      (sr : Server) (r : Received) (seq_num old : ℕ) (payload rest : List ℕ) (b : Buffer)
      → read_u32 r.buf 7 ≡ seq_num
      → slot sr.window seq_num ≡ some b
      → b.packet ≡ create_pdu in_cksum seq_num old payload ++ rest
      → seq_num ≢ sr.seq_num
      → length payload ≤ 1400
      → length_of_sent sr seq_num ≡ 7 + length payload
      → let packet = create_pdu in_cksum seq_num Flag.srej_retran payload in
        send_srej in_cksum sr r
        ≡ some (
          record sr { window = refreshed sr.window seq_num b packet rest },
          stray ∷ send packet ∷ [],
        )
  unfolding send_srej
  send_srej_at sr r seq_num old payload rest b asked here held other fits len =
      rw
        (
          asked,
          refresh_packet seq_num old Flag.srej_retran (length_of_sent sr seq_num) seq_num payload
              rest sr.window b here held len fits,
          asked,
          take_packet seq_num Flag.srej_retran (length_of_sent sr seq_num) payload rest len,
          ne→== _ _ other,
          send_srej,
        )
        refl

  module _ {sr : Server} (v : IsValid sr.window) where
    -- If the entry of the window's lower end holds a packet that createPDU built, of at most 1400
    -- bytes of payload, under any flag, and the server has its length right, then timeout_on_ack
    -- sends that packet as createPDU builds it with the flag DATA_TIMEOUT, with a new checksum,
    -- goes to WAIT_ON_ACK, and the entry holds what was sent.
    pub timeout_on_ack-packet :
        (seq_num old : ℕ) (payload rest : List ℕ) (b : Buffer)
        → slot sr.window sr.window.lower ≡ some b
        → b.packet ≡ create_pdu in_cksum seq_num old payload ++ rest
        → seq_num < 2 ^ 32
        → length payload ≤ 1400
        → length_of_sent sr seq_num ≡ 7 + length payload
        → (w : Window) × (timeout_on_ack in_cksum sr
            ≡ goes State.wait_on_ack
                (record sr { window = w })
                (send (create_pdu in_cksum seq_num Flag.data_timeout payload) ∷ []))
          × (window_get_packet w sr.window.lower
              ≡ some (create_pdu in_cksum seq_num Flag.data_timeout payload ++ rest))
    timeout_on_ack-packet seq_num old payload rest b here held small fits len = (
      refreshed sr.window sr.window.lower b _ rest,
      timeout_on_ack_at sr seq_num old payload rest b here held small fits len,
      window_get_packet_at _ sr.window.lower
          (slot-put_slot_self v sr.window.lower sr.window.lower _ refl),
    )

    -- If the window holds the packet that an SREJ asks for, as createPDU built it under any flag,
    -- with at most 1400 bytes of payload, the number is not the next one to send, and the server
    -- has its length right, then send_srej has the stray operation of server.c:415 (the array of
    -- printPacket, undefined in C, past which the program is taken to go on) and sends that packet
    -- as createPDU builds it with the flag SREJ_RETRAN, with a new checksum, and the entry holds
    -- what was sent.
    pub send_srej-packet :
        (r : Received) (seq_num old : ℕ) (payload rest : List ℕ) (b : Buffer)
        → read_u32 r.buf 7 ≡ seq_num
        → slot sr.window seq_num ≡ some b
        → b.packet ≡ create_pdu in_cksum seq_num old payload ++ rest
        → seq_num ≢ sr.seq_num
        → length payload ≤ 1400
        → length_of_sent sr seq_num ≡ 7 + length payload
        → (w : Window) × (send_srej in_cksum sr r
            ≡ some (
              record sr { window = w },
              stray ∷ send (create_pdu in_cksum seq_num Flag.srej_retran payload) ∷ [],
            ))
          × (window_get_packet w seq_num
              ≡ some (create_pdu in_cksum seq_num Flag.srej_retran payload ++ rest))
    send_srej-packet r seq_num old payload rest b asked here held other fits len = (
      refreshed sr.window seq_num b _ rest,
      send_srej_at sr r seq_num old payload rest b asked here held other fits len,
      window_get_packet_at _ seq_num (slot-put_slot_self v seq_num seq_num _ refl),
    )
