-- ===== src/Service.antt =====
-- server.c against what it is for: what it sends is the file, in numbered packets. The packets that
-- it may send, the events that it may meet, and the invariant of the server.
pub mod Lengths
pub mod Sending
pub mod Reading
pub mod Resending
pub mod Acking
pub mod Finishing
pub mod Runs
pub mod Request
pub mod Opening
pub mod Link
pub mod Overflow
pub mod Burst
pub mod Copy
pub mod Whole
use cpe464_a.Base.{
  ℕ, zero, suc, ◌+◌, ◌-◌, ◌*◌, ◌^◌, ◌≤◌, ◌<◌, ◌≡◌, ◌≢◌, ◌⊎◌, Bool, true, Option, none, some, List,
  [], ◌∷◌, ◌++◌, length, drop,
}
use cpe464_a.Flag
use cpe464_a.Process.{
  Action, send, write, stray, Poll, ready, silent, failed, goes, exits, fault, out_of_fuel,
}
use cpe464_a.Pdu.{Received, create_pdu, recv_buf, read_u32, is_corrupt}
use cpe464_a.Window.{Buffer, Window, slot, window_full}
use cpe464_a.Window.Slots.{IsValid}
use cpe464_a.Window.Bounds.{IsBounded}
use cpe464_a.Server.{State, Server, Result, Answers}
use cpe464_a.Server.Ack.{poll_time}
use cpe464_a.Server.Sending.{part}

-- `count` is the number of buffers of `n` bytes that reading the file fills, the last one partly.
pub record Fills (n : ℕ) (file : List ℕ) (count : ℕ) : Type 0 where
  pub size_pos : 0 < n
  pub size_le : n ≤ 1400
  pub all : length file ≤ count * n
  pub last : 0 < count → (count - 1) * n < length file

-- The flags that a data packet goes out under.
abbrev pub IsDataFlag : ℕ → Type 0
IsDataFlag flag = (flag ≡ Flag.data_flag) ⊎ (flag ≡ Flag.data_timeout) ⊎ (flag ≡ Flag.srej_retran)

module _ (in_cksum : List ℕ → ℕ) (n : ℕ) (file : List ℕ) (count : ℕ) where
  -- A datagram of the transfer: a data packet of the file, the EOF packet with one byte of payload, or
  -- an empty datagram.
  pub data IsSent (datagram : List ℕ) : Type 0 where
    data_packet :
        (i flag : ℕ)
        → 1 ≤ i
        → i ≤ count
        → IsDataFlag flag
        → datagram ≡ create_pdu in_cksum i flag (part n file i)
        → IsSent datagram
    eof_packet :
        (byte : ℕ)
        → datagram ≡ create_pdu in_cksum (count + 1) Flag.end_of_file (byte ∷ [])
        → IsSent datagram
    empty_datagram : datagram ≡ [] → IsSent datagram

  -- Nothing else is sent, and nothing is written.
  abbrev pub AllSent : List Action → Type 0
  AllSent [] = Unit
  AllSent (send datagram ∷ acts) = IsSent datagram × AllSent acts
  AllSent (write bytes ∷ acts) = ⊥
  AllSent (stray ∷ acts) = AllSent acts

  -- The next packet of the file, sent for the first time.
  pub record IsNext (next : ℕ) (datagram : List ℕ) : Type 0 where
    pub to_count : next ≤ count
    pub bytes : datagram ≡ create_pdu in_cksum next Flag.data_flag (part n file next)

  -- What else may be sent while `next` is the next packet: one from before it again, EOF after the
  -- last one, or an empty datagram.
  pub data IsOther (next : ℕ) (datagram : List ℕ) : Type 0 where
    resent :
        (i flag : ℕ)
        → 1 ≤ i
        → i < next
        → i ≤ count
        → (flag ≡ Flag.data_timeout) ⊎ (flag ≡ Flag.srej_retran)
        → datagram ≡ create_pdu in_cksum i flag (part n file i)
        → IsOther next datagram
    eof_sent :
        (byte : ℕ)
        → next ≡ count + 1
        → datagram ≡ create_pdu in_cksum (count + 1) Flag.end_of_file (byte ∷ [])
        → IsOther next datagram
    empty_sent : datagram ≡ [] → IsOther next datagram

  -- Effects that take the next packet from one number to another: nothing is written, the packets
  -- go out for the first time in their order, and what else is sent is as above.
  abbrev pub Transmits : ℕ → ℕ → List Action → Type 0
  Transmits from to [] = to ≡ from
  Transmits from to (send datagram ∷ acts) =
      (IsNext from datagram × Transmits (from + 1) to acts)
      ⊎ (IsOther from datagram × Transmits from to acts)
  Transmits from to (write bytes ∷ acts) = ⊥
  Transmits from to (stray ∷ acts) = Transmits from to acts

  -- What the window holds for number `i`.
  pub data Held (i : ℕ) (b : Buffer) : Type 0 where
    held_data :
        (flag : ℕ) (rest : List ℕ)
        → i ≤ count
        → IsDataFlag flag
        → b.packet ≡ create_pdu in_cksum i flag (part n file i) ++ rest
        → Held i b
    held_eof :
        (byte : ℕ) (rest : List ℕ)
        → i ≡ count + 1
        → b.packet ≡ create_pdu in_cksum i Flag.end_of_file (byte ∷ []) ++ rest
        → Held i b

  -- Every packet that is not acknowledged is in the window.
  abbrev pub Holds : Window → Type 0
  Holds w = (i : ℕ) → w.lower ≤ i → i < w.current → (b : Buffer) × (slot w i ≡ some b) × Held i b

  -- Before and after EOF was sent.
  pub record Open (sr : Server) : Type 0 where
    pub unfinished : sr.finished ≡ 0
    pub current_is : sr.window.current ≡ sr.seq_num
    pub no_eof : sr.eof_len ≡ 0

  pub record Closed (sr : Server) : Type 0 where
    pub is_finished : sr.finished ≡ 1
    pub current_is : sr.window.current ≡ sr.seq_num + 1
    pub seq_is : sr.seq_num ≡ count + 1
    pub last_is : sr.last_seq_num ≡ count + 1
    pub eof_len_is : sr.eof_len ≡ 8

  -- What holds of the variables in every state once the file is open.
  pub record Sends (sr : Server) : Type 0 where
    pub size_is : sr.buf_size ≡ n
    pub data_len_is : sr.data_packet_len ≡ 7 + n
    pub window_valid : IsValid sr.window
    pub window_bounded : IsBounded sr.window
    pub in_word : count + 2 + sr.window.size < 2 ^ 32
    pub lower_from_one : 1 ≤ sr.window.lower
    pub lower_le : sr.window.lower ≤ sr.seq_num
    pub to_count : sr.seq_num ≤ count + 1
    pub unread : sr.data_file ≡ drop ((sr.seq_num - 1) * n) file
    pub phase : Open sr ⊎ Closed sr
    pub final_is :
        (sr.final_packet_seq ≡ 0)
        ⊎ ((sr.final_packet_seq ≡ count) × (sr.final_packet_len ≡ 7 + length (part n file count)))
    pub final_known :
        count < sr.seq_num → length (part n file count) ≢ n → sr.final_packet_seq ≡ count
    pub held : Holds sr.window

  -- WAIT_ON_ACK is for a full window or after EOF.
  pub record Waits (sr : Server) : Type 0 where
    pub sends : Sends sr
    pub shut : (window_full sr.window ≡ true) ⊎ (sr.finished ≡ 1)

  -- TIMEOUT_ON_ACK: the first packet that is not acknowledged is one with data.
  pub record TimesOut (sr : Server) : Type 0 where
    pub waits : Waits sr
    pub data_lower : sr.window.lower ≤ count

  -- The invariant of each state, from SEND_DATA on. TIMEOUT_ON_EOF_ACK is never entered.
  abbrev pub InState : State → Server → Type 0
  InState State.send_data sr = Sends sr
  InState State.wait_on_ack sr = Waits sr
  InState State.timeout_on_ack sr = TimesOut sr
  InState State.wait_on_eof_ack sr = Sends sr
  InState State.done sr = Unit
  InState State.start sr = ⊥
  InState State.filename sr = ⊥
  InState State.timeout_on_eof_ack sr = ⊥

  -- What a handler promises that is called when the next packet is `from`.
  abbrev pub Promised : ℕ → Result → Type 0
  Promised from (goes st sr acts) = InState st sr × Transmits from sr.seq_num acts
  Promised from (exits code acts) = (to : ℕ) × Transmits from to acts
  Promised from fault = ⊥
  Promised from out_of_fuel = ⊥

  -- What may be received in WAIT_ON_ACK: a damaged datagram, an RR that does not go back nor beyond
  -- the next number, an SREJ for a data packet that is not acknowledged, or another flag.
  pub data MayAnswer (sr : Server) (r : Received) : Type 0 where
    damaged : is_corrupt in_cksum r ≡ true → MayAnswer sr r
    rr :
        sr.window.lower ≤ read_u32 r.buf 7
        → read_u32 r.buf 7 ≤ sr.seq_num
        → r.flag ≢ Flag.srej
        → MayAnswer sr r
    srej :
        sr.window.lower ≤ read_u32 r.buf 7
        → read_u32 r.buf 7 < sr.seq_num
        → read_u32 r.buf 7 ≤ count
        → r.flag ≢ Flag.rr
        → MayAnswer sr r
    other : r.flag ≢ Flag.rr → r.flag ≢ Flag.srej → MayAnswer sr r

  -- What a round in WAIT_ON_ACK may meet: such a datagram, and a timeout only while the first packet
  -- that is not acknowledged has data.
  pub record MayMeet (sr : Server) (a : Answers) : Type 0 where
    pub answers :
        (stack datagram : List ℕ)
        → a.datagram ≡ some (stack, datagram)
        → MayAnswer sr (recv_buf stack datagram)
    pub timeouts : a.poll (poll_time sr.window sr.finished) ≡ silent → sr.window.lower ≤ count
