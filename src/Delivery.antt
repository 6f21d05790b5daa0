-- ===== src/Delivery.antt =====
-- rcopy.c against what it is for: the output file is the packets' payloads in order. The stream
-- that the server sends, the packets of it that may arrive, and the invariant of the client.
pub mod Entries
pub mod Packets
pub mod Storing
pub mod Receiving
pub mod Progress
pub mod Advancing
pub mod Buffering
pub mod Flushing
pub mod Opening
pub mod Outcomes
pub mod Steps
pub mod Runs
pub mod Transfer
pub mod Recovering
pub mod Emptying
pub mod GivingUp
use cpe464_a.Base.{
  ℕ, zero, suc, ◌+◌, ◌-◌, ◌^◌, ◌≤◌, ◌<◌, ◌≡◌, ◌≢◌, ◌⊎◌, List, [], ◌++◌, length, take, drop, some,
  true,
}
use cpe464_a.Checksum.{max_pdu_buf}
use cpe464_a.Flag
use cpe464_a.Pdu.{Received, is_corrupt}
use cpe464_a.Window.{Buffer, Window, slot}
use cpe464_a.Window.Slots.{IsValid}
use cpe464_a.Process.{goes, exits, fault, out_of_fuel, written}
use cpe464_a.Rcopy.{State, Client, Result}

-- The file as the server cuts it: packet `i`, from 1 to `count`, carries `chunk i`, and the EOF
-- packet is number `count + 1`. All but the last carry `full` bytes.
pub record Stream : Type 0 where
  pub chunk : ℕ → List ℕ
  pub count : ℕ
  pub full : ℕ

pub record IsStream (s : Stream) : Type 0 where
  pub fits : (i : ℕ) → length (s.chunk i) ≤ 1400
  pub whole : (i : ℕ) → 1 ≤ i → i < s.count → length (s.chunk i) ≡ s.full
  pub bounded : s.count + 2 < 2 ^ 32
  pub some_bytes : (i : ℕ) → 1 ≤ i → i ≤ s.count → 0 < length (s.chunk i)

-- The first `k` chunks, joined.
unfoldable pub delivered : Stream → ℕ → List ℕ
delivered s zero = []
delivered s (suc k) = delivered s k ++ s.chunk (suc k)

module _ (s : Stream) where
  open s use {chunk, count, full}

  -- Packet `i` of the stream, as the client receives it while it expects `expected`. A
  -- retransmission carries another flag than DATA, and answers a request for a packet that the
  -- client lacked, so its number is at most `expected`.
  pub record IsData (expected : ℕ) (r : Received) : Type 0 where
    pub from_one : 1 ≤ r.seq_num
    pub to_count : r.seq_num ≤ count
    pub data_len : r.len ≡ 7 + length (chunk r.seq_num)
    pub payload : take (length (chunk r.seq_num)) (drop 7 r.buf) ≡ chunk r.seq_num
    pub not_eof : r.flag ≢ Flag.end_of_file
    pub retransmitted : r.flag ≢ Flag.data_flag → r.seq_num ≤ expected

  -- The EOF packet, with its own flag.
  pub record IsEof (r : Received) : Type 0 where
    pub after_all : r.seq_num ≡ count + 1
    pub eof_flag : r.flag ≡ Flag.end_of_file
    pub eof_len : r.len ≤ max_pdu_buf

  abbrev pub IsGenuine : ℕ → Received → Type 0
  IsGenuine expected r = IsData expected r ⊎ IsEof r

  -- An entry of the window holds packet `i`, one of those up to `k`, and the client knows what it
  -- must to write it out.
  pub record Stored (eof_seq final_seq k i : ℕ) (b : Buffer) : Type 0 where
    pub marked : b.valid ≡ 1
    pub up_to : i ≤ k
    pub inside : i ≤ count + 1
    pub content : i ≤ count → take (length (chunk i)) (drop 7 b.packet) ≡ chunk i
    pub eof_known : i ≡ count + 1 → eof_seq ≡ count + 1
    pub final_known : i ≡ count → length (chunk count) ≢ full → final_seq ≡ count

  abbrev pub IsEntry : ℕ → ℕ → ℕ → ℕ → Buffer → Type 0
  IsEntry eof_seq final_seq k i b = (b.valid ≡ 0) ⊎ Stored eof_seq final_seq k i b

  -- Each number that the window has room for has an entry, which is empty or holds that packet.
  abbrev pub Entries : Window → ℕ → ℕ → ℕ → ℕ → Type 0
  Entries w expected eof_seq final_seq k =
      (i : ℕ)
      → expected ≤ i
      → i < expected + w.size
      → (b : Buffer) × (slot w i ≡ some b) × IsEntry eof_seq final_seq k i b

  -- What holds of the variables in every receiving state, with `out` on the disk.
  pub record Known (c : Client) (out : List ℕ) : Type 0 where
    pub window_valid : IsValid c.window
    pub started : 1 ≤ c.expected
    pub within : c.expected ≤ count + 1
    pub data_len_known : c.data_packet_len ≡ 7 + full
    pub eof_is : (c.eof_seq ≡ 0) ⊎ (c.eof_seq ≡ count + 1)
    pub final_is :
        (c.final_packet_seq ≡ 0)
        ⊎ ((c.final_packet_seq ≡ count) × (c.final_packet_len ≡ 7 + length (chunk count)))
    pub disk : out ≡ delivered s (c.expected - 1)

  -- RECV_DATA: the window is empty.
  pub record Receives (c : Client) (out : List ℕ) : Type 0 where
    pub known : Known c out
    pub empty : Entries c.window c.expected c.eof_seq c.final_packet_seq 0

  -- FLUSH: the window holds packets up to `highest`, that one among them.
  pub record Flushes (c : Client) (out : List ℕ) : Type 0 where
    pub known : Known c out
    pub entries : Entries c.window c.expected c.eof_seq c.final_packet_seq c.highest
    pub ahead : c.expected ≤ c.highest
    pub near : c.highest < c.expected + c.window.size
    pub top :
        (b : Buffer) × (slot c.window c.highest ≡ some b)
        × Stored c.eof_seq c.final_packet_seq c.highest c.highest b

  -- BUFFER: the same, and the expected packet is missing.
  pub record Buffers (c : Client) (out : List ℕ) : Type 0 where
    pub flushes : Flushes c out
    pub hole : c.expected < c.highest

  -- What may arrive in RECV_DATA: a damaged datagram that the checksum shows, or a genuine packet
  -- from before the end of the window.
  abbrev pub Arrives : (in_cksum : List ℕ → ℕ) → Client → Received → Type 0
  Arrives in_cksum c r =
      (is_corrupt in_cksum r ≡ true)
      ⊎ (IsGenuine c.expected r × (r.seq_num < c.expected + c.window.size))

  -- In BUFFER, moreover, nothing from before the expected packet arrives, and the network does not
  -- reorder: a packet out of order is ahead of all that are in the window.
  abbrev pub ArrivesInOrder : (in_cksum : List ℕ → ℕ) → Client → Received → Type 0
  ArrivesInOrder in_cksum c r =
      (is_corrupt in_cksum r ≡ true)
      ⊎ (IsGenuine c.expected r
          × (r.seq_num < c.expected + c.window.size)
          × ((r.seq_num ≡ c.expected) ⊎ (c.highest < r.seq_num)))

  -- Some of the packets' payloads, in order, and nothing else.
  abbrev pub IsPrefix : List ℕ → Type 0
  IsPrefix out = (k : ℕ) × (k ≤ count) × (out ≡ delivered s k)

  -- Before data: nothing is written, and no packet is noted.
  pub record Opens (c : Client) (out : List ℕ) : Type 0 where
    pub nothing : out ≡ []
    pub first_expected : c.expected ≡ 1
    pub no_eof : c.eof_seq ≡ 0
    pub no_final : c.final_packet_seq ≡ 0

  -- Once `start_state` has run the length of a full packet is known.
  pub record Asks (c : Client) (out : List ℕ) : Type 0 where
    pub opens : Opens c out
    pub data_len_set : c.data_packet_len ≡ 7 + full

  -- The invariant of each state, with `out` on the disk. WAIT_FILE_ACK is never entered.
  abbrev pub InState : State → Client → List ℕ → Type 0
  InState State.start_state c out = Opens c out
  InState State.filename c out = Asks c out
  InState State.file_ok c out = Asks c out
  InState State.recv_data c out = Receives c out
  InState State.buffer c out = Buffers c out
  InState State.flush c out = Flushes c out
  InState State.done c out = IsPrefix out
  InState State.wait_file_ack c out = ⊥

  -- What a handler promises, started with `out` on the disk: no fault, the next state's invariant, and at an exit a prefix of the file, all of it for exit(0).
  abbrev pub Promised : List ℕ → Result → Type 0
  Promised out (goes st c acts) = InState st c (out ++ written acts)
  Promised out (exits code acts) =
      IsPrefix (out ++ written acts) × (code ≡ 0 → out ++ written acts ≡ delivered s count)
  Promised out fault = ⊥
  Promised out out_of_fuel = ⊥
