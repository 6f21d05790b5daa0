-- ===== src/Delivery/Packets.antt =====
-- A genuine packet: what the client learns from its header, and the bytes that it writes.
use cpe464_a.Base.{
  ℕ, zero, suc, ◌+◌, ◌-◌, ◌≤◌, ◌<◌, ◌≡◌, ◌≢◌, ◌⊎◌, inl, inr, ap, some, arith, List, length, take,
  drop, ◌++◌, eq→==, ne→==,
}
use native.Mathlib.Decide.{dec_lt, ℕ_discrete}
use cpe464_a.Flag
use cpe464_a.Pdu.{Received}
use cpe464_a.Rcopy.{Client, disk_bytes}
use cpe464_a.Rcopy.Receive.{note_packet}
use cpe464_a.Rcopy.Flush.{length_of_buffered}
use cpe464_a.Delivery.{Stream, IsStream, delivered, IsData, IsEof, IsGenuine, Known}

pub disk_bytes-content :
    (bs packet : List ℕ)
    → 0 < length bs
    → length bs ≤ 1400
    → take (length bs) (drop 7 packet) ≡ bs
    → disk_bytes (7 + length bs) packet ≡ some bs
unfolding disk_bytes
disk_bytes-content bs packet pos h e =
    let seven : 7 + length bs - 7 ≡ length bs = omega arith in
    ground (arith, ap (λ n. take n (drop 7 packet)) seven)

pub delivered-suc : (s : Stream) (e : ℕ) → 1 ≤ e → delivered s (e - 1) ++ s.chunk e ≡ delivered s e
unfolding delivered
delivered-suc s zero h = absurd (omega arith)
delivered-suc s (suc k) h =
    let back : suc k - 1 ≡ k = omega arith in ap (λ n. delivered s n ++ s.chunk (suc k)) back

-- The three variables that `note_packet` may set, and what they then say of the stream.
pub record Noted (s : Stream) (c : Client) (r : Received) : Type 0 where
  pub final_len : ℕ
  pub final_seq : ℕ
  pub eof : ℕ
  pub noted :
      note_packet c r
      ≡ record c { final_packet_len = final_len; final_packet_seq = final_seq; eof_seq = eof }
  pub eof_still : (eof ≡ 0) ⊎ (eof ≡ s.count + 1)
  pub final_still :
      (final_seq ≡ 0) ⊎ ((final_seq ≡ s.count) × (final_len ≡ 7 + length (s.chunk s.count)))
  pub eof_kept : c.eof_seq ≡ s.count + 1 → eof ≡ s.count + 1
  pub final_kept : c.final_packet_seq ≡ s.count → final_seq ≡ s.count
  pub eof_seen : r.flag ≡ Flag.end_of_file → eof ≡ s.count + 1
  pub final_seen :
      r.flag ≡ Flag.data_flag
      → r.seq_num ≡ s.count
      → length (s.chunk s.count) ≢ s.full
      → final_seq ≡ s.count

module _ {s : Stream} (ok : IsStream s) {c : Client} {out : List ℕ} (known : Known s c out) where
  note_eof : (r : Received) → IsEof s r → Noted s c r
  unfolding note_packet
  note_eof r g = record {
    final_len = c.final_packet_len;
    final_seq = c.final_packet_seq;
    eof = r.seq_num;
    noted = rw (g.eof_flag);
    eof_still = inr g.after_all;
    final_still = known.final_is;
    eof_kept = λ q. g.after_all;
    final_kept = λ q. q;
    eof_seen = λ q. g.after_all;
    final_seen = λ q. absurd (omega (arith, g.eof_flag));
  }

  -- A data packet that teaches nothing new.
  note_same :
      (r : Received)
      → note_packet c r ≡ c
      → r.flag ≢ Flag.end_of_file
      → (r.flag ≡ Flag.data_flag → r.seq_num ≡ s.count → length (s.chunk s.count) ≡ s.full)
      → Noted s c r
  note_same r same not_eof full = record {
    final_len = c.final_packet_len;
    final_seq = c.final_packet_seq;
    eof = c.eof_seq;
    noted = same;
    eof_still = known.eof_is;
    final_still = known.final_is;
    eof_kept = λ q. q;
    final_kept = λ q. q;
    eof_seen = λ q. absurd (not_eof q);
    final_seen = λ q at ne. absurd (ne (full q at));
  }

  -- A data packet of another length is the last one.
  note_last :
      (r : Received)
      → IsData s c.expected r
      → r.flag ≡ Flag.data_flag
      → r.len ≢ c.data_packet_len
      → Noted s c r
  unfolding note_packet
  note_last r g plain other = record {
    final_len = r.len;
    final_seq = r.seq_num;
    eof = c.eof_seq;
    noted = rw (plain, ne→== _ _ other);
    eof_still = known.eof_is;
    final_still = inr (last, rw (← last) g.data_len);
    eof_kept = λ q. q;
    final_kept = λ q. last;
    eof_seen = λ q. absurd (g.not_eof q);
    final_seen = λ q at ne. at;
  }
    where
      last : r.seq_num ≡ s.count
      last = elim (dec_lt r.seq_num s.count) [
        | yes early ↦ absurd (
            other (
              omega (arith, g.data_len, known.data_len_known, ok.whole r.seq_num g.from_one early)))
        | no late ↦ omega (arith, g.to_count)
      ]

  note_data : (r : Received) → IsData s c.expected r → Noted s c r
  unfolding note_packet
  note_data r g = elim (ℕ_discrete r.flag Flag.data_flag) [
    | yes plain ↦ elim (ℕ_discrete r.len c.data_packet_len) [
      | yes same ↦ note_same r (rw (plain, eq→== _ _ same)) g.not_eof (λ q at.
          let e : 7 + length (s.chunk s.count) ≡ 7 + s.full =
            rw (← at) (omega (arith, g.data_len, known.data_len_known)) in
          omega (arith, e))
      | no other ↦ note_last r g plain other
    ]
    | no marked ↦
        note_same r (rw (ne→== _ _ marked, ne→== _ _ g.not_eof)) g.not_eof (λ q. absurd (marked q))
  ]

  -- Every genuine packet is noted.
  pub note_genuine : (r : Received) → IsGenuine s c.expected r → Noted s c r
  note_genuine r (inl g) = note_data r g
  note_genuine r (inr g) = note_eof r g

  -- The length that `flush` takes for a packet in the window is the packet's.
  pub length_of_buffered_lem :
      (i : ℕ)
      → 1 ≤ i
      → i ≤ s.count
      → (i ≡ s.count → length (s.chunk s.count) ≢ s.full → c.final_packet_seq ≡ s.count)
      → length_of_buffered c i ≡ 7 + length (s.chunk i)
  unfolding length_of_buffered
  length_of_buffered_lem i from to final = elim (ℕ_discrete i c.final_packet_seq) [
    | yes noted ↦ elim known.final_is [
      | inl unset ↦ absurd (omega arith)
      | inr (at, len) ↦ let last : i ≡ s.count = omega arith in rw (eq→== _ _ noted) (rw last len)
    ]
    | no other ↦ rw (ne→== _ _ other) (omega (arith, known.data_len_known, plain other))
  ]
    where
      plain : i ≢ c.final_packet_seq → length (s.chunk i) ≡ s.full
      plain other = elim (dec_lt i s.count) [
        | yes early ↦ ok.whole i from early
        | no late ↦
            let last : i ≡ s.count = omega arith in
            elim (ℕ_discrete (length (s.chunk s.count)) s.full) [
              | yes full ↦ rw last full
              | no short ↦ absurd (other (omega (arith, final last short)))
            ]
      ]
