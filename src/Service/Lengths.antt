-- ===== src/Service/Lengths.antt =====
-- The lengths of a file's parts, and the length that server.c keeps for each packet.
use cpe464_a.Base.{
  ℕ, ◌+◌, ◌-◌, ◌*◌, ◌≤◌, ◌<◌, ◌≡◌, ◌≢◌, inl, inr, sym, ◌∙◌, List, length, drop, arith, length-take,
  length-drop, eq→==, ne→==,
}
use native.Mathlib.Decide.{ℕ_discrete, dec_lt}
use native.Mathlib.Nat.{mul-le-mul_right}
use cpe464_a.Server.{Server}
use cpe464_a.Server.Sending.{part}
use cpe464_a.Server.Cutting.{part_whole}
use cpe464_a.Server.Resend.{length_of_sent}
use cpe464_a.Service.{Fills, Sends}

module _ {n : ℕ} {file : List ℕ} {count : ℕ} (fl : Fills n file count) where
  pub part-le : (i : ℕ) → length (part n file i) ≤ n
  part-le i = omega (arith, length-take n (drop ((i - 1) * n) file))

  pub part_full : (i : ℕ) → 1 ≤ i → i < count → length (part n file i) ≡ n
  part_full i from lt =
      part_whole n file i (count - 1) (omega arith) from (omega (arith, fl.last (omega arith)))

  pub part_some : (i : ℕ) → 1 ≤ i → i ≤ count → 0 < length (part n file i)
  part_some i from to =
      let before : (i - 1) * n ≤ (count - 1) * n = mul-le-mul_right n (omega arith) in
      omega (
        arith,
        length-take n (drop ((i - 1) * n) file),
        length-drop ((i - 1) * n) file,
        fl.last (omega arith),
        fl.size_pos,
      )

  pub part_end : (i : ℕ) → count < i → length file ≤ (i - 1) * n
  part_end i past =
      let after : count * n ≤ (i - 1) * n = mul-le-mul_right n (omega arith) in
      omega (arith, fl.all)

  -- Of a data packet that was sent, the length that is used to send it again is the right one.
  pub length_of_sent-part :
      {in_cksum : List ℕ → ℕ} {sr : Server}
      → Sends in_cksum n file count sr
      → (i : ℕ) → 1 ≤ i
      → i ≤ count
      → i < sr.seq_num
      → length_of_sent sr i ≡ 7 + length (part n file i)
  unfolding length_of_sent
  length_of_sent-part {in_cksum} {sr} sends i from to sent =
      elim (ℕ_discrete i sr.final_packet_seq) [
        | yes final ↦ rw (eq→== _ _ final) (final_len final)
        | no other ↦ rw (ne→== _ _ other) (sends.data_len_is ∙ full other)
      ]
    where
      final_len : i ≡ sr.final_packet_seq → sr.final_packet_len ≡ 7 + length (part n file i)
      final_len final = elim sends.final_is [
        | inl unset ↦ absurd (omega arith)
        | inr (at, len) ↦ let last : i ≡ count = final ∙ at in rw last len
      ]

      full : i ≢ sr.final_packet_seq → 7 + n ≡ 7 + length (part n file i)
      full other = elim (dec_lt i count) [
        | yes lt ↦ omega (arith, part_full i from lt)
        | no not_lt ↦
            let last : i ≡ count = omega arith in
            elim (ℕ_discrete (length (part n file count)) n) [
              | yes whole ↦ rw last (omega arith)
              | no short ↦ absurd (other (last ∙ sym (sends.final_known (omega arith) short)))
            ]
      ]
