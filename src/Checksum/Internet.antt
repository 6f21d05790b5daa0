-- ===== src/Checksum/Internet.antt =====
-- A checksum that meets `IsChecksum`: the one's complement of the folded sum of 16-bit words.
-- The witnesses use it where the program calls `in_cksum`.
use cpe464_a.Base.{ℕ, ◌+◌, ◌-◌, ◌*◌, ◌/◌, ◌%◌, ◌^◌, ◌≤◌, ◌<◌, ◌≡◌, List, [], ◌∷◌, length, arith}
use cpe464_a.Checksum.{IsBytes, max_pdu_buf, IsChecksum}

-- The sum of the words, low byte first; an odd byte at the end is a word of its own.
sum_words : List ℕ → ℕ
sum_words [] = 0
sum_words (a ∷ []) = a
sum_words (a ∷ b ∷ rest) = a + 256 * b + sum_words rest

-- The carries added back twice, and the complement.
fold_complement : ℕ → ℕ
fold_complement s =
    let once = s / 2 ^ 16 + s % 2 ^ 16 in 2 ^ 16 - 1 - (once + once / 2 ^ 16) % 2 ^ 16

unfoldable pub internet_checksum : List ℕ → ℕ
unfolding sum_words fold_complement
internet_checksum bs = fold_complement (sum_words bs)

sum_words-le : (bs : List ℕ) → IsBytes bs → sum_words bs ≤ length bs * 65535
unfolding sum_words
sum_words-le [] h = omega arith
sum_words-le (a ∷ []) h = omega arith
sum_words-le (a ∷ b ∷ rest) h = omega (arith, sum_words-le rest (h.1).1)

fold_complement-lt : (s : ℕ) → fold_complement s < 2 ^ 16
unfolding fold_complement
fold_complement-lt s = omega arith

-- Adding the complement of a sum to it leaves a sum of complement 0.
fold_complement-add : (s : ℕ) → s < 2 ^ 30 → fold_complement (s + fold_complement s) ≡ 0
unfolding fold_complement
fold_complement-add s h = omega arith

-- The sum once the checksum stands in its field.
sum_words-field :
    (a b c d : ℕ) (rest : List ℕ) (k : ℕ)
    → sum_words (a ∷ b ∷ c ∷ d ∷ (k % 256) ∷ (k / 256) ∷ rest)
      ≡ sum_words (a ∷ b ∷ c ∷ d ∷ 0 ∷ 0 ∷ rest) + k
unfolding sum_words
sum_words-field a b c d rest k = omega arith

internet_checksum-verifies :
    (a b c d : ℕ) (rest : List ℕ) (k : ℕ)
    → IsBytes (a ∷ b ∷ c ∷ d ∷ rest)
    → length rest + 6 ≤ max_pdu_buf
    → internet_checksum (a ∷ b ∷ c ∷ d ∷ 0 ∷ 0 ∷ rest) ≡ k
    → internet_checksum (a ∷ b ∷ c ∷ d ∷ (k % 256) ∷ (k / 256) ∷ rest) ≡ 0
unfolding internet_checksum
internet_checksum-verifies a b c d rest k h len e =
    rw (sum_words-field a b c d rest k, ← e) (fold_complement-add whole bounded)
  where
    whole : ℕ
    whole = sum_words (a ∷ b ∷ c ∷ d ∷ 0 ∷ 0 ∷ rest)

    bounded : whole < 2 ^ 30
    bounded = omega (arith, sum_words-le rest h.1.1.1.1)

pub internet_checksum-IsChecksum : IsChecksum internet_checksum
unfolding internet_checksum
internet_checksum-IsChecksum = record {
  in_range = λ bs. fold_complement-lt (sum_words bs);
  verifies = internet_checksum-verifies;
}
