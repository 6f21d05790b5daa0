-- ===== src/Checksum.antt =====
-- What pdu.c, rcopy.c and server.c rely on of `in_cksum`, a function of libcpe464 that they link.
-- Every definition that uses the checksum takes it as an argument, a function from the bytes that
-- it reads to the uint16_t that it returns.
pub mod Internet
use cpe464_a.Base.{ℕ, ◌+◌, ◌/◌, ◌%◌, ◌^◌, ◌≤◌, ◌<◌, ◌≡◌, List, [], ◌∷◌, length}

-- A list of bytes.
abbrev pub IsBytes : List ℕ → Type 0
IsBytes [] = Unit
IsBytes (x ∷ xs) = (x < 256) × IsBytes xs

-- MAXPDUBUF: the size of every packet buffer.
abbrev pub max_pdu_buf : ℕ
max_pdu_buf = 1407

-- The internet checksum: 16 bits wide, and a message whose third 16-bit word was zero when the
-- checksum was taken has checksum 0 once that word holds it (low byte first, as the little-endian
-- hosts store a uint16_t).
pub record IsChecksum (in_cksum : List ℕ → ℕ) : Type 0 where
  pub in_range : (bs : List ℕ) → in_cksum bs < 2 ^ 16
  pub verifies :
      (a b c d : ℕ) (rest : List ℕ) (k : ℕ)
      → IsBytes (a ∷ b ∷ c ∷ d ∷ rest)
      → length rest + 6 ≤ max_pdu_buf
      → in_cksum (a ∷ b ∷ c ∷ d ∷ 0 ∷ 0 ∷ rest) ≡ k
      → in_cksum (a ∷ b ∷ c ∷ d ∷ (k % 256) ∷ (k / 256) ∷ rest) ≡ 0
