-- ===== src/Base/Word.antt =====
-- uint32_t arithmetic and its bytes in network order (`htonl` and `ntohl` around a memcpy).
use Prim.Native.Nat.{ℕ, ◌+◌, ◌*◌, ◌/◌, ◌%◌, ◌^◌, ◌<◌}
use mathlib.Core.Path.{◌≡◌}
use mathlib.Core.List.{List, [], ◌∷◌}
use native.Mathlib.Omega.{arith}

abbrev pub u32 : ℕ → ℕ
u32 n = n % 2 ^ 32

-- memcpy of `htonl(n)`: most significant byte first.
unfoldable pub htonl_bytes : ℕ → List ℕ
htonl_bytes n = (n / 2 ^ 24 % 256) ∷ (n / 2 ^ 16 % 256) ∷ (n / 2 ^ 8 % 256) ∷ (n % 256) ∷ []

-- `ntohl` of the four bytes that a memcpy takes.
unfoldable pub ntohl_bytes : ℕ → ℕ → ℕ → ℕ → ℕ
ntohl_bytes a b c d = a * 2 ^ 24 + b * 2 ^ 16 + c * 2 ^ 8 + d

pub ntohl-htonl :
    (n : ℕ)
    → n < 2 ^ 32
    → ntohl_bytes (n / 2 ^ 24 % 256) (n / 2 ^ 16 % 256) (n / 2 ^ 8 % 256) (n % 256) ≡ n
unfolding ntohl_bytes
ntohl-htonl n h = omega arith
