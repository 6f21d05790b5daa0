-- ===== src/Service/Request.antt =====
-- The establishment packet of `start_state`, as `recv_buf` hands it to the server.
use cpe464_a.Base.{
  ℕ, ◌+◌, ◌^◌, ◌≤◌, ◌<◌, ◌≡◌, ◌≢◌, true, false, Bool, Option, some, List, [], ◌∷◌, ◌++◌, length,
  take, drop, arith, ap, refl, htonl_bytes, ntohl-htonl, take-append_self, take_all, ne→==,
}
use cpe464_a.Checksum.{IsBytes, IsChecksum}
use cpe464_a.Flag
use cpe464_a.Pdu.{Received, recv_buf, read_u32, create_pdu, is_corrupt}
use cpe464_a.Pdu.RoundTrip.{recv_buf-create_pdu}
use cpe464_a.Window.{size_t_of_int}
use cpe464_a.Rcopy.Setup.{arg, init_payload}
use cpe464_a.Server.Setup.{c_string}
use cpe464_a.Service.{Fills}

-- A string of C: no zero in it.
abbrev pub NoZero : List ℕ → Type 0
NoZero [] = Unit
NoZero (b ∷ bs) = (b ≢ 0) × NoZero bs

pub c_string_all : (bs : List ℕ) → NoZero bs → c_string bs ≡ bs
unfolding c_string
c_string_all [] nonzero = refl
c_string_all (b ∷ bs) nonzero =
    rw (ne→== b 0 nonzero.0) (ap (λ xs. b ∷ xs) (c_string_all bs nonzero.1))

-- The establishment packet as `recv_buf` gets it.
abbrev pub establishment :
    (in_cksum atoi : List ℕ → ℕ) → List (List ℕ) → (stack : List ℕ) → Received
establishment in_cksum atoi argv stack =
    recv_buf stack (create_pdu in_cksum 0 Flag.filename_init (init_payload in_cksum atoi argv))

-- What a client asks for that names a file.
pub record Names (atoi : List ℕ → ℕ) (calloc : ℕ → ℕ → Bool) (open_file : List ℕ → Option (List ℕ))
    (argv : List (List ℕ)) (file : List ℕ) : Type 0 where
  pub size_word : atoi (arg argv 4) < 2 ^ 32
  pub window_word : atoi (arg argv 3) < 2 ^ 32
  pub name_le : length (arg argv 1) ≤ 99
  pub name_string : NoZero (arg argv 1)
  pub name_bytes : IsBytes (arg argv 1)
  pub file_there : open_file (arg argv 1) ≡ some file
  pub found : calloc (size_t_of_int (atoi (arg argv 3))) 1416 ≡ true

-- The sizes are ones that the server can work with.
pub record Fits (atoi : List ℕ → ℕ) (argv : List (List ℕ)) (file : List ℕ) (count : ℕ)
    : Type 0 where
  pub fills : Fills (atoi (arg argv 4)) file count
  pub window_pos : 0 < atoi (arg argv 3)
  pub in_word : count + 3 + atoi (arg argv 3) < 2 ^ 32

module _ (in_cksum : List ℕ → ℕ) where
  pub fields :
      (stack name : List ℕ) (n m : ℕ)
      → length name ≤ 1392
      → n < 2 ^ 32
      → m < 2 ^ 32
      → let r =
          recv_buf stack
            (create_pdu in_cksum 0 Flag.filename_init (htonl_bytes n ++ (htonl_bytes m ++ name))) in
        (r.len ≡ 15 + length name)
        × (read_u32 r.buf 7 ≡ n)
        × (read_u32 r.buf 11 ≡ m)
        × (take (length name) (drop 15 r.buf) ≡ name)
  unfolding recv_buf create_pdu htonl_bytes read_u32
  fields stack name n m short n_lt m_lt =
      let whole : take 1392 name ≡ name = take_all 1392 name (omega arith) in
      rw whole (omega arith, ntohl-htonl n n_lt, ntohl-htonl m m_lt, take-append_self name _)

module _ (in_cksum atoi : List ℕ → ℕ) (argv : List (List ℕ)) (name_bytes : IsBytes (arg argv 1))
    (name_le : length (arg argv 1) ≤ 1392) where
  IsBytes-init_payload : IsBytes (init_payload in_cksum atoi argv)
  unfolding init_payload htonl_bytes
  IsBytes-init_payload = (
    omega arith,
    (
      omega arith,
      (
        omega arith,
        (omega arith, (omega arith, (omega arith, (omega arith, (omega arith, name_bytes))))),
      ),
    ),
  )

  length-init_payload : length (init_payload in_cksum atoi argv) ≤ 1400
  unfolding init_payload htonl_bytes
  length-init_payload = omega (arith, name_le)

  pub establishment_len :
      (stack : List ℕ) → (establishment in_cksum atoi argv stack).len ≡ 15 + length (arg argv 1)
  unfolding recv_buf create_pdu init_payload htonl_bytes
  establishment_len stack =
      let whole : take 1392 (arg argv 1) ≡ arg argv 1 = take_all 1392 (arg argv 1) name_le in
      rw whole (omega arith)

  pub establishment-intact :
      IsChecksum in_cksum
      → (stack : List ℕ) → is_corrupt in_cksum (establishment in_cksum atoi argv stack) ≡ false
  establishment-intact ck stack =
      (recv_buf-create_pdu in_cksum ck stack 0 Flag.filename_init (init_payload in_cksum atoi argv)
        (omega arith) (omega arith) IsBytes-init_payload length-init_payload).0
