-- ===== src/Networks.antt =====
-- networks.c and gethostbyname.c: sockets and their addresses. What the system calls come to are
-- arguments, none being a negative result.
pub mod Lookup
pub mod Udp
pub mod Tcp
pub mod Meeting
use cpe464_a.Base.{ℕ, ◌/◌, ◌%◌, List, [], ◌∷◌, replicate}

-- `struct sockaddr_in6`, or the first fields of `struct sockaddr_in`: the port as its two bytes in the
-- struct, and the bytes of the address.
pub record SockAddr : Type 0 where
  pub family : ℕ
  pub port : List ℕ
  pub addr : List ℕ

-- What memset leaves.
abbrev pub zero_address : SockAddr
zero_address = record { family = 0; port = 0 ∷ 0 ∷ []; addr = replicate 16 0 }

abbrev pub af_inet : ℕ
af_inet = 2

abbrev pub af_inet6 : ℕ
af_inet6 = 10

-- The two bytes of `htons(port)`, which is also `ntohs(port)`, in memory; an int is cut to 16 bits.
unfoldable pub htons_bytes : ℕ → List ℕ
htons_bytes port = (port / 256 % 256) ∷ (port % 256) ∷ []
