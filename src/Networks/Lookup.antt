-- ===== src/Networks/Lookup.antt =====
-- gethostbyname.c: a host's first address.
use cpe464_a.Base.{ℕ, Option, none, some, List, ◌++◌, take, drop, ◌==◌, if◌then◌else◌}
use cpe464_a.Networks.{SockAddr, zero_address, af_inet, af_inet6}

-- AI_V4MAPPED | AI_ALL
abbrev pub mapped_flags : ℕ
mapped_flags = 24

-- memcpy over the first bytes.
unfoldable pub copy_bytes : ℕ → List ℕ → List ℕ → List ℕ
copy_bytes n from to = take n from ++ drop n to

-- The pointer that is returned, as what the static `ipAddress` then holds, none for NULL; the socket
-- address; and `ipAddress`.
pub record LookedUp : Type 0 where
  pub result : Option (List ℕ)
  pub sockaddr : SockAddr
  pub ip_address : List ℕ

-- `getaddrinfo flags family host` has the bytes of the first address in its list, none if it fails.
module _ (getaddrinfo : ℕ → ℕ → List ℕ → Option (List ℕ)) where
  unfoldable pub get_ip_address46 : (ip_address host : List ℕ) → SockAddr → (family : ℕ) → LookedUp
  unfolding copy_bytes
  get_ip_address46 ip_address host a family =
      let flags : ℕ = (if family == af_inet then 0 else mapped_flags) in
      let hint : ℕ = (if family == af_inet then af_inet else af_inet6) in
      let n : ℕ = (if family == af_inet then 4 else 16) in
      elim (getaddrinfo flags hint host) [
        | none ↦ record { result = none; sockaddr = a; ip_address = ip_address }
        | some found ↦
            let addr = copy_bytes n found a.addr in
            let copied = copy_bytes n addr ip_address in
            record {
              result = some copied;
              sockaddr = record a { addr = addr };
              ip_address = copied;
            }
      ]

  -- A NULL socket address stands for a temporary one.
  unfoldable pub gethostbyname4 : (ip_address host : List ℕ) → Option SockAddr → LookedUp
  gethostbyname4 ip_address host none = get_ip_address46 ip_address host zero_address af_inet
  gethostbyname4 ip_address host (some a) = get_ip_address46 ip_address host a af_inet

  unfoldable pub gethostbyname6 : (ip_address host : List ℕ) → Option SockAddr → LookedUp
  gethostbyname6 ip_address host none = get_ip_address46 ip_address host zero_address af_inet6
  gethostbyname6 ip_address host (some a) = get_ip_address46 ip_address host a af_inet6
