-- ===== src/Networks/Udp.antt =====
-- The UDP part of networks.c: the server's and the client's sockets.
use cpe464_a.Base.{ℕ, Bool, Option, none, some, List, if◌then◌else◌, replicate}
use cpe464_a.SafeUtil.{Checked, returns, stops}
use cpe464_a.Networks.{SockAddr, zero_address, af_inet6, htons_bytes}
use cpe464_a.Networks.Lookup.{gethostbyname6}

-- The socket and the address that it is bound to, `in6addr_any`.
unfoldable pub udp_server_setup :
    (socket : Option ℕ) (bind : SockAddr → Bool) (server_port : ℕ) → Checked (ℕ × SockAddr)
unfolding htons_bytes
udp_server_setup none bind server_port = stops 255
udp_server_setup (some socket_num) bind server_port =
    let a : SockAddr = record {
      family = af_inet6;
      port = htons_bytes server_port;
      addr = replicate 16 0;
    } in
    if bind a then returns (socket_num, a) else stops 255

-- The socket and the server's address; none is the negative number of a socket that `socket` refused.
unfoldable pub setup_udp_client_to_server :
    (getaddrinfo : ℕ → ℕ → List ℕ → Option (List ℕ)) (ip_address : List ℕ) (socket : Option ℕ)
    (host_name : List ℕ) (server_port : ℕ)
    → Checked (Option (ℕ × SockAddr))
unfolding htons_bytes
setup_udp_client_to_server getaddrinfo ip_address none host_name server_port = returns none
setup_udp_client_to_server getaddrinfo ip_address (some socket_num) host_name server_port =
    let a : SockAddr = record zero_address { port = htons_bytes server_port; family = af_inet6 } in
    let looked = gethostbyname6 getaddrinfo ip_address host_name (some a) in
    elim looked.result [
      | none ↦ stops 255
      | some address ↦ returns (some (socket_num, looked.sockaddr))
    ]

unfoldable pub safe_get_udp_socket : (socket : Option ℕ) → Checked ℕ
safe_get_udp_socket none = stops 255
safe_get_udp_socket (some socket_num) = returns socket_num
