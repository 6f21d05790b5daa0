-- ===== src/Networks/Tcp.antt =====
-- The TCP part of networks.c, which neither program calls.
use cpe464_a.Base.{ℕ, Bool, Option, none, some, List, if◌then◌else◌, replicate}
use cpe464_a.SafeUtil.{Checked, returns, stops}
use cpe464_a.Networks.{SockAddr, zero_address, af_inet6, htons_bytes}
use cpe464_a.Networks.Lookup.{gethostbyname6}

unfoldable pub tcp_server_setup :
    (socket : Option ℕ) (bind : SockAddr → Bool) (getsockname listen : Bool) (server_port : ℕ)
    → Checked (ℕ × SockAddr)
unfolding htons_bytes
tcp_server_setup none bind getsockname listen server_port = stops 1
tcp_server_setup (some main_server_socket) bind getsockname listen server_port =
    let a : SockAddr = record {
      family = af_inet6;
      port = htons_bytes server_port;
      addr = replicate 16 0;
    } in
    if bind a
    then if getsockname
      then if listen then returns (main_server_socket, a) else stops 255
      else stops 255
    else stops 255

unfoldable pub tcp_accept : (accept : Option ℕ) → Checked ℕ
tcp_accept none = stops 255
tcp_accept (some client_socket) = returns client_socket

unfoldable pub tcp_client_setup :
    (getaddrinfo : ℕ → ℕ → List ℕ → Option (List ℕ)) (ip_address : List ℕ) (atoi : List ℕ → ℕ)
    (socket : Option ℕ) (connect : SockAddr → Bool) (server_name server_port : List ℕ)
    → Checked (ℕ × SockAddr)
unfolding htons_bytes
tcp_client_setup getaddrinfo ip_address atoi none connect server_name server_port = stops 255
tcp_client_setup getaddrinfo ip_address atoi (some socket_num) connect server_name server_port =
    let a : SockAddr = record zero_address {
      family = af_inet6;
      port = htons_bytes (atoi server_port);
    } in
    let looked = gethostbyname6 getaddrinfo ip_address server_name (some a) in
    elim looked.result [
      | none ↦ stops 255
      | some address ↦
          if connect looked.sockaddr then returns (socket_num, looked.sockaddr) else stops 255
    ]
