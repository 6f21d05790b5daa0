-- ===== src/Networks/Meeting.antt =====
-- The client's and the server's address of one port.
use cpe464_a.Base.{
  ℕ, ◌+◌, ◌*◌, ◌^◌, ◌<◌, ◌≡◌, refl, Bool, true, Option, some, List, append-nil, length, get_or,
  replicate, take_all, arith,
}
use cpe464_a.SafeUtil.{returns}
use cpe464_a.Networks.{SockAddr, zero_address, af_inet6, htons_bytes}
use cpe464_a.Networks.Lookup.{mapped_flags, copy_bytes, get_ip_address46, gethostbyname6}
use cpe464_a.Networks.Udp.{udp_server_setup, setup_udp_client_to_server}

copy_whole : (found : List ℕ) → length found ≡ 16 → copy_bytes 16 found (replicate 16 0) ≡ found
unfolding copy_bytes
copy_whole found len = rw (take_all 16 found (omega arith)) (append-nil found)

module _ (getaddrinfo : ℕ → ℕ → List ℕ → Option (List ℕ)) where
  gethostbyname6-found :
      (ip_address host found : List ℕ) (a : SockAddr)
      → getaddrinfo mapped_flags af_inet6 host ≡ some found
      → gethostbyname6 getaddrinfo ip_address host (some a) ≡ record {
        result = some (copy_bytes 16 (copy_bytes 16 found a.addr) ip_address);
        sockaddr = record a { addr = copy_bytes 16 found a.addr };
        ip_address = copy_bytes 16 (copy_bytes 16 found a.addr) ip_address;
      }
  unfolding gethostbyname6 get_ip_address46
  gethostbyname6-found ip_address host found a known = rw (known, get_ip_address46) refl

  -- For a port below 2^16, if the sockets are had, bind succeeds and getaddrinfo knows the host by
  -- 16 bytes, then setupUdpClientToServer returns the client's socket with an address that has
  -- these bytes, and the same family and port as the address that udpServerSetup binds the
  -- server's socket to, the port in network order.
  pub setup_udp_client_to_server-port :
      (ip_address host found : List ℕ) (client_socket server_socket port : ℕ)
      (bind : SockAddr → Bool)
      → port < 2 ^ 16
      → getaddrinfo mapped_flags af_inet6 host ≡ some found
      → length found ≡ 16
      → ((a : SockAddr) → bind a ≡ true)
      → (a b : SockAddr) × (setup_udp_client_to_server getaddrinfo ip_address
            (some client_socket)
            host
            port
          ≡ returns (some (client_socket, a)))
        × (udp_server_setup (some server_socket) bind port ≡ returns (server_socket, b))
        × (a.addr ≡ found)
        × (a.family ≡ b.family)
        × (a.port ≡ b.port)
        × (get_or a.port 0 0 * 256 + get_or a.port 1 0 ≡ port)
  unfolding setup_udp_client_to_server udp_server_setup htons_bytes
  setup_udp_client_to_server-port ip_address host found client_socket server_socket port bind small
        known len bound =
      let looked =
        gethostbyname6-found ip_address host found
          (record zero_address { port = htons_bytes port; family = af_inet6 }) known in
      (
        record { family = af_inet6; port = htons_bytes port; addr = found },
        record { family = af_inet6; port = htons_bytes port; addr = replicate 16 0 },
        rw (looked, setup_udp_client_to_server, looked, copy_whole found len) refl,
        rw (bound _) refl,
        refl,
        refl,
        refl,
        omega arith,
      )
