-- ===== src/Tests/Children.antt =====
-- A server that gets a request, a damaged datagram and another request.
use cpe464_a.Base.{ℕ, ◌≡◌, refl, Bool, true, false, some, List, [], ◌∷◌, arith}
use cpe464_a.Checksum.Internet.{internet_checksum, internet_checksum-IsChecksum}
use cpe464_a.Flag
use cpe464_a.SafeUtil.{returns}
use cpe464_a.Networks.{SockAddr}
use cpe464_a.Pdu.{recv_buf}
use cpe464_a.Server.Main.{server_args, server_main}
use cpe464_a.Server.Children.{
  Coming, packet, noise, MayCome, AllMayCome, arrivals_of, clients_of, server_main-clients_of,
}
use cpe464_a.Tests.Service.{decimal, disk, zeroed, quiet}

abbrev request : Coming
request = packet 0 Flag.filename_init (0 ∷ 0 ∷ []) [] (quiet ∷ quiet ∷ [])

abbrev coming : List Coming
coming = request ∷ noise (recv_buf [] (1 ∷ 2 ∷ 3 ∷ [])) [] ∷ request ∷ []

coming-AllMayCome : AllMayCome internet_checksum coming
unfolding recv_buf internet_checksum
coming-AllMayCome = (request_fits, ((λ q. absurd (omega (arith, q))), (request_fits, tt)))
  where
    request_fits : MayCome internet_checksum request
    request_fits = (omega arith, omega arith, (omega arith, (omega arith, tt)), omega arith)

abbrev server_argv : List (List ℕ)
server_argv = (b's' ∷ []) ∷ (b'0' ∷ []) ∷ (b'5' ∷ b'5' ∷ []) ∷ []

argv_port : server_args decimal server_argv ≡ returns 55
unfolding server_args decimal
argv_port = refl

abbrev free_port : SockAddr → Bool
free_port a = true

server_main-clients_of_example :
    server_main internet_checksum zeroed disk decimal
      (some 3)
      free_port
      server_argv
      (arrivals_of internet_checksum coming)
    ≡ returns (record { children = clients_of internet_checksum zeroed disk coming; ended = false })
server_main-clients_of_example =
    server_main-clients_of internet_checksum zeroed disk internet_checksum-IsChecksum decimal 3 55
      free_port server_argv coming argv_port (λ a is. refl) coming-AllMayCome
