-- ===== src/Tests/Packets.antt =====
-- Packets and windows.
use cpe464_a.Base.{ℕ, List, ◌≡◌, ◌+◌, ◌++◌, ◌↔◌, refl, none, some, [], ◌∷◌, arith, false}
use cpe464_a.Checksum.Internet.{internet_checksum, internet_checksum-IsChecksum}
use cpe464_a.Flag
use cpe464_a.Pdu.{recv_buf, create_pdu, is_corrupt, read_u32}
use cpe464_a.Pdu.Printing.{
  Report, data_report, print_packet, print_flag, printed, MayPrint, print_packet-MayPrint,
}
use cpe464_a.Pdu.RoundTrip.{IsReceived, recv_buf-create_pdu}

-- A data packet of three bytes.
create_pdu_bytes :
    create_pdu internet_checksum 258 Flag.data_flag (1 ∷ 2 ∷ 3 ∷ [])
    ≡ 0 ∷ 0 ∷ 1 ∷ 2 ∷ 236 ∷ 249 ∷ 16 ∷ 1 ∷ 2 ∷ 3 ∷ []
unfolding create_pdu internet_checksum
create_pdu_bytes = refl

recv_buf-create_pdu_example :
    let r =
      recv_buf (9 ∷ 9 ∷ []) (create_pdu internet_checksum 258 Flag.data_flag (1 ∷ 2 ∷ 3 ∷ [])) in
    (is_corrupt internet_checksum r ≡ false) × IsReceived 258 Flag.data_flag (1 ∷ 2 ∷ 3 ∷ []) r
recv_buf-create_pdu_example =
    recv_buf-create_pdu internet_checksum internet_checksum-IsChecksum (9 ∷ 9 ∷ []) 258
      Flag.data_flag (1 ∷ 2 ∷ 3 ∷ []) (omega arith) (omega arith) (omega arith) (omega arith)

-- A text that ends within its nine bytes.
abbrev greeting : List ℕ
greeting = 104 ∷ 101 ∷ 108 ∷ 108 ∷ 111 ∷ 33 ∷ 0 ∷ 1 ∷ 2 ∷ []

print_packet-MayPrint_example :
    ((report : Report) × (print_packet
          (create_pdu internet_checksum 258 Flag.data_flag greeting ++ [])
          (7 + 9)
        ≡ some report))
    ↔ MayPrint Flag.data_flag greeting
print_packet-MayPrint_example =
    print_packet-MayPrint internet_checksum 258 Flag.data_flag greeting [] (omega arith)

-- What it prints, and what becomes of the twelve bytes that `send_srej` has printed.
print_packet_runs :
    (print_packet (create_pdu internet_checksum 258 Flag.data_flag greeting) 16
      ≡ some (data_report 258 Flag.data_flag (104 ∷ 101 ∷ 108 ∷ 108 ∷ 111 ∷ 33 ∷ [])))
    × (print_packet (create_pdu internet_checksum 258 Flag.srej_retran (1 ∷ 2 ∷ 3 ∷ 4 ∷ 5 ∷ [])) 12
        ≡ none)
unfolding print_packet print_flag printed create_pdu internet_checksum read_u32
print_packet_runs = (refl, refl)
