-- ===== src/Tests/GivingUp.antt =====
-- A client that has a window and hears nothing.
use cpe464_a.Base.{◌≡◌, ◌≢◌, [], ◌∷◌, arith}
use cpe464_a.Checksum.Internet.{internet_checksum}
use cpe464_a.Process.{exits, timed_out}
use cpe464_a.Rcopy.{State}
use cpe464_a.Rcopy.Run.{process_file}
use cpe464_a.Rcopy.Main.{returned}
use cpe464_a.Delivery.{delivered}
use cpe464_a.Delivery.Transfer.{answer}
use cpe464_a.Delivery.GivingUp.{recv_data-gives_up}
use cpe464_a.Tests.Client.{small, atoi, argv, calloc, ready_client, ready-Receives}

recv_data-gives_up_example :
    (returned (
        process_file internet_checksum atoi calloc argv State.recv_data ready_client
          (answer timed_out ∷ []))
      ≡ exits 0 [])
    × ([] ≢ delivered small 2)
recv_data-gives_up_example =
    recv_data-gives_up internet_checksum atoi calloc argv small ready_client [] ready-Receives
      (omega arith) (omega arith) []
