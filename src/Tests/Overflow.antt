-- ===== src/Tests/Overflow.antt =====
-- Requests that rcopy lets through and the server has no room for.
use cpe464_a.Base.{ℕ, zero, suc, ◌<◌, ◌≡◌, refl, true, some, List, [], ◌∷◌, replicate, arith}
use cpe464_a.Checksum.{IsBytes}
use cpe464_a.Checksum.Internet.{internet_checksum, internet_checksum-IsChecksum}
use cpe464_a.Process.{fault}
use cpe464_a.Rcopy.Setup.{check_args}
use cpe464_a.Server.Run.{process_server}
use cpe464_a.Service.Request.{Names, establishment}
use cpe464_a.Service.Overflow.{
  process_server-overflow, process_server-long_name, process_server-no_window,
}
use cpe464_a.Flag
use cpe464_a.Process.{goes}
use cpe464_a.Pdu.{send_buf}
use cpe464_a.Server.{State}
use cpe464_a.Service.Opening.{opened}
use cpe464_a.Tests.Service.{decimal, disk, zeroed, arguments, quiet, five}

-- Buffers of 2000 bytes.
abbrev large : List (List ℕ)
large = arguments (b'f' ∷ []) (b'4' ∷ []) (b'2' ∷ b'0' ∷ b'0' ∷ b'0' ∷ [])

large-Names : Names decimal zeroed disk large five
unfolding decimal
large-Names = record {
  size_word = omega arith;
  window_word = omega arith;
  name_le = omega arith;
  name_string = (omega arith, tt);
  name_bytes = (omega arith, tt);
  file_there = refl;
  found = refl;
}

-- `checkArgs` lets them through.
large-checked : check_args large ≡ true
unfolding check_args
large-checked = refl

process_server-overflow_example :
    process_server internet_checksum zeroed disk
      (establishment internet_checksum decimal large [])
      (quiet ∷ quiet ∷ quiet ∷ [])
    ≡ some fault
unfolding decimal
process_server-overflow_example =
    process_server-overflow internet_checksum decimal zeroed disk large-Names
      internet_checksum-IsChecksum (omega arith) (omega arith) (omega arith) [] quiet quiet quiet []

-- A window of none.
abbrev windowless : List (List ℕ)
windowless = arguments (b'f' ∷ []) (b'0' ∷ []) (b'2' ∷ [])

windowless-Names : Names decimal zeroed disk windowless five
unfolding decimal
windowless-Names = record {
  size_word = omega arith;
  window_word = omega arith;
  name_le = omega arith;
  name_string = (omega arith, tt);
  name_bytes = (omega arith, tt);
  file_there = refl;
  found = refl;
}

windowless-checked : check_args windowless ≡ true
unfolding check_args
windowless-checked = refl

process_server-no_window_example :
    (process_server internet_checksum zeroed disk
        (establishment internet_checksum decimal windowless [])
        (quiet ∷ quiet ∷ quiet ∷ quiet ∷ [])
      ≡ some (
          goes State.timeout_on_ack
            (record (opened 2 0 five) { retry_count = 1 })
            (send_buf internet_checksum 0 Flag.fname_ok [] ∷ [])))
    × (process_server internet_checksum zeroed disk
          (establishment internet_checksum decimal windowless [])
          (quiet ∷ quiet ∷ quiet ∷ quiet ∷ quiet ∷ [])
        ≡ some fault)
unfolding decimal
process_server-no_window_example =
    process_server-no_window internet_checksum decimal zeroed disk windowless-Names
      internet_checksum-IsChecksum refl [] quiet quiet quiet quiet quiet [] refl

replicate-IsBytes : (k b : ℕ) → b < 256 → IsBytes (replicate k b)
replicate-IsBytes zero b small = tt
replicate-IsBytes (suc k) b small = (small, replicate-IsBytes k b small)

abbrev long_named : List (List ℕ)
long_named = arguments (replicate 100 b'f') (b'4' ∷ []) (b'2' ∷ [])

long_named-checked : check_args long_named ≡ true
unfolding check_args
long_named-checked = refl

process_server-long_name_example :
    process_server internet_checksum zeroed disk
      (establishment internet_checksum decimal long_named [])
      (quiet ∷ quiet ∷ [])
    ≡ some fault
process_server-long_name_example =
    process_server-long_name internet_checksum decimal zeroed disk long_named
      internet_checksum-IsChecksum (replicate-IsBytes 100 b'f' (omega arith)) (omega arith)
      (omega arith) [] quiet quiet []
