-- ===== src/Service/Overflow.antt =====
-- What rcopy lets through and the server has no room for.
use cpe464_a.Base.{
  ℕ, ◌+◌, ◌^◌, ◌≤◌, ◌<◌, ◌≡◌, Bool, Option, some, List, [], ◌∷◌, length, arith, ◌∙◌, refl, u32,
  lt→ltb, le→ltb, ne→==,
}
use cpe464_a.Checksum.{IsBytes, IsChecksum}
use cpe464_a.Flag
use cpe464_a.Process.{fault, silent, goes}
use cpe464_a.Pdu.{send_buf}
use cpe464_a.Window.{slot, new_window, window_full}
use cpe464_a.Rcopy.Setup.{arg}
use cpe464_a.Server.{State, Answers}
use cpe464_a.Server.Setup.{filename}
use cpe464_a.Server.Send.{send_data}
use cpe464_a.Server.Resend.{timeout_on_ack}
use cpe464_a.Server.Ack.{wait_on_ack, process_select, poll_time, ack_selected}
use cpe464_a.Server.Run.{is_done, step, process_client, process_server}
use cpe464_a.Service.Request.{Names, establishment, establishment-intact, establishment_len}
use cpe464_a.Service.Opening.{opened, process_server-opened}

module _ (in_cksum atoi : List ℕ → ℕ) (calloc : ℕ → ℕ → Bool) (open_file : List ℕ → Option (List ℕ))
    {argv : List (List ℕ)} {file : List ℕ} (names : Names atoi calloc open_file argv file) where
  -- Let in_cksum be a checksum. If the client's arguments name a file that the server finds, by a
  -- name of at most 99 bytes that are not 0, with a buffer size from 1407 on and a positive window
  -- size below 2^32 - 1, and there is memory for the window, then the child that process_server
  -- starts on the establishment packet comes to undefined behaviour in the third round: send_data
  -- writes past its buffer.
  pub process_server-overflow :
      IsChecksum in_cksum
      → 1406 < atoi (arg argv 4)
      → 0 < atoi (arg argv 3)
      → atoi (arg argv 3) + 1 < 2 ^ 32
      → (stack : List ℕ) (a a' a'' : Answers) (answers : List Answers)
      → process_server in_cksum calloc open_file
          (establishment in_cksum atoi argv stack)
          (a ∷ a' ∷ a'' ∷ answers)
        ≡ some fault
  unfolding process_client is_done step send_data window_full new_window
  process_server-overflow ck large pos small stack a a' a'' answers =
      process_server-opened in_cksum atoi calloc open_file names ck stack a a' (a'' ∷ answers)
      ∙ rw
          (
            ne→== 1 (u32 (1 + atoi (arg argv 3))) (omega arith),
            lt→ltb 1406 (atoi (arg argv 4)) large,
          )
          refl

module _ (in_cksum atoi : List ℕ → ℕ) (calloc : ℕ → ℕ → Bool) (open_file : List ℕ → Option (List ℕ))
    (argv : List (List ℕ)) where
  -- Let in_cksum be a checksum. If the client asks for a file by a name of 100 to 1392 bytes, then
  -- the child that process_server starts on the establishment packet comes to undefined behaviour:
  -- filename writes past the array for the name.
  pub process_server-long_name :
      IsChecksum in_cksum
      → IsBytes (arg argv 1)
      → 100 ≤ length (arg argv 1)
      → length (arg argv 1) ≤ 1392
      → (stack : List ℕ) (a a' : Answers) (answers : List Answers)
      → process_server in_cksum calloc open_file
          (establishment in_cksum atoi argv stack)
          (a ∷ a' ∷ answers)
        ≡ some fault
  unfolding process_server process_client is_done step filename
  process_server-long_name ck bytes long fits stack a a' answers =
      rw
        (
          establishment-intact in_cksum atoi argv bytes fits ck stack,
          establishment_len in_cksum atoi argv bytes fits stack,
          le→ltb (15 + length (arg argv 1)) 15 (omega arith),
          lt→ltb 114 (15 + length (arg argv 1)) (omega arith),
        )
        refl

-- With no window.
module _ (in_cksum atoi : List ℕ → ℕ) (calloc : ℕ → ℕ → Bool) (open_file : List ℕ → Option (List ℕ))
    {argv : List (List ℕ)} {file : List ℕ} (names : Names atoi calloc open_file argv file) where
  -- Let in_cksum be a checksum. If the client's arguments name a file that the server finds, by a
  -- name of at most 99 bytes that are not 0, with a window size of 0, and calloc returns a block
  -- for it, then the child that process_server starts on the establishment packet is, after four
  -- rounds, the poll of the fourth finding nothing, in TIMEOUT_ON_ACK with the file open, a window
  -- of size 0 and nothing sent but FNAME_OK; and its fifth round is undefined behaviour.
  pub process_server-no_window :
      IsChecksum in_cksum
      → atoi (arg argv 3) ≡ 0
      → (stack : List ℕ) (a a' a'' b c : Answers) (answers : List Answers) → b.poll 1000 ≡ silent
      → (process_server in_cksum calloc open_file
            (establishment in_cksum atoi argv stack)
            (a ∷ a' ∷ a'' ∷ b ∷ [])
          ≡ some (
              goes State.timeout_on_ack
                (record (opened (atoi (arg argv 4)) 0 file) { retry_count = 1 })
                (send_buf in_cksum 0 Flag.fname_ok [] ∷ [])))
        × (process_server in_cksum calloc open_file
              (establishment in_cksum atoi argv stack)
              (a ∷ a' ∷ a'' ∷ b ∷ c ∷ answers)
            ≡ some fault)
  unfolding process_client is_done step send_data window_full new_window wait_on_ack process_select
      poll_time ack_selected timeout_on_ack slot
  process_server-no_window ck zero_size stack a a' a'' b c answers quiet = (
    process_server-opened in_cksum atoi calloc open_file names ck stack a a' (a'' ∷ b ∷ [])
        ∙ rw (zero_size, quiet) refl,
    process_server-opened in_cksum atoi calloc open_file names ck stack a a' (a'' ∷ b ∷ c ∷ answers)
        ∙ rw (zero_size, quiet) refl,
  )
