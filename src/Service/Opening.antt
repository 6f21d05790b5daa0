-- ===== src/Service/Opening.antt =====
-- The establishment packet, from `start_state` of rcopy.c to `filename` of server.c.
use cpe464_a.Base.{
  ℕ, ◌+◌, ◌-◌, ◌*◌, ◌≡◌, inl, Bool, Option, some, List, [], ◌∷◌, length, take, drop, arith, ap,
  refl, u32, le→ltb,
}
use cpe464_a.Checksum.{IsChecksum}
use cpe464_a.Flag
use cpe464_a.Process.{after, after-nil, goes}
use cpe464_a.Pdu.{Received, read_u32, send_buf}
use cpe464_a.Window.{new_window, window_create}
use cpe464_a.Window.Slots.{new_window-IsValid}
use cpe464_a.Rcopy.Setup.{arg, init_payload}
use cpe464_a.Server.{State, Server, Result, Answers, initial_server}
use cpe464_a.Server.Setup.{filename}
use cpe464_a.Server.Run.{is_done, step, process_client, process_server}
use cpe464_a.Service.{Sends, Promised}
use cpe464_a.Service.Runs.{MeetsRun, process_client-Promised}
use cpe464_a.Service.Request.{
  c_string_all, establishment, Names, Fits, fields, establishment-intact,
}

-- The variables of `process_client` once the file is open.
abbrev pub opened : (n m : ℕ) → List ℕ → Server
opened n m file = record initial_server {
  buf_size = n;
  data_packet_len = u32 (7 + n);
  window_size = m;
  window = new_window m;
  data_file = file;
}

module _ (in_cksum atoi : List ℕ → ℕ) (calloc : ℕ → ℕ → Bool) (open_file : List ℕ → Option (List ℕ))
    {argv : List (List ℕ)} {file : List ℕ} (names : Names atoi calloc open_file argv file) where
  established :
      (stack : List ℕ)
      → let r = establishment in_cksum atoi argv stack in
        (r.len ≡ 15 + length (arg argv 1))
        × (read_u32 r.buf 7 ≡ atoi (arg argv 4))
        × (read_u32 r.buf 11 ≡ atoi (arg argv 3))
        × (take (length (arg argv 1)) (drop 15 r.buf) ≡ arg argv 1)
  unfolding init_payload
  established stack =
      fields in_cksum stack (arg argv 1) (atoi (arg argv 4)) (atoi (arg argv 3))
        (omega (arith, names.name_le)) names.size_word names.window_word

  filename_at :
      (r : Received)
      → r.len ≡ 15 + length (arg argv 1)
      → read_u32 r.buf 7 ≡ atoi (arg argv 4)
      → read_u32 r.buf 11 ≡ atoi (arg argv 3)
      → take (length (arg argv 1)) (drop 15 r.buf) ≡ arg argv 1
      → filename in_cksum calloc open_file initial_server r
        ≡ goes State.send_data
            (opened (atoi (arg argv 4)) (atoi (arg argv 3)) file)
            (send_buf in_cksum 0 Flag.fname_ok [] ∷ [])
  unfolding filename window_create
  filename_at r len size window_size name =
      let taken : (15 + length (arg argv 1)) - 15 ≡ length (arg argv 1) = omega arith in
      rw
        (
          len,
          le→ltb 114 (15 + length (arg argv 1)) (omega (arith, names.name_le)),
          le→ltb (15 + length (arg argv 1)) 15 (omega arith),
          taken,
          name,
          c_string_all (arg argv 1) names.name_string,
          names.file_there,
          window_size,
          names.found,
          size,
          window_size,
        )
        refl

  -- If the client's arguments name a file that the server finds, by a name of at most 99 bytes
  -- that are not 0, with a buffer size and a window size below 2^32, and there is memory for the
  -- window, then, the socket and the poll table being had, filename on the establishment packet of
  -- start_state sends FNAME_OK and goes to SEND_DATA with exactly that file open, that buffer
  -- size, a new window of that size, and the variables otherwise as they were.
  pub filename-init_payload :
      (stack : List ℕ)
      → filename in_cksum calloc open_file initial_server (establishment in_cksum atoi argv stack)
        ≡ goes State.send_data
            (opened (atoi (arg argv 4)) (atoi (arg argv 3)) file)
            (send_buf in_cksum 0 Flag.fname_ok [] ∷ [])
  filename-init_payload stack =
      let (len, size, window_size, name) = established stack in
      filename_at (establishment in_cksum atoi argv stack) len size window_size name

  -- `process_server` on it.
  pub process_server-opened :
      IsChecksum in_cksum
      → (stack : List ℕ) (a a' : Answers) (answers : List Answers)
      → let r = establishment in_cksum atoi argv stack in
        process_server in_cksum calloc open_file r (a ∷ a' ∷ answers)
        ≡ some (
            after (send_buf in_cksum 0 Flag.fname_ok [] ∷ []) (
              process_client in_cksum calloc open_file r State.send_data
                (opened (atoi (arg argv 4)) (atoi (arg argv 3)) file)
                answers))
  unfolding process_server process_client is_done step
  process_server-opened ck stack a a' answers =
      rw
        (
          establishment-intact in_cksum atoi argv names.name_bytes (omega (arith, names.name_le)) ck
              stack,
          filename-init_payload stack,
        )
        (ap some (after-nil _))

module _ (in_cksum atoi : List ℕ → ℕ) {argv : List (List ℕ)} {file : List ℕ} {count : ℕ}
    (fits : Fits atoi argv file count) where
  pub opened-Sends :
      Sends in_cksum
        (atoi (arg argv 4))
        file
        count
        (opened (atoi (arg argv 4)) (atoi (arg argv 3)) file)
  unfolding new_window
  opened-Sends = record {
    size_is = refl;
    data_len_is = omega (arith, fits.fills.size_le);
    window_valid = new_window-IsValid (atoi (arg argv 3)) fits.window_pos;
    window_bounded = record {
      upper_is = omega (arith, fits.in_word);
      in_word = omega (arith, fits.in_word);
      above = omega arith;
      below = omega arith;
    };
    in_word = omega (arith, fits.in_word);
    lower_from_one = omega arith;
    lower_le = omega arith;
    to_count = omega arith;
    unread = let start : (1 - 1) * atoi (arg argv 4) ≡ 0 = omega arith in rw start refl;
    phase = inl (record { unfinished = refl; current_is = refl; no_eof = refl });
    final_is = inl refl;
    final_known = λ past short. omega arith;
    held = λ i from below. absurd (omega arith);
  }

  -- Let in_cksum be a checksum, and let a client's arguments name a file that the server finds, by
  -- a name of at most 99 bytes that are not 0, with a buffer size of 1 to 1400 and a positive
  -- window size, the number of packets, the window size and 3 together below 2^32, and let there
  -- be memory for the window. If process_server gets the establishment packet of start_state and
  -- the rounds after the first two meet only what they may (in WAIT_ON_ACK: a datagram whose
  -- damage the checksum shows, an RR for a number from the window's lower end to the next one, an
  -- SREJ for a data packet from the lower end on that was sent, another flag, or a failure, and a
  -- timeout only while the first packet that is not acknowledged has data; elsewhere anything),
  -- then it starts a child that answers FNAME_OK and has no undefined behaviour but stray
  -- operations (a stray operation is one that the source leaves undefined whenever its line runs,
  -- marked in the effects, past which the program is taken to go on: the array of printPacket at
  -- server.c:415), and all that the child sends afterwards are the data packets of the file, each
  -- for the first time in the order of their numbers from 1 and under the flag DATA, packets from
  -- before the next one again under DATA_TIMEOUT or SREJ_RETRAN, EOF packets under the number
  -- after the last one and only once all were sent, and empty datagrams; and it writes nothing.
  pub process_server-Promised :
      (calloc : ℕ → ℕ → Bool) (open_file : List ℕ → Option (List ℕ))
      → Names atoi calloc open_file argv file
      → IsChecksum in_cksum
      → (stack : List ℕ) (a a' : Answers) (answers : List Answers)
      → let r = establishment in_cksum atoi argv stack in
        let n = atoi (arg argv 4) in
        MeetsRun in_cksum calloc open_file r n file count State.send_data
          (opened n (atoi (arg argv 3)) file)
          answers
        → (o : Result) × (process_server in_cksum calloc open_file r (a ∷ a' ∷ answers)
            ≡ some (after (send_buf in_cksum 0 Flag.fname_ok [] ∷ []) o))
          × Promised in_cksum n file count 1 o
  process_server-Promised calloc open_file names ck stack a a' answers met =
      let r = establishment in_cksum atoi argv stack in
      (
        _,
        process_server-opened in_cksum atoi calloc open_file names ck stack a a' answers,
        process_client-Promised in_cksum calloc open_file r (atoi (arg argv 4)) file count
            fits.fills answers State.send_data (opened (atoi (arg argv 4)) (atoi (arg argv 3)) file)
            opened-Sends met,
      )
