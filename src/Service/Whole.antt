-- ===== src/Service/Whole.antt =====
-- The two programs, from the client's start to its exit.
use cpe464_a.Base.{
  ℕ, ◌+◌, ◌<◌, ◌≡◌, Bool, true, false, Option, some, List, [], ◌∷◌, length, arith, ◌∙◌, ap, refl,
  u32,
}
use cpe464_a.Checksum.{IsBytes, IsChecksum}
use cpe464_a.Flag
use cpe464_a.Process.{
  Action, send, sent, ready, silent, timed_out, arrived, after, after-nil, goes, exits, written,
}
use cpe464_a.Pdu.{recv_buf, create_pdu, send_buf, is_corrupt}
use cpe464_a.Pdu.RoundTrip.{recv_buf-create_pdu}
use cpe464_a.Window.{new_window, window_create, size_t_of_int}
use cpe464_a.Rcopy.{Client, initial_client}
use cpe464_a.Rcopy as Rcopy
use cpe464_a.Rcopy.Setup.{
  arg, no_socket, opened, init_payload, start_state, process_select, filename, filename_after,
  filename_selected, filename_event, filename_packet, file_ok,
}
use cpe464_a.Rcopy.Run as ClientRun
use cpe464_a.Delivery.{Receives}
use cpe464_a.Delivery.Opening.{Asks-Receives}
use cpe464_a.Server.{State, Server, Answers}
use cpe464_a.Server.Cutting.{cut}
use cpe464_a.Server.Run.{process_server}
use cpe464_a.Service.Request.{Names, Fits}
use cpe464_a.Service.Burst.{Readable, handed}
use cpe464_a.Service.Copy.{process_server-copies}

-- What the client meets: a socket, the first datagram while it waits for the file name's answer, an
-- output file, and then the other datagrams.
abbrev pub answered_by : ℕ → List ℕ → List (List ℕ) → List ClientRun.Answers
answered_by socket stack [] = []
answered_by socket stack (datagram ∷ rest) =
    record { socket = opened socket; select = silent; event = timed_out; file_opened = false }
    ∷ record {
      socket = no_socket;
      select = ready;
      event = arrived stack datagram;
      file_opened = false;
    }
    ∷ record { socket = no_socket; select = silent; event = timed_out; file_opened = true }
    ∷ handed stack rest

-- The variables of `processFile` in RECV_DATA.
abbrev pub ready_client : (socket n m : ℕ) → Client
ready_client socket n m = record initial_client {
  sk_num = socket;
  data_packet_len = u32 (7 + n);
  client_seq_num = u32 (0 + 1);
  window = new_window m;
}

module _ (in_cksum atoi : List ℕ → ℕ) (calloc : ℕ → ℕ → Bool) (argv : List (List ℕ))
    (ck : IsChecksum in_cksum) (socket : ℕ) (stack : List ℕ) where
  name_ok :
      (is_corrupt in_cksum (recv_buf stack (create_pdu in_cksum 0 Flag.fname_ok [])) ≡ false)
      × ((recv_buf stack (create_pdu in_cksum 0 Flag.fname_ok [])).flag ≡ Flag.fname_ok)
  name_ok =
      let (clean, got) =
        recv_buf-create_pdu in_cksum ck stack 0 Flag.fname_ok [] (omega arith) (omega arith) tt
          (omega arith) in
      (clean, got.flag_kept)

  process_file-opens :
      (rest : List (List ℕ))
      → calloc (size_t_of_int (atoi (arg argv 3))) 1416 ≡ true
      → ClientRun.process_file in_cksum atoi calloc argv Rcopy.State.start_state initial_client
          (answered_by socket stack (create_pdu in_cksum 0 Flag.fname_ok [] ∷ rest))
        ≡ after
            (send (create_pdu in_cksum 0 Flag.filename_init (init_payload in_cksum atoi argv)) ∷ [])
            (ClientRun.process_file in_cksum atoi calloc argv Rcopy.State.recv_data
              (ready_client socket (atoi (arg argv 4)) (atoi (arg argv 3)))
              (handed stack rest))
  unfolding ClientRun.process_file ClientRun.is_done ClientRun.step start_state filename
      process_select filename_after filename_selected filename_event filename_packet file_ok
      window_create send_buf
  process_file-opens rest found =
      rw (name_ok.0, name_ok.1, found)
        (ap
          (after (
            send (create_pdu in_cksum 0 Flag.filename_init (init_payload in_cksum atoi argv)) ∷ []))
          (after-nil _ ∙ after-nil _))

module _ (in_cksum atoi : List ℕ → ℕ) (calloc : ℕ → ℕ → Bool) (open_file : List ℕ → Option (List ℕ))
    {argv : List (List ℕ)} {file : List ℕ} {count : ℕ} where
  pub ready_client-Receives :
      (socket : ℕ)
      → Fits atoi argv file count
      → Receives
          (cut (atoi (arg argv 4)) file count)
          (ready_client socket (atoi (arg argv 4)) (atoi (arg argv 3)))
          []
  ready_client-Receives socket fits =
      Asks-Receives
        {c = record (ready_client socket (atoi (arg argv 4)) 0) { window = initial_client.window }}
        (atoi (arg argv 3)) fits.window_pos
        (record {
          opens = record { nothing = refl; first_expected = refl; no_eof = refl; no_final = refl };
          data_len_set = omega (arith, fits.fills.size_le);
        })

  -- Let in_cksum be a checksum, let the client's arguments name a file of bytes that the server
  -- finds, by a name of at most 99 bytes that are not 0, with a buffer size of 1 to 1400 and a
  -- window size above the number of packets that the file makes, the number of packets, the window
  -- size and 3 together below 2^32, and let there be memory for the window. If no read of the
  -- server fails (and one byte of its stack stays what it is), then there is a request such that
  -- process_server, on that datagram and as many rounds as the file has packets and three more,
  -- ends in WAIT_ON_ACK; and processFile, from its start, if it gets a socket, finds the first
  -- datagram to receive within its first poll, and then receives the server's datagrams in order,
  -- exits with 0 after sending that request first, and has written exactly the file.
  pub process_file-copies_all :
      (byte : ℕ)
      → IsChecksum in_cksum
      → Names atoi calloc open_file argv file
      → Fits atoi argv file count
      → IsBytes file
      → byte < 256
      → count < atoi (arg argv 3)
      → (a a' : Answers) (answers : List Answers) → Readable byte answers
      → length answers ≡ count + 1
      → (socket : ℕ) (stack stack' : List ℕ)
      → (request : List ℕ) × (sr : Server) × (acts acts' : List Action) × (process_server in_cksum
            calloc open_file
            (recv_buf stack request)
            (a ∷ a' ∷ answers)
          ≡ some (goes State.wait_on_ack sr acts))
        × (ClientRun.process_file in_cksum atoi calloc argv Rcopy.State.start_state initial_client
              (answered_by socket stack' (sent acts))
            ≡ exits 0 (send request ∷ acts'))
        × (written acts' ≡ file)
  process_file-copies_all byte ck names fits bytes small room a a' answers readable enough socket
        stack stack' =
      let (sr, acts, datagrams, acts', serves, all, ends, whole) =
        process_server-copies in_cksum atoi calloc open_file ck names fits bytes small room a a'
          answers readable enough (ready_client socket (atoi (arg argv 4)) (atoi (arg argv 3)))
          (ready_client-Receives socket fits) refl stack stack' in
      (
        create_pdu in_cksum 0 Flag.filename_init (init_payload in_cksum atoi argv),
        sr,
        acts,
        acts',
        serves,
        rw
            (
              all,
              process_file-opens in_cksum atoi calloc argv ck socket stack' datagrams names.found,
              ends,
            )
            refl,
        whole,
      )
