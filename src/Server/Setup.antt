-- ===== src/Server/Setup.antt =====
-- `filename` of server.c: the establishment packet, the file and the window.
use cpe464_a.Base.{
  ℕ, ◌+◌, ◌-◌, Option, none, some, List, [], ◌∷◌, take, drop, ltb, ◌==◌, ◌||◌, if◌then◌else◌, u32,
  Bool,
}
use cpe464_a.Flag
use cpe464_a.Process.{goes, exits, fault}
use cpe464_a.Pdu.{Received, read_u32, send_buf}
use cpe464_a.Window.{window_create}
use cpe464_a.Server.{State, Server, Result}

-- The bytes before the first zero: the C string in an array that ends with one.
unfoldable pub c_string : List ℕ → List ℕ
c_string [] = []
c_string (b ∷ bs) = let rest = c_string bs in if b == 0 then [] else b ∷ rest

module _ (in_cksum : List ℕ → ℕ) (calloc : ℕ → ℕ → Bool)
    (open_file : List ℕ → Option (List ℕ)) where
  -- `filename`, on the establishment packet `r`. `open_file` is what `open` and then `read` find
  -- under a name. A name shorter than none, or one that leaves no room for its zero in `fname`, is
  -- copied past an array. The socket and the poll table are taken to be had: `safeGetUdpSocket` and
  -- `setupPollSet` end the child with exit(-1) if not.
  unfoldable pub filename : Server → Received → Result
  filename sr r =
      let buf_size = read_u32 r.buf 7 in
      let window_size = read_u32 r.buf 11 in
      let sr' = record sr {
        buf_size = buf_size;
        data_packet_len = u32 (7 + buf_size);
        window_size = window_size;
      } in
      if ltb r.len 15 || ltb 114 r.len
      then fault
      else elim (open_file (c_string (take (r.len - 15) (drop 15 r.buf)))) [
        | none ↦ elim (window_create calloc window_size) [
          | none ↦ exits 1 (send_buf in_cksum 0 Flag.fname_bad [] ∷ [])
          | some w ↦
              goes State.done (record sr' { window = w })
                (send_buf in_cksum 0 Flag.fname_bad [] ∷ [])
        ]
        | some bytes ↦ elim (window_create calloc window_size) [
          | none ↦ exits 1 (send_buf in_cksum 0 Flag.fname_ok [] ∷ [])
          | some w ↦
              goes State.send_data (record sr' { window = w; data_file = bytes })
                (send_buf in_cksum 0 Flag.fname_ok [] ∷ [])
        ]
      ]
