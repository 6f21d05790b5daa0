-- ===== src/Service/Copy.antt =====
-- A file that fits in the window, over a link that loses nothing: from the server's read to the
-- client's disk.
use cpe464_a.Base.{
  ℕ, zero, suc, ◌+◌, ◌-◌, ◌*◌, ◌<◌, ◌≡◌, Bool, Option, some, List, [], ◌∷◌, length, take, drop,
  replicate, arith, ◌∙◌, ap, refl,
}
use cpe464_a.Checksum.{IsBytes, IsChecksum}
use cpe464_a.Flag
use cpe464_a.Process.{Action, sent, after, goes, exits, written}
use cpe464_a.Pdu.{create_pdu, send_buf}
use cpe464_a.Window.{new_window}
use cpe464_a.Rcopy.{Client}
use cpe464_a.Rcopy as Rcopy
use cpe464_a.Rcopy.Setup.{arg}
use cpe464_a.Rcopy.Run.{process_file}
use cpe464_a.Delivery.{Receives}
use cpe464_a.Delivery.Transfer.{next, packets, DamageShows, IsByteStream, Completes, play-Completes}
use cpe464_a.Server.{State, Server, Answers}
use cpe464_a.Server.Cutting.{cut, Cuts, cut-IsStream, delivered-cut}
use cpe464_a.Server.Run.{process_server}
use cpe464_a.Service.Request.{Names, Fits, establishment}
use cpe464_a.Service.Opening.{opened, opened-Sends, process_server-opened}
use cpe464_a.Service.Burst.{Readable, burst, handed, handed-burst, send_data-burst}

take-IsBytes : (k : ℕ) (bs : List ℕ) → IsBytes bs → IsBytes (take k bs)
take-IsBytes zero bs bytes = tt
take-IsBytes (suc k) [] bytes = tt
take-IsBytes (suc k) (b ∷ bs) bytes = (bytes.0, take-IsBytes k bs bytes.1)

drop-IsBytes : (k : ℕ) (bs : List ℕ) → IsBytes bs → IsBytes (drop k bs)
drop-IsBytes zero bs bytes = bytes
drop-IsBytes (suc k) [] bytes = tt
drop-IsBytes (suc k) (b ∷ bs) bytes = drop-IsBytes k bs bytes.1

packets-replicate : (stack : List ℕ) (k : ℕ) → packets (replicate k (next stack)) ≡ k
packets-replicate stack zero = refl
packets-replicate stack (suc k) = ap suc (packets-replicate stack k)

module _ (in_cksum : List ℕ → ℕ) (n : ℕ) (file : List ℕ) (count byte : ℕ) where
  DamageShows-replicate :
      (stack : List ℕ) (k : ℕ)
      → DamageShows in_cksum (cut n file count) (byte ∷ []) (replicate k (next stack))
  DamageShows-replicate stack zero = tt
  DamageShows-replicate stack (suc k) = DamageShows-replicate stack k

-- A file of bytes makes a stream of bytes.
pub cut-IsByteStream :
    (in_cksum : List ℕ → ℕ) (n : ℕ) (file : List ℕ) (count byte : ℕ)
    → IsBytes file
    → byte < 256
    → IsByteStream in_cksum (cut n file count) (byte ∷ [])
cut-IsByteStream in_cksum n file count byte bytes small = record {
  bytes = λ i. take-IsBytes n (drop ((i - 1) * n) file) (drop-IsBytes ((i - 1) * n) file bytes);
  filler_bytes = (small, tt);
  filler_fits = omega arith;
}

module _ (in_cksum atoi : List ℕ → ℕ) (calloc : ℕ → ℕ → Bool) (argv : List (List ℕ)) {n : ℕ}
    {file : List ℕ} {count byte : ℕ} where
  -- A client that gets the whole burst.
  burst-Completes :
      IsChecksum in_cksum
      → Cuts n file count
      → IsBytes file
      → byte < 256
      → (stack : List ℕ) (c : Client) (out : List ℕ) → Receives (cut n file count) c out
      → c.expected ≡ 1
      → Completes in_cksum atoi calloc argv (cut n file count) (byte ∷ []) out (
          process_file in_cksum atoi calloc argv Rcopy.State.recv_data c
            (handed stack (burst in_cksum n file count byte 1 count)))
  burst-Completes ck cuts bytes small stack c out rec at =
      rw (handed-burst in_cksum n file count byte stack count 1) (
        play-Completes in_cksum atoi calloc argv (cut n file count) (byte ∷ []) ck
          (cut-IsStream n file count cuts) (cut-IsByteStream in_cksum n file count byte bytes small)
          (replicate (suc count) (next stack)) 1 c out rec at
          (DamageShows-replicate in_cksum n file count byte stack (suc count))
          (omega (arith, packets-replicate stack count)))

pub Fits-Cuts :
    (atoi : List ℕ → ℕ) {argv : List (List ℕ)} {file : List ℕ} {count : ℕ}
    → Fits atoi argv file count
    → Cuts (atoi (arg argv 4)) file count
Fits-Cuts atoi {argv} {file} {count} fits = record {
  size_pos = fits.fills.size_pos;
  size_le = fits.fills.size_le;
  in_word = omega (arith, fits.in_word);
  not_more = fits.fills.last;
  all = fits.fills.all;
}

module _ (in_cksum atoi : List ℕ → ℕ) (calloc : ℕ → ℕ → Bool) (open_file : List ℕ → Option (List ℕ))
    {argv : List (List ℕ)} {file : List ℕ} {count byte : ℕ} where
  pub process_server-copies :
      IsChecksum in_cksum
      → Names atoi calloc open_file argv file
      → Fits atoi argv file count
      → IsBytes file
      → byte < 256
      → count < atoi (arg argv 3)
      → (a a' : Answers) (answers : List Answers) → Readable byte answers
      → length answers ≡ count + 1
      → (c : Client) → Receives (cut (atoi (arg argv 4)) file count) c []
      → c.expected ≡ 1
      → (stack stack' : List ℕ)
      → (sr : Server) × (acts : List Action) × (datagrams : List (List ℕ)) × (acts' : List Action)
        × (process_server in_cksum calloc open_file
              (establishment in_cksum atoi argv stack)
              (a ∷ a' ∷ answers)
            ≡ some (goes State.wait_on_ack sr acts))
        × (sent acts ≡ create_pdu in_cksum 0 Flag.fname_ok [] ∷ datagrams)
        × (process_file in_cksum atoi calloc argv Rcopy.State.recv_data c (handed stack' datagrams)
            ≡ exits 0 acts')
        × (written acts' ≡ file)
  unfolding send_buf new_window
  process_server-copies ck names fits bytes small room a a' answers readable enough c rec at stack
        stack' =
      let r = establishment in_cksum atoi argv stack in
      let n = atoi (arg argv 4) in
      let (sr, acts, runs, all) =
        send_data-burst in_cksum calloc open_file r fits.fills byte count answers
          (opened n (atoi (arg argv 3)) file) (opened-Sends in_cksum atoi fits)
          (record { unfinished = refl; current_is = refl; no_eof = refl }) (omega arith)
          (omega arith) readable (omega arith) in
      let (acts', ends, whole) =
        burst-Completes in_cksum atoi calloc argv ck (Fits-Cuts atoi fits) bytes small stack' c []
          rec at in
      (
        sr,
        _,
        burst in_cksum n file count byte 1 count,
        acts',
        process_server-opened in_cksum atoi calloc open_file names ck stack a a' answers
            ∙ ap (λ o. some (after (send_buf in_cksum 0 Flag.fname_ok [] ∷ []) o)) runs,
        ap (λ ds. create_pdu in_cksum 0 Flag.fname_ok [] ∷ ds) all,
        ends,
        whole ∙ delivered-cut n file count (Fits-Cuts atoi fits),
      )
