-- ===== src/Service/Burst.antt =====
-- `send_data` on a file that fits in the window: it sends all of it without waiting.
use cpe464_a.Base.{
  ℕ, zero, suc, ◌+◌, ◌<◌, ◌≡◌, false, Bool, Option, List, [], ◌∷◌, length, replicate, arith, sym,
  ◌∙◌, ap, ap₂, refl, ne→==,
}
use cpe464_a.Flag
use cpe464_a.Process.{Action, send, sent, arrived, and_then, goes}
use cpe464_a.Pdu.{Received, create_pdu}
use cpe464_a.Window.{put_slot, window_full, window_cur_update}
use cpe464_a.Window.Slots.{slot-some}
use cpe464_a.Server.{State, Server, Answers}
use cpe464_a.Server.Sending.{part, sent_on}
use cpe464_a.Server.Ending.{eof_on, send_data-eof_on}
use cpe464_a.Server.Cutting.{cut}
use cpe464_a.Server.Send.{send_data}
use cpe464_a.Server.Run.{is_done, step, process_client}
use cpe464_a.Delivery.Transfer.{
  next, answer, stream_packet, stream_packet_past, stream_packet_within, play,
}
use cpe464_a.Rcopy.Run as ClientRun
use cpe464_a.Service.{Fills, Open, Sends}
use cpe464_a.Service.Sending.{Open-Reads, Open-sent, Sends-data}
use cpe464_a.Service.Reading.{send_data-data, at_end}

-- No read fails, and the first byte of `buf` stays what it is.
abbrev pub Readable : ℕ → List Answers → Type 0
Readable byte [] = Unit
Readable byte (a ∷ rest) = (a.read_fails ≡ false) × (a.stack_byte ≡ byte) × Readable byte rest

-- Datagrams that arrive one after the other, as the answers to the client.
abbrev pub handed : List ℕ → List (List ℕ) → List ClientRun.Answers
handed stack [] = []
handed stack (datagram ∷ rest) = answer (arrived stack datagram) ∷ handed stack rest

module _ (in_cksum : List ℕ → ℕ) (n : ℕ) (file : List ℕ) (count byte : ℕ) where
  -- The packets from `next` on, EOF after `k` of them.
  abbrev pub burst : (next k : ℕ) → List (List ℕ)
  burst i zero = stream_packet in_cksum (cut n file count) (byte ∷ []) i ∷ []
  burst i (suc k) = stream_packet in_cksum (cut n file count) (byte ∷ []) i ∷ burst (i + 1) k

  pub handed-burst :
      (stack : List ℕ) (k i : ℕ)
      → handed stack (burst i k)
        ≡ play in_cksum (cut n file count) (byte ∷ []) i (replicate (suc k) (next stack))
  unfolding play
  handed-burst stack zero i = refl
  handed-burst stack (suc k) i =
      ap
        (λ rest.
          answer (arrived stack (stream_packet in_cksum (cut n file count) (byte ∷ []) i)) ∷ rest)
        (handed-burst stack k (i + 1))

module _ (in_cksum : List ℕ → ℕ) (calloc : ℕ → ℕ → Bool) (open_file : List ℕ → Option (List ℕ))
    (establishment : Received) {n : ℕ} {file : List ℕ} {count : ℕ} (fl : Fills n file count)
    (byte : ℕ) where
  process_client-send_data :
      (sr : Server) (a : Answers) (rest : List Answers)
      → process_client in_cksum calloc open_file establishment State.send_data sr (a ∷ rest)
        ≡ and_then
            (λ st' sr'. process_client in_cksum calloc open_file establishment st' sr' rest)
            (send_data in_cksum sr a)
  unfolding process_client is_done step
  process_client-send_data sr a rest = refl

  process_client-stop :
      (st : State) (sr : Server)
      → process_client in_cksum calloc open_file establishment st sr [] ≡ goes st sr []
  unfolding process_client
  process_client-stop st sr = refl

  room :
      {sr : Server}
      → Sends in_cksum n file count sr
      → Open in_cksum n file count sr
      → sr.seq_num < sr.window.lower + sr.window.size
      → window_full sr.window ≡ false
  unfolding window_full
  room {sr} sends open_now lt =
      ne→== sr.window.current sr.window.upper
        (omega (arith, open_now.current_is, sends.window_bounded.upper_is))

  pub send_data-burst :
      (k : ℕ) (answers : List Answers) (sr : Server)
      → Sends in_cksum n file count sr
      → Open in_cksum n file count sr
      → sr.seq_num + k ≡ count + 1
      → count + 1 < sr.window.lower + sr.window.size
      → Readable byte answers
      → length answers ≡ suc k
      → (sr' : Server) × (acts : List Action) × (process_client in_cksum calloc open_file
            establishment State.send_data sr answers
          ≡ goes State.wait_on_ack sr' acts)
        × (sent acts ≡ burst in_cksum n file count byte sr.seq_num k)
  unfolding window_cur_update put_slot
  send_data-burst k [] sr sends open_now at fits readable enough = absurd (omega arith)
  send_data-burst zero (a ∷ []) sr sends open_now at fits readable enough =
      let (b, here) = slot-some sends.window_valid sr.seq_num in
      let past : count < sr.seq_num = omega arith in
      (
        eof_on sr b (create_pdu in_cksum sr.seq_num Flag.end_of_file (a.stack_byte ∷ [])),
        send (create_pdu in_cksum sr.seq_num Flag.end_of_file (a.stack_byte ∷ [])) ∷ [],
        rw
            (
              process_client-send_data,
              send_data-eof_on in_cksum (Open-Reads in_cksum fl sends open_now) a
                  (room sends open_now (omega arith)) readable.0 (at_end in_cksum fl sends a past)
                  open_now.unfinished b here,
              process_client-stop,
            )
            refl,
        ap (λ d. d ∷ [])
            (ap (λ k. create_pdu in_cksum sr.seq_num Flag.end_of_file (k ∷ [])) readable.1
              ∙ sym (stream_packet_past in_cksum (cut n file count) (byte ∷ []) sr.seq_num past)),
      )
  send_data-burst (suc k) (a ∷ rest) sr sends open_now at fits readable enough =
      let (b, here) = slot-some sends.window_valid sr.seq_num in
      let free = room sends open_now (omega arith) in
      let (final_len, final_seq, runs, noted) =
        send_data-data in_cksum fl sends a open_now free readable.0 (omega arith) b here in
      let (sr', acts, more, all) =
        send_data-burst k rest
          (sent_on sr b (create_pdu in_cksum sr.seq_num Flag.data_flag (part n file sr.seq_num))
            final_len final_seq)
          (Sends-data in_cksum fl sends open_now free (omega arith) b final_len final_seq noted)
          (Open-sent in_cksum fl sends open_now b
            (create_pdu in_cksum sr.seq_num Flag.data_flag (part n file sr.seq_num)) final_len
            final_seq)
          (omega arith) (omega arith) readable.2 (omega arith) in
      (
        sr',
        send (create_pdu in_cksum sr.seq_num Flag.data_flag (part n file sr.seq_num)) ∷ acts,
        rw (process_client-send_data, runs, more) refl,
        ap₂ (◌∷◌)
            (sym (
              stream_packet_within in_cksum (cut n file count) (byte ∷ []) sr.seq_num
                (omega arith)))
            (all ∙ ap (λ i. burst in_cksum n file count byte i k) (omega (arith, sends.in_word))),
      )
  send_data-burst zero (a ∷ a' ∷ rest) sr sends open_now at fits readable enough =
      absurd (omega arith)
