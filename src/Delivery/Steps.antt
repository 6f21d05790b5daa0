-- ===== src/Delivery/Steps.antt =====
-- One round of `processFile` from RECV_DATA on, whatever the surroundings answer within the rules.
use cpe464_a.Base.{ℕ, List, append-nil, arith, Bool}
use cpe464_a.Process.{Event, timed_out, poll_failed, recv_failed, arrived}
use cpe464_a.Pdu.{recv_buf}
use cpe464_a.Rcopy.{State, Client}
use cpe464_a.Rcopy.Receive.{recv_data, buffer}
use cpe464_a.Rcopy.Run.{Answers, step}
use cpe464_a.Delivery.{
  Stream, IsStream, Receives, Buffers, Arrives, ArrivesInOrder, InState, Promised,
}
use cpe464_a.Delivery.Receiving.{Known-IsPrefix, recv_data_packet-Promised}
use cpe464_a.Delivery.Buffering.{buffer_packet-Promised}
use cpe464_a.Rcopy.Setup.{arg}
use cpe464_a.Delivery.Opening.{
  IsConfigured, start_state-Promised, filename-Promised, file_ok-Promised,
}
use cpe464_a.Delivery.Flushing.{flush-Promised}

module _ (s : Stream) (in_cksum : List ℕ → ℕ) where
  -- What may happen in a state: any failure or timeout, and the packets that may arrive there.
  abbrev pub Allowed : State → Client → Event → Type 0
  Allowed State.recv_data c (arrived stack datagram) =
      Arrives s in_cksum c (recv_buf stack datagram)
  Allowed State.buffer c (arrived stack datagram) =
      ArrivesInOrder s in_cksum c (recv_buf stack datagram)
  Allowed State.done c event = ⊥
  Allowed _ c event = Unit

module _ (in_cksum : List ℕ → ℕ) {s : Stream} (ok : IsStream s) {c : Client} {out : List ℕ} where
  recv_data-Promised :
      (event : Event)
      → Receives s c out
      → Allowed s in_cksum State.recv_data c event
      → Promised s out (recv_data in_cksum c event)
  unfolding recv_data
  recv_data-Promised timed_out rec may = rw (append-nil out) (Known-IsPrefix rec.known)
  recv_data-Promised poll_failed rec may =
      rw (append-nil out) (Known-IsPrefix rec.known, λ z. absurd (omega arith))
  recv_data-Promised recv_failed rec may =
      rw (append-nil out) (Known-IsPrefix rec.known, λ z. absurd (omega arith))
  recv_data-Promised (arrived stack datagram) rec may =
      recv_data_packet-Promised in_cksum ok (recv_buf stack datagram) rec may

  buffer-Promised :
      (event : Event)
      → Buffers s c out
      → Allowed s in_cksum State.buffer c event
      → Promised s out (buffer in_cksum c event)
  unfolding buffer
  buffer-Promised timed_out buf may = rw (append-nil out) (Known-IsPrefix buf.flushes.known)
  buffer-Promised poll_failed buf may =
      rw (append-nil out) (Known-IsPrefix buf.flushes.known, λ z. absurd (omega arith))
  buffer-Promised recv_failed buf may =
      rw (append-nil out) (Known-IsPrefix buf.flushes.known, λ z. absurd (omega arith))
  buffer-Promised (arrived stack datagram) buf may =
      buffer_packet-Promised in_cksum ok (recv_buf stack datagram) buf may

module _ (in_cksum atoi : List ℕ → ℕ) (calloc : ℕ → ℕ → Bool) (argv : List (List ℕ)) {s : Stream}
    (ok : IsStream s) (configured : IsConfigured atoi argv s) where
  -- From a state with its invariant, one round of the loop with an allowed event has no fault and
  -- ends its loops, leaves the next state with its invariant, and, if it exits, has
  -- left a prefix of the file on the disk, and the whole file if it exits with 0.
  pub step-Promised :
      (st : State) (c : Client) (out : List ℕ) (a : Answers)
      → InState s st c out
      → Allowed s in_cksum st c a.event
      → Promised s out (step in_cksum atoi calloc argv st c a)
  unfolding step
  step-Promised State.start_state c out a inv may =
      start_state-Promised in_cksum atoi argv configured c out a.socket inv
  step-Promised State.filename c out a inv may =
      filename-Promised in_cksum c out a.select a.event inv
  step-Promised State.file_ok c out a inv may =
      file_ok-Promised calloc (atoi (arg argv 3)) configured.window_size_pos c out a.file_opened inv
  step-Promised State.recv_data c out a inv may = recv_data-Promised in_cksum ok a.event inv may
  step-Promised State.buffer c out a inv may = buffer-Promised in_cksum ok a.event inv may
  step-Promised State.flush c out a inv may = flush-Promised in_cksum ok c inv
  step-Promised State.done c out a inv may = absurd may
  step-Promised State.wait_file_ack c out a inv may = absurd inv
