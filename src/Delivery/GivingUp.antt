-- ===== src/Delivery/GivingUp.antt =====
-- The client that hears nothing for ten seconds.
use cpe464_a.Base.{
  ℕ, zero, suc, ◌+◌, ◌-◌, ◌≤◌, ◌<◌, ◌≡◌, ◌≢◌, refl, sym, ◌∙◌, ap, List, [], ◌∷◌, length,
  length-append, arith, Bool,
}
use cpe464_a.Process.{goes, exits, timed_out}
use cpe464_a.Rcopy.{State, Client}
use cpe464_a.Rcopy.Receive.{recv_data}
use cpe464_a.Rcopy.Run.{Answers, step, is_done, process_file}
use cpe464_a.Rcopy.Main.{returned}
use cpe464_a.Delivery.{Stream, delivered, Receives}
use cpe464_a.Delivery.Transfer.{answer}

module _ (s : Stream) where
  length-delivered :
      (k : ℕ) → length (delivered s (suc k)) ≡ length (delivered s k) + length (s.chunk (suc k))
  unfolding delivered
  length-delivered k = length-append (delivered s k) (s.chunk (suc k))

  length-delivered-le : (k j : ℕ) → length (delivered s k) ≤ length (delivered s (k + j))
  length-delivered-le k zero = let same : k + 0 ≡ k = omega arith in rw same (omega arith)
  length-delivered-le k (suc j) =
      let next : k + suc j ≡ suc (k + j) = omega arith in
      rw next (omega (arith, length-delivered (k + j), length-delivered-le k j))

  delivered-part :
      (k count : ℕ) → k < count → 0 < length (s.chunk count) → delivered s k ≢ delivered s count
  delivered-part k zero lt some_bytes same = absurd (omega arith)
  delivered-part k (suc count) lt some_bytes same =
      let upto : k + (count - k) ≡ count = omega arith in
      let before : length (delivered s k) ≤ length (delivered s count) =
        rw⁻¹ upto (length-delivered-le k (count - k)) in
      omega (arith, length-delivered count, ap length same)

module _ (in_cksum atoi : List ℕ → ℕ) (calloc : ℕ → ℕ → Bool) (argv : List (List ℕ)) where
  process_file-stops :
      (c : Client) (rest : List Answers)
      → process_file in_cksum atoi calloc argv State.done c rest ≡ goes State.done c []
  unfolding process_file is_done
  process_file-stops c [] = refl
  process_file-stops c (a ∷ rest) = refl

  -- If the client is in RECV_DATA with its invariant, expects a packet up to the last one, and the
  -- last packet is not empty, and its poll times out, then processFile ends and main exits with 0,
  -- while what is on the disk is not the whole file.
  pub recv_data-gives_up :
      (s : Stream) (c : Client) (out : List ℕ)
      → Receives s c out
      → c.expected ≤ s.count
      → 0 < length (s.chunk s.count)
      → (rest : List Answers)
      → (returned
            (process_file in_cksum atoi calloc argv State.recv_data c (answer timed_out ∷ rest))
          ≡ exits 0 [])
        × (out ≢ delivered s s.count)
  unfolding process_file is_done step recv_data returned
  recv_data-gives_up s c out rec missing some_bytes rest = (
    rw (process_file-stops c rest) refl,
    λ whole.
        delivered-part s (c.expected - 1) s.count (omega (arith, rec.known.started)) some_bytes
          (sym rec.known.disk ∙ whole),
  )
