-- ===== src/Session/Packets.antt =====
-- What is on its way: packets of the stream to the client, and the client's answers to the server.
use cpe464_a.Base.{
  ℕ, zero, suc, ◌+◌, ◌<◌, ◌≡◌, ◌^◌, List, [], ◌∷◌, ◌++◌, length, arith, ap, refl, htonl_bytes, ◌∙◌,
  subst,
}
use mathlib.Core.List.{cons≢nil, head-eq_of_cons-eq, tail-eq_of_cons-eq}
use cpe464_a.Flag
use cpe464_a.Pdu.{create_pdu}
use cpe464_a.Server.Cutting.{cut}
use cpe464_a.Delivery.Transfer.{stream_packet}

module _ (in_cksum : List ℕ → ℕ) (n : ℕ) (file : List ℕ) (count byte : ℕ) where
  -- The packets of the stream from `i` on, EOF after the last one.
  abbrev pub stretch : (i k : ℕ) → List (List ℕ)
  stretch i zero = []
  stretch i (suc k) = stream_packet in_cksum (cut n file count) (byte ∷ []) i ∷ stretch (i + 1) k

  pub stretch-append :
      (i k at more : ℕ) → i + k ≡ at → stretch i k ++ stretch at more ≡ stretch i (k + more)
  stretch-append i zero at more is =
      let same : at ≡ i = omega arith in
      let sum : more ≡ 0 + more = omega arith in ap (λ j. stretch j more) same ∙ ap (stretch i) sum
  stretch-append i (suc k) at more is =
      let sum : suc (k + more) ≡ suc k + more = omega arith in
      ap (λ rest. stream_packet in_cksum (cut n file count) (byte ∷ []) i ∷ rest)
        (stretch-append (i + 1) k at more (omega arith))
      ∙ ap (stretch i) sum

  pub length-stretch : (i k : ℕ) → length (stretch i k) ≡ k
  length-stretch i zero = refl
  length-stretch i (suc k) = omega (arith, length-stretch (i + 1) k)

  -- What the first datagram on the way is.
  pub stretch-head :
      (i k : ℕ) (datagram : List ℕ) (rest : List (List ℕ))
      → datagram ∷ rest ≡ stretch i k
      → (j : ℕ) × (k ≡ j + 1)
        × (datagram ≡ stream_packet in_cksum (cut n file count) (byte ∷ []) i)
        × (rest ≡ stretch (i + 1) j)
  stretch-head i zero datagram rest is = absurd (cons≢nil is)
  stretch-head i (suc k) datagram rest is =
      (k, omega arith, head-eq_of_cons-eq is, tail-eq_of_cons-eq is)

module _ (in_cksum : List ℕ → ℕ) where
  -- An answer of the client that carries a number.
  pub record IsAnswer (flag number : ℕ) (datagram : List ℕ) : Type 0 where
    pub seq_num : ℕ
    pub in_word : seq_num < 2 ^ 32
    pub bytes : datagram ≡ create_pdu in_cksum seq_num flag (htonl_bytes number)

  -- RRs from `i` on.
  abbrev pub AreRrs : ℕ → List (List ℕ) → Type 0
  AreRrs i [] = Unit
  AreRrs i (datagram ∷ rest) = IsAnswer Flag.rr i datagram × AreRrs (i + 1) rest

  pub AreRrs-next :
      (i : ℕ) (rrs : List (List ℕ)) (at : ℕ) (datagram : List ℕ)
      → AreRrs i rrs
      → i + length rrs ≡ at
      → IsAnswer Flag.rr at datagram
      → AreRrs i (rrs ++ (datagram ∷ []))
  AreRrs-next i [] at datagram are is new =
      let same : at ≡ i = omega arith in (subst (λ j. IsAnswer Flag.rr j datagram) same new, tt)
  AreRrs-next i (d ∷ rrs) at datagram are is new =
      (are.0, AreRrs-next (i + 1) rrs at datagram are.1 (omega arith) new)
