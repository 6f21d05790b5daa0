-- ===== src/Server/Cutting.antt =====
-- The two ends together: the packets that server.c cuts a file into are a stream as rcopy.c expects
-- one, and the stream is the file.
use cpe464_a.Base.{
  ℕ, zero, suc, ◌+◌, ◌-◌, ◌*◌, ◌^◌, ◌≤◌, ◌<◌, ◌≡◌, Bool, List, [], ◌∷◌, ◌++◌, length, take, drop,
  arith, refl, ap, sym, ◌∙◌, subst, take_all, length-take, length-drop,
}
use cpe464_a.Process.{Action, exits, written}
use cpe464_a.Rcopy.{State, initial_client}
use cpe464_a.Rcopy.Run.{Answers, process_file}
use cpe464_a.Delivery.{Stream, IsStream, delivered, Promised}
use cpe464_a.Delivery.Opening.{IsConfigured}
use cpe464_a.Delivery.Runs.{AllowedRun, process_file-Promised}
use cpe464_a.Server.Sending.{part, next_part}
use native.Mathlib.Nat.{mul-le-mul_right}

-- The stream of a file in buffers of `n` bytes.
abbrev pub cut : ℕ → List ℕ → ℕ → Stream
cut n file count = record { chunk = part n file; count = count; full = n }

take-add : (a b : ℕ) (xs : List ℕ) → take (a + b) xs ≡ take a xs ++ take b (drop a xs)
take-add zero b xs = let same : 0 + b ≡ b = omega arith in rw same refl
take-add (suc a) zero [] = let same : suc a + 0 ≡ suc a = omega arith in rw same refl
take-add (suc a) (suc b) [] =
    let same : suc a + suc b ≡ suc (a + suc b) = omega arith in rw same refl
take-add (suc a) b (x ∷ xs) =
    let next : suc a + b ≡ suc (a + b) = omega arith in rw next (ap (◌∷◌ x) (take-add a b xs))

-- The number of packets fits the file: all but the last are full, and the last is the end of it.
pub record Cuts (n : ℕ) (file : List ℕ) (count : ℕ) : Type 0 where
  pub size_pos : 0 < n
  pub size_le : n ≤ 1400
  pub in_word : count + 2 < 2 ^ 32
  pub not_more : 0 < count → (count - 1) * n < length file
  pub all : length file ≤ count * n

delivered-take :
    (n : ℕ) (file : List ℕ) (count k : ℕ) → delivered (cut n file count) k ≡ take (k * n) file
unfolding delivered
delivered-take n file count zero = let none : 0 * n ≡ 0 = omega arith in rw none refl
delivered-take n file count (suc k) =
    let before : suc k - 1 ≡ k = omega arith in
    let more : suc k * n ≡ k * n + n = grind arith in
    rw (before, more, delivered-take n file count k) (sym (take-add (k * n) n file))

pub part_whole :
    (n : ℕ) (file : List ℕ) (i m : ℕ)
    → i ≤ m
    → 1 ≤ i
    → m * n ≤ length file
    → length (part n file i) ≡ n
part_whole n file i m le from fits =
    let upto : i * n ≤ m * n = mul-le-mul_right n le in
    omega (
      arith,
      length-take n (drop ((i - 1) * n) file),
      length-drop ((i - 1) * n) file,
      next_part i n from,
    )

-- No packet is empty.
cut_some :
    (n : ℕ) (file : List ℕ) (count : ℕ)
    → Cuts n file count
    → (i : ℕ) → 1 ≤ i
    → i ≤ count
    → 0 < length (part n file i)
cut_some n file count c i from to =
    let upto : (i - 1) * n ≤ (count - 1) * n = mul-le-mul_right n (omega arith) in
    omega (
      arith,
      length-take n (drop ((i - 1) * n) file),
      length-drop ((i - 1) * n) file,
      c.not_more (omega arith),
      c.size_pos,
    )

pub cut-IsStream :
    (n : ℕ) (file : List ℕ) (count : ℕ) → Cuts n file count → IsStream (cut n file count)
cut-IsStream n file count c = record {
  fits = λ i. omega (arith, length-take n (drop ((i - 1) * n) file), c.size_le);
  whole = λ i from lt.
      part_whole n file i (count - 1) (omega arith) from (omega (arith, c.not_more (omega arith)));
  bounded = c.in_word;
  some_bytes = λ i from to. cut_some n file count c i from to;
}

pub delivered-cut :
    (n : ℕ) (file : List ℕ) (count : ℕ)
    → Cuts n file count
    → delivered (cut n file count) count ≡ file
delivered-cut n file count c = delivered-take n file count count ∙ take_all (count * n) file c.all

module _ (in_cksum atoi : List ℕ → ℕ) (calloc : ℕ → ℕ → Bool) (argv : List (List ℕ)) (n : ℕ)
    (file : List ℕ) (count : ℕ) where
  -- Let a file be cut into count packets of n bytes as send_data cuts it, n at most 1400 and count
  -- + 2 below 2^32, and let the client's arguments name n as the buffer size and a positive window
  -- size. If a run of processFile from its start, in which every datagram that arrives is one
  -- whose damage the checksum shows or a packet of that stream that the state admits, exits with
  -- 0, then what it has written is the file.
  pub process_file-copies :
      Cuts n file count
      → IsConfigured atoi argv (cut n file count)
      → (answers : List Answers) (acts : List Action)
      → AllowedRun in_cksum atoi calloc argv
          (cut n file count)
          State.start_state
          initial_client
          answers
      → process_file in_cksum atoi calloc argv State.start_state initial_client answers
        ≡ exits 0 acts
      → written acts ≡ file
  process_file-copies c configured answers acts may ends =
      (subst (Promised (cut n file count) []) ends (
          process_file-Promised in_cksum atoi calloc argv (cut n file count)
            (cut-IsStream n file count c) configured answers may)).1
        refl
      ∙ delivered-cut n file count c
