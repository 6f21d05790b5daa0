-- ===== src/Repair.antt =====
-- A data packet that the network loses once, between rcopy.c and server.c.
pub mod Asked
pub mod Turns
pub mod Late
pub mod Whole
use cpe464_a.Base.{ℕ, ◌+◌, List, [], ◌∷◌}
use cpe464_a.Flag
use cpe464_a.Process.{arrived}
use cpe464_a.Pdu.{create_pdu}
use cpe464_a.Rcopy.Run.{Answers}
use cpe464_a.Delivery.Transfer.{answer}
use cpe464_a.Server.Sending.{part}

module _ (in_cksum : List ℕ → ℕ) (n : ℕ) (file : List ℕ) where
  -- The packets from `i` on as they arrive at the client, one for each content of its buffer.
  abbrev pub late : ℕ → List (List ℕ) → List Answers
  late i [] = []
  late i (stack ∷ stacks) =
      answer (arrived stack (create_pdu in_cksum i Flag.data_flag (part n file i)))
      ∷ late (i + 1) stacks
