-- ===== src/Rcopy/Main.antt =====
-- `main` of rcopy.c.
use cpe464_a.Base.{ℕ, Bool, List, [], if◌then◌else◌}
use cpe464_a.Process.{goes, exits, fault, out_of_fuel}
use cpe464_a.Rcopy.{State, Result, initial_client}
use cpe464_a.Rcopy.Setup.{check_args}
use cpe464_a.Rcopy.Run.{Answers, process_file}

-- Once `processFile` returns, `main` does with 0.
unfoldable pub returned : Result → Result
returned (goes State.done c acts) = exits 0 acts
returned (goes st c acts) = goes st c acts
returned (exits code acts) = exits code acts
returned fault = fault
returned out_of_fuel = out_of_fuel

-- Without `sendErr_init` of libcpe464.
unfoldable pub main :
    (in_cksum atoi : List ℕ → ℕ) (calloc : ℕ → ℕ → Bool) (argv : List (List ℕ))
    → List Answers
    → Result
main in_cksum atoi calloc argv answers =
    if check_args argv
    then returned (process_file in_cksum atoi calloc argv State.start_state initial_client answers)
    else exits 1 []
