-- ===== src/Process.antt =====
-- What a process asks of its surroundings and what they answer; shared by rcopy.c and server.c.
use cpe464_a.Base.{ℕ, List, [], ◌∷◌, ◌++◌, ◌≡◌, refl, ap, sym, ◌∙◌, append_assoc}

-- The effects that the other side or the disk can see: a datagram to the peer, bytes to the output
-- file. `stray` is no effect but a mark: an operation that C leaves undefined wherever this line runs,
-- a byte written just past an array or an array of less than one element, after which the model goes
-- on as the compiled program is taken to.
pub data Action : Type 0 where
  send : List ℕ → Action
  write : List ℕ → Action
  stray : Action

-- What a `pollCall` whose answer alone matters comes to.
pub data Poll : Type 0 where
  ready silent failed : Poll

-- What a `pollCall` and the `recv_buf` behind it meet. `arrived stack datagram` is a datagram
-- received into a buffer that held `stack`.
pub data Event : Type 0 where
  timed_out poll_failed recv_failed : Event
  arrived : List ℕ → List ℕ → Event

-- How the handler of a state ends: with the next state, the updated variables and the effects; by
-- `exit(code)`, the code as the shell sees it; by undefined behaviour of C; or, in the model alone,
-- by a loop that used up its fuel.
pub data Outcome (S M : Type 0) : Type 0 where
  goes : S → M → List Action → Outcome S M
  exits : ℕ → List Action → Outcome S M
  fault : Outcome S M
  out_of_fuel : Outcome S M

-- The bytes that a list of effects appends to the output file.
abbrev pub written : List Action → List ℕ
written [] = []
written (send bs ∷ acts) = written acts
written (write bs ∷ acts) = bs ++ written acts
written (stray ∷ acts) = written acts

-- The datagrams that a list of effects sends.
abbrev pub sent : List Action → List (List ℕ)
sent [] = []
sent (send bs ∷ acts) = bs ∷ sent acts
sent (write bs ∷ acts) = sent acts
sent (stray ∷ acts) = sent acts

pub written-append : (xs ys : List Action) → written (xs ++ ys) ≡ written xs ++ written ys
written-append [] ys = refl
written-append (send bs ∷ xs) ys = written-append xs ys
written-append (stray ∷ xs) ys = written-append xs ys
written-append (write bs ∷ xs) ys =
    ap (◌++◌ bs) (written-append xs ys) ∙ sym (append_assoc bs (written xs) (written ys))

module _ {S M : Type 0} where
  -- Effects in front of those of an outcome.
  abbrev pub after : List Action → Outcome S M → Outcome S M
  after acts (goes st m more) = goes st m (acts ++ more)
  after acts (exits code more) = exits code (acts ++ more)
  after acts fault = fault
  after acts out_of_fuel = out_of_fuel

  pub after-nil : (o : Outcome S M) → after [] o ≡ o
  after-nil (goes st m acts) = refl
  after-nil (exits code acts) = refl
  after-nil fault = refl
  after-nil out_of_fuel = refl

  -- The next round, unless this one ended the program.
  abbrev pub and_then : (S → M → Outcome S M) → Outcome S M → Outcome S M
  and_then next (goes st m acts) = after acts (next st m)
  and_then next (exits code acts) = exits code acts
  and_then next fault = fault
  and_then next out_of_fuel = out_of_fuel
