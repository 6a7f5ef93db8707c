-- ===== src/View/Monad.antt =====
-- The body of a step of `TSPView`: it reads and changes a state, and ends in one of three ways.
use tsp_simple.Base.{ℕ, Bool, true, false, Option, none, some, List, [], ◌∷◌}

-- `leave code` is an early `return code;`. `fault` is undefined behaviour: a null pointer, an
-- access out of bounds, a buffer that is too short.
pub data Exit (A : Type 0) : Type 0 where
  done : A → Exit A
  leave : ℕ → Exit A
  fault : Exit A

abbrev pub Action : Type 0 → Type 0 → Type 0
Action S A = S → Exit A × S

abbrev pub follow : {S A B : Type 0} → Exit A → (A → Action S B) → Action S B
follow (done a) f = f a
follow (leave code) f = λ s. (leave code, s)
follow fault f = λ s. (fault, s)

infixl 5 ◌>>=◌ ◌>>◌
abbrev pub ◌>>=◌ : {S A B : Type 0} → Action S A → (A → Action S B) → Action S B
m >>= f = λ s. let (r, s') = m s in follow r f s'

abbrev pub ◌>>◌ : {S A B : Type 0} → Action S A → Action S B → Action S B
m >> k = m >>= λ _. k

abbrev pub pure : {S A : Type 0} → A → Action S A
pure a s = (done a, s)

abbrev pub return_code : {S A : Type 0} → ℕ → Action S A
return_code code s = (leave code, s)

abbrev pub get : {S : Type 0} → Action S S
get s = (done s, s)

abbrev pub modify : {S : Type 0} → (S → S) → Action S (Unit {0})
modify f s = (done tt, f s)

-- A value that may be undefined.
abbrev pub need : {S A : Type 0} → Option A → Action S A
need none s = (fault, s)
need (some a) s = (done a, s)

abbrev pub unless : {S : Type 0} → Bool → ℕ → Action S (Unit {0})
unless true code = pure tt
unless false code = return_code code

-- The value that the function returns: 0 at its end.
pub data Outcome : Type 0 where
  returned : ℕ → Outcome
  crashed : Outcome

abbrev pub outcome : {A : Type 0} → Exit A → Outcome
outcome (done a) = returned 0
outcome (leave code) = returned code
outcome fault = crashed

module _ {S A : Type 0} where
  -- `for (...)` over a list.
  abbrev pub for_each : List A → (A → Action S (Unit {0})) → Action S (Unit {0})
  for_each [] body = pure tt
  for_each (x ∷ xs) body = body x >>= λ _. for_each xs body
