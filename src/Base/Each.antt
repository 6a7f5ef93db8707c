-- ===== src/Base/Each.antt =====
-- A property of each element of a list.
use Prim.Native.Nat.{ℕ, zero, suc}
use mathlib.Core.Path.{◌≡◌, refl, subst}
use mathlib.Core.Logic.{∥∥₁_elim}
use mathlib.Core.Option.{some}
use mathlib.Core.List.{List, [], ◌∷◌, ◌++◌, Perm, Permᴰ}
use tsp_simple.Base.Lists.{get_elem?, set, take, replicate}

abbrev pub All : {A : Type 0} → (A → Type 0) → List A → Type 0
All P [] = Unit {0}
All P (x ∷ xs) = P x × All P xs

module _ {A : Type 0} (P : A → Type 0) where
  pub All-get_elem? : (xs : List A) (i : ℕ) {x : A} → All P xs → get_elem? xs i ≡ some x → P x
  All-get_elem? [] i h e = cc
  All-get_elem? (y ∷ xs) zero {x} (p, h) e = let same : y ≡ x = cc in subst P same p
  All-get_elem? (y ∷ xs) (suc i) (p, h) e = All-get_elem? xs i h e

  pub All-append : (xs ys : List A) → All P xs → All P ys → All P (xs ++ ys)
  All-append [] ys h k = k
  All-append (x ∷ xs) ys (p, h) k = (p, All-append xs ys h k)

  pub All-replicate : (n : ℕ) (x : A) → P x → All P (replicate n x)
  All-replicate zero x p = tt
  All-replicate (suc n) x p = (p, All-replicate n x p)

  pub All-take : (n : ℕ) (xs : List A) → All P xs → All P (take n xs)
  All-take zero xs h = tt
  All-take (suc n) [] h = tt
  All-take (suc n) (x ∷ xs) (p, h) = (p, All-take n xs h)

  pub All-set : (xs : List A) (i : ℕ) (v : A) → All P xs → P v → All P (set xs i v)
  All-set [] i v h p = tt
  All-set (x ∷ xs) zero v (q, h) p = (p, h)
  All-set (x ∷ xs) (suc i) v (q, h) p = (q, All-set xs i v h p)

module _ {A : Type 0} (P : A → Type 0) (prop : (x : A) → IsProp (P x)) where
  All-prop : (xs : List A) → IsProp (All P xs)
  All-prop [] a b = refl
  All-prop (x ∷ xs) (p, h) (q, k) = λ i. (prop x p q i, All-prop xs h k i)

  All-permᴰ : {xs ys : List A} → Permᴰ xs ys → All P xs → All P ys
  All-permᴰ Permᴰ.nil h = h
  All-permᴰ (Permᴰ.cons e p) (q, h) = (subst P e q, All-permᴰ p h)
  All-permᴰ (Permᴰ.swap e f) (p, (q, h)) = (subst P f q, (subst P e p, h))
  All-permᴰ (Permᴰ.trans p q) h = All-permᴰ q (All-permᴰ p h)

  -- A permutation has the property with the list, when its proofs are equal.
  pub All-perm : (xs ys : List A) → Perm xs ys → All P xs → All P ys
  All-perm xs ys p h = ∥∥₁_elim p (All-prop ys) (λ d. All-permᴰ d h)
