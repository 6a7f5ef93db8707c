-- ===== src/Base/Members.antt =====
-- Membership of a number in a list as a Boolean, and how it meets the library's `Mem` and `Perm`.
use Prim.Native.Nat.{ℕ, zero, suc, ◌≤◌, ◌<◌}
use mathlib.Core.Path.{◌≡◌, refl, ap, ◌∙◌}
use mathlib.Core.Logic.{◌≢◌, inl, inr}
use mathlib.Core.Logic.Or
use mathlib.Core.Logic.{∥∥₁_elim}
use mathlib.Core.Bool.{Bool, true, false, ◌||◌}
use mathlib.Core.Option.{some}
use mathlib.Core.List.Perm
use mathlib.Core.List.{
  List, [], ◌∷◌, ◌++◌, Mem, Nodup, Perm, perm_ext_iff_of_Nodup, mem-cons, not-mem-nil, Nodup-cons,
  Nodup-nil, Permᴰ, mem-cons_of_mem,
}
use native.Mathlib.Omega.{arith}
use native.Mathlib.Nat.{ℕ_set}
use tsp_simple.Base.Tests.{◌==◌, if◌then◌else◌, Bool-cases}
use tsp_simple.Base.Lists.{length, get_elem?}

unfoldable pub elem : ℕ → List ℕ → Bool
elem c [] = false
elem c (x ∷ xs) = x == c || elem c xs

pub elem-append : (c : ℕ) (xs ys : List ℕ) → elem c (xs ++ ys) ≡ (elem c xs || elem c ys)
unfolding elem
elem-append c [] ys = refl
elem-append c (x ∷ xs) ys = ground (arith, elem-append c xs ys)

pub elem-snoc : (c x : ℕ) (xs : List ℕ) → elem c (xs ++ x ∷ []) ≡ (elem c xs || x == c)
unfolding elem
elem-snoc c x xs = ground (arith, elem-append c xs (x ∷ []))

pub elem-of_get : (xs : List ℕ) (i : ℕ) {c : ℕ} → get_elem? xs i ≡ some c → elem c xs ≡ true
unfolding elem
elem-of_get [] i e = cc
elem-of_get (x ∷ xs) zero e = ground arith
elem-of_get (x ∷ xs) (suc i) e = ground (arith, elem-of_get xs i e)

elem-cons_self : (x : ℕ) (xs : List ℕ) → elem x (x ∷ xs) ≡ true
unfolding elem
elem-cons_self x xs = ground arith

elem-cons_of_elem : (c x : ℕ) (xs : List ℕ) → elem c xs ≡ true → elem c (x ∷ xs) ≡ true
unfolding elem
elem-cons_of_elem c x xs h = ground arith

-- Every element stands once.
abbrev pub IsDistinct : List ℕ → Type 0
IsDistinct [] = Unit {0}
IsDistinct (x ∷ xs) = (elem x xs ≡ false) × IsDistinct xs

Bool-set : IsSet Bool
Bool-set = hlevel

pub elem-Mem : (c : ℕ) (xs : List ℕ) → elem c xs ≡ true → Mem c xs
unfolding elem
elem-Mem c [] h = cc
elem-Mem c (x ∷ xs) h = elim (Bool-cases (x == c)) [
  | inl e ↦ mem-cons.1 (Or.inl (ground arith))
  | inr n ↦ mem-cons_of_mem x (elem-Mem c xs (ground arith))
]

pub Mem-elem : (c : ℕ) (xs : List ℕ) → Mem c xs → elem c xs ≡ true
unfolding elem
Mem-elem c [] m = absurd (not-mem-nil m)
Mem-elem c (x ∷ xs) m =
    Or.elim (Bool-set _ _) (mem-cons.0 m) (λ e. ground arith) (λ r. ground (arith, Mem-elem c xs r))

pub IsDistinct-Nodup : (xs : List ℕ) → IsDistinct xs → Nodup xs
IsDistinct-Nodup [] h = Nodup-nil
IsDistinct-Nodup (x ∷ xs) h =
    Nodup-cons.1 ((λ m. cc (Mem-elem x xs m, h.0)), IsDistinct-Nodup xs h.1)

pub Nodup-IsDistinct : (xs : List ℕ) → Nodup xs → IsDistinct xs
Nodup-IsDistinct [] h = tt
Nodup-IsDistinct (x ∷ xs) h = (
  elim (Bool-cases (elem x xs)) [
    | inl e ↦ absurd ((Nodup-cons.0 h).0 (elem-Mem x xs e))
    | inr e ↦ e
  ],
  Nodup-IsDistinct xs (Nodup-cons.0 h).1,
)

pub elem-perm : (c : ℕ) (xs ys : List ℕ) → Perm xs ys → elem c xs ≡ true → elem c ys ≡ true
elem-perm c xs ys p h = Mem-elem c ys (Perm.subset p c (elem-Mem c xs h))

-- Lists without repetition that hold the same elements are permutations of each other.
pub perm_of_elem :
    (xs ys : List ℕ)
    → IsDistinct xs
    → IsDistinct ys
    → ((c : ℕ) → elem c xs ≡ true → elem c ys ≡ true)
    → ((c : ℕ) → elem c ys ≡ true → elem c xs ≡ true)
    → Perm xs ys
perm_of_elem xs ys dx dy f g =
    (perm_ext_iff_of_Nodup (IsDistinct-Nodup xs dx) (IsDistinct-Nodup ys dy)).1 λ c.
      ((λ m. elem-Mem c ys (f c (Mem-elem c xs m))), (λ m. elem-Mem c xs (g c (Mem-elem c ys m))))

-- The list without the element `x`.
remove : ℕ → List ℕ → List ℕ
remove x [] = []
remove x (y ∷ ys) = let rest = remove x ys in if y == x then rest else y ∷ rest

elem-remove : (c x : ℕ) (ys : List ℕ) → elem c ys ≡ true → c ≢ x → elem c (remove x ys) ≡ true
unfolding elem remove
elem-remove c x [] h n = cc
elem-remove c x (y ∷ ys) h n = ground (arith, elem-remove c x ys)

length-remove-le : (x : ℕ) (ys : List ℕ) → length (remove x ys) ≤ length ys
unfolding remove
length-remove-le x [] = omega arith
length-remove-le x (y ∷ ys) = ground (arith, length-remove-le x ys)

length-remove-lt : (x : ℕ) (ys : List ℕ) → elem x ys ≡ true → length (remove x ys) < length ys
unfolding elem remove
length-remove-lt x [] h = cc
length-remove-lt x (y ∷ ys) h = ground (arith, length-remove-lt x ys, length-remove-le x ys)

-- Elements without repetition among those of `ys` are no more than `ys` has.
pub length-le_of_elem :
    (xs ys : List ℕ)
    → IsDistinct xs
    → ((c : ℕ) → elem c xs ≡ true → elem c ys ≡ true)
    → length xs ≤ length ys
length-le_of_elem [] ys d f = omega arith
length-le_of_elem (x ∷ xs) ys d f = omega (
  arith,
  length-remove-lt x ys (f x (elem-cons_self x xs)),
  length-le_of_elem xs (remove x ys) d.1
      λ c h. elem-remove c x ys (f c (elem-cons_of_elem c x xs h)) (λ e. ne c h e),
)
  where
    ne : (c : ℕ) → elem c xs ≡ true → c ≡ x → ⊥
    ne c h e = cc (ap (λ t. elem t xs) e, d.0)

pub IsDistinct-snoc :
    (xs : List ℕ) (x : ℕ) → IsDistinct xs → elem x xs ≡ false → IsDistinct (xs ++ x ∷ [])
unfolding elem
IsDistinct-snoc [] x d h = (refl, tt)
IsDistinct-snoc (y ∷ ys) x d h =
    (ground (arith, elem-snoc y x ys), IsDistinct-snoc ys x d.1 (ground arith))

length-permᴰ {ℓ} : {A : Type ℓ} {xs ys : List A} → Permᴰ xs ys → length xs ≡ length ys
length-permᴰ Permᴰ.nil = refl
length-permᴰ (Permᴰ.cons e p) = ap suc (length-permᴰ p)
length-permᴰ (Permᴰ.swap e f) = refl
length-permᴰ (Permᴰ.trans p q) = length-permᴰ p ∙ length-permᴰ q

-- Permutations are equally long.
pub length-perm {ℓ} : {A : Type ℓ} (xs ys : List A) → Perm xs ys → length xs ≡ length ys
length-perm xs ys p = ∥∥₁_elim p (ℕ_set _ _) length-permᴰ
