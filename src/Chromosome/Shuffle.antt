-- ===== src/Chromosome/Shuffle.antt =====
-- `MakeNewFromPrototype` shuffles: its swaps stay inside of the array and keep the cities.
use mathlib.Core.List.Perm
use mathlib.Core.List.{perm-cons}
use tsp_simple.Base.{
  ℕ, zero, suc, ◌-◌, ◌≤◌, ◌<◌, ◌≡◌, refl, some, List, [], ◌∷◌, length, get_elem?, set, arith,
  get_elem?-of_lt, Perm, length-set,
}
use tsp_simple.External.{Random, IsInRange}
use tsp_simple.Chromosome.{store, swap_values, shuffle_below, make_new_from_prototype}

set-perm : (xs : List ℕ) (i t v : ℕ) → get_elem? xs i ≡ some t → Perm (t ∷ set xs i v) (v ∷ xs)
set-perm [] i t v e = cc
set-perm (x ∷ xs) zero t v e = let same : t ≡ x = cc in rw same (Perm.swap v x xs)
set-perm (x ∷ xs) (suc i) t v e =
    Perm.trans (Perm.swap x t (set xs i v))
      (Perm.trans (Perm.cons x (set-perm xs i t v e)) (Perm.swap v x xs))

get_elem?-set_other :
    (xs : List ℕ) (i p v : ℕ) → get_elem? xs p ≡ some v → get_elem? (set xs i v) p ≡ some v
get_elem?-set_other [] i p v e = cc
get_elem?-set_other (x ∷ xs) zero zero v e = refl
get_elem?-set_other (x ∷ xs) zero (suc p) v e = e
get_elem?-set_other (x ∷ xs) (suc i) zero v e = e
get_elem?-set_other (x ∷ xs) (suc i) (suc p) v e = get_elem?-set_other xs i p v e

store_lem : (xs : List ℕ) (i v : ℕ) → i < length xs → store xs i v ≡ some (set xs i v)
unfolding store
store_lem xs i v h = ground arith

-- Two cities change places.
swap_values-perm :
    (R : Random) (xs : List ℕ) (i p : ℕ)
    → i < length xs
    → p < length xs
    → (ys : List ℕ) × (swap_values R xs i p ≡ some ys) × Perm ys xs × (length ys ≡ length xs)
unfolding swap_values
swap_values-perm R xs i p hi hp =
    let (t, at) = get_elem?-of_lt xs i hi in
    let (v, av) = get_elem?-of_lt xs p hp in
    let first = store_lem xs i v hi in
    let second = store_lem (set xs i v) p t (omega (arith, length-set xs i v)) in
    (
      set (set xs i v) p t,
      rw (at, av, first, second),
      (perm-cons v).0 (
          Perm.trans (set-perm (set xs i v) p v t (get_elem?-set_other xs i p v av))
            (set-perm xs i t v at)),
      omega (arith, length-set (set xs i v) p t, length-set xs i v),
    )

shuffle_below-perm :
    (R : Random) (i : ℕ) (xs : List ℕ) (g : R.Rng)
    → IsInRange R
    → i ≤ length xs
    → (ys : List ℕ) × (g' : R.Rng) × (shuffle_below R i xs g ≡ some (ys, g')) × Perm ys xs
unfolding shuffle_below
shuffle_below-perm R zero xs g range le = (xs, g, refl, Perm.refl xs)
shuffle_below-perm R (suc i) xs g range le =
    let (p, g') = R.generate (length xs - 1) g in
    let (ys, e, kept, same) =
      swap_values-perm R xs i p (omega arith) (omega (arith, range (length xs - 1) g)) in
    let (zs, g'', e', kept') = shuffle_below-perm R i ys g' range (omega arith) in
    (zs, g'', rw e e', Perm.trans kept' kept)

-- A new chromosome is made without leaving the array, and holds the cities of the store, each as
-- often as the store gives it, for every store and every random numbers within their range.
pub make_new_from_prototype-perm :
    (R : Random) (cities : List ℕ) (g : R.Rng)
    → IsInRange R
    → (ys : List ℕ) × (g' : R.Rng) × (make_new_from_prototype R cities g ≡ some (ys, g'))
      × Perm ys cities
unfolding make_new_from_prototype
make_new_from_prototype-perm R cities g range =
    shuffle_below-perm R (length cities) cities g range (omega arith)
