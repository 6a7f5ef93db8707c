-- ===== src/Chromosome/Marks.antt =====
-- The two arrays of taken positions of `TspCrossover`, seen as marks of the cities in the child,
-- and `GetCityPosition`.
use tsp_simple.Base.{
  ℕ, zero, suc, ◌≤◌, ◌<◌, ◌≡◌, refl, ap, Bool, true, false, some, List, [], ◌∷◌, ◌++◌, map, ◌==◌,
  length, get_elem?, set, replicate, arith, elem, elem-snoc, elem-of_get, IsDistinct, inl, inr,
  Bool-cases, get_elem?-of_lt, get_elem?-lt, length-map,
}
use tsp_simple.Chromosome.{position_below, get_city_position, store}

-- Which positions of `xs` hold a city of the child.
abbrev pub marks : List ℕ → List ℕ → List Bool
marks child xs = map (λ c. elem c child) xs

pub marks-nil : (xs : List ℕ) → marks [] xs ≡ replicate (length xs) false
unfolding elem
marks-nil [] = refl
marks-nil (x ∷ xs) = ap (λ l. false ∷ l) (marks-nil xs)

marks-snoc_of_absent :
    (child xs : List ℕ) (c : ℕ) → elem c xs ≡ false → marks (child ++ c ∷ []) xs ≡ marks child xs
unfolding elem
marks-snoc_of_absent child [] c h = refl
marks-snoc_of_absent child (x ∷ xs) c h =
    ground (arith, elem-snoc x c child, marks-snoc_of_absent child xs c)

-- Marking the position of a city is the same as adding the city to the child.
pub set-marks :
    (child xs : List ℕ) (i c : ℕ)
    → IsDistinct xs
    → get_elem? xs i ≡ some c
    → set (marks child xs) i true ≡ marks (child ++ c ∷ []) xs
set-marks child [] i c d e = cc
set-marks child (x ∷ xs) zero c d e =
    ground (arith, elem-snoc x c child, marks-snoc_of_absent child xs c)
set-marks child (x ∷ xs) (suc i) c d e =
    ground (arith, set-marks child xs i c d.1 e, elem-snoc x c child, elem-of_get xs i e)

pub store-marks :
    (child xs : List ℕ) (i c : ℕ)
    → IsDistinct xs
    → get_elem? xs i ≡ some c
    → store (marks child xs) i true ≡ some (marks (child ++ c ∷ []) xs)
unfolding store
store-marks child xs i c d e =
    ground
      (arith, length-map xs (λ c. elem c child), get_elem?-lt xs i e, set-marks child xs i c d e)

position_below_sound :
    (n c : ℕ) (xs : List ℕ) (i : ℕ) → position_below n c xs ≡ some i → get_elem? xs i ≡ some c
unfolding position_below
position_below_sound zero c xs i e = cc
position_below_sound (suc n) c xs i e = ground (arith, position_below_sound n c xs i)

position_below-found :
    (n c : ℕ) (xs : List ℕ) (j : ℕ)
    → n ≤ length xs
    → j < n
    → get_elem? xs j ≡ some c
    → (i : ℕ) × (position_below n c xs ≡ some i)
unfolding position_below
position_below-found zero c xs j le h e = elim h [ ]
position_below-found (suc n) c xs j le h e =
    let (v, at) = get_elem?-of_lt xs n (omega arith) in
    elim (Bool-cases (v == c)) [
      | inl same ↦ (n, rw (at, position_below) (rw same))
      | inr other ↦
          let (i, found) = position_below-found n c xs j (omega arith) (ground arith) e in
          (i, rw (at, position_below) (rw other found))
    ]

pub index_of_elem : (c : ℕ) (xs : List ℕ) → elem c xs ≡ true → (j : ℕ) × (get_elem? xs j ≡ some c)
unfolding elem
index_of_elem c [] h = cc
index_of_elem c (x ∷ xs) h = elim (Bool-cases (x == c)) [
  | inl same ↦ (0, ground arith)
  | inr other ↦ let (j, e) = index_of_elem c xs (ground arith) in (suc j, e)
]

-- `GetCityPosition` finds every city of the chromosome, at a position that holds it.
pub get_city_position_lem :
    (c : ℕ) (xs : List ℕ)
    → elem c xs ≡ true
    → (i : ℕ) × (get_city_position c xs ≡ some i) × (get_elem? xs i ≡ some c)
unfolding get_city_position
get_city_position_lem c xs h =
    let (j, e) = index_of_elem c xs h in
    let (i, found) =
      position_below-found (length xs) c xs j (omega arith) (get_elem?-lt xs j e) e in
    (i, found, position_below_sound (length xs) c xs i found)
