-- ===== src/City/Location.antt =====
-- `TspCities::locationInitialize` and `TspCities::AddLocation` (TSP/TspCity.cpp), which nothing
-- calls: a table of distances between six places.
use tsp_simple.Base.{
  ℕ, zero, suc, ◌+◌, ◌*◌, ◌<◌, ◌≡◌, refl, sym, ◌∙◌, Option, none, some, List, [], ◌∷◌, length, set,
  ltb, if◌then◌else◌, map, get_elem?, arith, ◌>>=◌, bind-some, get_elem?-map,
}
use tsp_simple.Base.Int.{pos}
use tsp_simple.City.{Cities}
use tsp_simple.External.{Floats}

-- `fTmp[ i ][ j ] = x`, where `none` is an access outside of the array.
unfoldable pub put : {A : Type 0} → List (List A) → ℕ → ℕ → A → Option (List (List A))
put t i j x =
    get_elem? t i >>= λ row. if ltb j (length row) then some (set t i (set row j x)) else none

-- The inner loop, for `count` columns from the column `j` on: `fTmp[ i ][ j ] = nValue[ nIndex ]`.
unfoldable pub fill_row :
    {A : Type 0} → ℕ → ℕ → ℕ → ℕ → List A → List (List A) → Option (List (List A))
unfolding put
fill_row zero i j index values t = some t
fill_row (suc count) i j index values t = get_elem? values index >>= λ x.
    put t i j x >>= λ u. fill_row count i (j + 1) (index + 1) values u

-- The outer loop, for `count` rows from the row `i` on; `nIndex` runs on from row to row.
unfoldable pub fill_rows :
    {A : Type 0} → ℕ → ℕ → ℕ → List A → List (List A) → Option (List (List A))
unfolding fill_row
fill_rows zero i index values t = some t
fill_rows (suc count) i index values t =
    fill_row 6 i 0 index values t >>= λ u. fill_rows count (i + 1) (index + 6) values u

-- `nValue`
unfoldable pub location_values : List ℕ
location_values =
    0 ∷ 200 ∷ 200 ∷ 220 ∷ 420 ∷ 450 ∷ 200 ∷ 0 ∷ 220 ∷ 200 ∷ 400 ∷ 420 ∷ 200 ∷ 220 ∷ 0 ∷ 200 ∷ 220
    ∷ 420 ∷ 220 ∷ 200 ∷ 200 ∷ 0 ∷ 200 ∷ 220 ∷ 420 ∷ 400 ∷ 220 ∷ 200 ∷ 0 ∷ 200 ∷ 450 ∷ 420 ∷ 420
    ∷ 220 ∷ 200 ∷ 0 ∷ []

module _ (F : Floats) where
  -- `locationInitialize`, on the table `fTmp`.
  unfoldable pub location_initialize : List (List F.Float) → Option (List (List F.Float))
  unfolding fill_rows location_values
  location_initialize t =
      fill_rows 6 0 0 (map (λ n. F.to_float (F.of_int (pos n))) location_values) t

-- `AddLocation` returns at once.
unfoldable pub add_location : {F : Floats} → Cities F → Cities F
add_location s = s

-- `fTmp`, an array of six rows of six numbers.
abbrev pub Six : Type 0 → Type 0
Six A = A × A × A × A × A × A

abbrev pub listed : {A : Type 0} → Six A → List A
listed (a, b, c, d, e, f) = a ∷ b ∷ c ∷ d ∷ e ∷ f ∷ []

abbrev pub square : {A : Type 0} → Six (Six A) → List (List A)
square (a, b, c, d, e, f) = listed a ∷ listed b ∷ listed c ∷ listed d ∷ listed e ∷ listed f ∷ []

-- The distances between the six places, as `locationInitialize` lays them out.
abbrev distances : List (List ℕ)
distances =
    (0 ∷ 200 ∷ 200 ∷ 220 ∷ 420 ∷ 450 ∷ [])
    ∷ (200 ∷ 0 ∷ 220 ∷ 200 ∷ 400 ∷ 420 ∷ [])
    ∷ (200 ∷ 220 ∷ 0 ∷ 200 ∷ 220 ∷ 420 ∷ [])
    ∷ (220 ∷ 200 ∷ 200 ∷ 0 ∷ 200 ∷ 220 ∷ [])
    ∷ (420 ∷ 400 ∷ 220 ∷ 200 ∷ 0 ∷ 200 ∷ [])
    ∷ (450 ∷ 420 ∷ 420 ∷ 220 ∷ 200 ∷ 0 ∷ [])
    ∷ []

fill_all :
    (F : Floats) (t : Six (Six F.Float))
    → location_initialize F (square t)
      ≡ some (map (λ row. map (λ n. F.to_float (F.of_int (pos n))) row) distances)
unfolding location_initialize fill_rows fill_row put location_values
fill_all F (a, b, c, d, e, f) = refl

below-six : (P : ℕ → Type 0) → P 0 → P 1 → P 2 → P 3 → P 4 → P 5 → (i : ℕ) → i < 6 → P i
below-six P a b c d e f zero h = a
below-six P a b c d e f (suc zero) h = b
below-six P a b c d e f (suc (suc zero)) h = c
below-six P a b c d e f (suc (suc (suc zero))) h = d
below-six P a b c d e f (suc (suc (suc (suc zero)))) h = e
below-six P a b c d e f (suc (suc (suc (suc (suc zero))))) h = f
below-six P a b c d e f (suc (suc (suc (suc (suc (suc i)))))) h = absurd (omega arith)

-- `fTmp[ i ][ j ]`
abbrev pub cell : {A : Type 0} → List (List A) → ℕ → ℕ → Option A
cell t i j = get_elem? t i >>= λ row. get_elem? row j

-- The value for the row `i` and the column `j`, which is that for the row `j` and the column `i`.
abbrev Symmetric : ℕ → ℕ → Type 0
Symmetric i j =
    (n : ℕ) × (get_elem? location_values (i * 6 + j) ≡ some n)
    × (cell distances i j ≡ some n)
    × (cell distances j i ≡ some n)

all-Symmetric : (i : ℕ) → i < 6 → (j : ℕ) → j < 6 → Symmetric i j
unfolding location_values
all-Symmetric =
    below-six (λ i. (j : ℕ) → j < 6 → Symmetric i j)
      (below-six (λ j. Symmetric 0 j) (_, refl, refl, refl) (_, refl, refl, refl)
        (_, refl, refl, refl) (_, refl, refl, refl) (_, refl, refl, refl) (_, refl, refl, refl))
      (below-six (λ j. Symmetric 1 j) (_, refl, refl, refl) (_, refl, refl, refl)
        (_, refl, refl, refl) (_, refl, refl, refl) (_, refl, refl, refl) (_, refl, refl, refl))
      (below-six (λ j. Symmetric 2 j) (_, refl, refl, refl) (_, refl, refl, refl)
        (_, refl, refl, refl) (_, refl, refl, refl) (_, refl, refl, refl) (_, refl, refl, refl))
      (below-six (λ j. Symmetric 3 j) (_, refl, refl, refl) (_, refl, refl, refl)
        (_, refl, refl, refl) (_, refl, refl, refl) (_, refl, refl, refl) (_, refl, refl, refl))
      (below-six (λ j. Symmetric 4 j) (_, refl, refl, refl) (_, refl, refl, refl)
        (_, refl, refl, refl) (_, refl, refl, refl) (_, refl, refl, refl) (_, refl, refl, refl))
      (below-six (λ j. Symmetric 5 j) (_, refl, refl, refl) (_, refl, refl, refl)
        (_, refl, refl, refl) (_, refl, refl, refl) (_, refl, refl, refl) (_, refl, refl, refl))

cell-map :
    {A B : Type 0} (f : A → B) (t : List (List A)) (i j : ℕ) {a : A}
    → cell t i j ≡ some a
    → cell (map (λ row. map f row) t) i j ≡ some (f a)
cell-map f t i j e =
    let (row, at, here) = bind-some (get_elem? t i) (λ row. get_elem? row j) e in
    rw (get_elem?-map (map f) t i at) (get_elem?-map f row j here)

-- `locationInitialize` fills the table of six rows of six numbers, whatever is in it before, without
-- an access outside of it or of the array of values: the element in row `i` and column `j` is the
-- value with the index `6 * i + j`, as a float. The table is symmetric, with zeros from corner to corner.
pub location_initialize_lem :
    (F : Floats) (t : Six (Six F.Float))
    → (u : List (List F.Float)) × (location_initialize F (square t) ≡ some u)
      × (length u ≡ 6)
      × ((i j : ℕ)
          → i < 6
          → j < 6
          → (n : ℕ) × (get_elem? location_values (i * 6 + j) ≡ some n)
            × (cell u i j ≡ some (F.to_float (F.of_int (pos n))))
            × (cell u j i ≡ cell u i j))
      × ((i : ℕ) → i < 6 → cell u i i ≡ some (F.to_float (F.of_int (pos 0))))
location_initialize_lem F t =
    let f : ℕ → F.Float = λ n. F.to_float (F.of_int (pos n)) in
    (
      map (λ row. map f row) distances,
      fill_all F t,
      refl,
      λ i j in_i in_j.
          let (n, at, here, there) = all-Symmetric i in_i j in_j in
          let here' = cell-map f distances i j here in
          (n, at, here', cell-map f distances j i there ∙ sym here'),
      below-six (λ i. cell (map (λ row. map f row) distances) i i ≡ some (f 0)) refl refl refl refl
          refl refl,
    )
