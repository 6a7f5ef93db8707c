-- ===== src/City.antt =====
-- TSP/TspCity.h and TSP/TspCity.cpp: the cities, and the store `TspCities` that owns them.
-- A pointer to a city is a number: 0 is NULL, and `suc k` is the cell `k` of the heap, which is
-- `none` after `delete`. The hash map is an association list; the order in which an iterator
-- visits it is the parameter `order`.
mod Data
pub mod Heap
pub mod Lookup
pub mod Removal
pub mod Walk
pub mod Origin
pub mod Stock
pub mod Location
pub mod Identity
pub mod Contract
pub mod Refinement
pub use Data.*
use tsp_simple.Base.{
  ℕ, zero, suc, ◌+◌, Bool, true, false, ◌&&◌, Option, none, some, List, [], ◌∷◌, ◌++◌, map, ◌==◌,
  if◌then◌else◌, length, get_elem?, set, ◌>>=◌,
}
use tsp_simple.Base.Int.{ℤ, pos}
use tsp_simple.External.{Floats}

abbrev pub null : ℕ
null = 0

-- The constructor of a static `TspCities`.
abbrev pub no_cities : (F : Floats) → Cities F
no_cities F = record { next_id = 0; heap = []; entries = [] }

abbrev pub Entries : Type 0
Entries = List (ℕ × ℕ)

unfoldable pub find_entry : ℕ → Entries → Option ℕ
find_entry id [] = none
find_entry id ((j, p) ∷ m) = if j == id then some p else find_entry id m

-- `hash_map::insert` leaves a key alone that is there.
unfoldable pub insert_entry : ℕ → ℕ → Entries → Entries
unfolding find_entry
insert_entry id p m = elim (find_entry id m) [ none ↦ m ++ (id, p) ∷ [] | some q ↦ m ]

unfoldable pub erase_entry : ℕ → Entries → Entries
erase_entry id [] = []
erase_entry id ((j, p) ∷ m) = let rest = erase_entry id m in if j == id then rest else (j, p) ∷ rest

-- `_vectorMutualData[ a ][ b ]`, where `index - 1` of 0 lies outside of the table.
abbrev index_of : ℕ → Option ℕ
index_of zero = none
index_of (suc i) = some i

unfoldable pub mutual_at : List (List VectorMutualData) → ℕ → ℕ → Option VectorMutualData
mutual_at table i j =
    index_of i >>= λ a. index_of j >>= λ b. get_elem? table a >>= λ row. get_elem? row b

module _ {F : Floats} where
  -- Reading through a null or a dangling pointer is a fault.
  unfoldable pub deref : List (Option (City F)) → ℕ → Option (City F)
  deref heap zero = none
  deref heap (suc k) = get_elem? heap k >>= λ cell. cell

  -- `delete`: of NULL it does nothing, of a freed or foreign pointer it is a fault.
  unfoldable pub delete : List (Option (City F)) → ℕ → Option (List (Option (City F)))
  unfolding deref
  delete heap zero = some heap
  delete heap (suc k) = deref heap (suc k) >>= λ c. some (set heap k none)

  -- `new TspCity(...)`: the pointer, and the store with the new city and the next identifier.
  unfoldable pub new_city : ℕ → Details F → Cities F → ℕ × Cities F
  new_city origin d s =
      let c : City F = record { id = s.next_id + 1; origin_id = origin; details = d } in
      (suc (length s.heap), record s { next_id = s.next_id + 1; heap = s.heap ++ some c ∷ [] })

  unfoldable pub add_city_ext : ℕ → Details F → Cities F → Cities F
  unfolding new_city insert_entry
  add_city_ext origin d s =
      let (p, s') = new_city origin d s in
      record s' { entries = insert_entry s'.next_id p s'.entries }

  unfoldable pub add_city : Details F → Cities F → Cities F
  unfolding add_city_ext
  add_city d s = add_city_ext 0 d s

  -- `_cities[ id ]` adds the key with a null pointer when it is missing.
  unfoldable pub subscript : ℕ → Cities F → ℕ × Cities F
  unfolding find_entry
  subscript id s = elim (find_entry id s.entries) [
    | some p ↦ (p, s)
    | none ↦ (null, record s { entries = s.entries ++ (id, null) ∷ [] })
  ]

  unfoldable pub remove_city : ℕ → Cities F → Option (Bool × Cities F)
  unfolding subscript erase_entry delete
  remove_city id s =
      let (city, s') = subscript id s in
      if city == null
      then some (false, s')
      else (delete s'.heap city >>= λ heap.
          some (true, record s' { heap = heap; entries = erase_entry id s'.entries }))

  unfoldable pub delete_all : List (Option (City F)) → Entries → Option (List (Option (City F)))
  unfolding delete
  delete_all heap [] = some heap
  delete_all heap ((i, p) ∷ m) = delete heap p >>= λ heap'. delete_all heap' m

  unfoldable pub get_city_by_id : ℕ → Cities F → ℕ
  unfolding find_entry
  get_city_by_id id s = elim (find_entry id s.entries) [ some p ↦ p | none ↦ null ]

  abbrev pub get_count : Cities F → ℕ
  get_count s = length s.entries

  unfoldable pub reset_next_id : Cities F → Cities F
  reset_next_id s = record s { next_id = 0 }

  -- `PointWithinCity`, with `CITY_SIZE / 2`.
  unfoldable pub point_within_city : ℤ → ℤ → City F → Bool
  point_within_city x y c =
      let half = F.of_int (pos 7) in
      F.le (F.sub c.details.x half) (F.of_int x)
      && F.le (F.of_int x) (F.sum c.details.x half)
      && F.le (F.sub c.details.y half) (F.of_int y)
      && F.le (F.of_int y) (F.sum c.details.y half)

  unfoldable pub first_within : ℤ → ℤ → List (Option (City F)) → Entries → Option ℕ
  unfolding deref point_within_city
  first_within x y heap [] = some null
  first_within x y heap ((i, p) ∷ m) =
      let rest = first_within x y heap m in
      deref heap p >>= λ c. if point_within_city x y c then some p else rest

  -- `TspCity::GetDistance`: by the identifiers of the first search if this city has one.
  unfoldable pub city_distance : List (List VectorMutualData) → City F → City F → Option F.Float
  unfolding mutual_at
  city_distance table c d =
      (elim c.origin_id [
        | suc o ↦ mutual_at table c.origin_id d.origin_id
        | zero ↦ mutual_at table c.id d.id
      ])
      >>= λ cell. some (F.to_float (F.atof cell.distance_value))

  -- The same through pointers.
  unfoldable pub pointer_distance :
      List (List VectorMutualData) → List (Option (City F)) → ℕ → ℕ → Option F.Float
  unfolding deref city_distance
  pointer_distance table heap p q =
      deref heap p >>= λ c. deref heap q >>= λ d. city_distance table c d

  -- `TspCities::GetDistance`: -1 if one of the identifiers is missing.
  unfoldable pub get_distance : List (List VectorMutualData) → ℕ → ℕ → Cities F → Option F.Float
  unfolding get_city_by_id pointer_distance
  get_distance table id_a id_b s =
      let a = get_city_by_id id_a s in
      let b = get_city_by_id id_b s in
      if a == null
      then some F.minus_one
      else if b == null
      then some F.minus_one
      else pointer_distance table s.heap a b

  -- What walks the hash map.
  module _ (order : Entries → Entries) where
    unfoldable pub clear : Cities F → Option (Cities F)
    unfolding delete_all
    clear s = delete_all s.heap (order s.entries) >>= λ heap.
        some (record s { heap = heap; entries = [] })

    unfoldable pub get_cities : Cities F → List ℕ
    get_cities s = map (λ (i, p). p) (order s.entries)

    unfoldable pub get_city_by_point : ℤ → ℤ → Cities F → Option ℕ
    unfolding first_within
    get_city_by_point x y s = first_within x y s.heap (order s.entries)
