-- ===== src/City/Origin.antt =====
-- Cities of a first search: those that `AddCity` (TSP/TspCity.cpp) makes, and their distances.
use tsp_simple.Base.{
  ℕ, zero, suc, ◌+◌, ◌≤◌, ◌≡◌, refl, ap, sym, ◌∙◌, true, Option, some, List, [], ◌∷◌, ◌++◌, ◌==◌,
  length, get_elem?, arith, elem, elem-snoc, Bool-cases, inl, inr, ==_iff, get_elem?-of_lt, ◌>>=◌,
}
use tsp_simple.External.{Floats}
use tsp_simple.City.{
  City, Cities, no_cities, Details, VectorMutualData, deref, add_city, add_city_ext, new_city,
  insert_entry, mutual_at, city_distance, pointer_distance,
}
use tsp_simple.City.Heap.{deref-append, deref-append_self}
use tsp_simple.City.Lookup.{IsValid, pointers, fresh_id, find_entry-absent, pointers-snoc}

-- The entry of a square table at two identifiers.
mutual_at_defined :
    (n : ℕ) (table : List (List VectorMutualData))
    → length table ≡ n
    → ((i : ℕ) (row : List VectorMutualData) → get_elem? table i ≡ some row → length row ≡ n)
    → (i j : ℕ) → 1 ≤ i
    → i ≤ n
    → 1 ≤ j
    → j ≤ n
    → (m : VectorMutualData) × (mutual_at table i j ≡ some m)
unfolding mutual_at
mutual_at_defined n table height width zero j a b e f = absurd (omega arith)
mutual_at_defined n table height width (suc i) zero a b e f = absurd (omega arith)
mutual_at_defined n table height width (suc i) (suc j) a b e f =
    let (row, at) = get_elem?-of_lt table i (omega arith) in
    let (m, there) = get_elem?-of_lt row j (omega (arith, width i row at)) in (m, rw at there)

module _ {F : Floats} where
  city_distance_defined :
      (table : List (List VectorMutualData)) (c d : City F) {m : VectorMutualData}
      → c.origin_id ≡ 0
      → mutual_at table c.id d.id ≡ some m
      → (f : F.Float) × (city_distance table c d ≡ some f)
  unfolding city_distance
  city_distance_defined table c d {m} origin e =
      let c' : City F = record { id = c.id; origin_id = 0; details = c.details } in
      let same : c ≡ c' =
        ap (λ o. record { id = c.id; origin_id = o; details = c.details }) origin in
      let f = F.to_float (F.atof m.distance_value) in
      let there : city_distance table c' d ≡ some f = rw e in
      (f, ap (λ x. city_distance table x d) same ∙ there)

  -- No city of the store comes from an earlier search, and the identifiers count from 1.
  pub IsOriginal : Cities F → Type 0
  IsOriginal s =
      (p : ℕ)
      → elem p (pointers s.entries) ≡ true
      → (c : City F) × (deref s.heap p ≡ some c)
        × (c.origin_id ≡ 0)
        × (1 ≤ c.id)
        × (c.id ≤ s.next_id)

  pub add_city-IsOriginal :
      (d : Details F) (s : Cities F) → IsValid s → IsOriginal s → IsOriginal (add_city d s)
  unfolding IsOriginal add_city add_city_ext new_city insert_entry
  add_city-IsOriginal d s v old =
      let id = s.next_id + 1 in
      let new = suc (length s.heap) in
      let c : City F = record { id = id; origin_id = 0; details = d } in
      let absent = fresh_id s.heap s.next_id id s.entries v.backed (omega arith) in
      rw (find_entry-absent id s.entries absent) (λ p h.
        let h' : elem p (pointers s.entries ++ new ∷ []) ≡ true =
          ap (elem p) (sym (pointers-snoc s.entries id new)) ∙ h in
        elim (Bool-cases (new == p)) [
          | inl same ↦
              let is : p ≡ new = sym ((==_iff new p).0 same) in
              (c, rw is (deref-append_self s.heap c), refl, omega arith, omega arith)
          | inr other ↦
              let (e, at, origin, low, high) =
                old p (ground (arith, elem-snoc p new (pointers s.entries))) in
              (e, deref-append s.heap p _ at, origin, low, omega arith)
        ])

  -- In a square table every two such cities have a distance.
  pub distance_known :
      (n : ℕ) (table : List (List VectorMutualData)) (s : Cities F)
      → length table ≡ n
      → ((i : ℕ) (row : List VectorMutualData) → get_elem? table i ≡ some row → length row ≡ n)
      → s.next_id ≤ n
      → IsOriginal s
      → (p q : ℕ) → elem p (pointers s.entries) ≡ true
      → elem q (pointers s.entries) ≡ true
      → (f : F.Float) × (pointer_distance table s.heap p q ≡ some f)
  unfolding IsOriginal pointer_distance
  distance_known n table s height width small original p q h k =
      let (c, at, origin, low, high) = original p h in
      let (d, at', origin', low', high') = original q k in
      let (m, e) =
        mutual_at_defined n table height width c.id d.id low (omega arith) low' (omega arith) in
      let (f, there) = city_distance_defined table c d origin e in
      let from_city : Option (City F) → Option F.Float =
        λ o. o >>= λ x. deref s.heap q >>= λ y. city_distance table x y in
      let to_city : Option (City F) → Option F.Float = λ o. o >>= λ y. city_distance table c y in
      (f, ap from_city at ∙ ap to_city at' ∙ there)

pub no_cities-IsValid : (F : Floats) → IsValid (no_cities F)
no_cities-IsValid F = record { backed = tt; distinct_ids = tt; distinct_pointers = tt }

pub no_cities-IsOriginal : (F : Floats) → IsOriginal (no_cities F)
unfolding IsOriginal elem
no_cities-IsOriginal F p h = cc
