-- ===== src/View/Setting/Stocked.antt =====
-- What `OnSetDeliveryData` (TSP/TspView.cpp) puts into the store of cities.
use tsp_simple.Base.{
  ℕ, zero, suc, ◌+◌, ◌≤◌, ◌≡◌, refl, ap, ◌∙◌, some, List, [], ◌∷◌, length, map, length-map,
  get_elem?, arith,
}
use tsp_simple.City.{City, Cities, Details, add_city, get_count, VectorOrderData}
use tsp_simple.City.Origin.{IsOriginal, add_city-IsOriginal}
use tsp_simple.City.Stock.{city_at, add_each, add_each-HasAdded}
use tsp_simple.City.Lookup.{IsValid, add_city_ext_lem}
use tsp_simple.External.{Floats, Mysql, Engine}
use tsp_simple.View.{View, Exit, done, Outcome, returned, outcome}
use tsp_simple.View.Load.{count_up}
use tsp_simple.View.Setting.{details_of_order, set_city, on_set_delivery_data}

module _ {F : Floats} where
  -- What `AddCity` is given for an order.
  abbrev pub item_of : VectorOrderData → ℕ × Details F
  item_of o = (0, details_of_order o)

  -- `t` has the cities of `s`, and then one for each of the orders.
  pub record IsStocked (os : List VectorOrderData) (s t : Cities F) : Type 0 where
    pub valid : IsValid t
    pub next_id : t.next_id ≡ s.next_id + length os
    pub count : get_count t ≡ get_count s + length os
    pub original : IsOriginal s → IsOriginal t
    pub kept : (j : ℕ) (c : City F) → j ≤ s.next_id → city_at s j ≡ some c → city_at t j ≡ some c
    pub added :
        (i : ℕ) (o : VectorOrderData)
        → get_elem? os i ≡ some o
        → city_at t (s.next_id + 1 + i)
          ≡ some (record { id = s.next_id + 1 + i; origin_id = 0; details = details_of_order o })

  get_elem?-items :
      (os : List VectorOrderData) (i : ℕ) {o : VectorOrderData}
      → get_elem? os i ≡ some o
      → get_elem? (map item_of os) i ≡ some (item_of o)
  get_elem?-items [] i e = cc
  get_elem?-items (p ∷ os) zero {o} e = let same : p ≡ o = cc in rw same refl
  get_elem?-items (p ∷ os) (suc i) e = get_elem?-items os i e

  add_each-IsOriginal :
      (os : List VectorOrderData) (s : Cities F)
      → IsValid s
      → IsOriginal s
      → IsOriginal (add_each (map item_of os) s)
  unfolding add_each add_city
  add_each-IsOriginal [] s v h = h
  add_each-IsOriginal (o ∷ os) s v h =
      let (valid, new, others, count) = add_city_ext_lem 0 (details_of_order o) s v in
      add_each-IsOriginal os _ valid (add_city-IsOriginal (details_of_order o) s v h)

  add_each-IsStocked :
      (os : List VectorOrderData) (s : Cities F)
      → IsValid s
      → IsStocked os s (add_each (map item_of os) s)
  add_each-IsStocked os s v =
      let more = add_each-HasAdded (map item_of os) s v in
      record {
        valid = more.valid;
        next_id = omega (arith, more.next_id, length-map os item_of);
        count = omega (arith, more.count, length-map os item_of);
        original = add_each-IsOriginal os s v;
        kept = more.kept;
        added = λ i o e. more.added i (item_of o) (get_elem?-items os i e);
      }

module _ {F : Floats} {D : Mysql} {G : Engine F} where
  -- The loop over the orders: what becomes of the best chromosome depends on whether there are any.
  set_cities :
      (os : List VectorOrderData) (from : ℕ) (v : View F D G)
      → ((i : ℕ) → get_elem? v.vector_order_data (from + i) ≡ get_elem? os i)
      → (b : List ℕ) × (count_up (length os) from set_city v ≡ (
        done tt,
        record v { cities = add_each (map item_of os) v.cities; best_chromosome = b },
      ))
  unfolding count_up set_city add_each add_city
  set_cities [] from v here = (v.best_chromosome, refl)
  set_cities (o ∷ os) from v here =
      let at : get_elem? v.vector_order_data from ≡ some o =
        ap (get_elem? v.vector_order_data) (omega arith) ∙ here 0 in
      let v' = record v { cities = add_city (details_of_order o) v.cities; best_chromosome = [] } in
      let (b, run) =
        set_cities os (from + 1) v'
          (λ i. ap (get_elem? v.vector_order_data) (omega arith) ∙ here (suc i)) in
      (b, rw at run)

  -- The second step when the count of the orders is right.
  pub set_delivery_data_run :
      (v : View F D G)
      → v.count_order_data ≡ length v.vector_order_data
      → (b : List ℕ) × (on_set_delivery_data v ≡ (
        returned 0,
        record v {
          cities = add_each (map item_of v.vector_order_data) v.cities;
          best_chromosome = b;
        },
      ))
  unfolding on_set_delivery_data
  set_delivery_data_run v n =
      let os = v.vector_order_data in
      let answer : Exit (Unit {0}) × View F D G → Outcome × View F D G = λ (r, u). (outcome r, u) in
      let (b, run) = set_cities os 0 v (λ i. ap (get_elem? os) (omega arith)) in
      (b, ap (λ m. answer (count_up m 0 set_city v)) n ∙ ap answer run)

  -- The second step returns 0 and adds a city for each order, under the next identifiers in the
  -- order of the orders, with the order's data. Cities that were there are found as before, the
  -- table of distances is kept, and the store stays valid; when no city there came from an earlier search, none does now. The count of the
  -- orders must be right.
  pub on_set_delivery_data-IsStocked :
      (v : View F D G)
      → IsValid v.cities
      → v.count_order_data ≡ length v.vector_order_data
      → (w : View F D G) × (on_set_delivery_data v ≡ (returned 0, w))
        × IsStocked v.vector_order_data v.cities w.cities
        × (w.vector_mutual_data ≡ v.vector_mutual_data)
  on_set_delivery_data-IsStocked v ok n =
      let (b, run) = set_delivery_data_run v n in
      (_, run, add_each-IsStocked v.vector_order_data v.cities ok, refl)
