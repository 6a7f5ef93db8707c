-- ===== src/City/Stock.antt =====
-- Calls of `AddCityExt` (TSP/TspCity.cpp), one after the other.
use tsp_simple.Base.{
  ℕ, zero, suc, ◌+◌, ◌≤◌, ◌≡◌, ap, sym, ◌∙◌, Option, some, List, [], ◌∷◌, length, get_elem?, arith,
}
use tsp_simple.City.{City, Cities, Details, deref, add_city_ext, get_city_by_id, get_count}
use tsp_simple.City.Heap.{deref-append}
use tsp_simple.City.Lookup.{IsValid, add_city_ext_lem}
use tsp_simple.External.{Floats}

module _ {F : Floats} where
  -- The city that is found under an identifier.
  unfoldable pub city_at : Cities F → ℕ → Option (City F)
  city_at s id = deref s.heap (get_city_by_id id s)

  -- The store with a city for each pair of an origin and data.
  unfoldable pub add_each : List (ℕ × Details F) → Cities F → Cities F
  add_each [] s = s
  add_each ((origin, d) ∷ items) s = add_each items (add_city_ext origin d s)

  -- `t` has the cities of `s`, and then one for each of the items.
  pub record HasAdded (items : List (ℕ × Details F)) (s t : Cities F) : Type 0 where
    pub valid : IsValid t
    pub next_id : t.next_id ≡ s.next_id + length items
    pub count : get_count t ≡ get_count s + length items
    pub kept : (j : ℕ) (c : City F) → j ≤ s.next_id → city_at s j ≡ some c → city_at t j ≡ some c
    pub added :
        (i : ℕ) (o : ℕ × Details F)
        → get_elem? items i ≡ some o
        → city_at t (s.next_id + 1 + i)
          ≡ some (record { id = s.next_id + 1 + i; origin_id = o.0; details = o.1 })

  city_at-add_city_ext :
      (origin : ℕ) (d : Details F) (s : Cities F)
      → IsValid s
      → (j : ℕ) (c : City F) → j ≤ s.next_id
      → city_at s j ≡ some c
      → city_at (add_city_ext origin d s) j ≡ some c
  unfolding city_at add_city_ext
  city_at-add_city_ext origin d s v j c le e =
      let (valid, new, others, count) = add_city_ext_lem origin d s v in
      ap (deref _) (others j (ground arith)) ∙ deref-append s.heap (get_city_by_id j s) _ e

  added_from :
      (n : ℕ) (o : ℕ × Details F) (items : List (ℕ × Details F)) (t : Cities F)
      → city_at t n ≡ some (record { id = n; origin_id = o.0; details = o.1 })
      → ((i : ℕ) (p : ℕ × Details F)
          → get_elem? items i ≡ some p
          → city_at t (n + 1 + i)
            ≡ some (record { id = n + 1 + i; origin_id = p.0; details = p.1 }))
      → (i : ℕ) (p : ℕ × Details F) → get_elem? (o ∷ items) i ≡ some p
      → city_at t (n + i) ≡ some (record { id = n + i; origin_id = p.0; details = p.1 })
  added_from n o items t first rest zero p e =
      let same : o ≡ p = cc in let sum : n + 0 ≡ n = omega arith in rw (sum, sym same) first
  added_from n o items t first rest (suc i) p e =
      let sum : n + suc i ≡ n + 1 + i = omega arith in rw sum (rest i p e)

  pub add_each-HasAdded :
      (items : List (ℕ × Details F)) (s : Cities F)
      → IsValid s
      → HasAdded items s (add_each items s)
  unfolding add_each add_city_ext city_at
  add_each-HasAdded [] s v = record {
    valid = v;
    next_id = omega arith;
    count = omega arith;
    kept = λ j c le e. e;
    added = λ i o e. cc;
  }
  add_each-HasAdded ((origin, d) ∷ items) s v =
      let (valid, new, others, count) = add_city_ext_lem origin d s v in
      let rest = add_each-HasAdded items (add_city_ext origin d s) valid in
      let older = city_at-add_city_ext origin d s v in
      record {
        valid = rest.valid;
        next_id = omega (arith, rest.next_id);
        count = omega (arith, rest.count, count);
        kept = λ j c le e. rest.kept j c (omega arith) (older j c le e);
        added =
            added_from (s.next_id + 1) (origin, d) items _
              (rest.kept (s.next_id + 1) _ (omega arith) new) rest.added;
      }
