-- ===== src/View/Relocation/Depot.antt =====
-- Step 4 behind steps 1 to 3 (TSP/TspView.cpp): the stops of the route are the orders, and the
-- depot, the first order, comes first.
use mathlib.Core.List.{filter_map}
use mathlib.Core.List.Perm
use tsp_simple.Base.{
  ℕ, ◌≡◌, refl, ap, sym, ◌∙◌, true, some, List, ◌∷◌, ◌++◌, map, elem, elem-perm, Perm, inl, inr,
  arith,
}
use tsp_simple.City.{no_cities, City, Cities, ChromosomeCopy, VectorOrderData, get_city_by_id}
use tsp_simple.City.Identity.{city_at-id, city_at-pointers}
use tsp_simple.City.Lookup.{IsValid, pointers}
use tsp_simple.City.Origin.{no_cities-IsValid}
use tsp_simple.City.Stock.{add_each, city_at, add_each-HasAdded}
use tsp_simple.City.Walk.{Allocated, Backed-Allocated}
use tsp_simple.External.{Floats, Mysql, Engine}
use tsp_simple.View.{View, returned}
use tsp_simple.View.Relocation.{copy_of, on_relocation_delivery_data}
use tsp_simple.View.Relocation.Copied.{
  copy_at, copy_at-some, filter_map-cons, turned-perm, on_relocation_delivery_data-IsRelocated,
}
use tsp_simple.View.Relocation.Rotation.{IsDepot}
use tsp_simple.View.Setting.{details_of_order}
use tsp_simple.View.Setting.Stocked.{item_of}
use tsp_simple.View.Setting.Stops.{stop, stops, copies_of, copies_of-add_each, numbered-stops}

module _ {F : Floats} (o : VectorOrderData) (later : List VectorOrderData) where
  abbrev Stocked : Cities F → Type 0
  Stocked s = s ≡ add_each (map item_of (o ∷ later)) (no_cities F)

  Stocked-IsValid : (s : Cities F) → Stocked s → IsValid s
  Stocked-IsValid s e =
      rw e (add_each-HasAdded (map item_of (o ∷ later)) (no_cities F) (no_cities-IsValid F)).valid

  Stocked-copies : (s : Cities F) → Stocked s → copies_of s ≡ stop 1 o ∷ stops 2 later
  unfolding filter_map
  Stocked-copies s e =
      ap copies_of e
      ∙ copies_of-add_each (map item_of (o ∷ later)) (no_cities F) (no_cities-IsValid F)
      ∙ numbered-stops 1 (o ∷ later)

  Stocked-depot :
      (s : Cities F)
      → Stocked s
      → city_at s 1 ≡ some (record { id = 1; origin_id = 0; details = details_of_order o })
  Stocked-depot s e =
      ap (λ t. city_at t 1) e
      ∙ (add_each-HasAdded (map item_of (o ∷ later)) (no_cities F) (no_cities-IsValid F)).added 0
          (item_of o) refl

  -- The route that begins at the depot has the stop of the first order in front.
  route-stops :
      (s : Cities F) (route : List ℕ) (q : ℕ) (tail : List ℕ)
      → Stocked s
      → Perm route (pointers s.entries)
      → route ≡ q ∷ tail
      → IsDepot s.heap q
      → (rest : List (ChromosomeCopy F)) × (filter_map (copy_at s.heap) route ≡ stop 1 o ∷ rest)
        × Perm rest (stops 2 later)
  unfolding elem
  route-stops s route q tail e perm cut (c, at, one) =
      let isin : elem q (pointers s.entries) ≡ true =
        elem-perm q route (pointers s.entries) perm (rw cut (ground arith)) in
      let is = city_at-id s q (Stocked-IsValid s e) isin at one (Stocked-depot s e) in
      let first : copy_at s.heap q ≡ some (stop 1 o) =
        copy_at-some s.heap q at ∙ ap (λ (x : City F). some (copy_of x)) is in
      let whole : filter_map (copy_at s.heap) route ≡ stop 1 o ∷ filter_map (copy_at s.heap) tail =
        ap (filter_map (copy_at s.heap)) cut ∙ filter_map-cons (copy_at s.heap) tail first in
      let all : Perm (filter_map (copy_at s.heap) route) (copies_of s) =
        Perm.filter_map (copy_at s.heap) perm in
      let ends : Perm (stop 1 o ∷ filter_map (copy_at s.heap) tail) (stop 1 o ∷ stops 2 later) =
        rw (whole, Stocked-copies s e) at all in
      (filter_map (copy_at s.heap) tail, whole, Perm.cons_inv ends)

module _ {F : Floats} {D : Mysql} {G : Engine F} where
  -- When the cities are those of the orders, and the best chromosome visits each of them, step 4
  -- returns 0 and appends one stop for each order: the stop of the first order, which is the depot,
  -- and then those of the others in some order. It changes neither the parameters nor the server.
  pub on_relocation_delivery_data-stops :
      (v : View F D G) (o : VectorOrderData) (later : List VectorOrderData)
      → v.cities ≡ add_each (map item_of (o ∷ later)) (no_cities F)
      → Perm v.best_chromosome (pointers v.cities.entries)
      → (w : View F D G) × (rest : List (ChromosomeCopy F)) × (on_relocation_delivery_data v
          ≡ (returned 0, w))
        × (w.best_chromosome_copy ≡ v.best_chromosome_copy ++ stop 1 o ∷ rest)
        × Perm rest (stops 2 later)
        × (w.parameters ≡ v.parameters)
        × (w.server ≡ v.server)
  on_relocation_delivery_data-stops v o later stocked tour =
      let s = v.cities in
      let valid = Stocked-IsValid o later s stocked in
      let all : Allocated s.heap v.best_chromosome = λ p h.
        Backed-Allocated s.heap s.next_id s.entries valid.backed p
          (elem-perm p v.best_chromosome (pointers s.entries) tour h) in
      let (w, run, moved) = on_relocation_delivery_data-IsRelocated v all in
      let (p, t, cut, is) = moved.turned in
      let same : Perm moved.route v.best_chromosome = rw (sym is, sym cut) at (turned-perm p t) in
      elim moved.depot [
        | inl (q, tail, e, depot) ↦
            let (rest, copied, perm) =
              route-stops o later s moved.route q tail stocked (Perm.trans same tour) e depot in
            (
              w,
              rest,
              run,
              ap (λ (x : View F D G). x.best_chromosome_copy) moved.after
                  ∙ ap (λ l. v.best_chromosome_copy ++ l) copied,
              perm,
              ap (λ (x : View F D G). x.parameters) moved.after,
              ap (λ (x : View F D G). x.server) moved.after,
            )
        | inr none_at ↦
            let (isin, at) = city_at-pointers s 1 (Stocked-depot o later s stocked) in
            absurd (
              none_at (get_city_by_id 1 s)
                (elem-perm _ (pointers s.entries) v.best_chromosome (Perm.symm tour) isin)
                (_, at, refl))
      ]
