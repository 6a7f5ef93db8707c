-- ===== src/View/Research/Dangling.antt =====
-- `OnResearchDeliveryData` and `routeBestSearch` (TSP/TspView.cpp) use a pointer to a city that
-- `Clear` has deleted.
use tsp_simple.Base.{
  ℕ, zero, suc, ◌+◌, Bool-cases, lt→ltb, arith, ◌≡◌, refl, ap, true, ◌&&◌, ltb, some, [], get_elem?,
  if◌then◌else◌, elem, Option-cases, inl, inr,
}
use tsp_simple.Base.Int.{pos_part}
use tsp_simple.City.{Entries}
use tsp_simple.City.Lookup.{IsValid, pointers}
use tsp_simple.City.Walk.{IsOrder, clear_lem}
use tsp_simple.External.{Floats, Mysql, Engine}
use tsp_simple.View.{View, Exit, fault, returned, crashed, init, Action, ◌>>◌, follow}
use tsp_simple.View.Search.{is_criteria_stopped, smart_init}
use tsp_simple.View.Research.{
  reset_cities, restock, route_best_search, begin_vehicle, research_vehicle, research_vehicles,
  on_research_delivery_data, with_outcome, after_vehicle,
}

-- The best chromosome begins with a city of the store, if there is one in it.
abbrev pub BeginsInStore : {F : Floats} {D : Mysql} {G : Engine F} → View F D G → Type 0
BeginsInStore v =
    (p : ℕ) → get_elem? v.best_chromosome 0 ≡ some p → elem p (pointers v.cities.entries) ≡ true

module _ {F : Floats} {D : Mysql} {G : Engine F} (order : Entries → Entries)
    (arranged : IsOrder order) where
  reset_cities-fault :
      (v : View F D G) → IsValid v.cities → BeginsInStore v → (reset_cities order v).0 ≡ fault
  unfolding reset_cities
  reset_cities-fault v valid stored =
      let (emptied, cleared, _, empty, freed, last) = clear_lem order arranged v.cities valid in
      elim (Option-cases (get_elem? v.best_chromosome 0)) [
        | inl out ↦ rw (cleared, out) refl
        | inr (p, at) ↦ rw (cleared, at, freed p (stored p at)) refl
      ]

  fault-then :
      (m k : Action (View F D G) (Unit {0})) (v : View F D G)
      → (m v).0 ≡ fault
      → ((m >> k) v).0 ≡ fault
  fault-then m k v e = ap (λ (r : Exit (Unit {0})). (follow r (λ a. k) (m v).1).0) e

  route_best_search-fault :
      (start stop : ℕ) (v : View F D G)
      → IsValid v.cities
      → BeginsInStore v
      → (route_best_search order start stop v).0 ≡ fault
  unfolding route_best_search init
  route_best_search-fault start stop v valid stored =
      fault-then (reset_cities order) (restock order start stop) (init v)
        (reset_cities-fault (init v) valid stored)

  begin_vehicle-fault :
      (j : ℕ) (v : View F D G)
      → IsValid v.cities
      → BeginsInStore v
      → (begin_vehicle order j v).0 ≡ fault
  unfolding begin_vehicle
  begin_vehicle-fault j v valid stored = elim (Option-cases (get_elem? v.vehicle_flag j)) [
    | inl out ↦ rw out refl
    | inr (stop, at) ↦ rw at (route_best_search-fault v.search_index_start stop v valid stored)
  ]

  research_vehicle-fault :
      (fuel j : ℕ) (v : View F D G)
      → (begin_vehicle order j v).0 ≡ fault
      → research_vehicle order fuel j v ≡ some (fault, (begin_vehicle order j v).1)
  unfolding research_vehicle
  research_vehicle-fault fuel j v e = rw (e, research_vehicle) refl

  research_vehicles-fault :
      (fuel rounds j : ℕ) (v : View F D G)
      → IsValid v.cities
      → BeginsInStore v
      → (w : View F D G) × (research_vehicles order fuel (suc rounds) j v ≡ some (fault, w))
  unfolding research_vehicles
  research_vehicles-fault fuel rounds j v valid stored =
      let ran = research_vehicle-fault fuel j v (begin_vehicle-fault j v valid stored) in
      (_, ap (after_vehicle order (λ w. research_vehicles order fuel rounds (j + 1) w)) ran)

  -- Step 6 never searches for a vehicle: when it finds the search stopped and there is a vehicle, it has
  -- undefined behaviour, since it calls `ResetNextId` through a pointer to a city that `Clear` has
  -- deleted, or reads an array behind its end before that; otherwise it returns 0 at once. This holds
  -- however long it may wait. The store is assumed to be valid, the best chromosome to begin with a
  -- city of it, if it is not empty, and a walk over the hash map to visit every entry once.
  pub on_research_delivery_data-crashes :
      (fuel : ℕ) (v : View F D G)
      → IsValid v.cities
      → BeginsInStore v
      → (w : View F D G) × (on_research_delivery_data order fuel v
          ≡ some (
            (if is_criteria_stopped
                    (G.get_state (smart_init (record v { generation_limit = 70_000 })).engine)
                  && ltb 0 (pos_part v.parameters.vehicle_number)
                then crashed
                else returned 0),
            w,
          ))
  unfolding on_research_delivery_data smart_init
  on_research_delivery_data-crashes fuel v valid stored =
      let searched = smart_init (record v { generation_limit = 70_000 }) in
      elim (Bool-cases (is_criteria_stopped (G.get_state searched.engine))) [
        | inr running ↦ (searched, rw (running, on_research_delivery_data) refl)
        | inl stopped ↦
            rw (stopped, on_research_delivery_data) (go (pos_part v.parameters.vehicle_number))
      ]
    where
      go :
          (vehicles : ℕ)
          → (w : View F D G) × (with_outcome order (
                research_vehicles order fuel vehicles 0
                  (record (smart_init (record v { generation_limit = 70_000 })) {
                    search_index_start = 1;
                    best_route_each_result = [];
                  }))
              ≡ some ((if ltb 0 vehicles then crashed else returned 0), w))
      go zero = (_, refl)
      go (suc n) =
          let u : View F D G = record (smart_init (record v { generation_limit = 70_000 })) {
            search_index_start = 1;
            best_route_each_result = [];
          } in
          let (w, ran) = research_vehicles-fault fuel n 0 u valid stored in
          let some_left = lt→ltb 0 (suc n) (omega arith) in
          (w, rw some_left (ap (with_outcome order) ran))
