-- ===== src/View/Research.antt =====
-- `TSPView::OnResearchDeliveryData`, step 6, and `routeBestSearch` (TSP/TspView.cpp): a search for
-- each vehicle among its own stops. `t_function` has this step commented out.
pub mod Restocked
pub mod Dangling
use tsp_simple.Base.{
  ℕ, zero, suc, ◌+◌, ◌-◌, Option, none, some, List, [], ◌∷◌, ◌++◌, if◌then◌else◌, get_elem?, true,
  false,
}
use tsp_simple.Base.Int.{ℤ, pos, negsuc, pos_part}
use tsp_simple.Text.{bytes}
use tsp_simple.City.{
  City, Cities, Entries, Details, ChromosomeCopy, RouteEachResult, deref, clear, reset_next_id,
  add_city_ext,
}
use tsp_simple.External.{Floats, Mysql, Engine}
use tsp_simple.View.{
  View, Action, Exit, done, leave, fault, ◌>>=◌, ◌>>◌, pure, get, modify, need, Outcome, returned,
  outcome, init,
}
use tsp_simple.View.Load.{assign, count_up}
use tsp_simple.View.Search.{
  is_criteria_stopped, smart_init, start_search, sleep, wait_until_stopped,
}

module _ {F : Floats} where
  -- The depot, which each of these searches is given under a name of its own.
  abbrev pub depot_details : Details F → Details F
  depot_details d = record d {
    guest_id = bytes "admin";
    is_shop = bytes "0";
    juso_sub_id = bytes "1";
  }

  -- What is kept of the cities of the best chromosome, in order.
  unfoldable pub results : List (Option (City F)) → List ℕ → Option (List (RouteEachResult F))
  unfolding deref
  results heap [] = some []
  results heap (p ∷ rest) = elim (deref heap p) [
    | none ↦ none
    | some c ↦ elim (results heap rest) [
      | none ↦ none
      | some rs ↦ some (record { id = c.id; details = c.details } ∷ rs)
    ]
  ]

-- What walks the hash map.
module _ {F : Floats} {D : Mysql} {G : Engine F} (order : Entries → Entries) where
  -- The store is emptied and the identifiers begin again. `ResetNextId` is called through a pointer,
  -- which has to lead to a city at that time.
  unfoldable pub reset_cities : Action (View F D G) (Unit {0})
  unfolding clear reset_next_id deref
  reset_cities = do
    v ← get
    emptied ← need (clear order v.cities)
    c ← need (get_elem? v.best_chromosome 0)
    need (deref emptied.heap c)
    modify (λ w. record w { cities = reset_next_id emptied })

  -- The depot comes first.
  unfoldable pub add_depot : Action (View F D G) (Unit {0})
  unfolding add_city_ext
  add_depot = do
    v ← get
    depot ← need (get_elem? v.best_chromosome_copy 0)
    modify (λ w. record w {
      cities = add_city_ext depot.id (depot_details depot.details) w.cities;
      best_chromosome = [];
    })

  unfoldable pub add_stop : ℕ → Action (View F D G) (Unit {0})
  unfolding add_city_ext
  add_stop i = do
    v ← get
    stop ← need (get_elem? v.best_chromosome_copy i)
    modify (λ w. record w { cities = add_city_ext stop.id stop.details w.cities })

  -- What `routeBestSearch` does behind `ResetNextId`.
  unfoldable pub restock : ℕ → ℕ → Action (View F D G) (Unit {0})
  unfolding add_depot add_stop count_up start_search
  restock start stop = do
    add_depot
    count_up (stop + 1 - start) start add_stop
    modify (λ w. start_search 20_000 (record w { best_chromosome = [] }))

  -- `routeBestSearch`
  unfoldable pub route_best_search : ℕ → ℕ → Action (View F D G) (Unit {0})
  unfolding init reset_cities restock
  route_best_search start stop = do modify init; reset_cities; restock start stop

  -- The start of the search for vehicle `j`.
  unfoldable pub begin_vehicle : ℕ → Action (View F D G) (Unit {0})
  unfolding route_best_search
  begin_vehicle j = do
    v ← get
    stop ← need (get_elem? v.vehicle_flag j)
    route_best_search v.search_index_start stop

  -- Its result, the `sleep(1)` behind it, and the first stop of the next vehicle.
  unfoldable pub end_vehicle : ℕ → Action (View F D G) (Unit {0})
  unfolding results sleep
  end_vehicle j = do
    v ← get
    let pushed = v.best_route_each_result ++ [] ∷ []
    found ← need (results v.cities.heap v.best_chromosome)
    routes ← need (assign pushed j found)
    modify (λ w. sleep (record w { best_route_each_result = routes }))
    stop ← need (get_elem? v.vehicle_flag j)
    modify (λ w. record w { search_index_start = stop + 1 })

  -- The search for vehicle `j`, if it ends within `fuel` looks at the state.
  unfoldable pub research_vehicle : ℕ → ℕ → View F D G → Option (Exit (Unit {0}) × View F D G)
  unfolding begin_vehicle end_vehicle wait_until_stopped
  research_vehicle fuel j v =
      let (r, w) = begin_vehicle j v in
      elim r [
        | fault ↦ some (fault, w)
        | leave code ↦ some (leave code, w)
        | done tt ↦ elim (wait_until_stopped fuel w) [
          | none ↦ none
          | some u ↦ some (end_vehicle j u)
        ]
      ]

  abbrev after_vehicle :
      (View F D G → Option (Exit (Unit {0}) × View F D G))
      → Option (Exit (Unit {0}) × View F D G)
      → Option (Exit (Unit {0}) × View F D G)
  after_vehicle next none = none
  after_vehicle next (some (fault, w)) = some (fault, w)
  after_vehicle next (some (leave code, w)) = some (leave code, w)
  after_vehicle next (some (done tt, w)) = next w

  -- The loop over the vehicles, from the vehicle `j` on.
  unfoldable pub research_vehicles : ℕ → ℕ → ℕ → View F D G → Option (Exit (Unit {0}) × View F D G)
  unfolding research_vehicle
  research_vehicles fuel zero j v = some (done tt, v)
  research_vehicles fuel (suc rounds) j v =
      after_vehicle (λ w. research_vehicles fuel rounds (j + 1) w) (research_vehicle fuel j v)

  abbrev pub with_outcome : Option (Exit (Unit {0}) × View F D G) → Option (Outcome × View F D G)
  with_outcome none = none
  with_outcome (some (r, w)) = some (outcome r, w)

  -- Step 6. It does nothing unless the search of step 3 has come to its end.
  unfoldable pub on_research_delivery_data : ℕ → View F D G → Option (Outcome × View F D G)
  unfolding smart_init research_vehicles
  on_research_delivery_data fuel v =
      let w = smart_init (record v { generation_limit = 70_000 }) in
      elim (is_criteria_stopped (G.get_state w.engine)) [
        | false ↦ some (returned 0, w)
        | true ↦ with_outcome (
            research_vehicles fuel (pos_part w.parameters.vehicle_number) 0
              (record w { search_index_start = 1; best_route_each_result = [] }))
      ]
