-- ===== src/Program/Route.antt =====
-- Steps 1 to 4 of `t_function` (TSP/TSP.cpp) one after the other: the orders of the database
-- become the stops of the route.
use tsp_simple.Base.{
  ℕ, ◌≤◌, ◌<◌, ◌≡◌, refl, ap, sym, ◌∙◌, arith, some, List, [], ◌∷◌, ◌++◌, map, Perm, length,
}
use tsp_simple.City.{
  no_cities, Entries, ChromosomeCopy, VectorOrderData, get_cities, pointer_distance,
}
use tsp_simple.City.Lookup.{pointers}
use tsp_simple.City.Stock.{add_each}
use tsp_simple.City.Walk.{IsOrder}
use tsp_simple.External.{Floats, Mysql, Engine, Random, IsInRange}
use tsp_simple.Chromosome.Population.{Bred}
use tsp_simple.View.{View, done, returned, outcome}
use tsp_simple.View.Insert.{on_vehicle_data_insert}
use tsp_simple.View.Load.{load_body, on_load_delivery_data}
use tsp_simple.View.Load.Loading.{load_body-IsTable}
use tsp_simple.View.Relocation.{on_relocation_delivery_data}
use tsp_simple.View.Relocation.Depot.{on_relocation_delivery_data-stops}
use tsp_simple.View.Search.{start_search, on_search_delivery_data}
use tsp_simple.View.Search.Announced.{
  last_best, AnnouncesOnly, announced, last_best-announced, searched_lem,
}
use tsp_simple.View.Search.Waiting.{notices_of, IsFirstStop, waited, on_search_delivery_data_lem}
use tsp_simple.View.Setting.{on_set_delivery_data}
use tsp_simple.View.Setting.Stocked.{item_of, set_delivery_data_run}
use tsp_simple.View.Setting.Stops.{stop, stops}
use tsp_simple.Program.{
  complete, load_step, set_step, search_step, relocation_step, insert_step, run_step, t_function,
}
use tsp_simple.Program.Tours.{load-set-Bred}

first_order :
    (os : List VectorOrderData)
    → 2 ≤ length os
    → (o : VectorOrderData) × (later : List VectorOrderData) × (os ≡ o ∷ later)
first_order [] two = absurd (omega arith)
first_order (o ∷ later) two = (o, later, refl)

module _ {F : Floats} {D : Mysql} {G : Engine F} where
  -- What the thread does when the first four steps return 0.
  t_function-steps :
      (fuel : ℕ) (v w u x d : View F D G)
      → on_load_delivery_data v ≡ (returned 0, w)
      → on_set_delivery_data w ≡ (returned 0, u)
      → on_search_delivery_data fuel u ≡ some (returned 0, x)
      → on_relocation_delivery_data x ≡ (returned 0, d)
      → t_function fuel v
        ≡ run_step insert_step (on_vehicle_data_insert d) (
            complete load_step
            ∷ complete set_step
            ∷ complete search_step
            ∷ complete relocation_step
            ∷ [])
  unfolding t_function run_step
  t_function-steps fuel v w u x d load set search relocation =
      rw load (rw set (rw search (rw relocation refl)))

  searched_cities :
      (k : ℕ) (u : View F D G)
      → let x = waited k (start_search 70_000 u) in
        (x.cities ≡ u.cities)
        × (x.best_chromosome_copy ≡ u.best_chromosome_copy)
        × (x.best_chromosome
            ≡ last_best u.best_chromosome (notices_of G k (start_search 70_000 u).engine))
        × (x.parameters ≡ u.parameters)
        × (x.server ≡ u.server)
  searched_cities k u =
      let (g, f, e) = searched_lem 70_000 k u in
      (
        ap (λ (x : View F D G). x.cities) e,
        ap (λ (x : View F D G). x.best_chromosome_copy) e,
        ap (λ (x : View F D G). x.best_chromosome) e,
        ap (λ (x : View F D G). x.parameters) e,
        ap (λ (x : View F D G). x.server) e,
      )

  -- The first four steps of the thread, from a view without cities and distances: when the first
  -- step comes to its end and counts at least two orders, and the search is seen stopped after `k`
  -- sleeps, having announced at least one chromosome and only such as the operators make from the
  -- cities, then the thread reports the four steps complete and goes on to the insertion of the
  -- route. The route has one stop for each order of the database, with the data of that order:
  -- first that of the first order, the depot, and then those of the others in some order. The steps
  -- behind the first one change neither the parameters nor the server. The random numbers are
  -- assumed to be in range, and a walk over the hash map to visit every entry once; any bound of
  -- more than `k` looks at the engine is enough.
  pub t_function-stops :
      (v w u : View F D G)
      → v.vector_mutual_data ≡ []
      → v.cities ≡ no_cities F
      → load_body v ≡ (done tt, w)
      → 2 ≤ w.count_order_data
      → on_set_delivery_data w ≡ (returned 0, u)
      → (R : Random) (order : Entries → Entries) → IsInRange R
      → IsOrder order
      → (k fuel : ℕ) → k < fuel
      → IsFirstStop G k (start_search 70_000 u).engine
      → 1 ≤ announced (notices_of G k (start_search 70_000 u).engine)
      → AnnouncesOnly
          (Bred R F
            (pointer_distance u.vector_mutual_data u.cities.heap)
            (get_cities order u.cities))
          (notices_of G k (start_search 70_000 u).engine)
      → (d : View F D G) × (o : VectorOrderData) × (later : List VectorOrderData) × (rest : List
          (ChromosomeCopy F))
        × (t_function fuel v
            ≡ run_step insert_step (on_vehicle_data_insert d) (
                complete load_step
                ∷ complete set_step
                ∷ complete search_step
                ∷ complete relocation_step
                ∷ []))
        × (w.vector_order_data ≡ o ∷ later)
        × (d.best_chromosome_copy ≡ w.best_chromosome_copy ++ stop 1 o ∷ rest)
        × Perm rest (stops 2 later)
        × (d.parameters ≡ w.parameters)
        × (d.server ≡ w.server)
  unfolding on_load_delivery_data
  t_function-stops v w u empty none_yet run two set R order range arranged k fuel enough halted one
        only =
      let t = load_body-IsTable v w empty run in
      let (u', set', tours) = load-set-Bred v w empty none_yet run two R order range arranged in
      let same : u' ≡ u = ap (λ (r, y). y) (sym set' ∙ set) in
      let (b, loop) = set_delivery_data_run w (t.count ∙ sym t.orders) in
      let is = ap (λ (r, y). y) (sym set ∙ loop) in
      let (o, later, orders) = first_order w.vector_order_data (omega (arith, t.orders, t.count)) in
      let (cities, copied, best, parameters, server) = searched_cities k u in
      let tour : (c : List ℕ)
          → Bred R F (pointer_distance u.vector_mutual_data u.cities.heap)
              (get_cities order u.cities) c
          → Perm c (pointers u.cities.entries) =
        rw (sym same) (λ c bred. (tours c bred).0) in
      let bred = last_best-announced _ u.best_chromosome _ one only in
      let from : u.cities ≡ add_each (map item_of (o ∷ later)) (no_cities F) =
        ap (λ (y : View F D G). y.cities) is
        ∙ ap (λ l. add_each (map item_of l) w.cities) orders
        ∙ ap (add_each (map item_of (o ∷ later))) (t.cities ∙ none_yet) in
      let (d, rest, moved, appended, others, same_parameters, same_server) =
        on_relocation_delivery_data-stops (waited k (start_search 70_000 u)) o later (cities ∙ from)
          (rw (cities, best) (tour _ bred)) in
      (
        d,
        o,
        later,
        rest,
        t_function-steps fuel v w u _ d (ap (λ (r, y). (outcome r, y)) run) set
            (on_search_delivery_data_lem k fuel u enough halted) moved,
        orders,
        appended
            ∙ ap (λ l. l ++ stop 1 o ∷ rest)
                (copied ∙ ap (λ (y : View F D G). y.best_chromosome_copy) is),
        others,
        same_parameters ∙ parameters ∙ ap (λ (y : View F D G). y.parameters) is,
        same_server ∙ server ∙ ap (λ (y : View F D G). y.server) is,
      )
