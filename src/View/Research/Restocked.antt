-- ===== src/View/Research/Restocked.antt =====
-- The store in which `routeBestSearch` (TSP/TspView.cpp) looks for the route of a vehicle.
use tsp_simple.Base.{
  ℕ, zero, suc, ◌+◌, ◌-◌, ◌≡◌, refl, sym, ap, ◌∙◌, some, List, [], ◌∷◌, ◌++◌, map, length-map,
  length, get_elem?, arith,
}
use tsp_simple.City.{Cities, Entries, Details, ChromosomeCopy, add_city_ext, get_count}
use tsp_simple.City.Lookup.{IsValid}
use tsp_simple.City.Stock.{city_at, add_each, add_each-HasAdded}
use tsp_simple.External.{Floats, Mysql, Engine}
use tsp_simple.View.{View, Exit, done, Action, ◌>>◌, modify, follow}
use tsp_simple.View.Load.{count_up}
use tsp_simple.View.Search.{start_search}
use tsp_simple.View.Setting.Stops.{copies_of, numbered, copies_of-add_each, copies_of-none}
use tsp_simple.View.Research.{depot_details, add_depot, add_stop, restock}

module _ {F : Floats} where
  -- What `AddCityExt` is given for a copy.
  abbrev pub item_of_copy : ChromosomeCopy F → ℕ × Details F
  item_of_copy c = (c.id, c.details)

  -- The cities of a store are the depot and the stops, in this order from the identifier 1 on.
  -- Each remembers its identifier in the first search.
  pub record IsRestocked (depot : ChromosomeCopy F) (stops : List (ChromosomeCopy F)) (s : Cities F)
      : Type 0 where
    pub valid : IsValid s
    pub listed :
        copies_of s ≡ numbered 1 ((depot.id, depot_details depot.details) ∷ map item_of_copy stops)
    pub count : get_count s ≡ 1 + length stops
    pub depot_at :
        city_at s 1
        ≡ some (record { id = 1; origin_id = depot.id; details = depot_details depot.details })
    pub stop_at :
        (i : ℕ) (c : ChromosomeCopy F)
        → get_elem? stops i ≡ some c
        → city_at s (2 + i) ≡ some (record { id = 2 + i; origin_id = c.id; details = c.details })

  get_elem?-items :
      (stops : List (ChromosomeCopy F)) (i : ℕ) {c : ChromosomeCopy F}
      → get_elem? stops i ≡ some c
      → get_elem? (map item_of_copy stops) i ≡ some (item_of_copy c)
  get_elem?-items [] i e = cc
  get_elem?-items (p ∷ stops) zero {c} e = let same : p ≡ c = cc in rw same refl
  get_elem?-items (p ∷ stops) (suc i) e = get_elem?-items stops i e

  add_each-IsRestocked :
      (depot : ChromosomeCopy F) (stops : List (ChromosomeCopy F)) (s : Cities F)
      → IsValid s
      → s.next_id ≡ 0
      → get_count s ≡ 0
      → IsRestocked depot stops
          (add_each ((depot.id, depot_details depot.details) ∷ map item_of_copy stops) s)
  add_each-IsRestocked depot stops s ok first empty =
      let items = (depot.id, depot_details depot.details) ∷ map item_of_copy stops in
      let more = add_each-HasAdded items s ok in
      record {
        valid = more.valid;
        listed =
            copies_of-add_each items s ok
            ∙ ap (λ l. l ++ numbered (s.next_id + 1) items) (copies_of-none s empty)
            ∙ ap (λ n. numbered n items) (omega (arith, first));
        count = omega (arith, more.count, length-map stops item_of_copy);
        depot_at =
            let one : s.next_id + 1 + 0 ≡ 1 = omega arith in
            let here = more.added 0 _ refl in rw one at here;
        stop_at = λ i c e.
            let there : s.next_id + 1 + suc i ≡ 2 + i = omega arith in
            let here = more.added (suc i) _ (get_elem?-items stops i e) in rw there at here;
      }

module _ {F : Floats} {D : Mysql} {G : Engine F} (order : Entries → Entries) where
  add_stops :
      (stops : List (ChromosomeCopy F)) (from : ℕ) (v : View F D G)
      → ((i : ℕ) (c : ChromosomeCopy F)
          → get_elem? stops i ≡ some c
          → get_elem? v.best_chromosome_copy (from + i) ≡ some c)
      → count_up (length stops) from (add_stop order) v
        ≡ (done tt, record v { cities = add_each (map item_of_copy stops) v.cities })
  unfolding count_up add_stop add_each
  add_stops [] from v here = refl
  add_stops (c ∷ stops) from v here =
      let at : get_elem? v.best_chromosome_copy from ≡ some c =
        ap (get_elem? v.best_chromosome_copy) (omega arith) ∙ here 0 c refl in
      rw at (
        add_stops stops (from + 1) (record v { cities = add_city_ext c.id c.details v.cities })
          (λ i d e. ap (get_elem? v.best_chromosome_copy) (omega arith) ∙ here (suc i) d e))

  run :
      (m : Action (View F D G) (Unit {0})) (v : View F D G) {w : View F D G}
      (k : Action (View F D G) (Unit {0}))
      → m v ≡ (done tt, w)
      → (m >> k) v ≡ k w
  run m v k e = ap (λ (r : Exit (Unit {0}) × View F D G). follow r.0 (λ _. k) r.1) e

  add_depot_lem :
      (v : View F D G) (depot : ChromosomeCopy F)
      → get_elem? v.best_chromosome_copy 0 ≡ some depot
      → add_depot order v ≡ (
        done tt,
        record v {
          cities = add_city_ext depot.id (depot_details depot.details) v.cities;
          best_chromosome = [];
        },
      )
  unfolding add_depot
  add_depot_lem v depot at = rw at refl

  -- Behind `ResetNextId`, `routeBestSearch` fills a store that is empty and whose identifiers begin
  -- at 1 with the depot and the stops from `start` to `stop` alone, in order, under the identifiers
  -- from 1 on, where each city remembers its identifier in the first search. No best chromosome is
  -- known then, nothing else of the view is changed, and the search is started with a limit of 20000
  -- generations. There must be copies for the depot and all these stops.
  pub restock-IsRestocked :
      (v : View F D G) (start stop : ℕ) (depot : ChromosomeCopy F) (stops : List (ChromosomeCopy F))
      → IsValid v.cities
      → v.cities.next_id ≡ 0
      → get_count v.cities ≡ 0
      → get_elem? v.best_chromosome_copy 0 ≡ some depot
      → length stops ≡ stop + 1 - start
      → ((i : ℕ) (c : ChromosomeCopy F)
          → get_elem? stops i ≡ some c
          → get_elem? v.best_chromosome_copy (start + i) ≡ some c)
      → (s : Cities F) × (restock order start stop v
          ≡ (done tt, start_search 20_000 (record v { cities = s; best_chromosome = [] })))
        × IsRestocked depot stops s
  unfolding restock add_each
  restock-IsRestocked v start stop depot stops valid first empty at_depot size here =
      let u₂ = record v {
        cities = add_city_ext depot.id (depot_details depot.details) v.cities;
        best_chromosome = [];
      } in
      let w = record u₂ { cities = add_each (map item_of_copy stops) u₂.cities } in
      let start_it : Action (View F D G) (Unit {0}) =
        modify (λ t. start_search 20_000 (record t { best_chromosome = [] })) in
      let add_them : Action (View F D G) (Unit {0}) =
        count_up (stop + 1 - start) start (add_stop order) >> start_it in
      (
        w.cities,
        run (add_depot order) v add_them (add_depot_lem v depot at_depot)
            ∙ ap (λ n. (count_up n start (add_stop order) >> start_it) u₂) (sym size)
            ∙ run (count_up (length stops) start (add_stop order)) u₂ start_it
                (add_stops stops start u₂ here),
        add_each-IsRestocked depot stops v.cities valid first empty,
      )
