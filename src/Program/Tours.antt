-- ===== src/Program/Tours.antt =====
-- The first two steps of `t_function` (TSP/TSP.cpp) and the chromosomes of the search after them.
use tsp_simple.Base.{
  ℕ, ◌≤◌, ◌≡◌, sym, ap, ◌∙◌, arith, true, some, List, [], Perm, elem, length, length-perm,
  length-map,
}
use tsp_simple.City.{no_cities, Entries, get_count, get_cities, pointer_distance}
use tsp_simple.City.Lookup.{IsValid, pointers}
use tsp_simple.City.Origin.{no_cities-IsValid, no_cities-IsOriginal, distance_known}
use tsp_simple.City.Walk.{IsOrder}
use tsp_simple.External.{Floats, Mysql, Engine, Random, IsInRange}
use tsp_simple.Chromosome.{fitness}
use tsp_simple.Chromosome.Population.{Bred, Bred-tour}
use tsp_simple.View.{View, done, returned, outcome}
use tsp_simple.View.Load.{load_body, on_load_delivery_data}
use tsp_simple.View.Load.Loading.{load_body-IsTable}
use tsp_simple.View.Setting.{on_set_delivery_data}
use tsp_simple.View.Setting.Stocked.{on_set_delivery_data-IsStocked}

module _ {F : Floats} {D : Mysql} {G : Engine F} where
  -- Every two cities of the view's store have a distance in its table.
  unfoldable pub IsReady : View F D G → Type 0
  IsReady v =
      (p q : ℕ)
      → elem p (pointers v.cities.entries) ≡ true
      → elem q (pointers v.cities.entries) ≡ true
      → (f : F.Float) × (pointer_distance v.vector_mutual_data v.cities.heap p q ≡ some f)

  -- When the first step comes to its end on a view without cities and distances, both it and the
  -- second step return 0, and then the store is valid, it has a city for each order that was
  -- counted, and every two cities have a distance.
  pub load-set-IsReady :
      (v w : View F D G)
      → v.vector_mutual_data ≡ []
      → v.cities ≡ no_cities F
      → load_body v ≡ (done tt, w)
      → (u : View F D G) × (on_load_delivery_data v ≡ (returned 0, w))
        × (on_set_delivery_data w ≡ (returned 0, u))
        × IsValid u.cities
        × (get_count u.cities ≡ w.count_order_data)
        × IsReady u
  unfolding on_load_delivery_data IsReady
  load-set-IsReady v w empty none_yet run =
      let t = load_body-IsTable v w empty run in
      let here : w.cities ≡ no_cities F = t.cities ∙ none_yet in
      let (u, set, stocked, kept) =
        on_set_delivery_data-IsStocked w (rw here (no_cities-IsValid F)) (sym t.orders) in
      let original = stocked.original (rw here (no_cities-IsOriginal F)) in
      (
        u,
        ap (λ (r, x). (outcome r, x)) run,
        set,
        stocked.valid,
        omega (arith, stocked.count, t.orders, ap (λ s. get_count s) here),
        λ p q h k.
            let small : u.cities.next_id ≤ w.count_order_data =
              omega (arith, stocked.next_id, t.orders, ap (λ s. s.next_id) here) in
            let (f, e) =
              distance_known w.count_order_data w.vector_mutual_data u.cities t.height t.width small
                original p q h k in
            (f, ap (λ m. pointer_distance m u.cities.heap p q) kept ∙ e),
      )

  -- When the first step comes to its end on a view without cities and distances, and counts at
  -- least two orders, then whatever the operators of the genetic algorithm make from the cities
  -- after the second step is a tour: it visits the city of each counted order once, and its length
  -- is defined. The random numbers are assumed to be in range, and a walk over the hash map to visit
  -- every entry once.
  pub load-set-Bred :
      (v w : View F D G)
      → v.vector_mutual_data ≡ []
      → v.cities ≡ no_cities F
      → load_body v ≡ (done tt, w)
      → 2 ≤ w.count_order_data
      → (R : Random) (order : Entries → Entries) → IsInRange R
      → IsOrder order
      → (u : View F D G) × (on_set_delivery_data w ≡ (returned 0, u))
        × ((c : List ℕ)
            → Bred R F
                (pointer_distance u.vector_mutual_data u.cities.heap)
                (get_cities order u.cities)
                c
            → Perm c (pointers u.cities.entries)
              × (length c ≡ w.count_order_data)
              × ((f : F.Float) × (fitness F (pointer_distance u.vector_mutual_data u.cities.heap) c
                    ≡ some f)))
  unfolding IsReady
  load-set-Bred v w empty none_yet run two R order range arranged =
      let (u, load, set, valid, count, ready) = load-set-IsReady v w empty none_yet run in
      (
        u,
        set,
        λ c b.
            let (tour, fit) =
              Bred-tour R F u.vector_mutual_data order u.cities range arranged valid (omega arith)
                ready c b in
            (tour, length-perm c _ tour ∙ length-map u.cities.entries (λ (i, p). p) ∙ count, fit),
      )
