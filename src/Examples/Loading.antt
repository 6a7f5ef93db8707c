-- ===== src/Examples/Loading.antt =====
-- A run of `OnLoadDeliveryData` (TSP/TspView.cpp) on a day with one order.
use tsp_simple.Base.{
  ℕ, ◌≡◌, refl, ap, true, some, List, [], ◌∷◌, replicate, ◌++◌, ◌≤◌, arith, Perm, length,
}
use tsp_simple.Base.Int.{ℤ}
use tsp_simple.Text.{bytes, sprintf, strcpy, atoi}
use tsp_simple.External.{Engine, Mysql, Reply, rows, Row}
use tsp_simple.View.{View, new_view, done, returned, Exit, column, connect, query, query_text}
use tsp_simple.View.Load.{
  on_load_delivery_data, load_body, open_connection, load_count, load_found, fetch_count, ask_count,
  size_vectors, fetch_orders, load_details, load_orders, load_order, fetch_order, ask_order,
  order_of_row, store_order, load_pays, load_pay, pay_of, load_table, load_mutual_row, add_row,
  load_cells, load_mutual, fetch_mutual, ask_mutual, mutual_of_row, store_mutual, count_up,
}
use tsp_simple.View.Load.Table.{IsTable}
use tsp_simple.View.Load.Loading.{load_body-IsTable}
use tsp_simple.Examples.Stubs.{
  whole, two_sleeps, for_vehicles, dice, dice-IsInRange, visit, visit-Perm,
}
use tsp_simple.Program.Tours.{IsReady, load-set-IsReady, load-set-Bred}
use tsp_simple.Chromosome.{fitness}
use tsp_simple.Chromosome.Population.{Bred}
use tsp_simple.City.{
  get_count, get_cities, pointer_distance, add_city, add_city_ext, new_city, insert_entry,
  find_entry,
}
use tsp_simple.City.Lookup.{IsValid, pointers}
use tsp_simple.View.Setting.{set_city, on_set_delivery_data}

-- A server that answers from a list.
abbrev answer : List (List Row) → Reply × List (List Row)
answer [] = (rows [], [])
answer (r ∷ rest) = (rows r, rest)

abbrev pub scripted : Mysql
scripted = record { Server = List (List Row); connect = λ s. true; query = λ sql s. answer s }

abbrev ones : ℕ → Row
ones n = replicate n (some (bytes "1"))

-- A day with two orders, whose distances are not known.
abbrev order_row : Row
order_row = ones 17 ++ some [] ∷ []

abbrev two_orders : List (List Row)
two_orders =
    []
    ∷ ((some (bytes "2") ∷ []) ∷ [])
    ∷ (ones 29 ∷ ones 29 ∷ [])
    ∷ []
    ∷ (order_row ∷ [])
    ∷ (order_row ∷ [])
    ∷ []

-- The view at the start of such a day, with an engine.
abbrev pub begun : {G : Engine whole} → G.State → View whole scripted G
begun e = new_view (for_vehicles 1) 0 e two_orders

abbrev pub loaded : {G : Engine whole} → G.State → View whole scripted G
loaded e = (load_body (begun e)).1

module _ (G : Engine whole) (e : G.State) where
  -- What the first two steps come to on this day.
  the_day :
      ((load_body (begun {G = G} e)).0 ≡ done tt)
      × ((loaded {G = G} e).count_order_data ≡ 2)
      × ((on_set_delivery_data (loaded {G = G} e)).0 ≡ returned 0)
      × (get_cities visit (on_set_delivery_data (loaded {G = G} e)).1.cities ≡ 1 ∷ 2 ∷ [])
  unfolding load_body open_connection load_count load_found fetch_count ask_count size_vectors
      fetch_orders load_details load_orders load_order fetch_order ask_order order_of_row
      store_order load_pays load_pay pay_of load_table load_mutual_row add_row load_cells
      load_mutual fetch_mutual ask_mutual mutual_of_row store_mutual count_up column connect query
      query_text sprintf strcpy atoi new_view on_set_delivery_data set_city add_city add_city_ext
      new_city insert_entry find_entry get_cities
  the_day = (refl, refl, refl, refl)

  pub runs : load_body (begun {G = G} e) ≡ (done tt, loaded e)
  runs = ap (λ (r : Exit (Unit {0})). (r, loaded {G = G} e)) the_day.0

  pub two_counted : 2 ≤ (loaded {G = G} e).count_order_data
  two_counted = omega (arith, the_day.1)

  abbrev pub after_set : View whole scripted G
  after_set = (on_set_delivery_data (loaded e)).1

  pub sets : on_set_delivery_data (loaded {G = G} e) ≡ (returned 0, after_set)
  sets = ap (λ r. (r, after_set)) the_day.2

  pub its_cities : get_cities visit after_set.cities ≡ 1 ∷ 2 ∷ []
  its_cities = the_day.3

abbrev start : View whole scripted two_sleeps
start = begun 0

abbrev loaded_start : View whole scripted two_sleeps
loaded_start = loaded 0

load_body-IsTable_example :
    IsTable start.cities loaded_start.count_order_data loaded_start.count_order_data loaded_start
unfolding new_view
load_body-IsTable_example = load_body-IsTable start loaded_start refl (runs two_sleeps 0)

load-set-IsReady_example :
    (u : View whole scripted two_sleeps) × (on_load_delivery_data start
      ≡ (returned 0, loaded_start))
    × (on_set_delivery_data loaded_start ≡ (returned 0, u))
    × IsValid u.cities
    × (get_count u.cities ≡ loaded_start.count_order_data)
    × IsReady u
unfolding new_view
load-set-IsReady_example = load-set-IsReady start loaded_start refl refl (runs two_sleeps 0)

load-set-Bred_example :
    (u : View whole scripted two_sleeps) × (on_set_delivery_data loaded_start ≡ (returned 0, u))
    × ((c : List ℕ)
        → Bred dice whole
            (pointer_distance u.vector_mutual_data u.cities.heap)
            (get_cities visit u.cities)
            c
        → Perm c (pointers u.cities.entries)
          × (length c ≡ loaded_start.count_order_data)
          × ((f : ℤ) × (fitness whole (pointer_distance u.vector_mutual_data u.cities.heap) c
                ≡ some f)))
unfolding new_view
load-set-Bred_example =
    load-set-Bred start loaded_start refl refl (runs two_sleeps 0) (two_counted two_sleeps 0) dice
      visit dice-IsInRange visit-Perm
