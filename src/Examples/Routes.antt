-- ===== src/Examples/Routes.antt =====
-- Runs of the steps of `TSPView` (TSP/TspView.cpp) that divide the route among the vehicles.
use tsp_simple.Base.{
  length-replicate, zero, suc, ℕ, zero, suc, ◌+◌, ◌≡◌, ◌⊎◌, refl, ap, Bool, true, false, Option,
  none, some, List, [], ◌∷◌, length, take, get_elem?, arith,
}
use tsp_simple.Base.Int.{ℤ, pos, ◌+ℤ◌}
use tsp_simple.Text.{Text, bytes, to_narrow, sprintf, atoi}
use tsp_simple.Base.{elem}
use tsp_simple.City.{add_city_ext, Cities, ChromosomeCopy, RouteEachResult}
use tsp_simple.External.{Mysql, rows}
use tsp_simple.View.{
  View, Exit, done, fault, column, returned, crashed, new_view, connect, query, query_text,
}
use tsp_simple.View.Search.{start_search, smart_init}
use tsp_simple.View.Setting.{details_of_order}
use tsp_simple.View.Balance.{Packs, add_int, pack_stop, pack, judge, round, Balanced, balance}
use tsp_simple.View.Balance.Packing.{IsPacked}
use tsp_simple.View.Balance.Stops.{empty_packs, pack-IsPacked}
use tsp_simple.View.Balance.Settled.{Tried, IsDivided, balance-IsDivided}
use tsp_simple.View.Balance.Bounds.{AreUsual}
use tsp_simple.View.Balance.Ending.{balance-defined}
use tsp_simple.View.{no_flags, no_pays}
use tsp_simple.View.Calc.{
  ask_stop_pay, ask_single_pay, after_body, calc_stop, calc_stops, calc_body, on_calc_delivery_data,
}
use tsp_simple.View.Calc.Recall.{IsShort, LeavesEarly, on_calc_delivery_data-endless}
use tsp_simple.View.Research.{restock, on_research_delivery_data}
use tsp_simple.View.Research.Dangling.{BeginsInStore, on_research_delivery_data-crashes}
use tsp_simple.View.Research.Restocked.{IsRestocked, restock-IsRestocked}
use tsp_simple.View.VehicleRelocation.{on_relocation_vehicle_data}
use tsp_simple.View.VehicleRelocation.Turned.{IsTurned, on_relocation_vehicle_data_lem}
use tsp_simple.Examples.Stubs.{
  whole, empty_store, empty_store-IsValid, empty_server, two_sleeps, started, details_at,
  two_cities, two_cities-IsValid, visit, visit-Perm,
}

abbrev three_stops : List ℤ
three_stops = pos 3 ∷ pos 4 ∷ pos 5 ∷ []

abbrev two_packed : Packs
two_packed = record {
  flags = 1 ∷ 2 ∷ [];
  pays = pos 7 ∷ pos 5 ∷ [];
  index = 1;
  inner = 1;
  tmp = pos 5;
}

three_packed :
    pack (pos 6) 3 0 three_stops (empty_packs (0 ∷ 0 ∷ []) (pos 0 ∷ pos 0 ∷ [])) ≡ some two_packed
unfolding pack pack_stop add_int ◌+ℤ◌
three_packed = refl

pack-IsPacked_example :
    IsPacked (pos 6) (0 ∷ 0 ∷ []) (pos 0 ∷ pos 0 ∷ []) (take 3 three_stops) two_packed
pack-IsPacked_example =
    pack-IsPacked (pos 6) (0 ∷ 0 ∷ []) (pos 0 ∷ pos 0 ∷ []) three_stops 3 two_packed three_packed

abbrev two_balanced : Balanced
two_balanced = record { flags = 1 ∷ 2 ∷ []; pays = pos 7 ∷ pos 5 ∷ []; recall = false }

three_balanced :
    balance (pos 1) 3 three_stops 130 (pos 6) (0 ∷ 0 ∷ []) (pos 0 ∷ pos 0 ∷ []) ≡ some two_balanced
unfolding balance round judge pack pack_stop add_int ◌+ℤ◌
three_balanced = refl

balance-IsDivided_example :
    (avg : ℤ) × Tried 130 (pos 6) avg
    × IsDivided avg 2 (take 3 three_stops) two_balanced.flags two_balanced.pays
balance-IsDivided_example =
    balance-IsDivided 1 3 three_stops 130 (pos 6) (0 ∷ 0 ∷ []) (pos 0 ∷ pos 0 ∷ []) two_balanced
      (omega arith) refl three_balanced refl

three_usual : AreUsual three_stops
three_usual zero p e = (3, cc, omega arith)
three_usual (suc zero) p e = (4, cc, omega arith)
three_usual (suc (suc zero)) p e = (5, cc, omega arith)
three_usual (suc (suc (suc k))) p e = cc

balance-defined_example :
    (b : Balanced) × (balance (pos 1) 3 three_stops 130 (pos 6) no_flags no_pays ≡ some b)
unfolding no_flags no_pays
balance-defined_example =
    balance-defined 6 (pos 1) 3 three_stops 130 (pos 6) no_flags no_pays (omega arith, omega arith)
      (omega arith) (omega arith) (omega arith) three_usual (length-replicate {A = ℕ} 512 0)
      (length-replicate {A = ℤ} 512 (pos 0))

-- A stop of a route.
abbrev stop : ℕ → RouteEachResult whole
stop n = record { id = n; details = details_at (bytes "1") }

abbrev found : View whole empty_server two_sleeps
found = record (started 1 0) { best_route_each_result = (stop 2 ∷ stop 1 ∷ stop 3 ∷ []) ∷ [] }

on_relocation_vehicle_data_lem_example :
    (routes : List (List (RouteEachResult whole))) × (on_relocation_vehicle_data found
      ≡ (returned 0, record found { best_route_each_relocation = routes }))
    × (length routes ≡ 1)
    × ((i : ℕ) (route turned : List (RouteEachResult whole))
        → get_elem? found.best_route_each_result i ≡ some route
        → get_elem? routes i ≡ some turned
        → IsTurned route turned)
unfolding new_view
on_relocation_vehicle_data_lem_example =
    on_relocation_vehicle_data_lem found 1 refl (omega arith) refl

abbrev copy : ℕ → ChromosomeCopy whole
copy n = record { id = n; details = details_at (bytes "1") }

abbrev divided : View whole empty_server two_sleeps
divided = record (started 1 0) {
  cities = two_cities;
  best_chromosome = 2 ∷ 1 ∷ [];
  best_chromosome_copy = copy 1 ∷ copy 2 ∷ copy 3 ∷ [];
}

last_two :
    (i : ℕ) (c : ChromosomeCopy whole)
    → get_elem? (copy 2 ∷ copy 3 ∷ []) i ≡ some c
    → get_elem? divided.best_chromosome_copy (1 + i) ≡ some c
last_two zero c e = e
last_two (suc zero) c e = e
last_two (suc (suc i)) c e = cc

abbrev emptied : View whole empty_server two_sleeps
emptied = record divided { cities = empty_store }

restock-IsRestocked_example :
    (s : Cities whole) × (restock visit 1 2 emptied
      ≡ (done tt, start_search 20_000 (record emptied { cities = s; best_chromosome = [] })))
    × IsRestocked (copy 1) (copy 2 ∷ copy 3 ∷ []) s
restock-IsRestocked_example =
    restock-IsRestocked visit emptied 1 2 (copy 1) (copy 2 ∷ copy 3 ∷ []) empty_store-IsValid refl
      refl refl refl last_two

begins : BeginsInStore divided
unfolding elem add_city_ext
begins p e = let is : 2 ≡ p = cc in rw (← is) refl

on_research_delivery_data-crashes_example :
    (w : View whole empty_server two_sleeps) × (on_research_delivery_data visit 1 divided
      ≡ some (crashed, w))
unfolding smart_init new_view
on_research_delivery_data-crashes_example =
    on_research_delivery_data-crashes visit visit-Perm 1 divided two_cities-IsValid begins

-- A server that answers every query with a zero.
abbrev zeros : Mysql
zeros = record {
  Server = Unit {0};
  connect = λ e. true;
  query = λ sql e. (rows ((some (bytes "0") ∷ []) ∷ []), e);
}

-- Nothing is left in the memory that was freed.
abbrev stale : ℕ → View whole zeros two_sleeps → Option Text
stale i v = none

abbrev one_stop : View whole zeros two_sleeps
one_stop = record (started 3 tt) { best_chromosome_copy = copy 1 ∷ [] }

one_stop-IsShort : IsShort one_stop
unfolding new_view
one_stop-IsShort = record { vehicles = 2; number = refl; few = omega arith }

read_after_free : (calc_body stale one_stop).0 ≡ fault
unfolding calc_body calc_stops calc_stop ask_stop_pay ask_single_pay connect query query_text
    sprintf column atoi add_int ◌+ℤ◌ new_view details_of_order to_narrow
read_after_free = refl

crashes : on_calc_delivery_data stale 1 one_stop ≡ some (crashed, (calc_body stale one_stop).1)
unfolding on_calc_delivery_data
crashes =
    ap (λ (r : Exit Bool). after_body stale (λ w. none) (r, (calc_body stale one_stop).1))
      read_after_free

on_calc_delivery_data-endless_example : (crashed ≡ crashed) ⊎ LeavesEarly stale one_stop
on_calc_delivery_data-endless_example =
    on_calc_delivery_data-endless stale 1 one_stop crashed (calc_body stale one_stop).1
      one_stop-IsShort crashes
