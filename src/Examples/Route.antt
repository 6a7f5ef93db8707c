-- ===== src/Examples/Route.antt =====
-- Steps 1 to 4 of the thread (TSP/TSP.cpp) on a day with two orders.
use mathlib.Core.List.Perm
use tsp_simple.Base.{ℕ, zero, suc, ◌-◌, ◌≤◌, ◌≡◌, refl, some, List, [], ◌∷◌, ◌++◌, arith, Perm}
use tsp_simple.Base.Int.{pos}
use tsp_simple.City.{ChromosomeCopy, VectorOrderData, get_cities, pointer_distance}
use tsp_simple.Chromosome.{make_new_from_prototype, shuffle_below, swap_values}
use tsp_simple.Chromosome.Population.{Bred, made, mutated}
use tsp_simple.Examples.Loading.{
  scripted, begun, loaded, after_set, runs, sets, its_cities, two_counted,
}
use tsp_simple.Examples.Stubs.{whole, dice, dice-IsInRange, visit, visit-Perm}
use tsp_simple.External.{Engine, AlgorithmState, running, criteria_stopped, new_best_chromosome}
use tsp_simple.Program.{
  complete, load_step, set_step, search_step, relocation_step, insert_step, run_step, t_function,
}
use tsp_simple.Program.Route.{t_function-stops}
use tsp_simple.View.{View, new_view}
use tsp_simple.View.Insert.{on_vehicle_data_insert}
use tsp_simple.View.Search.{start_search, smart_init}
use tsp_simple.View.Search.Announced.{AnnouncesOnly, announced}
use tsp_simple.View.Search.Waiting.{IsFirstStop, notices_of}
use tsp_simple.View.Setting.Stops.{stop, stops}

abbrev state_of : ℕ → AlgorithmState
state_of zero = criteria_stopped
state_of (suc n) = running

-- An engine that announces the second city and then the first, and stops after a sleep.
abbrev pub second_first : Engine whole
second_first = record {
  State = ℕ;
  get_state = state_of;
  set_stop_criteria = λ limit n. n;
  start_solving = λ resume n. 1;
  advance = λ n. (new_best_chromosome (2 ∷ 1 ∷ []) (pos 0) ∷ [], n - 1);
}

abbrev before : View whole scripted second_first
before = begun 0

abbrev after_load : View whole scripted second_first
after_load = loaded 0

abbrev after : View whole scripted second_first
after = after_set second_first 0

shuffled : make_new_from_prototype dice (1 ∷ 2 ∷ []) 0 ≡ some (1 ∷ 2 ∷ [], 2)
unfolding make_new_from_prototype shuffle_below swap_values
shuffled = refl

turned-Bred :
    Bred dice whole
      (pointer_distance after.vector_mutual_data after.cities.heap)
      (get_cities visit after.cities)
      (2 ∷ 1 ∷ [])
turned-Bred = mutated (made 0 2 (rw (its_cities second_first 0) shuffled)) (Perm.swap 1 2 [])

seen_stopped : IsFirstStop second_first 1 (start_search 70_000 after).engine
unfolding IsFirstStop start_search smart_init
seen_stopped = (refl, refl)

told_one : 1 ≤ announced (notices_of second_first 1 (start_search 70_000 after).engine)
unfolding announced notices_of start_search smart_init
told_one = omega arith

told-Bred :
    AnnouncesOnly
      (Bred dice whole
        (pointer_distance after.vector_mutual_data after.cities.heap)
        (get_cities visit after.cities))
      (notices_of second_first 1 (start_search 70_000 after).engine)
unfolding AnnouncesOnly notices_of start_search smart_init
told-Bred = (turned-Bred, tt)

t_function-stops_example :
    (d : View whole scripted second_first) × (o : VectorOrderData) × (later : List VectorOrderData)
    × (rest : List (ChromosomeCopy whole)) × (t_function 2 before
        ≡ run_step insert_step (on_vehicle_data_insert d) (
            complete load_step
            ∷ complete set_step
            ∷ complete search_step
            ∷ complete relocation_step
            ∷ []))
    × (after_load.vector_order_data ≡ o ∷ later)
    × (d.best_chromosome_copy ≡ after_load.best_chromosome_copy ++ stop 1 o ∷ rest)
    × Perm rest (stops 2 later)
    × (d.parameters ≡ after_load.parameters)
    × (d.server ≡ after_load.server)
unfolding new_view
t_function-stops_example =
    t_function-stops before after_load after refl refl (runs second_first 0)
      (two_counted second_first 0) (sets second_first 0) dice visit dice-IsInRange visit-Perm 1 2
      (omega arith) seen_stopped told_one told-Bred
