-- ===== src/View/Search.antt =====
-- `TSPView::OnSearchDeliveryData`, step 3 (TSP/TspView.cpp), the observer's methods, and
-- `TSP::smartInit` (TSP/TspAlgorithm.cpp): the search for the best chromosome.
pub mod Waiting
pub mod Announced
use tsp_simple.Base.{ℕ, zero, suc, ◌+◌, Bool, true, false, Option, none, some, List, [], ◌∷◌}
use tsp_simple.External.{
  Floats, Mysql, Engine, Notice, statistic_update, new_best_chromosome, AlgorithmState,
  not_initialized, running, paused, stopped, criteria_stopped,
}
use tsp_simple.View.{View, Outcome, returned}

abbrev is_paused : AlgorithmState → Bool
is_paused paused = true
is_paused _ = false

abbrev pub is_criteria_stopped : AlgorithmState → Bool
is_criteria_stopped criteria_stopped = true
is_criteria_stopped _ = false

module _ {F : Floats} {D : Mysql} {G : Engine F} where
  -- `StatisticUpdate` and `NewBestChromosome`
  unfoldable pub observe : Notice F → View F D G → View F D G
  observe (statistic_update g) v = record v { generation = g }
  observe (new_best_chromosome code f) v = record v { best_chromosome = code; fitness = f }

  unfoldable pub observe_all : List (Notice F) → View F D G → View F D G
  unfolding observe
  observe_all [] v = v
  observe_all (n ∷ ns) v = observe_all ns (observe n v)

  unfoldable pub smart_init : View F D G → View F D G
  smart_init v = record v { engine = G.set_stop_criteria v.generation_limit v.engine }

  unfoldable pub start_search : ℕ → View F D G → View F D G
  unfolding smart_init
  start_search limit v =
      let w = smart_init (record v { generation_limit = limit }) in
      let resume = is_paused (G.get_state w.engine) in
      record w { engine = G.start_solving resume w.engine }

  -- `sleep(2)`: the search goes on in its thread.
  unfoldable pub sleep : View F D G → View F D G
  unfolding observe_all
  sleep v =
      let (notices, engine) = G.advance v.engine in
      observe_all notices (record v { engine = engine })

  -- `while( 1 )`, with fuel.
  unfoldable pub wait_until_stopped : ℕ → View F D G → Option (View F D G)
  unfolding sleep
  wait_until_stopped zero v = none
  wait_until_stopped (suc fuel) v = elim (is_criteria_stopped (G.get_state v.engine)) [
    | true ↦ some v
    | false ↦ wait_until_stopped fuel (sleep v)
  ]

  -- Step 3, if it ends within `fuel` looks at the state.
  unfoldable pub on_search_delivery_data : ℕ → View F D G → Option (Outcome × View F D G)
  unfolding start_search wait_until_stopped
  on_search_delivery_data fuel v = elim (wait_until_stopped fuel (start_search 70_000 v)) [
    | some w ↦ some (returned 0, w)
    | none ↦ none
  ]
