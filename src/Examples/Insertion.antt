-- ===== src/Examples/Insertion.antt =====
-- A run of `OnVehicleDataInsert` (TSP/TspView.cpp) on a route of two stops.
use tsp_simple.Base.{ℕ, ◌≡◌, refl, ap, some, List, [], ◌∷◌, ◌++◌, replicate}
use tsp_simple.Text.{Text, bytes, sprintf, atoi, strcpy}
use tsp_simple.City.{ChromosomeCopy}
use tsp_simple.Examples.Loading.{scripted}
use tsp_simple.Examples.Stubs.{whole, two_sleeps, for_vehicles, details_at}
use tsp_simple.External.{Row}
use tsp_simple.View.{View, new_view, Exit, done, column, connect, query, query_text}
use tsp_simple.View.Load.{count_up}
use tsp_simple.View.Setting.{details_of_order}
use tsp_simple.View.Insert.{
  insert_body, insert_round, insert_leg, insert_next, insert_single, number_rows, mutual_args,
  insert_args, target_of_copy, leg_end,
}
use tsp_simple.View.Insert.Log.{IsBodyLog}
use tsp_simple.View.Insert.Logged.{insert_body-IsBodyLog}

abbrev stop_at : ℕ → ChromosomeCopy whole
stop_at n = record { id = n; details = details_at (bytes "1") }

-- The replies: a distance of 1 for each leg, and the order of the second stop.
abbrev replies : List (List Row)
replies =
    []
    ∷ []
    ∷ (replicate 17 (some (bytes "1")) ∷ [])
    ∷ (replicate 2 (some (bytes "1")) ∷ [])
    ∷ []
    ∷ (replicate 17 (some (bytes "1")) ∷ [])
    ∷ []

abbrev two_stops : View whole scripted two_sleeps
two_stops = record (new_view {G = two_sleeps} (for_vehicles 1) 0 0 replies) {
  best_chromosome_copy = stop_at 1 ∷ stop_at 2 ∷ [];
}

abbrev written : View whole scripted two_sleeps
written = (insert_body two_stops).1

comes_to_end : (insert_body two_stops).0 ≡ done tt
unfolding insert_body insert_round insert_leg insert_next insert_single number_rows mutual_args
    insert_args target_of_copy leg_end count_up details_of_order column connect query query_text
    sprintf atoi strcpy new_view
comes_to_end = refl

insert_body-IsBodyLog_example :
    (log : List Text) × (written.statements ≡ two_stops.statements ++ log)
    × IsBodyLog two_stops.parameters two_stops.best_chromosome_copy log
insert_body-IsBodyLog_example =
    insert_body-IsBodyLog two_stops written
      (ap (λ (r : Exit (Unit {0})). (r, written)) comes_to_end)
