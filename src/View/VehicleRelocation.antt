-- ===== src/View/VehicleRelocation.antt =====
-- `TSPView::OnRelocationVehicleData`, step 7 (TSP/TspView.cpp): each vehicle's route, turned so that it
-- begins at the depot. `t_function` has this step commented out.
pub mod Turned
use tsp_simple.Base.{
  ℕ, zero, suc, ◌+◌, ◌-◌, ◌==◌, if◌then◌else◌, Bool, true, false, Option, none, some, List, [], ◌∷◌,
  ◌++◌, length, get_elem?,
}
use tsp_simple.Base.Int.{ℤ, pos, negsuc, pos_part}
use tsp_simple.City.{RouteEachResult, Details}
use tsp_simple.External.{Floats, Mysql, Engine}
use tsp_simple.View.{View, Action, ◌>>=◌, ◌>>◌, pure, get, modify, need, Outcome, outcome, resize}
use tsp_simple.View.Load.{assign, count_up}
use tsp_simple.View.Relocation.{rotate}
use tsp_simple.View.Setting.{empty_details}

module _ {F : Floats} where
  -- The index of the first stop with the identifier 1, from the index `i` on; 0 if there is none.
  unfoldable pub first_depot : List (RouteEachResult F) → ℕ → ℕ
  first_depot [] i = 0
  first_depot (r ∷ rest) i = let later = first_depot rest (i + 1) in if r.id == 1 then i else later

  -- A stop after `resize`. `_id` has no value yet, for which 0 stands here.
  unfoldable pub no_result : RouteEachResult F
  unfolding empty_details
  no_result = record { id = 0; details = empty_details }

module _ {F : Floats} {D : Mysql} {G : Engine F} where
  -- The body of the loop over the vehicles.
  unfoldable pub relocate_vehicle_in : ℕ → View F D G → Action (View F D G) (Unit {0})
  unfolding first_depot rotate no_result
  relocate_vehicle_in i v = do
    route ← need (get_elem? v.best_route_each_result i)
    let pushed = v.best_route_each_relocation ++ [] ∷ []
    row ← need (get_elem? pushed i)
    turned ← need (rotate (first_depot route 0) route (resize (length route) no_result row))
    routes ← need (assign pushed i turned)
    modify (λ w. record w { best_route_each_relocation = routes })

  unfoldable pub relocate_vehicle : ℕ → Action (View F D G) (Unit {0})
  unfolding relocate_vehicle_in
  relocate_vehicle i = do v ← get; relocate_vehicle_in i v

  -- Step 7. For a negative number of vehicles the loop has no round.
  unfoldable pub on_relocation_vehicle_data : View F D G → Outcome × View F D G
  unfolding relocate_vehicle count_up
  on_relocation_vehicle_data v =
      let (r, w) = count_up (pos_part v.parameters.vehicle_number) 0 relocate_vehicle v in
      (outcome r, w)
