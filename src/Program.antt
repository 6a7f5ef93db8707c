-- ===== src/Program.antt =====
-- TSP/TSP.cpp: `t_function`, the thread that runs the steps, and `main`.
pub mod Unreachable
pub mod Tours
pub mod Route
pub mod Complete
pub mod Main
pub mod Connection
use tsp_simple.Base.{ℕ, zero, suc, Option, none, some, List, [], ◌∷◌, ◌++◌, get_elem?, ◌>>=◌}
use tsp_simple.Text.{Text, strcpy, atoi}
use tsp_simple.External.{Floats, Mysql, Engine}
use tsp_simple.View.{View, Parameters, Outcome, returned, crashed}
use tsp_simple.View.Load.{on_load_delivery_data}
use tsp_simple.View.Setting.{on_set_delivery_data}
use tsp_simple.View.Search.{on_search_delivery_data}
use tsp_simple.View.Relocation.{on_relocation_delivery_data}
use tsp_simple.View.Insert.{on_vehicle_data_insert}

pub data StepName : Type 0 where
  load_step set_step search_step relocation_step insert_step : StepName

-- A line that `t_function` prints behind a step.
pub data Report : Type 0 where
  complete : StepName → Report
  error_code : StepName → ℕ → Report

unfoldable pub report : StepName → ℕ → Report
report step n = elim n [ zero ↦ complete step | suc k ↦ error_code step (suc k) ]

-- How far the thread came: what it printed, and the view.
pub record Progress (F : Floats) (D : Mysql) (G : Engine F) : Type 0 where
  pub printed : List Report
  pub view : View F D G

module _ {F : Floats} {D : Mysql} {G : Engine F} where
  -- One step and the report on it. The thread goes on whatever the step returned; it ends only
  -- when the step crashed.
  unfoldable pub run_step : StepName → Outcome × View F D G → List Report → Option (Progress F D G)
  unfolding report
  run_step name (returned n, v) printed =
      some (record { printed = printed ++ report name n ∷ []; view = v })
  run_step name (crashed, v) printed = none

  -- `t_function`; `none` if it crashed, or if the search took more than `fuel` looks.
  unfoldable pub t_function : ℕ → View F D G → Option (Progress F D G)
  unfolding run_step
  t_function fuel v = run_step load_step (on_load_delivery_data v) [] >>= λ a.
      run_step set_step (on_set_delivery_data a.view) a.printed >>= λ b.
      on_search_delivery_data fuel b.view >>= λ searched.
      run_step search_step searched b.printed >>= λ c.
      run_step relocation_step (on_relocation_delivery_data c.view) c.printed >>= λ d.
      run_step insert_step (on_vehicle_data_insert d.view) d.printed

-- `strcpy(pTSPView->..., argv[ k ])` into 64 bytes.
abbrev pub argument : List Text → ℕ → Option Text
argument argv k = get_elem? argv k >>= strcpy 64

-- The arguments that `main` reads; `argv[ 0 ]` is the program's name.
unfoldable pub read_parameters : List Text → Option Parameters
unfolding strcpy atoi
read_parameters argv = argument argv 1 >>= λ date. argument argv 2 >>= λ meridiem.
    argument argv 3 >>= λ flag. argument argv 4 >>= λ location. argument argv 5 >>= λ vehicle.
    get_elem? argv 6 >>= atoi >>= λ number. some (record {
      delivery_date = date;
      meridiem_type = meridiem;
      meridiem_flag = flag;
      location_id = location;
      vehicle_no = vehicle;
      vehicle_number = number;
    })
