-- ===== src/External.antt =====
-- What the program calls and does not implement, as parameters: the floating-point unit, the
-- MySQL client (TSP/include/mysql.h), and the genetic-algorithm library (TSP/inc): its random
-- numbers and its engine.
use tsp_simple.Base.{ℕ, ◌≤◌, Bool, Option, List}
use tsp_simple.Base.Int.{ℤ}
use tsp_simple.Text.{Text}

-- `double` and `float` with the operations that TspCity and TspFitness use. `to_float` is the
-- conversion in `float f = atof(s)`.
pub record Floats : Type 1 where
  pub Double : Type 0
  pub Float : Type 0
  pub atof : Text → Double
  pub of_int : ℤ → Double
  pub sub : Double → Double → Double
  pub sum : Double → Double → Double
  pub le : Double → Double → Bool
  pub to_float : Double → Float
  pub zero_float : Float
  pub minus_one : Float
  pub add : Float → Float → Float
  pub greater : Float → Float → Bool

-- A row of a result set: a column is a text or NULL.
abbrev pub Row : Type 0
Row = List (Option Text)

-- `mysql_query` fails, or yields a result set (empty for a statement that returns no rows).
pub data Reply : Type 0 where
  failed : Reply
  rows : List Row → Reply

pub record Mysql : Type 1 where
  pub Server : Type 0
  pub connect : Server → Bool
  pub query : Text → Server → Reply × Server

-- `GaGlobalRandomIntegerGenerator->Generate( max )`, with the generator's state.
pub record Random : Type 1 where
  pub Rng : Type 0
  pub generate : ℕ → Rng → ℕ × Rng

-- Its documentation: the number lies between 0 and `max`.
abbrev pub IsInRange : Random → Type 0
IsInRange R = (max : ℕ) (g : R.Rng) → (R.generate max g).0 ≤ max

-- `GaAlgorithmState`
pub data AlgorithmState : Type 0 where
  not_initialized running paused stopped criteria_stopped : AlgorithmState

-- What an observer of the algorithm is told.
pub data Notice (F : Floats) : Type 0 where
  statistic_update : (generation : ℕ) → Notice F
  new_best_chromosome : (code : List ℕ) (fitness : F.Float) → Notice F

-- `GaAlgorithm`. `advance` is what happens while the caller sleeps: the notices to the observer,
-- in order, and the new state.
pub record Engine (F : Floats) : Type 1 where
  pub State : Type 0
  pub get_state : State → AlgorithmState
  pub set_stop_criteria : ℕ → State → State
  pub start_solving : Bool → State → State
  pub advance : State → List (Notice F) × State
