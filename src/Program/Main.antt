-- ===== src/Program/Main.antt =====
-- The start of the program: `main` (TSP/TSP.cpp) and the constructor of the static
-- `TSP::_instance` (TSP/TspAlgorithm.cpp), which sets the algorithm up.
use Prim.Native.String.{String}
use tsp_simple.Base.{
  ℕ, zero, suc, ◌≡◌, ◌<◌, ◌≤◌, ◌⊎◌, lt→ltb, ltb, ◌∷◌, refl, Bool, true, false, Option, none, some,
  List, ◌>>=◌, length, get_elem?, arith, ap, inl, inr,
}
use tsp_simple.Text.{Text, bytes, atoi, strcpy}
use tsp_simple.View.Buffers.{FitsParameters}
use tsp_simple.External.{Floats, Mysql, Engine}
use tsp_simple.View.{Parameters, new_view}
use tsp_simple.Program.{Progress, argument, read_parameters, t_function}

-- `GaChromosomeParams`, `GaPopulationParameters`, the operations of the population by the names of
-- their catalogues with their parameters, and `GaFitnessProgressCriteriaParams`, whose comparison
-- and value are "less than" and the best fitness.
pub record Configuration (F : Floats) : Type 0 where
  pub mutation_probability : F.Float
  pub mutation_size : ℕ
  pub improving_only_mutations : Bool
  pub crossover_probability : F.Float
  pub number_of_crossover_points : ℕ
  pub mutation : String
  pub fitness_comparator : String
  pub population_size : ℕ
  pub resizable : Bool
  pub sorting : Bool
  pub use_scaled_fitness : Bool
  pub best_track_count : ℕ
  pub worst_track_count : ℕ
  pub selection : String
  pub selection_size : ℕ
  pub selection_duplicates : Bool
  pub selection_group_size : ℕ
  pub replacement : String
  pub replacement_size : ℕ
  pub elitism : ℕ
  pub coupling : String
  pub number_of_offsprings : ℕ
  pub check_for_duplicates : Bool
  pub number_of_workers : ℕ
  pub stop_criteria : String
  pub required_progress : F.Float
  pub absolute : Bool
  pub history_depth : ℕ

-- What the constructor passes to the library.
unfoldable pub configuration : (F : Floats) → ℕ → Configuration F
configuration F generation_limit = record {
  mutation_probability = F.to_float (F.atof (bytes "0.3"));
  mutation_size = 2;
  improving_only_mutations = false;
  crossover_probability = F.to_float (F.atof (bytes "0.8"));
  number_of_crossover_points = 2;
  mutation = "GaSwapMutation";
  fitness_comparator = "GaMinFitnessComparator";
  population_size = 100;
  resizable = false;
  sorting = true;
  use_scaled_fitness = false;
  best_track_count = 0;
  worst_track_count = 0;
  selection = "GaSelectRandomBest";
  selection_size = 8;
  selection_duplicates = true;
  selection_group_size = 10;
  replacement = "GaReplaceRandom";
  replacement_size = 8;
  elitism = 10;
  coupling = "GaSimpleCoupling";
  number_of_offsprings = 8;
  check_for_duplicates = true;
  number_of_workers = 1;
  stop_criteria = "GaFitnessProgressCriteria";
  required_progress = F.to_float (F.atof (bytes "1"));
  absolute = true;
  history_depth = generation_limit;
}

-- How a run of `main` goes: it crashes before it creates the thread, or the thread runs, with a
-- result unless it crashes or its search is not seen stopped.
pub data Run (F : Floats) (D : Mysql) (G : Engine F) : Type 0 where
  crashed_before : Run F D G
  thread : Option (Progress F D G) → Run F D G

module _ {F : Floats} {D : Mysql} {G : Engine F} (create : Configuration F → G.State) where
  abbrev run_thread : ℕ → ℕ → D.Server → Option Parameters → Run F D G
  run_thread fuel count server none = crashed_before
  run_thread fuel count server (some p) =
      thread (t_function fuel (new_view p count (create (configuration F 100_000)) server))

  -- The program: the algorithm is there before `main`, which makes the view, reads its arguments
  -- and runs the thread to its end. `count` is what the memory holds for the count of the orders.
  unfoldable pub main : ℕ → ℕ → D.Server → List Text → Run F D G
  unfolding read_parameters t_function new_view configuration
  main fuel count server argv = run_thread fuel count server (read_parameters argv)

bind-none :
    {A B : Type 0} (o : Option A) (f : A → Option B) → ((a : A) → f a ≡ none) → (o >>= f) ≡ none
bind-none none f all = refl
bind-none (some a) f all = all a

-- The argument `k` is missing, or it is a text that does not fit into the array of 64 bytes for it.
abbrev pub IsBad : List Text → ℕ → Type 0
IsBad argv k =
    (get_elem? argv k ≡ none)
    ⊎ ((t : Text) × (get_elem? argv k ≡ some t) × (64 ≤ length t) × (k ≤ 5))

argument-bad : (argv : List Text) (k : ℕ) → IsBad argv k → argument argv k ≡ none
unfolding strcpy
argument-bad argv k (inl absent) = rw absent refl
argument-bad argv k (inr (t, at, long, text)) =
    let out : ltb (length t) 64 ≡ false = ground arith in rw at (rw out refl)

fits-strcpy : (t : Text) → length t < 64 → strcpy 64 t ≡ some t
unfolding strcpy
fits-strcpy t fits = rw (lt→ltb (length t) 64 fits) refl

read-bad : (argv : List Text) (k : ℕ) → 1 ≤ k → k ≤ 6 → IsBad argv k → read_parameters argv ≡ none
unfolding read_parameters
read-bad argv zero low high bad = absurd (omega arith)
read-bad argv (suc zero) low high bad = rw (argument-bad argv 1 bad) refl
read-bad argv (suc (suc zero)) low high bad =
    bind-none (argument argv 1) _ λ a. rw (argument-bad argv 2 bad) refl
read-bad argv (suc (suc (suc zero))) low high bad =
    bind-none (argument argv 1) _
      λ a. bind-none (argument argv 2) _ λ b. rw (argument-bad argv 3 bad) refl
read-bad argv (suc (suc (suc (suc zero)))) low high bad = bind-none (argument argv 1) _ λ a.
    bind-none (argument argv 2) _
      λ b. bind-none (argument argv 3) _ λ c. rw (argument-bad argv 4 bad) refl
read-bad argv (suc (suc (suc (suc (suc zero))))) low high bad = bind-none (argument argv 1) _ λ a.
    bind-none (argument argv 2) _ λ b.
      bind-none (argument argv 3) _
        λ c. bind-none (argument argv 4) _ λ d. rw (argument-bad argv 5 bad) refl
read-bad argv (suc (suc (suc (suc (suc (suc zero)))))) low high (inl absent) =
    bind-none (argument argv 1) _ λ a. bind-none (argument argv 2) _ λ b.
      bind-none (argument argv 3) _
        λ c. bind-none (argument argv 4) _ λ d. bind-none (argument argv 5) _ λ e. rw absent refl
read-bad argv (suc (suc (suc (suc (suc (suc zero)))))) low high (inr (t, at, long, text)) =
    absurd (omega arith)
read-bad argv (suc (suc (suc (suc (suc (suc (suc k))))))) low high bad = absurd (omega arith)

module _ {F : Floats} {D : Mysql} {G : Engine F} (create : Configuration F → G.State) where
  -- The program crashes before it creates its thread when one of its six arguments is missing, since
  -- it reads all six without a look at their number, or when one of the first five has 64
  -- bytes or more.
  pub main-bad_argument :
      (fuel count : ℕ) (server : D.Server) (argv : List Text) (k : ℕ)
      → 1 ≤ k
      → k ≤ 6
      → IsBad argv k
      → main {D = D} {G = G} create fuel count server argv ≡ crashed_before
  unfolding main
  main-bad_argument fuel count server argv k low high bad =
      ap (run_thread create fuel count server) (read-bad argv k low high bad)

  -- With six arguments, the first five of less than 64 bytes and the sixth a number that an `int`
  -- holds, the program gets to its thread, which runs on a new view that has these arguments, each
  -- in its place. Further arguments are ignored.
  pub main-thread :
      (fuel count : ℕ) (server : D.Server) (p : Parameters) (name number : Text) (more : List Text)
      → FitsParameters p
      → atoi number ≡ some p.vehicle_number
      → main {D = D} {G = G} create fuel count server (
          name ∷ p.delivery_date ∷ p.meridiem_type ∷ p.meridiem_flag ∷ p.location_id ∷ p.vehicle_no
          ∷ number ∷ more)
        ≡ thread (t_function fuel (new_view p count (create (configuration F 100_000)) server))
  unfolding main read_parameters
  main-thread fuel count server p name number more fits is_number =
      rw
        (
          fits-strcpy p.delivery_date fits.delivery_date,
          fits-strcpy p.meridiem_type fits.meridiem_type,
          fits-strcpy p.meridiem_flag fits.meridiem_flag,
          fits-strcpy p.location_id fits.location_id,
          fits-strcpy p.vehicle_no fits.vehicle_no,
          is_number,
        )
        refl
