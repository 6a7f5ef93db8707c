-- ===== src/Program/Complete.antt =====
-- `t_function` (TSP/TSP.cpp) as a whole, on a server that answers and with a search that ends.
use tsp_simple.Base.{ℕ, ◌≤◌, ◌≡◌, some, List, [], ◌∷◌, ◌++◌, Perm, length}
use tsp_simple.Text.{Text}
use tsp_simple.City.{Entries, ChromosomeCopy, VectorOrderData, get_cities, pointer_distance}
use tsp_simple.External.{Floats, Mysql, Engine, Random}
use tsp_simple.Chromosome.Population.{Bred}
use tsp_simple.View.{View}
use tsp_simple.View.Insert.Log.{IsBodyLog}
use tsp_simple.View.Load.{on_load_delivery_data}
use tsp_simple.View.Search.{start_search}
use tsp_simple.View.Search.Announced.{AnnouncesOnly, announced}
use tsp_simple.View.Search.Waiting.{notices_of, IsFirstStop}
use tsp_simple.View.Setting.Stops.{stop, stops}
use tsp_simple.Program.{
  complete, load_step, set_step, search_step, relocation_step, insert_step, Report, t_function,
}

-- The lines of a thread all of whose steps returned 0.
abbrev pub all_complete : List Report
all_complete =
    complete load_step
    ∷ complete set_step
    ∷ complete search_step
    ∷ complete relocation_step
    ∷ complete insert_step
    ∷ []

module _ {F : Floats} {D : Mysql} {G : Engine F} where
  -- The engine is seen stopped after `k` sleeps from the view `u` on, and has announced chromosomes
  -- by then, all of them such as the operators make from the cities.
  pub record Searches (R : Random) (order : Entries → Entries) (k : ℕ) (u : View F D G)
      : Type 0 where
    pub halted : IsFirstStop G k (start_search 70_000 u).engine
    pub told : 1 ≤ announced (notices_of G k (start_search 70_000 u).engine)
    pub bred :
        AnnouncesOnly
          (Bred R F
            (pointer_distance u.vector_mutual_data u.cities.heap)
            (get_cities order u.cities))
          (notices_of G k (start_search 70_000 u).engine)

  -- What the thread has done.
  pub record IsDelivered (fuel n : ℕ) (v : View F D G) : Type 0 where
    pub end : View F D G
    pub first : VectorOrderData
    pub later : List VectorOrderData
    pub rest : List (ChromosomeCopy F)
    pub before : List Text
    pub log : List Text
    pub run : t_function fuel v ≡ some (record { printed = all_complete; view = end })
    pub orders : (on_load_delivery_data v).1.vector_order_data ≡ first ∷ later
    pub count : length (first ∷ later) ≡ n
    pub stops_once : Perm rest (stops 2 later)
    pub sent : end.statements ≡ before ++ log
    pub written : IsBodyLog v.parameters (stop 1 first ∷ rest) log
