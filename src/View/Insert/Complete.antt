-- ===== src/View/Insert/Complete.antt =====
-- `OnVehicleDataInsert` (TSP/TspView.cpp) on a server that answers: what it returns, and what it has
-- sent by then.
use tsp_simple.Base.{ℕ, ◌≡◌, refl, ap, some, List, ◌++◌, get_elem?}
use tsp_simple.Text.{Text}
use tsp_simple.City.{ChromosomeCopy}
use tsp_simple.External.{Floats, Mysql, Engine}
use tsp_simple.View.{View, Parameters, returned, outcome}
use tsp_simple.View.Ends.{IsServing}
use tsp_simple.View.Insert.{on_vehicle_data_insert}
use tsp_simple.View.Insert.Answers.{IsAsked, IsSchema}
use tsp_simple.View.Insert.Ending.{insert_body-Ends}
use tsp_simple.View.Buffers.{FitsParameters}
use tsp_simple.View.Insert.Fits.{FitsStop}
use tsp_simple.View.Insert.Log.{IsBodyLog}
use tsp_simple.View.Insert.Logged.{insert_body-IsBodyLog}

-- For a view with the parameters `p` and the route.
pub insertion_complete :
    {F : Floats} {D : Mysql} {G : Engine F} (v : View F D G) (p : Parameters)
    (route : List (ChromosomeCopy F)) (live : D.Server → Type 0)
    → v.parameters ≡ p
    → v.best_chromosome_copy ≡ route
    → IsServing D live IsAsked (IsSchema p route)
    → live v.server
    → FitsParameters p
    → ((i : ℕ) (c : ChromosomeCopy F) → get_elem? route i ≡ some c → FitsStop c)
    → (w : View F D G) × (log : List Text) × (on_vehicle_data_insert v ≡ (returned 0, w))
      × (w.statements ≡ v.statements ++ log)
      × IsBodyLog p route log
unfolding on_vehicle_data_insert
insertion_complete v p route live e e' serving serves fits stops_fit =
    let (done, w, run, h, k) =
      (insert_body-Ends serving fits stops_fit).run v
        (record { parameters = e; route_is = e'; serves = serves }) in
    let (log, sent, body) = insert_body-IsBodyLog v w run in
    (w, log, ap (λ (r, t). (outcome r, t)) run, sent, rw (e, e') at body)

-- The step that writes the route comes to its end and returns 0, without a buffer that overflows or
-- a NULL that is read, and by then it has sent the statements of the whole route behind those sent
-- before. The server is assumed to answer the statements of the step, with the rows that the database keeps for
-- the route; the arguments of the program to fit into the arrays that `main` copies them to, and the
-- data of each stop into those of the orders.
pub on_vehicle_data_insert_complete :
    {F : Floats} {D : Mysql} {G : Engine F} (v : View F D G) (live : D.Server → Type 0)
    → IsServing D live IsAsked (IsSchema v.parameters v.best_chromosome_copy)
    → live v.server
    → FitsParameters v.parameters
    → ((i : ℕ) (c : ChromosomeCopy F) → get_elem? v.best_chromosome_copy i ≡ some c → FitsStop c)
    → (w : View F D G) × (log : List Text) × (on_vehicle_data_insert v ≡ (returned 0, w))
      × (w.statements ≡ v.statements ++ log)
      × IsBodyLog v.parameters v.best_chromosome_copy log
on_vehicle_data_insert_complete v live =
    insertion_complete v v.parameters v.best_chromosome_copy live refl refl
