-- ===== src/Program/Unreachable.antt =====
-- `t_function` (TSP/TSP.cpp) when the steps fail: the MySQL server cannot be reached.
use tsp_simple.Base.{ℕ, ◌<◌, ◌≡◌, refl, ap, ◌∙◌, false, some, List, [], ◌∷◌, ◌++◌}
use tsp_simple.External.{Floats, Mysql, Engine, Notice, statistic_update, new_best_chromosome}
use tsp_simple.View.{View, returned, outcome, connect}
use tsp_simple.View.Load.{count_up, on_load_delivery_data, load_body}
use tsp_simple.View.Setting.{set_city, on_set_delivery_data}
use tsp_simple.View.Search.{observe_all, start_search, smart_init}
use tsp_simple.View.Search.Waiting.{notices_of, IsFirstStop, waited, on_search_delivery_data_lem}
use tsp_simple.View.Relocation.{on_relocation_delivery_data, relocation_body, relocate}
use tsp_simple.View.Insert.{on_vehicle_data_insert, insert_body}
use tsp_simple.Program.{
  load_step, set_step, search_step, relocation_step, insert_step, complete, error_code, t_function,
}

module _ {F : Floats} {D : Mysql} {G : Engine F} where
  -- Without a connection the first step returns 100, and the last one 0 as if it had written the
  -- route. Neither sends a statement or changes anything.
  connect-failed :
      (v : View F D G)
      → D.connect v.server ≡ false
      → (on_load_delivery_data v ≡ (returned 100, v)) × (on_vehicle_data_insert v ≡ (returned 0, v))
  unfolding on_load_delivery_data on_vehicle_data_insert load_body insert_body connect
  connect-failed v e = (rw e refl, rw e refl)

  observe_all-server :
      (xs : List (Notice F)) (v : View F D G) → (observe_all xs v).server ≡ v.server
  unfolding observe_all
  observe_all-server [] v = refl
  observe_all-server (statistic_update g ∷ xs) v = observe_all-server xs _
  observe_all-server (new_best_chromosome c f ∷ xs) v = observe_all-server xs _

  waited-server : (k : ℕ) (v : View F D G) → (waited k (start_search 70_000 v)).server ≡ v.server
  unfolding waited start_search smart_init
  waited-server k v = observe_all-server (notices_of G k (start_search 70_000 v).engine) _

  set_nothing : (v : View F D G) → v.count_order_data ≡ 0 → on_set_delivery_data v ≡ (returned 0, v)
  unfolding on_set_delivery_data count_up
  set_nothing v e = ap (λ n. let (r, w) = count_up n 0 set_city v in (outcome r, w)) e

  relocate_nothing :
      (v : View F D G)
      → v.best_chromosome ≡ []
      → (w : View F D G) × (on_relocation_delivery_data v ≡ (returned 0, w)) × (w.server ≡ v.server)
  unfolding on_relocation_delivery_data relocation_body
  relocate_nothing v e =
      let r : relocate v.cities.heap v.best_chromosome ≡ some [] = ap (relocate v.cities.heap) e in
      let w = record v {
        best_relocation = [];
        best_chromosome_copy = v.best_chromosome_copy ++ [];
      } in
      (w, rw r refl, refl)

  -- When the server cannot be reached, the thread reports the error of the first step and yet runs
  -- the others, and says in the end that the route was written: on a view without orders, if the
  -- search stops after `k` sleeps, within the bound, and announced no chromosome.
  pub t_function-unreachable :
      (k fuel : ℕ) (v : View F D G)
      → D.connect v.server ≡ false
      → v.count_order_data ≡ 0
      → k < fuel
      → IsFirstStop G k (start_search 70_000 v).engine
      → (waited k (start_search 70_000 v)).best_chromosome ≡ []
      → (w : View F D G) × (t_function fuel v
          ≡ some (record {
            printed =
                error_code load_step 100
                ∷ complete set_step
                ∷ complete search_step
                ∷ complete relocation_step
                ∷ complete insert_step
                ∷ [];
            view = w;
          }))
  unfolding t_function
  t_function-unreachable k fuel v down none_loaded lt stop quiet =
      let (load, i) = connect-failed v down in
      let found = on_search_delivery_data_lem k fuel v lt stop in
      let searched = waited k (start_search 70_000 v) in
      let (w, relocated, server) = relocate_nothing searched quiet in
      let down' : D.connect w.server ≡ false = ap D.connect (server ∙ waited-server k v) ∙ down in
      let (j, insert) = connect-failed w down' in
      (w, rw load (rw (set_nothing v none_loaded) (rw found (rw relocated (rw insert refl)))))
