-- ===== src/View/Load/Loading.antt =====
-- `OnLoadDeliveryData` (TSP/TspView.cpp) from the count to the table.
use tsp_simple.View.Load.Table.{IsTable, IsTable-query_text, IsTable-sent, load_table-Leads}
use tsp_simple.View.Load.Vectors.{length-resize}
use tsp_simple.View.Load.Orders.{load_orders-Keeps, load_pays-Keeps}
use tsp_simple.Base.{ℕ, ◌≡◌, refl, sym, ap, ◌∙◌, none, List, [], length, get_elem?}
use tsp_simple.City.{Cities}
use tsp_simple.External.{Floats, Mysql, Engine, Row}
use Prim.Native.String.{◌++◌ as ◌<>◌}
use tsp_simple.Text.{atoi, Text}
use tsp_simple.View.{View, done, ◌>>=◌, column, fetch_row}
use tsp_simple.View.Runs.{
  Leads-one, Meets-done, Leads-any, need-Keeps, connect-Keeps, query_text-Keeps, Leads-get,
  Leads-at, Meets, Leads, Keeps, Leads-pure, Leads-then, Leads-need,
}
use tsp_simple.View.Load.{
  size_vectors, open_connection, load_details, load_found, no_order, ask_count, fetch_count,
  load_count, fetch_orders, load_body, allocated_orders, parameter_args, to_size,
}

module _ {F : Floats} {D : Mysql} {G : Engine F} (s : Cities F) where
  IsEmptied : View F D G → Type 0
  IsEmptied v = (v.vector_mutual_data ≡ []) × (v.cities ≡ s)

  IsEmptied-sent :
      (v : View F D G) (e : D.Server) (sent : List Text)
      → IsEmptied v
      → IsEmptied (record v { server = e; statements = sent })
  unfolding IsEmptied
  IsEmptied-sent v e sent h = h

  ask_count-Keeps : (v : View F D G) → Keeps IsEmptied (ask_count v)
  unfolding ask_count IsEmptied
  ask_count-Keeps v =
      query_text-Keeps (λ u e sent h. h) 100 2048 ("SELECT COUNT(*)" <> allocated_orders)
        (parameter_args v.parameters)

  fetch_count-Keeps : (v : View F D G) → Keeps IsEmptied (fetch_count v)
  unfolding fetch_count
  fetch_count-Keeps v = Leads-then (ask_count-Keeps v) λ found.
      Leads-need (column (fetch_row found) 0) _
        λ text _. Leads-need (atoi text) _ λ count _. need-Keeps (to_size count)

  size_vectors-Leads :
      (n : ℕ) → Leads IsEmptied (size_vectors {F = F} {D = D} {G = G} n) (λ a. IsTable s n 0)
  unfolding size_vectors Meets IsEmptied
  size_vectors-Leads n = record {
    run = λ u h. record {
      cities = h.1;
      count = refl;
      orders = length-resize n no_order u.vector_order_data;
      height = ap length h.0;
      width = λ i row at.
          let none_there : get_elem? u.vector_mutual_data i ≡ none = ap (λ l. get_elem? l i) h.0 in
          cc;
    };
  }

  load_count-Leads :
      Leads IsEmptied (load_count {F = F} {D = D} {G = G}) (λ a w. (n : ℕ) × IsTable s n 0 w)
  unfolding load_count
  load_count-Leads =
      Leads-get (λ v. fetch_count v >>= size_vectors)
        λ v h. Leads-then (Leads-at h (fetch_count-Keeps v)) λ n. Leads-one n (size_vectors-Leads n)

  fetch_orders-Keeps : (n k : ℕ) (v : View F D G) → Keeps (IsTable s n k) (fetch_orders v)
  unfolding fetch_orders
  fetch_orders-Keeps n k v =
      IsTable-query_text s n k 100 2048 ("SELECT *       " <> allocated_orders)
        (parameter_args v.parameters)

  open_connection-Keeps :
      {I : View F D G → Type 0}
      → ((v : View F D G) (e : D.Server) (sent : List Text)
          → I v
          → I (record v { server = e; statements = sent }))
      → Keeps I open_connection
  unfolding open_connection
  open_connection-Keeps kept =
      Leads-then (connect-Keeps 100)
        λ a. Leads-then (query_text-Keeps kept 100 512 "set names euckr" []) λ b. Leads-pure tt

  load_details-Leads :
      (n : ℕ) (found : List Row)
      → Leads (IsTable s n 0) (load_details {F = F} {D = D} {G = G} found) (λ a. IsTable s n n)
  unfolding load_details
  load_details-Leads n found = Leads-then (open_connection-Keeps (IsTable-sent s n 0)) λ a.
      Leads-then (load_orders-Keeps s n 0 found 0)
        λ b. Leads-then (load_pays-Keeps s n 0) λ c. load_table-Leads s n

  load_found-Leads :
      (n : ℕ) → Leads (IsTable s n 0) (load_found {F = F} {D = D} {G = G}) (λ a. IsTable s n n)
  unfolding load_found
  load_found-Leads n =
      Leads-get (λ v. fetch_orders v >>= load_details)
        λ v h. Leads-then (Leads-at h (fetch_orders-Keeps n 0 v)) (load_details-Leads n)

  load_body-Leads :
      Leads IsEmptied (load_body {F = F} {D = D} {G = G}) (λ a w. (n : ℕ) × IsTable s n n w)
  unfolding load_body
  load_body-Leads =
      Leads-then (open_connection-Keeps IsEmptied-sent)
        λ a. Leads-then load_count-Leads λ b. Leads-any load_found-Leads

-- When `OnLoadDeliveryData` comes to its end, without an early return, on a view whose table of
-- distances was empty, there are as many orders as were counted, the table is square, with a row
-- for each order and an entry for each order in it, and the store of cities is as before.
pub load_body-IsTable :
    {F : Floats} {D : Mysql} {G : Engine F} (v w : View F D G)
    → v.vector_mutual_data ≡ []
    → load_body v ≡ (done tt, w)
    → IsTable v.cities w.count_order_data w.count_order_data w
unfolding IsEmptied Meets
load_body-IsTable v w h e =
    let after : Unit {0} → View _ _ _ → Type 0 = λ a u. (n : ℕ) × IsTable v.cities n n u in
    let (n, t) =
      Meets-done after (load_body v) tt w e ((load_body-Leads v.cities).run v (h, refl)) in
    record {
      cities = t.cities;
      count = refl;
      orders = t.orders ∙ sym t.count;
      height = t.height ∙ sym t.count;
      width = λ i row at. t.width i row at ∙ sym t.count;
    }
