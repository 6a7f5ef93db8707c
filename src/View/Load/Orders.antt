-- ===== src/View/Load/Orders.antt =====
-- The loops over the orders in `OnLoadDeliveryData` (TSP/TspView.cpp) leave the table alone.
use tsp_simple.View.Load.Table.{IsTable, IsTable-query_text, Leads-count_up}
use tsp_simple.View.Load.Vectors.{assign_lem}
use tsp_simple.Base.{ℕ, ◌+◌, ◌≡◌, ◌∙◌, Option, some, List, [], ◌∷◌, length, get_elem?}
use tsp_simple.City.{Cities, VectorOrderData}
use tsp_simple.External.{Floats, Mysql, Engine, Row}
use tsp_simple.Text.{Text, is_empty}
use tsp_simple.View.{Parameters, View, ◌>>=◌, column, get, fetch_row}
use tsp_simple.View.Runs.{
  Leads-if, need-Keeps, Leads-get, Leads-at, Meets, Leads, Keeps, Leads-pure, Leads-then,
  Leads-need,
}
use tsp_simple.View.Load.{
  store_order, ask_order, order_format, order_args, fetch_order, load_order, load_orders, ask_pay,
  pay_format, pay_args, fetch_pay, load_shared_pay, load_pay, pay_of, load_pays, order_of_row,
  copy_column, assign, count_up,
}

order_of_row-Keeps : {S : Type 0} {I : S → Type 0} (row : Option Row) → Keeps I (order_of_row row)
unfolding order_of_row
order_of_row-Keeps row = Leads-need (copy_column 32 row 0) _ λ _ _.
    Leads-need (copy_column 32 row 1) _ λ _ _. Leads-need (copy_column 4 row 2) _ λ _ _.
      Leads-need (copy_column 10 row 3) _ λ _ _. Leads-need (copy_column 4 row 4) _ λ _ _.
        Leads-need (copy_column 64 row 5) _ λ _ _. Leads-need (copy_column 100 row 6) _ λ _ _.
          Leads-need (copy_column 100 row 7) _ λ _ _. Leads-need (copy_column 2 row 8) _ λ _ _.
            Leads-need (copy_column 256 row 9) _ λ _ _. Leads-need (copy_column 32 row 10) _ λ _ _.
              Leads-need (copy_column 64 row 11) _ λ _ _.
                Leads-need (copy_column 64 row 12) _ λ _ _.
                  Leads-need (copy_column 2 row 13) _ λ _ _.
                    Leads-need (copy_column 2 row 14) _ λ _ _.
                      Leads-need (copy_column 2 row 15) _ λ _ _.
                        Leads-need (copy_column 32 row 16) _
                          λ _ _. Leads-need (copy_column 100 row 17) _ λ _ _. Leads-pure _

module _ {F : Floats} {D : Mysql} {G : Engine F} (s : Cities F) where
  store_order-Keeps :
      (n k i : ℕ) (order : VectorOrderData) (w : View F D G)
      → IsTable s n k w
      → Leads (λ u. u ≡ w) (store_order i order w) (λ a. IsTable s n k)
  unfolding store_order Meets
  store_order-Keeps n k i order w h = Leads-need (assign w.vector_order_data i order) _ λ orders e.
      let (size, kept) = assign_lem w.vector_order_data i order e in
      record {
        run = λ u same. rw same (record {
          cities = h.cities;
          count = h.count;
          orders = size ∙ h.orders;
          height = h.height;
          width = h.width;
        });
      }

  ask_order-Keeps :
      (n k : ℕ) (a b c : Text) (p : Parameters)
      → Keeps (IsTable s n k) (ask_order {F = F} {D = D} {G = G} a b c p)
  unfolding ask_order
  ask_order-Keeps n k a b c p = IsTable-query_text s n k 0 2048 order_format (order_args a b c p)

  fetch_order-Keeps :
      (n k : ℕ) (row : Row) (v : View F D G) → Keeps (IsTable s n k) (fetch_order row v)
  unfolding fetch_order
  fetch_order-Keeps n k row v = Leads-need (column (some row) 1) _ λ a _.
      Leads-need (column (some row) 6) _ λ b _. Leads-need (column (some row) 28) _ λ c _.
        Leads-then (ask_order-Keeps n k a b c v.parameters)
          λ found. order_of_row-Keeps (fetch_row found)

  load_order-Keeps :
      (n k : ℕ) (row : Row) (i : ℕ)
      → Keeps (IsTable s n k) (load_order {F = F} {D = D} {G = G} row i)
  unfolding load_order
  load_order-Keeps n k row i =
      Leads-get (λ v. fetch_order row v >>= λ o. get >>= λ w. store_order i o w)
        λ v h.
          Leads-then (Leads-at h (fetch_order-Keeps n k row v))
            λ o. Leads-get (store_order i o) (store_order-Keeps n k i o)

  pub load_orders-Keeps :
      (n k : ℕ) (found : List Row) (i : ℕ)
      → Keeps (IsTable s n k) (load_orders {F = F} {D = D} {G = G} found i)
  unfolding load_orders
  load_orders-Keeps n k [] i = Leads-pure _
  load_orders-Keeps n k (row ∷ rest) i =
      Leads-then (load_order-Keeps n k row i) λ a. load_orders-Keeps n k rest (i + 1)

  ask_pay-Keeps :
      (n k : ℕ) (o : VectorOrderData) (p : Parameters)
      → Keeps (IsTable s n k) (ask_pay {F = F} {D = D} {G = G} o p)
  unfolding ask_pay
  ask_pay-Keeps n k o p = IsTable-query_text s n k 100 2048 pay_format (pay_args o p)

  fetch_pay-Keeps :
      (n k : ℕ) (o : VectorOrderData) (v : View F D G) → Keeps (IsTable s n k) (fetch_pay o v)
  unfolding fetch_pay
  fetch_pay-Keeps n k o v =
      Leads-then (ask_pay-Keeps n k o v.parameters)
        λ sums. need-Keeps (copy_column 32 (fetch_row sums) 0)

  load_shared_pay-Keeps :
      (n k i : ℕ) (o : VectorOrderData)
      → Keeps (IsTable s n k) (load_shared_pay {F = F} {D = D} {G = G} i o)
  unfolding load_shared_pay
  load_shared_pay-Keeps n k i o =
      Leads-get
        (λ v. fetch_pay o v >>= λ pay. get >>= λ w. store_order i (record o { pay = pay }) w)
        λ v h. Leads-then (Leads-at h (fetch_pay-Keeps n k o v)) λ pay.
          Leads-get (store_order i (record o { pay = pay }))
            (store_order-Keeps n k i (record o { pay = pay }))

  load_pay-Keeps : (n k i : ℕ) → Keeps (IsTable s n k) (load_pay {F = F} {D = D} {G = G} i)
  unfolding load_pay pay_of
  load_pay-Keeps n k i = Leads-get (pay_of i) λ v h. Leads-at h (
      Leads-need (get_elem? v.vector_order_data i) _ λ o _.
        Leads-if (is_empty o.accno_duple_juso) (Leads-pure _) (load_shared_pay-Keeps n k i o))

  pub load_pays-Keeps : (n k : ℕ) → Keeps (IsTable s n k) (load_pays {F = F} {D = D} {G = G})
  unfolding load_pays
  load_pays-Keeps n k =
      Leads-get (λ v. count_up (length v.vector_order_data) 0 load_pay)
        λ v h. Leads-at h (
          Leads-count_up (λ j. IsTable s n k) load_pay (load_pay-Keeps n k)
            (length v.vector_order_data) 0)
