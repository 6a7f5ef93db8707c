-- ===== src/View/Load.antt =====
-- `TSPView::OnLoadDeliveryData`, step 1 (TSP/TspView.cpp): the orders of the day, their amounts,
-- and the table of the distances between any two of them.
mod Rows
pub mod Vectors
pub mod Table
pub mod Orders
pub mod Loading
pub mod Answers
pub mod Fits
pub mod Fetching
pub mod Storing
pub mod Filling
pub mod Complete
unfoldable pub use Rows.*
use Prim.Native.String.{◌++◌ as ◌<>◌, String}
use tsp_simple.Base.{
  ℕ, zero, suc, ◌+◌, ◌-◌, Option, none, some, List, [], ◌∷◌, ◌++◌, length, get_elem?, set,
  replicate, ltb, if◌then◌else◌,
}
use tsp_simple.Base.Int.{ℤ, pos, negsuc}
use tsp_simple.Text.{Text, Arg, str, is_empty, strcpy, atoi}
use tsp_simple.City.{VectorOrderData, VectorMutualData}
use tsp_simple.External.{Floats, Mysql, Engine, Row}
use tsp_simple.View.{
  View, Parameters, Action, ◌>>=◌, ◌>>◌, pure, get, modify, need, Outcome, outcome, resize, column,
  fetch_row, connect, query_text,
}

module _ {F : Floats} {D : Mysql} {G : Engine F} where
  -- The count, from the first query.
  unfoldable pub ask_count : View F D G → Action (View F D G) (List Row)
  unfolding query_text
  ask_count v =
      query_text 100 2048 ("SELECT COUNT(*)" <> allocated_orders) (parameter_args v.parameters)

  unfoldable pub fetch_count : View F D G → Action (View F D G) ℕ
  unfolding ask_count column atoi
  fetch_count v = do
    rows ← ask_count v
    text ← need (column (fetch_row rows) 0)
    count ← need (atoi text)
    need (to_size count)

  -- The vectors of the size of the count.
  unfoldable pub size_vectors : ℕ → Action (View F D G) (Unit {0})
  size_vectors n = modify (λ w. record w {
    count_order_data = n;
    vehicle_pay_index = replicate n (pos 0);
    vector_order_data = resize n no_order w.vector_order_data;
  })

  unfoldable pub load_count : Action (View F D G) (Unit {0})
  unfolding fetch_count size_vectors
  load_count = do v ← get; n ← fetch_count v; size_vectors n

  -- An assignment to `_vectorOrderData[ i ]`.
  unfoldable pub store_order : ℕ → VectorOrderData → View F D G → Action (View F D G) (Unit {0})
  store_order i order w = do
    orders ← need (assign w.vector_order_data i order)
    modify (λ u. record u { vector_order_data = orders })

  -- A failure of this query makes the step return 0.
  unfoldable pub ask_order : Text → Text → Text → Parameters → Action (View F D G) (List Row)
  unfolding query_text
  ask_order accno guest_id is_shop p =
      query_text 0 2048 order_format (order_args accno guest_id is_shop p)

  unfoldable pub fetch_order : Row → View F D G → Action (View F D G) VectorOrderData
  unfolding ask_order column order_of_row
  fetch_order row v = do
    accno ← need (column (some row) 1)
    guest_id ← need (column (some row) 6)
    is_shop ← need (column (some row) 28)
    found ← ask_order accno guest_id is_shop v.parameters
    order_of_row (fetch_row found)

  -- One round of `while( rowOrderData = mysql_fetch_row(...) )`
  unfoldable pub load_order : Row → ℕ → Action (View F D G) (Unit {0})
  unfolding fetch_order store_order
  load_order row i = do v ← get; order ← fetch_order row v; w ← get; store_order i order w

  unfoldable pub load_orders : List Row → ℕ → Action (View F D G) (Unit {0})
  unfolding load_order
  load_orders [] i = pure tt
  load_orders (row ∷ rest) i = do load_order row i; load_orders rest (i + 1)

  unfoldable pub ask_pay : VectorOrderData → Parameters → Action (View F D G) (List Row)
  unfolding query_text
  ask_pay order p = query_text 100 2048 pay_format (pay_args order p)

  unfoldable pub fetch_pay : VectorOrderData → View F D G → Action (View F D G) Text
  unfolding ask_pay column strcpy
  fetch_pay order v = do sums ← ask_pay order v.parameters; need (copy_column 32 (fetch_row sums) 0)

  -- The amount of an order that shares its address with others is their sum.
  unfoldable pub load_shared_pay : ℕ → VectorOrderData → Action (View F D G) (Unit {0})
  unfolding fetch_pay store_order
  load_shared_pay i order = do
    v ← get
    pay ← fetch_pay order v
    w ← get
    store_order i (record order { pay = pay }) w

  unfoldable pub pay_of : ℕ → View F D G → Action (View F D G) (Unit {0})
  unfolding load_shared_pay
  pay_of i v = do
    order ← need (get_elem? v.vector_order_data i)
    if is_empty order.accno_duple_juso then pure tt else load_shared_pay i order

  unfoldable pub load_pay : ℕ → Action (View F D G) (Unit {0})
  unfolding pay_of
  load_pay i = do v ← get; pay_of i v

  -- `for (int i = from; i < from + rounds; i++)`
  unfoldable pub count_up :
      ℕ → ℕ → (ℕ → Action (View F D G) (Unit {0})) → Action (View F D G) (Unit {0})
  count_up zero from body = pure tt
  count_up (suc rounds) from body = body from >>= λ _. count_up rounds (from + 1) body

  -- The distance from order `i` to order `j`.
  unfoldable pub ask_mutual : VectorOrderData → VectorOrderData → Action (View F D G) (List Row)
  unfolding query_text
  ask_mutual a b = query_text 100 2048 distance_format (distance_args a b)

  unfoldable pub fetch_mutual : ℕ → ℕ → View F D G → Action (View F D G) VectorMutualData
  unfolding ask_mutual mutual_of_row
  fetch_mutual i j v = do
    a ← need (get_elem? v.vector_order_data i)
    b ← need (get_elem? v.vector_order_data j)
    found ← ask_mutual a b
    mutual_of_row (fetch_row found)

  -- An assignment to `_vectorMutualData[ i ][ j ]`.
  unfoldable pub store_mutual :
      ℕ → ℕ → VectorMutualData → View F D G → Action (View F D G) (Unit {0})
  store_mutual i j cell w = do
    row ← need (get_elem? w.vector_mutual_data i)
    row' ← need (assign row j cell)
    table ← need (assign w.vector_mutual_data i row')
    modify (λ u. record u { vector_mutual_data = table })

  unfoldable pub load_mutual : ℕ → ℕ → Action (View F D G) (Unit {0})
  unfolding fetch_mutual store_mutual
  load_mutual i j = do v ← get; cell ← fetch_mutual i j v; w ← get; store_mutual i j cell w

  -- `push_back` of an empty row, and `resize` of the row `i`.
  unfoldable pub add_row : ℕ → View F D G → Action (View F D G) (Unit {0})
  add_row i v = do
    let pushed = v.vector_mutual_data ++ [] ∷ []
    row ← need (get_elem? pushed i)
    table ← need (assign pushed i (resize v.count_order_data no_mutual row))
    modify (λ u. record u { vector_mutual_data = table })

  unfoldable pub load_cells : ℕ → Action (View F D G) (Unit {0})
  unfolding load_mutual count_up
  load_cells i = do v ← get; count_up v.count_order_data 0 (load_mutual i)

  -- The row `i` with its cells.
  unfoldable pub load_mutual_row : ℕ → Action (View F D G) (Unit {0})
  unfolding add_row load_cells
  load_mutual_row i = do v ← get; add_row i v; load_cells i

  unfoldable pub fetch_orders : View F D G → Action (View F D G) (List Row)
  unfolding query_text
  fetch_orders v =
      query_text 100 2048 ("SELECT *       " <> allocated_orders) (parameter_args v.parameters)

  unfoldable pub load_pays : Action (View F D G) (Unit {0})
  unfolding load_pay count_up
  load_pays = do v ← get; count_up (length v.vector_order_data) 0 load_pay

  unfoldable pub load_table : Action (View F D G) (Unit {0})
  unfolding load_mutual_row count_up
  load_table = do v ← get; count_up v.count_order_data 0 load_mutual_row

  -- A connection to the server, in the right character set.
  unfoldable pub open_connection : Action (View F D G) (Unit {0})
  unfolding connect query_text
  open_connection = do connect 100; query_text 100 512 "set names euckr" []; pure tt

  -- What is read once the orders of the vehicle are known.
  unfoldable pub load_details : List Row → Action (View F D G) (Unit {0})
  unfolding open_connection load_orders load_pays load_table
  load_details found = do open_connection; load_orders found 0; load_pays; load_table

  unfoldable pub load_found : Action (View F D G) (Unit {0})
  unfolding fetch_orders load_details
  load_found = do v ← get; found ← fetch_orders v; load_details found

  unfoldable pub load_body : Action (View F D G) (Unit {0})
  unfolding open_connection load_count load_found
  load_body = do open_connection; load_count; load_found

  -- Step 1: the value that it returns, and the view after it.
  unfoldable pub on_load_delivery_data : View F D G → Outcome × View F D G
  unfolding load_body
  on_load_delivery_data v = let (r, w) = load_body v in (outcome r, w)
