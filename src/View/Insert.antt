-- ===== src/View/Insert.antt =====
-- `TSPView::OnVehicleDataInsert`, step 8 (TSP/TspView.cpp): the route, written leg by leg to the
-- table vehicleAllocateResult, which it replaces.
mod Statements
pub mod Texts
pub mod Fits
pub mod Answers
pub mod Legs
pub mod Ending
pub mod Complete
pub mod Stops
pub mod Sends
pub mod Log
pub mod Rows
pub mod Logged
unfoldable pub use Statements.*
use Prim.Native.String.{String}
use tsp_simple.Base.{ℕ, ◌+◌, ◌-◌, some, List, [], ◌∷◌, ◌==◌, if◌then◌else◌, length, get_elem?}
use tsp_simple.Base.Int.{ℤ, pos}
use tsp_simple.Text.{Text, Arg, str, int, bytes, is_empty, to_narrow, strcpy, atoi}
use tsp_simple.City.{ChromosomeCopy}
use tsp_simple.External.{Floats, Mysql, Engine, Row}
use tsp_simple.View.{
  View, Parameters, Action, ◌>>=◌, ◌>>◌, pure, get, need, Outcome, outcome, column, fetch_row,
  connect, query_text,
}
use tsp_simple.View.Load.{copy_column, count_up}

module _ {F : Floats} {D : Mysql} {G : Engine F} where
  unfoldable pub insert_leg :
      ℕ → ChromosomeCopy F → Target → ℤ → Text → Action (View F D G) (Unit {0})
  unfolding query_text insert_args
  insert_leg j from to distance json = do
    v ← get
    query_text 800 404_800 insert_format (insert_args v.parameters j from to distance json)
    pure tt

  -- A customer with an address of their own: the name and the address come from the order.
  unfoldable pub insert_single :
      ℕ → ChromosomeCopy F → ChromosomeCopy F → ℤ → Text → Action (View F D G) (Unit {0})
  unfolding query_text insert_leg target_of_copy column
  insert_single j from next distance json = do
    v ← get
    let p = v.parameters
    let c = target_of_copy next
    found ← query_text 800 2048 order_format (order_args p c)
    name ← need (column (fetch_row found) 0)
    juso ← need (column (fetch_row found) 1)
    insert_leg j from (record c { name = name; juso = juso }) distance json

  -- The target that a row of vehicleGuestOrderData describes.
  unfoldable pub target_of_row : Row → Action (View F D G) Target
  unfolding column
  target_of_row row = do
    accno ← need (column (some row) 1)
    name ← need (column (some row) 6)
    tel ← need (column (some row) 7)
    pay ← need (column (some row) 10)
    id ← need (column (some row) 5)
    juso_sub_id ← need (column (some row) 8)
    lat ← need (column (some row) 11)
    lon ← need (column (some row) 12)
    juso ← need (column (some row) 9)
    is_shop ← need (column (some row) 14)
    accno_duple ← need (column (some row) 17)
    pure (record {
      accno = accno;
      name = name;
      tel = tel;
      pay = pay;
      id = id;
      juso_sub_id = juso_sub_id;
      lat = lat;
      lon = lon;
      juso = juso;
      is_shop = is_shop;
      accno_duple = accno_duple;
    })

  unfoldable pub insert_rows :
      ℕ → ChromosomeCopy F → ℤ → Text → List Row → Action (View F D G) (Unit {0})
  unfolding target_of_row insert_leg
  insert_rows j from distance json [] = pure tt
  insert_rows j from distance json (row ∷ rest) = do
    to ← target_of_row row
    insert_leg j from to distance json
    insert_rows j from distance json rest

  -- Customers that share an address: a row for each of their orders.
  unfoldable pub insert_shared :
      ℕ → ChromosomeCopy F → ChromosomeCopy F → ℤ → Text → Action (View F D G) (Unit {0})
  unfolding query_text connect insert_rows shared_args
  insert_shared j from next distance json = do
    v ← get
    let p = v.parameters
    found ← query_text 800 2048 shared_format (shared_args p next)
    connect 800
    query_text 100 512 "set names euckr" []
    insert_rows j from distance json found

  unfoldable pub insert_next :
      ℕ → ChromosomeCopy F → ChromosomeCopy F → ℤ → Text → Action (View F D G) (Unit {0})
  unfolding insert_single insert_shared
  insert_next j from next distance json =
      if is_empty next.details.accno_duple
      then insert_single j from next distance json
      else insert_shared j from next distance json

  -- One round of the loop over the route: the distance of the leg, and its rows.
  unfoldable pub insert_round : ℕ → Action (View F D G) (Unit {0})
  unfolding query_text insert_leg insert_next target_of_copy leg_end column atoi strcpy mutual_args
  insert_round j = do
    v ← get
    let route = v.best_chromosome_copy
    from ← need (get_elem? route j)
    next ← need (get_elem? route (leg_end (length route) j))
    found ← query_text 800 2048 mutual_format (mutual_args from next)
    text ← need (column (fetch_row found) 9)
    distance ← need (atoi text)
    json ← need (copy_column 202_400 (fetch_row found) 12)
    if j == length route - 1
        then insert_leg j from (target_of_copy next) distance json
        else insert_next j from next distance json

  -- Rows with a bad address are numbered behind the route.
  unfoldable pub number_rows : ℕ → List Row → Action (View F D G) (Unit {0})
  unfolding query_text column
  number_rows index [] = pure tt
  number_rows index (row ∷ rest) = do
    seq ← need (column (some row) 0)
    query_text 800 2048 update_format (int (pos index) ∷ str seq ∷ [])
    number_rows (index + 1) rest

  unfoldable pub insert_body : Action (View F D G) (Unit {0})
  unfolding connect query_text insert_round number_rows count_up
  insert_body = do
    connect 0
    query_text 0 512 "set names euckr" []
    v ← get
    let p = v.parameters
    query_text 800 1024 delete_format (day_args p)
    count_up (length v.best_chromosome_copy) 0 insert_round
    bad ← query_text 800 2048 bad_format (day_args p)
    connect 800
    query_text 100 512 "set names euckr" []
    number_rows (length v.best_chromosome_copy) bad

  -- Step 8.
  unfoldable pub on_vehicle_data_insert : View F D G → Outcome × View F D G
  unfolding insert_body
  on_vehicle_data_insert v = let (r, w) = insert_body v in (outcome r, w)
