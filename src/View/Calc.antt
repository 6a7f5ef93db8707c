-- ===== src/View/Calc.antt =====
-- `TSPView::OnCalcDeliveryData`, step 5 (TSP/TspView.cpp): the amounts of the stops of the route,
-- and its division among the vehicles. `t_function` has this step commented out.
pub mod Recall
pub mod Answers
pub mod Amounts
pub mod Counting
pub mod Complete
use Prim.Native.String.{String}
use tsp_simple.Base.{
  ℕ, zero, suc, ◌+◌, if◌then◌else◌, Bool, true, false, Option, none, some, List, [], ◌∷◌, ◌++◌,
  length, get_elem?,
}
use tsp_simple.Base.Int.{ℤ, pos, negsuc}
use tsp_simple.Text.{Text, Arg, str, is_empty, to_narrow, atoi}
use tsp_simple.City.{ChromosomeCopy}
use tsp_simple.External.{Floats, Mysql, Engine, Row}
use tsp_simple.View.{
  View, Parameters, Action, Exit, done, leave, fault, ◌>>=◌, ◌>>◌, pure, get, modify, need, Outcome,
  returned, crashed, column, fetch_row, connect, query_text,
}
use tsp_simple.View.Load.{assign}
use tsp_simple.View.Balance.{Balanced, add_int, div_int, nine_tenths, balance}

abbrev pub all_pays_format : String
all_pays_format =
    "SELECT SUM(ve_pay) FROM vehicleGuestOrderData WHERE 1=1 AND ve_deliveryDate='%s' AND ve_meridiemType='%s' AND ve_meridiemFlag='%s' AND ve_locationId='%s' AND ve_isJuso = 'Y'"

abbrev pub single_pay_format : String
single_pay_format =
    "SELECT SUM(ve_pay) AS paySum FROM vehicleGuestOrderData WHERE 1=1 AND ve_deliveryDate='%s' AND ve_meridiemType='%s' AND ve_meridiemFlag='%s' AND ve_locationId='%s' AND ve_accno='%s' AND ve_isShop='%s' AND ve_isJuso = 'Y'"

abbrev pub shared_pay_format : String
shared_pay_format =
    "SELECT SUM(ve_pay) AS paySum FROM vehicleGuestOrderData WHERE 1=1 AND ve_deliveryDate='%s' AND ve_meridiemType='%s' AND ve_meridiemFlag='%s' AND ve_locationId='%s' AND ve_accnoDupleJuso='%s' AND ve_isJuso = 'Y'"

abbrev pub day_args : Parameters → List Arg
day_args p =
    str p.delivery_date ∷ str p.meridiem_type ∷ str p.meridiem_flag ∷ str p.location_id ∷ []

abbrev pub single_pay_args : {F : Floats} → ChromosomeCopy F → Parameters → List Arg
single_pay_args c p =
    day_args p ++ str (to_narrow c.details.accno) ∷ str (to_narrow c.details.is_shop) ∷ []

-- The format ignores the last one.
abbrev pub shared_pay_args : {F : Floats} → ChromosomeCopy F → Parameters → List Arg
shared_pay_args c p =
    day_args p ++ str (to_narrow c.details.accno_duple) ∷ str (to_narrow c.details.is_shop) ∷ []

module _ {F : Floats} {D : Mysql} {G : Engine F} where
  unfoldable pub ask_single_pay : ChromosomeCopy F → Parameters → Action (View F D G) (List Row)
  unfolding query_text
  ask_single_pay c p = query_text 500 1024 single_pay_format (single_pay_args c p)

  unfoldable pub ask_shared_pay : ChromosomeCopy F → Parameters → Action (View F D G) (List Row)
  unfolding query_text
  ask_shared_pay c p = query_text 500 1024 shared_pay_format (shared_pay_args c p)

  -- The amount of a stop, of one customer or of all that share the address.
  unfoldable pub ask_stop_pay : ChromosomeCopy F → Parameters → Action (View F D G) (List Row)
  unfolding ask_single_pay ask_shared_pay
  ask_stop_pay c p =
      if is_empty c.details.accno_duple then ask_single_pay c p else ask_shared_pay c p

-- `rowOrderData[0]` is read after `mysql_free_result`: `stale` says what stands there then, in
-- the round `i`.
module _ {F : Floats} {D : Mysql} {G : Engine F} (stale : ℕ → View F D G → Option Text) where
  abbrev freed_column : Option Row → ℕ → View F D G → Option Text
  freed_column none i v = none
  freed_column (some row) i v = stale i v

  -- `nVehiclePayIndex[i] = pay`
  unfoldable pub store_pay : ℕ → ℤ → Action (View F D G) (Unit {0})
  store_pay i pay = do
    v ← get
    pays ← need (assign v.vehicle_pay_index i pay)
    modify (λ w. record w { vehicle_pay_index = pays })

  -- A round of the loop over the stops, which returns `nTmpSum`.
  unfoldable pub calc_stop : Option Row → ℕ → ℤ → Action (View F D G) ℤ
  unfolding ask_stop_pay column atoi add_int store_pay
  calc_stop row i total = do
    v ← get
    stop ← need (get_elem? v.best_chromosome_copy i)
    found ← ask_stop_pay stop v.parameters
    text ← need (column (fetch_row found) 0)
    pay ← need (atoi text)
    total' ← need (add_int total pay)
    w ← get
    read ← need (freed_column row i w)
    kept ← need (atoi read)
    store_pay i kept
    pure total'

  unfoldable pub calc_stops : Option Row → ℕ → ℕ → ℤ → Action (View F D G) ℤ
  unfolding calc_stop
  calc_stops row zero i total = pure total
  calc_stops row (suc rounds) i total = do
    total' ← calc_stop row i total
    calc_stops row rounds (i + 1) total'

  -- The division, from the sum of the amounts.
  unfoldable pub divide_route : ℤ → Action (View F D G) Bool
  unfolding div_int nine_tenths add_int balance
  divide_route total = do
    v ← get
    average ← need (div_int total v.parameters.vehicle_number)
    last ← need (add_int v.parameters.vehicle_number (negsuc 0))
    b ← need (
        balance last (length v.best_chromosome_copy) v.vehicle_pay_index 130 (nine_tenths average)
          v.vehicle_flag v.vehicle_pay)
    modify (λ w. record w { vehicle_flag = b.flags; vehicle_pay = b.pays })
    pure b.recall

  -- The step up to where it calls itself; the result says whether it does.
  unfoldable pub calc_body : Action (View F D G) Bool
  unfolding connect query_text calc_stops divide_route
  calc_body = do
    connect 500
    v ← get
    sums ← query_text 500 1024 all_pays_format (day_args v.parameters)
    total ← calc_stops (fetch_row sums) (length v.best_chromosome_copy) 0 (pos 0)
    divide_route total

  -- The value of the inner call is not used.
  abbrev pub after_recall : Option (Outcome × View F D G) → Option (Outcome × View F D G)
  after_recall none = none
  after_recall (some (returned code, v)) = some (returned 0, v)
  after_recall (some (crashed, v)) = some (crashed, v)

  -- What follows a run of the body.
  abbrev pub after_body :
      (View F D G → Option (Outcome × View F D G))
      → Exit Bool × View F D G
      → Option (Outcome × View F D G)
  after_body call (fault, w) = some (crashed, w)
  after_body call (leave code, w) = some (returned code, w)
  after_body call (done false, w) = some (returned 0, w)
  after_body call (done true, w) = after_recall (call w)

  -- Step 5, with `fuel` calls of itself at most. There is no result if these are not enough.
  unfoldable pub on_calc_delivery_data : ℕ → View F D G → Option (Outcome × View F D G)
  unfolding calc_body
  on_calc_delivery_data zero v = none
  on_calc_delivery_data (suc fuel) v = after_body (λ w. on_calc_delivery_data fuel w) (calc_body v)
