-- ===== src/View/Load/Fetching.antt =====
-- The queries of `OnLoadDeliveryData` (TSP/TspView.cpp) come to their end on a server that answers.
use Prim.Native.String.{◌++◌ as ◌<>◌, String}
use tsp_simple.Base.{
  All, All-get_elem?, ℕ, ◌<◌, ◌≡◌, refl, ap, ◌∙◌, false, Option, some, List, [], ◌∷◌, length,
  get_elem?, get_elem?-of_lt,
}
use tsp_simple.Base.Int.{pos}
use tsp_simple.Text.Reading.{IsReading, sprintf-IsReading}
use tsp_simple.Text.{bytes, Text, Arg, sprintf, atoi, is_empty}
use tsp_simple.City.{VectorOrderData, VectorMutualData}
use tsp_simple.External.{Floats, Mysql, Engine, Row}
use tsp_simple.View.{View, Parameters, column, fetch_row, query_text}
use tsp_simple.View.Buffers.{Fits, FitsParameters}
use tsp_simple.View.Ends.{
  Ends, weaken, Ends-pure, Ends-then, Ends-need, need-Ends, Given, IsServing, query_text-Ends,
}
use tsp_simple.View.Load.{
  copy_column, order_of_row, mutual_of_row, to_size, ask_count, fetch_count, ask_order, fetch_order,
  ask_pay, fetch_pay, ask_mutual, fetch_mutual, fetch_orders, allocated_orders, parameter_args,
  order_format, order_args, pay_format, pay_args, distance_format, distance_args,
}
use tsp_simple.View.Load.Answers.{HasKeys, HasOrder, FitsOrder, IsMutualRow, IsDay}
use tsp_simple.View.Load.Fits.{
  count-Prints, allocated-Prints, order-Prints, pay-Prints, distance-Prints,
}

abbrev pub Any : VectorMutualData → Type 0
Any m = Unit {0}

module _ {S : Type 0} {inv : S → Type 0} where
  order_of_row-Ends :
      (shares : Text → Type 0) (row : Option Row)
      → HasOrder shares row
      → Ends inv (order_of_row row) (FitsOrder shares)
  unfolding order_of_row
  order_of_row-Ends shares row r = Ends-need (copy_column 32 row 0) _ r.seq λ _ _ _.
      Ends-need (copy_column 32 row 1) _ r.accno λ accno _ accno_fits.
        Ends-need (copy_column 4 row 2) _ r.location_id λ _ _ _.
          Ends-need (copy_column 10 row 3) _ r.delivery_date λ _ _ _.
            Ends-need (copy_column 4 row 4) _ r.meridiem_type λ _ _ _.
              Ends-need (copy_column 64 row 5) _ r.guest_id λ guest_id _ id_fits.
                Ends-need (copy_column 100 row 6) _ r.guest_name λ _ _ _.
                  Ends-need (copy_column 100 row 7) _ r.guest_tel λ tel _ tel_fits.
                    Ends-need (copy_column 2 row 8) _ r.guest_juso_sub_id λ sub _ sub_fits.
                      Ends-need (copy_column 256 row 9) _ r.guest_juso λ _ _ _.
                        Ends-need (copy_column 32 row 10) _ r.pay λ pay _ pay_fits.
                          Ends-need (copy_column 64 row 11) _ r.guest_lat λ lat _ lat_fits.
                            Ends-need (copy_column 64 row 12) _ r.guest_lon λ lon _ lon_fits.
                              Ends-need (copy_column 2 row 13) _ r.is_new λ _ _ _.
                                Ends-need (copy_column 2 row 14) _ r.is_shop λ shop _ shop_fits.
                                  Ends-need (copy_column 2 row 15) _ r.is_road λ _ _ _.
                                    Ends-need (copy_column 32 row 16) _ r.create_date λ _ _ _.
                                      Ends-need (copy_column 100 row 17) _ r.accno_duple_juso
                                        λ duple _ (duple_fits, shared). Ends-pure _ (record {
                                          accno = accno_fits;
                                          guest_id = id_fits;
                                          guest_tel = tel_fits;
                                          guest_juso_sub_id = sub_fits;
                                          pay = pay_fits;
                                          guest_lat = lat_fits;
                                          guest_lon = lon_fits;
                                          is_shop = shop_fits;
                                          accno_duple_juso = duple_fits;
                                          shared = shared;
                                        })

  mutual_of_row-Ends :
      (found : List Row) → All IsMutualRow found → Ends inv (mutual_of_row (fetch_row found)) Any
  unfolding mutual_of_row
  mutual_of_row-Ends [] all = Ends-pure _ tt
  mutual_of_row-Ends (row ∷ found) (r, all) =
      Ends-need (copy_column 32 (some row) 0) _ r.seq λ _ _ _.
        Ends-need (copy_column 64 (some row) 1) _ r.guest_id λ _ _ _.
          Ends-need (copy_column 2 (some row) 2) _ r.guest_juso_sub_id λ _ _ _.
            Ends-need (copy_column 64 (some row) 3) _ r.deguest_id λ _ _ _.
              Ends-need (copy_column 2 (some row) 4) _ r.deguest_juso_sub_id λ _ _ _.
                Ends-need (copy_column 64 (some row) 5) _ r.guest_lat λ _ _ _.
                  Ends-need (copy_column 64 (some row) 6) _ r.guest_lon λ _ _ _.
                    Ends-need (copy_column 64 (some row) 7) _ r.deguest_lat λ _ _ _.
                      Ends-need (copy_column 64 (some row) 8) _ r.deguest_lon λ _ _ _.
                        Ends-need (copy_column 64 (some row) 9) _ r.distance_value λ _ _ _.
                          Ends-need (copy_column 64 (some row) 10) _ r.guest_date λ _ _ _.
                            Ends-need (copy_column 64 (some row) 11) _ r.deguest_date λ _ _ _.
                              Ends-need (copy_column 2 (some row) 12) _ r.guest_is_shop λ _ _ _.
                                Ends-need (copy_column 2 (some row) 13) _ r.deguest_is_shop λ _ _ _.
                                  Ends-need (copy_column 64 (some row) 14) _ r.create_date λ _ _ _.
                                    Ends-need (copy_column 64 (some row) 15) _ r.update_date
                                      λ _ _ _. Ends-pure _ tt

-- An order of the vector.
pub order_at :
    (shares : Text → Type 0) (orders : List VectorOrderData) (i : ℕ)
    → All (FitsOrder shares) orders
    → i < length orders
    → Given (get_elem? orders i) (FitsOrder shares)
order_at shares orders i all h =
    let (o, e) = get_elem?-of_lt orders i h in
    record { value = o; there = e; good = All-get_elem? _ orders i all e }

-- For a view of which `inv` is known, in front of a server that answers.
module _ {F : Floats} {D : Mysql} {G : Engine F} {p : Parameters} {n : ℕ} {listed : Row → Type 0}
    {shares : Text → Type 0} {live : D.Server → Type 0}
    (serving : IsServing D live IsReading (IsDay shares p n listed)) (fits : FitsParameters p)
    (keys : (row : Row) → listed row → HasKeys row) {inv : View F D G → Type 0}
    (is_live : (v : View F D G) → inv v → live v.server)
    (kept : (v : View F D G) (e : D.Server) (sent : List Text)
      → inv v
      → live e
      → inv (record v { server = e; statements = sent }))
    (v : View F D G) (here : v.parameters ≡ p) where
  ask-Ends :
      (code : ℕ) (f : String) (args : Parameters → List Arg) (sql : Text)
      → sprintf 2048 f (args p) ≡ some sql
      → IsReading (bytes f)
      → Ends inv (query_text code 2048 f (args v.parameters)) (IsDay shares p n listed sql)
  ask-Ends code f args sql printed may =
      query_text-Ends serving is_live kept code 2048 f (args v.parameters) sql
        (ap (λ q. sprintf 2048 f (args q)) here ∙ printed)
        (sprintf-IsReading 2048 f (args p) sql printed may)

  ask_count-Ends :
      Ends inv
        (ask_count v)
        (λ found. Given (column (fetch_row found) 0) (λ t. atoi t ≡ some (pos n)))
  unfolding ask_count
  ask_count-Ends =
      let (sql, printed) = count-Prints fits in
      weaken (ask-Ends 100 ("SELECT COUNT(*)" <> allocated_orders) parameter_args sql printed refl)
        (λ found promised. promised.count printed)

  pub fetch_count-Ends : Ends inv (fetch_count v) (λ m. m ≡ n)
  unfolding fetch_count
  fetch_count-Ends = Ends-then ask_count-Ends λ found h.
      Ends-need (column (fetch_row found) 0) _ h λ text e is.
        Ends-need (atoi text) _ (record { value = pos n; there = is; good = refl })
          λ count e' (same : count ≡ pos n).
            need-Ends (to_size count) (record { value = n; there = ap to_size same; good = refl })

  pub fetch_orders-Ends : Ends inv (fetch_orders v) (λ found. (length found ≡ n) × All listed found)
  unfolding fetch_orders
  fetch_orders-Ends =
      let (sql, printed) = allocated-Prints fits in
      weaken (ask-Ends 100 ("SELECT *       " <> allocated_orders) parameter_args sql printed refl)
        (λ found promised. promised.allocated printed)

  ask_order-Ends :
      (row : Row) (accno guest_id is_shop : Text)
      → listed row
      → column (some row) 1 ≡ some accno
      → column (some row) 6 ≡ some guest_id
      → column (some row) 28 ≡ some is_shop
      → Fits 32 accno
      → Fits 64 guest_id
      → Fits 2 is_shop
      → Ends inv
          (ask_order accno guest_id is_shop v.parameters)
          (λ found. HasOrder shares (fetch_row found))
  unfolding ask_order
  ask_order-Ends row accno guest_id is_shop h e e' e'' a b c =
      let (sql, printed) = order-Prints fits accno guest_id is_shop a b c in
      weaken (ask-Ends 0 order_format (order_args accno guest_id is_shop) sql printed refl)
        (λ found promised. promised.order row accno guest_id is_shop h e e' e'' printed)

  pub fetch_order-Ends : (row : Row) → listed row → Ends inv (fetch_order row v) (FitsOrder shares)
  unfolding fetch_order
  fetch_order-Ends row h =
      let k = keys row h in
      Ends-need (column (some row) 1) _ k.accno λ accno e a.
        Ends-need (column (some row) 6) _ k.guest_id λ guest_id e' b.
          Ends-need (column (some row) 28) _ k.is_shop λ is_shop e'' c.
            Ends-then (ask_order-Ends row accno guest_id is_shop h e e' e'' a b c)
              λ found there. order_of_row-Ends shares (fetch_row found) there

  ask_pay-Ends :
      (o : VectorOrderData)
      → FitsOrder shares o
      → is_empty o.accno_duple_juso ≡ false
      → Ends inv
          (ask_pay o v.parameters)
          (λ found. Given (copy_column 32 (fetch_row found) 0) (Fits 32))
  unfolding ask_pay
  ask_pay-Ends o h several =
      let (sql, printed) = pay-Prints fits shares o h in
      weaken (ask-Ends 100 pay_format (pay_args o) sql printed refl)
        (λ found promised. promised.pay o (h.shared several) printed)

  pub fetch_pay-Ends :
      (o : VectorOrderData)
      → FitsOrder shares o
      → is_empty o.accno_duple_juso ≡ false
      → Ends inv (fetch_pay o v) (Fits 32)
  unfolding fetch_pay
  fetch_pay-Ends o h several =
      Ends-then (ask_pay-Ends o h several)
        λ found there. need-Ends (copy_column 32 (fetch_row found) 0) there

  ask_mutual-Ends :
      (a b : VectorOrderData)
      → FitsOrder shares a
      → FitsOrder shares b
      → Ends inv (ask_mutual a b) (All IsMutualRow)
  unfolding ask_mutual
  ask_mutual-Ends a b h k =
      let (sql, printed) = distance-Prints shares a b h k in
      weaken (ask-Ends 100 distance_format (λ q. distance_args a b) sql printed refl)
        (λ found promised. promised.distances a b printed)

  pub fetch_mutual-Ends :
      (i j : ℕ)
      → All (FitsOrder shares) v.vector_order_data
      → i < length v.vector_order_data
      → j < length v.vector_order_data
      → Ends inv (fetch_mutual i j v) Any
  unfolding fetch_mutual
  fetch_mutual-Ends i j all in_i in_j =
      Ends-need (get_elem? v.vector_order_data i) _ (order_at shares v.vector_order_data i all in_i)
        λ a e h.
          Ends-need (get_elem? v.vector_order_data j) _
            (order_at shares v.vector_order_data j all in_j)
            λ b e' k.
              Ends-then (ask_mutual-Ends a b h k)
                λ found rows_fit. mutual_of_row-Ends found rows_fit
