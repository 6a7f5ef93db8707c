-- ===== src/View/Load/Answers.antt =====
-- What `OnLoadDeliveryData` (TSP/TspView.cpp) relies on in the replies of the database.
use Prim.Native.String.{◌++◌ as ◌<>◌}
use tsp_simple.Base.{All, ℕ, ◌≡◌, false, Option, some, List, length}
use tsp_simple.Base.Int.{pos}
use tsp_simple.Text.{Text, sprintf, atoi, is_empty}
use tsp_simple.City.{VectorOrderData}
use tsp_simple.External.{Row}
use tsp_simple.View.{Parameters, column, fetch_row}
use tsp_simple.View.Buffers.{Fits}
use tsp_simple.View.Ends.{Given}
use tsp_simple.View.Load.{
  copy_column, allocated_orders, parameter_args, order_format, order_args, pay_format, pay_args,
  distance_format, distance_args,
}

-- A column that `strcpy` copies into an array of `size` bytes.
abbrev pub Copies : ℕ → Option Row → ℕ → Type 0
Copies size row k = Given (copy_column size row k) (Fits size)

-- The keys in a row of vehicleAllocateResult, which are not NULL.
pub record HasKeys (row : Row) : Type 0 where
  pub accno : Given (column (some row) 1) (Fits 32)
  pub guest_id : Given (column (some row) 6) (Fits 64)
  pub is_shop : Given (column (some row) 28) (Fits 2)

-- A row of vehicleGuestMutualDistance whose columns fit into the arrays.
pub record IsMutualRow (row : Row) : Type 0 where
  pub seq : Copies 32 (some row) 0
  pub guest_id : Copies 64 (some row) 1
  pub guest_juso_sub_id : Copies 2 (some row) 2
  pub deguest_id : Copies 64 (some row) 3
  pub deguest_juso_sub_id : Copies 2 (some row) 4
  pub guest_lat : Copies 64 (some row) 5
  pub guest_lon : Copies 64 (some row) 6
  pub deguest_lat : Copies 64 (some row) 7
  pub deguest_lon : Copies 64 (some row) 8
  pub distance_value : Copies 64 (some row) 9
  pub guest_date : Copies 64 (some row) 10
  pub deguest_date : Copies 64 (some row) 11
  pub guest_is_shop : Copies 2 (some row) 12
  pub deguest_is_shop : Copies 2 (some row) 13
  pub create_date : Copies 64 (some row) 14
  pub update_date : Copies 64 (some row) 15

-- `shares` are the addresses that customers share.
module _ (shares : Text → Type 0) where
  abbrev pub IsShared : Text → Type 0
  IsShared t = is_empty t ≡ false → shares t

  -- An order was found, whose columns fit into the arrays.
  pub record HasOrder (row : Option Row) : Type 0 where
    pub seq : Copies 32 row 0
    pub accno : Copies 32 row 1
    pub location_id : Copies 4 row 2
    pub delivery_date : Copies 10 row 3
    pub meridiem_type : Copies 4 row 4
    pub guest_id : Copies 64 row 5
    pub guest_name : Copies 100 row 6
    pub guest_tel : Copies 100 row 7
    pub guest_juso_sub_id : Copies 2 row 8
    pub guest_juso : Copies 256 row 9
    pub pay : Copies 32 row 10
    pub guest_lat : Copies 64 row 11
    pub guest_lon : Copies 64 row 12
    pub is_new : Copies 2 row 13
    pub is_shop : Copies 2 row 14
    pub is_road : Copies 2 row 15
    pub create_date : Copies 32 row 16
    pub accno_duple_juso : Given (copy_column 100 row 17) (λ t. Fits 100 t × IsShared t)

  -- An order as the program keeps it: what is written to the database of it fits into the arrays.
  pub record FitsOrder (o : VectorOrderData) : Type 0 where
    pub accno : Fits 32 o.accno
    pub guest_id : Fits 64 o.guest_id
    pub guest_tel : Fits 100 o.guest_tel
    pub guest_juso_sub_id : Fits 2 o.guest_juso_sub_id
    pub pay : Fits 32 o.pay
    pub guest_lat : Fits 64 o.guest_lat
    pub guest_lon : Fits 64 o.guest_lon
    pub is_shop : Fits 2 o.is_shop
    pub accno_duple_juso : Fits 100 o.accno_duple_juso
    pub shared : IsShared o.accno_duple_juso

  -- The rows that the database keeps for a day with `n` orders: the allocated ones, which are
  -- `listed`, an order for each of them, a sum for each address that customers share, and no column
  -- that is NULL or too long.
  pub record IsDay (p : Parameters) (n : ℕ) (listed : Row → Type 0) (sql : Text) (found : List Row)
      : Type 0 where
    pub count :
        sprintf 2048 ("SELECT COUNT(*)" <> allocated_orders) (parameter_args p) ≡ some sql
        → Given (column (fetch_row found) 0) (λ t. atoi t ≡ some (pos n))
    pub allocated :
        sprintf 2048 ("SELECT *       " <> allocated_orders) (parameter_args p) ≡ some sql
        → (length found ≡ n) × All listed found
    pub order :
        (row : Row) (accno guest_id is_shop : Text)
        → listed row
        → column (some row) 1 ≡ some accno
        → column (some row) 6 ≡ some guest_id
        → column (some row) 28 ≡ some is_shop
        → sprintf 2048 order_format (order_args accno guest_id is_shop p) ≡ some sql
        → HasOrder (fetch_row found)
    pub pay :
        (o : VectorOrderData)
        → shares o.accno_duple_juso
        → sprintf 2048 pay_format (pay_args o p) ≡ some sql
        → Copies 32 (fetch_row found) 0
    pub distances :
        (a b : VectorOrderData)
        → sprintf 2048 distance_format (distance_args a b) ≡ some sql
        → All IsMutualRow found
