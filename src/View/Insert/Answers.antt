-- ===== src/View/Insert/Answers.antt =====
-- What `OnVehicleDataInsert` (TSP/TspView.cpp) relies on in the replies of the database.
use tsp_simple.Base.{All, ℕ, ◌≡◌, refl, some, List, [], length, get_elem?}
use Prim.Native.String.{String}
use tsp_simple.Text.{Text, Arg, bytes, sprintf, atoi}
use tsp_simple.Text.Reading.{IsReading, sprintf-IsReading}
use tsp_simple.City.{ChromosomeCopy}
use tsp_simple.External.{Floats, Row}
use tsp_simple.View.{Parameters, column, fetch_row}
use tsp_simple.View.Load.{copy_column}
use tsp_simple.View.Insert.{
  insert_format, update_format, delete_format, mutual_format, bad_format, day_args, mutual_args,
  target_of_copy, order_format, shared_format, order_args, shared_args, leg_end,
}
use tsp_simple.View.Buffers.{Fits, names-Prints}
use tsp_simple.View.Ends.{Given}

-- The statements of the step: it reads, and writes the table vehicleAllocateResult alone.
pub data IsAsked (sql : Text) : Type 0 where
  reading : IsReading sql → IsAsked sql
  order : (args : List Arg) → sprintf 2048 order_format args ≡ some sql → IsAsked sql
  orders : (args : List Arg) → sprintf 2048 shared_format args ≡ some sql → IsAsked sql
  deleting : (args : List Arg) → sprintf 1024 delete_format args ≡ some sql → IsAsked sql
  inserting : (args : List Arg) → sprintf 404_800 insert_format args ≡ some sql → IsAsked sql
  numbering : (args : List Arg) → sprintf 2048 update_format args ≡ some sql → IsAsked sql

-- A statement that a step prints from a format that reads.
pub printed-IsAsked :
    (size : ℕ) (f : String) (args : List Arg) (sql : Text)
    → sprintf size f args ≡ some sql
    → IsReading (bytes f)
    → IsAsked sql
printed-IsAsked size f args sql printed reads_first =
    reading (sprintf-IsReading size f args sql printed reads_first)

-- "set names"
pub names-IsAsked : IsAsked names-Prints.0
names-IsAsked = printed-IsAsked 512 "set names euckr" [] names-Prints.0 names-Prints.1 refl

-- There is a row of vehicleGuestMutualDistance, with a distance that is an `int` and a map that
-- fits into its buffer.
pub record HasDistance (found : List Row) : Type 0 where
  pub distance : Given (column (fetch_row found) 9) (λ t. Given (atoi t) (λ i. Unit {0}))
  pub json : Given (copy_column 202_400 (fetch_row found) 12) (Fits 202_400)

-- There is an order, with the name and the address of its customer.
pub record HasGuest (found : List Row) : Type 0 where
  pub name : Given (column (fetch_row found) 0) (Fits 100)
  pub juso : Given (column (fetch_row found) 1) (Fits 256)

-- The row of an order, no column of which is NULL or too long.
pub record IsOrderRow (row : Row) : Type 0 where
  pub accno : Given (column (some row) 1) (Fits 32)
  pub name : Given (column (some row) 6) (Fits 100)
  pub tel : Given (column (some row) 7) (Fits 100)
  pub pay : Given (column (some row) 10) (Fits 32)
  pub id : Given (column (some row) 5) (Fits 64)
  pub juso_sub_id : Given (column (some row) 8) (Fits 2)
  pub lat : Given (column (some row) 11) (Fits 64)
  pub lon : Given (column (some row) 12) (Fits 64)
  pub juso : Given (column (some row) 9) (Fits 256)
  pub is_shop : Given (column (some row) 14) (Fits 2)
  pub accno_duple : Given (column (some row) 17) (Fits 100)

-- A row with a number of its own.
abbrev pub HasSeq : Row → Type 0
HasSeq row = Given (column (some row) 0) (Fits 32)

-- The rows that the database keeps for a route: a distance for each leg, an order for each stop, and
-- no NULL in the columns that are read.
pub record IsSchema {F : Floats} (p : Parameters) (route : List (ChromosomeCopy F)) (sql : Text)
    (found : List Row) : Type 0 where
  pub leg :
      (j : ℕ) (from next : ChromosomeCopy F)
      → get_elem? route j ≡ some from
      → get_elem? route (leg_end (length route) j) ≡ some next
      → sprintf 2048 mutual_format (mutual_args from next) ≡ some sql
      → HasDistance found
  pub guest :
      (i : ℕ) (next : ChromosomeCopy F)
      → get_elem? route i ≡ some next
      → sprintf 2048 order_format (order_args p (target_of_copy next)) ≡ some sql
      → HasGuest found
  pub guests :
      (i : ℕ) (next : ChromosomeCopy F)
      → get_elem? route i ≡ some next
      → sprintf 2048 shared_format (shared_args p next) ≡ some sql
      → All IsOrderRow found
  pub bad : sprintf 2048 bad_format (day_args p) ≡ some sql → All HasSeq found
