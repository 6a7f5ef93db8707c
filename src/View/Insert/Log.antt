-- ===== src/View/Insert/Log.antt =====
-- The statements of a run of `OnVehicleDataInsert` (TSP/TspView.cpp) that comes to its end.
use tsp_simple.Base.{
  ℕ, suc, ◌+◌, ◌-◌, ◌≡◌, Bool, true, false, some, List, [], ◌∷◌, ◌++◌, ◌==◌, length, get_elem?,
  take,
}
use tsp_simple.Base.Int.{ℤ, pos}
use tsp_simple.Text.{Text, str, int, sprintf, is_empty}
use tsp_simple.City.{ChromosomeCopy}
use tsp_simple.External.{Floats}
use tsp_simple.View.{Parameters}
use tsp_simple.View.Insert.{
  Target, insert_format, mutual_format, update_format, delete_format, bad_format, day_args,
  mutual_args, insert_args, target_of_copy, order_format, shared_format, order_args, shared_args,
}

module _ {F : Floats} (p : Parameters) where
  -- A statement that inserts the leg `j` from a customer to a target.
  unfoldable pub IsInsertion : ℕ → ChromosomeCopy F → Target → Text → Type 0
  IsInsertion j from to sql =
      (distance : ℤ) × (json : Text) × (sprintf 404_800 insert_format
          (insert_args p j from to distance json)
        ≡ some sql)

  -- Statements each of which inserts the leg `j` from a customer.
  unfoldable pub Insertions : ℕ → ChromosomeCopy F → List Text → Type 0
  Insertions j from [] = Unit {0}
  Insertions j from (sql ∷ log) =
      ((to : Target) × IsInsertion j from to sql) × Insertions j from log

  -- The statements behind the question for the distance: the leg to the depot is inserted from its
  -- copy, the leg to a customer with an address of their own behind a question for the order, and the
  -- leg to a shared address behind a question for the orders there.
  pub data LegLog (j : ℕ) (from next : ChromosomeCopy F) : Bool → List Text → Type 0 where
    closing :
        {sql : Text}
        → IsInsertion j from (target_of_copy next) sql
        → LegLog j from next true (sql ∷ [])
    single :
        {order sql : Text} (name juso : Text)
        → is_empty next.details.accno_duple ≡ true
        → sprintf 2048 order_format (order_args p (target_of_copy next)) ≡ some order
        → IsInsertion j from (record (target_of_copy next) { name = name; juso = juso }) sql
        → LegLog j from next false (order ∷ sql ∷ [])
    shared :
        {orders names : Text} {log : List Text}
        → is_empty next.details.accno_duple ≡ false
        → sprintf 2048 shared_format (shared_args p next) ≡ some orders
        → sprintf 512 "set names euckr" [] ≡ some names
        → Insertions j from log
        → LegLog j from next false (orders ∷ names ∷ log)

  -- The statements for `n` legs of a route from the leg `j` on, of which the last leads back to the
  -- first stop: for each the question for its
  -- distance, and its insertion.
  pub data RouteLog (route : List (ChromosomeCopy F)) : ℕ → ℕ → List Text → Type 0 where
    arrived : {j : ℕ} → RouteLog route 0 j []
    leg :
        {n j : ℕ} {ask : Text} {log rest : List Text} (from next : ChromosomeCopy F)
        → get_elem? route j ≡ some from
        → get_elem? (route ++ take 1 route) (j + 1) ≡ some next
        → sprintf 2048 mutual_format (mutual_args from next) ≡ some ask
        → LegLog j from next (j == length route - 1) log
        → RouteLog route n (j + 1) rest
        → RouteLog route (suc n) j (ask ∷ log ++ rest)

-- Statements that number rows from an index on.
unfoldable pub Updates : ℕ → List Text → Type 0
Updates index [] = Unit {0}
Updates index (sql ∷ log) =
    ((seq : Text) × (sprintf 2048 update_format (int (pos index) ∷ str seq ∷ []) ≡ some sql))
    × Updates (index + 1) log

-- The statements of the whole step, from the deletion of the old rows on: then the legs, and the
-- numbering of the rows with a bad address behind the route.
pub record IsBodyLog {F : Floats} (p : Parameters) (route : List (ChromosomeCopy F))
    (log : List Text) : Type 0 where
  pub names : Text
  pub delete : Text
  pub legs : List Text
  pub bad : Text
  pub updates : List Text
  pub parts : log ≡ names ∷ delete ∷ (legs ++ bad ∷ names ∷ updates)
  pub sets_names : sprintf 512 "set names euckr" [] ≡ some names
  pub deletes : sprintf 1024 delete_format (day_args p) ≡ some delete
  pub drives : RouteLog p route (length route) 0 legs
  pub asks : sprintf 2048 bad_format (day_args p) ≡ some bad
  pub numbers : Updates (length route) updates
