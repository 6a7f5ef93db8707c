-- ===== src/View.antt =====
-- TSP/TspView.h: the object `TSPView` with what its steps share, and the calls of the MySQL client.
mod Monad
pub mod Runs
pub mod Buffers
pub mod Ends
pub mod Reaches
pub mod Load
pub mod Setting
pub mod Search
pub mod Relocation
pub mod Insert
pub mod Balance
pub mod Calc
pub mod Research
pub mod VehicleRelocation
pub use Monad.*
use tsp_simple.Base.{
  ℕ, zero, suc, ◌+◌, ◌-◌, Bool, true, false, Option, none, some, List, [], ◌∷◌, ◌++◌, length, take,
  replicate, get_elem?,
}
use Prim.Native.String.{String}
use tsp_simple.Text.{Text, WText, Arg, str, sprintf, bytes}
use tsp_simple.Base.Int.{ℤ, pos}
use tsp_simple.City.{
  no_cities, Cities, ChromosomeCopy, RouteEachResult, VectorOrderData, VectorMutualData,
}
use tsp_simple.External.{Floats, Mysql, Engine, Row, Reply, failed, rows}

-- The arguments of the program, as `main` stores them in the view.
pub record Parameters : Type 0 where
  pub delivery_date : Text
  pub meridiem_type : Text
  pub meridiem_flag : Text
  pub location_id : Text
  pub vehicle_no : Text
  pub vehicle_number : ℤ

-- `TSPView`, with the statics `TspCities::_instance`, `TspCities::nGenerationLimit`,
-- `TspCity::_nextId` and `TSP::_instance`, and the MySQL server. `statements` lists the statements
-- that were sent to the server, in order.
pub record View (F : Floats) (D : Mysql) (G : Engine F) : Type 0 where
  pub parameters : Parameters
  pub cities : Cities F
  pub generation_limit : ℕ
  pub engine : G.State
  pub server : D.Server
  pub statements : List Text
  pub generation : ℕ
  pub fitness : F.Float
  pub count_order_data : ℕ
  pub vehicle_flag : List ℕ
  pub vehicle_pay : List ℤ
  pub vehicle_pay_index : List ℤ
  pub vector_order_data : List VectorOrderData
  pub vector_mutual_data : List (List VectorMutualData)
  pub best_chromosome : List ℕ
  pub best_relocation : List ℕ
  pub best_chromosome_copy : List (ChromosomeCopy F)
  pub search_index_start : ℕ
  pub best_route_each_result : List (List (RouteEachResult F))
  pub best_route_each_relocation : List (List (RouteEachResult F))

-- `vector::resize`
abbrev pub resize : {A : Type 0} → ℕ → A → List A → List A
resize n a xs = take n xs ++ replicate (n - length xs) a

-- A column of a fetched row. A missing row, a missing column and NULL are null pointers.
unfoldable pub column : Option Row → ℕ → Option Text
column none k = none
column (some row) k = elim (get_elem? row k) [ some c ↦ c | none ↦ none ]

-- `mysql_fetch_row` for the first row.
abbrev pub fetch_row : List Row → Option Row
fetch_row [] = none
fetch_row (r ∷ rs) = some r

-- The two arrays of 512 elements that `TSPView` allocates.
unfoldable pub no_flags : List ℕ
no_flags = replicate 512 0

unfoldable pub no_pays : List ℤ
no_pays = replicate 512 (pos 0)

-- The constructor, with what `main` stores and the statics at the start. The count of the orders
-- has no value yet: it is what the memory holds.
unfoldable pub new_view :
    {F : Floats} {D : Mysql} {G : Engine F} → Parameters → ℕ → G.State → D.Server → View F D G
unfolding no_flags no_pays
new_view {F} p count engine server = record {
  parameters = p;
  cities = no_cities F;
  generation_limit = 100_000;
  engine = engine;
  server = server;
  statements = [];
  generation = 0;
  fitness = F.zero_float;
  count_order_data = count;
  vehicle_flag = no_flags;
  vehicle_pay = no_pays;
  vehicle_pay_index = [];
  vector_order_data = [];
  vector_mutual_data = [];
  best_chromosome = [];
  best_relocation = [];
  best_chromosome_copy = [];
  search_index_start = 1;
  best_route_each_result = [];
  best_route_each_relocation = [];
}

module _ {F : Floats} {D : Mysql} {G : Engine F} where
  -- `init`, and `OnInit`, which also renews the arrays; the observer is subscribed already.
  unfoldable pub init : View F D G → View F D G
  init v = record v { generation = 0; fitness = F.zero_float }

  unfoldable pub on_init : View F D G → Outcome × View F D G
  unfolding init no_flags no_pays
  on_init v = (returned 0, record (init v) { vehicle_flag = no_flags; vehicle_pay = no_pays })

  -- `mysql_real_connect`, whose failure makes the step return `code`.
  unfoldable pub connect : ℕ → Action (View F D G) (Unit {0})
  connect code = do v ← get; unless (D.connect v.server) code

  -- `mysql_query` and `mysql_use_result`, whose failure makes the step return `code`.
  unfoldable pub query : ℕ → Text → Action (View F D G) (List Row)
  query code sql = do
    v ← get
    let (reply, server) = D.query sql v.server
    modify (λ w. record w { server = server; statements = w.statements ++ sql ∷ [] })
    elim reply [ failed ↦ return_code code | rows rs ↦ pure rs ]

  -- A query whose text is printed into a buffer of `size` bytes.
  unfoldable pub query_text : ℕ → ℕ → String → List Arg → Action (View F D G) (List Row)
  unfolding query sprintf
  query_text code size f args = do sql ← need (sprintf size f args); query code sql
