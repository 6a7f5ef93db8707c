-- ===== src/View/Load/Filling.antt =====
-- The table of the distances of `OnLoadDeliveryData` (TSP/TspView.cpp) is filled to its end on a
-- server that answers.
use tsp_simple.Base.{ℕ, ◌+◌, ◌<◌, List, arith}
use tsp_simple.Text.Reading.{IsReading}
use tsp_simple.Text.{Text}
use tsp_simple.City.{Cities, ChromosomeCopy}
use tsp_simple.External.{Floats, Mysql, Engine, Row}
use tsp_simple.View.{View, Parameters, get, ◌>>=◌}
use tsp_simple.View.Buffers.{FitsParameters}
use tsp_simple.View.Ends.{IsServing}
use tsp_simple.View.Load.{
  store_mutual, fetch_mutual, load_mutual, add_row, load_cells, load_mutual_row, load_table,
  count_up,
}
use tsp_simple.View.Load.Answers.{HasKeys, IsDay}
use tsp_simple.View.Load.Fetching.{fetch_mutual-Ends}
use tsp_simple.View.Load.Storing.{IsLoading, IsLoading-sent, store_mutual_lem, add_row_lem}
use tsp_simple.View.Reaches.{
  Reaches, Reaches-behind, Reaches-get, Reaches-at, Reaches-change, Reaches-count_up,
}

module _ {F : Floats} {D : Mysql} {G : Engine F} {p : Parameters} {n : ℕ} {listed : Row → Type 0}
    {shares : Text → Type 0} {live : D.Server → Type 0}
    (serving : IsServing D live IsReading (IsDay shares p n listed)) (fits : FitsParameters p)
    (keys : (row : Row) → listed row → HasKeys row) (route : List (ChromosomeCopy F))
    (s : Cities F) where
  abbrev Loading : ℕ → View F D G → Type 0
  Loading = IsLoading p n shares route s live

  load_mutual-Reaches :
      (k i j : ℕ) → i < k → i < n → j < n → Reaches (Loading k) (load_mutual i j) (λ a. Loading k)
  unfolding load_mutual
  load_mutual-Reaches k i j in_k in_i in_j =
      Reaches-get (λ v. fetch_mutual i j v >>= λ cell. get >>= λ w. store_mutual i j cell w)
        λ v l.
          Reaches-behind
            (fetch_mutual-Ends serving fits keys (λ u h. h.serves)
              (IsLoading-sent p n shares route s live k) v l.parameters i j l.orders
              (omega (arith, l.table.orders)) (omega (arith, l.table.orders)))
            λ cell any.
              Reaches-at (store_mutual i j cell)
                (λ w h. store_mutual_lem p n shares route s live k i j cell w in_k in_j h)

  load_cells-Reaches :
      (i : ℕ) → i < n → Reaches (Loading (i + 1)) (load_cells i) (λ a. Loading (i + 1))
  unfolding load_cells
  load_cells-Reaches i inside =
      Reaches-get (λ v. count_up v.count_order_data 0 (load_mutual i))
        λ v l.
          Reaches-count_up (λ j. Loading (i + 1)) (load_mutual i) n
            (λ j in_j. load_mutual-Reaches (i + 1) i j (omega arith) inside in_j) v.count_order_data
            0 (omega (arith, l.table.count))

  load_mutual_row-Reaches :
      (i : ℕ) → i < n → Reaches (Loading i) (load_mutual_row i) (λ a. Loading (i + 1))
  unfolding load_mutual_row
  load_mutual_row-Reaches i inside =
      Reaches-change (add_row i) (λ a. load_cells i)
        (λ v l. add_row_lem p n shares route s live i v l) λ a. load_cells-Reaches i inside

  pub load_table-Reaches : Reaches (Loading 0) load_table (λ a. Loading n)
  unfolding load_table
  load_table-Reaches =
      Reaches-get (λ v. count_up v.count_order_data 0 load_mutual_row)
        λ v l.
          Reaches-count_up Loading load_mutual_row n load_mutual_row-Reaches v.count_order_data 0
            (omega (arith, l.table.count))
