-- ===== src/View/Load/Table.antt =====
-- The shape of the table of distances that `OnLoadDeliveryData` (TSP/TspView.cpp) makes.
use tsp_simple.View.Load.Vectors.{assign_lem, length-resize, get_elem?-snoc_old}
use tsp_simple.Base.{
  ℕ, zero, suc, ◌+◌, ◌≡◌, ◌≢◌, sym, ap, ◌∙◌, Option, none, some, List, [], ◌∷◌, ◌++◌, length,
  get_elem?, arith, length-append, inl, inr,
}
use tsp_simple.City.{Cities, VectorOrderData, VectorMutualData}
use tsp_simple.External.{Floats, Mysql, Engine, Row}
use tsp_simple.Text.{Text, Arg}
use tsp_simple.View.{View, Action, ◌>>=◌, resize, query_text, get, fetch_row}
use Prim.Native.String.{String}
use tsp_simple.View.Runs.{
  query_text-Keeps, Leads-get, Leads-at, Meets, Leads, Keeps, Leads-pure, Leads-then, Leads-need,
}
use tsp_simple.View.Load.{
  add_row, load_cells, load_table, no_mutual, mutual_of_row, copy_column, assign, count_up,
  load_mutual, load_mutual_row, fetch_mutual, store_mutual, ask_mutual, distance_format,
  distance_args,
}

mutual_of_row-Keeps : {S : Type 0} {I : S → Type 0} (row : Option Row) → Keeps I (mutual_of_row row)
unfolding mutual_of_row
mutual_of_row-Keeps none = Leads-pure _
mutual_of_row-Keeps (some row) = Leads-need (copy_column 32 (some row) 0) _ λ _ _.
    Leads-need (copy_column 64 (some row) 1) _ λ _ _.
      Leads-need (copy_column 2 (some row) 2) _ λ _ _.
        Leads-need (copy_column 64 (some row) 3) _ λ _ _.
          Leads-need (copy_column 2 (some row) 4) _ λ _ _.
            Leads-need (copy_column 64 (some row) 5) _ λ _ _.
              Leads-need (copy_column 64 (some row) 6) _ λ _ _.
                Leads-need (copy_column 64 (some row) 7) _ λ _ _.
                  Leads-need (copy_column 64 (some row) 8) _ λ _ _.
                    Leads-need (copy_column 64 (some row) 9) _ λ _ _.
                      Leads-need (copy_column 64 (some row) 10) _ λ _ _.
                        Leads-need (copy_column 64 (some row) 11) _ λ _ _.
                          Leads-need (copy_column 2 (some row) 12) _ λ _ _.
                            Leads-need (copy_column 2 (some row) 13) _ λ _ _.
                              Leads-need (copy_column 64 (some row) 14) _ λ _ _.
                                Leads-need (copy_column 64 (some row) 15) _ λ _ _. Leads-pure _

module _ {F : Floats} {D : Mysql} {G : Engine F} where
  pub Leads-count_up :
      (I : ℕ → View F D G → Type 0) (body : ℕ → Action (View F D G) (Unit {0}))
      → ((i : ℕ) → Leads (I i) (body i) (λ a. I (i + 1)))
      → (rounds from : ℕ) → Leads (I from) (count_up rounds from body) (λ a. I (from + rounds))
  unfolding count_up
  Leads-count_up I body step zero from =
      let sum : from + 0 ≡ from = omega arith in rw sum (Leads-pure {J = λ a. I from} tt)
  Leads-count_up I body step (suc rounds) from =
      let sum : from + suc rounds ≡ from + 1 + rounds = omega arith in
      rw sum (Leads-then (step from) λ a. Leads-count_up I body step rounds (from + 1))

  Leads-count_up_to :
      (I : ℕ → View F D G → Type 0) (body : ℕ → Action (View F D G) (Unit {0}))
      → ((i : ℕ) → Leads (I i) (body i) (λ a. I (i + 1)))
      → (rounds from end : ℕ) → end ≡ from + rounds
      → Leads (I from) (count_up rounds from body) (λ a. I end)
  Leads-count_up_to I body step rounds from end e = rw e (Leads-count_up I body step rounds from)

module _ {F : Floats} {D : Mysql} {G : Engine F} (s : Cities F) where
  -- The count is `n`, there are `n` orders, the table has `k` rows of `n` entries, and the store
  -- of cities is `s`.
  pub record IsTable (n k : ℕ) (v : View F D G) : Type 0 where
    pub cities : v.cities ≡ s
    pub count : v.count_order_data ≡ n
    pub orders : length v.vector_order_data ≡ n
    pub height : length v.vector_mutual_data ≡ k
    pub width :
        (i : ℕ) (row : List VectorMutualData)
        → get_elem? v.vector_mutual_data i ≡ some row
        → length row ≡ n

  pub IsTable-sent :
      (n k : ℕ) (v : View F D G) (e : D.Server) (sent : List Text)
      → IsTable n k v
      → IsTable n k (record v { server = e; statements = sent })
  IsTable-sent n k v e sent h = record {
    cities = h.cities;
    count = h.count;
    orders = h.orders;
    height = h.height;
    width = h.width;
  }

  pub IsTable-query_text :
      (n k code size : ℕ) (f : String) (args : List Arg)
      → Keeps (IsTable n k) (query_text {F = F} {D = D} {G = G} code size f args)
  IsTable-query_text n k = query_text-Keeps (IsTable-sent n k)

  ask_mutual-Keeps :
      (n k : ℕ) (a b : VectorOrderData)
      → Keeps (IsTable n k) (ask_mutual {F = F} {D = D} {G = G} a b)
  unfolding ask_mutual
  ask_mutual-Keeps n k a b = IsTable-query_text n k 100 2048 distance_format (distance_args a b)

  fetch_mutual-Keeps : (n k i j : ℕ) (v : View F D G) → Keeps (IsTable n k) (fetch_mutual i j v)
  unfolding fetch_mutual
  fetch_mutual-Keeps n k i j v = Leads-need (get_elem? v.vector_order_data i) _ λ a _.
      Leads-need (get_elem? v.vector_order_data j) _
        λ b _. Leads-then (ask_mutual-Keeps n k a b) λ found. mutual_of_row-Keeps (fetch_row found)

  pub store_mutual-Keeps :
      (n k i j : ℕ) (cell : VectorMutualData) (w : View F D G)
      → IsTable n k w
      → Leads (λ u. u ≡ w) (store_mutual i j cell w) (λ a. IsTable n k)
  unfolding store_mutual Meets
  store_mutual-Keeps n k i j cell w h = Leads-need (get_elem? w.vector_mutual_data i) _ λ row e.
      Leads-need (assign row j cell) _ λ row' e'.
        Leads-need (assign w.vector_mutual_data i row') _ λ table e''.
          let (size, cells) = assign_lem row j cell e' in
          let (height, kept) = assign_lem w.vector_mutual_data i row' e'' in
          record {
            run = λ u same. rw same (record {
              cities = h.cities;
              count = h.count;
              orders = h.orders;
              height = height ∙ h.height;
              width = λ r x at. elim (kept r x at) [
                | inl new ↦ ap length new ∙ size ∙ h.width i row e
                | inr (away, old) ↦ h.width r x old
              ];
            });
          }

  load_mutual-Keeps : (n k i j : ℕ) → Keeps (IsTable n k) (load_mutual {F = F} {D = D} {G = G} i j)
  unfolding load_mutual
  load_mutual-Keeps n k i j =
      Leads-get (λ v. fetch_mutual i j v >>= λ cell. get >>= λ w. store_mutual i j cell w)
        λ v h.
          Leads-then (Leads-at h (fetch_mutual-Keeps n k i j v))
            λ cell. Leads-get (store_mutual i j cell) (store_mutual-Keeps n k i j cell)

  pub add_row-Leads :
      (n i : ℕ) (v : View F D G)
      → IsTable n i v
      → Leads (λ u. u ≡ v) (add_row i v) (λ a. IsTable n (i + 1))
  unfolding add_row Meets
  add_row-Leads n i v h =
      let pushed = v.vector_mutual_data ++ [] ∷ [] in
      Leads-need (get_elem? pushed i) _ λ row e.
        Leads-need (assign pushed i (resize v.count_order_data no_mutual row)) _ λ table e'.
          let (height, kept) = assign_lem pushed i (resize v.count_order_data no_mutual row) e' in
          record {
            run = λ u same. rw same (record {
              cities = h.cities;
              count = h.count;
              orders = h.orders;
              height =
                  omega (arith, height, h.height, length-append v.vector_mutual_data ([] ∷ []));
              width = λ r x at. elim (kept r x at) [
                | inl new ↦ ap length new ∙ length-resize v.count_order_data no_mutual row ∙ h.count
                | inr (away, old) ↦
                    let elsewhere : r ≢ length v.vector_mutual_data =
                      λ same. away (sym (same ∙ h.height)) in
                    h.width r x (get_elem?-snoc_old v.vector_mutual_data [] r old elsewhere)
              ];
            });
          }

  load_cells-Keeps : (n k i : ℕ) → Keeps (IsTable n k) (load_cells {F = F} {D = D} {G = G} i)
  unfolding load_cells
  load_cells-Keeps n k i =
      Leads-get (λ v. count_up v.count_order_data 0 (load_mutual i))
        λ v h. Leads-at h (
          Leads-count_up (λ j. IsTable n k) (load_mutual i) (load_mutual-Keeps n k i)
            v.count_order_data 0)

  load_mutual_row-Leads :
      (n i : ℕ)
      → Leads (IsTable n i) (load_mutual_row {F = F} {D = D} {G = G} i) (λ a. IsTable n (i + 1))
  unfolding load_mutual_row
  load_mutual_row-Leads n i =
      Leads-get (λ v. add_row i v >>= λ a. load_cells i)
        λ v h. Leads-then (add_row-Leads n i v h) λ a. load_cells-Keeps n (i + 1) i

  pub load_table-Leads :
      (n : ℕ) → Leads (IsTable n 0) (load_table {F = F} {D = D} {G = G}) (λ a. IsTable n n)
  unfolding load_table
  load_table-Leads n =
      Leads-get (λ v. count_up v.count_order_data 0 load_mutual_row)
        λ v h. Leads-at h (
          Leads-count_up_to (IsTable n) load_mutual_row (load_mutual_row-Leads n) v.count_order_data
            0 n (omega (arith, h.count)))
