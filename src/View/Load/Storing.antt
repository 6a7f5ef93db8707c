-- ===== src/View/Load/Storing.antt =====
-- The changes that `OnLoadDeliveryData` (TSP/TspView.cpp) makes to its vectors are in bounds.
use tsp_simple.Base.{
  All, All-append, All-replicate, All-take, All-set, ℕ, ◌+◌, ◌-◌, ◌<◌, ◌≡◌, refl, sym, ap, ◌∙◌,
  some, none, List, [], ◌∷◌, ◌++◌, length, length-append, length-set, get_elem?, get_elem?-of_lt,
  get_elem?-append_length, set, replicate, take, lt→ltb, arith,
}
use tsp_simple.Text.{Text}
use tsp_simple.City.{Cities, ChromosomeCopy, VectorOrderData, VectorMutualData}
use tsp_simple.External.{Floats, Mysql, Engine}
use tsp_simple.View.{View, Parameters, done, resize}
use tsp_simple.View.Load.{
  assign, store_order, store_mutual, add_row, size_vectors, no_order, no_mutual,
}
use tsp_simple.View.Load.Answers.{FitsOrder}
use tsp_simple.View.Load.Table.{IsTable, IsTable-sent, store_mutual-Keeps, add_row-Leads}
use tsp_simple.View.Load.Vectors.{length-resize}
use tsp_simple.View.Runs.{Meets, Meets-done}

pub assign-of_lt :
    {A : Type 0} (xs : List A) (i : ℕ) (a : A) → i < length xs → assign xs i a ≡ some (set xs i a)
assign-of_lt xs i a h = rw (lt→ltb i (length xs) h) refl

no_order-Fits : (shares : Text → Type 0) → FitsOrder shares no_order
no_order-Fits shares = record {
  accno = omega arith;
  guest_id = omega arith;
  guest_tel = omega arith;
  guest_juso_sub_id = omega arith;
  pay = omega arith;
  guest_lat = omega arith;
  guest_lon = omega arith;
  is_shop = omega arith;
  accno_duple_juso = omega arith;
  shared = λ e. cc;
}

module _ {F : Floats} {D : Mysql} {G : Engine F} (p : Parameters) (n : ℕ) (shares : Text → Type 0)
    (route : List (ChromosomeCopy F)) (s : Cities F) (live : D.Server → Type 0) where
  -- A view of the program with these parameters, route and cities, without orders and distances.
  pub record IsBegun (v : View F D G) : Type 0 where
    pub parameters : v.parameters ≡ p
    pub route_is : v.best_chromosome_copy ≡ route
    pub serves : live v.server
    pub cities : v.cities ≡ s
    pub no_orders : v.vector_order_data ≡ []
    pub no_table : v.vector_mutual_data ≡ []

  -- A view with `n` orders that fit, and `k` rows of distances.
  pub record IsLoading (k : ℕ) (v : View F D G) : Type 0 where
    pub parameters : v.parameters ≡ p
    pub route_is : v.best_chromosome_copy ≡ route
    pub serves : live v.server
    pub table : IsTable s n k v
    pub orders : All (FitsOrder shares) v.vector_order_data

  pub IsBegun-sent :
      (v : View F D G) (e : D.Server) (sent : List Text)
      → IsBegun v
      → live e
      → IsBegun (record v { server = e; statements = sent })
  IsBegun-sent v e sent h good = record {
    parameters = h.parameters;
    route_is = h.route_is;
    serves = good;
    cities = h.cities;
    no_orders = h.no_orders;
    no_table = h.no_table;
  }

  pub IsLoading-sent :
      (k : ℕ) (v : View F D G) (e : D.Server) (sent : List Text)
      → IsLoading k v
      → live e
      → IsLoading k (record v { server = e; statements = sent })
  IsLoading-sent k v e sent h good = record {
    parameters = h.parameters;
    route_is = h.route_is;
    serves = good;
    table = IsTable-sent s n k v e sent h.table;
    orders = h.orders;
  }

  pub size_vectors_lem :
      (v : View F D G)
      → IsBegun v
      → (t : View F D G) × (size_vectors n v ≡ (done tt, t)) × IsLoading 0 t
  unfolding size_vectors
  size_vectors_lem v h = (
    _,
    refl,
    record {
      parameters = h.parameters;
      route_is = h.route_is;
      serves = h.serves;
      table = record {
        cities = h.cities;
        count = refl;
        orders = length-resize n no_order v.vector_order_data;
        height = ap length h.no_table;
        width = λ i row at.
            let none_there : get_elem? v.vector_mutual_data i ≡ none =
              ap (λ l. get_elem? l i) h.no_table in
            cc;
      };
      orders =
          let resized : All (FitsOrder shares) (resize n no_order []) =
            All-append _ (take n []) (replicate (n - 0) no_order) (All-take _ n [] tt)
              (All-replicate _ (n - 0) no_order (no_order-Fits shares)) in
          rw (h.no_orders) resized;
    },
  )

  pub store_order_lem :
      (k i : ℕ) (order : VectorOrderData) (w : View F D G)
      → i < n
      → FitsOrder shares order
      → IsLoading k w
      → (b : Unit {0}) × (t : View F D G) × (store_order i order w w ≡ (done b, t)) × IsLoading k t
  unfolding store_order
  store_order_lem k i order w inside fits h =
      let inside' : i < length w.vector_order_data = omega (arith, h.table.orders) in
      (
        tt,
        record w { vector_order_data = set w.vector_order_data i order },
        rw (assign-of_lt w.vector_order_data i order inside') refl,
        record {
          parameters = h.parameters;
          route_is = h.route_is;
          serves = h.serves;
          table = record {
            cities = h.table.cities;
            count = h.table.count;
            orders = length-set w.vector_order_data i order ∙ h.table.orders;
            height = h.table.height;
            width = h.table.width;
          };
          orders = All-set _ w.vector_order_data i order h.orders fits;
        },
      )

  pub store_mutual_lem :
      (k i j : ℕ) (cell : VectorMutualData) (w : View F D G)
      → i < k
      → j < n
      → IsLoading k w
      → (b : Unit {0}) × (t : View F D G) × (store_mutual i j cell w w ≡ (done b, t))
        × IsLoading k t
  unfolding store_mutual Meets
  store_mutual_lem k i j cell w in_i in_j h =
      let m = w.vector_mutual_data in
      let in_m : i < length m = omega (arith, h.table.height) in
      let (row, at) = get_elem?-of_lt m i in_m in
      let in_row : j < length row = omega (arith, h.table.width i row at) in
      let t = record w { vector_mutual_data = set m i (set row j cell) } in
      let run : store_mutual i j cell w w ≡ (done tt, t) =
        rw at (
          rw (assign-of_lt row j cell in_row) (rw (assign-of_lt m i (set row j cell) in_m) refl)) in
      (
        tt,
        t,
        run,
        record {
          parameters = h.parameters;
          route_is = h.route_is;
          serves = h.serves;
          table =
              Meets-done (λ a. IsTable s n k) (store_mutual i j cell w w) tt t run
                ((store_mutual-Keeps s n k i j cell w h.table).run w refl);
          orders = h.orders;
        },
      )

  pub add_row_lem :
      (i : ℕ) (v : View F D G)
      → IsLoading i v
      → (b : Unit {0}) × (t : View F D G) × (add_row i v v ≡ (done b, t)) × IsLoading (i + 1) t
  unfolding add_row Meets
  add_row_lem i v h =
      let pushed = v.vector_mutual_data ++ [] ∷ [] in
      let row = resize v.count_order_data no_mutual [] in
      let at : get_elem? pushed i ≡ some [] =
        ap (get_elem? pushed) (sym h.table.height)
        ∙ get_elem?-append_length v.vector_mutual_data [] in
      let inside : i < length pushed =
        omega (arith, h.table.height, length-append v.vector_mutual_data ([] ∷ [])) in
      let t = record v { vector_mutual_data = set pushed i row } in
      let run : add_row i v v ≡ (done tt, t) = rw at (rw (assign-of_lt pushed i row inside) refl) in
      (
        tt,
        t,
        run,
        record {
          parameters = h.parameters;
          route_is = h.route_is;
          serves = h.serves;
          table =
              Meets-done (λ a. IsTable s n (i + 1)) (add_row i v v) tt t run
                ((add_row-Leads s n i v h.table).run v refl);
          orders = h.orders;
        },
      )
