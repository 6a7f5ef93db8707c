-- ===== src/View/Load/Complete.antt =====
-- `OnLoadDeliveryData` (TSP/TspView.cpp) comes to its end on a server that answers.
use tsp_simple.Base.{
  All, ℕ, ◌+◌, ◌<◌, ◌≡◌, refl, ap, ◌∙◌, false, List, [], ◌∷◌, length, get_elem?, arith,
}
use tsp_simple.Text.Reading.{IsReading, sprintf-IsReading}
use tsp_simple.Text.{Text, is_empty}
use tsp_simple.City.{Cities, ChromosomeCopy, VectorOrderData}
use tsp_simple.External.{Floats, Mysql, Engine, Row}
use tsp_simple.View.{View, Parameters, get, ◌>>=◌, returned, outcome}
use tsp_simple.View.Buffers.{FitsParameters, names-Prints}
use tsp_simple.View.Ends.{Ends, Ends-pure, Given, IsServing, Ends-connect, Ends-query_text}
use tsp_simple.View.Load.{
  store_order, fetch_order, fetch_pay, load_order, load_orders, load_shared_pay, pay_of, load_pay,
  load_pays, open_connection, load_details, fetch_orders, load_found, fetch_count, size_vectors,
  load_count, load_body, on_load_delivery_data, count_up,
}
use tsp_simple.View.Load.Answers.{HasKeys, FitsOrder, IsDay}
use tsp_simple.View.Load.Fetching.{
  fetch_count-Ends, fetch_orders-Ends, fetch_order-Ends, fetch_pay-Ends, order_at,
}
use tsp_simple.View.Load.Storing.{
  IsBegun, IsLoading, IsBegun-sent, IsLoading-sent, size_vectors_lem, store_order_lem,
}
use tsp_simple.View.Load.Table.{IsTable}
use tsp_simple.View.Reaches.{
  Reaches, Reaches-pure, Reaches-then, Reaches-behind, Reaches-get, Reaches-at, Reaches-if,
  Reaches-need, Reaches-count_up,
}
use tsp_simple.View.Load.Filling.{load_table-Reaches}

module _ {F : Floats} {D : Mysql} {G : Engine F} {p : Parameters} {n : ℕ} {listed : Row → Type 0}
    {shares : Text → Type 0} {live : D.Server → Type 0}
    (serving : IsServing D live IsReading (IsDay shares p n listed)) (fits : FitsParameters p)
    (keys : (row : Row) → listed row → HasKeys row) (route : List (ChromosomeCopy F))
    (s : Cities F) where
  abbrev Begun : View F D G → Type 0
  Begun = IsBegun p n shares route s live

  abbrev Loading : ℕ → View F D G → Type 0
  Loading = IsLoading p n shares route s live

  load_order-Reaches :
      (row : Row) (i : ℕ)
      → listed row
      → i < n
      → Reaches (Loading 0) (load_order row i) (λ a. Loading 0)
  unfolding load_order
  load_order-Reaches row i h inside =
      Reaches-get (λ v. fetch_order row v >>= λ o. get >>= λ w. store_order i o w)
        λ v l.
          Reaches-behind
            (fetch_order-Ends serving fits keys (λ u k. k.serves)
              (IsLoading-sent p n shares route s live 0) v l.parameters row h)
            λ o o_fits.
              Reaches-at (store_order i o)
                (λ w k. store_order_lem p n shares route s live 0 i o w inside o_fits k)

  load_orders-Reaches :
      (found : List Row) (i : ℕ)
      → i + length found ≡ n
      → All listed found
      → Reaches (Loading 0) (load_orders found i) (λ a. Loading 0)
  unfolding load_orders
  load_orders-Reaches [] i e all = Reaches-pure tt (λ v l. l)
  load_orders-Reaches (row ∷ rest) i e (h, all) =
      Reaches-then (load_order-Reaches row i h (omega arith))
        λ a. load_orders-Reaches rest (i + 1) (omega arith) all

  load_shared_pay-Reaches :
      (i : ℕ) (o : VectorOrderData)
      → i < n
      → FitsOrder shares o
      → is_empty o.accno_duple_juso ≡ false
      → Reaches (Loading 0) (load_shared_pay i o) (λ a. Loading 0)
  unfolding load_shared_pay
  load_shared_pay-Reaches i o inside h several =
      Reaches-get
        (λ v. fetch_pay o v >>= λ pay. get >>= λ w. store_order i (record o { pay = pay }) w)
        λ v l.
          Reaches-behind
            (fetch_pay-Ends serving fits keys (λ u k. k.serves)
              (IsLoading-sent p n shares route s live 0) v l.parameters o h several)
            λ pay short. Reaches-at (store_order i (record o { pay = pay })) (λ w k.
              store_order_lem p n shares route s live 0 i (record o { pay = pay }) w inside
                (record {
                  accno = h.accno;
                  guest_id = h.guest_id;
                  guest_tel = h.guest_tel;
                  guest_juso_sub_id = h.guest_juso_sub_id;
                  pay = short;
                  guest_lat = h.guest_lat;
                  guest_lon = h.guest_lon;
                  is_shop = h.is_shop;
                  accno_duple_juso = h.accno_duple_juso;
                  shared = h.shared;
                })
                k)

  load_pay-Reaches : (i : ℕ) → i < n → Reaches (Loading 0) (load_pay i) (λ a. Loading 0)
  unfolding load_pay pay_of
  load_pay-Reaches i inside = Reaches-get (pay_of i) λ v l.
      let here : Given (get_elem? v.vector_order_data i) (FitsOrder shares) =
        order_at shares v.vector_order_data i l.orders (omega (arith, l.table.orders)) in
      Reaches-need (get_elem? v.vector_order_data i) _ here λ o e h.
        Reaches-if (is_empty o.accno_duple_juso) (λ own. Reaches-pure tt (λ u k. k))
          (λ several. load_shared_pay-Reaches i o inside h several)

  load_pays-Reaches : Reaches (Loading 0) load_pays (λ a. Loading 0)
  unfolding load_pays
  load_pays-Reaches =
      Reaches-get (λ v. count_up (length v.vector_order_data) 0 load_pay)
        λ v l.
          Reaches-count_up (λ i. Loading 0) load_pay n load_pay-Reaches (length v.vector_order_data)
            0 (omega (arith, l.table.orders))

  open_connection-Ends :
      (inv : View F D G → Type 0)
      → ((v : View F D G) → inv v → live v.server)
      → ((v : View F D G) (e : D.Server) (sent : List Text)
          → inv v
          → live e
          → inv (record v { server = e; statements = sent }))
      → Ends inv open_connection (λ a. Unit {0})
  unfolding open_connection
  open_connection-Ends inv is_live kept = Ends-connect serving is_live kept 100 _ (
      Ends-query_text serving is_live kept 100 512 "set names euckr" [] names-Prints.0 _
        names-Prints.1
        (sprintf-IsReading 512 "set names euckr" [] names-Prints.0 names-Prints.1 refl)
        λ found promised. Ends-pure tt tt)

  load_details-Reaches :
      (found : List Row)
      → length found ≡ n
      → All listed found
      → Reaches (Loading 0) (load_details found) (λ a. Loading n)
  unfolding load_details
  load_details-Reaches found size all =
      Reaches-behind
        (open_connection-Ends (Loading 0) (λ u k. k.serves)
          (IsLoading-sent p n shares route s live 0))
        λ a h.
          Reaches-then (load_orders-Reaches found 0 (omega arith) all)
            λ b. Reaches-then load_pays-Reaches λ c. load_table-Reaches serving fits keys route s

  load_found-Reaches : Reaches (Loading 0) load_found (λ a. Loading n)
  unfolding load_found
  load_found-Reaches =
      Reaches-get (λ v. fetch_orders v >>= load_details)
        λ v l.
          Reaches-behind
            (fetch_orders-Ends serving fits keys (λ u k. k.serves)
              (IsLoading-sent p n shares route s live 0) v l.parameters)
            λ found (size, all). load_details-Reaches found size all

  load_count-Reaches : Reaches Begun load_count (λ a. Loading 0)
  unfolding load_count
  load_count-Reaches =
      Reaches-get (λ v. fetch_count v >>= size_vectors)
        λ v b.
          Reaches-behind
            (fetch_count-Ends serving fits keys (λ u k. k.serves)
              (IsBegun-sent p n shares route s live) v b.parameters)
            λ m (same : m ≡ n). record {
              run = λ u k.
                  let (t, ran, l) = size_vectors_lem p n shares route s live u k in
                  (tt, t, ap (λ c. size_vectors c u) same ∙ ran, l);
            }

  pub load_body-Reaches : Reaches Begun load_body (λ a. Loading n)
  unfolding load_body
  load_body-Reaches =
      Reaches-behind
        (open_connection-Ends Begun (λ u k. k.serves) (IsBegun-sent p n shares route s live))
        λ a h. Reaches-then load_count-Reaches λ b. load_found-Reaches

-- The first step comes to its end and returns 0, without a buffer that overflows, a NULL that is read
-- or an access out of bounds, on a view without orders and distances, when the server answers every
-- statement that reads, with the rows that the database keeps for a day with `n` orders, and the arguments of
-- the program fit into the arrays that `main` copies them to. There are `n` orders then, each of
-- which fits into its arrays, and the table has a row for each order with an entry for each order.
pub on_load_delivery_data_complete :
    {F : Floats} {D : Mysql} {G : Engine F} (v : View F D G) (n : ℕ) (listed : Row → Type 0)
    (shares : Text → Type 0) (live : D.Server → Type 0)
    → IsServing D live IsReading (IsDay shares v.parameters n listed)
    → live v.server
    → ((row : Row) → listed row → HasKeys row)
    → FitsParameters v.parameters
    → v.vector_order_data ≡ []
    → v.vector_mutual_data ≡ []
    → (w : View F D G) × (on_load_delivery_data v ≡ (returned 0, w))
      × IsTable v.cities n n w
      × All (FitsOrder shares) w.vector_order_data
unfolding on_load_delivery_data
on_load_delivery_data_complete v n listed shares live serving serves keys fits no_orders no_table =
    let (a, w, run, l) =
      (load_body-Reaches serving fits keys v.best_chromosome_copy v.cities).run v (record {
        parameters = refl;
        route_is = refl;
        serves = serves;
        cities = refl;
        no_orders = no_orders;
        no_table = no_table;
      }) in
    (w, ap (λ (r, t). (outcome r, t)) run, l.table, l.orders)
