-- ===== src/View/Calc/Counting.antt =====
-- The loop of `OnCalcDeliveryData` (TSP/TspView.cpp) that adds up the amounts comes to its end on a
-- server that answers.
use tsp_simple.Base.{
  ℕ, zero, suc, ◌+◌, ◌*◌, ◌≤◌, ◌<◌, ◌≡◌, refl, some, Option, List, length, length-set, get_elem?,
  get_elem?-of_lt, set, arith,
}
use tsp_simple.Base.Int.{ℤ, pos}
use tsp_simple.Text.Reading.{IsReading, sprintf-IsReading}
use tsp_simple.Text.{Text, is_empty, atoi}
use tsp_simple.City.{ChromosomeCopy}
use tsp_simple.External.{Floats, Mysql, Engine, Row}
use tsp_simple.View.{View, Parameters, column, fetch_row}
use tsp_simple.View.Balance.{add_int}
use tsp_simple.View.Balance.Bounds.{AreUsual}
use tsp_simple.View.Buffers.{FitsParameters}
use tsp_simple.View.Calc.{
  single_pay_format, shared_pay_format, single_pay_args, shared_pay_args, ask_single_pay,
  ask_shared_pay, ask_stop_pay, store_pay, calc_stop, calc_stops,
}
use tsp_simple.View.Calc.Answers.{IsAmount, IsPaid, single-Prints, shared-Prints}
use tsp_simple.View.Ends.{
  Ends, weaken, Ends-pure, Ends-then, Ends-need, Ends-get, Ends-if, Given, IsServing,
  query_text-Ends,
}
use tsp_simple.View.Insert.Fits.{FitsStop}
use tsp_simple.View.Load.Storing.{assign-of_lt}
use tsp_simple.View.Calc.Amounts.{AtMost, add_int-AtMost, AreUsual-set}

-- The view before the division of a route whose amounts are being read: the arrays have their
-- size, the amounts read are usual, and the last of the vehicles has none.
module _ {F : Floats} {D : Mysql} {G : Engine F} (live : D.Server → Type 0) (p : Parameters)
    (route : List (ChromosomeCopy F)) (k : ℕ) where
  pub record IsCounting (v : View F D G) : Type 0 where
    pub parameters : v.parameters ≡ p
    pub route_is : v.best_chromosome_copy ≡ route
    pub serves : live v.server
    pub room : length route ≤ length v.vehicle_pay_index
    pub usual : AreUsual v.vehicle_pay_index
    pub flags : length v.vehicle_flag ≡ 512
    pub pays : length v.vehicle_pay ≡ 512
    pub last_free : get_elem? v.vehicle_pay k ≡ some (pos 0)

module _ {F : Floats} {D : Mysql} {G : Engine F} {live : D.Server → Type 0} {p : Parameters}
    {route : List (ChromosomeCopy F)} {k : ℕ} where
  pub sent-IsCounting :
      (v : View F D G) (e : D.Server) (sent : List Text)
      → IsCounting {G = G} live p route k v
      → live e
      → IsCounting live p route k (record v { server = e; statements = sent })
  sent-IsCounting v e sent h serves = record {
    parameters = h.parameters;
    route_is = h.route_is;
    serves = serves;
    room = h.room;
    usual = h.usual;
    flags = h.flags;
    pays = h.pays;
    last_free = h.last_free;
  }

module _ {F : Floats} {D : Mysql} {G : Engine F} {live : D.Server → Type 0} {p : Parameters}
    {route : List (ChromosomeCopy F)} {k : ℕ} {most : ℕ}
    (serving : IsServing D live IsReading (IsPaid p route most)) (fits : FitsParameters p)
    (stops_fit : (i : ℕ) (c : ChromosomeCopy F) → get_elem? route i ≡ some c → FitsStop c)
    (stale : ℕ → View F D G → Option Text)
    (stale_usual : (i : ℕ) (v : View F D G) → Given (stale i v) (IsAmount 195_000_000)) where
  ask_single_pay-Ends :
      (i : ℕ) (c : ChromosomeCopy F)
      → get_elem? route i ≡ some c
      → Ends
          (IsCounting live p route k)
          (ask_single_pay {D = D} {G = G} c p)
          (λ found. Given (column (fetch_row found) 0) (IsAmount most))
  unfolding ask_single_pay
  ask_single_pay-Ends i c at =
      let (sql, printed) = single-Prints fits c (stops_fit i c at) in
      weaken
        (query_text-Ends serving (λ v h. h.serves) sent-IsCounting 500 1024 single_pay_format
          (single_pay_args c p) sql printed
          (sprintf-IsReading 1024 single_pay_format (single_pay_args c p) sql printed refl))
        (λ found paid. paid.single i c at printed)

  ask_shared_pay-Ends :
      (i : ℕ) (c : ChromosomeCopy F)
      → get_elem? route i ≡ some c
      → Ends
          (IsCounting live p route k)
          (ask_shared_pay {D = D} {G = G} c p)
          (λ found. Given (column (fetch_row found) 0) (IsAmount most))
  unfolding ask_shared_pay
  ask_shared_pay-Ends i c at =
      let (sql, printed) = shared-Prints fits c (stops_fit i c at) in
      weaken
        (query_text-Ends serving (λ v h. h.serves) sent-IsCounting 500 1024 shared_pay_format
          (shared_pay_args c p) sql printed
          (sprintf-IsReading 1024 shared_pay_format (shared_pay_args c p) sql printed refl))
        (λ found paid. paid.shared i c at printed)

  ask_stop_pay-Ends :
      (i : ℕ) (c : ChromosomeCopy F) (q : Parameters)
      → get_elem? route i ≡ some c
      → q ≡ p
      → Ends
          (IsCounting live p route k)
          (ask_stop_pay {D = D} {G = G} c q)
          (λ found. Given (column (fetch_row found) 0) (IsAmount most))
  unfolding ask_stop_pay
  ask_stop_pay-Ends i c q at same = rw same (
      Ends-if (is_empty c.details.accno_duple) (λ e. ask_single_pay-Ends i c at)
        (λ e. ask_shared_pay-Ends i c at))

  store_pay-Ends :
      (i : ℕ) (z : ℤ)
      → i < length route
      → AtMost 195_000_000 z
      → Ends (IsCounting live p route k) (store_pay stale i z) (λ a. Unit {0})
  unfolding store_pay
  store_pay-Ends i z inside usual = record {
    run = λ v h.
        let inside' : i < length v.vehicle_pay_index = omega (arith, h.room) in
        let pays = set v.vehicle_pay_index i z in
        (
          tt,
          record v { vehicle_pay_index = pays },
          rw (assign-of_lt v.vehicle_pay_index i z inside') refl,
          record {
            parameters = h.parameters;
            route_is = h.route_is;
            serves = h.serves;
            room = omega (arith, h.room, length-set v.vehicle_pay_index i z);
            usual = AreUsual-set v.vehicle_pay_index i z inside' h.usual usual;
            flags = h.flags;
            pays = h.pays;
            last_free = h.last_free;
          },
          tt,
        );
  }

  calc_stop-Ends :
      (row : Row) (i total : ℕ)
      → i < length route
      → total + most < 2_147_483_648
      → Ends
          (IsCounting live p route k)
          (calc_stop stale (some row) i (pos total))
          (AtMost (total + most))
  unfolding calc_stop
  calc_stop-Ends row i total inside small = Ends-get _ λ v h.
      let (c, at) = get_elem?-of_lt route i inside in
      let stop_is : Given (get_elem? v.best_chromosome_copy i)
          (λ stop. get_elem? route i ≡ some stop) =
        record { value = c; there = rw (h.route_is) at; good = at } in
      Ends-need (get_elem? v.best_chromosome_copy i) _ stop_is λ stop e0 here.
        Ends-then (ask_stop_pay-Ends i stop v.parameters here h.parameters) λ found paid.
          Ends-need (column (fetch_row found) 0) _ paid λ text e (n, is, few).
            Ends-need (atoi text) _ (record { value = pos n; there = is; good = refl })
              λ pay e' (same : pay ≡ pos n).
                let sum_is : Given (add_int (pos total) pay) (AtMost (total + most)) =
                  rw same (add_int-AtMost total n most few small) in
                Ends-need (add_int (pos total) pay) _ sum_is λ total' e'' sum. Ends-get _ λ w h'.
                  Ends-need (stale i w) _ (stale_usual i w) λ read e3 (z, is_z, usual).
                    Ends-need (atoi read) _
                      (record { value = pos z; there = is_z; good = (z, refl, usual) })
                      λ kept e4 amount.
                        Ends-then (store_pay-Ends i kept inside amount) λ a j. Ends-pure total' sum

  pub calc_stops-Ends :
      (row : Row) (rounds i total : ℕ)
      → i + rounds ≤ length route
      → total + rounds * most < 2_147_483_648
      → Ends
          (IsCounting live p route k)
          (calc_stops stale (some row) rounds i (pos total))
          (AtMost (total + rounds * most))
  unfolding calc_stops
  calc_stops-Ends row zero i total inside small = Ends-pure (pos total) (total, refl, omega arith)
  calc_stops-Ends row (suc rounds) i total inside small =
      Ends-then (calc_stop-Ends row i total (omega arith) (omega arith)) λ z (n, is, few). rw is (
        weaken (calc_stops-Ends row rounds (i + 1) n (omega arith) (omega arith))
          (λ z' (n', is', few'). (n', is', omega arith)))
