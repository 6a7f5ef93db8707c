-- ===== src/View/Calc/Complete.antt =====
-- `OnCalcDeliveryData` (TSP/TspView.cpp) up to where it calls itself comes to its end on a server
-- that answers.
use tsp_simple.Base.{
  ℕ, suc, ◌+◌, ◌*◌, ◌≤◌, ◌<◌, ◌≡◌, refl, ap, ◌∙◌, Bool, false, some, Option, List, length,
  get_elem?, take, arith,
}
use tsp_simple.Base.Int.{ℤ, pos}
use tsp_simple.Text.Reading.{IsReading, sprintf-IsReading}
use tsp_simple.Text.{Text}
use tsp_simple.City.{ChromosomeCopy}
use tsp_simple.External.{Floats, Mysql, Engine, Row}
use tsp_simple.View.{View, Parameters, done, fetch_row, query_text}
use tsp_simple.View.Balance.{div_int, nine_tenths, balance}
use tsp_simple.View.Balance.Bounds.{AreUsual}
use tsp_simple.View.Balance.Ending.{balance-defined}
use tsp_simple.View.Balance.Settled.{IsDivided, balance-IsDivided}
use tsp_simple.View.Buffers.{FitsParameters}
use tsp_simple.View.Calc.{all_pays_format, day_args, calc_stops, divide_route, calc_body}
use tsp_simple.View.Calc.Answers.{IsAmount, IsPaid, day-Prints}
use tsp_simple.View.Ends.{Ends, weaken, Given, IsServing, query_text-Ends, connect-Ends}
use tsp_simple.View.Insert.Fits.{FitsStop}
use tsp_simple.View.Reaches.{Reaches, Reaches-behind, Reaches-get}
use tsp_simple.View.Calc.Amounts.{AtMost, div_int-AtMost, nine_tenths-Within, last_vehicle}
use tsp_simple.View.Calc.Counting.{IsCounting, sent-IsCounting, calc_stops-Ends}

-- A division among `k + 1` vehicles that is final has a route for each of them.
abbrev pub IsSettled : {F : Floats} {D : Mysql} {G : Engine F} → ℕ → ℕ → Bool → View F D G → Type 0
IsSettled k stops again w =
    again ≡ false
    → (avg : ℤ) × IsDivided avg (k + 1) (take stops w.vehicle_pay_index) w.vehicle_flag
        w.vehicle_pay

divided :
    (k : ℕ) (count : ℕ) (stops : List ℤ) (flags : List ℕ) (pays : List ℤ) (n : ℕ)
    → k < 512
    → count ≤ 511
    → n + 262_000 < 2_147_483_648
    → count ≤ length stops
    → AreUsual stops
    → length flags ≡ 512
    → length pays ≡ 512
    → get_elem? pays k ≡ some (pos 0)
    → Given (balance (pos k) count stops 130 (nine_tenths (pos n)) flags pays) (λ b.
      b.recall ≡ false → (avg : ℤ) × IsDivided avg (k + 1) (take count stops) b.flags b.pays)
divided k count stops flags pays n last few small enough usual f p free =
    let (b, ran) =
      balance-defined n (pos k) count stops 130 (nine_tenths (pos n)) flags pays
        (nine_tenths-Within n n (omega arith)) (omega arith) few enough usual f p in
    record {
      value = b;
      there = ran;
      good = λ once.
          let (avg, tried, parts) =
            balance-IsDivided k count stops 130 (nine_tenths (pos n)) flags pays b last free ran
              once in
          (avg, parts);
    }

module _ {F : Floats} {D : Mysql} {G : Engine F} {live : D.Server → Type 0} {p : Parameters}
    {route : List (ChromosomeCopy F)} {k : ℕ} (stale : ℕ → View F D G → Option Text)
    (vehicles : p.vehicle_number ≡ pos (suc k)) (last : k < 512) (few : length route ≤ 511) where
  divide_route-Reaches :
      (total : ℤ) (n : ℕ)
      → total ≡ pos n
      → n + 262_000 < 2_147_483_648
      → Reaches (IsCounting live p route k) (divide_route stale total) (IsSettled k (length route))
  unfolding divide_route
  divide_route-Reaches total n total_is small = record {
    run = λ v h.
        let number : v.parameters.vehicle_number ≡ pos (suc k) =
          ap (λ (q : Parameters). q.vehicle_number) h.parameters ∙ vehicles in
        let mean = div_int-AtMost n k (omega arith) in
        let (a, is, below) = mean.good in
        let averaged : div_int (pos n) (pos (suc k)) ≡ some (pos a) = mean.there ∙ ap some is in
        let b =
          divided k (length route) v.vehicle_pay_index v.vehicle_flag v.vehicle_pay a last few
            (omega arith) h.room h.usual h.flags h.pays h.last_free in
        (
          b.value.recall,
          record v { vehicle_flag = b.value.flags; vehicle_pay = b.value.pays },
          rw (total_is, number, averaged, last_vehicle k last, h.route_is, b.there) refl,
          b.good,
        );
  }

module _ {F : Floats} {D : Mysql} {G : Engine F} {live : D.Server → Type 0} {p : Parameters}
    {route : List (ChromosomeCopy F)} {k : ℕ} {most : ℕ}
    (serving : IsServing D live IsReading (IsPaid p route most)) (fits : FitsParameters p) where
  ask_day-Ends :
      (q : Parameters)
      → q ≡ p
      → Ends
          (IsCounting {D = D} {G = G} live p route k)
          (query_text 500 1024 all_pays_format (day_args q))
          (λ found. (row : Row) × (fetch_row found ≡ some row))
  ask_day-Ends q same =
      let (sql, printed) = day-Prints fits in
      rw same (
        weaken
          (query_text-Ends serving (λ v h. h.serves) sent-IsCounting 500 1024 all_pays_format
            (day_args p) sql printed
            (sprintf-IsReading 1024 all_pays_format (day_args p) sql printed refl))
          (λ found paid. paid.day printed))

  module _ (stops_fit : (i : ℕ) (c : ChromosomeCopy F) → get_elem? route i ≡ some c → FitsStop c)
      (stale : ℕ → View F D G → Option Text)
      (stale_usual : (i : ℕ) (v : View F D G) → Given (stale i v) (IsAmount 195_000_000)) where
    all_stops-Ends :
        (first : Option Row) (row : Row) (rounds : ℕ)
        → first ≡ some row
        → rounds ≡ length route
        → length route * most + 262_000 < 2_147_483_648
        → Ends
            (IsCounting live p route k)
            (calc_stops stale first rounds 0 (pos 0))
            (AtMost (length route * most))
    all_stops-Ends first row rounds there all small =
        rw (there, all)
          (weaken
            (calc_stops-Ends serving fits stops_fit stale stale_usual row (length route) 0 0
              (omega arith) (omega arith))
            (λ z (n, is, below). (n, is, omega arith)))

    calc_body-Reaches :
        p.vehicle_number ≡ pos (suc k)
        → k < 512
        → length route ≤ 511
        → length route * most + 262_000 < 2_147_483_648
        → Reaches (IsCounting live p route k) (calc_body stale) (IsSettled k (length route))
    unfolding calc_body
    calc_body-Reaches vehicles last few small =
        Reaches-behind (connect-Ends serving (λ v h. h.serves) sent-IsCounting 500) λ a j.
          Reaches-get _ λ v h.
            Reaches-behind (ask_day-Ends v.parameters h.parameters) λ sums (row, there).
              Reaches-behind
                (all_stops-Ends (fetch_row sums) row (length v.best_chromosome_copy) there
                  (ap length h.route_is) small)
                λ total (n, is, below).
                  divide_route-Reaches stale vehicles last few total n is (omega arith)

-- The run of step 5 up to where it calls itself comes to its end, without an overflow and without an
-- access outside of an array; if it does not call itself, the route is divided into one part for each
-- vehicle, in order, none of them empty or of more than eleven stops. There are at most 511 stops and
-- 512 vehicles, the last of which has no amount yet; the two arrays have 512 elements, and the vector
-- of the amounts one for each stop at least, none of them above 195000000. The server is assumed to
-- answer every statement that reads, with an amount of at most `most` for each stop; what stands in a row that is
-- freed, to be an amount of at most 195000000; the amounts together, to be below 2 ^ 31 - 262000; and
-- the arguments of the program and the data of the stops, to fit into their arrays.
pub calc_body_complete :
    {F : Floats} {D : Mysql} {G : Engine F} (v : View F D G) (live : D.Server → Type 0) (most k : ℕ)
    (stale : ℕ → View F D G → Option Text)
    → IsServing D live IsReading (IsPaid v.parameters v.best_chromosome_copy most)
    → IsCounting live v.parameters v.best_chromosome_copy k v
    → FitsParameters v.parameters
    → ((i : ℕ) (c : ChromosomeCopy F) → get_elem? v.best_chromosome_copy i ≡ some c → FitsStop c)
    → ((i : ℕ) (w : View F D G) → Given (stale i w) (IsAmount 195_000_000))
    → v.parameters.vehicle_number ≡ pos (suc k)
    → k < 512
    → length v.best_chromosome_copy ≤ 511
    → length v.best_chromosome_copy * most + 262_000 < 2_147_483_648
    → (again : Bool) × (w : View F D G) × (calc_body stale v ≡ (done again, w))
      × IsSettled k (length v.best_chromosome_copy) again w
calc_body_complete v live most k stale serving counting fits stops_fit stale_usual number last few
      small =
    (calc_body-Reaches serving fits stops_fit stale stale_usual number last few small).run v
      counting
