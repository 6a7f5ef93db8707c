-- ===== src/Examples/Calculation.antt =====
-- Runs of step 5 (TSP/TspView.cpp) on a server that answers, for a route of two stops.
use tsp_simple.Base.{
  ℕ, zero, suc, ◌≡◌, ◌≤◌, refl, Bool, true, false, Option, some, List, [], ◌∷◌, arith,
  length-replicate, get_elem?-replicate,
}
use tsp_simple.Base.Int.{ℤ, pos}
use tsp_simple.Text.Reading.{IsReading}
use tsp_simple.Text.{Text, bytes, atoi}
use tsp_simple.City.{ChromosomeCopy}
use tsp_simple.View.{View, Parameters, done, new_view, column, no_flags, no_pays}
use tsp_simple.View.Balance.Bounds.{AreUsual}
use tsp_simple.View.Calc.{calc_body}
use tsp_simple.View.Calc.Answers.{IsAmount, IsPaid}
use tsp_simple.View.Calc.Counting.{IsCounting}
use tsp_simple.View.Calc.Complete.{IsSettled, calc_body_complete}
use tsp_simple.View.Ends.{Given, IsServing}
use tsp_simple.Examples.Completion.{
  twos, listed_by, steady, Always, for_vehicles-Fits, two_stops, stops_fit,
}
use tsp_simple.Examples.Stubs.{whole, two_sleeps}

-- Two stops for one vehicle, whose amounts are not read yet.
abbrev unpaid : View whole steady two_sleeps
unpaid = record two_stops { vehicle_pay_index = pos 0 ∷ pos 0 ∷ [] }

-- The memory that was freed still holds the text that was read from it.
abbrev kept : ℕ → View whole steady two_sleeps → Option Text
kept i v = some (bytes "2")

two-IsAmount : (most : ℕ) → 2 ≤ most → IsAmount most (bytes "2")
unfolding atoi
two-IsAmount most h = (2, refl, h)

steady-IsPaid :
    (p : Parameters) (route : List (ChromosomeCopy whole))
    → IsServing steady Always IsReading (IsPaid p route 2)
unfolding column
steady-IsPaid p route =
    let paid : Given (column (some twos) 0) (IsAmount 2) = record {
      value = bytes "2";
      there = refl;
      good = two-IsAmount 2 (omega arith);
    } in
    record {
      connects = λ s h. refl;
      answers = λ sql s may h. (listed_by s, refl, go paid sql s, tt);
    }
  where
    go :
        Given (column (some twos) 0) (IsAmount 2)
        → (sql : Text) (s : Bool) → IsPaid p route 2 sql (listed_by s)
    go paid sql true = record {
      day = λ e. (twos, refl);
      single = λ i c at e. paid;
      shared = λ i c at e. paid;
    }
    go paid sql false = record {
      day = λ e. (twos, refl);
      single = λ i c at e. paid;
      shared = λ i c at e. paid;
    }

zeros-AreUsual : AreUsual (pos 0 ∷ pos 0 ∷ [])
zeros-AreUsual zero x e = (0, cc, omega arith)
zeros-AreUsual (suc zero) x e = (0, cc, omega arith)
zeros-AreUsual (suc (suc i)) x e = cc

unpaid-IsCounting : IsCounting Always unpaid.parameters unpaid.best_chromosome_copy 0 unpaid
unfolding new_view no_flags no_pays
unpaid-IsCounting = record {
  parameters = refl;
  route_is = refl;
  serves = tt;
  room = omega arith;
  usual = zeros-AreUsual;
  flags = length-replicate {A = ℕ} 512 0;
  pays = length-replicate {A = ℤ} 512 (pos 0);
  last_free = get_elem?-replicate {A = ℤ} 512 (pos 0) 0 (omega arith);
}

calc_body_complete_example :
    (again : Bool) × (w : View whole steady two_sleeps) × (calc_body kept unpaid ≡ (done again, w))
    × IsSettled 0 2 again w
unfolding new_view
calc_body_complete_example =
    calc_body_complete unpaid Always 2 0 kept
      (steady-IsPaid unpaid.parameters unpaid.best_chromosome_copy) unpaid-IsCounting
      (for_vehicles-Fits 1) stops_fit
      (λ i w. record {
        value = bytes "2";
        there = refl;
        good = two-IsAmount 195_000_000 (omega arith);
      })
      refl (omega arith) (omega arith) (omega arith)
