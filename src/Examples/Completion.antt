-- ===== src/Examples/Completion.antt =====
-- A run of `OnVehicleDataInsert` (TSP/TspView.cpp) on a server that answers every statement.
use tsp_simple.Base.{
  ℕ, zero, suc, ◌≡◌, refl, Bool, true, false, ◌||◌, not, Option, some, ◌<◌, List, [], ◌∷◌, ◌++◌,
  replicate, get_elem?, arith,
}
use tsp_simple.Text.{Text, bytes, to_narrow, to_wide, atoi, strcpy}
use tsp_simple.City.{ChromosomeCopy}
use tsp_simple.Examples.Stubs.{whole, two_sleeps, for_vehicles, details_at}
use tsp_simple.External.{Mysql, Row, rows}
use tsp_simple.View.{View, Parameters, new_view, returned, column}
use tsp_simple.View.Ends.{Given, IsServing}
use tsp_simple.Text.Reading.{reads}
use tsp_simple.View.Setting.{details_of_order}
use tsp_simple.View.Insert.{on_vehicle_data_insert, target_of_copy}
use tsp_simple.View.Insert.Answers.{IsAsked, IsSchema, HasDistance, HasGuest, IsOrderRow, HasSeq}
use tsp_simple.View.Insert.Complete.{on_vehicle_data_insert_complete}
use tsp_simple.View.Buffers.{Fits, FitsParameters}
use tsp_simple.View.Insert.Fits.{FitsStop}
use tsp_simple.View.Insert.Log.{IsBodyLog}

abbrev pub twos : Row
twos = replicate 29 (some (bytes "2"))

-- A server that answers every statement with two rows of the text "2". Once it
-- is written to, it has one such row less.
abbrev pub listed_by : Bool → List Row
listed_by true = twos ∷ []
listed_by false = twos ∷ twos ∷ []

abbrev pub steady : Mysql
steady = record {
  Server = Bool;
  connect = λ s. true;
  query = λ sql s. (rows (listed_by s), s || not (reads sql));
}

-- Nothing is written yet.
abbrev pub Fresh : Bool → Type 0
Fresh s = s ≡ false

abbrev pub Always : Bool → Type 0
Always s = Unit {0}

pub two : {o : Option Text} (size : ℕ) → 1 < size → o ≡ some (bytes "2") → Given o (Fits size)
two size h e = record { value = bytes "2"; there = e; good = h }

two-HasDistance : (rest : List Row) → HasDistance (twos ∷ rest)
unfolding column atoi strcpy
two-HasDistance rest = record {
  distance = record {
    value = bytes "2";
    there = refl;
    good = record { value = _; there = refl; good = tt };
  };
  json = two 202_400 (omega arith) refl;
}

two-HasGuest : (rest : List Row) → HasGuest (twos ∷ rest)
unfolding column
two-HasGuest rest = record { name = two 100 (omega arith) refl; juso = two 256 (omega arith) refl }

twos-IsOrderRow : IsOrderRow twos
unfolding column
twos-IsOrderRow = record {
  accno = two 32 (omega arith) refl;
  name = two 100 (omega arith) refl;
  tel = two 100 (omega arith) refl;
  pay = two 32 (omega arith) refl;
  id = two 64 (omega arith) refl;
  juso_sub_id = two 2 (omega arith) refl;
  lat = two 64 (omega arith) refl;
  lon = two 64 (omega arith) refl;
  juso = two 256 (omega arith) refl;
  is_shop = two 2 (omega arith) refl;
  accno_duple = two 100 (omega arith) refl;
}

twos-HasSeq : HasSeq twos
unfolding column
twos-HasSeq = two 32 (omega arith) refl

listed-IsSchema :
    (p : Parameters) (route : List (ChromosomeCopy whole)) (sql : Text) (s : Bool)
    → IsSchema p route sql (listed_by s)
listed-IsSchema p route sql true = record {
  leg = λ j from next a b e. two-HasDistance [];
  guest = λ i next a e. two-HasGuest [];
  guests = λ i next a e. (twos-IsOrderRow, tt);
  bad = λ e. (twos-HasSeq, tt);
}
listed-IsSchema p route sql false = record {
  leg = λ j from next a b e. two-HasDistance (twos ∷ []);
  guest = λ i next a e. two-HasGuest (twos ∷ []);
  guests = λ i next a e. (twos-IsOrderRow, (twos-IsOrderRow, tt));
  bad = λ e. (twos-HasSeq, (twos-HasSeq, tt));
}

pub steady-IsServing :
    (p : Parameters) (route : List (ChromosomeCopy whole))
    → IsServing steady Always IsAsked (IsSchema p route)
steady-IsServing p route = record {
  connects = λ s h. refl;
  answers = λ sql s may h. (listed_by s, refl, listed-IsSchema p route sql s, tt);
}

pub for_vehicles-Fits : (n : ℕ) → FitsParameters (for_vehicles n)
for_vehicles-Fits n = record {
  delivery_date = omega arith;
  meridiem_type = omega arith;
  meridiem_flag = omega arith;
  location_id = omega arith;
  vehicle_no = omega arith;
}

abbrev pub stop_at : ℕ → ChromosomeCopy whole
stop_at n = record { id = n; details = details_at (bytes "1") }

abbrev pub two_stops : View whole steady two_sleeps
two_stops = record (new_view {G = two_sleeps} (for_vehicles 1) 0 0 false) {
  best_chromosome_copy = stop_at 1 ∷ stop_at 2 ∷ [];
}

stop_at-Fits : (n : ℕ) → FitsStop (stop_at n)
unfolding target_of_copy to_narrow to_wide details_of_order
stop_at-Fits n = record {
  accno = omega arith;
  name = omega arith;
  tel = omega arith;
  pay = omega arith;
  id = omega arith;
  juso_sub_id = omega arith;
  lat = omega arith;
  lon = omega arith;
  juso = omega arith;
  is_shop = omega arith;
  accno_duple = omega arith;
}

pub stops_fit :
    (i : ℕ) (c : ChromosomeCopy whole)
    → get_elem? (stop_at 1 ∷ stop_at 2 ∷ []) i ≡ some c
    → FitsStop c
stops_fit zero c e = let same : stop_at 1 ≡ c = cc in rw (← same) (stop_at-Fits 1)
stops_fit (suc zero) c e = let same : stop_at 2 ≡ c = cc in rw (← same) (stop_at-Fits 2)
stops_fit (suc (suc i)) c e = cc

on_vehicle_data_insert_complete_example :
    (w : View whole steady two_sleeps) × (log : List Text) × (on_vehicle_data_insert two_stops
      ≡ (returned 0, w))
    × (w.statements ≡ two_stops.statements ++ log)
    × IsBodyLog two_stops.parameters two_stops.best_chromosome_copy log
unfolding new_view
on_vehicle_data_insert_complete_example =
    on_vehicle_data_insert_complete two_stops Always
      (steady-IsServing two_stops.parameters two_stops.best_chromosome_copy) tt
      (for_vehicles-Fits 1) stops_fit
