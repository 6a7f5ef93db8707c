-- ===== src/Examples/Day.antt =====
-- A run of `OnLoadDeliveryData` (TSP/TspView.cpp) on a server that answers every statement.
use tsp_simple.Base.{All, ◌≡◌, refl, ap, false, not, some, [], ◌∷◌, arith}
use tsp_simple.Text.Reading.{IsReading}
use tsp_simple.Text.{Text, bytes, strcpy, atoi}
use tsp_simple.City.{no_cities}
use tsp_simple.Examples.Completion.{steady, Fresh, two, twos, for_vehicles-Fits}
use tsp_simple.Examples.Stubs.{whole, two_sleeps, for_vehicles}
use tsp_simple.External.{Row}
use tsp_simple.View.{View, Parameters, new_view, returned, column}
use tsp_simple.View.Ends.{IsServing}
use tsp_simple.View.Load.{on_load_delivery_data}
use tsp_simple.View.Load.Answers.{HasKeys, HasOrder, IsMutualRow, FitsOrder, IsDay}
use tsp_simple.View.Load.Complete.{on_load_delivery_data_complete}
use tsp_simple.View.Load.Table.{IsTable}

-- The rows of the server, and the addresses that customers share.
abbrev pub IsTwos : Row → Type 0
IsTwos row = row ≡ twos

abbrev pub Any : Text → Type 0
Any t = Unit {0}

twos-HasOrder : HasOrder Any (some twos)
unfolding column strcpy
twos-HasOrder = record {
  seq = two 32 (omega arith) refl;
  accno = two 32 (omega arith) refl;
  location_id = two 4 (omega arith) refl;
  delivery_date = two 10 (omega arith) refl;
  meridiem_type = two 4 (omega arith) refl;
  guest_id = two 64 (omega arith) refl;
  guest_name = two 100 (omega arith) refl;
  guest_tel = two 100 (omega arith) refl;
  guest_juso_sub_id = two 2 (omega arith) refl;
  guest_juso = two 256 (omega arith) refl;
  pay = two 32 (omega arith) refl;
  guest_lat = two 64 (omega arith) refl;
  guest_lon = two 64 (omega arith) refl;
  is_new = two 2 (omega arith) refl;
  is_shop = two 2 (omega arith) refl;
  is_road = two 2 (omega arith) refl;
  create_date = two 32 (omega arith) refl;
  accno_duple_juso = record { value = bytes "2"; there = refl; good = (omega arith, λ e. tt) };
}

twos-IsMutualRow : IsMutualRow twos
unfolding column strcpy
twos-IsMutualRow = record {
  seq = two 32 (omega arith) refl;
  guest_id = two 64 (omega arith) refl;
  guest_juso_sub_id = two 2 (omega arith) refl;
  deguest_id = two 64 (omega arith) refl;
  deguest_juso_sub_id = two 2 (omega arith) refl;
  guest_lat = two 64 (omega arith) refl;
  guest_lon = two 64 (omega arith) refl;
  deguest_lat = two 64 (omega arith) refl;
  deguest_lon = two 64 (omega arith) refl;
  distance_value = two 64 (omega arith) refl;
  guest_date = two 64 (omega arith) refl;
  deguest_date = two 64 (omega arith) refl;
  guest_is_shop = two 2 (omega arith) refl;
  deguest_is_shop = two 2 (omega arith) refl;
  create_date = two 64 (omega arith) refl;
  update_date = two 64 (omega arith) refl;
}

pub twos-HasKeys : (row : Row) → IsTwos row → HasKeys row
unfolding column
twos-HasKeys row e = rw e (record {
  accno = two 32 (omega arith) refl;
  guest_id = two 64 (omega arith) refl;
  is_shop = two 2 (omega arith) refl;
})

pub steady-IsDay : (p : Parameters) → IsServing steady Fresh IsReading (IsDay Any p 2 IsTwos)
unfolding column strcpy atoi
steady-IsDay p = record {
  connects = λ s h. refl;
  answers = λ sql s may h. rw h (
    twos ∷ twos ∷ [],
    refl,
    record {
      count = λ e. record { value = bytes "2"; there = refl; good = refl };
      allocated = λ e. (refl, (refl, (refl, tt)));
      order = λ row a b c l e1 e2 e3 e. twos-HasOrder;
      pay = λ o h e. two 32 (omega arith) refl;
      distances = λ a b e. (twos-IsMutualRow, (twos-IsMutualRow, tt));
    },
    ap not may,
  );
}

abbrev morning : View whole steady two_sleeps
morning = new_view (for_vehicles 1) 0 0 false

on_load_delivery_data_complete_example :
    (w : View whole steady two_sleeps) × (on_load_delivery_data morning ≡ (returned 0, w))
    × IsTable (no_cities whole) 2 2 w
    × All (FitsOrder Any) w.vector_order_data
unfolding new_view
on_load_delivery_data_complete_example =
    on_load_delivery_data_complete morning 2 IsTwos Any Fresh (steady-IsDay (for_vehicles 1)) refl
      twos-HasKeys (for_vehicles-Fits 1) refl refl
