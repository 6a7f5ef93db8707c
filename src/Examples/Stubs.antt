-- ===== src/Examples/Stubs.antt =====
-- Concrete values for what the program calls, and a small store of cities.
use Prim.Native.String.{String}
use mathlib.Core.List.Perm
use tsp_simple.Base.{
  Perm, ℕ, zero, suc, ◌+◌, ◌-◌, ◌*◌, ◌%◌, Bool, true, false, not, Option, none, some, List, [], ◌∷◌,
  arith,
}
use tsp_simple.Base.Int.{ℤ, pos, negsuc, ◌+ℤ◌, ◌-ℤ◌, ltb_ℤ}
use tsp_simple.Text.{Text, atoi, bytes}
use tsp_simple.City.{
  Entries, Cities, Details, VectorMutualData, VectorOrderData, no_cities, add_city_ext,
}
use tsp_simple.City.Lookup.{IsValid, add_city_ext_lem}
use tsp_simple.External.{
  Floats, Mysql, rows, Random, IsInRange, Engine, statistic_update, AlgorithmState, running,
  criteria_stopped,
}
use tsp_simple.View.{View, Parameters, new_view}
use tsp_simple.View.Load.{no_order, no_mutual}
use tsp_simple.View.Setting.{details_of_order}

abbrev number : Text → ℤ
number t = elim (atoi t) [ some z ↦ z | none ↦ pos 0 ]

abbrev pub whole : Floats
whole = record {
  Double = ℤ;
  Float = ℤ;
  atof = number;
  of_int = λ z. z;
  sub = λ a b. a -ℤ b;
  sum = λ a b. a +ℤ b;
  le = λ a b. not (ltb_ℤ b a);
  to_float = λ z. z;
  zero_float = pos 0;
  minus_one = negsuc 0;
  add = λ a b. a +ℤ b;
  greater = λ a b. ltb_ℤ b a;
}

abbrev pub dice : Random
dice = record { Rng = ℕ; generate = λ max g. (g % suc max, suc g) }

pub dice-IsInRange : IsInRange dice
dice-IsInRange max g = omega arith

-- A walk in the order of insertion.
abbrev pub visit : Entries → Entries
visit m = m

pub visit-Perm : (m : Entries) → Perm (visit m) m
visit-Perm m = Perm.refl m

-- A server that is down in the state 0, and has empty tables otherwise.
abbrev up : ℕ → Bool
up zero = false
up (suc n) = true

abbrev pub empty_server : Mysql
empty_server = record { Server = ℕ; connect = up; query = λ sql n. (rows [], n) }

-- An engine that stops after two sleeps.
abbrev engine_state : ℕ → AlgorithmState
engine_state zero = criteria_stopped
engine_state (suc n) = running

abbrev pub two_sleeps : Engine whole
two_sleeps = record {
  State = ℕ;
  get_state = engine_state;
  set_stop_criteria = λ limit n. n;
  start_solving = λ resume n. 2;
  advance = λ n. (statistic_update n ∷ [], n - 1);
}

abbrev pub for_vehicles : ℕ → Parameters
for_vehicles n = record {
  delivery_date = bytes "190101";
  meridiem_type = bytes "0";
  meridiem_flag = bytes "0";
  location_id = bytes "0";
  vehicle_no = bytes "1";
  vehicle_number = pos n;
}

-- The view at the start of the program.
abbrev pub started : {D : Mysql} → ℕ → D.Server → View whole D two_sleeps
started n server = new_view (for_vehicles n) 0 0 server

-- The distance from `p` to `q`.
abbrev pub far : ℕ → ℕ → Option ℤ
far p q = some (pos (p * 10 + q))

abbrev pub order_at : Text → VectorOrderData
order_at t = record no_order { guest_lat = t; guest_lon = t }

abbrev pub details_at : Text → Details whole
details_at t = details_of_order (order_at t)

abbrev pub empty_store : Cities whole
empty_store = no_cities whole

pub empty_store-IsValid : IsValid empty_store
empty_store-IsValid = record { backed = tt; distinct_ids = tt; distinct_pointers = tt }

abbrev pub one_city : Cities whole
one_city = add_city_ext 0 (details_at (bytes "1")) empty_store

pub one_city-IsValid : IsValid one_city
one_city-IsValid = (add_city_ext_lem 0 (details_at (bytes "1")) empty_store empty_store-IsValid).0

abbrev pub two_cities : Cities whole
two_cities = add_city_ext 0 (details_at (bytes "2")) one_city

pub two_cities-IsValid : IsValid two_cities
two_cities-IsValid = (add_city_ext_lem 0 (details_at (bytes "2")) one_city one_city-IsValid).0

abbrev cell : String → VectorMutualData
cell t = record no_mutual { distance_value = bytes t }

abbrev pub table : List (List VectorMutualData)
table = (cell "0" ∷ cell "7" ∷ []) ∷ (cell "9" ∷ cell "0" ∷ []) ∷ []
