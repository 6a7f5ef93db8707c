-- ===== src/City/Data.antt =====
-- TSP/TspCity.h: the structures. `Details` holds the fields that a city takes from its order.
use tsp_simple.Base.{ℕ, Option, List}
use tsp_simple.Text.{Text, WText}
use tsp_simple.External.{Floats}

-- The arguments of the constructor that come from the order: the fields of a city that
-- `ChromosomeCopy` and `RouteEachResult` repeat.
pub record Details (F : Floats) : Type 0 where
  pub name : WText
  pub x : F.Double
  pub y : F.Double
  pub guest_id : WText
  pub is_shop : WText
  pub juso_sub_id : WText
  pub accno : WText
  pub accno_duple : WText
  pub guest_name : WText
  pub guest_tel : WText
  pub guest_juso : WText
  pub pay : WText
  pub guest_lat : WText
  pub guest_lon : WText

-- `class TspCity`
pub record City (F : Floats) : Type 0 where
  pub id : ℕ
  pub origin_id : ℕ
  pub details : Details F

-- `struct ChromosomeCopy`, without `_originId`, which the program neither writes nor reads.
pub record ChromosomeCopy (F : Floats) : Type 0 where
  pub id : ℕ
  pub details : Details F

-- `struct RouteEachResult`
pub record RouteEachResult (F : Floats) : Type 0 where
  pub id : ℕ
  pub details : Details F

-- `struct VectorMutualData`: one row of the table of distances.
pub record VectorMutualData : Type 0 where
  pub seq : Text
  pub guest_id : Text
  pub guest_juso_sub_id : Text
  pub deguest_id : Text
  pub deguest_juso_sub_id : Text
  pub guest_lat : Text
  pub guest_lon : Text
  pub deguest_lat : Text
  pub deguest_lon : Text
  pub distance_value : Text
  pub guest_date : Text
  pub deguest_date : Text
  pub guest_is_shop : Text
  pub deguest_is_shop : Text
  pub create_date : Text
  pub update_date : Text

-- `struct VectorOrderData`
pub record VectorOrderData : Type 0 where
  pub seq : Text
  pub accno : Text
  pub location_id : Text
  pub delivery_date : Text
  pub meridiem_type : Text
  pub guest_id : Text
  pub guest_name : Text
  pub guest_tel : Text
  pub guest_juso_sub_id : Text
  pub guest_juso : Text
  pub pay : Text
  pub guest_lat : Text
  pub guest_lon : Text
  pub is_new : Text
  pub is_shop : Text
  pub is_road : Text
  pub create_date : Text
  pub accno_duple_juso : Text

-- `TspCity::_nextId`, the allocated cities, and `TspCities::_cities`.
pub record Cities (F : Floats) : Type 0 where
  pub next_id : ℕ
  pub heap : List (Option (City F))
  pub entries : List (ℕ × ℕ)
