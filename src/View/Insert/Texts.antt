-- ===== src/View/Insert/Texts.antt =====
-- The texts of an order, from the database (step 1) through the cities of step 2 and the copies of
-- step 4 to the statements of step 8 (TSP/TspView.cpp).
use tsp_simple.Base.{ℕ, ◌≡◌}
use tsp_simple.Text.{bytes, narrow, to_narrow}
use tsp_simple.Text.Laws.{IsBytes, to_narrow-to_wide}
use tsp_simple.City.{VectorOrderData}
use tsp_simple.External.{Floats}
use tsp_simple.View.Insert.{Target, target_of_copy}
use tsp_simple.View.Relocation.{copy_of}
use tsp_simple.View.Setting.{details_of_order}

-- The texts of the order consist of bytes.
pub record HasBytes (o : VectorOrderData) : Type 0 where
  pub accno : IsBytes o.accno
  pub guest_id : IsBytes o.guest_id
  pub guest_tel : IsBytes o.guest_tel
  pub pay : IsBytes o.pay
  pub guest_juso_sub_id : IsBytes o.guest_juso_sub_id
  pub guest_lat : IsBytes o.guest_lat
  pub guest_lon : IsBytes o.guest_lon
  pub is_shop : IsBytes o.is_shop
  pub accno_duple_juso : IsBytes o.accno_duple_juso

-- The order as a target of a leg. The name and the address of the guest are not kept.
abbrev pub target_of_order : VectorOrderData → Target
target_of_order o = record {
  accno = o.accno;
  name = bytes "guestName";
  tel = o.guest_tel;
  pay = o.pay;
  id = o.guest_id;
  juso_sub_id = o.guest_juso_sub_id;
  lat = o.guest_lat;
  lon = o.guest_lon;
  juso = bytes "guestJuso";
  is_shop = o.is_shop;
  accno_duple = o.accno_duple_juso;
}

-- The texts of an order come back unchanged: made wide for the city of the order, copied from the
-- city and made narrow for the statement of a leg, each text of bytes is what it was. The name and
-- the address are the placeholders "guestName" and "guestJuso", whatever the order has.
pub target-order :
    (F : Floats) (o : VectorOrderData) (id origin : ℕ)
    → HasBytes o
    → target_of_copy
        (copy_of {F = F} (record { id = id; origin_id = origin; details = details_of_order o }))
      ≡ target_of_order o
unfolding target_of_copy details_of_order to_narrow narrow
target-order F o id origin h = λ i. record {
  accno = to_narrow-to_wide o.accno h.accno i;
  name = bytes "guestName";
  tel = to_narrow-to_wide o.guest_tel h.guest_tel i;
  pay = to_narrow-to_wide o.pay h.pay i;
  id = to_narrow-to_wide o.guest_id h.guest_id i;
  juso_sub_id = to_narrow-to_wide o.guest_juso_sub_id h.guest_juso_sub_id i;
  lat = to_narrow-to_wide o.guest_lat h.guest_lat i;
  lon = to_narrow-to_wide o.guest_lon h.guest_lon i;
  juso = bytes "guestJuso";
  is_shop = to_narrow-to_wide o.is_shop h.is_shop i;
  accno_duple = to_narrow-to_wide o.accno_duple_juso h.accno_duple_juso i;
}
