-- ===== src/View/Setting.antt =====
-- `TSPView::OnSetDeliveryData`, step 2 (TSP/TspView.cpp): a city for each order.
pub mod Stocked
pub mod Stops
use tsp_simple.Base.{ℕ, zero, suc, ◌+◌, Option, none, some, List, [], ◌∷◌, get_elem?}
use tsp_simple.Text.{bytes, to_wide}
use tsp_simple.City.{Details, VectorOrderData, add_city}
use tsp_simple.External.{Floats, Mysql, Engine}
use tsp_simple.View.{View, Action, ◌>>=◌, ◌>>◌, pure, get, modify, need, Outcome, outcome}
use tsp_simple.View.Load.{count_up}

module _ {F : Floats} where
  -- The strings of a structure that nothing has been written to, and doubles of no value yet, for
  -- which the value of an empty text stands.
  unfoldable pub empty_details : Details F
  empty_details = record {
    name = [];
    x = F.atof [];
    y = F.atof [];
    guest_id = [];
    is_shop = [];
    juso_sub_id = [];
    accno = [];
    accno_duple = [];
    guest_name = [];
    guest_tel = [];
    guest_juso = [];
    pay = [];
    guest_lat = [];
    guest_lon = [];
  }

  -- The arguments of `AddCity`. The name and the address of the guest are placeholders here.
  unfoldable pub details_of_order : VectorOrderData → Details F
  unfolding to_wide
  details_of_order o = record {
    name = bytes "point";
    x = F.atof o.guest_lat;
    y = F.atof o.guest_lon;
    guest_id = to_wide o.guest_id;
    is_shop = to_wide o.is_shop;
    juso_sub_id = to_wide o.guest_juso_sub_id;
    accno = to_wide o.accno;
    accno_duple = to_wide o.accno_duple_juso;
    guest_name = bytes "guestName";
    guest_tel = to_wide o.guest_tel;
    guest_juso = bytes "guestJuso";
    pay = to_wide o.pay;
    guest_lat = to_wide o.guest_lat;
    guest_lon = to_wide o.guest_lon;
  }

module _ {F : Floats} {D : Mysql} {G : Engine F} where
  unfoldable pub set_city : ℕ → Action (View F D G) (Unit {0})
  unfolding details_of_order add_city
  set_city i = do
    v ← get
    order ← need (get_elem? v.vector_order_data i)
    modify (λ w. record w {
      cities = add_city (details_of_order order) w.cities;
      best_chromosome = [];
    })

  -- Step 2.
  unfoldable pub on_set_delivery_data : View F D G → Outcome × View F D G
  unfolding set_city count_up
  on_set_delivery_data v = let (r, w) = count_up v.count_order_data 0 set_city v in (outcome r, w)
