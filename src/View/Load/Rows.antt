-- ===== src/View/Load/Rows.antt =====
-- The rows that `OnLoadDeliveryData` (TSP/TspView.cpp) reads, and the texts of its queries.
use Prim.Native.String.{String}
use tsp_simple.Base.{ℕ, Option, none, some, List, [], ◌∷◌, length, set, ltb, if◌then◌else◌}
use tsp_simple.Base.Int.{ℤ, pos, negsuc}
use tsp_simple.Text.{Text, Arg, str, strcpy}
use tsp_simple.City.{VectorOrderData, VectorMutualData}
use tsp_simple.External.{Row}
use tsp_simple.View.{Parameters, Action, ◌>>=◌, pure, need, column}

-- The elements of the vectors after `resize`.
abbrev pub no_order : VectorOrderData
no_order = record {
  seq = [];
  accno = [];
  location_id = [];
  delivery_date = [];
  meridiem_type = [];
  guest_id = [];
  guest_name = [];
  guest_tel = [];
  guest_juso_sub_id = [];
  guest_juso = [];
  pay = [];
  guest_lat = [];
  guest_lon = [];
  is_new = [];
  is_shop = [];
  is_road = [];
  create_date = [];
  accno_duple_juso = [];
}

abbrev pub no_mutual : VectorMutualData
no_mutual = record {
  seq = [];
  guest_id = [];
  guest_juso_sub_id = [];
  deguest_id = [];
  deguest_juso_sub_id = [];
  guest_lat = [];
  guest_lon = [];
  deguest_lat = [];
  deguest_lon = [];
  distance_value = [];
  guest_date = [];
  deguest_date = [];
  guest_is_shop = [];
  deguest_is_shop = [];
  create_date = [];
  update_date = [];
}

abbrev pub allocated_orders : String
allocated_orders =
    " FROM ( SELECT * FROM ( SELECT * FROM vehicleAllocateResult WHERE 1=1 AND vr_deliveryDate='%s' AND vr_meridiemType='%s' AND vr_meridiemFlag='%s' AND vr_vehicleNo='%s' AND vr_locationId='%s' AND vr_errorJusoFlag != 'Y' GROUP BY vr_deguestAccno ) AS A GROUP BY A.vr_deguestLat, A.vr_deguestLon ORDER BY A.vr_deguestAccno ) AS B"

abbrev pub parameter_args : Parameters → List Arg
parameter_args p =
    str p.delivery_date
    ∷ str p.meridiem_type
    ∷ str p.meridiem_flag
    ∷ str p.vehicle_no
    ∷ str p.location_id
    ∷ []

abbrev pub order_format : String
order_format =
    "select * from vehicleGuestOrderData where 1=1 and ve_accno='%s' and ve_locationId='%s' and ve_deliveryDate='%s' and ve_meridiemType='%s' and ve_meridiemFlag='%s' and ve_guestId='%s' and ve_isShop='%s'"

abbrev pub order_args : Text → Text → Text → Parameters → List Arg
order_args accno guest_id is_shop p =
    str accno
    ∷ str p.location_id
    ∷ str p.delivery_date
    ∷ str p.meridiem_type
    ∷ str p.meridiem_flag
    ∷ str guest_id
    ∷ str is_shop
    ∷ []

abbrev pub pay_format : String
pay_format =
    "SELECT SUM(ve_pay) FROM vehicleGuestOrderData WHERE 1=1 AND ve_deliveryDate = '%s' AND ve_meridiemType = '%s' AND ve_meridiemFlag = '%s' AND ve_locationId = '%s' AND ve_accnoDupleJuso='%s' AND ve_errorJusoFlag !='Y'"

abbrev pub pay_args : VectorOrderData → Parameters → List Arg
pay_args order p =
    str p.delivery_date
    ∷ str p.meridiem_type
    ∷ str p.meridiem_flag
    ∷ str p.location_id
    ∷ str order.accno_duple_juso
    ∷ []

abbrev pub distance_format : String
distance_format =
    "SELECT\t vd_seq \t\t\t\t\t\t\t\t\t,vd_guestId \t\t\t\t\t\t\t\t\t,vd_guestJusoSubId \t\t\t\t\t\t\t\t\t,vd_deguestId \t\t\t\t\t\t\t\t\t,vd_deguestJusoSubId \t\t\t\t\t\t\t\t\t,vd_guestLat \t\t\t\t\t\t\t\t\t,vd_guestLon \t\t\t\t\t\t\t\t\t,vd_deguestLat \t\t\t\t\t\t\t\t\t,vd_deguestLon \t\t\t\t\t\t\t\t\t,vd_distanceValue \t\t\t\t\t\t\t\t\t,vd_guestDate \t\t\t\t\t\t\t\t\t,vd_deguestDate \t\t\t\t\t\t\t\t\t,vd_guestIsShop \t\t\t\t\t\t\t\t\t,vd_deguestIsShop \t\t\t\t\t\t\t\t\t,vd_createDate \t\t\t\t\t\t\t\t\t,vd_updateDate \t\t\t\t\t\t\t\t\t\tFROM vehicleGuestMutualDistance WHERE 1 = 1 \t\t\t\t\t\t\t\t\t\t\t\tAND vd_guestId = '%s' \t\t\t\t\t\t\t\t\t\t\t\tAND vd_guestJusoSubId = '%s' \t\t\t\t\t\t\t\t\t\t\t\tAND vd_guestIsShop='%s' \t\t\t\t\t\t\t\t\t\t\t\tAND vd_deguestId = '%s' \t\t\t\t\t\t\t\t\t\t\t\tAND vd_deguestJusoSubId = '%s' \t\t\t\t\t\t\t\t\t\t\t\tAND vd_deguestIsShop='%s'"

abbrev pub distance_args : VectorOrderData → VectorOrderData → List Arg
distance_args a b =
    str a.guest_id
    ∷ str a.guest_juso_sub_id
    ∷ str a.is_shop
    ∷ str b.guest_id
    ∷ str b.guest_juso_sub_id
    ∷ str b.is_shop
    ∷ []

-- `strcpy( field, row[ k ] )` into a field of `size` bytes.
abbrev pub copy_column : ℕ → Option Row → ℕ → Option Text
copy_column size row k = elim (column row k) [ none ↦ none | some t ↦ strcpy size t ]

-- The eighteen copies from a row of vehicleGuestOrderData.
unfoldable pub order_of_row : {S : Type 0} → Option Row → Action S VectorOrderData
unfolding column strcpy
order_of_row row = do
  seq ← need (copy_column 32 row 0)
  accno ← need (copy_column 32 row 1)
  location_id ← need (copy_column 4 row 2)
  delivery_date ← need (copy_column 10 row 3)
  meridiem_type ← need (copy_column 4 row 4)
  guest_id ← need (copy_column 64 row 5)
  guest_name ← need (copy_column 100 row 6)
  guest_tel ← need (copy_column 100 row 7)
  guest_juso_sub_id ← need (copy_column 2 row 8)
  guest_juso ← need (copy_column 256 row 9)
  pay ← need (copy_column 32 row 10)
  guest_lat ← need (copy_column 64 row 11)
  guest_lon ← need (copy_column 64 row 12)
  is_new ← need (copy_column 2 row 13)
  is_shop ← need (copy_column 2 row 14)
  is_road ← need (copy_column 2 row 15)
  create_date ← need (copy_column 32 row 16)
  accno_duple_juso ← need (copy_column 100 row 17)
  pure (record {
    seq = seq;
    accno = accno;
    location_id = location_id;
    delivery_date = delivery_date;
    meridiem_type = meridiem_type;
    guest_id = guest_id;
    guest_name = guest_name;
    guest_tel = guest_tel;
    guest_juso_sub_id = guest_juso_sub_id;
    guest_juso = guest_juso;
    pay = pay;
    guest_lat = guest_lat;
    guest_lon = guest_lon;
    is_new = is_new;
    is_shop = is_shop;
    is_road = is_road;
    create_date = create_date;
    accno_duple_juso = accno_duple_juso;
  })

-- The sixteen copies from a row of vehicleGuestMutualDistance.
unfoldable pub mutual_of_row : {S : Type 0} → Option Row → Action S VectorMutualData
unfolding column strcpy
mutual_of_row none = pure no_mutual
mutual_of_row (some row) = do
  seq ← need (copy_column 32 (some row) 0)
  guest_id ← need (copy_column 64 (some row) 1)
  guest_juso_sub_id ← need (copy_column 2 (some row) 2)
  deguest_id ← need (copy_column 64 (some row) 3)
  deguest_juso_sub_id ← need (copy_column 2 (some row) 4)
  guest_lat ← need (copy_column 64 (some row) 5)
  guest_lon ← need (copy_column 64 (some row) 6)
  deguest_lat ← need (copy_column 64 (some row) 7)
  deguest_lon ← need (copy_column 64 (some row) 8)
  distance_value ← need (copy_column 64 (some row) 9)
  guest_date ← need (copy_column 64 (some row) 10)
  deguest_date ← need (copy_column 64 (some row) 11)
  guest_is_shop ← need (copy_column 2 (some row) 12)
  deguest_is_shop ← need (copy_column 2 (some row) 13)
  create_date ← need (copy_column 64 (some row) 14)
  update_date ← need (copy_column 64 (some row) 15)
  pure (record {
    seq = seq;
    guest_id = guest_id;
    guest_juso_sub_id = guest_juso_sub_id;
    deguest_id = deguest_id;
    deguest_juso_sub_id = deguest_juso_sub_id;
    guest_lat = guest_lat;
    guest_lon = guest_lon;
    deguest_lat = deguest_lat;
    deguest_lon = deguest_lon;
    distance_value = distance_value;
    guest_date = guest_date;
    deguest_date = deguest_date;
    guest_is_shop = guest_is_shop;
    deguest_is_shop = deguest_is_shop;
    create_date = create_date;
    update_date = update_date;
  })

abbrev pub to_size : ℤ → Option ℕ
to_size (pos n) = some n
to_size (negsuc n) = none

-- `xs[ i ]`, and an assignment to it.
abbrev pub assign : {A : Type 0} → List A → ℕ → A → Option (List A)
assign xs i a = if ltb i (length xs) then some (set xs i a) else none
