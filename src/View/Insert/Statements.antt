-- ===== src/View/Insert/Statements.antt =====
-- The texts of the statements of `OnVehicleDataInsert` (TSP/TspView.cpp) and their arguments.
use Prim.Native.String.{String}
use tsp_simple.Base.{ℕ, ◌+◌, ◌-◌, List, [], ◌∷◌, ◌==◌, if◌then◌else◌}
use tsp_simple.Base.Int.{ℤ, pos}
use tsp_simple.Text.{Text, Arg, str, int, bytes, to_narrow}
use tsp_simple.City.{ChromosomeCopy}
use tsp_simple.External.{Floats}
use tsp_simple.View.{Parameters}

-- The customer at the end of a leg: the columns vr_deguest... of the inserted row.
pub record Target : Type 0 where
  pub accno : Text
  pub name : Text
  pub tel : Text
  pub pay : Text
  pub id : Text
  pub juso_sub_id : Text
  pub lat : Text
  pub lon : Text
  pub juso : Text
  pub is_shop : Text
  pub accno_duple : Text

abbrev pub insert_format : String
insert_format =
    "insert into vehicleAllocateResult set vr_deguestAccno='%s', vr_deguestName='%s', vr_deguestTel='%s', vr_deguestPay='%s', vr_guestId='%s', vr_deguestId='%s', vr_guestJusoSubId='%s', vr_deguestJusoSubId='%s', vr_vehicleNo='%s', vr_vehicleNoIndex='%d', vr_guestLat='%s', vr_guestLon='%s', vr_deguestLat='%s', vr_deguestLon='%s', vr_Juso='%s', vr_distanceValue='%d', vr_locationId='%s', vr_deliveryDate='%s', vr_meridiemType='%s', vr_delivererId='%s',vr_deliveryEndId='%s', vr_deliveryStatus='%s', vr_jsonData='%s', vr_createDate=%s, vr_guestIsShop='%s', vr_deguestIsShop='%s', vr_accnoDupleJuso='%s', vr_meridiemFlag='%s' "

abbrev pub mutual_format : String
mutual_format =
    "SELECT vd_seq, vd_guestId, vd_guestJusoSubId, vd_deguestId, vd_deguestJusoSubId, vd_guestLat, vd_guestLon, vd_deguestLat, vd_deguestLon, vd_distanceValue, vd_guestDate, vd_deguestDate, vd_jsonData, vd_guestIsShop, vd_deguestIsShop, vd_createDate, vd_updateDate \t\t\t\t\t\t\t\t\t\t\tFROM vehicleGuestMutualDistance WHERE 1 = 1 \t\t\t\t\t\t\t\t\t\t\t\t\tAND vd_guestId = '%s' \t\t\t\t\t\t\t\t\t\t\t\t\tAND vd_guestJusoSubId = '%s' \t\t\t\t\t\t\t\t\t\t\t\t\tAND vd_guestIsShop='%s' \t\t\t\t\t\t\t\t\t\t\t\t\tAND vd_deguestId = '%s' \t\t\t\t\t\t\t\t\t\t\t\t\tAND vd_deguestJusoSubId = '%s' \t\t\t\t\t\t\t\t\t\t\t\t\tAND vd_deguestIsShop='%s'"

abbrev pub order_format : String
order_format =
    " SELECT ve_guestName, ve_guestJuso FROM vehicleGuestOrderData WHERE 1=1 AND ve_deliveryDate='%s' AND ve_meridiemType='%s' AND ve_meridiemFlag='%s' AND ve_locationId='%s' AND ve_accno='%s' AND ve_guestId='%s' AND ve_guestJusoSubId='%s' AND ve_guestLat='%s' AND ve_guestLon='%s' AND ve_IsShop='%s'"

abbrev pub shared_format : String
shared_format =
    " SELECT * FROM vehicleGuestOrderData WHERE 1=1 AND ve_deliveryDate='%s' AND ve_meridiemType='%s' AND ve_meridiemFlag='%s' AND ve_locationId='%s' AND ve_accnoDupleJuso='%s' "

abbrev pub update_format : String
update_format = "update vehicleAllocateResult set vr_vehicleNoIndex='%d' where vr_seq='%s'"

abbrev pub delete_format : String
delete_format =
    "DELETE FROM vehicleAllocateResult WHERE 1=1 AND vr_deliveryDate='%s' AND vr_meridiemType='%s' AND vr_meridiemFlag='%s' AND vr_vehicleNo='%s' and vr_errorJusoFlag != 'Y'"

abbrev pub bad_format : String
bad_format =
    "select * from vehicleAllocateResult where 1=1 and vr_deliveryDate='%s' AND vr_meridiemType='%s' AND vr_meridiemFlag='%s' AND vr_vehicleNo='%s' and vr_errorJusoFlag = 'Y'"

-- The day and the vehicle of a program run.
abbrev pub day_args : Parameters → List Arg
day_args p = str p.delivery_date ∷ str p.meridiem_type ∷ str p.meridiem_flag ∷ str p.vehicle_no ∷ []

-- The two customers of a leg.
unfoldable pub mutual_args : {F : Floats} → ChromosomeCopy F → ChromosomeCopy F → List Arg
unfolding to_narrow
mutual_args from next =
    str (to_narrow from.details.guest_id)
    ∷ str (to_narrow from.details.juso_sub_id)
    ∷ str (to_narrow from.details.is_shop)
    ∷ str (to_narrow next.details.guest_id)
    ∷ str (to_narrow next.details.juso_sub_id)
    ∷ str (to_narrow next.details.is_shop)
    ∷ []

-- The arguments of the insertion, in the order of its format.
unfoldable pub insert_args :
    {F : Floats} → Parameters → ℕ → ChromosomeCopy F → Target → ℤ → Text → List Arg
unfolding to_narrow
insert_args p j from to distance json =
    str to.accno
    ∷ str to.name
    ∷ str to.tel
    ∷ str to.pay
    ∷ str (to_narrow from.details.guest_id)
    ∷ str to.id
    ∷ str (to_narrow from.details.juso_sub_id)
    ∷ str to.juso_sub_id
    ∷ str p.vehicle_no
    ∷ int (pos j)
    ∷ str (to_narrow from.details.guest_lat)
    ∷ str (to_narrow from.details.guest_lon)
    ∷ str to.lat
    ∷ str to.lon
    ∷ str to.juso
    ∷ int distance
    ∷ str p.location_id
    ∷ str p.delivery_date
    ∷ str p.meridiem_type
    ∷ str []
    ∷ str []
    ∷ str []
    ∷ str json
    ∷ str (bytes "now()")
    ∷ str (to_narrow from.details.is_shop)
    ∷ str to.is_shop
    ∷ str to.accno_duple
    ∷ str p.meridiem_flag
    ∷ []

-- The target of the last leg: the depot, from its copy alone.
unfoldable pub target_of_copy : {F : Floats} → ChromosomeCopy F → Target
unfolding to_narrow
target_of_copy c = record {
  accno = to_narrow c.details.accno;
  name = to_narrow c.details.guest_name;
  tel = to_narrow c.details.guest_tel;
  pay = to_narrow c.details.pay;
  id = to_narrow c.details.guest_id;
  juso_sub_id = to_narrow c.details.juso_sub_id;
  lat = to_narrow c.details.guest_lat;
  lon = to_narrow c.details.guest_lon;
  juso = to_narrow c.details.guest_juso;
  is_shop = to_narrow c.details.is_shop;
  accno_duple = to_narrow c.details.accno_duple;
}

-- The order of a customer with an address of their own.
abbrev pub order_args : Parameters → Target → List Arg
order_args p c =
    str p.delivery_date
    ∷ str p.meridiem_type
    ∷ str p.meridiem_flag
    ∷ str p.location_id
    ∷ str c.accno
    ∷ str c.id
    ∷ str c.juso_sub_id
    ∷ str c.lat
    ∷ str c.lon
    ∷ str c.is_shop
    ∷ []

-- The orders at the address of a customer.
unfoldable pub shared_args : {F : Floats} → Parameters → ChromosomeCopy F → List Arg
unfolding to_narrow
shared_args p next =
    str p.delivery_date
    ∷ str p.meridiem_type
    ∷ str p.meridiem_flag
    ∷ str p.location_id
    ∷ str (to_narrow next.details.accno_duple)
    ∷ []

-- The index of the copy at the end of leg `j`: behind the last one comes the depot.
unfoldable pub leg_end : ℕ → ℕ → ℕ
leg_end n j = if j == n - 1 then 0 else j + 1
