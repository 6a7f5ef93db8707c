-- ===== src/View/Load/Fits.antt =====
-- The statements of `OnLoadDeliveryData` (TSP/TspView.cpp) fit into their buffers.
use Prim.Native.String.{◌++◌ as ◌<>◌}
use tsp_simple.Base.{◌≡◌, refl, length, arith}
use tsp_simple.Text.{Text, bytes}
use tsp_simple.Text.Formats.{matches, sprintf-fits}
use tsp_simple.City.{VectorOrderData}
use tsp_simple.View.{Parameters}
use tsp_simple.View.Buffers.{Fits, FitsParameters, Prints}
use tsp_simple.View.Load.{
  allocated_orders, parameter_args, order_format, order_args, pay_format, pay_args, distance_format,
  distance_args,
}
use tsp_simple.View.Load.Answers.{FitsOrder}

module _ {p : Parameters} (fits : FitsParameters p) where
  pub count-Prints : Prints 2048 ("SELECT COUNT(*)" <> allocated_orders) (parameter_args p)
  unfolding matches
  count-Prints =
      let size : length (bytes ("SELECT COUNT(*)" <> allocated_orders)) ≡ 340 = refl in
      sprintf-fits 2048 ("SELECT COUNT(*)" <> allocated_orders) (parameter_args p) refl (
        omega (
          arith, fits.delivery_date, fits.meridiem_type, fits.meridiem_flag, fits.vehicle_no,
          fits.location_id,
        ))

  pub allocated-Prints : Prints 2048 ("SELECT *       " <> allocated_orders) (parameter_args p)
  unfolding matches
  allocated-Prints =
      let size : length (bytes ("SELECT *       " <> allocated_orders)) ≡ 340 = refl in
      sprintf-fits 2048 ("SELECT *       " <> allocated_orders) (parameter_args p) refl (
        omega (
          arith, fits.delivery_date, fits.meridiem_type, fits.meridiem_flag, fits.vehicle_no,
          fits.location_id,
        ))

  pub order-Prints :
      (accno guest_id is_shop : Text)
      → Fits 32 accno
      → Fits 64 guest_id
      → Fits 2 is_shop
      → Prints 2048 order_format (order_args accno guest_id is_shop p)
  unfolding matches
  order-Prints accno guest_id is_shop a b c =
      let size : length (bytes order_format) ≡ 200 = refl in
      sprintf-fits 2048 order_format (order_args accno guest_id is_shop p) refl (
        omega (arith, fits.delivery_date, fits.meridiem_type, fits.meridiem_flag, fits.location_id))

  pub pay-Prints :
      (shares : Text → Type 0) (o : VectorOrderData)
      → FitsOrder shares o
      → Prints 2048 pay_format (pay_args o p)
  unfolding matches
  pay-Prints shares o h =
      let size : length (bytes pay_format) ≡ 215 = refl in
      sprintf-fits 2048 pay_format (pay_args o p) refl (
        omega (
          arith, fits.delivery_date, fits.meridiem_type, fits.meridiem_flag, fits.location_id,
          h.accno_duple_juso,
        ))

pub distance-Prints :
    (shares : Text → Type 0) (a b : VectorOrderData)
    → FitsOrder shares a
    → FitsOrder shares b
    → Prints 2048 distance_format (distance_args a b)
unfolding matches
distance-Prints shares a b h k =
    let size : length (bytes distance_format) ≡ 665 = refl in
    sprintf-fits 2048 distance_format (distance_args a b) refl (
      omega (
        arith, h.guest_id, h.guest_juso_sub_id, h.is_shop, k.guest_id, k.guest_juso_sub_id,
        k.is_shop,
      ))
