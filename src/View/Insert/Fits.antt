-- ===== src/View/Insert/Fits.antt =====
-- The statements of `OnVehicleDataInsert` (TSP/TspView.cpp) fit into their buffers.
use tsp_simple.Base.{ℕ, ◌<◌, ◌≡◌, refl, [], ◌∷◌, length, arith}
use tsp_simple.Base.Int.{ℤ, pos}
use tsp_simple.Text.{Text, str, int, bytes}
use tsp_simple.Text.Formats.{matches, sprintf-fits}
use tsp_simple.City.{ChromosomeCopy}
use tsp_simple.External.{Floats}
use tsp_simple.View.{Parameters}
use tsp_simple.View.Buffers.{FitsParameters, Prints}
use tsp_simple.View.Insert.{
  Target, insert_format, mutual_format, update_format, delete_format, bad_format, day_args,
  mutual_args, insert_args, target_of_copy, order_format, shared_format, order_args, shared_args,
}

-- The data of a customer fit into the arrays of `VectorOrderData`.
pub record FitsTarget (t : Target) : Type 0 where
  pub accno : length t.accno < 32
  pub name : length t.name < 100
  pub tel : length t.tel < 100
  pub pay : length t.pay < 32
  pub id : length t.id < 64
  pub juso_sub_id : length t.juso_sub_id < 2
  pub lat : length t.lat < 64
  pub lon : length t.lon < 64
  pub juso : length t.juso < 256
  pub is_shop : length t.is_shop < 2
  pub accno_duple : length t.accno_duple < 100

-- So do those of a stop.
abbrev pub FitsStop : {F : Floats} → ChromosomeCopy F → Type 0
FitsStop c = FitsTarget (target_of_copy c)

module _ {p : Parameters} (fits : FitsParameters p) where
  pub delete-Prints : Prints 1024 delete_format (day_args p)
  unfolding matches
  delete-Prints =
      let size : length (bytes delete_format) ≡ 168 = refl in
      sprintf-fits 1024 delete_format (day_args p) refl
        (omega (arith, fits.delivery_date, fits.meridiem_type, fits.meridiem_flag, fits.vehicle_no))

  pub bad-Prints : Prints 2048 bad_format (day_args p)
  unfolding matches
  bad-Prints =
      let size : length (bytes bad_format) ≡ 169 = refl in
      sprintf-fits 2048 bad_format (day_args p) refl
        (omega (arith, fits.delivery_date, fits.meridiem_type, fits.meridiem_flag, fits.vehicle_no))

  pub order-Prints : (t : Target) → FitsTarget t → Prints 2048 order_format (order_args p t)
  unfolding matches
  order-Prints t h =
      let size : length (bytes order_format) ≡ 295 = refl in
      sprintf-fits 2048 order_format (order_args p t) refl (
        omega (
          arith, fits.delivery_date, fits.meridiem_type, fits.meridiem_flag, fits.location_id,
          h.accno, h.id, h.juso_sub_id, h.lat, h.lon, h.is_shop,
        ))

module _ {F : Floats} where
  pub mutual-Prints :
      (from next : ChromosomeCopy F)
      → FitsStop from
      → FitsStop next
      → Prints 2048 mutual_format (mutual_args from next)
  unfolding matches mutual_args target_of_copy
  mutual-Prints from next a b =
      let size : length (bytes mutual_format) ≡ 549 = refl in
      sprintf-fits 2048 mutual_format (mutual_args from next) refl
        (omega (arith, a.id, a.juso_sub_id, a.is_shop, b.id, b.juso_sub_id, b.is_shop))

  pub shared-Prints :
      {p : Parameters} (next : ChromosomeCopy F)
      → FitsParameters p
      → FitsStop next
      → Prints 2048 shared_format (shared_args p next)
  unfolding matches shared_args target_of_copy
  shared-Prints {p} next fits b =
      let size : length (bytes shared_format) ≡ 172 = refl in
      sprintf-fits 2048 shared_format (shared_args p next) refl (
        omega (
          arith, fits.delivery_date, fits.meridiem_type, fits.meridiem_flag, fits.location_id,
          b.accno_duple,
        ))

  pub insert-Prints :
      {p : Parameters} (j : ℕ) (from : ChromosomeCopy F) (to : Target) (distance : ℤ) (json : Text)
      → FitsParameters p
      → FitsStop from
      → FitsTarget to
      → length json < 202_400
      → Prints 404_800 insert_format (insert_args p j from to distance json)
  unfolding matches insert_args target_of_copy
  insert-Prints {p} j from to distance json fits a b short =
      let size : length (bytes insert_format) ≡ 619 = refl in
      sprintf-fits 404_800 insert_format (insert_args p j from to distance json) refl (
        omega (
          arith, fits.delivery_date, fits.meridiem_type, fits.meridiem_flag, fits.location_id,
          fits.vehicle_no, a.id, a.juso_sub_id, a.lat, a.lon, a.is_shop, b.accno, b.name, b.tel,
          b.pay, b.id, b.juso_sub_id, b.lat, b.lon, b.juso, b.is_shop, b.accno_duple, short,
        ))

pub update-Prints :
    (index : ℕ) (seq : Text)
    → length seq < 32
    → Prints 2048 update_format (int (pos index) ∷ str seq ∷ [])
unfolding matches
update-Prints index seq short =
    let size : length (bytes update_format) ≡ 73 = refl in
    sprintf-fits 2048 update_format (int (pos index) ∷ str seq ∷ []) refl (omega arith)
