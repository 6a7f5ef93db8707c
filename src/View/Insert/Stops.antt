-- ===== src/View/Insert/Stops.antt =====
-- The stops of loaded orders fit into the statements of `OnVehicleDataInsert` (TSP/TspView.cpp).
use native.Mathlib.Bridge.{le_prop}
use tsp_simple.Base.{
  All, All-get_elem?, All-perm, ℕ, ◌+◌, ◌≡◌, ◌∙◌, some, List, [], ◌∷◌, Perm, length, length-map,
  get_elem?, map, arith,
}
use mathlib.Core.List.Perm
use tsp_simple.Text.{Text, to_narrow, to_wide, widen, narrow}
use tsp_simple.City.{ChromosomeCopy, VectorOrderData}
use tsp_simple.External.{Floats}
use tsp_simple.View.Load.Answers.{FitsOrder}
use tsp_simple.View.Insert.{target_of_copy}
use tsp_simple.View.Insert.Fits.{FitsStop}
use tsp_simple.View.Setting.{details_of_order}
use tsp_simple.View.Setting.Stops.{stop, stops}

-- The conversions keep the length.
length-to_narrow-to_wide : (t : Text) → length (to_narrow (to_wide t)) ≡ length t
unfolding to_narrow to_wide
length-to_narrow-to_wide t = length-map (map widen t) narrow ∙ length-map t widen

module _ (F : Floats) where
  stop-Fits :
      (shares : Text → Type 0) (id : ℕ) (o : VectorOrderData)
      → FitsOrder shares o
      → FitsStop {F = F} (stop id o)
  unfolding target_of_copy details_of_order
  stop-Fits shares id o h = record {
    accno = omega (arith, h.accno, length-to_narrow-to_wide o.accno);
    name = omega arith;
    tel = omega (arith, h.guest_tel, length-to_narrow-to_wide o.guest_tel);
    pay = omega (arith, h.pay, length-to_narrow-to_wide o.pay);
    id = omega (arith, h.guest_id, length-to_narrow-to_wide o.guest_id);
    juso_sub_id = omega (arith, h.guest_juso_sub_id, length-to_narrow-to_wide o.guest_juso_sub_id);
    lat = omega (arith, h.guest_lat, length-to_narrow-to_wide o.guest_lat);
    lon = omega (arith, h.guest_lon, length-to_narrow-to_wide o.guest_lon);
    juso = omega arith;
    is_shop = omega (arith, h.is_shop, length-to_narrow-to_wide o.is_shop);
    accno_duple = omega (arith, h.accno_duple_juso, length-to_narrow-to_wide o.accno_duple_juso);
  }

  FitsStop-prop : (c : ChromosomeCopy F) → IsProp (FitsStop c)
  FitsStop-prop c a b = λ i. record {
    accno = le_prop a.accno b.accno i;
    name = le_prop a.name b.name i;
    tel = le_prop a.tel b.tel i;
    pay = le_prop a.pay b.pay i;
    id = le_prop a.id b.id i;
    juso_sub_id = le_prop a.juso_sub_id b.juso_sub_id i;
    lat = le_prop a.lat b.lat i;
    lon = le_prop a.lon b.lon i;
    juso = le_prop a.juso b.juso i;
    is_shop = le_prop a.is_shop b.is_shop i;
    accno_duple = le_prop a.accno_duple b.accno_duple i;
  }

  stops-Fits :
      (shares : Text → Type 0) (id : ℕ) (os : List VectorOrderData)
      → All (FitsOrder shares) os
      → All (FitsStop {F = F}) (stops id os)
  stops-Fits shares id [] all = tt
  stops-Fits shares id (o ∷ os) (h, all) =
      (stop-Fits shares id o h, stops-Fits shares (id + 1) os all)

  -- A route of the stops of orders, the first of them in front.
  pub route-Fits :
      (shares : Text → Type 0) (o : VectorOrderData) (later : List VectorOrderData)
      (rest : List (ChromosomeCopy F))
      → All (FitsOrder shares) (o ∷ later)
      → Perm rest (stops 2 later)
      → (i : ℕ) (c : ChromosomeCopy F) → get_elem? (stop 1 o ∷ rest) i ≡ some c
      → FitsStop c
  route-Fits shares o later rest (h, all) perm i c e =
      All-get_elem? FitsStop (stop 1 o ∷ rest) i
        (
          stop-Fits shares 1 o h,
          All-perm FitsStop FitsStop-prop (stops 2 later) rest (Perm.symm perm)
              (stops-Fits shares 2 later all),
        )
        e
