-- ===== src/View/Calc/Amounts.antt =====
-- The arithmetic of the amounts in `OnCalcDeliveryData` (TSP/TspView.cpp) on `int`s.
use native.Mathlib.Nat.{div-le_self}
use tsp_simple.Base.{
  ℕ, suc, ◌+◌, ◌/◌, ◌≤◌, ◌<◌, ◌≡◌, refl, some, List, length, set, inl, inr, arith,
}
use tsp_simple.Base.Int.{ℤ, pos, negsuc, ◌+ℤ◌}
use tsp_simple.View.Balance.{add_int, div_int, nine_tenths}
use tsp_simple.View.Balance.Bounds.{Within, AreUsual}
use tsp_simple.View.Ends.{Given}
use tsp_simple.View.Load.Storing.{assign-of_lt}
use tsp_simple.View.Load.Vectors.{assign_lem}

-- An amount that an `int` has room for.
abbrev pub AtMost : ℕ → ℤ → Type 0
AtMost m z = (n : ℕ) × (z ≡ pos n) × (n ≤ m)

pub add_int-AtMost :
    (a b : ℕ) (m : ℕ)
    → b ≤ m
    → a + m < 2_147_483_648
    → Given (add_int (pos a) (pos b)) (AtMost (a + m))
unfolding add_int ◌+ℤ◌
add_int-AtMost a b m h fits = record {
  value = pos (a + b);
  there = ground arith;
  good = (a + b, refl, omega arith);
}

pub div_int-AtMost :
    (a k : ℕ) → a < 2_147_483_648 → Given (div_int (pos a) (pos (suc k))) (AtMost a)
unfolding div_int
div_int-AtMost a k h = record {
  value = pos (a / suc k);
  there = let small = div-le_self a (suc k) in ground arith;
  good = (a / suc k, refl, div-le_self a (suc k));
}

pub nine_tenths-Within : (a m : ℕ) → a ≤ m → Within m (nine_tenths (pos a))
unfolding nine_tenths
nine_tenths-Within a m h = (omega arith, omega arith)

pub last_vehicle : (k : ℕ) → k < 512 → add_int (pos (suc k)) (negsuc 0) ≡ some (pos k)
unfolding add_int ◌+ℤ◌
last_vehicle k h = ground arith

pub AreUsual-set :
    (pays : List ℤ) (i : ℕ) (z : ℤ)
    → i < length pays
    → AreUsual pays
    → AtMost 195_000_000 z
    → AreUsual (set pays i z)
AreUsual-set pays i z inside usual new j x at =
    elim ((assign_lem pays i z (assign-of_lt pays i z inside)).1 j x at) [
      | inl same ↦ rw same new
      | inr (away, old) ↦ usual j x old
    ]
