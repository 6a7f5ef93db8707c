-- ===== src/View/Balance.antt =====
-- The loops of `TSPView::OnCalcDeliveryData`, step 5 (TSP/TspView.cpp), that divide the route among
-- the vehicles.
pub mod Packing
pub mod Joining
pub mod Stops
pub mod Settled
pub mod Short
pub mod Bounds
pub mod Ending
use tsp_simple.Base.{
  ℕ, zero, suc, ◌+◌, ◌*◌, ◌/◌, ◌==◌, ◌||◌, if◌then◌else◌, Bool, true, false, Option, none, some,
  List, leb, get_elem?, ◌>>=◌,
}
use tsp_simple.Base.Int.{ℤ, pos, negsuc, pos_part, neg_part, sub_ℕ, ltb_ℤ, ◌+ℤ◌}
use tsp_simple.Text.{in_int}
use tsp_simple.View.{no_flags, no_pays}
use tsp_simple.View.Load.{assign}

-- `+` on `int`, whose overflow is undefined behaviour.
unfoldable pub add_int : ℤ → ℤ → Option ℤ
add_int a b = let s = a +ℤ b in if in_int s then some s else none

abbrev magnitude : ℤ → ℕ
magnitude a = pos_part a + neg_part a

-- A magnitude, with the sign of `a`.
abbrev with_sign_of : ℤ → ℕ → ℤ
with_sign_of (pos n) m = pos m
with_sign_of (negsuc n) m = sub_ℕ 0 m

abbrev quotient : ℤ → ℤ → ℤ
quotient a (pos b) = with_sign_of a (magnitude a / b)
quotient (pos a) (negsuc b) = sub_ℕ 0 (a / suc b)
quotient (negsuc a) (negsuc b) = pos (suc a / suc b)

-- `/` on `int`, which rounds to zero; a division by 0 and an overflow are undefined behaviour.
unfoldable pub div_int : ℤ → ℤ → Option ℤ
div_int a b =
    let q = quotient a b in if magnitude b == 0 then none else if in_int q then some q else none

-- `(int) (n * 0.9)`. For an `int` the product is exact enough that it is rounded to zero from the
-- right side.
unfoldable pub nine_tenths : ℤ → ℤ
nine_tenths a = with_sign_of a (9 * magnitude a / 10)

-- `nVehicleFlg`, `nVehiclePay`, `nIndex`, `nInnerIndex` and `nTmp`.
pub record Packs : Type 0 where
  pub flags : List ℕ
  pub pays : List ℤ
  pub index : ℕ
  pub inner : ℕ
  pub tmp : ℤ

-- Whether the stop fills the vehicle.
abbrev pub fills : ℤ → ℕ → ℤ → Bool
fills avg inner tmp = leb 10 inner || ltb_ℤ avg tmp

abbrev pub after_stop : Bool → List ℕ → List ℤ → ℤ → Packs → Packs
after_stop true flags pays tmp s = record {
  flags = flags;
  pays = pays;
  index = s.index + 1;
  inner = 0;
  tmp = pos 0;
}
after_stop false flags pays tmp s = record {
  flags = flags;
  pays = pays;
  index = s.index;
  inner = s.inner + 1;
  tmp = tmp;
}

-- The stop `i` with the amount `pay` goes to the vehicle `nIndex`.
unfoldable pub pack_stop : ℤ → ℕ → ℤ → Packs → Option Packs
unfolding add_int
pack_stop avg i pay s = add_int s.tmp pay >>= λ tmp. assign s.flags s.index i >>= λ flags.
    assign s.pays s.index tmp >>= λ pays. some (after_stop (fills avg s.inner tmp) flags pays tmp s)

-- `for (int i = 0; i < nCount; i++)`, from the stop `i` on.
unfoldable pub pack : ℤ → ℕ → ℕ → List ℤ → Packs → Option Packs
unfolding pack_stop
pack avg zero i stops s = some s
pack avg (suc rounds) i stops s = elim (get_elem? stops i) [
  | none ↦ none
  | some pay ↦ elim (pack_stop avg i pay s) [
    | none ↦ none
    | some s' ↦ pack avg rounds (i + 1) stops s'
  ]
]

-- What a round of the `while` loop comes to: the division stands, or the loop goes on with another
-- average.
pub data Verdict : Type 0 where
  settled : List ℕ → List ℤ → Verdict
  again : ℤ → List ℕ → List ℤ → Verdict

abbrev pub retry : ℤ → ℤ → List ℕ → List ℤ → Option Verdict
retry avg step flags pays = add_int avg step >>= λ a. some (again a flags pays)

abbrev pub less : ℤ
less = negsuc 1999

-- As many vehicles as there are: the division stands unless the last vehicle has nothing to do.
abbrev pub judge_last : ℤ → Packs → Option Verdict
judge_last avg s = elim (get_elem? s.pays s.index) [
  | none ↦ none
  | some (pos zero) ↦ retry avg less s.flags s.pays
  | some (pos (suc n)) ↦ some (settled s.flags s.pays)
  | some (negsuc n) ↦ some (settled s.flags s.pays)
]

-- Too many vehicles raise the average, too few lower it. Both renew the arrays. `last` is
-- `nVehicleNumber - 1`.
unfoldable pub judge : ℤ → ℤ → Packs → Option Verdict
unfolding add_int no_flags no_pays
judge last avg s =
    if ltb_ℤ last (pos s.index)
    then retry avg (pos 2000) no_flags no_pays
    else if ltb_ℤ (pos s.index) last
    then retry avg less no_flags no_pays
    else judge_last avg s

unfoldable pub round : ℤ → ℕ → List ℤ → ℤ → List ℕ → List ℤ → Option Verdict
unfolding pack judge
round last count stops avg flags pays =
    pack avg count 0 stops
      (record { flags = flags; pays = pays; index = 0; inner = 0; tmp = pos 0 })
    >>= judge last avg

-- The arrays at the end, and whether the step is called again.
pub record Balanced : Type 0 where
  pub flags : List ℕ
  pub pays : List ℤ
  pub recall : Bool

-- The `while` loop, where `left` is `130 - nLoopCnt`. With `nLoopCnt` at 130 the round is the last
-- one and the step is called again, whatever the round came to.
unfoldable pub balance : ℤ → ℕ → List ℤ → ℕ → ℤ → List ℕ → List ℤ → Option Balanced
unfolding round
balance last count stops zero avg flags pays = elim (round last count stops avg flags pays) [
  | none ↦ none
  | some (settled f p) ↦ some (record { flags = f; pays = p; recall = true })
  | some (again a f p) ↦ some (record { flags = f; pays = p; recall = true })
]
balance last count stops (suc left) avg flags pays = elim (round last count stops avg flags pays) [
  | none ↦ none
  | some (settled f p) ↦ some (record { flags = f; pays = p; recall = false })
  | some (again a f p) ↦ balance last count stops left a f p
]
