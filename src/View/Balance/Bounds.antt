-- ===== src/View/Balance/Bounds.antt =====
-- The division of the route in step 5 (TSP/TspView.cpp, `OnCalcDeliveryData`) on usual amounts: no
-- `int` overflows, and no access leaves an array.
use tsp_simple.Base.{
  ℕ, zero, suc, ◌+◌, ◌*◌, ◌≤◌, ◌<◌, ◌≡◌, refl, ap, ◌∙◌, true, false, Bool, ◌||◌, some, List, inl,
  inr, length, get_elem?, get_elem?-of_lt, arith, Bool-cases, leb, length-set, set, lt→ltb,
}
use tsp_simple.Base.Int.{ℤ, sub_ℕ, pos, negsuc, pos_part, neg_part, ◌+ℤ◌, ltb_ℤ}
use tsp_simple.Text.{in_int}
use tsp_simple.View.Load.{assign}
use tsp_simple.View.Balance.{Packs, fills, after_stop, add_int, pack_stop, pack}

add_int-pos : (a b : ℕ) → a + b < 2_147_483_648 → add_int (pos a) (pos b) ≡ some (pos (a + b))
unfolding add_int ◌+ℤ◌
add_int-pos a b h = ground arith

-- A number of that magnitude at most.
abbrev pub Within : ℕ → ℤ → Type 0
Within n a = (pos_part a ≤ n) × (neg_part a ≤ n)

pub in_int-Within : (n : ℕ) (s : ℤ) → Within n s → n < 2_147_483_648 → in_int s ≡ true
in_int-Within n (pos a) (h, k) fits = ground arith
in_int-Within n (negsuc a) (h, k) fits = ground arith

sub_ℕ-Within : (n x y : ℕ) → x ≤ n → y ≤ n → Within n (sub_ℕ x y)
sub_ℕ-Within n x y h k = elim (Bool-cases (leb y x)) [
  | inl e ↦ rw e (omega arith, omega arith)
  | inr e ↦ let less_than : x < y = ground arith in rw e (omega arith, omega arith)
]

pub add_int-Within :
    (n m : ℕ) (a b : ℤ)
    → Within n a
    → Within m b
    → n + m < 2_147_483_648
    → (s : ℤ) × (add_int a b ≡ some s) × Within (n + m) s
unfolding add_int ◌+ℤ◌
add_int-Within n m a b h k fits =
    let small =
      sub_ℕ-Within (n + m) (pos_part a + pos_part b) (neg_part a + neg_part b)
        (omega (arith, h.0, k.0)) (omega (arith, h.1, k.1)) in
    (a +ℤ b, rw (in_int-Within (n + m) (a +ℤ b) small fits) refl, small)

assign-defined :
    {A : Type 0} (xs : List A) (i : ℕ) (a : A) (n : ℕ)
    → length xs ≡ n
    → i < n
    → (ys : List A) × (assign xs i a ≡ some ys) × (length ys ≡ n)
assign-defined xs i a n size within =
    let here = lt→ltb i (length xs) (omega arith) in
    (set xs i a, rw here refl, length-set xs i a ∙ size)

-- The state before the stop `i`.
pub record IsBounded (i : ℕ) (s : Packs) : Type 0 where
  pub flags_size : length s.flags ≡ 512
  pub pays_size : length s.pays ≡ 512
  pub index_small : s.index ≤ i
  pub inner_small : s.inner ≤ 10
  pub sum : ℕ
  pub tmp_is : s.tmp ≡ pos sum
  pub sum_small : sum ≤ 195_000_000 * s.inner

after_stop-IsBounded :
    (i pay : ℕ) (s : Packs) (full : Bool) (flags : List ℕ) (pays : List ℤ)
    → (b : IsBounded i s) → pay ≤ 195_000_000
    → length flags ≡ 512
    → length pays ≡ 512
    → (leb 10 s.inner ≡ true → full ≡ true)
    → IsBounded (i + 1) (after_stop full flags pays (pos (b.sum + pay)) s)
after_stop-IsBounded i pay s true flags pays b small f p ten = record {
  flags_size = f;
  pays_size = p;
  index_small = omega (arith, b.index_small);
  inner_small = omega arith;
  sum = 0;
  tmp_is = refl;
  sum_small = omega arith;
}
after_stop-IsBounded i pay s false flags pays b small f p ten = record {
  flags_size = f;
  pays_size = p;
  index_small = omega (arith, b.index_small);
  inner_small = ground (arith, b.inner_small, ten);
  sum = b.sum + pay;
  tmp_is = refl;
  sum_small = omega (arith, b.sum_small);
}

pack_stop-defined :
    (avg : ℤ) (i pay : ℕ) (s : Packs)
    → IsBounded i s
    → pay ≤ 195_000_000
    → i < 512
    → (t : Packs) × (pack_stop avg i (pos pay) s ≡ some t) × IsBounded (i + 1) t
unfolding pack_stop
pack_stop-defined avg i pay s b small within =
    let sum = add_int-pos b.sum pay (omega (arith, b.sum_small, b.inner_small)) in
    let (flags, flagged, f) =
      assign-defined s.flags s.index i 512 b.flags_size (omega (arith, b.index_small)) in
    let (pays, paid, p) =
      assign-defined s.pays s.index (pos (b.sum + pay)) 512 b.pays_size
        (omega (arith, b.index_small)) in
    let full = fills avg s.inner (pos (b.sum + pay)) in
    (
      after_stop full flags pays (pos (b.sum + pay)) s,
      rw (b.tmp_is, sum) (rw flagged (rw paid refl)),
      after_stop-IsBounded i pay s full flags pays b small f p
          (λ e. ap (λ x. x || ltb_ℤ avg (pos (b.sum + pay))) e),
    )

-- Each amount is between 0 and 195000000.
abbrev pub AreUsual : List ℤ → Type 0
AreUsual stops =
    (k : ℕ) (p : ℤ) → get_elem? stops k ≡ some p → (n : ℕ) × (p ≡ pos n) × (n ≤ 195_000_000)

pub pack-defined :
    (avg : ℤ) (rounds i : ℕ) (stops : List ℤ) (s : Packs)
    → IsBounded i s
    → AreUsual stops
    → i + rounds ≤ 512
    → i + rounds ≤ length stops
    → (t : Packs) × (pack avg rounds i stops s ≡ some t) × IsBounded (i + rounds) t
unfolding pack
pack-defined avg zero i stops s b usual fits enough =
    let all : i + 0 ≡ i = omega arith in (s, refl, rw all b)
pack-defined avg (suc rounds) i stops s b usual fits enough =
    let (p, at) = get_elem?-of_lt stops i (omega arith) in
    let (n, is, small) = usual i p at in
    let (s', stopped, b') = pack_stop-defined avg i n s b small (omega arith) in
    let (t, ran, b'') =
      pack-defined avg rounds (i + 1) stops s' b' usual (omega arith) (omega arith) in
    let all : i + suc rounds ≡ i + 1 + rounds = omega arith in
    (t, rw (at, pack) (rw (is, stopped) ran), rw all b'')
