-- ===== src/View/Balance/Ending.antt =====
-- The loops of step 5 (TSP/TspView.cpp, `OnCalcDeliveryData`) come to their end.
use tsp_simple.Base.{
  ℕ, zero, suc, ◌+◌, ◌*◌, ◌≤◌, ◌<◌, ◌≡◌, refl, true, false, some, List, inl, inr, length, get_elem?,
  get_elem?-of_lt, arith, Bool-cases, length-replicate,
}
use tsp_simple.Base.Int.{ℤ, pos, negsuc, ltb_ℤ}
use tsp_simple.View.{no_flags, no_pays}
use tsp_simple.View.Balance.{
  Packs, Verdict, settled, again, retry, less, judge_last, judge, round, Balanced, balance,
}
use tsp_simple.View.Balance.Stops.{empty_packs}
use tsp_simple.View.Balance.Bounds.{Within, IsBounded, AreUsual, add_int-Within, pack-defined}

-- A verdict with an average of that magnitude at most, and with arrays of the right size.
abbrev IsFair : ℕ → Verdict → Type 0
IsFair n (settled flags pays) = Unit {0}
IsFair n (again a flags pays) = Within n a × (length flags ≡ 512) × (length pays ≡ 512)

retry-defined :
    (n : ℕ) (avg step : ℤ) (flags : List ℕ) (pays : List ℤ)
    → Within n avg
    → Within 2000 step
    → n + 2000 < 2_147_483_648
    → length flags ≡ 512
    → length pays ≡ 512
    → (v : Verdict) × (retry avg step flags pays ≡ some v) × IsFair (n + 2000) v
retry-defined n avg step flags pays h k fits f p =
    let (a, sum, small) = add_int-Within n 2000 avg step h k fits in
    (again a flags pays, rw sum refl, (small, f, p))

judge_last-defined :
    (n : ℕ) (avg : ℤ) (s : Packs)
    → Within n avg
    → n + 2000 < 2_147_483_648
    → IsBounded 511 s
    → (v : Verdict) × (judge_last avg s ≡ some v) × IsFair (n + 2000) v
judge_last-defined n avg s h fits b =
    let (x, at) = get_elem?-of_lt s.pays s.index (omega (arith, b.pays_size, b.index_small)) in
    let lower =
      retry-defined n avg less s.flags s.pays h (omega arith, omega arith) fits b.flags_size
        b.pays_size in
    go x at lower
  where
    go :
        (x : ℤ)
        → get_elem? s.pays s.index ≡ some x
        → ((v : Verdict) × (retry avg less s.flags s.pays ≡ some v) × IsFair (n + 2000) v)
        → (v : Verdict) × (judge_last avg s ≡ some v) × IsFair (n + 2000) v
    go (pos zero) at (v, lower, fair) = (v, rw (at, judge_last) lower, fair)
    go (pos (suc m)) at lower = (settled s.flags s.pays, rw (at, judge_last) refl, tt)
    go (negsuc m) at lower = (settled s.flags s.pays, rw (at, judge_last) refl, tt)

length-no_flags : length no_flags ≡ 512
unfolding no_flags
length-no_flags = length-replicate {A = ℕ} 512 0

length-no_pays : length no_pays ≡ 512
unfolding no_pays
length-no_pays = length-replicate {A = ℤ} 512 (pos 0)

judge-defined :
    (n : ℕ) (last avg : ℤ) (s : Packs)
    → Within n avg
    → n + 2000 < 2_147_483_648
    → IsBounded 511 s
    → (v : Verdict) × (judge last avg s ≡ some v) × IsFair (n + 2000) v
unfolding judge
judge-defined n last avg s h fits b = elim (Bool-cases (ltb_ℤ last (pos s.index))) [
  | inl more ↦
      let (v, e, fair) =
        retry-defined n avg (pos 2000) no_flags no_pays h (omega arith, omega arith) fits
          length-no_flags length-no_pays in
      (v, rw (more, judge) e, fair)
  | inr enough ↦ elim (Bool-cases (ltb_ℤ (pos s.index) last)) [
    | inl fewer ↦
        let (v, e, fair) =
          retry-defined n avg less no_flags no_pays h (omega arith, omega arith) fits
            length-no_flags length-no_pays in
        (v, rw (enough, fewer, judge) e, fair)
    | inr as_many ↦
        let (v, e, fair) = judge_last-defined n avg s h fits b in
        (v, rw (enough, as_many, judge) e, fair)
  ]
]

round-defined :
    (n : ℕ) (last : ℤ) (count : ℕ) (stops : List ℤ) (avg : ℤ) (flags : List ℕ) (pays : List ℤ)
    → Within n avg
    → n + 2000 < 2_147_483_648
    → count ≤ 511
    → count ≤ length stops
    → AreUsual stops
    → length flags ≡ 512
    → length pays ≡ 512
    → (v : Verdict) × (round last count stops avg flags pays ≡ some v) × IsFair (n + 2000) v
unfolding round
round-defined n last count stops avg flags pays h fits few enough usual f p =
    let begin : IsBounded 0 (empty_packs flags pays) = record {
      flags_size = f;
      pays_size = p;
      index_small = omega arith;
      inner_small = omega arith;
      sum = 0;
      tmp_is = refl;
      sum_small = omega arith;
    } in
    let (t, packed, b) =
      pack-defined avg count 0 stops (empty_packs flags pays) begin usual (omega arith)
        (omega arith) in
    let b' : IsBounded 511 t = record {
      flags_size = b.flags_size;
      pays_size = b.pays_size;
      index_small = omega (arith, b.index_small);
      inner_small = b.inner_small;
      sum = b.sum;
      tmp_is = b.tmp_is;
      sum_small = b.sum_small;
    } in
    let (v, judged, fair) = judge-defined n last avg t h fits b' in (v, rw packed judged, fair)

-- The loops of step 5 come to an end without an overflow and without an access outside of an array,
-- for up to 511 stops with amounts between 0 and 195000000, arrays of 512 elements, and an average
-- whose magnitude stays below 2 ^ 31 with 2000 added for each of the rounds that are left.
pub balance-defined :
    (n : ℕ) (last : ℤ) (count : ℕ) (stops : List ℤ) (left : ℕ) (avg : ℤ) (flags : List ℕ)
    (pays : List ℤ)
    → Within n avg
    → n + 2000 * (left + 1) < 2_147_483_648
    → count ≤ 511
    → count ≤ length stops
    → AreUsual stops
    → length flags ≡ 512
    → length pays ≡ 512
    → (b : Balanced) × (balance last count stops left avg flags pays ≡ some b)
unfolding balance
balance-defined n last count stops zero avg flags pays h fits few enough usual f p =
    let (v, ran, fair) =
      round-defined n last count stops avg flags pays h (omega arith) few enough usual f p in
    go v ran
  where
    go :
        (v : Verdict)
        → round last count stops avg flags pays ≡ some v
        → (b : Balanced) × (balance last count stops 0 avg flags pays ≡ some b)
    go (settled flags' pays') ran =
        (record { flags = flags'; pays = pays'; recall = true }, rw (ran, balance) refl)
    go (again a flags' pays') ran =
        (record { flags = flags'; pays = pays'; recall = true }, rw (ran, balance) refl)
balance-defined n last count stops (suc left) avg flags pays h fits few enough usual f p =
    let (v, ran, fair) =
      round-defined n last count stops avg flags pays h (omega arith) few enough usual f p in
    go v ran fair (λ a flags' pays' small f' p'.
      balance-defined (n + 2000) last count stops left a flags' pays' small (omega arith) few enough
        usual f' p')
  where
    go :
        (v : Verdict)
        → round last count stops avg flags pays ≡ some v
        → IsFair (n + 2000) v
        → ((a : ℤ) (flags' : List ℕ) (pays' : List ℤ)
            → Within (n + 2000) a
            → length flags' ≡ 512
            → length pays' ≡ 512
            → (b : Balanced) × (balance last count stops left a flags' pays' ≡ some b))
        → (b : Balanced) × (balance last count stops (suc left) avg flags pays ≡ some b)
    go (settled flags' pays') ran fair next =
        (record { flags = flags'; pays = pays'; recall = false }, rw (ran, balance) refl)
    go (again a flags' pays') ran (small, f', p') next =
        let (b, rest) = next a flags' pays' small f' p' in (b, rw (ran, balance) rest)
