-- ===== src/View/Balance/Short.antt =====
-- The loop of step 5 (TSP/TspView.cpp, `OnCalcDeliveryData`) with fewer stops than it needs.
use tsp_simple.Base.{
  ℕ, zero, suc, ◌≤◌, ◌<◌, ◌≡◌, refl, ap, true, bind-some, some, List, [], ◌∷◌, inl, inr, length,
  length-append, get_elem?, take, arith, Option-cases,
}
use tsp_simple.Base.Int.{ℤ, pos, negsuc, ◌+ℤ◌}
use tsp_simple.View.{no_flags, no_pays}
use tsp_simple.View.Balance.{Balanced, balance, round, pack, judge, Verdict, again}
use tsp_simple.View.Balance.Packing.{joined}
use tsp_simple.View.Balance.Stops.{pack-IsPacked, empty_packs}
use tsp_simple.View.Balance.Settled.{balance-recall, judge-cases}

length-joined :
    (gs : List (List ℤ))
    → ((k : ℕ) (g : List ℤ) → get_elem? gs k ≡ some g → 1 ≤ length g)
    → length gs ≤ length (joined gs)
unfolding joined
length-joined [] all = omega arith
length-joined (g ∷ gs) all =
    omega (arith, all 0 g refl, length-joined gs (λ k. all (suc k)), length-append g (joined gs))

pub one_less : (n : ℕ) → pos (suc n) +ℤ negsuc 0 ≡ pos n
unfolding ◌+ℤ◌
one_less n = ground arith

length-take : {A : Type 0} (n : ℕ) (xs : List A) → length (take n xs) ≤ n
length-take zero xs = omega arith
length-take (suc n) [] = omega arith
length-take (suc n) (x ∷ xs) = omega (arith, length-take n xs)

-- With too few stops a round asks for another one.
round-again :
    (k count : ℕ) (stops : List ℤ) (avg : ℤ) (flags : List ℕ) (pays : List ℤ) {v : Verdict}
    → count < k
    → round (pos k) count stops avg flags pays ≡ some v
    → (a : ℤ) × (f : List ℕ) × (p : List ℤ) × (v ≡ again a f p)
unfolding round
round-again k count stops avg flags pays few e =
    let (s, packed, judged) =
      bind-some (pack avg count 0 stops (empty_packs flags pays)) (judge (pos k) avg) e in
    let is = pack-IsPacked avg flags pays stops count s packed in
    elim (judge-cases k avg s judged) [
      | inl (a, changed, so) ↦ (a, no_flags, no_pays, so)
      | inr (index, last) ↦ absurd (
          omega (
            arith,
            is.index_is,
            length-joined is.groups (λ j g at. (is.all_full j g at).nonempty),
            ap length is.cut,
            length-append (joined is.groups) is.current,
            length-take count stops,
          ))
    ]

pub balance-again :
    (k count : ℕ) (stops : List ℤ) (left : ℕ) (avg : ℤ) (flags : List ℕ) (pays : List ℤ)
    (b : Balanced)
    → count < k
    → balance (pos k) count stops left avg flags pays ≡ some b
    → b.recall ≡ true
unfolding balance
balance-again k count stops zero avg flags pays b few e =
    balance-recall (pos k) count stops avg flags pays b e
balance-again k count stops (suc left) avg flags pays b few e =
    elim (Option-cases (round (pos k) count stops avg flags pays)) [
      | inl out ↦ let e' = rw (out, balance) at e in cc
      | inr (v, ran) ↦
          let (a, f, p, is) = round-again k count stops avg flags pays few ran in
          let e' = rw (ran, is, balance) at e in balance-again k count stops left a f p b few e'
    ]
