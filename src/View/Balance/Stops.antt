-- ===== src/View/Balance/Stops.antt =====
-- The loop over the stops of step 5 (TSP/TspView.cpp, `OnCalcDeliveryData`), stop by stop.
use tsp_simple.Base.{
  ℕ, zero, suc, ◌+◌, ◌≡◌, refl, sym, ap, bind-some, get_elem?-lt, length-take_of_le, some, List, [],
  ◌∷◌, ◌++◌, inl, inr, length, get_elem?, take, arith, Option-cases,
}
use tsp_simple.Base.Int.{ℤ, pos, ◌+ℤ◌}
use tsp_simple.View.Load.{assign}
use tsp_simple.View.Balance.{Packs, fills, after_stop, add_int, pack_stop, pack}
use tsp_simple.View.Balance.Packing.{total_from, joined, ends, IsPacked}
use tsp_simple.View.Balance.Joining.{after_stop-IsPacked}

pub add_int_lem : (a b : ℤ) {s : ℤ} → add_int a b ≡ some s → s ≡ a +ℤ b
unfolding add_int
add_int_lem a b e = ground arith

-- What a stop does, once it succeeds.
pack_stop_parts :
    (avg : ℤ) (i : ℕ) (pay : ℤ) (s t : Packs)
    → pack_stop avg i pay s ≡ some t
    → (tmp : ℤ) × (flags : List ℕ) × (pays : List ℤ) × (tmp ≡ s.tmp +ℤ pay)
      × (assign s.flags s.index i ≡ some flags)
      × (assign s.pays s.index tmp ≡ some pays)
      × (t ≡ after_stop (fills avg s.inner tmp) flags pays tmp s)
unfolding pack_stop
pack_stop_parts avg i pay s t e =
    let (tmp, sum, e₁) = bind-some (add_int s.tmp pay) _ e in
    let (flags, flagged, e₂) = bind-some (assign s.flags s.index i) _ e₁ in
    let (pays, paid, e₃) = bind-some (assign s.pays s.index tmp) _ e₂ in
    let is : t ≡ after_stop (fills avg s.inner tmp) flags pays tmp s = cc in
    (tmp, flags, pays, add_int_lem s.tmp pay sum, flagged, paid, is)

take-next :
    {A : Type 0} (i : ℕ) (xs : List A) {x : A}
    → get_elem? xs i ≡ some x
    → take (suc i) xs ≡ take i xs ++ x ∷ []
take-next zero [] e = cc
take-next zero (y ∷ xs) {x} e = let same : y ≡ x = cc in ap (λ z. z ∷ []) same
take-next (suc i) [] e = cc
take-next (suc i) (y ∷ xs) e = ap (λ l. y ∷ l) (take-next i xs e)

length-take_of_get :
    {A : Type 0} (i : ℕ) (xs : List A) {x : A} → get_elem? xs i ≡ some x → length (take i xs) ≡ i
length-take_of_get i xs e = length-take_of_le i xs (omega (arith, get_elem?-lt xs i e))

pack_stop-IsPacked :
    (avg : ℤ) (flags : List ℕ) (pays stops : List ℤ) (i : ℕ) {pay : ℤ} (s t : Packs)
    → IsPacked avg flags pays (take i stops) s
    → get_elem? stops i ≡ some pay
    → pack_stop avg i pay s ≡ some t
    → IsPacked avg flags pays (take (suc i) stops) t
pack_stop-IsPacked avg flags pays stops i {pay} s t was at e =
    let (tmp, flags', pays', sum, flagged, paid, is) = pack_stop_parts avg i pay s t e in
    let flagged' = rw (sym (length-take_of_get i stops at)) at flagged in
    let next =
      after_stop-IsPacked avg flags pays (take i stops) pay s (fills avg s.inner tmp) was sum
        flagged' paid refl in
    rw (take-next i stops at, is) next

pack-from :
    (avg : ℤ) (flags : List ℕ) (pays stops : List ℤ) (rounds i : ℕ) (s t : Packs)
    → IsPacked avg flags pays (take i stops) s
    → pack avg rounds i stops s ≡ some t
    → IsPacked avg flags pays (take (i + rounds) stops) t
unfolding pack
pack-from avg flags pays stops zero i s t was e =
    let same : s ≡ t = cc in let all : i + 0 ≡ i = omega arith in rw (sym same, all) was
pack-from avg flags pays stops (suc rounds) i s t was e = elim (Option-cases (get_elem? stops i)) [
  | inl out ↦ let e₁ = rw (out, pack) at e in cc
  | inr (pay, at) ↦
      let e₁ = rw (at, pack) at e in
      elim (Option-cases (pack_stop avg i pay s)) [
        | inl out ↦ let e₂ = rw out at e₁ in cc
        | inr (s', stopped) ↦
            let e₂ = rw stopped at e₁ in
            let there : i + suc rounds ≡ i + 1 + rounds = omega arith in
            let next : suc i ≡ i + 1 = omega arith in
            let one = pack_stop-IsPacked avg flags pays stops i s s' was at stopped in
            let now = rw next at one in
            rw there (pack-from avg flags pays stops rounds (i + 1) s' t now e₂)
      ]
]

-- At the start no stop is seen.
abbrev pub empty_packs : List ℕ → List ℤ → Packs
empty_packs flags pays = record { flags = flags; pays = pays; index = 0; inner = 0; tmp = pos 0 }

empty_packs-IsPacked :
    (avg : ℤ) (flags : List ℕ) (pays : List ℤ) → IsPacked avg flags pays [] (empty_packs flags pays)
unfolding joined ends total_from
empty_packs-IsPacked avg flags pays = record {
  groups = [];
  current = [];
  cut = refl;
  all_full = λ k g e. cc;
  few = omega arith;
  below = λ j some_of lt. absurd (omega arith);
  inner_is = refl;
  tmp_is = refl;
  index_is = refl;
  pays_are = record {
    front = [];
    rest = pays;
    cut = refl;
    size = refl;
    written = refl;
    room = inl refl;
  };
  flags_are = record {
    front = [];
    rest = flags;
    cut = refl;
    size = refl;
    written = refl;
    room = inl refl;
  };
}

-- A round of step 5 that gets through the stops divides them, in order, into the routes of the
-- vehicles. Each route but the last ends with the first stop with which it has eleven stops or an
-- amount above the average; the last one, which may be empty, has at most ten stops and no such one
-- among them. For each route with a stop the arrays have the index of its last stop and its amount; the
-- rest of the arrays is as before.
pub pack-IsPacked :
    (avg : ℤ) (flags : List ℕ) (pays stops : List ℤ) (count : ℕ) (t : Packs)
    → pack avg count 0 stops (empty_packs flags pays) ≡ some t
    → IsPacked avg flags pays (take count stops) t
pack-IsPacked avg flags pays stops count t e =
    let all : 0 + count ≡ count = omega arith in
    rw (sym all) (
      pack-from avg flags pays stops count 0 (empty_packs flags pays) t
        (empty_packs-IsPacked avg flags pays) e)
