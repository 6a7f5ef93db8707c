-- ===== src/View/Balance/Settled.antt =====
-- What the division of the route that step 5 (TSP/TspView.cpp, `OnCalcDeliveryData`) settles on is.
use tsp_simple.Base.{
  ℕ, zero, suc, ◌+◌, ◌-◌, ◌≤◌, ◌<◌, ◌≡◌, ◌≢◌, refl, sym, ap, ◌∙◌, true, false, bind-some, some,
  List, [], ◌∷◌, ◌++◌, map, length-map, ◌⊎◌, inl, inr, length, length-append, get_elem?,
  get_elem?-replicate, take, arith, Bool-cases, Option-cases,
}
use tsp_simple.Base.Int.{ℤ, pos, negsuc, ltb_ℤ}
use tsp_simple.View.{no_flags, no_pays}
use tsp_simple.View.Balance.{
  Packs, Verdict, retry, less, settled, again, add_int, judge, judge_last, round, Balanced, balance,
  pack,
}
use tsp_simple.View.Balance.Packing.{
  total, joined, ends, NotBefore, IsFull, IsPacked, joined-snoc, map-snoc, ends-snoc,
  IsWritten-current, IsWritten-untouched,
}
use tsp_simple.View.Balance.Joining.{all-snoc}
use tsp_simple.View.Balance.Stops.{pack-IsPacked, empty_packs}
use tsp_simple.View.Load.Vectors.{get_elem?-snoc_old}

-- The averages that the loop comes to from `a` in at most `n` changes by 2000.
pub data Tried : ℕ → ℤ → ℤ → Type 0 where
  kept : {n : ℕ} {a : ℤ} → Tried n a a
  raised : {n : ℕ} {a b c : ℤ} → add_int a (pos 2000) ≡ some b → Tried n b c → Tried (suc n) a c
  lowered : {n : ℕ} {a b c : ℤ} → add_int a less ≡ some b → Tried n b c → Tried (suc n) a c

-- The arrays say how the route is divided among the vehicles, with the average `avg`: each vehicle but
-- the last has its stops up to the first one with which there are eleven or their amount is above the
-- average; the last has the rest.
pub record IsDivided (avg : ℤ) (vehicles : ℕ) (route : List ℤ) (flags : List ℕ) (pays : List ℤ)
    : Type 0 where
  pub routes : List (List ℤ)
  pub one_each : length routes ≡ vehicles
  pub whole : joined routes ≡ route
  pub sizes : (k : ℕ) (g : List ℤ) → get_elem? routes k ≡ some g → (1 ≤ length g) × (length g ≤ 11)
  pub all_full :
      (k : ℕ) (g : List ℤ) → get_elem? routes k ≡ some g → k + 1 < vehicles → IsFull avg g
  pub not_before : (k : ℕ) (g : List ℤ) → get_elem? routes k ≡ some g → NotBefore avg (length g) g
  pub last_open :
      (k : ℕ) (g : List ℤ)
      → get_elem? routes k ≡ some g
      → k + 1 ≡ vehicles
      → (length g ≤ 10) × NotBefore avg (length g + 1) g
  pub flags_are : (rest : List ℕ) × (flags ≡ ends 0 routes ++ rest)
  pub pays_are : (rest : List ℤ) × (pays ≡ map total routes ++ rest)

retry-again :
    (avg step : ℤ) (flags : List ℕ) (pays : List ℤ) {v : Verdict}
    → retry avg step flags pays ≡ some v
    → (a : ℤ) × (add_int avg step ≡ some a) × (v ≡ again a flags pays)
retry-again avg step flags pays e =
    let (a, sum, is) = bind-some (add_int avg step) (λ a. some (again a flags pays)) e in
    (a, sum, cc)

judge_last-cases :
    (avg : ℤ) (s : Packs) {v : Verdict}
    → judge_last avg s ≡ some v
    → ((a : ℤ) × (add_int avg less ≡ some a)
        × (get_elem? s.pays s.index ≡ some (pos 0))
        × (v ≡ again a s.flags s.pays))
      ⊎ ((x : ℤ) × (get_elem? s.pays s.index ≡ some x) × (x ≢ pos 0) × (v ≡ settled s.flags s.pays))
judge_last-cases avg s e = elim (Option-cases (get_elem? s.pays s.index)) [
  | inl out ↦ let e' = rw (out, judge_last) at e in cc
  | inr (pos zero, at) ↦
      let e' = rw (at, judge_last) at e in
      let (a, sum, is) = retry-again avg less s.flags s.pays e' in inl (a, sum, at, is)
  | inr (pos (suc n), at) ↦ let e' = rw (at, judge_last) at e in inr (pos (suc n), at, λ z. cc, cc)
  | inr (negsuc n, at) ↦ let e' = rw (at, judge_last) at e in inr (negsuc n, at, λ z. cc, cc)
]

-- The average is raised or lowered.
abbrev pub Changed : ℤ → ℤ → Type 0
Changed avg a = (add_int avg (pos 2000) ≡ some a) ⊎ (add_int avg less ≡ some a)

Tried-changed : {n : ℕ} {a b c : ℤ} → Changed a b → Tried n b c → Tried (suc n) a c
Tried-changed (inl up) t = raised up t
Tried-changed (inr down) t = lowered down t

-- What a round comes to, for `k + 1` vehicles.
pub judge-cases :
    (k : ℕ) (avg : ℤ) (s : Packs) {v : Verdict}
    → judge (pos k) avg s ≡ some v
    → ((a : ℤ) × Changed avg a × (v ≡ again a no_flags no_pays))
      ⊎ ((s.index ≡ k) × (judge_last avg s ≡ some v))
unfolding judge
judge-cases k avg s e = elim (Bool-cases (ltb_ℤ (pos k) (pos s.index))) [
  | inl more ↦
      let (a, sum, is) = retry-again avg (pos 2000) no_flags no_pays (rw (more, judge) at e) in
      inl (a, inl sum, is)
  | inr enough ↦ elim (Bool-cases (ltb_ℤ (pos s.index) (pos k))) [
    | inl fewer ↦
        let (a, sum, is) = retry-again avg less no_flags no_pays (rw (enough, fewer, judge) at e) in
        inl (a, inr sum, is)
    | inr as_many ↦ inr (ground arith, rw (enough, as_many, judge) at e)
  ]
]

get_elem?-snoc_new :
    {A : Type 0} (xs : List A) (x : A) → get_elem? (xs ++ x ∷ []) (length xs) ≡ some x
get_elem?-snoc_new [] x = refl
get_elem?-snoc_new (y ∷ xs) x = get_elem?-snoc_new xs x

some-inj : {A : Type 0} {x y : A} → some x ≡ some y → x ≡ y
some-inj e = cc

-- The arrays with a route that has at least one stop for each vehicle.
IsPacked-IsDivided :
    (avg : ℤ) (flags : List ℕ) (pays seen : List ℤ) (s : Packs) (k : ℕ) {x : ℤ}
    → IsPacked avg flags pays seen s
    → s.index ≡ k
    → get_elem? pays k ≡ some (pos 0)
    → get_elem? s.pays k ≡ some x
    → x ≢ pos 0
    → IsDivided avg (k + 1) seen s.flags s.pays
IsPacked-IsDivided avg flags pays seen s k w index before now other = go w.current refl
  where
    at : k ≡ length (map total w.groups)
    at = omega (arith, w.index_is, length-map w.groups total)

    go : (current : List ℤ) → w.current ≡ current → IsDivided avg (k + 1) seen s.flags s.pays
    go [] none_left =
        let kept = rw none_left at w.pays_are in
        let same = IsWritten-untouched kept in
        let then = rw at at before in let here = rw at at now in absurd (other cc)
    go (p ∷ ps) is =
        let route = p ∷ ps in
        let (pays_rest, pays_so) = IsWritten-current (rw is at w.pays_are) in
        let (flags_rest, flags_so) = IsWritten-current (rw is at w.flags_are) in
        let few = rw is at w.few in
        let last_stop : length seen - 1 ≡ 0 + length (joined w.groups) + length route - 1 = omega (
          arith,
          ap length (w.cut ∙ ap (λ l. joined w.groups ++ l) is),
          length-append (joined w.groups) route,
        ) in
        record {
          routes = w.groups ++ route ∷ [];
          one_each = omega (arith, w.index_is, length-append w.groups (route ∷ []));
          whole = joined-snoc w.groups route ∙ sym (w.cut ∙ ap (λ l. joined w.groups ++ l) is);
          sizes =
              all-snoc (λ g. (1 ≤ length g) × (length g ≤ 11)) w.groups route
                (λ j g e. ((w.all_full j g e).nonempty, (w.all_full j g e).at_most))
                (omega arith, omega arith);
          not_before =
              all-snoc (λ g. NotBefore avg (length g) g) w.groups route
                (λ j g e. (w.all_full j g e).not_before)
                (λ j some_of lt. rw is at w.below j some_of (omega arith));
          last_open = λ j g e last.
              let at_end : j ≡ length w.groups = omega (arith, w.index_is) in
              let same : route ≡ g =
                some-inj (sym (get_elem?-snoc_new w.groups route) ∙ rw at_end at e) in
              rw (← same) (rw is at w.few, rw is at w.below);
          all_full = λ j g e early.
              w.all_full j g
                (get_elem?-snoc_old w.groups route j e (λ z. omega (arith, w.index_is)));
          flags_are = (flags_rest, rw (ends-snoc 0 w.groups route) (rw last_stop at flags_so));
          pays_are = (pays_rest, rw (map-snoc total w.groups route) pays_so);
        }

-- `last` is 0 for one vehicle. A round leaves the element of the last vehicle at 0 or settles.
round-cases :
    (k count : ℕ) (stops : List ℤ) (avg : ℤ) (flags : List ℕ) (pays : List ℤ) {v : Verdict}
    → k < 512
    → get_elem? pays k ≡ some (pos 0)
    → round (pos k) count stops avg flags pays ≡ some v
    → ((a : ℤ) × (f : List ℕ) × (p : List ℤ) × (v ≡ again a f p)
        × (get_elem? p k ≡ some (pos 0))
        × Changed avg a)
      ⊎ ((f : List ℕ) × (p : List ℤ) × (v ≡ settled f p)
          × IsDivided avg (k + 1) (take count stops) f p)
unfolding round
round-cases k count stops avg flags pays fits zero_there e =
    let (s, packed, judged) =
      bind-some (pack avg count 0 stops (empty_packs flags pays)) (judge (pos k) avg) e in
    let is = pack-IsPacked avg flags pays stops count s packed in
    elim (judge-cases k avg s judged) [
      | inl (a, changed, again_so) ↦
          inl (a, no_flags, no_pays, again_so, get_elem?-replicate 512 (pos 0) k fits, changed)
      | inr (index, last) ↦ elim (judge_last-cases avg s last) [
        | inl (a, sum, at, again_so) ↦ inl (a, s.flags, s.pays, again_so, rw index at at, inr sum)
        | inr (x, at, other, settled_so) ↦
            let here = rw index at at in
            inr (
              s.flags,
              s.pays,
              settled_so,
              IsPacked-IsDivided avg flags pays _ s k is index zero_there here other,
            )
      ]
    ]

-- The last round calls for another run of the step, whatever it came to.
pub balance-recall :
    (last : ℤ) (count : ℕ) (stops : List ℤ) (avg : ℤ) (flags : List ℕ) (pays : List ℤ)
    (b : Balanced)
    → balance last count stops 0 avg flags pays ≡ some b
    → b.recall ≡ true
unfolding balance
balance-recall last count stops avg flags pays b e =
    elim (Option-cases (round last count stops avg flags pays)) [
      | inl out ↦ let e' = rw (out, balance) at e in cc
      | inr (settled f p, ran) ↦
          let e' = rw (ran, balance) at e in
          let is : record { flags = f; pays = p; recall = true } ≡ b = cc in
          ap (λ (c : Balanced). c.recall) (sym is)
      | inr (again a f p, ran) ↦
          let e' = rw (ran, balance) at e in
          let is : record { flags = f; pays = p; recall = true } ≡ b = cc in
          ap (λ (c : Balanced). c.recall) (sym is)
    ]

-- The division that step 5 settles on, for at most 512 vehicles, when the last of these has no
-- amount at the start, is the one for an average that the loop comes to from its first one in at most
-- `left` changes by 2000: the stops are divided, in order, into one route for each vehicle, and the
-- arrays have the index of its last stop and its amount. No route is empty; each but the last ends with
-- the first stop with which it has eleven stops or an amount above that average, and the last one
-- has at most ten stops and no such one among them.
pub balance-IsDivided :
    (k count : ℕ) (stops : List ℤ) (left : ℕ) (avg : ℤ) (flags : List ℕ) (pays : List ℤ)
    (b : Balanced)
    → k < 512
    → get_elem? pays k ≡ some (pos 0)
    → balance (pos k) count stops left avg flags pays ≡ some b
    → b.recall ≡ false
    → (settled_avg : ℤ) × Tried left avg settled_avg
      × IsDivided settled_avg (k + 1) (take count stops) b.flags b.pays
unfolding balance
balance-IsDivided k count stops zero avg flags pays b fits zero_there e once =
    let more = balance-recall (pos k) count stops avg flags pays b e in cc
balance-IsDivided k count stops (suc left) avg flags pays b fits zero_there e once =
    elim (Option-cases (round (pos k) count stops avg flags pays)) [
      | inl out ↦ let e' = rw (out, balance) at e in cc
      | inr (v, ran) ↦ elim (round-cases k count stops avg flags pays fits zero_there ran) [
        | inl (a, f, p, is, zero_now, changed) ↦
            let e' = rw (ran, is, balance) at e in
            let (c, tried, divided) =
              balance-IsDivided k count stops left a f p b fits zero_now e' once in
            (c, Tried-changed changed tried, divided)
        | inr (f, p, is, divided) ↦
            let e' = rw (ran, is, balance) at e in
            let settled_so : record { flags = f; pays = p; recall = false } ≡ b = cc in
            (avg, kept, rw (sym settled_so) divided)
      ]
    ]
