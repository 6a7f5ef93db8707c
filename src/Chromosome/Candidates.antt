-- ===== src/Chromosome/Candidates.antt =====
-- The choice of the next city in a round of `TspCrossover`: it is a city of the parents that the
-- child lacks, and there is none only when the child has them all.
use native.Mathlib.Nat.{mod-eq_of_lt, mod-eq-sub-mod, mod-lt}
use tsp_simple.Base.{
  ℕ, zero, suc, ◌+◌, ◌-◌, ◌%◌, ◌≤◌, ◌<◌, ◌≡◌, refl, ap, ◌∙◌, true, false, Option, some, List, ◌==◌,
  if◌then◌else◌, length, get_elem?, arith, elem, elem-of_get, IsDistinct, inl, inr, ◌⊎◌, Bool-cases,
  get_elem?-of_lt, get_elem?-lt, get_elem?-map, ltb,
}
use tsp_simple.City.{null}
use tsp_simple.External.{Floats, Random, IsInRange}
use tsp_simple.Chromosome.{
  Crossing, select_next_city, consider, consider_neighbours, find_free, choose_next,
}
use tsp_simple.Chromosome.Marks.{marks, index_of_elem}

-- Two chromosomes over the same cities, each city once, with a distance between any two of them.
pub record IsParents (F : Floats) (distance : ℕ → ℕ → Option F.Float) (n : ℕ) (p1 p2 : List ℕ)
    : Type 0 where
  pub length_first : length p1 ≡ n
  pub length_second : length p2 ≡ n
  pub distinct_first : IsDistinct p1
  pub distinct_second : IsDistinct p2
  pub no_null : elem null p1 ≡ false
  pub to_second : (c : ℕ) → elem c p1 ≡ true → elem c p2 ≡ true
  pub to_first : (c : ℕ) → elem c p2 ≡ true → elem c p1 ≡ true
  pub reachable :
      (a b : ℕ) → elem a p1 ≡ true → elem b p1 ≡ true → (d : F.Float) × (distance a b ≡ some d)

shift_up : (n start k : ℕ) → start < n → k < n → (start + (k + n - start)) % n ≡ k
shift_up n start k h l =
    let e : start + (k + n - start) ≡ k + n = omega arith in
    let f : k + n - n ≡ k = omega arith in
    ap (λ t. t % n) e ∙ mod-eq-sub-mod (omega arith) ∙ ap (λ t. t % n) f ∙ mod-eq_of_lt l

shift_down : (n start k : ℕ) → start ≤ k → k < n → (start + (k - start)) % n ≡ k
shift_down n start k h l =
    let e : start + (k - start) ≡ k = omega arith in ap (λ t. t % n) e ∙ mod-eq_of_lt l

-- The search that starts anywhere visits every position.
residue : (n start k : ℕ) → start < n → k < n → (i : ℕ) × (i < n) × ((start + i) % n ≡ k)
residue n start k h l = elim (Bool-cases (ltb k start)) [
  | inl e ↦ (k + n - start, ground arith, shift_up n start k h l)
  | inr e ↦ (k - start, ground arith, shift_down n start k (ground arith) l)
]

-- No city, or a city of the parents that is not in the child.
abbrev pub IsCandidate : List ℕ → List ℕ → ℕ → Type 0
IsCandidate p1 child b = (b ≡ null) ⊎ ((elem b p1 ≡ true) × (elem b child ≡ false))

module _ (R : Random) (F : Floats) (distance : ℕ → ℕ → Option F.Float) (n : ℕ) (p1 p2 : List ℕ)
    (par : IsParents F distance n p1 p2) (child : List ℕ) where
  select_next_city_lem :
      (current best next : ℕ)
      → elem current p1 ≡ true
      → IsCandidate p1 child best
      → IsCandidate p1 child next
      → elem next p1 ≡ true
      → (b : ℕ) × (select_next_city R F distance current best next ≡ some b)
        × IsCandidate p1 child b
  unfolding select_next_city
  select_next_city_lem current best next cur (inl e) ok isin = (next, ground arith, ok)
  select_next_city_lem current best next cur (inr e) ok isin =
      let (a, da) = par.reachable current best cur e.0 in
      let (b, db) = par.reachable current next cur isin in
      (
        if best == null then next else if F.greater a b then next else best,
        ground arith,
        ground arith,
      )

  -- One neighbour: the city at position `k` of a parent `c`.
  consider_lem :
      (current : ℕ) (c : List ℕ) (k best : ℕ)
      → elem current p1 ≡ true
      → ((x : ℕ) → elem x c ≡ true → elem x p1 ≡ true)
      → k < length c
      → IsCandidate p1 child best
      → (b : ℕ) × (consider R F distance current (marks child c) c k best ≡ some b)
        × IsCandidate p1 child b
  unfolding consider
  consider_lem current c k best cur sub lt ok =
      let (v, at) = get_elem?-of_lt c k lt in
      let marked = get_elem?-map (λ x. elem x child) c k at in
      elim (Bool-cases (elem v child)) [
        | inl old ↦ (best, rw (marked, consider) (rw old), ok)
        | inr new ↦
            let isin = sub v (elem-of_get c k at) in
            let (b, e, ok') = select_next_city_lem current best v cur ok (inr (isin, new)) isin in
            (b, rw (marked, consider) (rw (new, at) e), ok')
      ]

  consider_neighbours_lem :
      (current : ℕ) (c : List ℕ) (pos best : ℕ)
      → elem current p1 ≡ true
      → ((x : ℕ) → elem x c ≡ true → elem x p1 ≡ true)
      → length c ≡ n
      → 2 ≤ n
      → pos < n
      → IsCandidate p1 child best
      → (b : ℕ) × (consider_neighbours R F distance n current (marks child c) c pos best ≡ some b)
        × IsCandidate p1 child b
  unfolding consider_neighbours
  consider_neighbours_lem current c zero best cur sub len two lt ok =
      let (a, ea, oka) = consider_lem current c (n - 1) best cur sub (omega arith) ok in
      let (b, eb, okb) = consider_lem current c 1 a cur sub (omega arith) oka in (b, rw ea eb, okb)
  consider_neighbours_lem current c (suc pos) best cur sub len two lt ok =
      let (a, ea, oka) = consider_lem current c pos best cur sub (omega arith) ok in
      let k = if ltb (suc pos) (n - 1) then suc pos + 1 else 0 in
      let (b, eb, okb) = consider_lem current c k a cur sub (ground arith) oka in (b, rw ea eb, okb)

  find_free_lem :
      (start j : ℕ)
      → 0 < n
      → (b : ℕ) × (find_free R j start n (marks child p1) p1 ≡ some b)
        × IsCandidate p1 child b
        × (b ≡ null
            → (i x : ℕ) → i < j
            → get_elem? p1 ((start + i) % n) ≡ some x
            → elem x child ≡ true)
  unfolding find_free
  find_free_lem start zero pos = (null, refl, inl refl, λ e i x h. elim h [ ])
  find_free_lem start (suc j) pos =
      let p = (start + j) % n in
      let (v, at) =
        get_elem?-of_lt p1 p (omega (arith, par.length_first, mod-lt (start + j) pos)) in
      let marked = get_elem?-map (λ x. elem x child) p1 p at in
      elim (Bool-cases (elem v child)) [
        | inl old ↦
            let (b, e, ok, all) = find_free_lem start j pos in
            (b, rw (marked, find_free) (rw old e), ok, λ z i x h g. ground (arith, all z i x))
        | inr new ↦
            let isin = elem-of_get p1 p at in
            (
              v,
              rw (marked, find_free) (rw (new, at)),
              inr (isin, new),
              λ z i x h g. ground (arith, par.no_null),
            )
      ]

  -- The marks of both parents, and the number of draws, after the first part of a round.
  abbrev pub crossing_of : R.Rng → Crossing R
  crossing_of g = record {
    child = child;
    taken_from_first = marks child p1;
    taken_from_second = marks child p2;
    rng = g;
  }

  pub choose_next_lem :
      (current f g : ℕ) (rng : R.Rng)
      → IsInRange R
      → elem current p1 ≡ true
      → 2 ≤ n
      → f < n
      → g < n
      → (next : ℕ) × (rng' : R.Rng) × (choose_next R F distance n p1 p2 current f g
            (crossing_of rng)
          ≡ some (next, crossing_of rng'))
        × IsCandidate p1 child next
        × (next ≡ null → (x : ℕ) → elem x p1 ≡ true → elem x child ≡ true)
  unfolding choose_next
  choose_next_lem current f g rng range cur two lf lg =
      let (a, ea, oka) =
        consider_neighbours_lem current p2 g null cur par.to_first par.length_second two lg
          (inl refl) in
      let (b, eb, okb) =
        consider_neighbours_lem current p1 f a cur (λ x h. h) par.length_first two lf oka in
      elim (Bool-cases (b == null)) [
        | inr more ↦ (b, rng, rw (ea, eb) (rw more), okb, λ z. ground arith)
        | inl done ↦
            let start = (R.generate (n - 1) rng).0 in
            let (x, ex, okx, all) = find_free_lem start n (omega arith) in
            (
              x,
              (R.generate (n - 1) rng).1,
              rw (ea, eb) (rw (done, ex)),
              okx,
              λ z y h.
                  let (k, at) = index_of_elem y p1 h in
                  let (i, li, e) =
                    residue n start k (omega (arith, range (n - 1) rng))
                      (omega (arith, get_elem?-lt p1 k at, par.length_first)) in
                  all z i y li (rw e at),
            )
      ]
