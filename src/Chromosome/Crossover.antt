-- ===== src/Chromosome/Crossover.antt =====
-- `TspCrossover::operator ()` ends, never leaves its arrays, and its child is a permutation of the
-- parents' cities.
use tsp_simple.Base.{
  ℕ, zero, suc, ◌+◌, ◌≤◌, ◌<◌, ◌≡◌, refl, ap, sym, ◌∙◌, ◌>>=◌, true, false, Option, some, List, [],
  ◌∷◌, ◌++◌, ◌==◌, length, replicate, arith, elem, elem-snoc, elem-of_get, IsDistinct, inl, inr,
  Bool-cases, get_elem?-of_lt, get_elem?-lt, Perm, perm_of_elem, length-le_of_elem, IsDistinct-snoc,
  length-append,
}
use mathlib.Core.Path.{ap₂}
use tsp_simple.City.{null}
use tsp_simple.External.{Floats, Random, IsInRange}
use tsp_simple.Chromosome.{Crossing, take_city, cross_round, cross_loop, crossover}
use tsp_simple.Chromosome.Marks.{marks-nil, store-marks, get_city_position_lem}
use tsp_simple.Chromosome.Candidates.{IsParents, crossing_of, choose_next_lem}

module _ (R : Random) (F : Floats) (distance : ℕ → ℕ → Option F.Float) (n : ℕ) (p1 p2 : List ℕ)
    (par : IsParents F distance n p1 p2) where
  abbrev crossing : List ℕ → R.Rng → Crossing R
  crossing child = crossing_of R F distance n p1 p2 par child

  start-crossing :
      (g : R.Rng)
      → ◌≡◌ {A = Crossing R}
          (record {
            child = [];
            taken_from_first = replicate n false;
            taken_from_second = replicate n false;
            rng = g;
          })
          (crossing [] g)
  start-crossing g =
      ap₂ (λ t u. record { child = []; taken_from_first = t; taken_from_second = u; rng = g })
        (sym (marks-nil p1 ∙ ap (λ k. replicate k false) par.length_first))
        (sym (marks-nil p2 ∙ ap (λ k. replicate k false) par.length_second))

  take_city_lem :
      (child : List ℕ) (current : ℕ) (g : R.Rng)
      → elem current p1 ≡ true
      → (i : ℕ) × (j : ℕ) × (take_city R F distance n p1 p2 current (crossing child g)
          ≡ some (i, j, crossing (child ++ current ∷ []) g))
        × (i < n)
        × (j < n)
  unfolding take_city
  take_city_lem child current g cur =
      let (i, ei, ati) = get_city_position_lem current p1 cur in
      let (j, ej, atj) = get_city_position_lem current p2 (par.to_second current cur) in
      let s1 = store-marks child p1 i current par.distinct_first ati in
      let s2 = store-marks child p2 j current par.distinct_second atj in
      (
        i,
        j,
        rw (ei, ej, s1, s2),
        omega (arith, get_elem?-lt p1 i ati, par.length_first),
        omega (arith, get_elem?-lt p2 j atj, par.length_second),
      )

  -- The cities that the child has stand once in it, and come from the parents.
  abbrev IsPartial : List ℕ → Type 0
  IsPartial child = IsDistinct child × ((x : ℕ) → elem x child ≡ true → elem x p1 ≡ true)

  IsPartial-snoc :
      (child : List ℕ) (current : ℕ)
      → IsPartial child
      → elem current p1 ≡ true
      → elem current child ≡ false
      → IsPartial (child ++ current ∷ [])
  IsPartial-snoc child current ok cur new = (
    IsDistinct-snoc child current ok.0 new,
    λ x h. elim (Bool-cases (elem x child)) [
      | inl old ↦ ok.1 x old
      | inr fresh ↦ let e : current ≡ x = ground (arith, elem-snoc x current child) in rw e at cur
    ],
  )

  room :
      (child : List ℕ) (current : ℕ)
      → IsPartial child
      → elem current p1 ≡ true
      → elem current child ≡ false
      → length child + 1 ≤ n
  room child current ok cur new =
      let more = IsPartial-snoc child current ok cur new in
      omega (
        arith,
        length-le_of_elem _ p1 more.0 more.1,
        par.length_first,
        length-append child (current ∷ []),
      )

  cross_loop_lem :
      (fuel : ℕ) (child : List ℕ) (current : ℕ) (g : R.Rng)
      → IsInRange R
      → 2 ≤ n
      → n ≤ fuel + length child
      → IsPartial child
      → elem current p1 ≡ true
      → elem current child ≡ false
      → (end : List ℕ) × (g' : R.Rng) × (cross_loop R F distance n p1 p2 fuel current
            (crossing child g)
          ≡ some (crossing end g'))
        × Perm end p1
  unfolding cross_loop cross_round elem
  cross_loop_lem zero child current g range two enough ok cur new =
      absurd (omega (arith, room child current ok cur new))
  cross_loop_lem (suc fuel) child current g range two enough ok cur new =
      let (i, j, taken, li, lj) = take_city_lem child current g cur in
      let child' = child ++ current ∷ [] in
      let ok' = IsPartial-snoc child current ok cur new in
      let (next, g', chosen, candidate, all) =
        choose_next_lem R F distance n p1 p2 par child' current i j g range cur two li lj in
      elim candidate [
        | inl none_left ↦ (
          child',
          g',
          rw (taken, chosen) (rw none_left),
          perm_of_elem child' p1 ok'.0 par.distinct_first ok'.1 (all none_left),
        )
        | inr (isin, fresh) ↦
            let (end, g'', e, p) =
              cross_loop_lem fuel child' next g' range two
                (omega (arith, length-append child (current ∷ []))) ok' isin fresh in
            let more : (next == null) ≡ false = ground (arith, par.no_null) in
            (end, g'', rw (taken, chosen) (rw more e), p)
      ]

module _ (R : Random) (F : Floats) (distance : ℕ → ℕ → Option F.Float) where
  -- The loop of the crossover ends within as many rounds as there are cities, no access leaves an
  -- array, and the child holds each city of its parents once: for at least two cities, and parents
  -- that hold the same cities, each once, none NULL, between which every distance is known.
  pub crossover-perm :
      (n : ℕ) (p1 p2 : List ℕ) (g : R.Rng)
      → IsInRange R
      → IsParents F distance n p1 p2
      → 2 ≤ n
      → (child : List ℕ) × (g' : R.Rng) × (crossover R F distance n p1 p2 g ≡ some (child, g'))
        × Perm child p1
  unfolding crossover elem
  crossover-perm zero p1 p2 g range par two = absurd (omega arith)
  crossover-perm (suc m) p1 p2 g range par two =
      let (start, g') = R.generate m g in
      let (current, at) = get_elem?-of_lt p1 start (omega (arith, range m g, par.length_first)) in
      let (child, g'', e, p) =
        cross_loop_lem R F distance (suc m) p1 p2 par (suc m) [] current g' range two (omega arith)
          (tt, λ x h. cc) (elem-of_get p1 start at) refl in
      let answer : Option (Crossing R) → Option (List ℕ × R.Rng) =
        λ o. o >>= λ end. some (end.child, end.rng) in
      (
        child,
        g'',
        rw at (
            ap (λ s. answer (cross_loop R F distance (suc m) p1 p2 (suc m) current s))
              (start-crossing R F distance (suc m) p1 p2 par g')
            ∙ ap answer e),
        p,
      )
