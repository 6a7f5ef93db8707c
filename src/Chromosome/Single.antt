-- ===== src/Chromosome/Single.antt =====
-- `TspCrossover` (TSP/TspAlgorithm.cpp) on chromosomes of one city.
use tsp_simple.Base.{
  ℕ, suc, ◌-◌, ◌≡◌, refl, true, false, get_elem?, Option, none, some, [], ◌∷◌, ==_iff, arith, ap,
}
use tsp_simple.City.{null}
use tsp_simple.External.{Floats, Random, IsInRange}
use tsp_simple.Chromosome.{
  Crossing, crossover, cross_loop, cross_round, take_city, choose_next, consider_neighbours,
  consider, get_city_position, position_below, store,
}

module _ (R : Random) (F : Floats) (distance : ℕ → ℕ → Option F.Float) where
  -- The arrays of one element, before and after the city is taken.
  abbrev before : R.Rng → Crossing R
  before g = record {
    child = [];
    taken_from_first = false ∷ [];
    taken_from_second = false ∷ [];
    rng = g;
  }

  abbrev after : ℕ → R.Rng → Crossing R
  after c g = record {
    child = c ∷ [];
    taken_from_first = true ∷ [];
    taken_from_second = true ∷ [];
    rng = g;
  }

  taken :
      (c : ℕ) (g : R.Rng)
      → take_city R F distance 1 (c ∷ []) (c ∷ []) c (before g) ≡ some (0, 0, after c g)
  unfolding take_city get_city_position position_below store
  taken c g = rw ((==_iff c c).1 refl) refl

  no_loop :
      (c : ℕ) (g : R.Rng) (fuel : ℕ)
      → cross_loop R F distance 1 (c ∷ []) (c ∷ []) (suc fuel) c (before g) ≡ none
  unfolding cross_loop cross_round choose_next consider_neighbours consider
  no_loop c g fuel = rw (taken c g) refl

  -- The city is found and taken in both parents, the neighbour with the last index is looked at without
  -- effect, the one with the index 1 is read behind the end of its array, and so there is no
  -- child, however many rounds there may be.
  pub record ReadsBehind (c : ℕ) (g : R.Rng) : Type 0 where
    pub start : get_elem? (c ∷ []) (R.generate 0 g).0 ≡ some c
    pub both_taken :
        take_city R F distance 1 (c ∷ []) (c ∷ []) c (before (R.generate 0 g).1)
        ≡ some (0, 0, after c (R.generate 0 g).1)
    pub last :
        consider R F distance c (after c g).taken_from_second (c ∷ []) (1 - 1) null ≡ some null
    pub behind : get_elem? (after c g).taken_from_second 1 ≡ none
    pub no_next :
        consider_neighbours R F distance 1 c (after c g).taken_from_second (c ∷ []) 0 null ≡ none
    pub any_rounds :
        (fuel : ℕ)
        → cross_loop R F distance 1 (c ∷ []) (c ∷ []) (suc fuel) c (before (R.generate 0 g).1)
          ≡ none
    pub no_child : crossover R F distance 1 (c ∷ []) (c ∷ []) g ≡ none

  -- Two chromosomes of one and the same city have no child, however many rounds the crossover
  -- may take: the city is found and taken in both, the neighbour with the last index is looked at
  -- without effect, and the neighbour with the index 1 is read from an array of one element,
  -- behind its end. The random numbers are assumed to be in range.
  pub crossover-single : (c : ℕ) (g : R.Rng) → IsInRange R → ReadsBehind c g
  unfolding consider_neighbours consider crossover
  crossover-single c g range =
      let first : (R.generate 0 g).0 ≡ 0 = omega (arith, range 0 g) in
      let here : get_elem? (c ∷ []) (R.generate 0 g).0 ≡ some c = ap (get_elem? (c ∷ [])) first in
      record {
        start = here;
        both_taken = taken c (R.generate 0 g).1;
        last = refl;
        behind = refl;
        no_next = refl;
        any_rounds = no_loop c (R.generate 0 g).1;
        no_child = rw here (rw (no_loop c (R.generate 0 g).1 0) refl);
      }
