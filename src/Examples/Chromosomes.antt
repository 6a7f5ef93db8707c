-- ===== src/Examples/Chromosomes.antt =====
-- Runs of the genetic operators (TSP/TspAlgorithm.cpp) on small chromosomes.
use mathlib.Core.List.{reverse}
use tsp_simple.Base.{
  ℕ, ◌≤◌, ◌≡◌, refl, ap, sym, ◌∙◌, true, Option, some, List, [], ◌∷◌, Perm, elem, get_elem?, arith,
  ◌⊎◌, inl, inr,
}
use tsp_simple.Base.Int.{ℤ}
use tsp_simple.City.{
  deref, city_distance, mutual_at, add_city_ext, new_city, insert_entry, pointer_distance,
  get_cities, get_count,
}
use tsp_simple.City.Lookup.{pointers}
use tsp_simple.Chromosome.{
  shuffle_below, swap_values, store, crossover, make_new_from_prototype, fitness, get_city_position,
}
use tsp_simple.Chromosome.Candidates.{IsParents}
use tsp_simple.Chromosome.Crossover.{crossover-perm}
use tsp_simple.Chromosome.Marks.{get_city_position_lem}
use tsp_simple.Chromosome.Fitness.{total, tour_legs, fitness-tour}
use tsp_simple.Chromosome.Single.{ReadsBehind, crossover-single}
use tsp_simple.Chromosome.Population.{Bred, made, Bred-tour, Bred-crossover}
use tsp_simple.Examples.Stubs.{
  visit, visit-Perm, whole, dice, dice-IsInRange, far, two_cities, two_cities-IsValid, table,
}

abbrev three : List ℕ
three = 1 ∷ 2 ∷ 3 ∷ []

abbrev turned : List ℕ
turned = 3 ∷ 1 ∷ 2 ∷ []

three-IsParents : IsParents whole far 3 three turned
unfolding elem
three-IsParents = record {
  length_first = refl;
  length_second = refl;
  distinct_first = (refl, (refl, (refl, tt)));
  distinct_second = (refl, (refl, (refl, tt)));
  no_null = refl;
  to_second = λ c h. ground arith;
  to_first = λ c h. ground arith;
  reachable = λ a b h k. (_, refl);
}

crossover-perm_example :
    (child : List ℕ) × (g' : ℕ) × (crossover dice whole far 3 three turned 5 ≡ some (child, g'))
    × Perm child three
crossover-perm_example =
    crossover-perm dice whole far 3 three turned 5 dice-IsInRange three-IsParents (omega arith)

get_city_position_lem_example :
    (i : ℕ) × (get_city_position 2 turned ≡ some i) × (get_elem? turned i ≡ some 2)
unfolding elem
get_city_position_lem_example = get_city_position_lem 2 turned refl

fitness-tour_example :
    fitness whole far turned ≡ total whole far whole.zero_float (tour_legs (reverse turned))
fitness-tour_example = fitness-tour whole far turned

crossover-single_example : ReadsBehind dice whole far 7 5
crossover-single_example = crossover-single dice whole far 7 5 dice-IsInRange

abbrev distance : ℕ → ℕ → Option ℤ
distance = pointer_distance {F = whole} table two_cities.heap

one_or_two : (p : ℕ) → elem p (1 ∷ 2 ∷ []) ≡ true → (p ≡ 1) ⊎ (p ≡ 2)
unfolding elem
one_or_two p h = ground arith

two_pointers : pointers two_cities.entries ≡ 1 ∷ 2 ∷ []
unfolding add_city_ext new_city insert_entry
two_pointers = refl

city_one_or_two : (p : ℕ) → elem p (pointers two_cities.entries) ≡ true → (p ≡ 1) ⊎ (p ≡ 2)
city_one_or_two p h = one_or_two p (ap (elem p) (sym two_pointers) ∙ h)

distance_known :
    (p q : ℕ)
    → elem p (pointers two_cities.entries) ≡ true
    → elem q (pointers two_cities.entries) ≡ true
    → (d : ℤ) × (pointer_distance {F = whole} table two_cities.heap p q ≡ some d)
unfolding pointer_distance city_distance mutual_at deref add_city_ext new_city insert_entry
distance_known p q h k = elim (city_one_or_two p h) [
  | inl a ↦ elim (city_one_or_two q k) [ inl b ↦ rw (a, b) (_, refl) | inr b ↦ rw (a, b) (_, refl) ]
  | inr a ↦ elim (city_one_or_two q k) [ inl b ↦ rw (a, b) (_, refl) | inr b ↦ rw (a, b) (_, refl) ]
]

bred : Bred dice whole distance (get_cities visit two_cities) (1 ∷ 2 ∷ [])
unfolding make_new_from_prototype shuffle_below swap_values store get_cities add_city_ext new_city
    insert_entry
bred = made 1 3 refl

two : 2 ≤ get_count two_cities
unfolding add_city_ext new_city insert_entry
two = omega arith

Bred-tour_example :
    Perm (1 ∷ 2 ∷ []) (pointers two_cities.entries)
    × ((f : ℤ) × (fitness whole distance (1 ∷ 2 ∷ []) ≡ some f))
Bred-tour_example =
    Bred-tour dice whole table visit two_cities dice-IsInRange visit-Perm two_cities-IsValid two
      distance_known (1 ∷ 2 ∷ []) bred

Bred-crossover_example :
    (c : List ℕ) × (g' : ℕ) × (crossover dice whole distance
        (get_count two_cities)
        (1 ∷ 2 ∷ [])
        (1 ∷ 2 ∷ [])
        4
      ≡ some (c, g'))
    × Bred dice whole distance (get_cities visit two_cities) c
Bred-crossover_example =
    Bred-crossover dice whole table visit two_cities dice-IsInRange visit-Perm two_cities-IsValid
      two distance_known (1 ∷ 2 ∷ []) (1 ∷ 2 ∷ []) 4 bred bred
