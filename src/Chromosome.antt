-- ===== src/Chromosome.antt =====
-- TSP/TspAlgorithm.cpp: `TspChromosome`, `TspCrossover` and `TspFitness`. A chromosome is the list
-- of the pointers to its cities, 0 being NULL. Where the code reads or writes out of bounds the
-- result is `none`.
pub mod Marks
pub mod Shuffle
pub mod Candidates
pub mod Crossover
pub mod Fitness
pub mod Single
pub mod Population
use tsp_simple.Base.{
  ℕ, zero, suc, ◌+◌, ◌-◌, ◌%◌, Bool, true, false, Option, none, some, List, [], ◌∷◌, ◌++◌, ltb,
  ◌==◌, if◌then◌else◌, length, get_elem?, set, replicate, ◌>>=◌,
}
use tsp_simple.City.{null}
use tsp_simple.External.{Floats, Random}

-- `arr[ i ] = v` into an array of the list's length.
unfoldable pub store {ℓ} : {A : Type ℓ} → List A → ℕ → A → Option (List A)
store xs i v = if ltb i (length xs) then some (set xs i v) else none

-- The loop of `GetCityPosition` over `i - 1`, ..., 0. `none` is the result -1.
unfoldable pub position_below : ℕ → ℕ → List ℕ → Option ℕ
position_below zero city values = none
position_below (suc i) city values = elim (get_elem? values i) [
  | some v ↦ let rest = position_below i city values in if v == city then some i else rest
  | none ↦ none
]

unfoldable pub get_city_position : ℕ → List ℕ → Option ℕ
unfolding position_below
get_city_position city values = position_below (length values) city values

module _ (R : Random) where
  -- `values[ i ]` and `values[ p ]` change places.
  unfoldable pub swap_values : List ℕ → ℕ → ℕ → Option (List ℕ)
  unfolding store
  swap_values values i p = get_elem? values i >>= λ t.
      get_elem? values p >>= λ v. store values i v >>= λ values'. store values' p t

  -- The loop of `MakeNewFromPrototype` for `i - 1`, ..., 0.
  unfoldable pub shuffle_below : ℕ → List ℕ → R.Rng → Option (List ℕ × R.Rng)
  unfolding swap_values
  shuffle_below zero values g = some (values, g)
  shuffle_below (suc i) values g =
      let (p, g') = R.generate (length values - 1) g in
      swap_values values i p >>= λ values'. shuffle_below i values' g'

  -- `MakeNewFromPrototype`, from what `GetCities` gave.
  unfoldable pub make_new_from_prototype : List ℕ → R.Rng → Option (List ℕ × R.Rng)
  unfolding shuffle_below
  make_new_from_prototype cities g = shuffle_below (length cities) cities g

  -- The search for a city that is not yet taken, for `j - 1`, ..., 0.
  unfoldable pub find_free : ℕ → ℕ → ℕ → List Bool → List ℕ → Option ℕ
  find_free zero start n taken p1 = some null
  find_free (suc j) start n taken p1 =
      let p = (start + j) % n in
      get_elem? taken p >>= λ t. elim t [
        | true ↦ find_free j start n taken p1
        | false ↦ get_elem? p1 p
      ]

  -- What the `while( 1 )` loop changes.
  pub record Crossing : Type 0 where
    pub child : List ℕ
    pub taken_from_first : List Bool
    pub taken_from_second : List Bool
    pub rng : R.Rng

  module _ (F : Floats) (distance : ℕ → ℕ → Option F.Float) where
    -- `SelectNextCity`
    unfoldable pub select_next_city : ℕ → ℕ → ℕ → Option ℕ
    select_next_city previous best next =
        if best == null
        then some next
        else (distance previous best >>= λ a.
            distance previous next >>= λ b. some (if F.greater a b then next else best))

    -- `if( !taken[ k ] ) SelectNextCity( currentCity, &nextCity, c->GetAt( k ) )`
    unfoldable pub consider : ℕ → List Bool → List ℕ → ℕ → ℕ → Option ℕ
    unfolding select_next_city
    consider current taken c k best = get_elem? taken k >>= λ t.
        if t then some best else (get_elem? c k >>= select_next_city current best)

    -- The body of the loop over the two parents: the neighbours of the position `pos`.
    unfoldable pub consider_neighbours : ℕ → ℕ → List Bool → List ℕ → ℕ → ℕ → Option ℕ
    unfolding consider
    consider_neighbours n current taken c zero best =
        consider current taken c (n - 1) best >>= consider current taken c 1
    consider_neighbours n current taken c (suc pos) best =
        consider current taken c pos best
        >>= consider current taken c (if ltb (suc pos) (n - 1) then suc pos + 1 else 0)

    module _ (n : ℕ) (p1 p2 : List ℕ) where
      -- The first part of a round: the city enters the child and its two positions are taken.
      unfoldable pub take_city : ℕ → Crossing → Option (ℕ × ℕ × Crossing)
      unfolding get_city_position store
      take_city current s = get_city_position current p1 >>= λ f.
          get_city_position current p2 >>= λ g. store s.taken_from_first f true >>= λ taken1.
          store s.taken_from_second g true >>= λ taken2. some (
            f,
            g,
            record s {
              child = s.child ++ current ∷ [];
              taken_from_first = taken1;
              taken_from_second = taken2;
            },
          )

      -- The second part: the next city, NULL if none is left.
      unfoldable pub choose_next : ℕ → ℕ → ℕ → Crossing → Option (ℕ × Crossing)
      unfolding consider_neighbours find_free
      choose_next current f g s =
          consider_neighbours n current s.taken_from_second p2 g null >>= λ best.
          consider_neighbours n current s.taken_from_first p1 f best >>= λ next.
          if next == null
          then (let (start, rng) = R.generate (n - 1) s.rng in
              find_free n start n s.taken_from_first p1 >>= λ free.
              some (free, record s { rng = rng }))
          else some (next, s)

      unfoldable pub cross_round : ℕ → Crossing → Option (ℕ × Crossing)
      unfolding take_city choose_next
      cross_round current s = take_city current s >>= λ (f, g, s'). choose_next current f g s'

      -- `while( 1 )`, with fuel.
      unfoldable pub cross_loop : ℕ → ℕ → Crossing → Option Crossing
      unfolding cross_round
      cross_loop zero current s = none
      cross_loop (suc fuel) current s = cross_round current s >>= λ (next, s').
          let rest = cross_loop fuel next s' in if next == null then some s' else rest

    -- `TspCrossover::operator ()`, where `n` is `GetCount()`. Without a city, `Generate( -1 )`
    -- divides by zero. A round more than there are cities is never needed.
    unfoldable pub crossover : ℕ → List ℕ → List ℕ → R.Rng → Option (List ℕ × R.Rng)
    unfolding cross_loop
    crossover zero p1 p2 g = none
    crossover (suc m) p1 p2 g =
        let n = suc m in
        let (start, g') = R.generate m g in
        let s : Crossing = record {
          child = [];
          taken_from_first = replicate n false;
          taken_from_second = replicate n false;
          rng = g';
        } in
        get_elem? p1 start >>= λ current.
        cross_loop n p1 p2 n current s >>= λ end. some (end.child, end.rng)

module _ (F : Floats) (distance : ℕ → ℕ → Option F.Float) where
  -- The loop of `TspFitness::operator ()` for `i - 1`, ..., 0.
  unfoldable pub fitness_below : ℕ → List ℕ → F.Float → Option F.Float
  fitness_below zero v acc = some acc
  fitness_below (suc i) v acc = get_elem? v i >>= λ p.
      get_elem? v (if i == 0 then length v - 1 else i - 1) >>= λ q.
      distance p q >>= λ d. fitness_below i v (F.add acc d)

  unfoldable pub fitness : List ℕ → Option F.Float
  unfolding fitness_below
  fitness v = fitness_below (length v) v F.zero_float
