-- ===== src/Chromosome/Population.antt =====
-- The chromosomes of a search: those that `MakeNewFromPrototype` makes, and those that
-- `TspCrossover` and the mutation of the genetic-algorithm library make from them.
use mathlib.Core.List.Perm
use tsp_simple.Base.{
  ℕ, zero, suc, ◌-◌, ◌≤◌, ◌≡◌, refl, sym, ◌∙◌, arith, ap, ◌==◌, if◌then◌else◌, get_elem?-of_lt,
  elem-of_get, true, false, Option, some, List, Perm, elem, elem-perm, IsDistinct, IsDistinct-Nodup,
  Nodup-IsDistinct, length, length-perm, Bool-cases, inl, inr,
}
use tsp_simple.City.{
  null, Cities, Entries, VectorMutualData, get_cities, get_count, pointer_distance,
}
use tsp_simple.City.Lookup.{IsValid, pointers}
use tsp_simple.City.Walk.{IsOrder, get_cities_lem}
use tsp_simple.External.{Floats, Random, IsInRange}
use tsp_simple.Chromosome.{make_new_from_prototype, crossover, fitness_below, fitness}
use tsp_simple.Chromosome.Shuffle.{make_new_from_prototype-perm}
use tsp_simple.Chromosome.Candidates.{IsParents}
use tsp_simple.Chromosome.Crossover.{crossover-perm}

module _ (R : Random) (F : Floats) (distance : ℕ → ℕ → Option F.Float) where
  -- A chromosome that the search can come to. A mutation exchanges genes.
  pub data Bred (cities : List ℕ) : List ℕ → Type 0 where
    made :
        {c : List ℕ} (g g' : R.Rng)
        → make_new_from_prototype R cities g ≡ some (c, g')
        → Bred cities c
    crossed :
        {p1 p2 c : List ℕ} (g g' : R.Rng)
        → Bred cities p1
        → Bred cities p2
        → crossover R F distance (length cities) p1 p2 g ≡ some (c, g')
        → Bred cities c
    mutated : {p c : List ℕ} → Bred cities p → Perm c p → Bred cities c

  -- Cities that are listed once, none NULL, with a distance between any two.
  pub record IsComplete (cities : List ℕ) : Type 0 where
    pub distinct : IsDistinct cities
    pub no_null : elem null cities ≡ false
    pub reachable :
        (a b : ℕ)
        → elem a cities ≡ true
        → elem b cities ≡ true
        → (d : F.Float) × (distance a b ≡ some d)

  IsDistinct-of_perm : {c cities : List ℕ} → Perm c cities → IsDistinct cities → IsDistinct c
  IsDistinct-of_perm p d = Nodup-IsDistinct _ (Perm.nodup (Perm.symm p) (IsDistinct-Nodup _ d))

  parents :
      (cities p1 p2 : List ℕ)
      → IsComplete cities
      → Perm p1 cities
      → Perm p2 cities
      → IsParents F distance (length cities) p1 p2
  parents cities p1 p2 ok a b = record {
    length_first = length-perm p1 cities a;
    length_second = length-perm p2 cities b;
    distinct_first = IsDistinct-of_perm a ok.distinct;
    distinct_second = IsDistinct-of_perm b ok.distinct;
    no_null = elim (Bool-cases (elem null p1)) [
      | inr absent ↦ absent
      | inl isin ↦ cc (elem-perm null p1 cities a isin, ok.no_null)
    ];
    to_second = λ c h. elem-perm c cities p2 (Perm.symm b) (elem-perm c p1 cities a h);
    to_first = λ c h. elem-perm c cities p1 (Perm.symm a) (elem-perm c p2 cities b h);
    reachable = λ x y h k. ok.reachable x y (elem-perm x p1 cities a h) (elem-perm y p1 cities a k);
  }

  same_result :
      {o : Option (List ℕ × R.Rng)} {c ys cities : List ℕ} {g h : R.Rng}
      → o ≡ some (ys, h)
      → o ≡ some (c, g)
      → Perm ys cities
      → Perm c cities
  same_result {o} {c} {ys} {cities} {g} {h} run e p =
      let first : o ≡ some (ys, h) = run in
      let second : o ≡ some (c, g) = e in let here : ys ≡ c = cc in rw (sym here) p

  Bred-perm :
      {cities c : List ℕ}
      → IsInRange R
      → IsComplete cities
      → 2 ≤ length cities
      → Bred cities c
      → Perm c cities
  Bred-perm range ok two (made g g' e) =
      let (ys, h, run, p) = make_new_from_prototype-perm R _ g range in same_result run e p
  Bred-perm range ok two (crossed g g' b1 b2 e) =
      let a = Bred-perm range ok two b1 in
      let b = Bred-perm range ok two b2 in
      let par = parents _ _ _ ok a b in
      let (child, h, run, p) = crossover-perm R F distance _ _ _ g range par two in
      same_result run e (Perm.trans p a)
  Bred-perm range ok two (mutated b p) = Perm.trans p (Bred-perm range ok two b)

  fitness_below_defined :
      (i : ℕ) (v : List ℕ) (acc : F.Float)
      → i ≤ length v
      → ((a b : ℕ) → elem a v ≡ true → elem b v ≡ true → (d : F.Float) × (distance a b ≡ some d))
      → (f : F.Float) × (fitness_below F distance i v acc ≡ some f)
  unfolding fitness_below
  fitness_below_defined zero v acc le all = (acc, refl)
  fitness_below_defined (suc i) v acc le all =
      let before = if i == 0 then length v - 1 else i - 1 in
      let (p, at) = get_elem?-of_lt v i le in
      let (q, at') = get_elem?-of_lt v before (ground arith) in
      let (d, known) = all p q (elem-of_get v i at) (elem-of_get v before at') in
      let (f, rest) = fitness_below_defined i v (F.add acc d) (omega arith) all in
      (f, rw (at, at', known) rest)

-- The chromosomes over a valid store whose cities all have a distance to each other.
module _ (R : Random) (F : Floats) (table : List (List VectorMutualData))
    (order : Entries → Entries) (s : Cities F) (range : IsInRange R) (arranged : IsOrder order)
    (v : IsValid s) (two : 2 ≤ get_count s)
    (known : (p q : ℕ)
      → elem p (pointers s.entries) ≡ true
      → elem q (pointers s.entries) ≡ true
      → (d : F.Float) × (pointer_distance table s.heap p q ≡ some d)) where
  complete : IsComplete R F (pointer_distance table s.heap) (get_cities order s)
  complete =
      let (kept, distinct, no_null, count, back) = get_cities_lem order arranged s v in
      record {
        distinct = distinct;
        no_null = no_null;
        reachable = λ a b h k. known a b (elem-perm a _ _ kept h) (elem-perm b _ _ kept k);
      }

  enough : 2 ≤ length (get_cities order s)
  enough =
      let (kept, distinct, no_null, count, back) = get_cities_lem order arranged s v in omega arith

  -- Every chromosome that the search can come to visits each city of the store exactly once, and
  -- has a fitness: for a valid store of at least two cities between which all distances are known,
  -- random numbers within their range, and walks over the hash map that visit each entry once.
  pub Bred-tour :
      (c : List ℕ)
      → Bred R F (pointer_distance table s.heap) (get_cities order s) c
      → Perm c (pointers s.entries)
        × ((f : F.Float) × (fitness F (pointer_distance table s.heap) c ≡ some f))
  unfolding fitness
  Bred-tour c b =
      let (kept, distinct, no_null, count, back) = get_cities_lem order arranged s v in
      let p = Bred-perm R F (pointer_distance table s.heap) range complete enough b in
      let tour = Perm.trans p kept in
      (
        tour,
        fitness_below_defined R F (pointer_distance table s.heap) (length c) c F.zero_float
            (omega arith) (λ x y h k. known x y (elem-perm x c _ tour h) (elem-perm y c _ tour k)),
      )

  -- The crossover of two chromosomes that the search can come to always ends, without leaving an
  -- array, and makes another one: for a valid store of at least two cities between which all
  -- distances are known, random numbers within their range, and walks over the hash map that visit
  -- each entry once.
  pub Bred-crossover :
      (p1 p2 : List ℕ) (g : R.Rng)
      → Bred R F (pointer_distance table s.heap) (get_cities order s) p1
      → Bred R F (pointer_distance table s.heap) (get_cities order s) p2
      → (c : List ℕ) × (g' : R.Rng) × (crossover R F
            (pointer_distance table s.heap)
            (get_count s)
            p1
            p2
            g
          ≡ some (c, g'))
        × Bred R F (pointer_distance table s.heap) (get_cities order s) c
  Bred-crossover p1 p2 g b1 b2 =
      let D = pointer_distance table s.heap in
      let (kept, distinct, no_null, count, back) = get_cities_lem order arranged s v in
      let a = Bred-perm R F D range complete enough b1 in
      let b = Bred-perm R F D range complete enough b2 in
      let (c, g', run, p) =
        crossover-perm R F D _ p1 p2 g range (parents R F D _ p1 p2 complete a b) enough in
      (c, g', ap (λ n. crossover R F D n p1 p2 g) (sym count) ∙ run, crossed g g' b1 b2 run)
