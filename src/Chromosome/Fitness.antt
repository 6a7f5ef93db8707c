-- ===== src/Chromosome/Fitness.antt =====
-- What `TspFitness` adds up: the legs of the closed tour through the cities in reverse order.
use mathlib.Core.List.{reverse, reverse-append}
use mathlib.Core.Path.{fun_ext}
use tsp_simple.Base.{
  ℕ, zero, suc, ◌-◌, ◌≤◌, ◌≡◌, refl, ap, sym, ◌∙◌, Option, some, List, [], ◌∷◌, ◌++◌, length,
  get_elem?, take, arith, get_elem?-of_lt, ◌>>=◌, ◌==◌, if◌then◌else◌,
}
use tsp_simple.External.{Floats}
use tsp_simple.Chromosome.{fitness_below, fitness}

-- The legs of a path that ends with the way to `home`.
abbrev pub legs_to : ℕ → List ℕ → List (ℕ × ℕ)
legs_to home [] = []
legs_to home (p ∷ []) = (p, home) ∷ []
legs_to home (p ∷ q ∷ rest) = (p, q) ∷ legs_to home (q ∷ rest)

-- The legs of the closed tour: from each city to the next, and from the last to the first.
abbrev pub tour_legs : List ℕ → List (ℕ × ℕ)
tour_legs [] = []
tour_legs (p ∷ rest) = legs_to p (p ∷ rest)

module _ (F : Floats) (distance : ℕ → ℕ → Option F.Float) where
  -- The distances of the legs, added from left to right.
  pub total : F.Float → List (ℕ × ℕ) → Option F.Float
  total acc [] = some acc
  total acc ((p, q) ∷ legs) = distance p q >>= λ d. total (F.add acc d) legs

  take-suc :
      (v : List ℕ) (i : ℕ) {x : ℕ} → get_elem? v i ≡ some x → take (suc i) v ≡ take i v ++ x ∷ []
  take-suc [] i e = cc
  take-suc (y ∷ v) zero e = cc
  take-suc (y ∷ v) (suc i) e = ap (λ l. y ∷ l) (take-suc v i e)

  reverse-take-suc :
      (v : List ℕ) (i : ℕ) {x : ℕ}
      → get_elem? v i ≡ some x
      → reverse (take (suc i) v) ≡ x ∷ reverse (take i v)
  reverse-take-suc v i {x} e = ap reverse (take-suc v i e) ∙ reverse-append (take i v) (x ∷ [])

  fitness_below-step :
      (i : ℕ) (v : List ℕ) (acc : F.Float) {p q : ℕ}
      → get_elem? v i ≡ some p
      → get_elem? v (if i == 0 then length v - 1 else i - 1) ≡ some q
      → fitness_below F distance (suc i) v acc
        ≡ (distance p q >>= λ d. fitness_below F distance i v (F.add acc d))
  unfolding fitness_below
  fitness_below-step i v acc at previous = rw (at, previous)

  fitness_below-legs :
      (i : ℕ) (v : List ℕ) (acc : F.Float) (last : ℕ)
      → i ≤ length v
      → get_elem? v (length v - 1) ≡ some last
      → fitness_below F distance i v acc ≡ total acc (legs_to last (reverse (take i v)))
  unfolding fitness_below total
  fitness_below-legs zero v acc last le e = refl
  fitness_below-legs (suc zero) v acc last le e =
      let (p, at) = get_elem?-of_lt v 0 le in rw (at, e, reverse-take-suc v 0 at)
  fitness_below-legs (suc (suc k)) v acc last le e =
      let (p, at) = get_elem?-of_lt v (suc k) le in
      let (q, before) = get_elem?-of_lt v k (omega arith) in
      let index : (if suc k == 0 then length v - 1 else suc k - 1) ≡ k = ground arith in
      let previous : get_elem? v (if suc k == 0 then length v - 1 else suc k - 1) ≡ some q =
        rw index before in
      let shorter = reverse-take-suc v k before in
      let longer : reverse (take (suc (suc k)) v) ≡ p ∷ q ∷ reverse (take k v) =
        reverse-take-suc v (suc k) at ∙ ap (λ l. p ∷ l) shorter in
      fitness_below-step (suc k) v acc at previous
      ∙ ap (λ f. distance p q >>= f)
          (fun_ext λ d.
            fitness_below-legs (suc k) v (F.add acc d) last (omega arith) e
            ∙ ap (λ l. total (F.add acc d) (legs_to last l)) shorter)
      ∙ sym (ap (λ l. total acc (legs_to last l)) longer)

  take_all : (v : List ℕ) → take (length v) v ≡ v
  take_all [] = refl
  take_all (x ∷ v) = ap (λ l. x ∷ l) (take_all v)

  tour_legs-eq :
      (v : List ℕ) {last : ℕ} (rest : List ℕ)
      → reverse v ≡ last ∷ rest
      → legs_to last (reverse v) ≡ tour_legs (reverse v)
  tour_legs-eq v {last} rest e = rw e

  -- The fitness of a chromosome is the length of the closed tour through its cities in reverse
  -- order: the legs lead from each city to the one before it, and from the first to the last. They
  -- are added from left to right, and the fitness is undefined just when one of them is.
  pub fitness-tour :
      (v : List ℕ) → fitness F distance v ≡ total F.zero_float (tour_legs (reverse v))
  unfolding fitness total fitness_below
  fitness-tour [] = refl
  fitness-tour (x ∷ v) =
      let w = x ∷ v in
      let (last, at) = get_elem?-of_lt w (length v) (omega arith) in
      let index : length w - 1 ≡ length v = omega arith in
      let whole : reverse w ≡ last ∷ reverse (take (length v) w) =
        ap reverse (sym (take_all w)) ∙ reverse-take-suc w (length v) at in
      fitness_below-legs (length w) w F.zero_float last (omega arith) (rw index at)
      ∙ ap (λ l. total F.zero_float (legs_to last (reverse l))) (take_all w)
      ∙ ap (total F.zero_float) (tour_legs-eq w _ whole)
