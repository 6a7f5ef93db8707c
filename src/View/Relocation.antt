-- ===== src/View/Relocation.antt =====
-- `TSPView::OnRelocationDeliveryData`, step 4 (TSP/TspView.cpp): the best chromosome, turned so
-- that it begins at the depot, the city with the identifier 1.
pub mod Rotation
pub mod Copied
pub mod Depot
pub mod Legs
use tsp_simple.Base.{
  ℕ, zero, suc, ◌+◌, ◌-◌, Bool, true, false, Option, none, some, List, [], ◌∷◌, ◌++◌, ◌==◌,
  if◌then◌else◌, get_elem?, length, ltb,
}
use tsp_simple.City.{City, ChromosomeCopy, deref}
use tsp_simple.External.{Floats, Mysql, Engine}
use tsp_simple.View.{View, Action, ◌>>=◌, ◌>>◌, pure, get, modify, need, Outcome, outcome}
use tsp_simple.View.Load.{assign}

-- `_bestRelocation[nIndex] = _bestChromosome[i]` for `rounds` values of `i` and `nIndex`.
unfoldable pub copy_range : {A : Type 0} → ℕ → ℕ → ℕ → List A → List A → Option (List A)
copy_range zero i index from to = some to
copy_range (suc rounds) i index from to = elim (get_elem? from i) [
  | none ↦ none
  | some p ↦ elim (assign to index p) [
    | none ↦ none
    | some to' ↦ copy_range rounds (i + 1) (index + 1) from to'
  ]
]

-- The two loops that move the part in front of the index `first` behind the rest.
unfoldable pub rotate : {A : Type 0} → ℕ → List A → List A → Option (List A)
unfolding copy_range
rotate first from to = elim (copy_range (length from - first) first 0 from to) [
  | none ↦ none
  | some half ↦ copy_range first 0 (length from - first) from half
]

module _ {F : Floats} where
  -- The loop that looks for the depot from the index `i` on; 0 if there is none.
  unfoldable pub find_first : List (Option (City F)) → List ℕ → ℕ → Option ℕ
  unfolding deref
  find_first heap [] i = some 0
  find_first heap (p ∷ rest) i = elim (deref heap p) [
    | none ↦ none
    | some c ↦ let later = find_first heap rest (i + 1) in if c.id == 1 then some i else later
  ]

  abbrev pub copy_of : City F → ChromosomeCopy F
  copy_of c = record { id = c.id; details = c.details }

  -- The copies of the cities, in order.
  unfoldable pub copies : List (Option (City F)) → List ℕ → Option (List (ChromosomeCopy F))
  unfolding deref
  copies heap [] = some []
  copies heap (p ∷ rest) = elim (deref heap p) [
    | none ↦ none
    | some c ↦ elim (copies heap rest) [ none ↦ none | some cs ↦ some (copy_of c ∷ cs) ]
  ]

  -- `_bestRelocation`: from the depot to the end, then from the start to the depot.
  unfoldable pub relocate : List (Option (City F)) → List ℕ → Option (List ℕ)
  unfolding find_first rotate
  relocate heap best = elim (find_first heap best 0) [
    | none ↦ none
    | some first ↦ rotate first best best
  ]

module _ {F : Floats} {D : Mysql} {G : Engine F} where
  -- Step 4.
  unfoldable pub relocation_body : Action (View F D G) (Unit {0})
  unfolding relocate copies
  relocation_body = do
    v ← get
    route ← need (relocate v.cities.heap v.best_chromosome)
    modify (λ w. record w { best_relocation = route })
    added ← need (copies v.cities.heap route)
    modify (λ w. record w { best_chromosome_copy = w.best_chromosome_copy ++ added })

  unfoldable pub on_relocation_delivery_data : View F D G → Outcome × View F D G
  unfolding relocation_body
  on_relocation_delivery_data v = let (r, w) = relocation_body v in (outcome r, w)
