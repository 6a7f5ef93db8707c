-- ===== src/View/Relocation/Copied.antt =====
-- Step 4 as a whole (TSP/TspView.cpp): the copies of the turned route behind those that are there.
use mathlib.Core.List.{filter_map, perm_append_comm}
use tsp_simple.Base.{
  ℕ, ◌≡◌, refl, true, Option, none, some, List, [], ◌∷◌, ◌++◌, elem, elem-perm, Perm, ◌⊎◌, arith,
}
use tsp_simple.City.{City, ChromosomeCopy, deref}
use tsp_simple.City.Walk.{Allocated}
use tsp_simple.External.{Floats, Mysql, Engine}
use tsp_simple.View.{View, returned}
use tsp_simple.View.Relocation.{copy_of, copies, relocation_body, on_relocation_delivery_data}
use tsp_simple.View.Relocation.Rotation.{IsDepot, relocate_lem}

pub filter_map-cons :
    {A B : Type 0} (f : A → Option B) {x : A} (xs : List A) {y : B}
    → f x ≡ some y
    → filter_map f (x ∷ xs) ≡ y ∷ filter_map f xs
unfolding filter_map
filter_map-cons f xs e = rw e refl

module _ {F : Floats} where
  -- The copy of the city behind a pointer.
  unfoldable pub copy_at : List (Option (City F)) → ℕ → Option (ChromosomeCopy F)
  copy_at heap p = elim (deref heap p) [ none ↦ none | some c ↦ some (copy_of c) ]

  pub copy_at-some :
      (heap : List (Option (City F))) (p : ℕ) {c : City F}
      → deref heap p ≡ some c
      → copy_at heap p ≡ some (copy_of c)
  unfolding copy_at
  copy_at-some heap p e = rw (e, copy_at) refl

  pub copies_lem :
      (heap : List (Option (City F))) (ps : List ℕ)
      → Allocated heap ps
      → copies heap ps ≡ some (filter_map (copy_at heap) ps)
  unfolding copies copy_at filter_map elem
  copies_lem heap [] all = refl
  copies_lem heap (p ∷ ps) all =
      let (c, at) = all p (ground arith) in
      let first = copy_at-some heap p at in
      rw (filter_map-cons (copy_at heap) ps first)
        (rw (at, copies) (rw (copies_lem heap ps (λ q h. all q (ground arith))) refl))

-- The parts of a list changed places.
pub turned-perm : {A : Type 0} (p s : List A) → Perm (s ++ p) (p ++ s)
turned-perm p s = perm_append_comm s p

module _ {F : Floats} {D : Mysql} {G : Engine F} where
  -- What step 4 has made of the view `v`.
  pub record IsRelocated (v w : View F D G) : Type 0 where
    pub route : List ℕ
    pub turned : (p : List ℕ) × (s : List ℕ) × (v.best_chromosome ≡ p ++ s) × (route ≡ s ++ p)
    pub depot :
        ((q : ℕ) × (rest : List ℕ) × (route ≡ q ∷ rest) × IsDepot v.cities.heap q)
        ⊎ ((q : ℕ) → elem q v.best_chromosome ≡ true → ¬ IsDepot v.cities.heap q)
    pub after : w ≡ record v {
      best_relocation = route;
      best_chromosome_copy = v.best_chromosome_copy ++ filter_map (copy_at v.cities.heap) route;
    }

  -- Step 4 returns 0 when the cities of the best chromosome are there: it stores the turned route,
  -- appends the copies of its cities in its order, and changes nothing else of the view.
  pub on_relocation_delivery_data-IsRelocated :
      (v : View F D G)
      → Allocated v.cities.heap v.best_chromosome
      → (w : View F D G) × (on_relocation_delivery_data v ≡ (returned 0, w)) × IsRelocated v w
  unfolding on_relocation_delivery_data relocation_body
  on_relocation_delivery_data-IsRelocated v all =
      let (p, s, cut, run, depot) = relocate_lem v.cities.heap v.best_chromosome all in
      let there =
        copies_lem v.cities.heap (s ++ p)
          (λ q h. all q (rw cut (elem-perm q (s ++ p) (p ++ s) (turned-perm p s) h))) in
      (
        _,
        rw (run, there) refl,
        record { route = s ++ p; turned = (p, s, cut, refl); depot = depot; after = refl },
      )
