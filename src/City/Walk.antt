-- ===== src/City/Walk.antt =====
-- `TspCities::GetCities` and `TspCities::Clear`, in whatever order the hash map is visited.
use mathlib.Core.List.Perm
use tsp_simple.Base.{
  ℕ, ◌≡◌, ◌≢◌, refl, ap, ◌∙◌, true, false, Option, none, some, List, [], ◌∷◌, ◌==◌, length,
  length-map, arith, elem, elem-perm, length-perm, inl, inr, Bool-cases, IsDistinct,
  Nodup-IsDistinct, IsDistinct-Nodup, Perm,
}
use tsp_simple.External.{Floats}
use tsp_simple.City.Heap.{deref_bounds, delete_lem}
use tsp_simple.City.Lookup.{pointers, Backed, IsValid}
use tsp_simple.City.{City, Cities, Entries, null, deref, delete_all, clear, get_cities, get_count}

-- A walk over the hash map visits every entry once.
abbrev pub IsOrder : (Entries → Entries) → Type 0
IsOrder order = (m : Entries) → Perm (order m) m

-- Every one of the pointers leads to a city.
abbrev pub Allocated : {F : Floats} → List (Option (City F)) → List ℕ → Type 0
Allocated {F} heap ps = (p : ℕ) → elem p ps ≡ true → (c : City F) × (deref heap p ≡ some c)

pub Backed-Allocated :
    {F : Floats} (heap : List (Option (City F))) (last : ℕ) (m : Entries)
    → Backed heap last m
    → Allocated heap (pointers m)
unfolding elem
Backed-Allocated heap last [] b p h = cc
Backed-Allocated heap last ((i, q) ∷ m) b p h = elim (Bool-cases (q == p)) [
  | inl same ↦ let here : q ≡ p = ground arith in (b.0.0.0, rw here at b.0.0.1)
  | inr other ↦ Backed-Allocated heap last m b.1 p (ground arith)
]

delete_all_lem :
    {F : Floats} (heap : List (Option (City F))) (m : Entries)
    → IsDistinct (pointers m)
    → Allocated heap (pointers m)
    → (heap' : List (Option (City F))) × (delete_all heap m ≡ some heap')
      × ((p : ℕ) → elem p (pointers m) ≡ true → deref heap' p ≡ none)
      × ((q : ℕ) → elem q (pointers m) ≡ false → deref heap' q ≡ deref heap q)
unfolding delete_all elem
delete_all_lem heap [] d all = (heap, refl, λ p h. cc, λ q h. refl)
delete_all_lem heap ((i, p) ∷ m) d all =
    let (c, at) = all p (ground arith) in
    let (heap1, done, freed, others) = delete_lem heap p at in
    let (heap2, run, all_freed, all_others) = delete_all_lem heap1 m d.1 (λ q h.
      let (e, at') = all q (ground arith) in
      let away : q ≢ p = λ same. cc (ap (λ t. elem t (pointers m)) same, d.0) in
      (e, others q away ∙ at')) in
    (
      heap2,
      rw done run,
      λ q h. ground (arith, all_freed q, all_others q),
      λ q h. ground (arith, all_others q, others q),
    )

module _ {F : Floats} (order : Entries → Entries) (arranged : IsOrder order) (s : Cities F)
    (v : IsValid s) where
  pointers_of_walk : Perm (pointers (order s.entries)) (pointers s.entries)
  pointers_of_walk = Perm.map (λ (i, p). p) (arranged s.entries)

  -- `GetCities` lists the cities of a valid store, each once and none NULL, and as many as
  -- `GetCount` says, in whatever order the hash map is visited.
  pub get_cities_lem :
      let cities = get_cities order s in
      Perm cities (pointers s.entries)
      × IsDistinct cities
      × (elem null cities ≡ false)
      × (length cities ≡ get_count s)
      × Allocated s.heap cities
  unfolding get_cities
  get_cities_lem =
      let kept = pointers_of_walk in
      let here = Backed-Allocated s.heap s.next_id s.entries v.backed in
      let back : Allocated s.heap (get_cities order s) =
        λ p h. here p (elem-perm p _ (pointers s.entries) kept h) in
      (
        kept,
        Nodup-IsDistinct _ (Perm.nodup (Perm.symm kept) (IsDistinct-Nodup _ v.distinct_pointers)),
        elim (Bool-cases (elem null (pointers (order s.entries)))) [
          | inr absent ↦ absent
          | inl isin ↦
              let (c, at) = back null isin in absurd (omega (arith, deref_bounds s.heap null at))
        ],
        length-map (order s.entries) (λ (i, p). p) ∙ length-perm _ _ (arranged s.entries),
        back,
      )

  -- `Clear` of a valid store frees every city of it, each once, and leaves it empty and valid. The next
  -- identifier is kept.
  pub clear_lem :
      (t : Cities F) × (clear order s ≡ some t)
      × IsValid t
      × (get_count t ≡ 0)
      × ((p : ℕ) → elem p (pointers s.entries) ≡ true → deref t.heap p ≡ none)
      × (t.next_id ≡ s.next_id)
  unfolding clear
  clear_lem =
      let kept = pointers_of_walk in
      let here = Backed-Allocated s.heap s.next_id s.entries v.backed in
      let (heap, run, freed, others) =
        delete_all_lem s.heap (order s.entries)
          (Nodup-IsDistinct _
            (Perm.nodup (Perm.symm kept) (IsDistinct-Nodup _ v.distinct_pointers)))
          (λ p h. here p (elem-perm p _ (pointers s.entries) kept h)) in
      (
        record s { heap = heap; entries = [] },
        rw run,
        record { backed = tt; distinct_ids = tt; distinct_pointers = tt },
        refl,
        λ p h. freed p (elem-perm p (pointers s.entries) _ (Perm.symm kept) h),
        refl,
      )
