-- ===== src/City/Removal.antt =====
-- `TspCities::RemoveCity` and `TspCities::Clear`.
use tsp_simple.Base.{
  ℕ, ◌+◌, ◌≡◌, ◌≢◌, refl, ◌∙◌, true, false, Option, none, some, List, [], ◌∷◌, ◌++◌, ◌==◌, arith,
  elem, inl, inr, Bool-cases, Option-cases, IsDistinct, length-append, ==_iff,
}
use tsp_simple.External.{Floats}
use tsp_simple.City.Heap.{deref_bounds, delete_lem}
use tsp_simple.City.Lookup.{ids, pointers, Backed, IsValid, find_entry-erase_entry}
use tsp_simple.City.{
  City, Cities, Entries, null, find_entry, erase_entry, deref, subscript, remove_city,
  get_city_by_id, get_count,
}

pointer_of_find : (id p : ℕ) (m : Entries) → find_entry id m ≡ some p → elem p (pointers m) ≡ true
unfolding find_entry elem
pointer_of_find id p [] e = cc
pointer_of_find id p ((i, q) ∷ m) e = ground (arith, pointer_of_find id p m)

ids-erase_entry :
    (x id : ℕ) (m : Entries) → elem x (ids m) ≡ false → elem x (ids (erase_entry id m)) ≡ false
unfolding erase_entry elem
ids-erase_entry x id [] h = refl
ids-erase_entry x id ((i, q) ∷ m) h = ground (arith, ids-erase_entry x id m)

pointers-erase_entry :
    (x id : ℕ) (m : Entries)
    → elem x (pointers m) ≡ false
    → elem x (pointers (erase_entry id m)) ≡ false
unfolding erase_entry elem
pointers-erase_entry x id [] h = refl
pointers-erase_entry x id ((i, q) ∷ m) h = ground (arith, pointers-erase_entry x id m)

-- The pointer of the erased entry is gone.
erased_pointer :
    (id p : ℕ) (m : Entries)
    → IsDistinct (ids m)
    → IsDistinct (pointers m)
    → find_entry id m ≡ some p
    → elem p (pointers (erase_entry id m)) ≡ false
unfolding erase_entry find_entry elem
erased_pointer id p [] d u e = cc
erased_pointer id p ((i, q) ∷ m) d u e = elim (Bool-cases (i == id)) [
  | inl same ↦ rw same (pointers-erase_entry p id m (ground arith))
  | inr other ↦ ground (arith, pointer_of_find id p m, erased_pointer id p m d.1 u.1)
]

IsDistinct-ids_erased :
    (id : ℕ) (m : Entries) → IsDistinct (ids m) → IsDistinct (ids (erase_entry id m))
unfolding erase_entry
IsDistinct-ids_erased id [] d = d
IsDistinct-ids_erased id ((i, q) ∷ m) d = elim (Bool-cases (i == id)) [
  | inl same ↦ rw same (IsDistinct-ids_erased id m d.1)
  | inr other ↦ rw other (ids-erase_entry i id m d.0, IsDistinct-ids_erased id m d.1)
]

IsDistinct-pointers_erased :
    (id : ℕ) (m : Entries) → IsDistinct (pointers m) → IsDistinct (pointers (erase_entry id m))
unfolding erase_entry
IsDistinct-pointers_erased id [] d = d
IsDistinct-pointers_erased id ((i, q) ∷ m) d = elim (Bool-cases (i == id)) [
  | inl same ↦ rw same (IsDistinct-pointers_erased id m d.1)
  | inr other ↦ rw other (pointers-erase_entry q id m d.0, IsDistinct-pointers_erased id m d.1)
]

module _ {F : Floats} (heap heap' : List (Option (City F))) (last p : ℕ)
    (others : (q : ℕ) → q ≢ p → deref heap' q ≡ deref heap q) where
  -- Entries that do not point to the freed cell stay backed.
  Backed-freed :
      (m : Entries) → Backed heap last m → elem p (pointers m) ≡ false → Backed heap' last m
  unfolding elem
  Backed-freed [] b h = tt
  Backed-freed ((i, q) ∷ m) b h =
      let (((c, at, same), bound), rest) = b in
      let away : q ≢ p = ground arith in
      (((c, others q away ∙ at, same), bound), Backed-freed m rest (ground arith))

Backed-erase_entry :
    {F : Floats} (heap : List (Option (City F))) (last id : ℕ) (m : Entries)
    → Backed heap last m
    → Backed heap last (erase_entry id m)
unfolding erase_entry
Backed-erase_entry heap last id [] b = tt
Backed-erase_entry heap last id ((i, q) ∷ m) b = elim (Bool-cases (i == id)) [
  | inl same ↦ rw same (Backed-erase_entry heap last id m b.1)
  | inr other ↦ rw other (b.0, Backed-erase_entry heap last id m b.1)
]

pub Backed-find :
    {F : Floats} (heap : List (Option (City F))) (last id p : ℕ) (m : Entries)
    → Backed heap last m
    → find_entry id m ≡ some p
    → (c : City F) × (deref heap p ≡ some c)
unfolding find_entry
Backed-find heap last id p [] b e = cc
Backed-find heap last id p ((i, q) ∷ m) b e = elim (Bool-cases (i == id)) [
  | inl same ↦ let here : q ≡ p = ground arith in (b.0.0.0, rw here at b.0.0.1)
  | inr other ↦ Backed-find heap last id p m b.1 (rw other at e)
]

Backed-last :
    {F : Floats} (heap : List (Option (City F))) (last id p : ℕ) (m : Entries)
    → Backed heap last (m ++ (id, p) ∷ [])
    → (c : City F) × (deref heap p ≡ some c)
Backed-last heap last id p [] b = (b.0.0.0, b.0.0.1)
Backed-last heap last id p ((i, q) ∷ m) b = Backed-last heap last id p m b.1

subscript_found :
    {F : Floats} (id p : ℕ) (s : Cities F)
    → find_entry id s.entries ≡ some p
    → subscript id s ≡ (p, s)
unfolding subscript
subscript_found id p s e = rw (e, subscript)

subscript_missing :
    {F : Floats} (id : ℕ) (s : Cities F)
    → find_entry id s.entries ≡ none
    → subscript id s ≡ (null, record s { entries = s.entries ++ (id, null) ∷ [] })
unfolding subscript
subscript_missing id s e = rw (e, subscript)

module _ {F : Floats} (id : ℕ) (s : Cities F) (v : IsValid s) where
  pub find_of_get : (p : ℕ) → get_city_by_id id s ≡ p → p ≢ null → find_entry id s.entries ≡ some p
  unfolding get_city_by_id
  find_of_get p e ne = ground arith

  find_none_of_get : get_city_by_id id s ≡ null → find_entry id s.entries ≡ none
  unfolding get_city_by_id
  find_none_of_get e = elim (Option-cases (find_entry id s.entries)) [
    | inl absent ↦ absent
    | inr (p, here) ↦
        let (c, at) = Backed-find s.heap s.next_id id p s.entries v.backed here in
        absurd (ground (arith, deref_bounds s.heap p at))
  ]

  -- `RemoveCity` of an identifier that is in use answers true, frees that city and no other,
  -- keeps the store valid, and the identifier leads nowhere any more while all others lead where
  -- they led before. The next identifier is kept.
  pub remove_city_lem :
      (p : ℕ)
      → get_city_by_id id s ≡ p
      → p ≢ null
      → (t : Cities F) × (remove_city id s ≡ some (true, t))
        × IsValid t
        × (deref t.heap p ≡ none)
        × (get_city_by_id id t ≡ null)
        × ((j : ℕ) → j ≢ id → get_city_by_id j t ≡ get_city_by_id j s)
        × ((q : ℕ) → q ≢ p → deref t.heap q ≡ deref s.heap q)
        × (t.next_id ≡ s.next_id)
  unfolding remove_city get_city_by_id
  remove_city_lem p e ne =
      let here = find_of_get p e ne in
      let (c, at) = Backed-find s.heap s.next_id id p s.entries v.backed here in
      let (heap, done, freed, others) = delete_lem s.heap p at in
      let nonnull : (p == null) ≡ false = ground arith in
      let rest = erase_entry id s.entries in
      let t : Cities F = record s { heap = heap; entries = rest } in
      let kept = Backed-erase_entry s.heap s.next_id id s.entries v.backed in
      let gone = erased_pointer id p s.entries v.distinct_ids v.distinct_pointers here in
      (
        t,
        rw (subscript_found id p s here) (rw (nonnull, done)),
        record {
          backed = Backed-freed s.heap heap s.next_id p others rest kept gone;
          distinct_ids = IsDistinct-ids_erased id s.entries v.distinct_ids;
          distinct_pointers = IsDistinct-pointers_erased id s.entries v.distinct_pointers;
        },
        freed,
        rw (get_city_by_id, find_entry-erase_entry id id s.entries) (rw ((==_iff id id).1 refl)),
        λ j other. rw (get_city_by_id, find_entry-erase_entry j id s.entries) (ground arith),
        others,
        refl,
      )

  -- `RemoveCity` of an identifier that is not in use answers false, and yet adds an entry with a
  -- null pointer: the count grows by one and the store is no longer valid.
  pub remove_city-missing :
      get_city_by_id id s ≡ null
      → (t : Cities F) × (remove_city id s ≡ some (false, t))
        × (get_count t ≡ get_count s + 1)
        × (¬ IsValid t)
  unfolding remove_city
  remove_city-missing e =
      let absent = find_none_of_get e in
      let t : Cities F = record s { entries = s.entries ++ (id, null) ∷ [] } in
      (
        t,
        rw (subscript_missing id s absent),
        omega (arith, length-append s.entries ((id, null) ∷ [])),
        λ w.
            let (c, at) = Backed-last s.heap s.next_id id null s.entries w.backed in
            absurd (omega (arith, deref_bounds s.heap null at)),
      )
