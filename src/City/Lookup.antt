-- ===== src/City/Lookup.antt =====
-- How `TspCities` keeps its cities: the invariant of the store, and what the operations do to it.
use tsp_simple.Base.{
  ℕ, suc, ◌+◌, ◌≤◌, ◌<◌, ◌≡◌, ◌≢◌, refl, ap, false, Option, none, some, List, [], ◌∷◌, ◌++◌, map,
  ◌==◌, if◌then◌else◌, length, arith, elem, ==_iff, length-append, IsDistinct, IsDistinct-snoc,
}
use tsp_simple.External.{Floats}
use tsp_simple.City.Heap.{deref_bounds, deref-append, deref-append_self}
use tsp_simple.City.{
  City, Details, Cities, Entries, find_entry, erase_entry, deref, add_city_ext, get_city_by_id,
  get_count,
}

abbrev pub ids : Entries → List ℕ
ids m = map (λ (i, p). i) m

abbrev pub pointers : Entries → List ℕ
pointers m = map (λ (i, p). p) m

-- Every entry points to an allocated city that has the entry's identifier, at most `last`.
abbrev pub Backed : {F : Floats} → List (Option (City F)) → ℕ → Entries → Type 0
Backed heap last [] = Unit {0}
Backed {F} heap last ((i, p) ∷ m) =
    (((c : City F) × (deref heap p ≡ some c) × (c.id ≡ i)) × (i ≤ last)) × Backed heap last m

module _ {F : Floats} (heap : List (Option (City F))) where
  Backed-append :
      (last last' : ℕ) (m : Entries) (more : List (Option (City F)))
      → last ≤ last'
      → Backed heap last m
      → Backed (heap ++ more) last' m
  Backed-append last last' [] more le b = tt
  Backed-append last last' ((i, p) ∷ m) more le b =
      let (((c, at, same), bound), rest) = b in
      (
        ((c, deref-append heap p more at, same), omega arith),
        Backed-append last last' m more le rest,
      )

  Backed-snoc :
      (last : ℕ) (m : Entries) (i p : ℕ) (c : City F)
      → Backed heap last m
      → deref heap p ≡ some c
      → c.id ≡ i
      → i ≤ last
      → Backed heap last (m ++ (i, p) ∷ [])
  Backed-snoc last [] i p c b at same le = (((c, at, same), le), tt)
  Backed-snoc last ((j, q) ∷ m) i p c b at same le = (b.0, Backed-snoc last m i p c b.1 at same le)

  pub fresh_id :
      (last id : ℕ) (m : Entries) → Backed heap last m → last < id → elem id (ids m) ≡ false
  unfolding elem
  fresh_id last id [] b h = refl
  fresh_id last id ((i, p) ∷ m) b h =
      let le : i ≤ last = b.0.1 in ground (arith, fresh_id last id m b.1 h)

  fresh_pointer :
      (last p : ℕ) (m : Entries)
      → Backed heap last m
      → length heap < p
      → elem p (pointers m) ≡ false
  unfolding elem
  fresh_pointer last p [] b h = refl
  fresh_pointer last p ((i, q) ∷ m) b h =
      let bound = deref_bounds heap q b.0.0.1 in ground (arith, fresh_pointer last p m b.1 h)

pub find_entry-absent : (id : ℕ) (m : Entries) → elem id (ids m) ≡ false → find_entry id m ≡ none
unfolding find_entry elem
find_entry-absent id [] h = refl
find_entry-absent id ((i, p) ∷ m) h = ground (arith, find_entry-absent id m)

pub find_entry-snoc :
    (id j p : ℕ) (m : Entries)
    → elem j (ids m) ≡ false
    → find_entry id (m ++ (j, p) ∷ []) ≡ (if j == id then some p else find_entry id m)
unfolding find_entry elem
find_entry-snoc id j p [] h = refl
find_entry-snoc id j p ((i, q) ∷ m) h = ground (arith, find_entry-snoc id j p m)

pub find_entry-erase_entry :
    (id j : ℕ) (m : Entries)
    → find_entry id (erase_entry j m) ≡ (if j == id then none else find_entry id m)
unfolding find_entry erase_entry
find_entry-erase_entry id j [] = ground arith
find_entry-erase_entry id j ((i, q) ∷ m) = ground (arith, find_entry-erase_entry id j m)

ids-snoc : (m : Entries) (i p : ℕ) → ids (m ++ (i, p) ∷ []) ≡ ids m ++ i ∷ []
ids-snoc [] i p = refl
ids-snoc ((j, q) ∷ m) i p = ap (λ l. j ∷ l) (ids-snoc m i p)

pub pointers-snoc : (m : Entries) (i p : ℕ) → pointers (m ++ (i, p) ∷ []) ≡ pointers m ++ p ∷ []
pointers-snoc [] i p = refl
pointers-snoc ((j, q) ∷ m) i p = ap (λ l. q ∷ l) (pointers-snoc m i p)

-- The invariant of the store.
pub record IsValid {F : Floats} (s : Cities F) : Type 0 where
  pub backed : Backed s.heap s.next_id s.entries
  pub distinct_ids : IsDistinct (ids s.entries)
  pub distinct_pointers : IsDistinct (pointers s.entries)

module _ {F : Floats} (origin : ℕ) (d : Details F) (s : Cities F) (v : IsValid s) where
  -- `AddCityExt` keeps the store valid, and gives the new city the next identifier: it is found
  -- under it with its data and its origin, every other identifier leads where it led before, and
  -- the count grows by one.
  pub add_city_ext_lem :
      let t = add_city_ext origin d s in
      let id = s.next_id + 1 in
      IsValid t
      × (deref t.heap (get_city_by_id id t)
          ≡ some (record { id = id; origin_id = origin; details = d }))
      × ((j : ℕ) → j ≢ id → get_city_by_id j t ≡ get_city_by_id j s)
      × (get_count t ≡ get_count s + 1)
  unfolding add_city_ext get_city_by_id
  add_city_ext_lem =
      let id = s.next_id + 1 in
      let p = suc (length s.heap) in
      let c : City F = record { id = id; origin_id = origin; details = d } in
      let heap = s.heap ++ some c ∷ [] in
      let at : deref heap p ≡ some c = deref-append_self s.heap c in
      let absent = fresh_id s.heap s.next_id id s.entries v.backed (omega arith) in
      let unused = fresh_pointer s.heap s.next_id p s.entries v.backed (omega arith) in
      let older =
        Backed-append s.heap s.next_id id s.entries (some c ∷ []) (omega arith) v.backed in
      rw (find_entry-absent id s.entries absent) (
        record {
          backed = Backed-snoc heap id s.entries id p c older at refl (omega arith);
          distinct_ids =
              rw (ids-snoc s.entries id p)
                (IsDistinct-snoc (ids s.entries) id v.distinct_ids absent);
          distinct_pointers =
              rw (pointers-snoc s.entries id p)
                (IsDistinct-snoc (pointers s.entries) p v.distinct_pointers unused);
        },
        rw (find_entry-snoc id id p s.entries absent) (rw ((==_iff id id).1 refl) at),
        λ j ne. rw (find_entry-snoc j id p s.entries absent) (ground arith),
        omega (arith, length-append s.entries ((id, p) ∷ [])),
      )
