-- ===== src/City/Refinement.antt =====
-- The store `TspCities` (TSP/TspCity.cpp) as a finite map from identifiers to cities.
use tsp_simple.Base.{
  ℕ, ◌+◌, ◌≡◌, ◌≢◌, refl, sym, ap, ◌∙◌, ◌⊎◌, none, some, List, [], ◌∷◌, ◌==◌, arith, inl, inr,
  Bool-cases, Option-cases, ==_iff, length, bind-some,
}
use tsp_simple.City.{
  City, Cities, Entries, Details, null, find_entry, deref, add_city_ext, get_city_by_id, get_count,
}
use tsp_simple.City.Heap.{deref-append}
use tsp_simple.City.Lookup.{IsValid, add_city_ext_lem}
use tsp_simple.City.Removal.{Backed-find, find_of_get, remove_city_lem}
use tsp_simple.City.Stock.{city_at}
use tsp_simple.City.Walk.{IsOrder, clear_lem}
use tsp_simple.External.{Floats}
use tsp_simple.City.Contract.{
  Call, add, remove, clear_all, Table, without, promise, promise_all, StandsFor, perform,
  perform_all,
}

module _ {F : Floats} where
  -- An identifier leads to an allocated city or nowhere.
  city_at-cases :
      (s : Cities F) (j : ℕ)
      → IsValid s
      → (get_city_by_id j s ≡ null)
        ⊎ ((get_city_by_id j s ≢ null)
            × ((c : City F) × (deref s.heap (get_city_by_id j s) ≡ some c)))
  city_at-cases s j v = elim (Bool-cases (get_city_by_id j s == null)) [
    | inl nowhere ↦ inl ((==_iff _ null).0 nowhere)
    | inr other ↦
        let somewhere : get_city_by_id j s ≢ null = λ e. cc (other, (==_iff _ null).1 e) in
        inr (
          somewhere,
          Backed-find s.heap s.next_id j _ s.entries v.backed (find_of_get j s v _ refl somewhere),
        )
  ]

  city_at-kept :
      (s t : Cities F) (j : ℕ)
      → IsValid s
      → get_city_by_id j t ≡ get_city_by_id j s
      → ((c : City F)
          → get_city_by_id j s ≢ null
          → deref s.heap (get_city_by_id j s) ≡ some c
          → deref t.heap (get_city_by_id j s) ≡ some c)
      → city_at t j ≡ city_at s j
  unfolding city_at deref
  city_at-kept s t j v same keep = elim (city_at-cases s j v) [
    | inl nowhere ↦ ap (deref t.heap) (same ∙ nowhere) ∙ sym (ap (deref s.heap) nowhere)
    | inr (somewhere, (c, at)) ↦ ap (deref t.heap) same ∙ keep c somewhere at ∙ sym at
  ]

  add-StandsFor :
      (origin : ℕ) (d : Details F) (s : Cities F) (a : Table F)
      → StandsFor s a
      → (b : Table F) × (promise (add origin d) a ≡ some b) × StandsFor (add_city_ext origin d s) b
  unfolding promise city_at add_city_ext
  add-StandsFor origin d s a r =
      let (valid, new, others, count) = add_city_ext_lem origin d s r.valid in
      let t = add_city_ext origin d s in
      let kept = λ (j : ℕ) (other : j ≢ s.next_id + 1).
        city_at-kept s t j r.valid (others j other)
          (λ c _ at. deref-append s.heap (get_city_by_id j s) _ at) in
      (
        _,
        refl,
        record {
          valid = valid;
          last = ap (λ n. n + 1) r.last;
          city = λ j. elim (Bool-cases (j == a.last + 1)) [
            | inl here ↦
                let is : j ≡ s.next_id + 1 =
                  omega (arith, (==_iff j (a.last + 1)).0 here, r.last) in
                rw here (
                  ap (city_at t) is
                  ∙ new
                  ∙ ap (λ n. some (record { id = n + 1; origin_id = origin; details = d })) r.last)
            | inr other ↦
                let away : j ≢ s.next_id + 1 =
                  λ e. cc (other, (==_iff j (a.last + 1)).1 (e ∙ ap (λ n. n + 1) r.last)) in
                rw other (kept j away ∙ r.city j)
          ];
        },
      )

  remove-StandsFor :
      (order : Entries → Entries) (id : ℕ) (s : Cities F) (a b : Table F)
      → StandsFor s a
      → promise (remove id) a ≡ some b
      → (t : Cities F) × (perform order (remove id) s ≡ some t) × StandsFor t b
  unfolding promise perform city_at deref
  remove-StandsFor order id s a b r e = elim (Option-cases (a.city id)) [
    | inl absent ↦ let e' = rw (absent, promise) at e in cc
    | inr (c, present) ↦ elim (city_at-cases s id r.valid) [
      | inl nowhere ↦
          let none_there : city_at s id ≡ none = ap (deref s.heap) nowhere in
          cc (none_there, r.city id, present)
      | inr (somewhere, (c', at)) ↦
          let (t, removed, valid, freed, gone, others, heap, last) =
            remove_city_lem id s r.valid (get_city_by_id id s) refl somewhere in
          let is : without id a ≡ b = let e' = rw (present, promise) at e in cc in
          let elsewhere : (j : ℕ)
              → j ≢ id
              → get_city_by_id j s ≢ null
              → get_city_by_id j s ≢ get_city_by_id id s =
            λ j away here same. elim (city_at-cases t j valid) [
              | inl lost ↦ here (sym (others j away) ∙ lost)
              | inr (_, (f, found)) ↦
                  let freed' : deref t.heap (get_city_by_id j t) ≡ none =
                    ap (deref t.heap) (others j away ∙ same) ∙ freed in
                  cc
            ] in
          (
            t,
            rw removed refl,
            rw (sym is) (record {
              valid = valid;
              last = last ∙ r.last;
              city = λ j. elim (Bool-cases (j == id)) [
                | inl here ↦
                    rw here (ap (city_at t) ((==_iff j id).0 here) ∙ ap (deref t.heap) gone)
                | inr other ↦
                    let away : j ≢ id = λ same. cc (other, (==_iff j id).1 same) in
                    rw other (
                      city_at-kept s t j r.valid (others j away)
                        (λ f here found. heap (get_city_by_id j s) (elsewhere j away here) ∙ found)
                      ∙ r.city j)
              ];
            }),
          )
    ]
  ]

  city_at-empty : (t : Cities F) (j : ℕ) → get_count t ≡ 0 → city_at t j ≡ none
  unfolding city_at get_city_by_id find_entry deref
  city_at-empty t j empty = go t.entries refl
    where
      go : (m : Entries) → t.entries ≡ m → city_at t j ≡ none
      go [] e = ap (λ l. city_at (record t { entries = l }) j) e
      go (x ∷ m) e = absurd (omega (arith, ap length e))

  clear-StandsFor :
      (order : Entries → Entries) (s : Cities F) (a : Table F)
      → IsOrder order
      → StandsFor s a
      → (t : Cities F) × (perform order clear_all s ≡ some t)
        × StandsFor t (record a { city = λ j. none })
  unfolding perform city_at
  clear-StandsFor order s a arranged r =
      let (t, cleared, valid, empty, freed, last) = clear_lem order arranged s r.valid in
      (
        t,
        cleared,
        record { valid = valid; last = last ∙ r.last; city = λ j. city_at-empty t j empty },
      )

  perform-StandsFor :
      (order : Entries → Entries) (call : Call F) (s : Cities F) (a b : Table F)
      → IsOrder order
      → StandsFor s a
      → promise call a ≡ some b
      → (t : Cities F) × (perform order call s ≡ some t) × StandsFor t b
  unfolding promise perform
  perform-StandsFor order (add origin d) s a b arranged r e =
      let (c, so, stands) = add-StandsFor origin d s a r in
      let same : c ≡ b = cc in (add_city_ext origin d s, refl, rw same at stands)
  perform-StandsFor order (remove id) s a b arranged r e = remove-StandsFor order id s a b r e
  perform-StandsFor order clear_all s a b arranged r e =
      let (t, run, stands) = clear-StandsFor order s a arranged r in
      let same : record a { city = λ j. none } ≡ b = cc in (t, run, rw same at stands)

  -- The store implements the map: when it stands for a table and a sequence of calls of
  -- `AddCityExt`, `RemoveCity` and `Clear` is one that the map allows, which is that only identifiers
  -- in use are removed, then the code performs the calls without undefined behaviour, and the store
  -- stands for the table that the calls promise, in whatever order the hash map is visited.
  pub perform_all-StandsFor :
      (order : Entries → Entries) (calls : List (Call F)) (s : Cities F) (a b : Table F)
      → IsOrder order
      → StandsFor s a
      → promise_all calls a ≡ some b
      → (t : Cities F) × (perform_all order calls s ≡ some t) × StandsFor t b
  unfolding promise_all perform_all
  perform_all-StandsFor order [] s a b arranged r e =
      let same : a ≡ b = cc in (s, refl, rw same at r)
  perform_all-StandsFor order (call ∷ calls) s a b arranged r e =
      let (a', one, rest) = bind-some (promise call a) (promise_all calls) e in
      let (s', ran, r') = perform-StandsFor order call s a a' arranged r one in
      let (t, all, r'') = perform_all-StandsFor order calls s' a' b arranged r' rest in
      (t, rw ran all, r'')
