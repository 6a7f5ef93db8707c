-- ===== src/City/Contract.antt =====
-- What the calls of the store `TspCities` (TSP/TspCity.cpp) promise of the map from identifiers to
-- cities that it stands for.
use tsp_simple.Base.{ℕ, ◌+◌, ◌≡◌, Option, none, some, List, [], ◌∷◌, ◌==◌, if◌then◌else◌, ◌>>=◌}
use tsp_simple.City.{City, Cities, Entries, Details, add_city_ext, remove_city, clear}
use tsp_simple.City.Lookup.{IsValid}
use tsp_simple.City.Stock.{city_at}
use tsp_simple.External.{Floats}

-- The calls that change the store.
pub data Call (F : Floats) : Type 0 where
  add : ℕ → Details F → Call F
  remove : ℕ → Call F
  clear_all : Call F

-- The map that the store stands for, and the last identifier that was given out.
pub record Table (F : Floats) : Type 0 where
  pub last : ℕ
  pub city : ℕ → Option (City F)

module _ {F : Floats} where
  abbrev pub without : ℕ → Table F → Table F
  without id a = record a { city = λ j. if j == id then none else a.city j }

  -- What the calls promise. Only an identifier in use may be removed.
  unfoldable pub promise : Call F → Table F → Option (Table F)
  promise (add origin d) a =
      let id = a.last + 1 in
      some (record {
        last = id;
        city = λ j.
            if j == id
            then some (record { id = id; origin_id = origin; details = d })
            else a.city j;
      })
  promise (remove id) a = elim (a.city id) [ none ↦ none | some c ↦ some (without id a) ]
  promise clear_all a = some (record a { city = λ j. none })

  unfoldable pub promise_all : List (Call F) → Table F → Option (Table F)
  unfolding promise
  promise_all [] a = some a
  promise_all (call ∷ calls) a = promise call a >>= promise_all calls

  -- The store stands for the table.
  pub record StandsFor (s : Cities F) (a : Table F) : Type 0 where
    pub valid : IsValid s
    pub last : s.next_id ≡ a.last
    pub city : (j : ℕ) → city_at s j ≡ a.city j

module _ {F : Floats} (order : Entries → Entries) where
  -- The calls, as the code runs them.
  unfoldable pub perform : Call F → Cities F → Option (Cities F)
  unfolding add_city_ext remove_city clear
  perform (add origin d) s = some (add_city_ext origin d s)
  perform (remove id) s = remove_city id s >>= λ (found, t). some t
  perform clear_all s = clear order s

  unfoldable pub perform_all : List (Call F) → Cities F → Option (Cities F)
  unfolding perform
  perform_all [] s = some s
  perform_all (call ∷ calls) s = perform call s >>= perform_all calls
