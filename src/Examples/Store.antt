-- ===== src/Examples/Store.antt =====
-- Runs of the operations of the store of cities (TSP/TspCity.cpp).
use tsp_simple.Base.{
  List, [], ◌∷◌, ℕ, ◌+◌, ◌≡◌, ◌≢◌, refl, true, false, some, none, Perm, elem, length, IsDistinct,
  arith,
}
use tsp_simple.City.{
  Cities, null, deref, add_city_ext, remove_city, clear, get_cities, get_count, get_city_by_id,
  find_entry, insert_entry, new_city,
}
use tsp_simple.City.Lookup.{IsValid, pointers, add_city_ext_lem}
use tsp_simple.City.Removal.{remove_city_lem, remove_city-missing}
use tsp_simple.City.Walk.{Allocated, get_cities_lem, clear_lem}
use tsp_simple.Text.{bytes}
use tsp_simple.City.Contract.{
  Call, add, remove, Table, StandsFor, promise, promise_all, perform_all,
}
use tsp_simple.City.Refinement.{perform_all-StandsFor}
use tsp_simple.City.Stock.{city_at}
use tsp_simple.Text.{bytes}
use tsp_simple.Examples.Stubs.{
  empty_store, empty_store-IsValid, visit, visit-Perm, whole, details_at, one_city,
  one_city-IsValid, two_cities, two_cities-IsValid,
}

add_city_ext_lem_example :
    IsValid two_cities
    × (deref two_cities.heap (get_city_by_id (one_city.next_id + 1) two_cities)
        ≡ some
            (record { id = one_city.next_id + 1; origin_id = 0; details = details_at (bytes "2") }))
    × ((j : ℕ) → j ≢ one_city.next_id + 1 → get_city_by_id j two_cities ≡ get_city_by_id j one_city)
    × (get_count two_cities ≡ get_count one_city + 1)
add_city_ext_lem_example = add_city_ext_lem 0 (details_at (bytes "2")) one_city one_city-IsValid

found_two : get_city_by_id 2 two_cities ≡ 2
unfolding get_city_by_id find_entry add_city_ext new_city insert_entry
found_two = refl

remove_city_lem_example :
    (t : Cities whole) × (remove_city 2 two_cities ≡ some (true, t))
    × IsValid t
    × (deref t.heap 2 ≡ none)
    × (get_city_by_id 2 t ≡ null)
    × ((j : ℕ) → j ≢ 2 → get_city_by_id j t ≡ get_city_by_id j two_cities)
    × ((q : ℕ) → q ≢ 2 → deref t.heap q ≡ deref two_cities.heap q)
    × (t.next_id ≡ two_cities.next_id)
remove_city_lem_example = remove_city_lem 2 two_cities two_cities-IsValid 2 found_two (omega arith)

missing_five : get_city_by_id 5 two_cities ≡ null
unfolding get_city_by_id find_entry add_city_ext new_city insert_entry
missing_five = refl

remove_city-missing_example :
    (t : Cities whole) × (remove_city 5 two_cities ≡ some (false, t))
    × (get_count t ≡ get_count two_cities + 1)
    × (¬ IsValid t)
remove_city-missing_example = remove_city-missing 5 two_cities two_cities-IsValid missing_five

get_cities_lem_example :
    Perm (get_cities visit two_cities) (pointers two_cities.entries)
    × IsDistinct (get_cities visit two_cities)
    × (elem null (get_cities visit two_cities) ≡ false)
    × (length (get_cities visit two_cities) ≡ get_count two_cities)
    × Allocated two_cities.heap (get_cities visit two_cities)
get_cities_lem_example = get_cities_lem visit visit-Perm two_cities two_cities-IsValid

clear_lem_example :
    (t : Cities whole) × (clear visit two_cities ≡ some t)
    × IsValid t
    × (get_count t ≡ 0)
    × ((p : ℕ) → elem p (pointers two_cities.entries) ≡ true → deref t.heap p ≡ none)
    × (t.next_id ≡ two_cities.next_id)
clear_lem_example = clear_lem visit visit-Perm two_cities two_cities-IsValid

-- Two cities come, and the first one goes.
abbrev three_calls : List (Call whole)
three_calls = add 0 (details_at (bytes "1")) ∷ add 0 (details_at (bytes "2")) ∷ remove 1 ∷ []

abbrev no_table : Table whole
no_table = record { last = 0; city = λ j. none }

empty_store-StandsFor : StandsFor empty_store no_table
unfolding city_at get_city_by_id find_entry deref
empty_store-StandsFor = record { valid = empty_store-IsValid; last = refl; city = λ j. refl }

abbrev one_left : Table whole
one_left = elim (promise_all three_calls no_table) [ some b ↦ b | none ↦ no_table ]

allowed : promise_all three_calls no_table ≡ some one_left
unfolding promise_all promise
allowed = refl

perform_all-StandsFor_example :
    (t : Cities whole) × (perform_all visit three_calls empty_store ≡ some t) × StandsFor t one_left
perform_all-StandsFor_example =
    perform_all-StandsFor visit three_calls empty_store no_table one_left visit-Perm
      empty_store-StandsFor allowed
