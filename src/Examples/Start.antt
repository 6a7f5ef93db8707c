-- ===== src/Examples/Start.antt =====
-- The start of the program (TSP/TSP.cpp) and the functions that nothing calls.
use tsp_simple.Base.{
  ℕ, ◌+◌, ◌*◌, ◌≤◌, ◌<◌, ◌≡◌, refl, none, some, inl, List, [], ◌∷◌, length, get_elem?, leb,
  if◌then◌else◌, arith,
}
use tsp_simple.City.Location.{
  Six, square, cell, location_initialize, location_values, location_initialize_lem,
}
use tsp_simple.Base.Int.{ℤ, pos}
use tsp_simple.Examples.Stubs.{whole, empty_server, two_sleeps, for_vehicles}
use tsp_simple.Program.Connection.{IsNotFalse, db_connect_test, db_connect_test-IsNotFalse}
use tsp_simple.Program.{t_function}
use tsp_simple.View.{new_view}
use tsp_simple.Examples.Completion.{for_vehicles-Fits}
use tsp_simple.Program.Main.{
  Configuration, configuration, main, crashed_before, thread, main-bad_argument, main-thread,
}
use tsp_simple.Text.{Text, WText, bytes, atoi}
use tsp_simple.Text.Conversion.{
  Iconv, IsWithin, units, until_nul, utf8_string_to_wstring, utf8_string_to_wstring-bounds,
}

-- An engine whatever the configuration is.
abbrev any_engine : Configuration whole → ℕ
any_engine c = 2

abbrev without_number : List Text
without_number = bytes "TSP" ∷ bytes "190101" ∷ bytes "0" ∷ bytes "0" ∷ bytes "0" ∷ bytes "1" ∷ []

main-bad_argument_example :
    main {D = empty_server} {G = two_sleeps} any_engine 3 0 1 without_number ≡ crashed_before
main-bad_argument_example =
    main-bad_argument {D = empty_server} {G = two_sleeps} any_engine 3 0 1 without_number 6
      (omega arith) (omega arith) (inl refl)

main-thread_example :
    main {D = empty_server} {G = two_sleeps} any_engine 3 0 1 (
      bytes "TSP" ∷ bytes "190101" ∷ bytes "0" ∷ bytes "0" ∷ bytes "0" ∷ bytes "1" ∷ bytes "2" ∷ [])
    ≡ thread
        (t_function 3 (new_view (for_vehicles 2) 0 (any_engine (configuration whole 100_000)) 1))
unfolding atoi
main-thread_example =
    main-thread {D = empty_server} {G = two_sleeps} any_engine 3 0 1 (for_vehicles 2) (bytes "TSP")
      (bytes "2") [] (for_vehicles-Fits 2) refl

db_connect_test-IsNotFalse_example : IsNotFalse (db_connect_test empty_server 1)
db_connect_test-IsNotFalse_example = db_connect_test-IsNotFalse empty_server 1

-- "UTF-16" of ASCII: a mark of the order of the bytes, and two bytes for each letter.
abbrev pairs : Text → Text
pairs [] = []
pairs (c ∷ t) = c ∷ 0 ∷ pairs t

abbrev utf16 : Iconv
utf16 room t = if leb (length (pairs t) + 2) room then some (255 ∷ 254 ∷ pairs t) else none

utf16-IsWithin : IsWithin utf16
utf16-IsWithin room t out e = ground arith

utf8_string_to_wstring-bounds_example :
    (w : WText) × (utf8_string_to_wstring utf16 (bytes "point") ≡ some w) × (length w ≤ 512)
utf8_string_to_wstring-bounds_example =
    utf8_string_to_wstring-bounds utf16 (bytes "point") utf16-IsWithin (omega arith)

-- The mark and the first letter share a unit.
two_letters : utf8_string_to_wstring utf16 (bytes "AB") ≡ some (4_325_119 ∷ 66 ∷ [])
unfolding utf8_string_to_wstring units until_nul
two_letters = refl

abbrev ones : Six ℤ
ones = (pos 1, pos 1, pos 1, pos 1, pos 1, pos 1)

location_initialize_lem_example :
    (u : List (List ℤ)) × (location_initialize whole (square (ones, ones, ones, ones, ones, ones))
      ≡ some u)
    × (length u ≡ 6)
    × ((i j : ℕ)
        → i < 6
        → j < 6
        → (n : ℕ) × (get_elem? location_values (i * 6 + j) ≡ some n)
          × (cell u i j ≡ some (pos n))
          × (cell u j i ≡ cell u i j))
    × ((i : ℕ) → i < 6 → cell u i i ≡ some (pos 0))
location_initialize_lem_example = location_initialize_lem whole (ones, ones, ones, ones, ones, ones)
