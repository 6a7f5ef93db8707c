-- ===== src/Examples/Steps.antt =====
-- Runs of the steps of `TSPView` (TSP/TspView.cpp) and of `t_function` (TSP/TSP.cpp).
use tsp_simple.Base.{
  ℕ, ◌≡◌, refl, true, some, List, [], ◌∷◌, ◌++◌, elem, length, arith, ◌⊎◌, inl, inr,
}
use tsp_simple.City.{VectorOrderData, City, deref, add_city_ext, new_city, insert_entry}
use tsp_simple.Text.{bytes}
use tsp_simple.View.{View, new_view, returned}
use tsp_simple.View.Insert.{target_of_copy}
use tsp_simple.View.Insert.Texts.{HasBytes, target_of_order, target-order}
use tsp_simple.View.Setting.{details_of_order, on_set_delivery_data}
use tsp_simple.View.Setting.Stocked.{IsStocked, on_set_delivery_data-IsStocked}
use tsp_simple.View.Search.{start_search, smart_init, observe, observe_all, on_search_delivery_data}
use tsp_simple.View.Search.Waiting.{
  IsFirstStop, waited, after_sleeps, notices_of, on_search_delivery_data_lem,
}
use tsp_simple.View.Relocation.{relocate, copy_of}
use tsp_simple.Chromosome.Fitness.{tour_legs}
use tsp_simple.View.Relocation.Legs.{closed, drives, count_leg, relocate-ClosedTour}
use tsp_simple.View.Relocation.Rotation.{IsDepot, relocate_lem}
use tsp_simple.Program.{
  load_step, set_step, search_step, relocation_step, insert_step, complete, error_code, t_function,
}
use tsp_simple.Program.Unreachable.{t_function-unreachable}
use tsp_simple.Examples.Stubs.{
  started, whole, empty_server, two_sleeps, empty_store-IsValid, order_at, two_cities,
}

abbrev view : ℕ → List VectorOrderData → View whole empty_server two_sleeps
view server orders = record (started 1 server) {
  count_order_data = length orders;
  vector_order_data = orders;
}

abbrev down_view : View whole empty_server two_sleeps
down_view = view 0 []

abbrev two_orders : View whole empty_server two_sleeps
two_orders = view 1 (order_at (bytes "3") ∷ order_at (bytes "4") ∷ [])

on_set_delivery_data-IsStocked_example :
    (w : View whole empty_server two_sleeps) × (on_set_delivery_data two_orders ≡ (returned 0, w))
    × IsStocked two_orders.vector_order_data two_orders.cities w.cities
    × (w.vector_mutual_data ≡ two_orders.vector_mutual_data)
unfolding new_view
on_set_delivery_data-IsStocked_example =
    on_set_delivery_data-IsStocked two_orders empty_store-IsValid refl

third_look : IsFirstStop two_sleeps 2 (start_search 70_000 down_view).engine
unfolding new_view IsFirstStop start_search smart_init
third_look = (refl, (refl, refl))

on_search_delivery_data_lem_example :
    on_search_delivery_data 3 down_view
    ≡ some (returned 0, waited 2 (start_search 70_000 down_view))
unfolding new_view
on_search_delivery_data_lem_example =
    on_search_delivery_data_lem 2 3 down_view (omega arith) third_look

nothing_announced : (waited 2 (start_search 70_000 down_view)).best_chromosome ≡ []
unfolding new_view waited notices_of after_sleeps start_search smart_init observe_all observe
nothing_announced = refl

t_function-unreachable_example :
    (w : View whole empty_server two_sleeps) × (t_function 3 down_view
      ≡ some (record {
        printed =
            error_code load_step 100
            ∷ complete set_step
            ∷ complete search_step
            ∷ complete relocation_step
            ∷ complete insert_step
            ∷ [];
        view = w;
      }))
unfolding new_view
t_function-unreachable_example =
    t_function-unreachable 2 3 down_view refl refl (omega arith) third_look nothing_announced

one_or_two : (p : ℕ) → elem p (2 ∷ 1 ∷ []) ≡ true → (p ≡ 1) ⊎ (p ≡ 2)
unfolding elem
one_or_two p h = ground arith

allocated :
    (p : ℕ) → elem p (2 ∷ 1 ∷ []) ≡ true → (c : City whole) × (deref two_cities.heap p ≡ some c)
unfolding deref add_city_ext new_city insert_entry
allocated p h = elim (one_or_two p h) [ inl a ↦ rw a (_, refl) | inr b ↦ rw b (_, refl) ]

relocate_lem_example :
    (p : List ℕ) × (s : List ℕ) × (2 ∷ 1 ∷ [] ≡ p ++ s)
    × (relocate two_cities.heap (2 ∷ 1 ∷ []) ≡ some (s ++ p))
    × (((q : ℕ) × (rest : List ℕ) × (s ++ p ≡ q ∷ rest) × IsDepot two_cities.heap q)
        ⊎ ((q : ℕ) → elem q (2 ∷ 1 ∷ []) ≡ true → ¬ IsDepot two_cities.heap q))
relocate_lem_example = relocate_lem two_cities.heap (2 ∷ 1 ∷ []) allocated

relocate-ClosedTour_example :
    (route : List ℕ) × (relocate two_cities.heap (2 ∷ 1 ∷ []) ≡ some route)
    × (closed route ≡ closed (2 ∷ 1 ∷ []))
    × ((l : ℕ × ℕ) → drives l (closed route) ≡ count_leg l (tour_legs (2 ∷ 1 ∷ [])))
relocate-ClosedTour_example = relocate-ClosedTour two_cities.heap (2 ∷ 1 ∷ []) allocated

order_three-HasBytes : HasBytes (order_at (bytes "3"))
order_three-HasBytes = record {
  accno = tt;
  guest_id = tt;
  guest_tel = tt;
  pay = tt;
  guest_juso_sub_id = tt;
  guest_lat = (omega arith, tt);
  guest_lon = (omega arith, tt);
  is_shop = tt;
  accno_duple_juso = tt;
}

target-order_example :
    target_of_copy (
      copy_of {F = whole}
        (record { id = 1; origin_id = 0; details = details_of_order (order_at (bytes "3")) }))
    ≡ target_of_order (order_at (bytes "3"))
target-order_example = target-order whole (order_at (bytes "3")) 1 0 order_three-HasBytes
