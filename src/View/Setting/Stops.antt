-- ===== src/View/Setting/Stops.antt =====
-- The copies (TSP/TspCity.h) of the cities that step 2 makes: one stop for each order.
use mathlib.Core.List.{filter_map, append-nil, append_assoc}
use tsp_simple.Base.{
  ℕ, suc, ◌+◌, ◌≡◌, refl, sym, ap, ◌∙◌, Option, some, List, [], ◌∷◌, ◌++◌, map, length, arith,
}
use tsp_simple.City.{
  City, Cities, ChromosomeCopy, Details, VectorOrderData, Entries, add_city_ext, new_city,
  insert_entry,
}
use tsp_simple.City.Heap.{deref-append, deref-append_self}
use tsp_simple.City.Lookup.{
  IsValid, Backed, pointers, fresh_id, find_entry-absent, pointers-snoc, add_city_ext_lem,
}
use tsp_simple.City.Stock.{add_each}
use tsp_simple.External.{Floats}
use tsp_simple.View.Setting.{details_of_order}
use tsp_simple.View.Setting.Stocked.{item_of}
use tsp_simple.View.Relocation.{copy_of}
use tsp_simple.View.Relocation.Copied.{copy_at, copy_at-some, filter_map-cons}

module _ {F : Floats} where
  -- The stop of an order, under the identifier of its city.
  abbrev pub stop : ℕ → VectorOrderData → ChromosomeCopy F
  stop id o = record { id = id; details = details_of_order o }

  -- The stops of orders whose cities have the identifiers from `id` on.
  abbrev pub stops : ℕ → List VectorOrderData → List (ChromosomeCopy F)
  stops id [] = []
  stops id (o ∷ os) = stop id o ∷ stops (id + 1) os

  -- The copies of all cities of a store, in the order of its entries.
  abbrev pub copies_of : Cities F → List (ChromosomeCopy F)
  copies_of s = filter_map (copy_at s.heap) (pointers s.entries)

  copies-snoc :
      (heap : List (Option (City F))) (last : ℕ) (m : Entries) (c : City F)
      → Backed heap last m
      → filter_map (copy_at (heap ++ some c ∷ [])) (pointers m ++ suc (length heap) ∷ [])
        ≡ filter_map (copy_at heap) (pointers m) ++ copy_of c ∷ []
  unfolding filter_map
  copies-snoc heap last [] c b =
      filter_map-cons (copy_at (heap ++ some c ∷ [])) []
        (copy_at-some (heap ++ some c ∷ []) (suc (length heap)) (deref-append_self heap c))
  copies-snoc heap last ((i, p) ∷ m) c b =
      let (((d, at, same), bound), rest) = b in
      let grown = heap ++ some c ∷ [] in
      let now = copy_at-some grown p (deref-append heap p (some c ∷ []) at) in
      filter_map-cons (copy_at grown) (pointers m ++ suc (length heap) ∷ []) now
      ∙ ap (λ l. copy_of d ∷ l) (copies-snoc heap last m c rest)
      ∙ sym (
          ap (λ l. l ++ copy_of c ∷ [])
            (filter_map-cons (copy_at heap) (pointers m) (copy_at-some heap p at)))

  copies_of-add_city_ext :
      (origin : ℕ) (d : Details F) (s : Cities F)
      → IsValid s
      → copies_of (add_city_ext origin d s)
        ≡ copies_of s ++ record { id = s.next_id + 1; details = d } ∷ []
  unfolding add_city_ext new_city insert_entry
  copies_of-add_city_ext origin d s v =
      let id = s.next_id + 1 in
      let c : City F = record { id = id; origin_id = origin; details = d } in
      let absent = fresh_id s.heap s.next_id id s.entries v.backed (omega arith) in
      rw (find_entry-absent id s.entries absent) (
        ap (filter_map (copy_at (s.heap ++ some c ∷ [])))
          (pointers-snoc s.entries id (suc (length s.heap)))
        ∙ copies-snoc s.heap s.next_id s.entries c v.backed)

  -- The copies of cities that are added one after the other, from the identifier `id` on.
  abbrev pub numbered : ℕ → List (ℕ × Details F) → List (ChromosomeCopy F)
  numbered id [] = []
  numbered id ((origin, d) ∷ items) = record { id = id; details = d } ∷ numbered (id + 1) items

  pub copies_of-add_each :
      (items : List (ℕ × Details F)) (s : Cities F)
      → IsValid s
      → copies_of (add_each items s) ≡ copies_of s ++ numbered (s.next_id + 1) items
  unfolding add_each add_city_ext
  copies_of-add_each [] s v = sym (append-nil (copies_of s))
  copies_of-add_each ((origin, d) ∷ items) s v =
      copies_of-add_each items (add_city_ext origin d s) (add_city_ext_lem origin d s v).0
      ∙ ap (λ l. l ++ numbered (s.next_id + 1 + 1) items) (copies_of-add_city_ext origin d s v)
      ∙ append_assoc (copies_of s) (record { id = s.next_id + 1; details = d } ∷ []) _

  -- For orders these are their stops.
  pub numbered-stops :
      (id : ℕ) (os : List VectorOrderData) → numbered id (map item_of os) ≡ stops id os
  numbered-stops id [] = refl
  numbered-stops id (o ∷ os) = ap (λ l. stop id o ∷ l) (numbered-stops (id + 1) os)

  -- An empty store has no copies.
  pub copies_of-none : (s : Cities F) → length s.entries ≡ 0 → copies_of s ≡ []
  unfolding filter_map
  copies_of-none s none_left = no_copies s.entries none_left
    where
      no_copies : (m : Entries) → length m ≡ 0 → filter_map (copy_at s.heap) (pointers m) ≡ []
      no_copies [] e = refl
      no_copies (x ∷ m) e = absurd (omega arith)
