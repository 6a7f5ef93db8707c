-- ===== src/View/VehicleRelocation/Turned.antt =====
-- What step 7 makes of the routes of the vehicles.
use mathlib.Core.List.{append-nil}
use tsp_simple.Base.{
  ℕ, zero, suc, ◌+◌, ◌≤◌, ◌≡◌, ◌≢◌, refl, sym, ap, ◌∙◌, arith, ◌==◌, ==_iff, Bool-cases, inl, inr,
  ◌⊎◌, false, some, List, [], ◌∷◌, ◌++◌, length, get_elem?, length-append, get_elem?-of_lt,
}
use tsp_simple.Base.Int.{pos, pos_part}
use tsp_simple.City.{RouteEachResult}
use tsp_simple.External.{Floats, Mysql, Engine}
use tsp_simple.View.{View, Exit, outcome, done, returned, resize}
use tsp_simple.View.Load.{count_up}
use tsp_simple.View.Load.Vectors.{length-resize}
use tsp_simple.View.Relocation.{rotate}
use tsp_simple.View.Relocation.Rotation.{rotate_lem, get_elem?-middle, assign-middle, shift}
use tsp_simple.View.VehicleRelocation.{
  first_depot, no_result, relocate_vehicle_in, relocate_vehicle, on_relocation_vehicle_data,
}

module _ {F : Floats} where
  -- The second route is the first one, cut in two parts that change places, and it begins at the
  -- depot if the first one has a stop there.
  pub data IsTurned : List (RouteEachResult F) → List (RouteEachResult F) → Type 0 where
    at_depot :
        (p s : List (RouteEachResult F)) (r : RouteEachResult F)
        → r.id ≡ 1
        → IsTurned (p ++ r ∷ s) (r ∷ (s ++ p))
    no_depot :
        (route : List (RouteEachResult F))
        → ((i : ℕ) (r : RouteEachResult F) → get_elem? route i ≡ some r → r.id ≢ 1)
        → IsTurned route route

  none_at_cons :
      (x : RouteEachResult F) (route : List (RouteEachResult F))
      → ((j : ℕ) (r : RouteEachResult F) → get_elem? route j ≡ some r → r.id ≢ 1)
      → (x.id == 1) ≡ false
      → (j : ℕ) (r : RouteEachResult F) → get_elem? (x ∷ route) j ≡ some r
      → r.id ≢ 1
  none_at_cons x route none_at other zero r e one =
      let same : x ≡ r = cc e in
      let one' : x.id ≡ 1 = ap (λ (y : RouteEachResult F). y.id) same ∙ one in
      cc (other, (==_iff x.id 1).1 one')
  none_at_cons x route none_at other (suc j) r e one = none_at j r e one

  first_depot_lem :
      (route : List (RouteEachResult F)) (i : ℕ)
      → ((p : List (RouteEachResult F)) × (s : List (RouteEachResult F)) × (r : RouteEachResult F)
          × (route ≡ p ++ r ∷ s)
          × (first_depot route i ≡ i + length p)
          × (r.id ≡ 1))
        ⊎ ((first_depot route i ≡ 0)
            × ((j : ℕ) (r : RouteEachResult F) → get_elem? route j ≡ some r → r.id ≢ 1))
  unfolding first_depot
  first_depot_lem [] i = inr (refl, λ j r e. cc)
  first_depot_lem (x ∷ route) i = elim (Bool-cases (x.id == 1)) [
    | inl here ↦ inl ([], route, x, refl, rw here (omega arith), ground arith)
    | inr other ↦ elim (first_depot_lem route (i + 1)) [
      | inl (p, s, r, cut, at, one) ↦
          inl (x ∷ p, s, r, ap (λ l. x ∷ l) cut, rw other (omega arith), one)
      | inr (z, none_at) ↦ inr (rw other z, none_at_cons x route none_at other)
    ]
  ]

  rotate-IsTurned :
      (route to : List (RouteEachResult F))
      → length to ≡ length route
      → (turned : List (RouteEachResult F)) × (rotate (first_depot route 0) route to ≡ some turned)
        × IsTurned route turned
  rotate-IsTurned route to size = elim (first_depot_lem route 0) [
    | inl (p, s, r, cut, at, one) ↦
        let whole : length to ≡ length p + length (r ∷ s) =
          omega (arith, ap length cut, length-append p (r ∷ s)) in
        let turned = rotate_lem p (r ∷ s) to whole in
        let here : first_depot route 0 ≡ length p = omega arith in
        (r ∷ (s ++ p), rw (here, cut) turned, rw cut (at_depot p s r one))
    | inr (z, none_at) ↦ (
      route,
      rw z (rotate_lem [] route to (omega arith) ∙ ap some (append-nil route)),
      no_depot route none_at,
    )
  ]

  -- From the index `k` on, `routes` has what step 7 makes of the routes of `all`.
  abbrev AllTurned : List (List (RouteEachResult F)) → ℕ → List (List (RouteEachResult F)) → Type 0
  AllTurned all k routes =
      (j : ℕ) (route turned : List (RouteEachResult F))
      → get_elem? all (k + j) ≡ some route
      → get_elem? routes j ≡ some turned
      → IsTurned route turned

  AllTurned-cons :
      (all : List (List (RouteEachResult F))) (k m : ℕ) (route turned : List (RouteEachResult F))
      (rest : List (List (RouteEachResult F)))
      → get_elem? all k ≡ some route
      → IsTurned route turned
      → m ≡ k + 1
      → AllTurned all m rest
      → AllTurned all k (turned ∷ rest)
  AllTurned-cons all k m route turned rest at is next are zero r t e e' =
      let here : k + 0 ≡ k = omega arith in
      let same : route ≡ r = cc in let same' : turned ≡ t = cc in rw (same, same') at is
  AllTurned-cons all k m route turned rest at is next are (suc j) r t e e' =
      let there : k + suc j ≡ m + j = omega arith in are j r t (rw there at e) e'

module _ {F : Floats} {D : Mysql} {G : Engine F} where
  -- The view with one more turned route.
  abbrev with_routes : List (List (RouteEachResult F)) → View F D G → View F D G
  with_routes routes v = record v { best_route_each_relocation = routes }

  relocate_vehicle_lem :
      (v : View F D G) (route : List (RouteEachResult F))
      → get_elem? v.best_route_each_result (length v.best_route_each_relocation) ≡ some route
      → (turned : List (RouteEachResult F)) × (relocate_vehicle
            (length v.best_route_each_relocation)
            v
          ≡ (done tt, with_routes (v.best_route_each_relocation ++ turned ∷ []) v))
        × IsTurned route turned
  unfolding relocate_vehicle relocate_vehicle_in
  relocate_vehicle_lem v route at =
      let old = v.best_route_each_relocation in
      let (turned, ran, is) =
        rotate-IsTurned route (resize (length route) no_result []) (length-resize _ _ []) in
      (
        turned,
        rw (at, relocate_vehicle)
            (rw (get_elem?-middle old [] []) (rw ran (rw (assign-middle old [] turned [])))),
        is,
      )

  relocate_all :
      (rounds : ℕ) (v : View F D G)
      → length v.best_route_each_relocation + rounds ≤ length v.best_route_each_result
      → (routes : List (List (RouteEachResult F))) × (count_up rounds
            (length v.best_route_each_relocation)
            relocate_vehicle
            v
          ≡ (done tt, with_routes (v.best_route_each_relocation ++ routes) v))
        × (length routes ≡ rounds)
        × AllTurned v.best_route_each_result (length v.best_route_each_relocation) routes
  unfolding count_up
  relocate_all zero v enough =
      ([], rw (append-nil v.best_route_each_relocation), refl, λ j route turned e e'. cc)
  relocate_all (suc rounds) v enough =
      let old = v.best_route_each_relocation in
      let (route, at) = get_elem?-of_lt v.best_route_each_result (length old) (omega arith) in
      let (turned, ran, is) = relocate_vehicle_lem v route at in
      let longer = length-append old (turned ∷ []) in
      let (rest, runs, size, are) =
        relocate_all rounds (with_routes (old ++ turned ∷ []) v) (omega arith) in
      (
        turned ∷ rest,
        rw (ran, count_up)
            (rw (sym longer) (
              runs
              ∙ ap (λ (l : List (List (RouteEachResult F))). (done tt, with_routes l v))
                  (sym (shift old rest turned)))),
        omega arith,
        AllTurned-cons v.best_route_each_result (length old) _ route turned rest at is longer are,
      )

  -- Step 7 with a vector for each of the vehicles and none turned yet ends without undefined
  -- behaviour, returns 0 and changes nothing but the turned routes, of which there is one for each
  -- vehicle. Each of them is the route that was found for that vehicle, cut in two parts that have
  -- changed places: it begins with a stop with the identifier 1 if the route has one, and is the
  -- route itself otherwise.
  pub on_relocation_vehicle_data_lem :
      (v : View F D G) (n : ℕ)
      → v.parameters.vehicle_number ≡ pos n
      → n ≤ length v.best_route_each_result
      → v.best_route_each_relocation ≡ []
      → (routes : List (List (RouteEachResult F))) × (on_relocation_vehicle_data v
          ≡ (returned 0, record v { best_route_each_relocation = routes }))
        × (length routes ≡ n)
        × ((i : ℕ) (route turned : List (RouteEachResult F))
            → get_elem? v.best_route_each_result i ≡ some route
            → get_elem? routes i ≡ some turned
            → IsTurned route turned)
  unfolding on_relocation_vehicle_data
  on_relocation_vehicle_data_lem v n vehicles enough none_yet =
      let empty : length v.best_route_each_relocation ≡ 0 = ap length none_yet in
      let (routes, ran, size, are) = relocate_all n v (omega arith) in
      let all =
        ap (λ k. count_up (pos_part k) 0 relocate_vehicle v) vehicles
        ∙ ap (λ k. count_up n k relocate_vehicle v) (sym empty)
        ∙ ran
        ∙ ap (λ l. (done tt, with_routes (l ++ routes) v)) none_yet in
      (
        routes,
        ap (λ (p : Exit (Unit {0}) × View F D G). (outcome p.0, p.1)) all,
        size,
        λ i route turned e e'.
            are i route turned
              (let here : length v.best_route_each_relocation + i ≡ i = omega arith in rw here e)
              e',
      )
