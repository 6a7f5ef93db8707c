-- ===== src/View/Calc/Recall.antt =====
-- Step 5 (TSP/TspView.cpp, `OnCalcDeliveryData`) with fewer stops than it needs.
use tsp_simple.Base.{
  ℕ, zero, suc, ◌+◌, ◌<◌, ◌≡◌, ◌≢◌, refl, sym, ap, ◌∙◌, true, false, Bool, Option, none, some, List,
  ◌⊎◌, inl, inr, length, get_elem?,
}
use tsp_simple.Base.Int.{ℤ, pos, negsuc, ◌+ℤ◌}
use tsp_simple.Text.{Text, atoi, is_empty}
use tsp_simple.External.{Floats, Mysql, Engine, Row}
use tsp_simple.City.{ChromosomeCopy}
use tsp_simple.View.{
  View, Parameters, Exit, done, leave, fault, Outcome, returned, crashed, ◌>>◌, modify, pure,
  column, fetch_row,
}
use tsp_simple.View.Load.{assign}
use tsp_simple.View.Runs.{
  Meets, Leads, Keeps, Leads-get, Leads-at, Leads-need, Leads-then, Leads-if, Leads-pure,
  query_text-Keeps, connect-Keeps,
}
use tsp_simple.View.Balance.{Balanced, balance, add_int, div_int, nine_tenths}
use tsp_simple.View.Balance.Stops.{add_int_lem}
use tsp_simple.View.Balance.Short.{balance-again, one_less}
use tsp_simple.View.Calc.{
  single_pay_format, shared_pay_format, all_pays_format, ask_single_pay, ask_shared_pay,
  single_pay_args, shared_pay_args, day_args, after_recall, after_body, ask_stop_pay, freed_column,
  store_pay, calc_stop, calc_stops, divide_route, calc_body, on_calc_delivery_data,
}

module _ {F : Floats} {D : Mysql} {G : Engine F} where
  -- There are at least two vehicles more than stops.
  pub record IsShort (v : View F D G) : Type 0 where
    pub vehicles : ℕ
    pub number : v.parameters.vehicle_number ≡ pos (suc vehicles)
    pub few : length v.best_chromosome_copy < vehicles

module _ {F : Floats} {D : Mysql} {G : Engine F} (stale : ℕ → View F D G → Option Text) where
  sent-IsShort :
      (v : View F D G) (e : D.Server) (sent : List (List ℕ))
      → IsShort v
      → IsShort (record v { server = e; statements = sent })
  sent-IsShort v e sent h = record { vehicles = h.vehicles; number = h.number; few = h.few }

  ask_single_pay-Keeps :
      (c : ChromosomeCopy F) (p : Parameters) → Keeps IsShort (ask_single_pay {D = D} {G = G} c p)
  unfolding ask_single_pay
  ask_single_pay-Keeps c p =
      query_text-Keeps sent-IsShort 500 1024 single_pay_format (single_pay_args c p)

  ask_shared_pay-Keeps :
      (c : ChromosomeCopy F) (p : Parameters) → Keeps IsShort (ask_shared_pay {D = D} {G = G} c p)
  unfolding ask_shared_pay
  ask_shared_pay-Keeps c p =
      query_text-Keeps sent-IsShort 500 1024 shared_pay_format (shared_pay_args c p)

  ask_stop_pay-Keeps :
      (c : ChromosomeCopy F) (p : Parameters) → Keeps IsShort (ask_stop_pay {D = D} {G = G} c p)
  unfolding ask_stop_pay
  ask_stop_pay-Keeps c p =
      Leads-if (is_empty c.details.accno_duple) (ask_single_pay-Keeps c p)
        (ask_shared_pay-Keeps c p)

  with_pays-Keeps :
      (pays : List ℤ)
      → Keeps IsShort (modify (λ (w : View F D G). record w { vehicle_pay_index = pays }))
  unfolding Meets
  with_pays-Keeps pays = record {
    run = λ w h. record { vehicles = h.vehicles; number = h.number; few = h.few };
  }

  store_pay-Keeps : (i : ℕ) (pay : ℤ) → Keeps IsShort (store_pay stale i pay)
  unfolding store_pay
  store_pay-Keeps i pay = Leads-get _ λ v h.
      Leads-at h (Leads-need (assign v.vehicle_pay_index i pay) _ λ pays _. with_pays-Keeps pays)

  calc_stop-Keeps :
      (row : Option Row) (i : ℕ) (total : ℤ) → Keeps IsShort (calc_stop stale row i total)
  unfolding calc_stop
  calc_stop-Keeps row i total = Leads-get _ λ v h. Leads-at h (
      Leads-need (get_elem? v.best_chromosome_copy i) _ λ stop _.
        Leads-then (ask_stop_pay-Keeps stop v.parameters) λ found.
          Leads-need (column (fetch_row found) 0) _ λ text _. Leads-need (atoi text) _ λ pay _.
            Leads-need (add_int total pay) _ λ total' _. Leads-get _ λ w h'. Leads-at h' (
              Leads-need (freed_column stale row i w) _ λ read _.
                Leads-need (atoi read) _
                  λ kept _. Leads-then (store_pay-Keeps i kept) λ _. Leads-pure total'))

  calc_stops-Keeps :
      (row : Option Row) (rounds i : ℕ) (total : ℤ)
      → Keeps IsShort (calc_stops stale row rounds i total)
  unfolding calc_stops
  calc_stops-Keeps row zero i total = Leads-pure total
  calc_stops-Keeps row (suc rounds) i total =
      Leads-then (calc_stop-Keeps row i total) λ total'. calc_stops-Keeps row rounds (i + 1) total'

  with_division-Leads :
      (b : Balanced)
      → b.recall ≡ true
      → Leads IsShort
          (do
            modify (λ (w : View F D G). record w { vehicle_flag = b.flags; vehicle_pay = b.pays })
            pure b.recall)
          (λ again w. (again ≡ true) × IsShort w)
  unfolding Meets
  with_division-Leads b more = record {
    run = λ w h. (more, record { vehicles = h.vehicles; number = h.number; few = h.few });
  }

  divide_route-Leads :
      (total : ℤ) → Leads IsShort (divide_route stale total) (λ again w. (again ≡ true) × IsShort w)
  unfolding divide_route
  divide_route-Leads total = Leads-get _ λ v h. Leads-at h (
      Leads-need (div_int total v.parameters.vehicle_number) _ λ average _.
        Leads-need (add_int v.parameters.vehicle_number (negsuc 0)) _ λ last fewer.
          Leads-need
            (balance last (length v.best_chromosome_copy) v.vehicle_pay_index 130
              (nine_tenths average) v.vehicle_flag v.vehicle_pay)
            _
            λ b balanced.
              let last_is =
                add_int_lem v.parameters.vehicle_number (negsuc 0) fewer
                ∙ ap (λ z. z +ℤ negsuc 0) h.number
                ∙ one_less h.vehicles in
              with_division-Leads b (
                balance-again h.vehicles _ v.vehicle_pay_index 130 (nine_tenths average)
                  v.vehicle_flag v.vehicle_pay b h.few (rw last_is at balanced)))

  calc_body-Leads : Leads IsShort (calc_body stale) (λ again w. (again ≡ true) × IsShort w)
  unfolding calc_body
  calc_body-Leads = Leads-then (connect-Keeps 500) λ _. Leads-get _ λ v h. Leads-at h (
      Leads-then (query_text-Keeps sent-IsShort 500 1024 all_pays_format (day_args v.parameters))
        λ sums.
          Leads-then (calc_stops-Keeps (fetch_row sums) (length v.best_chromosome_copy) 0 (pos 0))
            divide_route-Leads)

  -- The run that begins with `v` comes, by the calls of itself, to one that begins with `u`.
  pub data Recalls : View F D G → View F D G → Type 0 where
    first : {v : View F D G} → Recalls v v
    next : {v w u : View F D G} → calc_body stale v ≡ (done true, w) → Recalls w u → Recalls v u

  -- One of these runs leaves early.
  abbrev pub LeavesEarly : View F D G → Type 0
  LeavesEarly v = (u : View F D G) × (code : ℕ) × Recalls v u × ((calc_body stale u).0 ≡ leave code)

  fst-of : {A B : Type 0} {p q : A × B} → some p ≡ some q → q.0 ≡ p.0
  fst-of {A} {B} {p} e = ap (λ (o : Option (A × B)). elim o [ none ↦ p.0 | some r ↦ r.0 ]) (sym e)

  after_recall-cases :
      (r : Option (Outcome × View F D G)) {o : Outcome} {t : View F D G}
      → after_recall stale r ≡ some (o, t)
      → (o ≡ crashed) ⊎ ((o' : Outcome) × (t' : View F D G) × (r ≡ some (o', t')) × (o' ≢ crashed))
  after_recall-cases none e = cc
  after_recall-cases (some (returned code, t)) e = inr (returned code, t, refl, λ z. cc)
  after_recall-cases (some (crashed, t)) e = inl (fst-of e)

  after_body-endless :
      (call : View F D G → Option (Outcome × View F D G)) (v : View F D G) (r : Exit Bool)
      (w : View F D G) {o : Outcome} {t : View F D G}
      → ((u : View F D G) (o' : Outcome) (t' : View F D G)
          → IsShort u
          → call u ≡ some (o', t')
          → (o' ≡ crashed) ⊎ LeavesEarly u)
      → calc_body stale v ≡ (r, w)
      → Meets (λ again u. (again ≡ true) × IsShort u) (r, w)
      → after_body stale call (r, w) ≡ some (o, t)
      → (o ≡ crashed) ⊎ LeavesEarly v
  unfolding Meets
  after_body-endless call v fault w all so h e = inl (fst-of e)
  after_body-endless call v (leave code) w all so h e =
      inr (v, code, first, ap (λ (p : Exit Bool × View F D G). p.0) so)
  after_body-endless call v (done false) w all so h e = cc (h.0)
  after_body-endless call v (done true) w all so h e = elim (after_recall-cases (call w) e) [
    | inl crash ↦ inl crash
    | inr (o', t', called, fine) ↦ elim (all w o' t' h.1 called) [
      | inl crash ↦ absurd (fine crash)
      | inr (u, code, runs, early) ↦ inr (u, code, next so runs, early)
    ]
  ]

  -- With at least two vehicles more than stops, step 5 does not end well, however often it
  -- calls itself: if it has a result at all, there is undefined behaviour, or the run of the step or
  -- one of the runs that it calls leaves early with an error code.
  pub on_calc_delivery_data-endless :
      (fuel : ℕ) (v : View F D G) (o : Outcome) (w : View F D G)
      → IsShort v
      → on_calc_delivery_data stale fuel v ≡ some (o, w)
      → (o ≡ crashed) ⊎ LeavesEarly v
  unfolding on_calc_delivery_data
  on_calc_delivery_data-endless zero v o w h e = cc
  on_calc_delivery_data-endless (suc fuel) v o w h e =
      after_body-endless (λ u. on_calc_delivery_data stale fuel u) v (calc_body stale v).0
        (calc_body stale v).1 (on_calc_delivery_data-endless fuel) refl (calc_body-Leads.run v h) e
