-- ===== src/View/Search/Waiting.antt =====
-- The wait of `OnSearchDeliveryData` (TSP/TspView.cpp) for the search in the other thread.
use tsp_simple.Base.{
  ℕ, zero, suc, ◌<◌, ◌≡◌, refl, sym, ap, ◌∙◌, true, false, some, List, [], ◌∷◌, ◌++◌, arith,
}
use tsp_simple.External.{Floats, Mysql, Engine, Notice, statistic_update, new_best_chromosome}
use tsp_simple.View.{View, returned}
use tsp_simple.View.Search.{
  is_criteria_stopped, observe, observe_all, start_search, sleep, wait_until_stopped,
  on_search_delivery_data,
}

module _ {F : Floats} (G : Engine F) where
  -- The engine's state after some sleeps.
  unfoldable pub after_sleeps : ℕ → G.State → G.State
  after_sleeps zero e = e
  after_sleeps (suc k) e = after_sleeps k (G.advance e).1

  -- The notices of these sleeps, in order.
  unfoldable pub notices_of : ℕ → G.State → List (Notice F)
  notices_of zero e = []
  notices_of (suc k) e = (G.advance e).0 ++ notices_of k (G.advance e).1

  -- The engine is seen stopped after `k` sleeps, and not before.
  unfoldable pub IsFirstStop : ℕ → G.State → Type 0
  IsFirstStop zero e = is_criteria_stopped (G.get_state e) ≡ true
  IsFirstStop (suc k) e =
      (is_criteria_stopped (G.get_state e) ≡ false) × IsFirstStop k (G.advance e).1

module _ {F : Floats} {D : Mysql} {G : Engine F} where
  observe_all-append :
      (xs ys : List (Notice F)) (v : View F D G)
      → observe_all (xs ++ ys) v ≡ observe_all ys (observe_all xs v)
  unfolding observe_all
  observe_all-append [] ys v = refl
  observe_all-append (x ∷ xs) ys v = observe_all-append xs ys (observe x v)

  observe_all-engine :
      (xs : List (Notice F)) (v : View F D G) → (observe_all xs v).engine ≡ v.engine
  unfolding observe_all
  observe_all-engine [] v = refl
  observe_all-engine (statistic_update g ∷ xs) v = observe_all-engine xs _
  observe_all-engine (new_best_chromosome c f ∷ xs) v = observe_all-engine xs _

  observe_all-set_engine :
      (xs : List (Notice F)) (e : G.State) (v : View F D G)
      → record (observe_all xs v) { engine = e } ≡ observe_all xs (record v { engine = e })
  unfolding observe_all
  observe_all-set_engine [] e v = refl
  observe_all-set_engine (statistic_update g ∷ xs) e v = observe_all-set_engine xs e _
  observe_all-set_engine (new_best_chromosome c f ∷ xs) e v = observe_all-set_engine xs e _

  -- The view once the engine of `v` has slept `k` times.
  unfoldable pub waited : ℕ → View F D G → View F D G
  unfolding observe_all after_sleeps notices_of
  waited k v =
      observe_all (notices_of G k v.engine) (record v { engine = after_sleeps G k v.engine })

  waited-sleep : (k : ℕ) (v : View F D G) → waited k (sleep v) ≡ waited (suc k) v
  unfolding waited sleep after_sleeps notices_of
  waited-sleep k v =
      let (notices, e) = G.advance v.engine in
      let slept = record v { engine = e } in
      ap
        (λ u.
          observe_all (notices_of G k u)
            (record (observe_all notices slept) { engine = after_sleeps G k u }))
        (observe_all-engine notices slept)
      ∙ ap (observe_all (notices_of G k e))
          (observe_all-set_engine notices (after_sleeps G k e) slept)
      ∙ sym (observe_all-append notices (notices_of G k e) _)

  sleep-engine : (v : View F D G) → (sleep v).engine ≡ (G.advance v.engine).1
  unfolding sleep
  sleep-engine v = observe_all-engine (G.advance v.engine).0 _

  pub wait_until_stopped_lem :
      (k fuel : ℕ) (v : View F D G)
      → k < fuel
      → IsFirstStop G k v.engine
      → wait_until_stopped fuel v ≡ some (waited k v)
  unfolding wait_until_stopped IsFirstStop waited after_sleeps notices_of observe_all
  wait_until_stopped_lem k zero v p s = absurd (omega arith)
  wait_until_stopped_lem zero (suc fuel) v p s = rw (s, wait_until_stopped) refl
  wait_until_stopped_lem (suc k) (suc fuel) v p (s, rest) =
      rw (s, wait_until_stopped)
        (wait_until_stopped_lem k fuel (sleep v) (omega arith) (rw (sleep-engine v) rest)
          ∙ ap some (waited-sleep k v))

  -- The search step returns 0 once the engine is seen stopped: if this takes `k` sleeps, any
  -- larger bound on the looks at the engine is enough, and the view has then been told each notice
  -- of these sleeps, in their order, and nothing else.
  pub on_search_delivery_data_lem :
      (k fuel : ℕ) (v : View F D G)
      → k < fuel
      → IsFirstStop G k (start_search 70_000 v).engine
      → on_search_delivery_data fuel v ≡ some (returned 0, waited k (start_search 70_000 v))
  unfolding on_search_delivery_data
  on_search_delivery_data_lem k fuel v p s =
      rw (wait_until_stopped_lem k fuel (start_search 70_000 v) p s, on_search_delivery_data) refl
