-- ===== src/View/Search/Announced.antt =====
-- What the notices of the genetic algorithm leave in the view (TSP/TspView.cpp).
use tsp_simple.Base.{ℕ, ◌+◌, ◌≤◌, ◌≡◌, refl, arith, List, [], ◌∷◌}
use tsp_simple.External.{Floats, Mysql, Engine, Notice, statistic_update, new_best_chromosome}
use tsp_simple.View.{View}
use tsp_simple.View.Search.{observe_all, start_search}
use tsp_simple.View.Search.Waiting.{after_sleeps, notices_of, waited}

module _ {F : Floats} where
  -- The last chromosome that the notices announce, or `best` when they announce none.
  pub last_best : List ℕ → List (Notice F) → List ℕ
  last_best best [] = best
  last_best best (statistic_update g ∷ ns) = last_best best ns
  last_best best (new_best_chromosome c f ∷ ns) = last_best c ns

  -- Every chromosome that is announced satisfies `P`.
  unfoldable pub AnnouncesOnly : (List ℕ → Type 0) → List (Notice F) → Type 0
  AnnouncesOnly P [] = Unit {0}
  AnnouncesOnly P (statistic_update g ∷ ns) = AnnouncesOnly P ns
  AnnouncesOnly P (new_best_chromosome c f ∷ ns) = P c × AnnouncesOnly P ns

  -- How many chromosomes the notices announce.
  unfoldable pub announced : List (Notice F) → ℕ
  announced [] = 0
  announced (statistic_update g ∷ ns) = announced ns
  announced (new_best_chromosome c f ∷ ns) = announced ns + 1

  pub kept_best :
      (P : List ℕ → Type 0) (best : List ℕ) (ns : List (Notice F))
      → P best
      → AnnouncesOnly P ns
      → P (last_best best ns)
  unfolding last_best AnnouncesOnly
  kept_best P best [] h all = h
  kept_best P best (statistic_update g ∷ ns) h all = kept_best P best ns h all
  kept_best P best (new_best_chromosome c f ∷ ns) h (here, all) = kept_best P c ns here all

  pub last_best-announced :
      (P : List ℕ → Type 0) (best : List ℕ) (ns : List (Notice F))
      → 1 ≤ announced ns
      → AnnouncesOnly P ns
      → P (last_best best ns)
  unfolding last_best AnnouncesOnly announced
  last_best-announced P best [] one all = absurd (omega arith)
  last_best-announced P best (statistic_update g ∷ ns) one all =
      last_best-announced P best ns one all
  last_best-announced P best (new_best_chromosome c f ∷ ns) one (here, all) =
      kept_best P c ns here all

module _ {F : Floats} {D : Mysql} {G : Engine F} where
  observe_all_lem :
      (ns : List (Notice F)) (v : View F D G)
      → (g : ℕ) × (f : F.Float) × (observe_all ns v ≡ record v {
        generation = g;
        fitness = f;
        best_chromosome = last_best v.best_chromosome ns;
      })
  unfolding observe_all last_best
  observe_all_lem [] v = (v.generation, v.fitness, refl)
  observe_all_lem (statistic_update g ∷ ns) v = observe_all_lem ns (record v { generation = g })
  observe_all_lem (new_best_chromosome c f ∷ ns) v =
      observe_all_lem ns (record v { best_chromosome = c; fitness = f })

  -- A search changes the engine, the three fields that the observer writes and the bound on the
  -- generations.
  pub searched_lem :
      (limit k : ℕ) (v : View F D G)
      → let e = (start_search limit v).engine in
        (g : ℕ) × (f : F.Float) × (waited k (start_search limit v) ≡ record v {
          generation_limit = limit;
          engine = after_sleeps G k e;
          generation = g;
          fitness = f;
          best_chromosome = last_best v.best_chromosome (notices_of G k e);
        })
  unfolding waited start_search
  searched_lem limit k v = observe_all_lem _ _
