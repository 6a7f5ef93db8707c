-- ===== src/View/Insert/Ending.antt =====
-- A run of `OnVehicleDataInsert` (TSP/TspView.cpp) comes to its end on a server that answers.
use tsp_simple.Base.{
  All, ℕ, zero, suc, ◌+◌, ◌-◌, ◌≤◌, ◌<◌, ◌≡◌, refl, ap, ◌∙◌, some, List, [], ◌∷◌, ◌==◌, length,
  get_elem?, get_elem?-of_lt, arith,
}
use tsp_simple.Base.Int.{pos}
use tsp_simple.Text.{str, int, sprintf, atoi}
use tsp_simple.City.{ChromosomeCopy}
use tsp_simple.External.{Floats, Mysql, Engine, Row}
use tsp_simple.View.{View, Parameters, Action, column, fetch_row}
use tsp_simple.View.Ends.{
  Ends, Ends-pure, Ends-then, Given, Ends-need, Ends-get, Ends-if, IsServing, Ends-connect,
  Ends-query_text,
}
use tsp_simple.View.Load.{count_up, copy_column}
use tsp_simple.View.Insert.{
  mutual_format, update_format, delete_format, bad_format, day_args, mutual_args, target_of_copy,
  leg_end, insert_round, number_rows, insert_body,
}
use tsp_simple.View.Insert.Answers.{
  IsAsked, deleting, numbering, printed-IsAsked, names-IsAsked, IsSchema, HasSeq,
}
use tsp_simple.View.Buffers.{FitsParameters, names-Prints}
use tsp_simple.View.Insert.Fits.{FitsStop, delete-Prints, bad-Prints, mutual-Prints, update-Prints}
use tsp_simple.View.Insert.Legs.{Stands, Stands-sent, insert_leg-Ends, insert_next-Ends}

-- Another stop is at the end of each leg.
leg_end-lt : (n j : ℕ) → j < n → leg_end n j < n
unfolding leg_end
leg_end-lt n j inside = ground arith

-- A stop of a route, read from a list that is this route.
read :
    {A : Type 0} (route there : List A) (i : ℕ)
    → there ≡ route
    → i < length route
    → Given (get_elem? there i) (λ c. get_elem? route i ≡ some c)
read route there i same inside =
    let (c, at) = get_elem?-of_lt route i inside in
    record { value = c; there = ap (λ l. get_elem? l i) same ∙ at; good = at }

module _ {F : Floats} {D : Mysql} {G : Engine F} {p : Parameters} {route : List (ChromosomeCopy F)}
    {live : D.Server → Type 0} (serving : IsServing D live IsAsked (IsSchema p route))
    (fits : FitsParameters p)
    (stops_fit : (i : ℕ) (c : ChromosomeCopy F) → get_elem? route i ≡ some c → FitsStop c) where
  abbrev Done : Action (View F D G) (Unit {0}) → Type 0
  Done m = Ends (Stands p route live) m (λ a. Unit {0})

  insert_round-Ends : (j : ℕ) → j < length route → Done (insert_round j)
  unfolding insert_round
  insert_round-Ends j inside = Ends-get _ λ v h.
      let there = v.best_chromosome_copy in
      let n = length route in
      let from_at : Given (get_elem? there j) (λ c. get_elem? route j ≡ some c) =
        read route there j h.route_is inside in
      let next_at : Given (get_elem? there (leg_end (length there) j))
          (λ c. get_elem? route (leg_end n j) ≡ some c) =
        rw (h.route_is) (read route route (leg_end n j) refl (leg_end-lt n j inside)) in
      Ends-need (get_elem? there j) _ from_at λ from e at.
        Ends-need (get_elem? there (leg_end (length there) j)) _ next_at λ next e' end.
          let a = stops_fit j from at in
          let b = stops_fit (leg_end n j) next end in
          let (sql, printed) = mutual-Prints from next a b in
          Ends-query_text serving (λ u i. i.serves) Stands-sent 800 2048 mutual_format
            (mutual_args from next) sql _ printed
            (printed-IsAsked 2048 mutual_format (mutual_args from next) sql printed refl)
            λ found promised.
              let d = promised.leg j from next at end printed in
              Ends-need (column (fetch_row found) 9) _ d.distance λ text t is_int.
                Ends-need (atoi text) _ is_int λ distance t' u.
                  Ends-need (copy_column 202_400 (fetch_row found) 12) _ d.json λ json t'' short.
                    Ends-if (j == length there - 1)
                      (λ last.
                        insert_leg-Ends serving fits stops_fit j from (target_of_copy next) distance
                          json a b short)
                      (λ more.
                        insert_next-Ends serving fits stops_fit (leg_end n j) j from next distance
                          json a end short)

  rounds-Ends : (n j : ℕ) → j + n ≤ length route → Done (count_up n j insert_round)
  unfolding count_up
  rounds-Ends zero j inside = Ends-pure tt tt
  rounds-Ends (suc n) j inside =
      Ends-then (insert_round-Ends j (omega arith)) λ a k. rounds-Ends n (j + 1) (omega arith)

  number_rows-Ends :
      (index : ℕ) (found : List Row) → All HasSeq found → Done (number_rows index found)
  unfolding number_rows
  number_rows-Ends index [] all = Ends-pure tt tt
  number_rows-Ends index (row ∷ rest) (r, all) = Ends-need (column (some row) 0) _ r λ seq e short.
      let (sql, printed) = update-Prints index seq short in
      Ends-query_text serving (λ u i. i.serves) Stands-sent 800 2048 update_format
        (int (pos index) ∷ str seq ∷ []) sql _ printed
        (numbering (int (pos index) ∷ str seq ∷ []) printed)
        λ found promised. number_rows-Ends (index + 1) rest all

  pub insert_body-Ends : Done insert_body
  unfolding insert_body
  insert_body-Ends =
      Ends-connect serving (λ u i. i.serves) Stands-sent 0 _
        (Ends-query_text serving (λ u i. i.serves) Stands-sent 0 512 "set names euckr" []
          names-Prints.0 _ names-Prints.1 names-IsAsked
          λ nothing none. Ends-get _ λ v h.
            let (deletion, deletes) = delete-Prints fits in
            let (question, asks) = bad-Prints fits in
            Ends-query_text serving (λ u i. i.serves) Stands-sent 800 1024 delete_format
              (day_args v.parameters) deletion _
              (ap (λ q. sprintf 1024 delete_format (day_args q)) h.parameters ∙ deletes)
              (deleting (day_args p) deletes)
              λ nothing none.
                Ends-then
                  (rounds-Ends (length v.best_chromosome_copy) 0
                    (omega (arith, ap length h.route_is)))
                  λ a k.
                    Ends-query_text serving (λ u i. i.serves) Stands-sent 800 2048 bad_format
                      (day_args v.parameters) question _
                      (ap (λ q. sprintf 2048 bad_format (day_args q)) h.parameters ∙ asks)
                      (printed-IsAsked 2048 bad_format (day_args p) question asks refl)
                      λ found promised.
                        Ends-connect serving (λ u i. i.serves) Stands-sent 800 _
                          (Ends-query_text serving (λ u i. i.serves) Stands-sent 100 512
                            "set names euckr" [] names-Prints.0 _ names-Prints.1 names-IsAsked
                            λ nothing none.
                              number_rows-Ends (length v.best_chromosome_copy) found
                                (promised.bad asks)))
