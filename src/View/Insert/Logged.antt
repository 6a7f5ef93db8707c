-- ===== src/View/Insert/Logged.antt =====
-- Why a run of `OnVehicleDataInsert` (TSP/TspView.cpp) sends these statements.
use tsp_simple.Base.{
  ℕ, zero, suc, ◌+◌, ◌-◌, ◌≡◌, refl, sym, ap, ◌∙◌, Bool, true, false, some, List, [], ◌∷◌, ◌++◌,
  ◌==◌, length, get_elem?, take, ◌<◌, get_elem?-lt, get_elem?-of_lt, get_elem?-append_left,
  get_elem?-append_length, Bool-cases, inl, inr, arith,
}
use tsp_simple.Text.{Text, sprintf, atoi}
use tsp_simple.City.{ChromosomeCopy}
use tsp_simple.External.{Floats, Mysql, Engine}
use tsp_simple.View.{View, Parameters, done, column, fetch_row}
use tsp_simple.View.Load.{count_up, copy_column}
use tsp_simple.View.Runs.{Meets, Meets-done}
use tsp_simple.View.Insert.{
  mutual_format, bad_format, delete_format, day_args, mutual_args, target_of_copy, leg_end,
  insert_round, insert_body,
}
use tsp_simple.View.Insert.Log.{LegLog, closing, RouteLog, arrived, leg, IsBodyLog}
use tsp_simple.View.Insert.Sends.{
  Sends, Sends-pure, Sends-then, Sends-need, Sends-get, Sends-if, Sends-connect, Sends-query_text,
}
use tsp_simple.View.Insert.Rows.{insert_leg-Sends, insert_next-Sends, number_rows-Sends}

-- The stop at the end of a leg, on the route that is closed by its first stop.
leg_end_lem :
    {A : Type 0} (route : List A) (j : ℕ)
    → j < length route
    → get_elem? route (leg_end (length route) j) ≡ get_elem? (route ++ take 1 route) (j + 1)
unfolding leg_end
leg_end_lem [] j inside = absurd (omega arith)
leg_end_lem (first ∷ rest) j inside = elim (Bool-cases (j == length (first ∷ rest) - 1)) [
  | inl last ↦
      let at : j + 1 ≡ length (first ∷ rest) = ground arith in
      rw (last, at) (sym (get_elem?-append_length (first ∷ rest) first))
  | inr inner ↦
      let (next, at) = get_elem?-of_lt (first ∷ rest) (j + 1) (ground arith) in
      rw inner (at ∙ sym (get_elem?-append_left (first ∷ rest) (first ∷ []) (j + 1) at))
]

module _ {F : Floats} {D : Mysql} {G : Engine F} {p : Parameters}
    {route : List (ChromosomeCopy F)} where
  insert_round-Sends :
      {K : List Text → Type 0} (j : ℕ)
      → ((from next : ChromosomeCopy F) (ask : Text) (log : List Text)
          → get_elem? route j ≡ some from
          → get_elem? (route ++ take 1 route) (j + 1) ≡ some next
          → sprintf 2048 mutual_format (mutual_args from next) ≡ some ask
          → LegLog p j from next (j == length route - 1) log
          → K (ask ∷ log))
      → Sends {D = D} {G = G} p route (insert_round j) (λ a log. K log)
  unfolding insert_round
  insert_round-Sends {K} j k = Sends-get _ λ v e r.
      let there = v.best_chromosome_copy in
      Sends-need (get_elem? there j) _ λ from e1.
        Sends-need (get_elem? there (leg_end (length there) j)) _ λ next e2.
          Sends-query_text 800 2048 mutual_format (mutual_args from next) _ λ ask found printed.
            Sends-need (column (fetch_row found) 9) _ λ text e3.
              Sends-need (atoi text) _ λ distance e4.
                Sends-need (copy_column 202_400 (fetch_row found) 12) _ λ json e5.
                  let whole : (b : Bool)
                      → (j == length there - 1) ≡ b
                      → (log : List Text) → LegLog p j from next b log
                      → K (ask ∷ log) =
                    λ b last log legs.
                      k from next ask log (sym (ap (λ l. get_elem? l j) r) ∙ e1)
                        (sym (ap (λ l. get_elem? (l ++ take 1 l) (j + 1)) r)
                          ∙ sym (leg_end_lem there j (get_elem?-lt there j e1))
                          ∙ e2)
                        printed (rw (sym (ap (λ l. j == length l - 1) r) ∙ last) legs) in
                  Sends-if (j == length there - 1)
                    (λ last.
                      insert_leg-Sends {K = λ log. K (ask ∷ log)} j from (target_of_copy next)
                        distance json
                        (λ sql inserted. whole true last (sql ∷ []) (closing inserted)))
                    (λ more.
                      insert_next-Sends {K = λ log. K (ask ∷ log)} j from next distance json
                        (λ log legs. whole false more log legs))

  rounds-Sends :
      {K : List Text → Type 0} (n j : ℕ)
      → ((log : List Text) → RouteLog p route n j log → K log)
      → Sends {D = D} {G = G} p route (count_up n j insert_round) (λ a log. K log)
  unfolding count_up
  rounds-Sends zero j k = Sends-pure tt (k [] arrived)
  rounds-Sends {K} (suc n) j k =
      Sends-then
        (insert_round-Sends
          {K = λ xs. (rest : List Text) → RouteLog p route n (j + 1) rest → K (xs ++ rest)} j
          (λ from next ask log at there printed legs rest later.
            k (ask ∷ (log ++ rest)) (leg from next at there printed legs later)))
        λ a xs whole.
          rounds-Sends {K = λ rest. K (xs ++ rest)} n (j + 1) (λ rest later. whole rest later)

  insert_body-Sends : Sends {D = D} {G = G} p route insert_body (λ a log. IsBodyLog p route log)
  unfolding insert_body
  insert_body-Sends = Sends-connect 0 _ (
      Sends-query_text 0 512 "set names euckr" [] _ λ names none named. Sends-get _ λ v e r.
        Sends-query_text 800 1024 delete_format (day_args v.parameters) _ λ delete none deleted.
          Sends-then
            (rounds-Sends {K = λ legs. RouteLog p route (length v.best_chromosome_copy) 0 legs}
              (length v.best_chromosome_copy) 0 (λ legs all. all))
            λ a legs all.
              Sends-query_text 800 2048 bad_format (day_args v.parameters) _ λ bad found asked.
                Sends-connect 800 _ (
                  Sends-query_text 100 512 "set names euckr" [] _ λ again none named_again.
                    number_rows-Sends
                      {K = λ updates.
                        IsBodyLog p route (names ∷ delete ∷ (legs ++ bad ∷ again ∷ updates))}
                      (length v.best_chromosome_copy) found
                      (λ updates numbered.
                        let same : again ≡ names = cc in
                        let size = ap (λ l. length l) r in
                        record {
                          names = names;
                          delete = delete;
                          legs = legs;
                          bad = bad;
                          updates = updates;
                          parts = ap (λ t. names ∷ delete ∷ (legs ++ bad ∷ t ∷ updates)) same;
                          sets_names = named;
                          deletes =
                              sym (ap (λ u. sprintf 1024 delete_format (day_args u)) e) ∙ deleted;
                          drives = rw size at all;
                          asks = sym (ap (λ u. sprintf 2048 bad_format (day_args u)) e) ∙ asked;
                          numbers = rw size at numbered;
                        })))

-- When the step that writes the route comes to its end, it has sent these statements behind those
-- sent before: the one that sets the names, the deletion of the rows of the day and vehicle, and
-- then, for each leg of the route in its order, the question for the distance from its customer to
-- the next one, the last leg leading back to the first, and its insertion: one row for the depot and
-- for a customer with an address of their own, behind a question for the order, and only rows of
-- this leg for a shared address. The numbering of the rows with a bad address, from the length of
-- the route on, comes last.
pub insert_body-IsBodyLog :
    {F : Floats} {D : Mysql} {G : Engine F} (v w : View F D G)
    → insert_body v ≡ (done tt, w)
    → (log : List Text) × (w.statements ≡ v.statements ++ log)
      × IsBodyLog v.parameters v.best_chromosome_copy log
unfolding Meets
insert_body-IsBodyLog v w run =
    let (log, sent, body) =
      Meets-done _ (insert_body v) tt w run (insert_body-Sends.run v refl refl) in
    (log, sent.sent, body)
