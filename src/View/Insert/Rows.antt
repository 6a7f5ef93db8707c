-- ===== src/View/Insert/Rows.antt =====
-- What the insertion of one leg sends (`OnVehicleDataInsert`, TSP/TspView.cpp).
use tsp_simple.Base.{ℕ, ◌+◌, ◌≡◌, refl, sym, ap, ◌∙◌, true, false, some, List, [], ◌∷◌}
use tsp_simple.Base.Int.{ℤ, pos}
use tsp_simple.Text.{Text, str, int, sprintf, is_empty}
use tsp_simple.City.{ChromosomeCopy}
use tsp_simple.External.{Floats, Mysql, Engine, Row}
use tsp_simple.View.{Parameters, column, fetch_row}
use tsp_simple.View.Insert.{
  Target, insert_format, update_format, insert_args, target_of_copy, insert_leg, insert_single,
  insert_shared, insert_next, insert_rows, order_format, shared_format, order_args, shared_args,
  target_of_row, number_rows,
}
use tsp_simple.View.Insert.Log.{IsInsertion, Insertions, LegLog, single, shared, Updates}
use tsp_simple.View.Insert.Sends.{
  Sends, Sends-pure, Sends-then, Sends-need, Sends-get, Sends-if, Sends-connect, Sends-query_text,
}

module _ {F : Floats} {D : Mysql} {G : Engine F} {p : Parameters}
    {route : List (ChromosomeCopy F)} where
  pub insert_leg-Sends :
      {K : List Text → Type 0} (j : ℕ) (from : ChromosomeCopy F) (to : Target) (distance : ℤ)
      (json : Text)
      → ((sql : Text) → IsInsertion p j from to sql → K (sql ∷ []))
      → Sends {D = D} {G = G} p route (insert_leg j from to distance json) (λ a log. K log)
  unfolding insert_leg IsInsertion
  insert_leg-Sends j from to distance json next = Sends-get _ λ v e r.
      Sends-query_text 800 404_800 insert_format (insert_args v.parameters j from to distance json)
        _
        λ sql found printed.
          let same =
            ap (λ q. sprintf 404_800 insert_format (insert_args q j from to distance json)) e in
          Sends-pure tt (next sql (distance, json, sym same ∙ printed))

  insert_single-Sends :
      {K : List Text → Type 0} (j : ℕ) (from next : ChromosomeCopy F) (distance : ℤ) (json : Text)
      → is_empty next.details.accno_duple ≡ true
      → ((log : List Text) → LegLog p j from next false log → K log)
      → Sends {D = D} {G = G} p route (insert_single j from next distance json) (λ a log. K log)
  unfolding insert_single
  insert_single-Sends {K} j from next distance json own k = Sends-get _ λ v e r.
      Sends-query_text 800 2048 order_format (order_args v.parameters (target_of_copy next)) _
        λ order found printed.
          let same = ap (λ q. sprintf 2048 order_format (order_args q (target_of_copy next))) e in
          Sends-need (column (fetch_row found) 0) _ λ name e1.
            Sends-need (column (fetch_row found) 1) _ λ juso e2.
              insert_leg-Sends {K = λ log. K (order ∷ log)} j from _ distance json (λ sql inserted.
                k (order ∷ sql ∷ []) (single name juso own (sym same ∙ printed) inserted))

  target_of_row-Sends :
      (row : Row) → Sends {D = D} {G = G} p route (target_of_row row) (λ to log. log ≡ [])
  unfolding target_of_row
  target_of_row-Sends row = Sends-need (column (some row) 1) _ λ accno e.
      Sends-need (column (some row) 6) _ λ name e. Sends-need (column (some row) 7) _ λ tel e.
        Sends-need (column (some row) 10) _ λ pay e. Sends-need (column (some row) 5) _ λ id e.
          Sends-need (column (some row) 8) _ λ juso_sub_id e.
            Sends-need (column (some row) 11) _ λ lat e.
              Sends-need (column (some row) 12) _ λ lon e.
                Sends-need (column (some row) 9) _ λ juso e.
                  Sends-need (column (some row) 14) _ λ is_shop e.
                    Sends-need (column (some row) 17) _ λ accno_duple e. Sends-pure _ refl

  insert_rows-Sends :
      {K : List Text → Type 0} (j : ℕ) (from : ChromosomeCopy F) (distance : ℤ) (json : Text)
      (found : List Row)
      → ((log : List Text) → Insertions p j from log → K log)
      → Sends {D = D} {G = G} p route (insert_rows j from distance json found) (λ a log. K log)
  unfolding insert_rows Insertions
  insert_rows-Sends j from distance json [] k = Sends-pure tt (k [] tt)
  insert_rows-Sends {K} j from distance json (row ∷ rest) k =
      Sends-then (target_of_row-Sends row) λ to xs none.
        Sends-then
          (insert_leg-Sends
            {K = λ log. (sql : Text) × (log ≡ sql ∷ []) × IsInsertion p j from to sql} j from to
            distance json (λ sql inserted. (sql, refl, inserted)))
          λ a ys (sql, one, inserted).
            rw (none, one)
              (insert_rows-Sends {K = λ log. K (sql ∷ log)} j from distance json rest
                (λ log later. k (sql ∷ log) ((to, inserted), later)))

  insert_shared-Sends :
      {K : List Text → Type 0} (j : ℕ) (from next : ChromosomeCopy F) (distance : ℤ) (json : Text)
      → is_empty next.details.accno_duple ≡ false
      → ((log : List Text) → LegLog p j from next false log → K log)
      → Sends {D = D} {G = G} p route (insert_shared j from next distance json) (λ a log. K log)
  unfolding insert_shared
  insert_shared-Sends {K} j from next distance json several k = Sends-get _ λ v e r.
      Sends-query_text 800 2048 shared_format (shared_args v.parameters next) _ λ orders found q.
        let same = ap (λ u. sprintf 2048 shared_format (shared_args u next)) e in
        Sends-connect 800 _ (
          Sends-query_text 100 512 "set names euckr" [] _ λ names nothing q'.
            insert_rows-Sends {K = λ log. K (orders ∷ names ∷ log)} j from distance json found
              (λ log inserted.
                k (orders ∷ names ∷ log) (shared several (sym same ∙ q) q' inserted)))

  pub insert_next-Sends :
      {K : List Text → Type 0} (j : ℕ) (from next : ChromosomeCopy F) (distance : ℤ) (json : Text)
      → ((log : List Text) → LegLog p j from next false log → K log)
      → Sends {D = D} {G = G} p route (insert_next j from next distance json) (λ a log. K log)
  unfolding insert_next
  insert_next-Sends j from next distance json k =
      Sends-if (is_empty next.details.accno_duple)
        (λ own. insert_single-Sends j from next distance json own k)
        (λ several. insert_shared-Sends j from next distance json several k)

  pub number_rows-Sends :
      {K : List Text → Type 0} (index : ℕ) (found : List Row)
      → ((log : List Text) → Updates index log → K log)
      → Sends {D = D} {G = G} p route (number_rows index found) (λ a log. K log)
  unfolding number_rows Updates
  number_rows-Sends index [] k = Sends-pure tt (k [] tt)
  number_rows-Sends {K} index (row ∷ rest) k = Sends-need (column (some row) 0) _ λ seq e.
      Sends-query_text 800 2048 update_format (int (pos index) ∷ str seq ∷ []) _
        λ sql found printed.
          number_rows-Sends {K = λ log. K (sql ∷ log)} (index + 1) rest
            (λ log later. k (sql ∷ log) ((seq, printed), later))
