-- ===== src/View/Insert/Legs.antt =====
-- A leg of `OnVehicleDataInsert` (TSP/TspView.cpp) is written to its end on a server that answers.
use tsp_simple.Base.{All, ℕ, ◌<◌, ◌≡◌, ap, ◌∙◌, some, List, [], ◌∷◌, length, get_elem?}
use tsp_simple.Base.Int.{ℤ}
use tsp_simple.Text.{Text, sprintf, is_empty}
use tsp_simple.City.{ChromosomeCopy}
use tsp_simple.External.{Floats, Mysql, Engine, Row}
use tsp_simple.View.{View, Parameters, Action, column, fetch_row}
use tsp_simple.View.Ends.{
  Ends, Ends-pure, Ends-then, Ends-need, Ends-get, Ends-if, IsServing, Ends-connect,
  Ends-query_text,
}
use tsp_simple.View.Insert.{
  Target, insert_format, insert_args, target_of_copy, order_format, shared_format, order_args,
  shared_args, insert_leg, insert_single, insert_shared, insert_next, insert_rows, target_of_row,
}
use tsp_simple.View.Insert.Answers.{
  IsAsked, order, orders, inserting, names-IsAsked, IsSchema, IsOrderRow,
}
use tsp_simple.View.Buffers.{FitsParameters, names-Prints}
use tsp_simple.View.Insert.Fits.{FitsTarget, FitsStop, order-Prints, shared-Prints, insert-Prints}

-- A view with the parameters and the route, in front of a server that is meant.
pub record Stands {F : Floats} {D : Mysql} {G : Engine F} (p : Parameters)
    (route : List (ChromosomeCopy F)) (live : D.Server → Type 0) (v : View F D G) : Type 0 where
  pub parameters : v.parameters ≡ p
  pub route_is : v.best_chromosome_copy ≡ route
  pub serves : live v.server

pub Stands-sent :
    {F : Floats} {D : Mysql} {G : Engine F} {p : Parameters} {route : List (ChromosomeCopy F)}
    {live : D.Server → Type 0} (v : View F D G) (e : D.Server) (sent : List Text)
    → Stands p route live v
    → live e
    → Stands p route live (record v { server = e; statements = sent })
Stands-sent v e sent h good = record {
  parameters = h.parameters;
  route_is = h.route_is;
  serves = good;
}

module _ {F : Floats} {D : Mysql} {G : Engine F} {p : Parameters} {route : List (ChromosomeCopy F)}
    {live : D.Server → Type 0} (serving : IsServing D live IsAsked (IsSchema p route))
    (fits : FitsParameters p)
    (stops_fit : (i : ℕ) (c : ChromosomeCopy F) → get_elem? route i ≡ some c → FitsStop c) where
  abbrev Done : Action (View F D G) (Unit {0}) → Type 0
  Done m = Ends (Stands p route live) m (λ a. Unit {0})

  pub insert_leg-Ends :
      (j : ℕ) (from : ChromosomeCopy F) (to : Target) (distance : ℤ) (json : Text)
      → FitsStop from
      → FitsTarget to
      → length json < 202_400
      → Done (insert_leg j from to distance json)
  unfolding insert_leg
  insert_leg-Ends j from to distance json a b short = Ends-get _ λ v h.
      let (sql, printed) = insert-Prints {p = p} j from to distance json fits a b short in
      let same =
        ap (λ q. sprintf 404_800 insert_format (insert_args q j from to distance json))
          h.parameters in
      Ends-query_text serving (λ u i. i.serves) Stands-sent 800 404_800 insert_format
        (insert_args v.parameters j from to distance json) sql _ (same ∙ printed)
        (inserting (insert_args v.parameters j from to distance json) (same ∙ printed))
        (λ found promised. Ends-pure tt tt)

  insert_single-Ends :
      (i j : ℕ) (from next : ChromosomeCopy F) (distance : ℤ) (json : Text)
      → FitsStop from
      → get_elem? route i ≡ some next
      → length json < 202_400
      → Done (insert_single j from next distance json)
  unfolding insert_single
  insert_single-Ends i j from next distance json a there short = Ends-get _ λ v h.
      let t = target_of_copy next in
      let b = stops_fit i next there in
      let (sql, printed) = order-Prints fits t b in
      let same = ap (λ q. sprintf 2048 order_format (order_args q t)) h.parameters in
      Ends-query_text serving (λ u i. i.serves) Stands-sent 800 2048 order_format
        (order_args v.parameters t) sql _ (same ∙ printed)
        (order (order_args v.parameters t) (same ∙ printed))
        λ found promised.
          let g = promised.guest i next there printed in
          Ends-need (column (fetch_row found) 0) _ g.name λ name e name_fits.
            Ends-need (column (fetch_row found) 1) _ g.juso λ juso e' juso_fits.
              insert_leg-Ends j from (record t { name = name; juso = juso }) distance json a
                (record {
                  accno = b.accno;
                  name = name_fits;
                  tel = b.tel;
                  pay = b.pay;
                  id = b.id;
                  juso_sub_id = b.juso_sub_id;
                  lat = b.lat;
                  lon = b.lon;
                  juso = juso_fits;
                  is_shop = b.is_shop;
                  accno_duple = b.accno_duple;
                })
                short

  target_of_row-Ends :
      (row : Row)
      → IsOrderRow row
      → Ends (Stands {D = D} {G = G} p route live) (target_of_row row) FitsTarget
  unfolding target_of_row
  target_of_row-Ends row r = Ends-need (column (some row) 1) _ r.accno λ accno e accno_fits.
      Ends-need (column (some row) 6) _ r.name λ name e name_fits.
        Ends-need (column (some row) 7) _ r.tel λ tel e tel_fits.
          Ends-need (column (some row) 10) _ r.pay λ pay e pay_fits.
            Ends-need (column (some row) 5) _ r.id λ id e id_fits.
              Ends-need (column (some row) 8) _ r.juso_sub_id λ juso_sub_id e sub_fits.
                Ends-need (column (some row) 11) _ r.lat λ lat e lat_fits.
                  Ends-need (column (some row) 12) _ r.lon λ lon e lon_fits.
                    Ends-need (column (some row) 9) _ r.juso λ juso e juso_fits.
                      Ends-need (column (some row) 14) _ r.is_shop λ is_shop e shop_fits.
                        Ends-need (column (some row) 17) _ r.accno_duple λ duple e duple_fits.
                          Ends-pure _ (record {
                            accno = accno_fits;
                            name = name_fits;
                            tel = tel_fits;
                            pay = pay_fits;
                            id = id_fits;
                            juso_sub_id = sub_fits;
                            lat = lat_fits;
                            lon = lon_fits;
                            juso = juso_fits;
                            is_shop = shop_fits;
                            accno_duple = duple_fits;
                          })

  insert_rows-Ends :
      (j : ℕ) (from : ChromosomeCopy F) (distance : ℤ) (json : Text) (found : List Row)
      → FitsStop from
      → length json < 202_400
      → All IsOrderRow found
      → Done (insert_rows j from distance json found)
  unfolding insert_rows
  insert_rows-Ends j from distance json [] a short all = Ends-pure tt tt
  insert_rows-Ends j from distance json (row ∷ rest) a short (r, all) =
      Ends-then (target_of_row-Ends row r) λ to b.
        Ends-then (insert_leg-Ends j from to distance json a b short)
          λ u k. insert_rows-Ends j from distance json rest a short all

  insert_shared-Ends :
      (i j : ℕ) (from next : ChromosomeCopy F) (distance : ℤ) (json : Text)
      → FitsStop from
      → get_elem? route i ≡ some next
      → length json < 202_400
      → Done (insert_shared j from next distance json)
  unfolding insert_shared
  insert_shared-Ends i j from next distance json a there short = Ends-get _ λ v h.
      let (sql, printed) = shared-Prints {p = p} next fits (stops_fit i next there) in
      let same = ap (λ q. sprintf 2048 shared_format (shared_args q next)) h.parameters in
      Ends-query_text serving (λ u i. i.serves) Stands-sent 800 2048 shared_format
        (shared_args v.parameters next) sql _ (same ∙ printed)
        (orders (shared_args v.parameters next) (same ∙ printed))
        λ found promised.
          Ends-connect serving (λ u i. i.serves) Stands-sent 800 _
            (Ends-query_text serving (λ u i. i.serves) Stands-sent 100 512 "set names euckr" []
              names-Prints.0 _ names-Prints.1 names-IsAsked
              λ nothing none.
                insert_rows-Ends j from distance json found a short
                  (promised.guests i next there printed))

  pub insert_next-Ends :
      (i j : ℕ) (from next : ChromosomeCopy F) (distance : ℤ) (json : Text)
      → FitsStop from
      → get_elem? route i ≡ some next
      → length json < 202_400
      → Done (insert_next j from next distance json)
  unfolding insert_next
  insert_next-Ends i j from next distance json a there short =
      Ends-if (is_empty next.details.accno_duple)
        (λ own. insert_single-Ends i j from next distance json a there short)
        (λ several. insert_shared-Ends i j from next distance json a there short)
