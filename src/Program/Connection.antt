-- ===== src/Program/Connection.antt =====
-- `dbConnectTest` (TSP/TSP.cpp), which nothing calls, and the empty functions behind it.
use tsp_simple.Base.{
  ℕ, ◌≡◌, refl, sym, ap, ◌∙◌, Bool, true, false, Option, none, some, List, [], ◌∷◌, ◌++◌, ◌>>=◌,
  Bool-cases, inl, inr, Option-cases,
}
use tsp_simple.Text.{Text, bytes}
use tsp_simple.External.{Mysql, Row, Reply, failed, rows}
use tsp_simple.View.{column}

-- `exit(1)`, the value that is returned, or a null pointer that is printed.
pub data Tested : Type 0 where
  exits : Tested
  answers : Bool → Tested
  faults : Tested

-- The columns of a row that one `printf` prints.
unfoldable pub printed_columns : Row → List ℕ → Option (List Text)
unfolding column
printed_columns row [] = some []
printed_columns row (k ∷ ks) =
    column (some row) k >>= λ t. printed_columns row ks >>= λ ts. some (t ∷ ts)

-- `while((row = mysql_fetch_row(res)) != NULL) printf(...)`
unfoldable pub printed_rows : List ℕ → List Row → Option (List (List Text))
unfolding printed_columns
printed_rows ks [] = some []
printed_rows ks (row ∷ rest) =
    printed_columns row ks >>= λ line. printed_rows ks rest >>= λ lines. some (line ∷ lines)

-- The second half: `return 1` when the query fails.
unfoldable pub list_names : List (List Text) → Reply → Tested × List (List Text)
unfolding printed_rows
list_names tables failed = (answers true, tables)
list_names tables (rows names) = elim (printed_rows (0 ∷ 1 ∷ 2 ∷ []) names) [
  | none ↦ (faults, tables)
  | some lines ↦ (answers true, tables ++ lines)
]

-- The first half, from the reply to `show tables`.
unfoldable pub list_tables : (D : Mysql) (r : Reply × D.Server) → Tested × List (List Text)
unfolding printed_rows list_names
list_tables D (failed, s') = (exits, [])
list_tables D (rows tables, s') = elim (printed_rows (0 ∷ []) tables) [
  | none ↦ (faults, [])
  | some lines ↦ list_names lines (D.query (bytes "SELECT * FROM R_TEST") s').0
]

-- What `dbConnectTest` comes to, with the lines that it printed from the rows.
unfoldable pub db_connect_test : (D : Mysql) → D.Server → Tested × List (List Text)
unfolding list_tables
db_connect_test D s = elim (D.connect s) [
  | false ↦ (exits, [])
  | true ↦ list_tables D (D.query (bytes "show tables") s)
]

unfoldable pub db_close : Bool
db_close = true

-- The outcome is not the answer `false`.
abbrev pub IsNotFalse : Tested × List (List Text) → Type 0
IsNotFalse r = ¬ (r.0 ≡ answers false)

list_names-IsNotFalse : (tables : List (List Text)) (r : Reply) → IsNotFalse (list_names tables r)
unfolding list_names
list_names-IsNotFalse tables failed e = cc
list_names-IsNotFalse tables (rows names) e =
    elim (Option-cases (printed_rows (0 ∷ 1 ∷ 2 ∷ []) names)) [
      | inl absent ↦
          let at : (list_names tables (rows names)).0 ≡ faults = rw (absent, list_names) refl in cc
      | inr (lines, there) ↦
          let at : (list_names tables (rows names)).0 ≡ answers true =
            rw (there, list_names) refl in
          cc
    ]

list_tables-IsNotFalse : (D : Mysql) (r : Reply × D.Server) → IsNotFalse (list_tables D r)
unfolding list_tables
list_tables-IsNotFalse D (failed, s') e = cc
list_tables-IsNotFalse D (rows tables, s') e = elim (Option-cases (printed_rows (0 ∷ []) tables)) [
  | inl absent ↦
      let at : (list_tables D (rows tables, s')).0 ≡ faults = rw (absent, list_tables) refl in cc
  | inr (lines, there) ↦
      let next = (D.query (bytes "SELECT * FROM R_TEST") s').0 in
      let at : list_tables D (rows tables, s') ≡ list_names lines next =
        rw (there, list_tables) refl in
      list_names-IsNotFalse lines next (sym (ap (λ p. p.0) at) ∙ e)
]

-- The test of the connection never answers `false`, whatever the server replies.
pub db_connect_test-IsNotFalse : (D : Mysql) (s : D.Server) → IsNotFalse (db_connect_test D s)
unfolding db_connect_test
db_connect_test-IsNotFalse D s e = elim (Bool-cases (D.connect s)) [
  | inr down ↦ let at : (db_connect_test D s).0 ≡ exits = rw (down, db_connect_test) refl in cc
  | inl up ↦
      let reply = D.query (bytes "show tables") s in
      let at : db_connect_test D s ≡ list_tables D reply = rw (up, db_connect_test) refl in
      list_tables-IsNotFalse D reply (sym (ap (λ p. p.0) at) ∙ e)
]
