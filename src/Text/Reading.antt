-- ===== src/Text/Reading.antt =====
-- The statements of TSP/TspView.cpp that change nothing in the database.
use Prim.Native.String.{String}
use tsp_simple.Base.{
  ℕ, ◌≡◌, sym, ap, ◌∙◌, Bool, true, false, ◌||◌, some, List, [], ◌∷◌, ◌==◌, ==_iff, ◌>>=◌,
  bind-some, Bool-cases, inl, inr,
}
use tsp_simple.Text.{Text, Arg, bytes, format, sprintf, strcpy}
use tsp_simple.Text.Laws.{strcpy-eq_some}

-- Whether a statement only reads: it begins as SELECT does, or as "set names".
abbrev pub reads : Text → Bool
reads [] = false
reads (c ∷ t) = c == b'S' || c == b's'

abbrev pub IsReading : Text → Type 0
IsReading sql = reads sql ≡ true

not_percent : (c : ℕ) → (c == b'S' || c == b's') ≡ true → (c == b'%') ≡ false
not_percent c r = elim (Bool-cases (c == b'%')) [
  | inr other ↦ other
  | inl percent ↦ let is = (==_iff c b'%').0 percent in let r' = rw is at r in cc
]

-- A statement reads if its format does.
pub sprintf-IsReading :
    (size : ℕ) (f : String) (args : List Arg) (sql : Text)
    → sprintf size f args ≡ some sql
    → IsReading (bytes f)
    → IsReading sql
unfolding sprintf format
sprintf-IsReading size f args sql e = go (bytes f) e
  where
    go :
        (t : Text)
        → (format false t args >>= strcpy size) ≡ some sql
        → reads t ≡ true
        → reads sql ≡ true
    go [] e r = cc
    go (c ∷ t) e r =
        let (u, formatted, copied) = bind-some (format false (c ∷ t) args) (strcpy size) e in
        let plain = rw (not_percent c r, format) at formatted in
        let (w, rest, is) = bind-some (format false t args) (λ w. some (c ∷ w)) plain in
        let begins : c ∷ w ≡ u = cc in ap reads ((strcpy-eq_some size u copied).0 ∙ sym begins) ∙ r
