-- ===== src/View/Calc/Answers.antt =====
-- What `OnCalcDeliveryData` (TSP/TspView.cpp) relies on in the replies of the database, and its
-- statements in their buffers.
use tsp_simple.Base.{ℕ, ◌≤◌, ◌≡◌, refl, some, List, length, get_elem?, arith}
use tsp_simple.Base.Int.{pos}
use tsp_simple.Text.{Text, bytes, sprintf, atoi}
use tsp_simple.Text.Formats.{matches, sprintf-fits}
use tsp_simple.City.{ChromosomeCopy}
use tsp_simple.External.{Floats, Row}
use tsp_simple.View.{Parameters, column, fetch_row}
use tsp_simple.View.Buffers.{FitsParameters, Prints}
use tsp_simple.View.Calc.{
  all_pays_format, single_pay_format, shared_pay_format, day_args, single_pay_args, shared_pay_args,
}
use tsp_simple.View.Ends.{Given}
use tsp_simple.View.Insert.{target_of_copy}
use tsp_simple.View.Insert.Fits.{FitsStop}

-- An amount of at most `most`, as a text.
abbrev pub IsAmount : ℕ → Text → Type 0
IsAmount most t = (n : ℕ) × (atoi t ≡ some (pos n)) × (n ≤ most)

-- The sums that the database has of a day and a route: each stop has one of at most `most`.
pub record IsPaid {F : Floats} (p : Parameters) (route : List (ChromosomeCopy F)) (most : ℕ)
    (sql : Text) (found : List Row) : Type 0 where
  pub day :
      sprintf 1024 all_pays_format (day_args p) ≡ some sql
      → (row : Row) × (fetch_row found ≡ some row)
  pub single :
      (i : ℕ) (c : ChromosomeCopy F)
      → get_elem? route i ≡ some c
      → sprintf 1024 single_pay_format (single_pay_args c p) ≡ some sql
      → Given (column (fetch_row found) 0) (IsAmount most)
  pub shared :
      (i : ℕ) (c : ChromosomeCopy F)
      → get_elem? route i ≡ some c
      → sprintf 1024 shared_pay_format (shared_pay_args c p) ≡ some sql
      → Given (column (fetch_row found) 0) (IsAmount most)

module _ {p : Parameters} (fits : FitsParameters p) where
  pub day-Prints : Prints 1024 all_pays_format (day_args p)
  unfolding matches
  day-Prints =
      let size : length (bytes all_pays_format) ≡ 173 = refl in
      sprintf-fits 1024 all_pays_format (day_args p) refl (
        omega (arith, fits.delivery_date, fits.meridiem_type, fits.meridiem_flag, fits.location_id))

module _ {F : Floats} {p : Parameters} (fits : FitsParameters p) (c : ChromosomeCopy F)
    (fit : FitsStop c) where
  pub single-Prints : Prints 1024 single_pay_format (single_pay_args c p)
  unfolding matches target_of_copy
  single-Prints =
      let size : length (bytes single_pay_format) ≡ 220 = refl in
      sprintf-fits 1024 single_pay_format (single_pay_args c p) refl (
        omega (
          arith, fits.delivery_date, fits.meridiem_type, fits.meridiem_flag, fits.location_id,
          fit.accno, fit.is_shop,
        ))

  pub shared-Prints : Prints 1024 shared_pay_format (shared_pay_args c p)
  unfolding matches target_of_copy
  shared-Prints =
      let size : length (bytes shared_pay_format) ≡ 210 = refl in
      sprintf-fits 1024 shared_pay_format (shared_pay_args c p) refl (
        omega (
          arith, fits.delivery_date, fits.meridiem_type, fits.meridiem_flag, fits.location_id,
          fit.accno_duple, fit.is_shop,
        ))
