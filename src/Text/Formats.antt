-- ===== src/Text/Formats.antt =====
-- When `sprintf` stays within its buffer: the length of what it prints.
use Prim.Native.String.{String}
use tsp_simple.Base.{
  ℕ, zero, suc, ◌+◌, ◌≤◌, ◌<◌, ◌≡◌, refl, Bool, true, false, some, List, [], ◌∷◌, ◌++◌, ◌&&◌, ◌==◌,
  ltb, length, length-append, Bool-cases, inl, inr, arith, ◌/◌, ◌%◌,
}
use tsp_simple.Base.Int.{ℤ, pos, negsuc}
use tsp_simple.Text.{
  Text, Arg, str, int, bytes, decimal_from, decimal, convert, format, sprintf, strcpy,
}

-- The arguments are of the kinds that the format asks for.
unfoldable pub matches : Bool → Text → List Arg → Bool
matches pending [] args = true
matches false (c ∷ f) args = elim (c == b'%') [
  | true ↦ matches true f args
  | false ↦ matches false f args
]
matches true (c ∷ f) [] = false
matches true (c ∷ f) (str t ∷ args) = (c == b's') && matches false f args
matches true (c ∷ f) (int i ∷ args) = (c == b'd') && matches false f args

-- How long the arguments are together; a number has at most twenty digits and a sign.
abbrev pub width : List Arg → ℕ
width [] = 0
width (str t ∷ args) = length t + width args
width (int i ∷ args) = 21 + width args

length-decimal_from : (fuel n : ℕ) → length (decimal_from fuel n) ≤ fuel
unfolding decimal_from
length-decimal_from zero n = omega arith
length-decimal_from (suc fuel) n = ground (
  arith,
  length-decimal_from fuel (n / 10),
  length-append (decimal_from fuel (n / 10)) ((48 + n % 10) ∷ []),
)

length-decimal : (i : ℤ) → length (decimal i) ≤ 21
unfolding decimal
length-decimal (pos n) = omega (arith, length-decimal_from 20 n)
length-decimal (negsuc n) = omega (arith, length-decimal_from 20 (suc n))

Printed : Bool → Text → List Arg → Type 0
Printed pending f args =
    (t : Text) × (format pending f args ≡ some t) × (length t ≤ length f + width args)

format-Printed :
    (pending : Bool) (f : Text) (args : List Arg)
    → matches pending f args ≡ true
    → Printed pending f args
unfolding format convert matches Printed
format-Printed pending [] args h = ([], refl, omega arith)
format-Printed false (c ∷ f) args h = elim (Bool-cases (c == b'%')) [
  | inl percent ↦
      let (t, printed, short) = format-Printed true f args (rw (percent, matches) at h) in
      (t, rw (percent, format) printed, omega arith)
  | inr other ↦
      let (t, printed, short) = format-Printed false f args (rw (other, matches) at h) in
      (c ∷ t, rw (other, format) (rw printed refl), omega arith)
]
format-Printed true (c ∷ f) [] h = cc
format-Printed true (c ∷ f) (str t ∷ args) h = elim (Bool-cases (c == b's')) [
  | inl text ↦
      let (u, printed, short) = format-Printed false f args (rw (text, matches) at h) in
      (t ++ u, rw (text, format, convert) (rw printed refl), omega (arith, length-append t u))
  | inr other ↦ let no : false ≡ true = rw (other, matches) at h in cc
]
format-Printed true (c ∷ f) (int i ∷ args) h = elim (Bool-cases (c == b'd')) [
  | inl number ↦
      let (u, printed, short) = format-Printed false f args (rw (number, matches) at h) in
      (
        decimal i ++ u,
        rw (number, format, convert) (rw printed refl),
        omega (arith, length-append (decimal i) u, length-decimal i),
      )
  | inr other ↦ let no : false ≡ true = rw (other, matches) at h in cc
]

-- A text is printed without overflow, when the arguments are of the kinds that the format asks for
-- and the buffer has room for it.
pub sprintf-fits :
    (size : ℕ) (f : String) (args : List Arg)
    → matches false (bytes f) args ≡ true
    → length (bytes f) + width args < size
    → (sql : Text) × (sprintf size f args ≡ some sql)
unfolding sprintf strcpy Printed
sprintf-fits size f args h room =
    let (t, printed, short) = format-Printed false (bytes f) args h in
    let fits : ltb (length t) size ≡ true = ground arith in (t, rw printed (rw fits refl))
