-- ===== src/Text.antt =====
-- C strings and the library calls that the program makes on them: sprintf, strcpy, atoi, and the
-- conversions between `char` and `wchar_t` that TSP/TspView.cpp makes with iterators.
-- A `Text` is the bytes before the terminating NUL, a `WText` the units of a `wstring`.
pub mod Laws
pub mod Conversion
pub mod Formats
pub mod Reading
use Prim.Native.String
use Prim.Native.String.{String}
use Prim.Native.Char.{code}
use tsp_simple.Base.{
  ℕ, zero, suc, ◌+◌, ◌-◌, ◌*◌, ◌/◌, ◌%◌, ◌^◌, ◌≡◌, refl, Bool, true, false, ◌&&◌, ◌||◌, Option,
  none, some, List, [], ◌∷◌, ◌++◌, map, ltb, leb, ◌==◌, if◌then◌else◌, length, ◌>>=◌,
}
use tsp_simple.Base.Int.{ℤ, pos, negsuc, sub_ℕ}

abbrev pub Text : Type 0
Text = List ℕ

abbrev pub WText : Type 0
WText = List ℕ

-- The bytes of an ASCII literal.
abbrev pub bytes : String → Text
bytes String.[] = []
bytes (String.◌∷◌ c s) = code c ∷ bytes s

abbrev pub is_empty : Text → Bool
is_empty [] = true
is_empty (c ∷ t) = false

-- `char` is signed: a byte from 128 on becomes a negative `wchar_t` of 32 bits.
unfoldable pub widen : ℕ → ℕ
widen b = if ltb b 128 then b else b + (2 ^ 32 - 256)

unfoldable pub narrow : ℕ → ℕ
narrow w = w % 256

-- `std::wstring(p, p + strlen(p))`
unfoldable pub to_wide : Text → WText
to_wide t = map widen t

-- `str.assign(w.begin(), w.end())`: the conversion from `wchar_t` to `char` keeps the low byte.
unfoldable pub to_narrow : WText → Text
to_narrow w = map narrow w

-- `strcpy` into a `char[size]`. A text that does not fit with its NUL is undefined behaviour.
unfoldable pub strcpy : ℕ → Text → Option Text
strcpy size t = if ltb (length t) size then some t else none

-- The decimal digits of a number, at most `fuel` of them.
unfoldable pub decimal_from : ℕ → ℕ → Text
decimal_from zero n = []
decimal_from (suc fuel) n =
    let higher = decimal_from fuel (n / 10) in
    if ltb n 10 then (48 + n) ∷ [] else higher ++ (48 + n % 10) ∷ []

-- A number below `10 ^ 20` has at most twenty digits; an `int` has at most ten.
unfoldable pub decimal : ℤ → Text
unfolding decimal_from
decimal (pos n) = decimal_from 20 n
decimal (negsuc n) = b'-' ∷ decimal_from 20 (suc n)

pub data Arg : Type 0 where
  str : Text → Arg
  int : ℤ → Arg

-- One conversion of a format: the text for `%s` or `%d`, and the arguments left. A missing
-- argument or another letter is undefined here.
unfoldable pub convert : ℕ → List Arg → Option (Text × List Arg)
convert c [] = none
convert c (str t ∷ args) = if c == b's' then some (t, args) else none
convert c (int i ∷ args) = if c == b'd' then some (decimal i, args) else none

-- The flag is set behind a `%`. Arguments that are left over are ignored, as C does.
unfoldable pub format : Bool → Text → List Arg → Option Text
format pending [] args = some []
format false (c ∷ f) args = elim (c == b'%') [
  | true ↦ format true f args
  | false ↦ format false f args >>= λ t. some (c ∷ t)
]
format true (c ∷ f) args =
    convert c args >>= λ (t, rest). format false f rest >>= λ u. some (t ++ u)

-- `sprintf` into a `char[size]`; overflow is undefined behaviour.
unfoldable pub sprintf : ℕ → String → List Arg → Option Text
unfolding format convert strcpy decimal
sprintf size f args = format false (bytes f) args >>= strcpy size

abbrev is_space : ℕ → Bool
is_space c = c == 32 || (leb 9 c && leb c 13)

abbrev is_digit : ℕ → Bool
is_digit c = leb 48 c && leb c 57

unfoldable pub digits_value : ℕ → Text → ℕ
digits_value acc [] = acc
digits_value acc (c ∷ t) = elim (is_digit c) [
  | true ↦ digits_value (10 * acc + (c - 48)) t
  | false ↦ acc
]

unfoldable pub signed_value : Text → ℤ
unfolding digits_value
signed_value [] = pos 0
signed_value (c ∷ t) =
    if c == b'-'
    then sub_ℕ 0 (digits_value 0 t)
    else if c == b'+'
    then pos (digits_value 0 t)
    else pos (digits_value 0 (c ∷ t))

unfoldable pub skip_spaces : Text → Text
skip_spaces [] = []
skip_spaces (c ∷ t) = elim (is_space c) [ true ↦ skip_spaces t | false ↦ c ∷ t ]

abbrev pub in_int : ℤ → Bool
in_int (pos n) = ltb n (2 ^ 31)
in_int (negsuc n) = ltb n (2 ^ 31)

-- `atoi`; a value outside of `int` is undefined behaviour.
unfoldable pub atoi : Text → Option ℤ
unfolding skip_spaces signed_value
atoi t = let i : ℤ = signed_value (skip_spaces t) in if in_int i then some i else none
