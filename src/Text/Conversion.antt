-- ===== src/Text/Conversion.antt =====
-- `Utf8StringToWString`, which TSP/TSP.cpp and TSP/TspView.cpp both define and nothing calls.
use tsp_simple.Base.{
  ℕ, ◌+◌, ◌*◌, ◌/◌, ◌≤◌, ◌≡◌, refl, Option, none, some, [], ◌∷◌, ltb, ◌==◌, if◌then◌else◌, length,
  arith, inl, inr, Option-cases, false,
}
use tsp_simple.Text.{Text, WText}

-- `iconv` with the room that it may fill and the text: the bytes that it wrote, or `none` for -1.
abbrev pub Iconv : Type 0
Iconv = ℕ → Text → Option Text

-- The documentation of `iconv`: it stays within the room it is given.
abbrev pub IsWithin : Iconv → Type 0
IsWithin iconv = (room : ℕ) (t out : Text) → iconv room t ≡ some out → length out ≤ room

-- Bytes read as an array of `wchar_t`, four little-endian bytes each, with zeros behind them.
unfoldable pub units : Text → WText
units [] = []
units (a ∷ []) = a ∷ []
units (a ∷ b ∷ []) = (a + 256 * b) ∷ []
units (a ∷ b ∷ c ∷ []) = (a + 256 * b + 65_536 * c) ∷ []
units (a ∷ b ∷ c ∷ d ∷ rest) = (a + 256 * b + 65_536 * c + 16_777_216 * d) ∷ units rest

-- `wstring(pOut)`: the units in front of the first zero.
unfoldable pub until_nul : WText → WText
until_nul [] = []
until_nul (u ∷ rest) = let others = until_nul rest in if u == 0 then [] else u ∷ others

-- `memcpy` of more than 2,048 bytes leaves the array. The room is `sizeof(pOut) / sizeof(wchar_t)`.
unfoldable pub utf8_string_to_wstring : Iconv → Text → Option WText
unfolding units until_nul
utf8_string_to_wstring iconv t =
    if ltb 2048 (length t)
    then none
    else elim (iconv (2048 * 4 / 4) t) [ none ↦ some [] | some out ↦ some (until_nul (units out)) ]

length-units : (t : Text) → 4 * length (units t) ≤ length t + 3
unfolding units
length-units [] = omega arith
length-units (a ∷ []) = omega arith
length-units (a ∷ b ∷ []) = omega arith
length-units (a ∷ b ∷ c ∷ []) = omega arith
length-units (a ∷ b ∷ c ∷ d ∷ rest) = omega (arith, length-units rest)

length-until_nul : (w : WText) → length (until_nul w) ≤ length w
unfolding until_nul
length-until_nul [] = omega arith
length-until_nul (u ∷ rest) = ground (arith, length-until_nul rest)

-- The conversion of a text of at most 2,048 bytes is defined, but it has at most 512 units: the
-- array for it has 2,048. `iconv` is assumed to stay within the room it is given.
pub utf8_string_to_wstring-bounds :
    (iconv : Iconv) (t : Text)
    → IsWithin iconv
    → length t ≤ 2048
    → (w : WText) × (utf8_string_to_wstring iconv t ≡ some w) × (length w ≤ 512)
unfolding utf8_string_to_wstring
utf8_string_to_wstring-bounds iconv t within fits =
    let small : ltb 2048 (length t) ≡ false = ground arith in
    elim (Option-cases (iconv 2048 t)) [
      | inl refused ↦ ([], rw (small, refused) refl, omega arith)
      | inr (out, e) ↦ (
        until_nul (units out),
        rw (small, e) refl,
        omega (arith, within 2048 t out e, length-units out, length-until_nul (units out)),
      )
    ]
