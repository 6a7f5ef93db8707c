-- ===== src/Text/Laws.antt =====
-- Laws of the conversions between narrow and wide text, and of copies into buffers.
use tsp_simple.Base.{ℕ, ◌<◌, ◌≡◌, refl, some, [], ◌∷◌, length, arith}
use tsp_simple.Text.{Text, widen, narrow, to_wide, to_narrow, strcpy}

-- Each unit is a byte.
abbrev pub IsBytes : Text → Type 0
IsBytes [] = Unit {0}
IsBytes (c ∷ t) = (c < 256) × IsBytes t

narrow-widen : (b : ℕ) → b < 256 → narrow (widen b) ≡ b
unfolding narrow widen
narrow-widen b h = ground arith

pub to_narrow-to_wide : (t : Text) → IsBytes t → to_narrow (to_wide t) ≡ t
unfolding to_narrow to_wide
to_narrow-to_wide [] h = refl
to_narrow-to_wide (c ∷ t) h = cc (narrow-widen c h.0, to_narrow-to_wide t h.1)

pub strcpy-eq_some :
    (size : ℕ) (t : Text) {u : Text} → strcpy size t ≡ some u → (u ≡ t) × (length t < size)
unfolding strcpy
strcpy-eq_some size t h = ground arith
