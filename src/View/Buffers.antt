-- ===== src/View/Buffers.antt =====
-- The buffers of TSP/TspView.cpp: texts that fit into an array, and statements into theirs.
use Prim.Native.String.{String}
use tsp_simple.Base.{ℕ, ◌<◌, ◌≡◌, refl, some, List, [], length, arith}
use tsp_simple.Text.{Text, Arg, sprintf}
use tsp_simple.Text.Formats.{matches, sprintf-fits}
use tsp_simple.View.{Parameters}

abbrev pub Fits : ℕ → Text → Type 0
Fits size t = length t < size

-- The arguments of the program fit into the arrays that `main` copies them to.
pub record FitsParameters (p : Parameters) : Type 0 where
  pub delivery_date : length p.delivery_date < 64
  pub meridiem_type : length p.meridiem_type < 64
  pub meridiem_flag : length p.meridiem_flag < 64
  pub location_id : length p.location_id < 64
  pub vehicle_no : length p.vehicle_no < 64

abbrev pub Prints : ℕ → String → List Arg → Type 0
Prints size f args = (sql : Text) × (sprintf size f args ≡ some sql)

pub names-Prints : Prints 512 "set names euckr" []
unfolding matches
names-Prints = sprintf-fits 512 "set names euckr" [] refl (omega arith)
