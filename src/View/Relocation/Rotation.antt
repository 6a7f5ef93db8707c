-- ===== src/View/Relocation/Rotation.antt =====
-- What step 4 makes of the best chromosome: a rotation of it that begins at the depot.
use mathlib.Core.List.{append-nil, append_assoc}
use mathlib.Core.Path.{ap₂}
use tsp_simple.Base.{
  ℕ, ◌+◌, ◌-◌, ◌≡◌, refl, sym, ap, ◌∙◌, true, false, Option, some, List, [], ◌∷◌, ◌++◌, ◌==◌, inl,
  inr, ◌⊎◌, get_elem?, set, take, drop, length, length-append, take-append-drop, elem, arith,
  Bool-cases, length-take_of_le, length-drop,
}
use tsp_simple.City.{City, deref}
use tsp_simple.External.{Floats}
use tsp_simple.View.Load.{assign}
use tsp_simple.View.Relocation.{find_first, copy_range, rotate, relocate}

pub get_elem?-middle :
    {A : Type 0} (a r : List A) (x : A) → get_elem? (a ++ x ∷ r) (length a) ≡ some x
get_elem?-middle [] r x = refl
get_elem?-middle (y ∷ a) r x = get_elem?-middle a r x

set-middle : {A : Type 0} (c r : List A) (x y : A) → set (c ++ y ∷ r) (length c) x ≡ c ++ x ∷ r
set-middle [] r x y = refl
set-middle (z ∷ c) r x y = ap (λ l. z ∷ l) (set-middle c r x y)

pub assign-middle :
    {A : Type 0} (c r : List A) (x y : A) → assign (c ++ y ∷ r) (length c) x ≡ some (c ++ x ∷ r)
assign-middle c r x y = ground (arith, length-append c (y ∷ r), set-middle c r x y)

pub shift : {A : Type 0} (a r : List A) (x : A) → a ++ x ∷ r ≡ (a ++ x ∷ []) ++ r
shift a r x = sym (append_assoc a (x ∷ []) r)

length-snoc : {A : Type 0} (a : List A) (x : A) → length a + 1 ≡ length (a ++ x ∷ [])
length-snoc a x = omega (arith, length-append a (x ∷ []))

-- A segment of one list replaces a segment of the same length of the other.
copy_range_lem :
    {A : Type 0} (xs ys a b c d : List A)
    → length xs ≡ length ys
    → copy_range (length xs) (length a) (length c) (a ++ (xs ++ b)) (c ++ (ys ++ d))
      ≡ some (c ++ (xs ++ d))
unfolding copy_range
copy_range_lem [] [] a b c d e = refl
copy_range_lem [] (y ∷ ys) a b c d e = absurd (omega arith)
copy_range_lem (x ∷ xs) [] a b c d e = absurd (omega arith)
copy_range_lem (x ∷ xs) (y ∷ ys) a b c d e =
    rw (get_elem?-middle a (xs ++ b) x, copy_range)
      (rw
        (
          assign-middle c (ys ++ d) x y,
          shift a (xs ++ b) x,
          shift c (ys ++ d) x,
          shift c (xs ++ d) x,
          length-snoc a x,
          length-snoc c x,
        )
        (copy_range_lem xs ys (a ++ x ∷ []) b (c ++ x ∷ []) d (omega arith)))

-- Two segments change places, by the two loops, into a list of the same length.
exchange :
    {A : Type 0} (p s to : List A)
    → length to ≡ length p + length s
    → (half : List A) × (copy_range (length s) (length p) 0 (p ++ s) to ≡ some half)
      × (copy_range (length p) 0 (length s) (p ++ s) half ≡ some (s ++ p))
exchange p s to size =
    let whole = p ++ s in
    let k = length s in
    let ys = take k to in
    let d = drop k to in
    let ys_len : length s ≡ length ys = sym (length-take_of_le k to (omega arith)) in
    let d_len : length p ≡ length d = omega (arith, length-drop k to) in
    (
      s ++ d,
      ap₂ (λ f t. copy_range k (length p) 0 f t) (ap (λ l. p ++ l) (sym (append-nil s)))
            (sym (take-append-drop k to))
          ∙ copy_range_lem s ys p [] [] d ys_len,
      ap (λ l. copy_range (length p) 0 k whole (s ++ l)) (sym (append-nil d))
          ∙ copy_range_lem p d [] s s [] d_len
          ∙ ap (λ l. some (s ++ l)) (append-nil p),
    )

pub rotate_lem :
    {A : Type 0} (p s to : List A)
    → length to ≡ length p + length s
    → rotate (length p) (p ++ s) to ≡ some (s ++ p)
unfolding rotate
rotate_lem p s to size =
    let (half, first, second) = exchange p s to size in
    let len : length (p ++ s) - length p ≡ length s = omega (arith, length-append p s) in
    rw (len, rotate) (rw (first, len) second)

module _ {F : Floats} (heap : List (Option (City F))) where
  abbrev pub IsDepot : ℕ → Type 0
  IsDepot p = (c : City F) × (deref heap p ≡ some c) × (c.id ≡ 1)

  -- The position of the first depot among the cities, or 0 when none is a depot.
  abbrev Found : List ℕ → ℕ → ℕ → Type 0
  Found best i f =
      ((pre : List ℕ) × (q : ℕ) × (rest : List ℕ) × (best ≡ pre ++ q ∷ rest)
        × (f ≡ i + length pre)
        × IsDepot q)
      ⊎ ((f ≡ 0) × ((p : ℕ) → elem p best ≡ true → ¬ IsDepot p))

  Found-cons :
      (p i f : ℕ) (best : List ℕ) → ¬ IsDepot p → Found best (i + 1) f → Found (p ∷ best) i f
  unfolding elem
  Found-cons p i f best not_here (inl (pre, q, rest, e, at, depot)) =
      inl (p ∷ pre, q, rest, ap (λ l. p ∷ l) e, omega arith, depot)
  Found-cons p i f best not_here (inr (e, none_at)) = inr (
    e,
    λ q h depot. elim (Bool-cases (p == q)) [
      | inl same ↦ let here : q ≡ p = ground arith in not_here (rw here at depot)
      | inr other ↦ none_at q (ground arith) depot
    ],
  )

  not-IsDepot : (p : ℕ) (c : City F) → deref heap p ≡ some c → (c.id == 1) ≡ false → ¬ IsDepot p
  not-IsDepot p c at other (d, at', one) =
      let same : c ≡ d = cc in
      let one' : c.id ≡ 1 = ap (λ (x : City F). x.id) same ∙ one in ground arith

  find_first_lem :
      (best : List ℕ) (i : ℕ)
      → ((p : ℕ) → elem p best ≡ true → (c : City F) × (deref heap p ≡ some c))
      → (f : ℕ) × (find_first heap best i ≡ some f) × Found best i f
  unfolding find_first elem
  find_first_lem [] i all = (0, refl, inr (refl, λ p h. cc))
  find_first_lem (p ∷ best) i all =
      let (c, at) = all p (ground arith) in
      let (f, e, found) = find_first_lem best (i + 1) (λ q h. all q (ground arith)) in
      elim (Bool-cases (c.id == 1)) [
        | inl depot ↦ (
          i,
          rw (at, find_first) (rw depot),
          inl ([], p, best, refl, omega arith, (c, at, ground arith)),
        )
        | inr other ↦ (
          f,
          rw (at, find_first) (rw (other, e)),
          Found-cons p i f best (not-IsDepot p c at other) found,
        )
      ]

  relocate_at :
      (p s : List ℕ)
      → find_first heap (p ++ s) 0 ≡ some (length p)
      → relocate heap (p ++ s) ≡ some (s ++ p)
  unfolding relocate
  relocate_at p s found = rw (found, relocate) (rotate_lem p s (p ++ s) (length-append p s))

  -- Step 4 turns the best chromosome: it is cut in two and the parts change places, so that the
  -- route begins with a city with identifier 1 whenever the chromosome has such a city. Nothing is
  -- lost or doubled, and no access leaves an array. The cities must not have been deleted.
  pub relocate_lem :
      (best : List ℕ)
      → ((p : ℕ) → elem p best ≡ true → (c : City F) × (deref heap p ≡ some c))
      → (p : List ℕ) × (s : List ℕ) × (best ≡ p ++ s)
        × (relocate heap best ≡ some (s ++ p))
        × (((q : ℕ) × (rest : List ℕ) × (s ++ p ≡ q ∷ rest) × IsDepot q)
            ⊎ ((q : ℕ) → elem q best ≡ true → ¬ IsDepot q))
  relocate_lem best all =
      let (f, e, found) = find_first_lem best 0 all in
      elim found [
        | inl (pre, q, rest, cut, at, depot) ↦
            let here : f ≡ length pre = omega arith in
            let e' : find_first heap (pre ++ q ∷ rest) 0 ≡ some (length pre) =
              ap (λ l. find_first heap l 0) (sym cut) ∙ e ∙ ap some here in
            (
              pre,
              q ∷ rest,
              cut,
              ap (relocate heap) cut ∙ relocate_at pre (q ∷ rest) e',
              inl (q, rest ++ pre, refl, depot),
            )
        | inr (z, none_at) ↦ ([], best, refl, relocate_at [] best (e ∙ ap some z), inr none_at)
      ]
