-- ===== src/View/Load/Vectors.antt =====
-- An assignment to an element of a vector, and `vector::resize`.
use tsp_simple.Base.{
  ℕ, zero, suc, ◌+◌, ◌-◌, ◌≡◌, ◌≢◌, refl, sym, ap, ◌∙◌, some, List, [], ◌∷◌, ◌++◌, length, take,
  replicate, get_elem?, set, arith, ltb, ◌==◌, ltb→lt, ==_iff, length-set, get_elem?-set_self,
  get_elem?-set_ne, length-append, length-replicate, Bool-cases, ◌⊎◌, inl, inr,
}
use tsp_simple.View.{resize}
use tsp_simple.View.Load.{assign}

pub assign_lem :
    {A : Type 0} (xs : List A) (i : ℕ) (a : A) {ys : List A}
    → assign xs i a ≡ some ys
    → (length ys ≡ length xs)
      × ((j : ℕ) (x : A)
          → get_elem? ys j ≡ some x
          → (x ≡ a) ⊎ ((i ≢ j) × (get_elem? xs j ≡ some x)))
assign_lem xs i a {ys} e = elim (Bool-cases (ltb i (length xs))) [
  | inr out ↦ cc
  | inl within ↦
      let is : ys ≡ set xs i a = cc in
      (
        ap length is ∙ length-set xs i a,
        λ j x at. elim (Bool-cases (i == j)) [
          | inl same ↦
              let here = get_elem?-set_self xs i a (ltb→lt _ _ within) in
              let there : get_elem? (set xs i a) i ≡ some x =
                ap (get_elem? (set xs i a)) ((==_iff i j).0 same)
                ∙ ap (λ l. get_elem? l j) (sym is)
                ∙ at in
              inl cc
          | inr other ↦
              let away : i ≢ j = λ e. cc (other, (==_iff i j).1 e) in
              inr
                (away, sym (get_elem?-set_ne xs i j a away) ∙ ap (λ l. get_elem? l j) (sym is) ∙ at)
        ],
      )
]

take_and_rest : {A : Type 0} (n : ℕ) (xs : List A) → length (take n xs) + (n - length xs) ≡ n
take_and_rest zero xs = omega arith
take_and_rest (suc n) [] = omega arith
take_and_rest (suc n) (x ∷ xs) = omega (arith, take_and_rest n xs)

pub length-resize : {A : Type 0} (n : ℕ) (a : A) (xs : List A) → length (resize n a xs) ≡ n
length-resize n a xs = omega (
  arith,
  length-append (take n xs) (replicate (n - length xs) a),
  length-replicate (n - length xs) a,
  take_and_rest n xs,
)

pub get_elem?-snoc_old :
    {A : Type 0} (xs : List A) (a : A) (j : ℕ) {x : A}
    → get_elem? (xs ++ a ∷ []) j ≡ some x
    → j ≢ length xs
    → get_elem? xs j ≡ some x
get_elem?-snoc_old [] a zero e away = absurd (away refl)
get_elem?-snoc_old [] a (suc j) e away = e
get_elem?-snoc_old (y ∷ xs) a zero e away = e
get_elem?-snoc_old (y ∷ xs) a (suc j) e away =
    get_elem?-snoc_old xs a j e (λ same. away (ap suc same))
