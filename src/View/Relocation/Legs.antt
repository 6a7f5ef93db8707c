-- ===== src/View/Relocation/Legs.antt =====
-- Step 4 (TSP/TspView.cpp) and the closed tour: turning it keeps its legs.
use mathlib.Core.List.{append-nil}
use mathlib.Core.Quot
use mathlib.Core.Quot.{Quot}
use native.Mathlib.Nat.{ℕ_set}
use tsp_simple.Base.{
  ℕ, ◌+◌, ◌==◌, ◌&&◌, if◌then◌else◌, arith, ◌≡◌, refl, sym, ap, ◌∙◌, Option, some, List, [], ◌∷◌,
  ◌++◌,
}
use tsp_simple.Chromosome.Fitness.{legs_to, tour_legs}
use tsp_simple.City.{City}
use tsp_simple.City.Walk.{Allocated}
use tsp_simple.External.{Floats}
use tsp_simple.View.Relocation.{relocate}
use tsp_simple.View.Relocation.Rotation.{relocate_lem}

-- The legs of a path through a city in its middle.
legs_to-append :
    (home x y : ℕ) (p s : List ℕ)
    → legs_to home ((x ∷ p) ++ (y ∷ s)) ≡ legs_to y (x ∷ p) ++ legs_to home (y ∷ s)
legs_to-append home x y [] s = refl
legs_to-append home x y (z ∷ p) s = ap (λ l. (x, z) ∷ l) (legs_to-append home z y p s)

-- How often a leg is among legs.
abbrev pub count_leg : ℕ × ℕ → List (ℕ × ℕ) → ℕ
count_leg l [] = 0
count_leg (a, b) ((x, y) ∷ legs) = (if x == a && y == b then 1 else 0) + count_leg (a, b) legs

count_leg-append :
    (l : ℕ × ℕ) (xs ys : List (ℕ × ℕ)) → count_leg l (xs ++ ys) ≡ count_leg l xs + count_leg l ys
count_leg-append l [] ys = omega arith
count_leg-append l ((x, y) ∷ xs) ys = omega (arith, count_leg-append l xs ys)

-- A closed tour is a list of cities that forgets where it begins.
abbrev IsTurn : List ℕ → List ℕ → Type 0
IsTurn a b = (p : List ℕ) × (s : List ℕ) × (a ≡ s ++ p) × (b ≡ p ++ s)

abbrev pub ClosedTour : Type 0
ClosedTour = Quot IsTurn

abbrev pub closed : List ℕ → ClosedTour
closed c = Quot.mk c

count_leg-turned :
    (l : ℕ × ℕ) (p s : List ℕ) → count_leg l (tour_legs (s ++ p)) ≡ count_leg l (tour_legs (p ++ s))
count_leg-turned l [] s = ap (λ c. count_leg l (tour_legs c)) (append-nil s)
count_leg-turned l (x ∷ p) [] = ap (λ c. count_leg l (tour_legs c)) (sym (append-nil (x ∷ p)))
count_leg-turned l (x ∷ p) (y ∷ s) =
    let first = count_leg-append l (legs_to x (y ∷ s)) (legs_to y (x ∷ p)) in
    let second = count_leg-append l (legs_to y (x ∷ p)) (legs_to x (y ∷ s)) in
    ap (count_leg l) (legs_to-append y y x s p)
    ∙ first
    ∙ omega arith
    ∙ sym second
    ∙ ap (count_leg l) (sym (legs_to-append x x y p s))

-- How often the closed tour takes a leg: the beginning of the list does not matter.
pub drives : ℕ × ℕ → ClosedTour → ℕ
drives l =
    Quot.lift ℕ_set (λ c. count_leg l (tour_legs c))
      (λ a b (p, s, is_a, is_b).
        ap (λ c. count_leg l (tour_legs c)) is_a
        ∙ count_leg-turned l p s
        ∙ ap (λ c. count_leg l (tour_legs c)) (sym is_b))

-- The route of step 4 and the best chromosome are the same closed tour, so that the route takes
-- each leg from one city to the next, and back to the first, as often as the chromosome. The cities
-- must not have been deleted.
pub relocate-ClosedTour :
    {F : Floats} (heap : List (Option (City F))) (best : List ℕ)
    → Allocated heap best
    → (route : List ℕ) × (relocate heap best ≡ some route)
      × (closed route ≡ closed best)
      × ((l : ℕ × ℕ) → drives l (closed route) ≡ count_leg l (tour_legs best))
unfolding drives
relocate-ClosedTour heap best all =
    let (p, s, cut, run, depot) = relocate_lem heap best all in
    let same : closed (s ++ p) ≡ closed best = Quot.sound (p, s, refl, cut) in
    (s ++ p, run, same, λ l. ap (drives l) same)
