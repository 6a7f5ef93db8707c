-- ===== src/View/Balance/Packing.antt =====
-- How a round of step 5 (TSP/TspView.cpp, `OnCalcDeliveryData`) cuts the route into the routes of
-- the vehicles.
use mathlib.Core.List.{append-nil, append_assoc}
use tsp_simple.Base.{
  ℕ, ◌+◌, ◌-◌, ◌≤◌, ◌<◌, ◌≡◌, refl, sym, ap, ◌∙◌, true, false, take, none, some, List, [], ◌∷◌,
  ◌++◌, map, ◌⊎◌, inl, inr, length, length-append, get_elem?, arith,
}
use tsp_simple.Base.Int.{ℤ, pos, ◌+ℤ◌, ltb_ℤ}
use tsp_simple.View.Load.{assign}
use tsp_simple.View.Relocation.Rotation.{assign-middle, shift}
use tsp_simple.View.Balance.{Packs}

unfoldable pub total_from : ℤ → List ℤ → ℤ
total_from acc [] = acc
total_from acc (p ∷ ps) = total_from (acc +ℤ p) ps

-- The sum of the amounts.
abbrev pub total : List ℤ → ℤ
total ps = total_from (pos 0) ps

-- The lists, one behind the other.
unfoldable pub joined : List (List ℤ) → List ℤ
joined [] = []
joined (g ∷ gs) = g ++ joined gs

-- The indices of the last stops of the routes, the first of which begins at the stop `i`.
unfoldable pub ends : ℕ → List (List ℤ) → List ℕ
ends i [] = []
ends i (g ∷ gs) = (i + length g - 1) ∷ ends (i + length g) gs

-- No part of the route from its first stop on that has fewer than `n` stops has an amount above the
-- average.
abbrev pub NotBefore : ℤ → ℕ → List ℤ → Type 0
NotBefore avg n g = (j : ℕ) → 1 ≤ j → j < n → ltb_ℤ avg (total (take j g)) ≡ false

-- A route is closed as soon as it has eleven stops or an amount above the average.
pub record IsFull (avg : ℤ) (g : List ℤ) : Type 0 where
  pub nonempty : 1 ≤ length g
  pub at_most : length g ≤ 11
  pub full : (length g ≡ 11) ⊎ (ltb_ℤ avg (total g) ≡ true)
  pub not_before : NotBefore avg (length g) g

-- The first element is replaced if there is a current route.
abbrev pub mark : {A : Type 0} → List ℤ → A → List A → List A
mark [] a rest = rest
mark (p ∷ ps) a [] = []
mark (p ∷ ps) a (r ∷ rest) = a ∷ rest

-- What the loop has made of one of the arrays: behind the elements of the closed routes comes the
-- one of the current route, if it has a stop, and the rest is as it was before.
pub record IsWritten {A : Type 0} (before now closed : List A) (current : List ℤ) (a : A)
    : Type 0 where
  pub front : List A
  pub rest : List A
  pub cut : before ≡ front ++ rest
  pub size : length front ≡ length closed
  pub written : now ≡ closed ++ mark current a rest
  pub room : (current ≡ []) ⊎ (1 ≤ length rest)

-- The state after the stops `seen`.
pub record IsPacked (avg : ℤ) (flags : List ℕ) (pays : List ℤ) (seen : List ℤ) (s : Packs)
    : Type 0 where
  pub groups : List (List ℤ)
  pub current : List ℤ
  pub cut : seen ≡ joined groups ++ current
  pub all_full : (k : ℕ) (g : List ℤ) → get_elem? groups k ≡ some g → IsFull avg g
  pub few : length current ≤ 10
  pub below : NotBefore avg (length current + 1) current
  pub inner_is : s.inner ≡ length current
  pub tmp_is : s.tmp ≡ total current
  pub index_is : s.index ≡ length groups
  pub pays_are : IsWritten pays s.pays (map total groups) current (total current)
  pub flags_are : IsWritten flags s.flags (ends 0 groups) current (length seen - 1)

pub total_from-snoc :
    (acc : ℤ) (g : List ℤ) (p : ℤ) → total_from acc (g ++ p ∷ []) ≡ total_from acc g +ℤ p
unfolding total_from
total_from-snoc acc [] p = refl
total_from-snoc acc (q ∷ g) p = total_from-snoc (acc +ℤ q) g p

pub joined-snoc : (gs : List (List ℤ)) (g : List ℤ) → joined (gs ++ g ∷ []) ≡ joined gs ++ g
unfolding joined
joined-snoc [] g = append-nil g
joined-snoc (h ∷ gs) g = ap (λ l. h ++ l) (joined-snoc gs g) ∙ sym (append_assoc h (joined gs) g)

pub map-snoc :
    {A B : Type 0} (f : A → B) (xs : List A) (x : A) → map f (xs ++ x ∷ []) ≡ map f xs ++ f x ∷ []
map-snoc f [] x = refl
map-snoc f (y ∷ xs) x = ap (λ l. f y ∷ l) (map-snoc f xs x)

pub ends-snoc :
    (i : ℕ) (gs : List (List ℤ)) (g : List ℤ)
    → ends i (gs ++ g ∷ []) ≡ ends i gs ++ (i + length (joined gs) + length g - 1) ∷ []
unfolding ends joined
ends-snoc i [] g =
    let none_before : i + length g - 1 ≡ i + 0 + length g - 1 = omega arith in
    ap (λ n. n ∷ []) none_before
ends-snoc i (h ∷ gs) g =
    let there : i + length h + length (joined gs) + length g - 1
        ≡ i + length (h ++ joined gs) + length g - 1 =
      omega (arith, length-append h (joined gs)) in
    ap (λ l. (i + length h - 1) ∷ l)
      (ends-snoc (i + length h) gs g ∙ ap (λ n. ends (i + length h) gs ++ n ∷ []) there)

pub length-ends : (i : ℕ) (gs : List (List ℤ)) → length (ends i gs) ≡ length gs
unfolding ends
length-ends i [] = refl
length-ends i (g ∷ gs) = omega (arith, length-ends (i + length g) gs)

-- An assignment that succeeds, to the element behind the closed routes.
mark-cons :
    {A : Type 0} (current : List ℤ) (a r : A) (rest : List A)
    → (y : A) × (mark current a (r ∷ rest) ≡ y ∷ rest)
mark-cons [] a r rest = (r, refl)
mark-cons (p ∷ ps) a r rest = (a, refl)

mark-nil : {A : Type 0} (current : List ℤ) (a : A) → mark current a [] ≡ []
mark-nil [] a = refl
mark-nil (p ∷ ps) a = refl

mark-snoc :
    {A : Type 0} (current : List ℤ) (p : ℤ) (a r : A) (rest : List A)
    → mark (current ++ p ∷ []) a (r ∷ rest) ≡ a ∷ rest
mark-snoc [] p a r rest = refl
mark-snoc (q ∷ current) p a r rest = refl

assign-behind : {A : Type 0} (closed : List A) (x : A) → assign closed (length closed) x ≡ none
assign-behind closed x = ground arith

IsWritten-set :
    {A : Type 0} (front rest closed : List A) (current : List ℤ) (a x : A) (p : ℤ)
    {before now now' : List A}
    → before ≡ front ++ rest
    → length front ≡ length closed
    → now ≡ closed ++ mark current a rest
    → assign now (length closed) x ≡ some now'
    → IsWritten before now' closed (current ++ p ∷ []) x
      × ((b : A) → IsWritten before now' (closed ++ x ∷ []) [] b)
IsWritten-set front [] closed current a x p {now} cut size written e =
    let none_left : now ≡ closed =
      written ∙ ap (λ l. closed ++ l) (mark-nil current a) ∙ append-nil closed in
    let out = assign-behind closed x in let e' = rw none_left at e in cc out
IsWritten-set front (r ∷ rest) closed current a x p {now} {now'} cut size written e =
    let (y, m) = mark-cons current a r rest in
    let was : now ≡ closed ++ y ∷ rest = written ∙ ap (λ l. closed ++ l) m in
    let put = assign-middle closed rest x y in
    let e' = rw was at e in
    let is : now' ≡ closed ++ x ∷ rest = cc put in
    (
      record {
        front = front;
        rest = r ∷ rest;
        cut = cut;
        size = size;
        written = is ∙ ap (λ l. closed ++ l) (sym (mark-snoc current p x r rest));
        room = inr (omega arith);
      },
      λ b. record {
        front = front ++ r ∷ [];
        rest = rest;
        cut = cut ∙ shift front rest r;
        size = omega (arith, length-append front (r ∷ []), length-append closed (x ∷ []));
        written = is ∙ shift closed rest x;
        room = inl refl;
      },
    )

pub IsWritten-assign :
    {A : Type 0} {before now closed now' : List A} {current : List ℤ} {a : A} (x : A) (p : ℤ)
    → IsWritten before now closed current a
    → assign now (length closed) x ≡ some now'
    → IsWritten before now' closed (current ++ p ∷ []) x
      × ((b : A) → IsWritten before now' (closed ++ x ∷ []) [] b)
IsWritten-assign {closed} {current} {a} x p w e =
    IsWritten-set w.front w.rest closed current a x p w.cut w.size w.written e

-- The element of the current route.
pub IsWritten-current :
    {A : Type 0} {before now closed : List A} {p : ℤ} {ps : List ℤ} {a : A}
    → IsWritten before now closed (p ∷ ps) a
    → (rest : List A) × (now ≡ (closed ++ a ∷ []) ++ rest)
IsWritten-current {A} {now = now} {closed} {p} {ps} {a} w = elim w.room [
  | inl nothing ↦ cc
  | inr some_room ↦ go w.rest some_room w.written
]
  where
    go :
        (rest : List A)
        → 1 ≤ length rest
        → now ≡ closed ++ mark (p ∷ ps) a rest
        → (rest' : List A) × (now ≡ (closed ++ a ∷ []) ++ rest')
    go [] none_left e = absurd (omega arith)
    go (r ∷ rest) enough e = (rest, e ∙ shift closed rest a)

get_elem?-behind : {A : Type 0} (xs ys : List A) → get_elem? (xs ++ ys) (length xs) ≡ get_elem? ys 0
get_elem?-behind [] ys = refl
get_elem?-behind (x ∷ xs) ys = get_elem?-behind xs ys

-- Without a current route the element behind the closed ones is as before.
pub IsWritten-untouched :
    {A : Type 0} {before now closed : List A} {a : A}
    → IsWritten before now closed [] a
    → get_elem? now (length closed) ≡ get_elem? before (length closed)
IsWritten-untouched {closed} w =
    let here = get_elem?-behind closed w.rest in
    let there = get_elem?-behind w.front w.rest in
    ap (λ l. get_elem? l (length closed)) w.written
    ∙ here
    ∙ sym there
    ∙ ap (get_elem? (w.front ++ w.rest)) w.size
    ∙ ap (λ l. get_elem? l (length closed)) (sym w.cut)
