-- ===== src/View/Reaches.antt =====
-- When an action (View/Monad) that changes its state comes to its end, and in which state.
use tsp_simple.Base.{
  ℕ, zero, suc, ◌+◌, ◌≡◌, refl, ap, ◌∙◌, Bool, true, false, Option, some, if◌then◌else◌, ◌<◌, arith,
}
use tsp_simple.External.{Floats, Mysql, Engine}
use tsp_simple.View.{View, Exit, done, Action, ◌>>=◌, follow, pure, get, need}
use tsp_simple.View.Ends.{Ends, Given}
use tsp_simple.View.Load.{count_up}

-- From a state with `before` the action comes to its end, in a state with `after`.
pub record Reaches {S A : Type 0} (before : S → Type 0) (m : Action S A) (after : A → S → Type 0)
    : Type 0 where
  pub run : (s : S) → before s → (a : A) × (t : S) × (m s ≡ (done a, t)) × after a t

module _ {S : Type 0} {before : S → Type 0} where
  pub Reaches-pure :
      {A : Type 0} {after : A → S → Type 0} (a : A)
      → ((s : S) → before s → after a s)
      → Reaches before (pure a) after
  Reaches-pure a h = record { run = λ s b. (a, s, refl, h s b) }

  pub Reaches-then :
      {A B : Type 0} {between : A → S → Type 0} {after : B → S → Type 0} {m : Action S A}
      {f : A → Action S B}
      → Reaches before m between
      → ((a : A) → Reaches (between a) (f a) after)
      → Reaches before (m >>= f) after
  Reaches-then {A} {f} first next = record {
    run = λ s h.
        let (a, t, ran, b) = first.run s h in
        let (c, u, later, k) = (next a).run t b in
        (c, u, ap (λ (r : Exit A × S). follow r.0 f r.1) ran ∙ later, k);
  }

  -- Behind an action that leaves the state as it is described.
  pub Reaches-behind :
      {A B : Type 0} {J : A → Type 0} {after : B → S → Type 0} {m : Action S A} {f : A → Action S B}
      → Ends before m J
      → ((a : A) → J a → Reaches before (f a) after)
      → Reaches before (m >>= f) after
  Reaches-behind {A} {f} first next = record {
    run = λ s h.
        let (a, t, ran, b, j) = first.run s h in
        let (c, u, later, k) = (next a j).run t b in
        (c, u, ap (λ (r : Exit A × S). follow r.0 f r.1) ran ∙ later, k);
  }

  pub Reaches-get :
      {B : Type 0} {after : B → S → Type 0} (f : S → Action S B)
      → ((v : S) → before v → Reaches before (f v) after)
      → Reaches before (get >>= f) after
  Reaches-get f next = record { run = λ s h. (next s h).run s h }

  -- A change that is computed from the state in which it is made.
  pub Reaches-at :
      {B : Type 0} {after : B → S → Type 0} (f : S → Action S B)
      → ((v : S) → before v → (b : B) × (t : S) × (f v v ≡ (done b, t)) × after b t)
      → Reaches before (get >>= f) after
  Reaches-at f next = record { run = λ s h. next s h }

  pub Reaches-change :
      {A B : Type 0} {between : A → S → Type 0} {after : B → S → Type 0} (f : S → Action S A)
      (g : A → Action S B)
      → ((v : S) → before v → (a : A) × (t : S) × (f v v ≡ (done a, t)) × between a t)
      → ((a : A) → Reaches (between a) (g a) after)
      → Reaches before (get >>= λ v. f v >>= g) after
  Reaches-change {A} f g change next = record {
    run = λ s h.
        let (a, t, ran, b) = change s h in
        let (c, u, later, k) = (next a).run t b in
        (c, u, ap (λ (r : Exit A × S). follow r.0 g r.1) ran ∙ later, k);
  }

  pub Reaches-if :
      {A : Type 0} {after : A → S → Type 0} (b : Bool) {m m' : Action S A}
      → (b ≡ true → Reaches before m after)
      → (b ≡ false → Reaches before m' after)
      → Reaches before (if b then m else m') after
  Reaches-if true one other = one refl
  Reaches-if false one other = other refl

  pub Reaches-need :
      {A B : Type 0} {after : B → S → Type 0} {P : A → Type 0} (o : Option A) (f : A → Action S B)
      → Given o P
      → ((a : A) → o ≡ some a → P a → Reaches before (f a) after)
      → Reaches before (need o >>= f) after
  Reaches-need o f h next = rw (h.there) (next h.value h.there h.good)

-- A loop whose rounds go from one state to the next.
pub Reaches-count_up :
    {F : Floats} {D : Mysql} {G : Engine F} (I : ℕ → View F D G → Type 0)
    (body : ℕ → Action (View F D G) (Unit {0})) (end : ℕ)
    → ((i : ℕ) → i < end → Reaches (I i) (body i) (λ a. I (i + 1)))
    → (rounds from : ℕ) → from + rounds ≡ end
    → Reaches (I from) (count_up rounds from body) (λ a. I end)
unfolding count_up
Reaches-count_up I body end step zero from e =
    let same : from ≡ end = omega arith in Reaches-pure tt (λ s h. rw same at h)
Reaches-count_up I body end step (suc rounds) from e =
    Reaches-then (step from (omega arith))
      λ a. Reaches-count_up I body end step rounds (from + 1) (omega arith)
