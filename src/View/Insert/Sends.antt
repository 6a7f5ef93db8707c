-- ===== src/View/Insert/Sends.antt =====
-- What a step of TSP/TspView.cpp that only reads its view sends to the server: the statements
-- behind those that were sent before it.
use Prim.Native.String.{String}
use mathlib.Core.List.{append-nil, append_assoc}
use tsp_simple.Base.{
  ℕ, ◌≡◌, refl, sym, ap, ◌∙◌, Bool, true, false, Option, none, some, List, [], ◌∷◌, ◌++◌,
  if◌then◌else◌,
}
use tsp_simple.Text.{Text, Arg, sprintf}
use tsp_simple.City.{ChromosomeCopy}
use tsp_simple.External.{Floats, Mysql, Engine, Row}
use tsp_simple.View.{
  View, Parameters, Exit, done, leave, fault, follow, Action, ◌>>=◌, pure, get, need, connect,
  query, query_text,
}
use tsp_simple.View.Runs.{Meets, Meets-unless, Meets-reply}

-- One statement, whose text was printed.
abbrev pub Printed : ℕ → String → List Arg → List Text → Type 0
Printed size f args log = (sql : Text) × (sprintf size f args ≡ some sql) × (log ≡ sql ∷ [])

Meets-map :
    {S A : Type 0} (P Q : A → S → Type 0)
    → ((a : A) (t : S) → P a t → Q a t)
    → (r : Exit A × S) → Meets P r
    → Meets Q r
unfolding Meets
Meets-map P Q all (done a, t) h = all a t h
Meets-map P Q all (leave code, t) h = tt
Meets-map P Q all (fault, t) h = tt

module _ {F : Floats} {D : Mysql} {G : Engine F} where
  -- `t` is `s` after it has sent the statements `log` in the order of the list.
  pub record HasSent (log : List Text) (s t : View F D G) : Type 0 where
    pub sent : t.statements ≡ s.statements ++ log
    pub parameters : t.parameters ≡ s.parameters
    pub route : t.best_chromosome_copy ≡ s.best_chromosome_copy

  HasSent-none : (s : View F D G) → HasSent [] s s
  HasSent-none s = record { sent = sym (append-nil s.statements); parameters = refl; route = refl }

  HasSent-trans :
      (xs ys : List Text) (s t u : View F D G)
      → HasSent xs s t
      → HasSent ys t u
      → HasSent (xs ++ ys) s u
  HasSent-trans xs ys s t u a b = record {
    sent = b.sent ∙ ap (λ l. l ++ ys) a.sent ∙ append_assoc s.statements xs ys;
    parameters = b.parameters ∙ a.parameters;
    route = b.route ∙ a.route;
  }

  -- From a view with the parameters and the route, the action comes to its end having sent
  -- statements with `L`, if it comes to its end.
  pub record Sends {A : Type 0} (p : Parameters) (route : List (ChromosomeCopy F))
      (m : Action (View F D G) A) (L : A → List Text → Type 0) : Type 0 where
    pub run :
        (s : View F D G)
        → s.parameters ≡ p
        → s.best_chromosome_copy ≡ route
        → Meets (λ a t. (log : List Text) × HasSent log s t × L a log) (m s)

module _ {F : Floats} {D : Mysql} {G : Engine F} {p : Parameters}
    {route : List (ChromosomeCopy F)} where
  pub Sends-pure :
      {A : Type 0} {L : A → List Text → Type 0} (a : A)
      → L a []
      → Sends {D = D} {G = G} p route (pure a) L
  unfolding Meets
  Sends-pure a l = record { run = λ s e r. ([], HasSent-none s, l) }

  Meets-then :
      {A B : Type 0} (J : A → List Text → Type 0) (K : B → List Text → Type 0)
      (f : A → Action (View F D G) B)
      → ((a : A) (xs : List Text) → J a xs → Sends p route (f a) (λ b ys. K b (xs ++ ys)))
      → (s : View F D G) (r : Exit A) (t : View F D G) → s.parameters ≡ p
      → s.best_chromosome_copy ≡ route
      → Meets (λ a t. (log : List Text) × HasSent log s t × J a log) (r, t)
      → Meets (λ b u. (log : List Text) × HasSent log s u × K b log) (follow r f t)
  unfolding Meets
  Meets-then J K f next s (done a) t e r (xs, sent, j) =
      Meets-map (λ b u. (ys : List Text) × HasSent ys t u × K b (xs ++ ys))
        (λ b u. (log : List Text) × HasSent log s u × K b log)
        (λ b u (ys, more, k). (xs ++ ys, HasSent-trans xs ys s t u sent more, k)) (f a t)
        ((next a xs j).run t (sent.parameters ∙ e) (sent.route ∙ r))
  Meets-then J K f next s (leave code) t e r m = tt
  Meets-then J K f next s fault t e r m = tt

  pub Sends-then :
      {A B : Type 0} {J : A → List Text → Type 0} {K : B → List Text → Type 0}
      {m : Action (View F D G) A} {f : A → Action (View F D G) B}
      → Sends p route m J
      → ((a : A) (xs : List Text) → J a xs → Sends p route (f a) (λ b ys. K b (xs ++ ys)))
      → Sends p route (m >>= f) K
  Sends-then {J} {K} {m} {f} first next = record {
    run = λ s e r. Meets-then J K f next s (m s).0 (m s).1 e r (first.run s e r);
  }

  -- A value that is undefined ends the action.
  pub Sends-need :
      {A B : Type 0} {K : B → List Text → Type 0} (o : Option A) (f : A → Action (View F D G) B)
      → ((a : A) → o ≡ some a → Sends p route (f a) K)
      → Sends p route (need o >>= f) K
  unfolding Meets
  Sends-need none f next = record { run = λ s e r. tt }
  Sends-need (some a) f next = record { run = λ s e r. (next a refl).run s e r }

  -- What is read from the view are its parameters and its route.
  pub Sends-get :
      {B : Type 0} {K : B → List Text → Type 0} (f : View F D G → Action (View F D G) B)
      → ((v : View F D G)
          → v.parameters ≡ p
          → v.best_chromosome_copy ≡ route
          → Sends p route (f v) K)
      → Sends p route (get >>= f) K
  Sends-get f next = record { run = λ s e r. (next s e r).run s e r }

  pub Sends-if :
      {A : Type 0} {K : A → List Text → Type 0} (b : Bool) {m m' : Action (View F D G) A}
      → (b ≡ true → Sends p route m K)
      → (b ≡ false → Sends p route m' K)
      → Sends p route (if b then m else m') K
  Sends-if true one other = one refl
  Sends-if false one other = other refl

  connect-Sends : (code : ℕ) → Sends {D = D} {G = G} p route (connect code) (λ a log. log ≡ [])
  unfolding connect
  connect-Sends code = record {
    run = λ s e r.
        Meets-unless (λ t. (log : List Text) × HasSent log s t × (log ≡ [])) (D.connect s.server)
          code s ([], HasSent-none s, refl);
  }

  query-Sends :
      (code size : ℕ) (f : String) (args : List Arg) (sql : Text)
      → sprintf size f args ≡ some sql
      → Sends {D = D} {G = G} p route (query code sql) (λ found log. Printed size f args log)
  unfolding query
  query-Sends code size f args sql printed = record {
    run = λ s e r.
        let (reply, server) = D.query sql s.server in
        Meets-reply (λ t. (log : List Text) × HasSent log s t × Printed size f args log) reply code
          (record s { server = server; statements = s.statements ++ sql ∷ [] })
          (sql ∷ [], record { sent = refl; parameters = refl; route = refl }, (sql, printed, refl));
  }

  -- A connection sends no statement.
  pub Sends-connect :
      {B : Type 0} {K : B → List Text → Type 0} (code : ℕ) (m : Action (View F D G) B)
      → Sends p route m K
      → Sends p route (connect code >>= λ _. m) K
  Sends-connect code m next = Sends-then (connect-Sends code) (λ a xs none. rw none next)

  query_text-Sends :
      (code size : ℕ) (f : String) (args : List Arg)
      → Sends {D = D} {G = G} p route
          (query_text code size f args)
          (λ found log. Printed size f args log)
  unfolding query_text
  query_text-Sends code size f args =
      Sends-need (sprintf size f args) _ (query-Sends code size f args)

  -- A query sends its text, whatever the reply is.
  pub Sends-query_text :
      {B : Type 0} {K : B → List Text → Type 0} (code size : ℕ) (f : String) (args : List Arg)
      (g : List Row → Action (View F D G) B)
      → ((sql : Text) (found : List Row)
          → sprintf size f args ≡ some sql
          → Sends p route (g found) (λ b ys. K b (sql ∷ ys)))
      → Sends p route (query_text code size f args >>= g) K
  Sends-query_text code size f args g next =
      Sends-then (query_text-Sends code size f args)
        (λ found xs (sql, printed, one). rw one (next sql found printed))
