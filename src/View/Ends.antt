-- ===== src/View/Ends.antt =====
-- When an action (View/Monad) comes to its end: total correctness of the parts of a step of
-- TSP/TspView.cpp, on a server that answers.
use Prim.Native.String.{String}
use tsp_simple.Base.{
  ℕ, ◌≡◌, refl, ap, ◌∙◌, Bool, true, false, Option, some, List, [], ◌∷◌, ◌++◌, if◌then◌else◌,
}
use tsp_simple.Text.{Text, Arg, sprintf}
use tsp_simple.External.{Floats, Mysql, Engine, Row, Reply, failed, rows}
use tsp_simple.View.{
  View, Exit, done, Action, ◌>>=◌, follow, pure, get, need, unless, return_code, connect, query,
  query_text,
}

-- From a state with `inv` the action comes to its end, with a value with `K`, in such a state.
pub record Ends {S A : Type 0} (inv : S → Type 0) (m : Action S A) (K : A → Type 0) : Type 0 where
  pub run : (s : S) → inv s → (a : A) × (t : S) × (m s ≡ (done a, t)) × inv t × K a

-- A value that is defined, with `P`.
pub record Given {A : Type 0} (o : Option A) (P : A → Type 0) : Type 0 where
  pub value : A
  pub there : o ≡ some value
  pub good : P value

module _ {S : Type 0} {inv : S → Type 0} where
  pub Ends-pure : {A : Type 0} {K : A → Type 0} (a : A) → K a → Ends inv (pure a) K
  Ends-pure a k = record { run = λ s h. (a, s, refl, h, k) }

  pub weaken :
      {A : Type 0} {J K : A → Type 0} {m : Action S A}
      → Ends inv m J
      → ((a : A) → J a → K a)
      → Ends inv m K
  weaken ends more = record {
    run = λ s h. let (a, t, ran, kept, j) = ends.run s h in (a, t, ran, kept, more a j);
  }

  pub Ends-then :
      {A B : Type 0} {J : A → Type 0} {K : B → Type 0} {m : Action S A} {f : A → Action S B}
      → Ends inv m J
      → ((a : A) → J a → Ends inv (f a) K)
      → Ends inv (m >>= f) K
  Ends-then {A} {m} {f} first next = record {
    run = λ s h.
        let (a, t, ran, kept, j) = first.run s h in
        let (b, u, later, still, k) = (next a j).run t kept in
        (b, u, ap (λ (r : Exit A × S). follow r.0 f r.1) ran ∙ later, still, k);
  }

  pub Ends-need :
      {A B : Type 0} {K : B → Type 0} {P : A → Type 0} (o : Option A) (f : A → Action S B)
      → Given o P
      → ((a : A) → o ≡ some a → P a → Ends inv (f a) K)
      → Ends inv (need o >>= f) K
  Ends-need o f h next = rw (h.there) (next h.value h.there h.good)

  pub need-Ends : {A : Type 0} {P : A → Type 0} (o : Option A) → Given o P → Ends inv (need o) P
  need-Ends o h = rw (h.there) (Ends-pure h.value h.good)

  pub Ends-get :
      {B : Type 0} {K : B → Type 0} (f : S → Action S B)
      → ((v : S) → inv v → Ends inv (f v) K)
      → Ends inv (get >>= f) K
  Ends-get f next = record { run = λ s h. (next s h).run s h }

  pub Ends-if :
      {A : Type 0} {K : A → Type 0} (b : Bool) {m m' : Action S A}
      → (b ≡ true → Ends inv m K)
      → (b ≡ false → Ends inv m' K)
      → Ends inv (if b then m else m') K
  Ends-if true one other = one refl
  Ends-if false one other = other refl

-- A server that can be connected to and answers each statement that is asked, with rows that keep a
-- promise on the statement. `live` says which states of the server are meant: the asked statements
-- lead from one of them to another.
pub record IsServing (D : Mysql) (live : D.Server → Type 0) (asked : Text → Type 0)
    (promise : Text → List Row → Type 0) : Type 0 where
  pub connects : (s : D.Server) → live s → D.connect s ≡ true
  pub answers :
      (sql : Text) (s : D.Server)
      → asked sql
      → live s
      → (found : List Row) × ((D.query sql s).0 ≡ rows found)
        × promise sql found
        × live (D.query sql s).1

module _ {F : Floats} {D : Mysql} {G : Engine F} {live : D.Server → Type 0} {asked : Text → Type 0}
    {promise : Text → List Row → Type 0} (serving : IsServing D live asked promise)
    {inv : View F D G → Type 0} (is_live : (v : View F D G) → inv v → live v.server)
    (kept : (v : View F D G) (e : D.Server) (sent : List Text)
      → inv v
      → live e
      → inv (record v { server = e; statements = sent })) where
  pub connect-Ends : (code : ℕ) → Ends inv (connect code) (λ a. Unit {0})
  unfolding connect
  connect-Ends code = record {
    run =
        λ s h. (tt, s, ap (λ b. unless b code s) (serving.connects s.server (is_live s h)), h, tt);
  }

  query-Ends : (code : ℕ) (sql : Text) → asked sql → Ends inv (query code sql) (promise sql)
  unfolding query
  query-Ends code sql may = record {
    run = λ s h.
        let (found, answered, good, still) = serving.answers sql s.server may (is_live s h) in
        let t : View F D G = record s {
          server = (D.query sql s.server).1;
          statements = s.statements ++ sql ∷ [];
        } in
        let reply : Reply → Exit (List Row) × View F D G = λ r.
          let act : Action (View F D G) (List Row) = elim r [
            | failed ↦ return_code code
            | rows rs ↦ pure rs
          ] in
          act t in
        (found, t, ap reply answered, kept s _ _ h still, good);
  }

  pub Ends-connect :
      {B : Type 0} {K : B → Type 0} (code : ℕ) (m : Action (View F D G) B)
      → Ends inv m K
      → Ends inv (connect code >>= λ _. m) K
  Ends-connect code m next = Ends-then (connect-Ends code) (λ a j. next)

  -- A query whose text fits into its buffer.
  pub query_text-Ends :
      (code size : ℕ) (f : String) (args : List Arg) (sql : Text)
      → sprintf size f args ≡ some sql
      → asked sql
      → Ends inv (query_text code size f args) (promise sql)
  unfolding query_text
  query_text-Ends code size f args sql printed may =
      Ends-need (sprintf size f args) _ (record { value = sql; there = printed; good = refl })
        (λ t e (same : t ≡ sql). rw same (query-Ends code sql may))

  pub Ends-query_text :
      {B : Type 0} {K : B → Type 0} (code size : ℕ) (f : String) (args : List Arg) (sql : Text)
      (g : List Row → Action (View F D G) B)
      → sprintf size f args ≡ some sql
      → asked sql
      → ((found : List Row) → promise sql found → Ends inv (g found) K)
      → Ends inv (query_text code size f args >>= g) K
  Ends-query_text code size f args sql g printed may next =
      Ends-then (query_text-Ends code size f args sql printed may) next
