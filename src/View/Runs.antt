-- ===== src/View/Runs.antt =====
-- How the parts of a step (TSP/TspView.cpp) change the view: conditions before and after an action.
use Prim.Native.String.{String}
use tsp_simple.Text.{Arg, sprintf}
use tsp_simple.Base.{
  ℕ, Bool, if◌then◌else◌, true, false, ◌++◌, if◌then◌else◌, ◌≡◌, refl, sym, Option, none, some,
  List, [], ◌∷◌,
}
use tsp_simple.View.{
  Exit, done, leave, fault, Action, follow, ◌>>=◌, pure, get, need, query, query_text, View, unless,
  connect, return_code,
}
use tsp_simple.External.{Floats, Mysql, Engine, Row, Reply, failed, rows}

-- The result meets `after` if the action came to its end.
unfoldable pub Meets : {S A : Type 0} → (A → S → Type 0) → Exit A × S → Type 0
Meets after (done a, t) = after a t
Meets after (leave code, t) = Unit {0}
Meets after (fault, t) = Unit {0}

-- From a state with `before` the action comes to one with `after`, if it comes to its end.
pub record Leads {S A : Type 0} (before : S → Type 0) (m : Action S A) (after : A → S → Type 0)
    : Type 0 where
  pub run : (s : S) → before s → Meets after (m s)

abbrev pub Keeps : {S A : Type 0} → (S → Type 0) → Action S A → Type 0
Keeps I m = Leads I m (λ a. I)

pub Leads-pure : {S A : Type 0} {J : A → S → Type 0} (a : A) → Leads (J a) (pure a) J
unfolding Meets
Leads-pure a = record { run = λ s h. h }

Meets-follow :
    {S A B : Type 0} (J : A → S → Type 0) (K : B → S → Type 0) (f : A → Action S B)
    → ((a : A) → Leads (J a) (f a) K)
    → (r : Exit A) (s : S) → Meets J (r, s)
    → Meets K (follow r f s)
unfolding Meets
Meets-follow J K f next (done a) s h = (next a).run s h
Meets-follow J K f next (leave code) s h = tt
Meets-follow J K f next fault s h = tt

pub Leads-at :
    {S A : Type 0} {I : S → Type 0} {K : A → S → Type 0} {m : Action S A} {v : S}
    → I v
    → Leads I m K
    → Leads (λ s. s ≡ v) m K
Leads-at {I = I} h leads = record { run = λ s same. leads.run s (rw same h) }

pub Leads-if :
    {S A : Type 0} {I : S → Type 0} {K : A → S → Type 0} (b : Bool) {m m' : Action S A}
    → Leads I m K
    → Leads I m' K
    → Leads I (if b then m else m') K
Leads-if true one other = one
Leads-if false one other = other

Meets-any :
    {S A : Type 0} (K : ℕ → A → S → Type 0) (n : ℕ) (r : Exit A) (s : S)
    → Meets (K n) (r, s)
    → Meets (λ a t. (n : ℕ) × K n a t) (r, s)
unfolding Meets
Meets-any K n (done a) s h = (n, h)
Meets-any K n (leave code) s h = tt
Meets-any K n fault s h = tt

pub Leads-any :
    {S A : Type 0} {I : ℕ → S → Type 0} {K : ℕ → A → S → Type 0} {m : Action S A}
    → ((n : ℕ) → Leads (I n) m (K n))
    → Leads (λ s. (n : ℕ) × I n s) m (λ a t. (n : ℕ) × K n a t)
Leads-any {K = K} {m} each = record {
  run = λ s (n, h). Meets-any K n (m s).0 (m s).1 ((each n).run s h);
}

module _ {S A B : Type 0} {I : S → Type 0} {K : B → S → Type 0} where
  pub Leads-then :
      {J : A → S → Type 0} {m : Action S A} {f : A → Action S B}
      → Leads I m J
      → ((a : A) → Leads (J a) (f a) K)
      → Leads I (m >>= f) K
  Leads-then {J} {m} {f} first next = record {
    run = λ s h. Meets-follow J K f next (m s).0 (m s).1 (first.run s h);
  }

  pub Leads-need :
      (o : Option A) (f : A → Action S B)
      → ((a : A) → o ≡ some a → Leads I (f a) K)
      → Leads I (need o >>= f) K
  unfolding Meets
  Leads-need none f next = record { run = λ s h. tt }
  Leads-need (some a) f next = record { run = λ s h. (next a refl).run s h }

pub Leads-one :
    {S A : Type 0} {I : S → Type 0} {K : ℕ → A → S → Type 0} {m : Action S A} (n : ℕ)
    → Leads I m (K n)
    → Leads I m (λ a t. (n : ℕ) × K n a t)
Leads-one {K = K} {m} n one = record { run = λ s h. Meets-any K n (m s).0 (m s).1 (one.run s h) }

pub Meets-done :
    {S A : Type 0} (K : A → S → Type 0) (r : Exit A × S) (a : A) (t : S)
    → r ≡ (done a, t)
    → Meets K r
    → Meets K (done a, t)
Meets-done K r a t e h = rw (sym e) h

pub need-Keeps : {S A : Type 0} {I : S → Type 0} (o : Option A) → Keeps I (need o)
unfolding Meets
need-Keeps none = record { run = λ s h. tt }
need-Keeps (some a) = record { run = λ s h. h }

-- What is known of the state when it is read.
pub Leads-get :
    {S B : Type 0} {I : S → Type 0} {K : B → S → Type 0} (f : S → Action S B)
    → ((v : S) → I v → Leads (λ s. s ≡ v) (f v) K)
    → Leads I (get >>= f) K
unfolding Meets
Leads-get f next = record { run = λ s h. (next s h).run s refl }

pub Meets-reply :
    {S : Type 0} (I : S → Type 0) (r : Reply) (code : ℕ) (s : S)
    → I s
    → let m : Action S (List Row) = elim r [ failed ↦ return_code code | rows rs ↦ pure rs ] in
      Meets (λ a. I) (m s)
unfolding Meets
Meets-reply I failed code s h = tt
Meets-reply I (rows rs) code s h = h

pub Meets-unless :
    {S : Type 0} (I : S → Type 0) (b : Bool) (code : ℕ) (s : S)
    → I s
    → Meets (λ (a : Unit {0}). I) (unless b code s)
unfolding Meets
Meets-unless I true code s h = h
Meets-unless I false code s h = tt

module _ {F : Floats} {D : Mysql} {G : Engine F} {I : View F D G → Type 0}
    (kept : (v : View F D G) (e : D.Server) (sent : List (List ℕ))
      → I v
      → I (record v { server = e; statements = sent })) where
  pub query-Keeps : (code : ℕ) (sql : List ℕ) → Keeps I (query {F = F} {D = D} {G = G} code sql)
  unfolding query
  query-Keeps code sql = record {
    run = λ v h.
        let (reply, server) = D.query sql v.server in
        Meets-reply I reply code
          (record v { server = server; statements = v.statements ++ sql ∷ [] }) (kept v _ _ h);
  }

  pub query_text-Keeps :
      (code size : ℕ) (f : String) (args : List Arg)
      → Keeps I (query_text {F = F} {D = D} {G = G} code size f args)
  unfolding query_text
  query_text-Keeps code size f args =
      Leads-need (sprintf size f args) _ λ sql _. query-Keeps code sql

module _ {F : Floats} {D : Mysql} {G : Engine F} {I : View F D G → Type 0} where
  pub connect-Keeps : (code : ℕ) → Keeps I (connect {F = F} {D = D} {G = G} code)
  unfolding connect
  connect-Keeps code = record { run = λ v h. Meets-unless I (D.connect v.server) code v h }
