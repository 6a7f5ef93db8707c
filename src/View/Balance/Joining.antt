-- ===== src/View/Balance/Joining.antt =====
-- How a stop joins the current route in step 5 (TSP/TspView.cpp, `OnCalcDeliveryData`).
use tsp_simple.Base.{
  ℕ, zero, suc, ◌+◌, ◌-◌, ◌≤◌, ◌≡◌, refl, sym, ap, ◌∙◌, true, false, Bool, some, List, [], ◌∷◌,
  ◌++◌, map, length-map, inl, inr, length, length-append, get_elem?, arith, Bool-cases, leb, take,
  ◌≢◌, ◌==◌, ==_iff,
}
use tsp_simple.Base.Int.{ℤ, pos, ◌+ℤ◌, ltb_ℤ}
use tsp_simple.View.Load.{assign}
use tsp_simple.View.Balance.{Packs, fills, after_stop}
use tsp_simple.View.Balance.Packing.{
  total_from, total, joined, ends, NotBefore, IsFull, IsWritten, IsPacked, IsWritten-assign,
  total_from-snoc, joined-snoc, map-snoc, ends-snoc, length-ends,
}
use mathlib.Core.List.{append-nil, append_assoc}

pub all-snoc :
    {A : Type 0} (P : A → Type 0) (xs : List A) (x : A)
    → ((k : ℕ) (y : A) → get_elem? xs k ≡ some y → P y)
    → P x
    → (k : ℕ) (y : A) → get_elem? (xs ++ x ∷ []) k ≡ some y
    → P y
all-snoc P [] x all last zero y e = let same : x ≡ y = cc in rw same at last
all-snoc P [] x all last (suc k) y e = cc
all-snoc P (z ∷ xs) x all last zero y e = all zero y e
all-snoc P (z ∷ xs) x all last (suc k) y e = all-snoc P xs x (λ j. all (suc j)) last k y e

-- What the assignments of a stop make of the two arrays, if the route stays open and if it is closed.
writes :
    (avg : ℤ) (flags : List ℕ) (pays seen : List ℤ) (pay : ℤ) (s : Packs) {flags' : List ℕ}
    {pays' : List ℤ} {tmp : ℤ}
    → (was : IsPacked avg flags pays seen s) → tmp ≡ s.tmp +ℤ pay
    → assign s.flags s.index (length seen) ≡ some flags'
    → assign s.pays s.index tmp ≡ some pays'
    → let route = was.current ++ pay ∷ [] in
      (tmp ≡ total route)
      × (IsWritten pays pays' (map total was.groups) route (total route)
          × ((b : ℤ) → IsWritten pays pays' (map total was.groups ++ total route ∷ []) [] b))
      × (IsWritten flags flags' (ends 0 was.groups) route (length seen)
          × ((b : ℕ) → IsWritten flags flags' (ends 0 was.groups ++ length seen ∷ []) [] b))
writes avg flags pays seen pay s was sum flagged paid =
    let tmp_is =
      sum ∙ ap (λ t. t +ℤ pay) was.tmp_is ∙ sym (total_from-snoc (pos 0) was.current pay) in
    let at_pays : s.index ≡ length (map total was.groups) =
      omega (arith, was.index_is, length-map was.groups total) in
    let at_flags : s.index ≡ length (ends 0 was.groups) =
      omega (arith, was.index_is, length-ends 0 was.groups) in
    (
      tmp_is,
      IsWritten-assign (total (was.current ++ pay ∷ [])) pay was.pays_are
          (rw (at_pays, tmp_is) at paid),
      IsWritten-assign (length seen) pay was.flags_are (rw at_flags at flagged),
    )

-- The first stops of a route to which one is added are those that it had.
take-snoc :
    {A : Type 0} (j : ℕ) (xs : List A) (x : A) → j ≤ length xs → take j (xs ++ x ∷ []) ≡ take j xs
take-snoc zero xs x h = refl
take-snoc (suc j) [] x h = absurd (omega arith)
take-snoc (suc j) (y ∷ xs) x h = ap (λ l. y ∷ l) (take-snoc j xs x (omega arith))

take-all : {A : Type 0} (xs : List A) → take (length xs) xs ≡ xs
take-all [] = refl
take-all (x ∷ xs) = ap (λ l. x ∷ l) (take-all xs)

-- A stop is added to a route that stayed below the average.
NotBefore-snoc :
    (avg : ℤ) (current : List ℤ) (pay : ℤ)
    → NotBefore avg (length current + 1) current
    → NotBefore avg (length (current ++ pay ∷ [])) (current ++ pay ∷ [])
NotBefore-snoc avg current pay below j some_of lt =
    let size = length-append current (pay ∷ []) in
    ap (λ l. ltb_ℤ avg (total l)) (take-snoc j current pay (omega (arith, size)))
    ∙ below j some_of (omega (arith, size))

-- It stays below the average with it.
NotBefore-open :
    (avg : ℤ) (current : List ℤ) (pay : ℤ)
    → NotBefore avg (length current + 1) current
    → ltb_ℤ avg (total (current ++ pay ∷ [])) ≡ false
    → NotBefore avg (length (current ++ pay ∷ []) + 1) (current ++ pay ∷ [])
NotBefore-open avg current pay below now j some_of lt =
    elim (Bool-cases (j == length (current ++ pay ∷ []))) [
      | inl last ↦
          let is = (==_iff j (length (current ++ pay ∷ []))).0 last in
          ap (λ n. ltb_ℤ avg (total (take n (current ++ pay ∷ [])))) is
          ∙ ap (λ l. ltb_ℤ avg (total l)) (take-all (current ++ pay ∷ []))
          ∙ now
      | inr sooner ↦
          let apart : j ≢ length (current ++ pay ∷ []) = λ e. cc (sooner, (==_iff j _).1 e) in
          NotBefore-snoc avg current pay below j some_of (omega (arith, apart))
    ]

route-IsFull :
    (avg : ℤ) (current : List ℤ) (pay : ℤ) (inner : ℕ) (tmp : ℤ)
    → inner ≡ length current
    → length current ≤ 10
    → NotBefore avg (length current + 1) current
    → tmp ≡ total (current ++ pay ∷ [])
    → fills avg inner tmp ≡ true
    → IsFull avg (current ++ pay ∷ [])
route-IsFull avg current pay inner tmp inner_is few below tmp_is test =
    let size = length-append current (pay ∷ []) in
    record {
      nonempty = omega (arith, size);
      at_most = omega (arith, size);
      full = elim (Bool-cases (leb 10 inner)) [
        | inl eleven ↦ inl (ground (arith, size))
        | inr fewer ↦ let above : ltb_ℤ avg tmp ≡ true = cc in inr (rw tmp_is at above)
      ];
      not_before = NotBefore-snoc avg current pay below;
    }

-- The two ways in which a stop joins the current route: it fills it, or leaves it open.
pub after_stop-IsPacked :
    (avg : ℤ) (flags : List ℕ) (pays seen : List ℤ) (pay : ℤ) (s : Packs) (full : Bool)
    {flags' : List ℕ} {pays' : List ℤ} {tmp : ℤ}
    → (was : IsPacked avg flags pays seen s) → tmp ≡ s.tmp +ℤ pay
    → assign s.flags s.index (length seen) ≡ some flags'
    → assign s.pays s.index tmp ≡ some pays'
    → fills avg s.inner tmp ≡ full
    → IsPacked avg flags pays (seen ++ pay ∷ []) (after_stop full flags' pays' tmp s)
unfolding total_from
after_stop-IsPacked avg flags pays seen pay s false {flags'} {tmp = tmp} was sum flagged paid test =
    let route = was.current ++ pay ∷ [] in
    let size = length-append was.current (pay ∷ []) in
    let (tmp_is, (pays_open, _), (flags_open, _)) =
      writes avg flags pays seen pay s was sum flagged paid in
    let last : length seen ≡ length (seen ++ pay ∷ []) - 1 =
      omega (arith, length-append seen (pay ∷ [])) in
    record {
      groups = was.groups;
      current = route;
      cut =
          ap (λ l. l ++ pay ∷ []) was.cut ∙ append_assoc (joined was.groups) was.current (pay ∷ []);
      all_full = was.all_full;
      few = ground (arith, size, was.inner_is, test);
      below =
          let under : ltb_ℤ avg tmp ≡ false = ground (arith, test) in
          NotBefore-open avg was.current pay was.below (rw tmp_is at under);
      inner_is = omega (arith, size, was.inner_is);
      tmp_is = tmp_is;
      index_is = was.index_is;
      pays_are = pays_open;
      flags_are = rw last at flags_open;
    }
after_stop-IsPacked avg flags pays seen pay s true {tmp = tmp} was sum flagged paid test =
    let route = was.current ++ pay ∷ [] in
    let size = length-append was.current (pay ∷ []) in
    let (tmp_is, (_, pays_closed), (_, flags_closed)) =
      writes avg flags pays seen pay s was sum flagged paid in
    let last : length seen ≡ 0 + length (joined was.groups) + length route - 1 =
      omega (arith, size, ap length was.cut, length-append (joined was.groups) was.current) in
    record {
      groups = was.groups ++ route ∷ [];
      current = [];
      cut =
          ap (λ l. l ++ pay ∷ []) was.cut
          ∙ append_assoc (joined was.groups) was.current (pay ∷ [])
          ∙ sym (joined-snoc was.groups route)
          ∙ sym (append-nil _);
      all_full =
          all-snoc (IsFull avg) was.groups route was.all_full (
            route-IsFull avg was.current pay s.inner tmp was.inner_is was.few was.below tmp_is
              test);
      few = omega arith;
      below = λ j some_of lt. absurd (omega arith);
      inner_is = refl;
      tmp_is = refl;
      index_is = omega (arith, was.index_is, length-append was.groups (route ∷ []));
      pays_are = rw (map-snoc total was.groups route) (pays_closed _);
      flags_are = rw (ends-snoc 0 was.groups route) (rw last at flags_closed _);
    }
