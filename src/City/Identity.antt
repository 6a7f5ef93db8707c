-- ===== src/City/Identity.antt =====
-- Cities and their identifiers (TSP/TspCity.cpp): in a valid store one determines the other.
use tsp_simple.Base.{
  ℕ, ◌≡◌, refl, ap, sym, ◌∙◌, true, Option, none, some, List, [], ◌∷◌, elem, arith, ◌==◌,
  Bool-cases, inl, inr, ==_iff, Option-cases, IsDistinct, if◌then◌else◌,
}
use tsp_simple.City.{null, City, Cities, Entries, deref, find_entry, get_city_by_id}
use tsp_simple.City.Lookup.{IsValid, Backed, ids, pointers, find_entry-absent}
use tsp_simple.City.Stock.{city_at}
use tsp_simple.External.{Floats}

find_entry-pointers :
    (id : ℕ) (m : Entries) {p : ℕ} → find_entry id m ≡ some p → elem p (pointers m) ≡ true
unfolding find_entry elem
find_entry-pointers id [] e = cc
find_entry-pointers id ((i, q) ∷ m) {p} e = elim (Bool-cases (i == id)) [
  | inl here ↦
      let at : (if i == id then some q else find_entry id m) ≡ some p = e in
      let this : some q ≡ some p = rw here at at in let same : q ≡ p = cc in ground arith
  | inr later ↦
      let at : (if i == id then some q else find_entry id m) ≡ some p = e in
      let rest : find_entry id m ≡ some p = rw later at at in
      ground (arith, find_entry-pointers id m rest)
]

module _ {F : Floats} where
  -- The entry of a pointer in the walk over the entries: it is the one that its city's identifier
  -- leads to.
  find_entry-id :
      (heap : List (Option (City F))) (last : ℕ) (m : Entries) (q : ℕ) {c : City F}
      → Backed heap last m
      → IsDistinct (ids m)
      → elem q (pointers m) ≡ true
      → deref heap q ≡ some c
      → find_entry c.id m ≡ some q
  unfolding find_entry elem
  find_entry-id heap last [] q b d h e = cc
  find_entry-id heap last ((i, p) ∷ m) q {c} b d h e = elim (Bool-cases (p == q)) [
    | inl same ↦
        let here : p ≡ q = ground arith in
        let (((c', at, id), bound), rest) = b in
        let is : c' ≡ c = cc (at, e, here) in
        let key : i ≡ c.id = sym id ∙ ap (λ (x : City F). x.id) is in
        rw (here, (==_iff i c.id).1 key) refl
    | inr other ↦
        let later = find_entry-id heap last m q b.1 d.1 (ground arith) e in
        elim (Bool-cases (i == c.id)) [
          | inl key ↦
              let is : i ≡ c.id = ground arith in
              cc (find_entry-absent i m d.0, ap (λ j. find_entry j m) is, later)
          | inr differ ↦ rw differ later
        ]
  ]

  -- A city of the store is the one that its identifier finds.
  pub city_at-id :
      (s : Cities F) (q : ℕ) {c d : City F} {id : ℕ}
      → IsValid s
      → elem q (pointers s.entries) ≡ true
      → deref s.heap q ≡ some c
      → c.id ≡ id
      → city_at s id ≡ some d
      → c ≡ d
  unfolding city_at get_city_by_id
  city_at-id s q {c} {d} {id} v h e is found =
      let there = find_entry-id s.heap s.next_id s.entries q v.backed v.distinct_ids h e in
      let there' : find_entry id s.entries ≡ some q =
        ap (λ j. find_entry j s.entries) (sym is) ∙ there in
      let same : deref s.heap q ≡ some d =
        ap (λ o. deref s.heap (elim o [ some p ↦ p | none ↦ null ])) (sym there') ∙ found in
      cc (e, same)

  -- A city that is found has an entry.
  pub city_at-pointers :
      (s : Cities F) (id : ℕ) {d : City F}
      → city_at s id ≡ some d
      → (elem (get_city_by_id id s) (pointers s.entries) ≡ true)
        × (deref s.heap (get_city_by_id id s) ≡ some d)
  unfolding city_at get_city_by_id deref
  city_at-pointers s id {d} found = elim (Option-cases (find_entry id s.entries)) [
    | inl missing ↦
        let gone : deref s.heap null ≡ some d =
          ap (λ o. deref s.heap (elim o [ some p ↦ p | none ↦ null ])) (sym missing) ∙ found in
        cc
    | inr (p, at) ↦
        let is : get_city_by_id id s ≡ p = rw (at, get_city_by_id) refl in
        (rw is (find_entry-pointers id s.entries at), found)
  ]
