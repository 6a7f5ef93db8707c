-- ===== src/City/Heap.antt =====
-- The heap of cities: what an allocation and a `delete` leave alone.
use tsp_simple.Base.{
  ℕ, zero, suc, ◌≤◌, ◌≡◌, ◌≢◌, refl, ap, sym, Option, none, some, List, [], ◌∷◌, ◌++◌, length,
  get_elem?, set, arith, get_elem?-lt, get_elem?-append_left, get_elem?-append_length,
  get_elem?-set_ne, get_elem?-set_self,
}
use tsp_simple.External.{Floats}
use tsp_simple.City.{City, deref, delete}

module _ {F : Floats} (heap : List (Option (City F))) where
  deref-eq_some :
      (p : ℕ) {c : City F}
      → deref heap p ≡ some c
      → (k : ℕ) × (p ≡ suc k) × (get_elem? heap k ≡ some (some c))
  unfolding deref
  deref-eq_some zero e = cc
  deref-eq_some (suc k) e = (k, refl, ground arith)

  pub deref_bounds : (p : ℕ) {c : City F} → deref heap p ≡ some c → (1 ≤ p) × (p ≤ length heap)
  deref_bounds p e =
      let (k, is, at) = deref-eq_some p e in (omega arith, omega (arith, get_elem?-lt heap k at))

  pub deref-append :
      (p : ℕ) (more : List (Option (City F))) {c : City F}
      → deref heap p ≡ some c
      → deref (heap ++ more) p ≡ some c
  unfolding deref
  deref-append zero more e = cc
  deref-append (suc k) more {c} e =
      let (j, is, at) = deref-eq_some (suc k) e in
      let same : k ≡ j = omega arith in
      let at' : get_elem? heap k ≡ some (some c) = rw same at in
      rw (get_elem?-append_left heap more k at') refl

  pub deref-append_self : (c : City F) → deref (heap ++ some c ∷ []) (suc (length heap)) ≡ some c
  unfolding deref
  deref-append_self c = rw (get_elem?-append_length heap (some c))

  deref-set_ne : (k q : ℕ) → q ≢ suc k → deref (set heap k none) q ≡ deref heap q
  unfolding deref
  deref-set_ne k zero ne = refl
  deref-set_ne k (suc j) ne = rw (get_elem?-set_ne heap k j none (λ e. ne (ap suc (sym e))))

  -- `delete` of an allocated city frees its cell and no other.
  pub delete_lem :
      (p : ℕ) {c : City F}
      → deref heap p ≡ some c
      → (heap' : List (Option (City F))) × (delete heap p ≡ some heap')
        × (deref heap' p ≡ none)
        × ((q : ℕ) → q ≢ p → deref heap' q ≡ deref heap q)
  unfolding delete deref
  delete_lem zero e = cc
  delete_lem (suc k) e = (
    set heap k none,
    rw e,
    rw (get_elem?-set_self heap k none (omega (arith, (deref_bounds (suc k) e).1))),
    λ q ne. deref-set_ne k q ne,
  )
