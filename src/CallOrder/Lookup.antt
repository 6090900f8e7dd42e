-- ===== src/CallOrder/Lookup.antt =====
-- call_graph.rs (`CallOrder`): the order with the place of each function in it. Places of functions are
-- looked up by the function reference.
use wasm_gpu.Prelude.{
  ℕ, zero, suc, ◌+◌, ◌≡◌, refl, sym, ap, subst, ◌∙◌, Bool, true, false, ltb, ◌==◌, ==_iff,
  Bool-cases, Option-cases, inl, inr, ◌⊎◌, List, [], ◌∷◌, get_elem?, All, Option, none, some,
  if◌then◌else◌, arith,
}
use wasm_gpu.CallOrder.{Distinct}

-- A function reference by its number, as `lookup` holds it with the place in the order.
pub record CallOrder : Type 0 where
  pub order : List ℕ
  pub lookup : List (ℕ × ℕ)

-- `enumerate` from a place on, in the order in which the pairs are inserted.
unfoldable pub enumerate : ℕ → List ℕ → List (ℕ × ℕ)
enumerate i [] = []
enumerate i (ptr ∷ ptrs) = (ptr, i) ∷ enumerate (suc i) ptrs

unfoldable pub new : List ℕ → CallOrder
unfolding enumerate
new order = record { order = order; lookup = enumerate 0 order }

-- `lookup.get`: of several insertions under one key the last one counts.
unfoldable pub get : List (ℕ × ℕ) → ℕ → Option ℕ
get [] f = none
get ((ptr, i) ∷ lookup) f = elim (get lookup f) [
  | some j ↦ some j
  | none ↦ if ptr == f then some i else none
]

-- `<` of options: `None` is the least.
unfoldable pub option_ltb : Option ℕ → Option ℕ → Bool
option_ltb none none = false
option_ltb none (some j) = true
option_ltb (some i) none = false
option_ltb (some i) (some j) = ltb i j

unfoldable pub can_f1_call_f2 : CallOrder → ℕ → ℕ → Bool
unfolding get option_ltb
can_f1_call_f2 self f1 f2 = option_ltb (get self.lookup f1) (get self.lookup f2)

get-absent :
    (i : ℕ) (order : List ℕ) (f : ℕ) → All (λ y. f ≡ y → ⊥) order → get (enumerate i order) f ≡ none
unfolding get enumerate
get-absent i [] f h = refl
get-absent i (x ∷ order) f h =
    let other : (x == f) ≡ false = ground (arith, h.0) in
    rw (get-absent (suc i) order f h.1, other) refl

get-enumerate :
    (i : ℕ) (order : List ℕ) (j : ℕ) {f : ℕ}
    → Distinct order
    → get_elem? order j ≡ some f
    → get (enumerate i order) f ≡ some (i + j)
unfolding get enumerate
get-enumerate i [] j h e = cc
get-enumerate i (x ∷ order) zero {f} h e =
    let same : x ≡ f = cc in
    let absent = get-absent (suc i) order f (subst (λ z. All (λ y. z ≡ y → ⊥) order) same h.0) in
    let found : (x == f) ≡ true = ground (arith, same) in rw (absent, found) (ap some (omega arith))
get-enumerate i (x ∷ order) (suc j) {f} h e =
    rw (get-enumerate (suc i) order j h.1 e) (ap some (omega arith))

-- What a step of the lookup found, whatever the rest of the map gives.
get-cons :
    (x i f : ℕ) (lookup : List (ℕ × ℕ)) (k : ℕ)
    → get ((x, i) ∷ lookup) f ≡ some k
    → (get lookup f ≡ some k) ⊎ ((x ≡ f) × (i ≡ k))
unfolding get
get-cons x i f lookup k h = elim (Option-cases (get lookup f)) [
  | inr (j, e) ↦ let found : some j ≡ some k = sym (rw (e, get) refl) ∙ h in inl (e ∙ found)
  | inl e ↦ elim (Bool-cases (x == f)) [
    | inl same ↦
        let found : some i ≡ some k = sym (rw (e, get) (rw same refl)) ∙ h in
        inr ((==_iff x f).0 same, (cc))
    | inr other ↦ let found : none ≡ some k = sym (rw (e, get) (rw other refl)) ∙ h in cc
  ]
]

enumerate-get :
    (i : ℕ) (order : List ℕ) (f k : ℕ)
    → get (enumerate i order) f ≡ some k
    → (j : ℕ) × (k ≡ i + j) × (get_elem? order j ≡ some f)
unfolding get enumerate
enumerate-get i [] f k h = cc
enumerate-get i (x ∷ order) f k h = elim (get-cons x i f (enumerate (suc i) order) k h) [
  | inr (same, here) ↦ (0, omega (arith, here), ap some same)
  | inl e ↦
      let (n, below, found) = enumerate-get (suc i) order f k e in
      (suc n, omega (arith, below), found)
]

-- The invariant that the source asserts: an order without repetition and its lookup are inverse to
-- one another, so that a function may call another exactly if it stands before it.
pub new-inverse :
    (order : List ℕ)
    → Distinct order
    → ((i f : ℕ)
        → (get_elem? order i ≡ some f → get (new order).lookup f ≡ some i)
          × (get (new order).lookup f ≡ some i → get_elem? order i ≡ some f))
      × ((i j f1 f2 : ℕ)
          → get_elem? order i ≡ some f1
          → get_elem? order j ≡ some f2
          → can_f1_call_f2 (new order) f1 f2 ≡ ltb i j)
unfolding new can_f1_call_f2 option_ltb
new-inverse order h = (
  λ i f. (
    λ e. get-enumerate 0 order i h e ∙ ap some (omega arith),
    λ e.
        let (j, same, found) = enumerate-get 0 order f i e in
        subst (λ k. get_elem? order k ≡ some f) (omega (arith, same)) found,
  ),
  λ i j f1 f2 e1 e2. rw (get-enumerate 0 order i h e1, get-enumerate 0 order j h e2) (ground arith),
)
