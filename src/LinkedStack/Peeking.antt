-- ===== src/LinkedStack/Peeking.antt =====
-- wasm-gpu-transpiler/src/linked_stack.rs: the stack is the list of its values, the top first.
use wasm_gpu.Prelude.{
  ℕ, zero, suc, ◌≤◌, ◌≡◌, refl, sym, ◌∙◌, ap, List, [], ◌∷◌, get_elem?, take, arith,
}
use wasm_gpu.LinkedStack.{
  LinkedStack, bottom, above, push, peek, pop, parent, peek_nth, peek_n, next, collect,
}

module _ {ℓ} {A : Type ℓ} where
  abbrev pub values : LinkedStack A → List A
  values (bottom value) = value ∷ []
  values (above value parent) = value ∷ values parent

  -- `peek_nth` finds the value at that depth of the list, and nothing below the bottom; a push
  -- puts its value on top of the list, and a pop gives it back.
  pub peek_nth-values :
      (s : LinkedStack A) (index : ℕ) (value : A)
      → (peek_nth s index ≡ get_elem? (values s) index)
        × (values (push s value) ≡ value ∷ values s)
        × (pop (push s value) ≡ value)
  unfolding push pop peek_nth peek parent
  peek_nth-values s index value = (nth s index, refl, refl)
    where
      nth : (s : LinkedStack A) (index : ℕ) → peek_nth s index ≡ get_elem? (values s) index
      nth (bottom value) zero = refl
      nth (bottom value) (suc index) = refl
      nth (above value below) zero = refl
      nth (above value below) (suc index) = nth below index

  take_nil : (n : ℕ) → take {A = A} n [] ≡ []
  take_nil zero = refl
  take_nil (suc n) = refl

  exhausted : (fuel : ℕ) (s : LinkedStack A) → collect fuel (peek_n s 0) ≡ []
  unfolding collect peek_n next
  exhausted zero s = refl
  exhausted (suc fuel) s = refl

  -- The iterator of `peek_n` ends within as many steps as are asked for, and gives the values from the
  -- top, as many as are asked for or as there are.
  pub collect-peek_n :
      (fuel len : ℕ) (s : LinkedStack A)
      → len ≤ fuel
      → collect fuel (peek_n s len) ≡ take len (values s)
  unfolding collect peek_n next peek parent
  collect-peek_n fuel zero s h = exhausted fuel s
  collect-peek_n zero (suc len) s h = absurd (omega arith)
  collect-peek_n (suc fuel) (suc len) (bottom value) h =
      ap (◌∷◌ value) (exhausted fuel (bottom value) ∙ sym (take_nil len))
  collect-peek_n (suc fuel) (suc len) (above value below) h =
      ap (◌∷◌ value) (collect-peek_n fuel len below (omega arith))
