-- ===== src/Functions/Linking.antt =====
-- wasm-gpu/src/instance/func.rs: registering appends a function, linking replaces what one accesses.
use wasm_gpu.Prelude.{
  ℕ, ◌<◌, ◌≡◌, refl, ap, List, [], ◌∷◌, ◌++◌, length, get_elem?, some, true, ok, ltb, arith,
}
use wasm_gpu.Capability
use wasm_gpu.Functions.{
  FuncData, FuncUnit, FuncAccessible, FuncsInstance, UntypedFuncPtr, empty, set_elem,
  register_definition, link_function_imports, get,
}

module _ {ℓ} {A : Type ℓ} where
  pub get_elem?-append :
      (xs : List A) (y : A) (ys : List A) → get_elem? (xs ++ y ∷ ys) (length xs) ≡ some y
  get_elem?-append [] y ys = refl
  get_elem?-append (x ∷ xs) y ys = get_elem?-append xs y ys

  pub set_elem-append :
      (xs : List A) (y : A) (ys : List A) (f : A → A)
      → set_elem (xs ++ y ∷ ys) (length xs) f ≡ xs ++ f y ∷ ys
  unfolding set_elem
  set_elem-append [] y ys f = refl
  set_elem-append (x ∷ xs) y ys f = ap (◌∷◌ x) (set_elem-append xs y ys f)

module _ {O : Type 0} where
  -- A body as it is registered, and as it is linked.
  abbrev pub linked : FuncAccessible → FuncData O → FuncUnit O
  linked accessible body = record { body = body; accessible = accessible }

  abbrev pub with_functions : FuncsInstance O → List (FuncUnit O) → FuncsInstance O
  with_functions self fs = record self { wasm_functions = fs }

  abbrev pub ptr_at : FuncsInstance O → ℕ → FuncData O → UntypedFuncPtr
  ptr_at self n body = record { ptr = n; cap = Capability.get_cap self.cap_set; ty = body.ty }

  pub register_definition_lem :
      (self : FuncsInstance O) (body : FuncData O) (n : ℕ)
      → n ≡ length self.wasm_functions
      → n < self.capacity
      → register_definition self body
        ≡ ok (
          ptr_at self n body,
          with_functions self (self.wasm_functions ++ linked empty body ∷ []),
        )
  unfolding register_definition
  register_definition_lem self body n e h =
      let room : ltb (length self.wasm_functions) self.capacity ≡ true = ground arith in
      rw (room, e) refl

  pub link_function_imports_lem :
      (self : FuncsInstance O) (before after : List (FuncUnit O)) (u : FuncUnit O)
      (body : FuncData O) (accessible : FuncAccessible) (n : ℕ)
      → n ≡ length before
      → Capability.check self.cap_set (Capability.get_cap self.cap_set) ≡ true
      → link_function_imports
          (with_functions self (before ++ u ∷ after))
          (ptr_at self n body)
          accessible
        ≡ ok (with_functions self (before ++ linked accessible u.body ∷ after))
  unfolding link_function_imports
  link_function_imports_lem self before after u body accessible n e h =
      rw
        (
          h,
          e,
          get_elem?-append before u after,
          set_elem-append before u after (λ v. linked accessible v.body),
        )
        refl

  pub get_lem :
      (self : FuncsInstance O) (before after : List (FuncUnit O)) (u : FuncUnit O)
      (body : FuncData O) (n : ℕ)
      → n ≡ length before
      → Capability.check self.cap_set (Capability.get_cap self.cap_set) ≡ true
      → get (with_functions self (before ++ u ∷ after)) (ptr_at self n body) ≡ ok u
  unfolding get
  get_lem self before after u body n e h = rw (h, e, get_elem?-append before u after) refl
