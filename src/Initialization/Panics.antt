-- ===== src/Initialization/Panics.antt =====
-- wasm-gpu/src/module.rs (`try_initialize_globals`): when the assertions on the two halves of the
-- globals hold.
use wasm_gpu.Prelude.{
  Bool-cases, ℕ, ◌≡◌, refl, Bool, true, false, ◌⊎◌, inl, inr, List, [], ◌∷◌, ok, err,
  assertion_failed,
}
use wasm_gpu.Buffers.{LazyBuffers}
use wasm_gpu.Typed.{byte_count}
use wasm_gpu.Globals.{GlobalsBuilder, AbstractGlobalPtr, reserve}
use wasm_gpu.Functions.{UntypedFuncPtr}
use wasm_gpu.Parsing.{Global}
use wasm_gpu.Initialization.Globals.{
  partition, first_or, sizes, halves, space, try_initialize_globals,
}

-- The first half starts with a mutable global unless it is empty, and then the second half starts
-- with an immutable one.
partition-cases :
    (x : Bool × ℕ) (xs : List (Bool × ℕ))
    → (first_or false (partition (λ p. p.0) (x ∷ xs)).0 ≡ true)
      ⊎ ((first_or false (partition (λ p. p.0) (x ∷ xs)).0 ≡ false)
          × (first_or true (partition (λ p. p.0) (x ∷ xs)).1 ≡ false))
unfolding partition first_or
partition-cases (true, n) xs = inl refl
partition-cases (false, n) xs = elim (Bool-cases (first_or false (partition (λ p. p.0) xs).0)) [
  | inl e ↦ inl e
  | inr e ↦ inr (e, refl)
]

halves-cases :
    (g : Global) (globals : List Global)
    → (first_or false (halves (g ∷ globals)).0 ≡ true)
      ⊎ ((first_or false (halves (g ∷ globals)).0 ≡ false)
          × (first_or true (halves (g ∷ globals)).1 ≡ false))
unfolding halves sizes
halves-cases g globals =
    partition-cases (g.ty.mutable, byte_count g.ty.content_type) (sizes globals)

module _ (B : LazyBuffers) where
  some_global :
      (g : Global) (rest : List Global) (muts imms : GlobalsBuilder B)
      (imports : List AbstractGlobalPtr) (funcs : List UntypedFuncPtr) (counter : ℕ)
      → try_initialize_globals B (g ∷ rest) muts imms imports funcs counter ≡ err assertion_failed
  unfolding try_initialize_globals
  some_global g rest muts imms imports funcs counter = elim (halves-cases g rest) [
    | inl e ↦ rw e refl
    | inr (e1, e2) ↦ rw (e1, e2) refl
  ]

  no_globals :
      (muts imms : GlobalsBuilder B) (imports : List AbstractGlobalPtr)
      (funcs : List UntypedFuncPtr) (counter : ℕ)
      → let (imms', counter') = reserve B imms 0 counter in
        let (muts', counter'') = reserve B muts 0 counter' in
        try_initialize_globals B [] muts imms imports funcs counter
        ≡ ok (imports, muts', imms', counter'')
  unfolding try_initialize_globals halves sizes partition first_or space
  no_globals muts imms imports funcs counter = refl

  -- A module that defines a global of its own cannot be instantiated: one of the two assertions fails,
  -- whatever is imported. A module without globals gets the imported pointers, and its buffers are
  -- reserved no space.
  pub try_initialize_globals_panics :
      (muts imms : GlobalsBuilder B) (imports : List AbstractGlobalPtr)
      (funcs : List UntypedFuncPtr) (counter : ℕ)
      → ((g : Global) (rest : List Global)
          → try_initialize_globals B (g ∷ rest) muts imms imports funcs counter
            ≡ err assertion_failed)
        × (let (imms', counter') = reserve B imms 0 counter in
            let (muts', counter'') = reserve B muts 0 counter' in
            try_initialize_globals B [] muts imms imports funcs counter
            ≡ ok (imports, muts', imms', counter''))
  try_initialize_globals_panics muts imms imports funcs counter = (
    λ g rest. some_global g rest muts imms imports funcs counter,
    no_globals muts imms imports funcs counter,
  )
