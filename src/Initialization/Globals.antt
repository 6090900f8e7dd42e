-- ===== src/Initialization/Globals.antt =====
-- wasm-gpu/src/module.rs (`try_initialize_globals`).
use wasm_gpu.Prelude.{
  ℕ, Bool, true, false, not, List, [], ◌∷◌, ◌++◌, map, if◌then◌else◌, Outcome, ok, ◌>>=◌, ◌>>◌,
  assert, assertion_failed,
}
use wasm_gpu.Buffers.{LazyBuffers}
use wasm_gpu.Typed.{byte_count}
use wasm_gpu.Globals.{GlobalsBuilder, AbstractGlobalPtr, immutable, mutable, reserve, try_push}
use wasm_gpu.Functions.{UntypedFuncPtr}
use wasm_gpu.Constexpr.{interpret_constexpr}
use wasm_gpu.Parsing.{Global}
use wasm_gpu.Initialization.{sum}

-- `partition` of the standard library's iterators: the items that satisfy the test, and the others.
unfoldable pub partition {ℓ} : {A : Type ℓ} → (A → Bool) → List A → List A × List A
partition f [] = ([], [])
partition f (x ∷ xs) =
    let (taken, left) = partition f xs in if f x then (x ∷ taken, left) else (taken, x ∷ left)

-- `first().unwrap_or(..).0`
unfoldable pub first_or : Bool → List (Bool × ℕ) → Bool
first_or b [] = b
first_or b (p ∷ ps) = p.0

-- Mutability and size of each global.
unfoldable pub sizes : List Global → List (Bool × ℕ)
unfolding byte_count
sizes globals = map (λ (g : Global). (g.ty.mutable, byte_count g.ty.content_type)) globals

-- The two halves of the partition, with the names of the source: first the immutables.
unfoldable pub halves : List Global → List (Bool × ℕ) × List (Bool × ℕ)
unfolding partition sizes
halves globals = partition (λ p. p.0) (sizes globals)

unfoldable pub space : List (Bool × ℕ) → ℕ
space ps = sum (map (λ p. p.1) ps)

module _ (B : LazyBuffers) where
  -- The loop that evaluates and pushes the globals: the pointers so far, and both buffers.
  unfoldable pub push_globals :
      List UntypedFuncPtr
      → List Global
      → List AbstractGlobalPtr
      → GlobalsBuilder B
      → GlobalsBuilder B
      → Outcome (List AbstractGlobalPtr × GlobalsBuilder B × GlobalsBuilder B)
  unfolding interpret_constexpr try_push
  push_globals funcs [] results muts imms = ok (results, muts, imms)
  push_globals funcs (global ∷ globals) results muts imms =
      interpret_constexpr B
        (record {
          mutable_globals = muts;
          immutable_globals = imms;
          global_ptrs = results;
          func_ptrs = funcs;
        })
        global.initializer
      >>= λ value.
          if global.ty.mutable
          then (try_push B muts value >>= λ (p, muts').
              push_globals funcs globals (results ++ mutable p ∷ []) muts' imms)
          else (try_push B imms value >>= λ (p, imms').
              push_globals funcs globals (results ++ immutable p ∷ []) muts imms')

  unfoldable pub try_initialize_globals :
      List Global
      → GlobalsBuilder B
      → GlobalsBuilder B
      → List AbstractGlobalPtr
      → List UntypedFuncPtr
      → ℕ
      → Outcome (List AbstractGlobalPtr × GlobalsBuilder B × GlobalsBuilder B × ℕ)
  unfolding halves first_or space reserve push_globals
  try_initialize_globals globals muts imms imports funcs counter =
      let (immutables, mutables) = halves globals in
      assert (not (first_or false immutables)) assertion_failed
      >> (assert (first_or true mutables) assertion_failed
          >> (let (imms', counter') = reserve B imms (space immutables) counter in
              let (muts', counter'') = reserve B muts (space mutables) counter' in
              push_globals funcs globals imports muts' imms' >>= λ (results, muts'', imms'').
              ok (results, muts'', imms'', counter'')))
