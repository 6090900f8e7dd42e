-- ===== src/Tests/Locals.antt =====
-- The theorem about the locals of a function at a concrete input.
use wasm_gpu.Prelude.{ℕ, ◌≡◌, ◌≤◌, List, [], ◌∷◌, get_elem?, some, ok, err, malformed, arith}
use wasm_gpu.Typed.{ValType, i32, f32}
use wasm_gpu.Locals.{FnLocal, BlockContext, WasmFnArg, append_to, lookup, get}
use wasm_gpu.Locals.Declared.{fresh, append_to-IsTyped}

-- A parameter, and two locals of another type.
abbrev one_parameter : List WasmFnArg
one_parameter = record { ty = i32; expression_handle = 5 } ∷ []

abbrev three_types : List ValType
three_types = i32 ∷ f32 ∷ f32 ∷ []

append_to-IsTyped_example :
    (r : List (ℕ × FnLocal) × BlockContext) × (append_to fresh ((2, f32) ∷ []) one_parameter ≡ ok r)
    × ((i : ℕ) (ty : ValType)
        → get_elem? three_types i ≡ some ty
        → (l : FnLocal) × (get r.0 i ≡ ok l)
          × (l.ty ≡ ty)
          × (get_elem? r.1.locals l.expression ≡ some ty))
    × ((i j : ℕ) (l k : FnLocal)
        → lookup r.0 i ≡ some l
        → lookup r.0 j ≡ some k
        → l.expression ≡ k.expression
        → i ≡ j)
    × ((i : ℕ) → 3 ≤ i → get r.0 i ≡ err malformed)
append_to-IsTyped_example = append_to-IsTyped ((2, f32) ∷ []) one_parameter (omega arith)
