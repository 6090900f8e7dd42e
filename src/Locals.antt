-- ===== src/Locals.antt =====
-- wasm-gpu-transpiler/src/active_function/locals.rs: the variables of a shader function that stand for
-- the locals of a WebAssembly function. A variable is its place among those that the function declares,
-- a value is the place of its expression.
pub mod Inserted
pub mod Declared
use wasm_gpu.Prelude.{
  ℕ, zero, suc, ◌+◌, ◌%◌, ◌==◌, ltb, List, [], ◌∷◌, ◌++◌, length, Option, none, some, Bool, true,
  false, if◌then◌else◌, Outcome, ok, err, ◌>>=◌, ◌>>◌, assert, expect, out_of_range, malformed,
  assertion_failed, u32_mod,
}
use wasm_gpu.Typed.{ValType}

pub record FnLocal : Type 0 where
  pub ty : ValType
  pub expression : ℕ

-- What a context has emitted: the types of the variables, each with the default of its type, and the
-- stores of values into them.
pub record BlockContext : Type 0 where
  pub locals : List ValType
  pub stores : List (ℕ × ℕ)

-- A parameter of the function: its type and the expression of its value.
pub record WasmFnArg : Type 0 where
  pub ty : ValType
  pub expression_handle : ℕ

unfoldable pub append_wasm_to : BlockContext → ValType → FnLocal × BlockContext
append_wasm_to ctx local_ty = (
  record { ty = local_ty; expression = length ctx.locals },
  record ctx { locals = ctx.locals ++ local_ty ∷ [] },
)

unfoldable pub append_all_wasm_to : BlockContext → List ValType → List FnLocal × BlockContext
unfolding append_wasm_to
append_all_wasm_to ctx [] = ([], ctx)
append_all_wasm_to ctx (local_ty ∷ local_tys) =
    let (local, ctx') = append_wasm_to ctx local_ty in
    let (locals, ctx'') = append_all_wasm_to ctx' local_tys in (local ∷ locals, ctx'')

-- The `HashMap<u32, FnLocal>`: the entry that was inserted last counts.
unfoldable pub lookup : List (ℕ × FnLocal) → ℕ → Option FnLocal
lookup [] i = none
lookup ((key, local) ∷ locals) i = if key == i then some local else lookup locals i

-- The loop over the count of one declaration; the next index is returned.
unfoldable pub add_count :
    ℕ → ValType → ℕ → List (ℕ × FnLocal) → BlockContext → ℕ × List (ℕ × FnLocal) × BlockContext
unfolding append_wasm_to
add_count zero local_ty i_local locals ctx = (i_local, locals, ctx)
add_count (suc count) local_ty i_local locals ctx =
    let (local, ctx') = append_wasm_to ctx local_ty in
    add_count count local_ty ((i_local + 1) % u32_mod) ((i_local, local) ∷ locals) ctx'

-- The loop over the declarations.
unfoldable pub add_declared :
    List (ℕ × ValType) → ℕ → List (ℕ × FnLocal) → BlockContext → List (ℕ × FnLocal) × BlockContext
unfolding add_count
add_declared [] i_local locals ctx = (locals, ctx)
add_declared ((local_count, local_ty) ∷ parsed_locals) i_local locals ctx =
    let (i_local', locals', ctx') = add_count local_count local_ty i_local locals ctx in
    add_declared parsed_locals i_local' locals' ctx'

-- What `insert` returned must be nothing.
unfoldable pub is_none : Option FnLocal → Bool
is_none none = true
is_none (some local) = false

-- The loop over the parameters, from an index on.
unfoldable pub add_parameters :
    ℕ
    → List WasmFnArg
    → List (ℕ × FnLocal)
    → BlockContext
    → Outcome (List (ℕ × FnLocal) × BlockContext)
unfolding append_wasm_to lookup is_none
add_parameters i_param [] locals ctx = ok (locals, ctx)
add_parameters i_param (parameter ∷ parameters) locals ctx =
    let (local, ctx') = append_wasm_to ctx parameter.ty in
    assert (ltb i_param u32_mod) out_of_range
    >> (assert (is_none (lookup locals i_param)) assertion_failed
        >> add_parameters (suc i_param) parameters ((i_param, local) ∷ locals) (record ctx' {
          stores = ctx'.stores ++ (local.expression, parameter.expression_handle) ∷ [];
        }))

unfoldable pub append_to :
    BlockContext → List (ℕ × ValType) → List WasmFnArg → Outcome (List (ℕ × FnLocal) × BlockContext)
unfolding add_declared add_parameters
append_to ctx parsed_locals parameters =
    let (locals, ctx') = add_declared parsed_locals (length parameters % u32_mod) [] ctx in
    add_parameters 0 parameters locals ctx'

unfoldable pub get : List (ℕ × FnLocal) → ℕ → Outcome FnLocal
unfolding lookup
get locals local_index = expect (lookup locals local_index) malformed
