-- ===== src/Initialization/Functions.antt =====
-- wasm-gpu/src/module.rs (`try_initialize_function_definitions`, the linking loop of
-- `try_initialize_function_bodies`, `start_fn`).
use wasm_gpu.Prelude.{
  ℕ, ◌-◌, List, [], ◌∷◌, ◌++◌, length, drop, get_elem?, Option, none, some, Outcome, ok, ◌>>=◌,
  expect, malformed,
}
use wasm_gpu.Functions
use wasm_gpu.Functions.{
  FuncType, FuncData, FuncsInstance, FuncAccessible, UntypedFuncPtr, register_definition,
  link_function_imports,
}
use wasm_gpu.Parsing.{ParsedFunc}

module _ {O : Type 0} where
  unfoldable pub func_data : List FuncType → ParsedFunc O → Outcome (FuncData O)
  func_data types func = do
    ty ← expect (get_elem? types func.type_id) malformed
    ok (record { ty = ty; locals = func.locals; operators = func.operators; types = types })

  -- The two chained maps, for each function in turn.
  unfoldable pub register_all :
      List FuncType
      → List (ParsedFunc O)
      → FuncsInstance O
      → Outcome (List UntypedFuncPtr × FuncsInstance O)
  unfolding func_data register_definition
  register_all types [] functions = ok ([], functions)
  register_all types (func ∷ rest) functions = do
    definition ← func_data types func
    registered ← register_definition functions definition
    more ← register_all types rest registered.1
    ok (registered.0 ∷ more.0, more.1)

  unfoldable pub try_initialize_function_definitions :
      (ℕ → ℕ → ℕ → ℕ)
      → List FuncType
      → List (ParsedFunc O)
      → FuncsInstance O
      → List UntypedFuncPtr
      → ℕ
      → Outcome (List UntypedFuncPtr × FuncsInstance O × ℕ)
  unfolding register_all Functions.reserve
  try_initialize_function_definitions reserve_exact types parsed functions imports counter =
      let (reserved, counter') =
        Functions.reserve reserve_exact functions (length parsed) counter in
      register_all types parsed reserved >>= λ r. ok (imports ++ r.0, r.1, counter')

  unfoldable pub link_all :
      List UntypedFuncPtr → FuncAccessible → FuncsInstance O → Outcome (FuncsInstance O)
  unfolding link_function_imports
  link_all [] accessible functions = ok functions
  link_all (p ∷ ps) accessible functions =
      link_function_imports functions p accessible >>= link_all ps accessible

  -- The pointers at the end of the list are those of the functions that the module defines.
  unfoldable pub link_bodies :
      List (ParsedFunc O)
      → List UntypedFuncPtr
      → FuncAccessible
      → FuncsInstance O
      → Outcome (FuncsInstance O)
  unfolding link_all
  link_bodies parsed ptrs accessible functions =
      link_all (drop (length ptrs - length parsed) ptrs) accessible functions

unfoldable pub start_fn : Option ℕ → List UntypedFuncPtr → Outcome (Option UntypedFuncPtr)
start_fn none ptrs = ok none
start_fn (some i) ptrs = do p ← expect (get_elem? ptrs i) malformed; ok (some p)
