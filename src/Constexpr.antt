-- ===== src/Constexpr.antt =====
-- wasm-gpu/src/store_set/builder.rs (`interpret_constexpr`): the evaluation of constant expressions.
-- The stack is a list with its top first.
pub mod Reading
use wasm_gpu.Prelude.{
  ℕ, List, [], ◌∷◌, Option, none, some, get_elem?, Outcome, ok, err, ◌>>=◌, expect, malformed,
}
use wasm_gpu.Buffers.{LazyBuffers}
use wasm_gpu.Typed.{Val, HeapType, func, extern, typed_func, func_ref, extern_ref}
use wasm_gpu.Functions.{UntypedFuncPtr, to_func_ref}
use wasm_gpu.Globals.{
  GlobalsBuilder, AbstractGlobalPtr, immutable, mutable, try_get_immutable, try_get_mutable,
}

-- `wasmparser::Operator`; `other` is any operator that a constant expression cannot contain.
pub data Operator : Type 0 where
  i32_const i64_const f32_const f64_const v128_const : ℕ → Operator
  ref_null : HeapType → Operator
  ref_func global_get : ℕ → Operator
  end other : Operator

unfoldable pub null_of : HeapType → Val
null_of func = func_ref none
null_of (typed_func i) = func_ref none
null_of extern = extern_ref none

-- What a constant expression can see.
pub record Environment (B : LazyBuffers) : Type 0 where
  pub mutable_globals : GlobalsBuilder B
  pub immutable_globals : GlobalsBuilder B
  pub global_ptrs : List AbstractGlobalPtr
  pub func_ptrs : List UntypedFuncPtr

unfoldable pub top : List Val → Outcome Val
top [] = err malformed
top (v ∷ stack) = ok v

module _ (B : LazyBuffers) where
  unfoldable pub global_value : Environment B → AbstractGlobalPtr → Outcome Val
  unfolding try_get_immutable try_get_mutable
  global_value env (immutable p) = try_get_immutable B env.immutable_globals p
  global_value env (mutable p) = try_get_mutable B env.mutable_globals p

  -- What an operator other than `End` pushes.
  unfoldable pub pushed : Environment B → Operator → Outcome Val
  unfolding null_of to_func_ref global_value
  pushed env (i32_const value) = ok (Val.i32 value)
  pushed env (i64_const value) = ok (Val.i64 value)
  pushed env (f32_const value) = ok (Val.f32 value)
  pushed env (f64_const value) = ok (Val.f64 value)
  pushed env (v128_const value) = ok (Val.v128 value)
  pushed env (ref_null hty) = ok (null_of hty)
  pushed env (ref_func function_index) = do
    function_ptr ← expect (get_elem? env.func_ptrs function_index) malformed
    r ← to_func_ref function_ptr
    ok (func_ref r)
  pushed env (global_get global_index) = do
    global_ptr ← expect (get_elem? env.global_ptrs global_index) malformed
    global_value env global_ptr
  pushed env end = err malformed
  pushed env other = err malformed

  -- The loop; `End` must be the last operator.
  unfoldable pub interpret_loop : Environment B → List Operator → List Val → Outcome (List Val)
  unfolding pushed
  interpret_loop env [] stack = ok stack
  interpret_loop env (end ∷ []) stack = ok stack
  interpret_loop env (end ∷ _ ∷ _) stack = err malformed
  interpret_loop env (expr ∷ rest) stack =
      pushed env expr >>= λ v. interpret_loop env rest (v ∷ stack)

  unfoldable pub interpret_constexpr : Environment B → List Operator → Outcome Val
  unfolding interpret_loop top
  interpret_constexpr env constr_expr = interpret_loop env constr_expr [] >>= top
