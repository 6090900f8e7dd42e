-- ===== src/ActiveBlock.antt =====
-- wasm-gpu-transpiler/src/active_function/active_block.rs and active_block/block_label.rs: the blocks of a
-- function body and the translation of the operators that are no control flow. The stack holds the
-- handles of expressions, its top first.
pub mod Direct
pub mod StackMachine
pub mod Running
pub mod Statements
pub mod Addresses
pub mod Growth
pub mod Correct
pub mod Supported
pub mod Refines
pub mod Blocks
pub mod Populate
pub mod Entering
pub mod Arguments
pub mod Ending
pub mod Nested
pub mod Fuel
pub mod Keeping
pub mod ExitState
pub mod Function
use wasm_gpu.Prelude.{
  ℕ, suc, ◌+◌, ◌*◌, List, [], ◌∷◌, length, Option, none, some, Bool, ltb, if◌then◌else◌, Outcome,
  ok, err, ◌>>=◌, ◌>>◌, assert, assertion_failed, malformed, out_of_range, unimplemented, u32_mod,
}
use wasm_gpu.Typed.{Val}
use wasm_gpu.Traps.{Trap, other}
use wasm_gpu.Std.{StdFunction}
use wasm_gpu.LinkedStack.{LinkedStack}
use wasm_gpu.Functions.{FuncType}
use wasm_gpu.Locals
use wasm_gpu.Locals.{FnLocal}
use wasm_gpu.Mvp.{
  MemArg, Instruction, nop, drop, push_const_val, append_trap, local_get, local_set, local_tee,
  unary, binary, mem_load, mem_store,
}
use wasm_gpu.ControlFlow.{ControlFlowState}
use wasm_gpu.Access.{memory_stride_words}
use wasm_gpu.Naga
use wasm_gpu.Naga.{
  Constant, wasm_constant, trap_constant, Expression, literal, u32_literal, constant,
  global_variable, load, BinaryOperator, add_op, multiply_op, divide_op, modulo_op, equal_op,
  BlockContext, Block, append_expr, call_get_return, call_void, store, push_statement, if_statement,
  new_block,
}

-- The global variables of the standard objects.
abbrev pub trap_state : ℕ
trap_state = 0

abbrev pub invocations_count : ℕ
invocations_count = 1

abbrev pub instance_id : ℕ
instance_id = 2

-- A label is the variable that tells whether its block is left; the identifier is part of names only.
pub record BlockLabel : Type 0 where
  pub expression : ℕ
  pub false_expr : ℕ
  pub true_expr : ℕ

pub record BodyData : Type 0 where
  pub types : List FuncType
  pub locals : List (ℕ × FnLocal)
  pub return_type : Option ℕ
  pub disjoint_memory : Bool
  pub false_expr : ℕ
  pub true_expr : ℕ

-- A context whose block is the second arm of a conditional lies in the block around it: what that one
-- holds in front of the conditional, the condition and the first arm.
pub record Enclosing : Type 0 where
  pub front : Block
  pub condition : ℕ
  pub accept : Block

pub record ActiveBlock : Type 0 where
  pub ctx : BlockContext
  pub enclosing : List Enclosing
  pub labels : LinkedStack BlockLabel
  pub arguments : List ℕ
  pub results : List ℕ
  pub stack : List ℕ
  pub exit_state : ControlFlowState

unfoldable pub push : ActiveBlock → Expression → ActiveBlock
push self value =
    let (handle, ctx) = append_expr self.ctx value in
    record self { ctx = ctx; stack = handle ∷ self.stack }

unfoldable pub pop_from : List ℕ → Outcome (ℕ × List ℕ)
pop_from [] = err malformed
pop_from (handle ∷ stack) = ok (handle, stack)

unfoldable pub pop : ActiveBlock → Outcome (ℕ × ActiveBlock)
unfolding pop_from
pop self = do (handle, stack) ← pop_from self.stack; ok (handle, record self { stack = stack })

unfoldable pub peek : ActiveBlock → Outcome ℕ
unfolding pop_from
peek self = do (handle, stack) ← pop_from self.stack; ok handle

-- `TrapValuesInstance::get`
unfoldable pub trap_value : Trap → Outcome Constant
trap_value other = err assertion_failed
trap_value trap = ok (trap_constant (some trap))

-- `emit_set_trap` for the constant of a trap.
unfoldable pub emit_set_trap : BlockContext → Constant → BlockContext
emit_set_trap ctx code =
    let (new_trap_code, ctx) = append_expr ctx (constant code) in
    let (trap_code_ptr, ctx) = append_expr ctx (global_variable trap_state) in
    let (loaded, ctx) = append_expr ctx (load trap_code_ptr) in
    let (no_trap, ctx) = append_expr ctx (constant (trap_constant none)) in
    let (is_unset, ctx) = append_expr ctx (Expression.binary equal_op loaded no_trap) in
    let accept = store (record ctx { block = new_block }) trap_code_ptr new_trap_code in
    push_statement ctx (if_statement is_unset accept.block new_block)

unfoldable pub local_ptr : BodyData → ℕ → Outcome ℕ
unfolding Locals.get
local_ptr body local_index = do local ← Locals.get body.locals local_index; ok local.expression

-- `(address / STRIDE) * invocations_count + STRIDE * instance_id + (address % STRIDE)`, in the order
-- in which the expressions are appended.
unfoldable pub disjoint_memory_address : BlockContext → ℕ → ℕ × BlockContext
disjoint_memory_address ctx shared_address =
    let (stride_bytes, ctx) = append_expr ctx (literal (u32_literal (memory_stride_words * 4))) in
    let (count_ptr, ctx) = append_expr ctx (global_variable invocations_count) in
    let (count, ctx) = append_expr ctx (load count_ptr) in
    let (id_ptr, ctx) = append_expr ctx (global_variable instance_id) in
    let (id, ctx) = append_expr ctx (load id_ptr) in
    let (stride_index, ctx) =
      append_expr ctx (Expression.binary divide_op shared_address stride_bytes) in
    let (stride_start, ctx) = append_expr ctx (Expression.binary multiply_op stride_index count) in
    let (own_start, ctx) = append_expr ctx (Expression.binary multiply_op stride_bytes id) in
    let (rest, ctx) = append_expr ctx (Expression.binary modulo_op shared_address stride_bytes) in
    let (own, ctx) = append_expr ctx (Expression.binary add_op own_start rest) in
    append_expr ctx (Expression.binary add_op stride_start own)

unfoldable pub push_call : ActiveBlock → StdFunction → List ℕ → ActiveBlock
push_call self function arguments =
    let (result, ctx) = call_get_return self.ctx function arguments in
    record self { ctx = ctx; stack = result ∷ self.stack }

unfoldable pub pop_one_push_call_mono : ActiveBlock → StdFunction → Outcome ActiveBlock
pop_one_push_call_mono self function = do
  (value, self) ← pop self
  ok (push_call self function (value ∷ []))

unfoldable pub pop_two_push_call_bi : ActiveBlock → StdFunction → Outcome ActiveBlock
pop_two_push_call_bi self function = do
  (rhs, self) ← pop self
  (lhs, self) ← pop self
  ok (push_call self function (lhs ∷ rhs ∷ []))

-- The address of an access from the popped one, as both functions below compute it.
unfoldable pub access_address : BodyData → BlockContext → ℕ → ℕ → ℕ × BlockContext
access_address body ctx address offset =
    let (offset_expr, ctx) = append_expr ctx (literal (u32_literal offset)) in
    let (address, ctx) = append_expr ctx (Expression.binary add_op address offset_expr) in
    if body.disjoint_memory then disjoint_memory_address ctx address else (address, ctx)

unfoldable pub pop_one_push_call_mem_func :
    BodyData → ActiveBlock → MemArg → StdFunction → Outcome ActiveBlock
pop_one_push_call_mem_func body self memarg memory_function = do
  assert (ltb memarg.offset u32_mod) out_of_range
  let (memory, ctx) = append_expr self.ctx (literal (u32_literal memarg.memory))
  (address, self) ← pop (record self { ctx = ctx })
  let (address, ctx) = access_address body self.ctx address memarg.offset
  ok (push_call (record self { ctx = ctx }) memory_function (memory ∷ address ∷ []))

unfoldable pub pop_two_call_mem_func :
    BodyData → ActiveBlock → MemArg → StdFunction → Outcome ActiveBlock
pop_two_call_mem_func body self memarg memory_function = do
  assert (ltb memarg.offset u32_mod) out_of_range
  (value, self) ← pop self
  let (memory, ctx) = append_expr self.ctx (literal (u32_literal memarg.memory))
  (address, self) ← pop (record self { ctx = ctx })
  let (address, ctx) = access_address body self.ctx address memarg.offset
  ok (record self { ctx = call_void ctx memory_function (memory ∷ address ∷ value ∷ []) })

-- What the matches of `eat_mvp_operator` and `eat_sign_extension_operator` do.
unfoldable pub perform : BodyData → ActiveBlock → Instruction → Outcome ActiveBlock
perform body state nop = ok state
perform body state (push_const_val value) = ok (push state (constant (wasm_constant value)))
perform body state (append_trap t) = do
  code ← trap_value t
  ok (record state { ctx = emit_set_trap state.ctx code })
perform body state drop = do (value, state) ← pop state; ok state
perform body state (local_get local_index) = do
  pointer ← local_ptr body local_index
  ok (push state (load pointer))
perform body state (local_set local_index) = do
  pointer ← local_ptr body local_index
  (value, state) ← pop state
  ok (record state { ctx = store state.ctx pointer value })
perform body state (local_tee local_index) = do
  pointer ← local_ptr body local_index
  value ← peek state
  ok (record state { ctx = store state.ctx pointer value })
perform body state (unary function) = pop_one_push_call_mono state function
perform body state (binary function) = pop_two_push_call_bi state function
perform body state (mem_load memarg function) =
    pop_one_push_call_mem_func body state memarg function
perform body state (mem_store memarg function) = pop_two_call_mem_func body state memarg function
perform body state Instruction.unimplemented = err unimplemented

-- The operators of a basic block, one after the other.
unfoldable pub perform_all : BodyData → ActiveBlock → List Instruction → Outcome ActiveBlock
perform_all body state [] = ok state
perform_all body state (i ∷ is) = do state ← perform body state i; perform_all body state is
