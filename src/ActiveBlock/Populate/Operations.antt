-- ===== src/ActiveBlock/Populate/Operations.antt =====
-- wasm-gpu-transpiler/src/active_function/active_block.rs: what the operators of control flow do, over the
-- function that populates inner blocks.
use wasm_gpu.Prelude.{ℕ, List, [], length, some, Bool, true, false, Outcome, ok, ◌>>=◌}
use wasm_gpu.LinkedStack.{LinkedStack}
use wasm_gpu.ControlFlow.{
  Operator, ParsedBlockType, BlockType, ControlFlowState, from_parsed, union, br_state, br_if_state,
  return_state,
}
use wasm_gpu.Naga.{
  BlockContext, constant, wasm_false, binary, not_equal_op, global_variable, load, literal,
  u32_literal, append_expr, cycle, try_then, otherwise, stop_loop,
}
use wasm_gpu.ActiveBlock.{ActiveBlock, BodyData, BlockLabel, trap_state, pop}
use wasm_gpu.ActiveBlock.Blocks.{
  new, assign_arguments, store_all_eq, push_loads, finish, pop_args, push_store_break_top_n_parents,
  push_return,
}

pub data EndInstruction : Type 0 where
  ends elses : EndInstruction

-- An operation on a block that also reads operators: what is left of them comes last.
abbrev pub Reads : Type 0 → Type 0
Reads A = Outcome (A × ActiveBlock × List Operator)

-- A closure that fills the block of a context and returns nothing.
abbrev pub filled : BlockContext → Outcome (Unit {0} × BlockContext)
filled ctx = ok (tt, ctx)

unfoldable pub do_br : ActiveBlock → ℕ → ControlFlowState × ActiveBlock
do_br self relative_depth = (
  br_state relative_depth,
  record self { ctx = push_store_break_top_n_parents self.ctx self.labels relative_depth },
)

-- `value != Constant(wasm_false)` of the popped value.
unfoldable pub pop_condition : ActiveBlock → Outcome (ℕ × ActiveBlock)
pop_condition self = do
  (value, self) ← pop self
  let (false_value, ctx) = append_expr self.ctx (constant wasm_false)
  let (condition, ctx) = append_expr ctx (binary not_equal_op value false_value)
  ok (condition, record self { ctx = ctx })

unfoldable pub do_br_if : ActiveBlock → ℕ → Outcome (ControlFlowState × ActiveBlock)
do_br_if self relative_depth = do
  (condition, self) ← pop_condition self
  (_, _, ctx) ←
      try_then self.ctx condition
        (λ ctx. filled (push_store_break_top_n_parents ctx self.labels relative_depth))
  ok (br_if_state relative_depth, record self { ctx = ctx })

unfoldable pub do_return : BodyData → ActiveBlock → Outcome (ControlFlowState × ActiveBlock)
do_return body self = do self ← push_return body self; ok (return_state, self)

-- The results of an inner block, as they come onto the stack of the outer one.
unfoldable pub push_results : ActiveBlock → BlockContext → List ℕ → ActiveBlock
push_results self ctx results =
    let (stack, ctx) = push_loads ctx results self.stack in record self { ctx = ctx; stack = stack }

-- How an inner block is populated: `populate_straight` and `populate_looping`.
abbrev pub Populate : Type 0
Populate = Bool → ActiveBlock → List Operator → Reads EndInstruction

unfoldable pub do_block :
    Populate → BodyData → ActiveBlock → ParsedBlockType → List Operator → Reads ControlFlowState
do_block populate body self blockty instructions = do
  block_type ← from_parsed blockty body.types
  (args, self) ← pop_args (length block_type.arguments) [] self
  inner ← assign_arguments (new self.ctx block_type body (some self.labels)) args
  (_, inner, instructions) ← populate false inner instructions
  let (results, exit_state, ctx) = finish inner
  ok (exit_state, push_results self ctx results, instructions)

-- What the first arm of a conditional leaves: the operator that ended it, its results, its exit state
-- and the operators.
abbrev pub Arm : Type 0
Arm = EndInstruction × List ℕ × ControlFlowState × List Operator

unfoldable pub accept_arm :
    Populate
    → BodyData
    → LinkedStack BlockLabel
    → BlockType
    → List ℕ
    → List Operator
    → BlockContext
    → Outcome (Arm × BlockContext)
accept_arm populate body labels block_type args instructions ctx = do
  accept_block ← assign_arguments (new ctx block_type body (some labels)) args
  (ended, accept_block, instructions) ← populate false accept_block instructions
  let (results, exit_state, ctx) = finish accept_block
  ok ((ended, results, exit_state, instructions), ctx)

-- The second arm: what `else` leads to, or the stores that stand for it.
unfoldable pub reject_arm :
    Populate
    → BodyData
    → LinkedStack BlockLabel
    → BlockType
    → List ℕ
    → Arm
    → BlockContext
    → Outcome ((ControlFlowState × List Operator) × BlockContext)
reject_arm populate body labels block_type args (elses, results, exit_state, instructions) ctx = do
  reject_block ← assign_arguments (new ctx block_type body (some labels)) args
  (_, reject_block, instructions) ←
      populate false (record reject_block { results = results }) instructions
  let (_, reject_exit_state, ctx) = finish reject_block
  ok ((union exit_state reject_exit_state, instructions), ctx)
reject_arm populate body labels block_type args (ends, results, exit_state, instructions) ctx = do
  ctx ← store_all_eq ctx args results
  ok ((exit_state, instructions), ctx)

unfoldable pub do_if :
    Populate → BodyData → ActiveBlock → ParsedBlockType → List Operator → Reads ControlFlowState
do_if populate body self blockty instructions = do
  (condition, self) ← pop_condition self
  block_type ← from_parsed blockty body.types
  (args, self) ← pop_args (length block_type.arguments) [] self
  (arm, test, ctx) ←
      try_then self.ctx condition
        (accept_arm populate body self.labels block_type args instructions)
  ((exit_state, instructions), ctx) ←
      otherwise test ctx (reject_arm populate body self.labels block_type args arm)
  ok (exit_state, push_results self ctx arm.1, instructions)

-- The body of a loop, in the block of the loop.
unfoldable pub loop_body :
    Populate
    → BodyData
    → LinkedStack BlockLabel
    → BlockType
    → List ℕ
    → ℕ
    → List Operator
    → BlockContext
    → Outcome ((List ℕ × ControlFlowState × List Operator) × BlockContext)
loop_body populate body labels block_type args trap_state instructions ctx = do
  let loop_body = new ctx block_type body (some labels)
  let (state, ctx) = append_expr loop_body.ctx (load trap_state)
  let (zero_expr, ctx) = append_expr ctx (literal (u32_literal 0))
  let (trapped_condition, ctx) = append_expr ctx (binary not_equal_op state zero_expr)
  (_, _, ctx) ← try_then ctx trapped_condition (λ ctx. filled (stop_loop ctx))
  loop_body ← assign_arguments (record loop_body { ctx = ctx }) args
  (_, loop_body, instructions) ← populate true loop_body instructions
  let (results, exit_state, ctx) = finish loop_body
  ok ((results, exit_state, instructions), stop_loop ctx)

unfoldable pub do_loop :
    Populate → BodyData → ActiveBlock → ParsedBlockType → List Operator → Reads ControlFlowState
do_loop populate body self blockty instructions = do
  let (trap_state, ctx) = append_expr self.ctx (global_variable trap_state)
  block_type ← from_parsed blockty body.types
  (args, self) ← pop_args (length block_type.arguments) [] (record self { ctx = ctx })
  ((results, exit_state, instructions), ctx) ←
      cycle self.ctx (loop_body populate body self.labels block_type args trap_state instructions)
  ok (exit_state, push_results self ctx results, instructions)
