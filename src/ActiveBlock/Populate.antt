-- ===== src/ActiveBlock/Populate.antt =====
-- wasm-gpu-transpiler/src/active_function/active_block.rs: the translation of the operators of a block up to
-- the operator that ends it. The nesting of calls is bounded by fuel: each operator that is read takes
-- some, so that the number of operators is enough. What a closure borrows is passed along.
pub mod Operations
use wasm_gpu.Prelude.{
  ℕ, zero, suc, List, [], ◌∷◌, length, Option, none, some, Bool, true, false, Outcome, ok, err,
  ◌>>=◌, malformed, unimplemented, unsupported, out_of_fuel,
}
use wasm_gpu.LinkedStack.{LinkedStack, peek, peek_nth}
use wasm_gpu.Mvp.{mvp_instruction, sign_extension_instruction}
use wasm_gpu.ControlFlow.{
  Operator, block, if, loop, els, end, br, br_if, leave, simd, threads, mvp, sign_extension, other,
  ParsedBlockType, BlockType, ControlFlowState, from_parsed, union, concat, decrement, br_state,
  br_if_state, return_state, eat_to_end,
}
use wasm_gpu.Naga.{
  BlockContext, constant, wasm_false, binary, not_equal_op, global_variable, load, literal,
  u32_literal, append_expr, cycle, try_then, otherwise, stop_loop, new_block,
}
use wasm_gpu.ActiveBlock.{ActiveBlock, BodyData, BlockLabel, trap_state, pop, perform}
use wasm_gpu.ActiveBlock.Blocks.{
  new, assign_arguments, store_all_eq, push_loads, push_store_stack_in_results, finish, pop_args,
  unset, if_is_set, push_store_break_top_n_parents, push_return, on_r0_branching, on_rp_branching,
}
unfoldable pub use wasm_gpu.ActiveBlock.Populate.Operations.{
  do_br, pop_condition, do_br_if, do_return, push_results, do_block, accept_arm, reject_arm, do_if,
  loop_body, do_loop,
}
pub use wasm_gpu.ActiveBlock.Populate.Operations.{
  EndInstruction, Reads, filled, Populate, Arm, ends, elses,
}

-- `eat_simd_operator`, whose cases are all unimplemented, and `eat_threads_operator`, which returns an error.
unfoldable pub eat_simd_operator : ActiveBlock → Outcome ActiveBlock
eat_simd_operator self = err unimplemented

unfoldable pub eat_threads_operator : ActiveBlock → Outcome ActiveBlock
eat_threads_operator self = err unsupported

-- `eat_basic_block`: the operators up to the next one of control flow, which is returned.
unfoldable pub eat_basic_block : BodyData → ActiveBlock → List Operator → Reads Operator
eat_basic_block body self [] = err malformed
eat_basic_block body self (mvp op ∷ rest) = do
  self ← perform body self (mvp_instruction op)
  eat_basic_block body self rest
eat_basic_block body self (sign_extension op ∷ rest) = do
  self ← perform body self (sign_extension_instruction op)
  eat_basic_block body self rest
eat_basic_block body self (simd ∷ rest) = do
  self ← eat_simd_operator self
  eat_basic_block body self rest
eat_basic_block body self (threads ∷ rest) = do
  self ← eat_threads_operator self
  eat_basic_block body self rest
eat_basic_block body self (other opcode ∷ rest) = err unsupported
eat_basic_block body self (op ∷ rest) = ok (op, self, rest)

-- What is done where a branch may leave the block: it goes on to the block around it when the label
-- of that one, if there is one, is set, and ends in this block otherwise.
unfoldable pub leave_to :
    Bool → ActiveBlock → BlockContext → Option BlockLabel → Outcome BlockContext
leave_to looping self ctx none = ok (on_r0_branching looping (record self { ctx = ctx }))
leave_to looping self ctx (some parent_label) = do
  let (is_set, ctx) = if_is_set parent_label ctx
  (_, test, ctx) ←
      try_then ctx is_set (λ ctx. filled (on_rp_branching looping (record self { ctx = ctx })))
  (_, ctx) ←
      otherwise test ctx (λ ctx. filled (on_r0_branching looping (record self { ctx = ctx })))
  ok ctx

-- The test of the block's own label behind an operator that may branch; the remainder of the block goes
-- into the second arm.
unfoldable pub test_top_label : Bool → ActiveBlock → Outcome ActiveBlock
test_top_label looping self = do
  let top_label = peek self.labels
  let (is_set, ctx) = if_is_set top_label self.ctx
  accept ←
      leave_to looping self (unset top_label (record ctx { block = new_block }))
        (peek_nth self.labels 1)
  ok (record self {
    ctx = record accept { block = new_block };
    enclosing =
        record { front = ctx.block; condition = is_set; accept = accept.block } ∷ self.enclosing;
  })

-- The `match state` of `populate`, by the depth of an unconditional branch.
unfoldable pub branch_out : Bool → ActiveBlock → Option ℕ → Outcome ActiveBlock
branch_out looping self (some zero) = ok (record self { ctx = on_r0_branching looping self })
branch_out looping self (some (suc depth)) = ok (record self { ctx = on_rp_branching looping self })
branch_out looping self none = test_top_label looping self

-- Behind an unconditional branch the operators up to the end are skipped.
unfoldable pub skip_rest : Option ℕ → List Operator → List Operator
skip_rest (some depth) instructions = eat_to_end instructions
skip_rest none instructions = instructions

-- What is done when control flow may have happened, which the conditional depth tells.
unfoldable pub control_flow :
    Bool → ActiveBlock → Option ℕ → Option ℕ → List Operator → Outcome (ActiveBlock × List Operator)
control_flow looping self none unconditional instructions = ok (self, instructions)
control_flow looping self (some depth) unconditional instructions = do
  self ← branch_out looping (push_store_stack_in_results self) unconditional
  ok (self, skip_rest unconditional instructions)

-- The end of a round of `populate`, for the state of the operator.
unfoldable pub after_operation :
    Bool → ActiveBlock → ControlFlowState → List Operator → Outcome (ActiveBlock × List Operator)
after_operation looping self state instructions =
    control_flow looping (record self { exit_state = concat self.exit_state (decrement state) })
      state.lower_conditional_depth state.lower_unconditional_depth instructions

-- What an operator of control flow does, and the end of the block at `end` and `else`.
unfoldable pub do_operation :
    Populate → BodyData → ActiveBlock → Operator → List Operator → Reads ControlFlowState
do_operation populate body self (br relative_depth) rest =
    let (state, self) = do_br self relative_depth in ok (state, self, rest)
do_operation populate body self (br_if relative_depth) rest = do
  (state, self) ← do_br_if self relative_depth
  ok (state, self, rest)
do_operation populate body self (block blockty) rest = do_block populate body self blockty rest
do_operation populate body self (if blockty) rest = do_if populate body self blockty rest
do_operation populate body self (loop blockty) rest = do_loop populate body self blockty rest
do_operation populate body self leave rest = do
  (state, self) ← do_return body self
  ok (state, self, rest)
do_operation populate body self _ rest = err unimplemented

-- The operators that end a block; `else` is read as the end of one too.
unfoldable pub end_of : Operator → Option EndInstruction
end_of end = some ends
end_of els = some elses
end_of _ = none

-- A round of `populate`: the end of the block, or an operator and the rounds behind it.
unfoldable pub round :
    Populate
    → BodyData
    → Bool
    → ActiveBlock
    → Operator
    → List Operator
    → Option EndInstruction
    → Reads EndInstruction
round populate body looping self operation rest (some e) = ok (e, self, rest)
round populate body looping self operation rest none = do
  (state, self, rest) ← do_operation populate body self operation rest
  (self, rest) ← after_operation looping self state rest
  populate looping self rest

unfoldable pub populate : ℕ → BodyData → Populate
populate zero body looping self instructions = err out_of_fuel
populate (suc fuel) body looping self instructions = do
  (operation, self, rest) ← eat_basic_block body self instructions
  round (populate fuel body) body looping self operation rest (end_of operation)
