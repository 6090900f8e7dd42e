-- ===== src/Tests/Translation.antt =====
-- The theorems about the translation of blocks at concrete inputs.
use wasm_gpu.Prelude.{
  Bool, ℕ, zero, suc, subst, some_inj, ◌+◌, ◌≡◌, refl, List, [], ◌∷◌, map, true, false, none, some,
  get_elem?, arith, Outcome, ok, ◌>>=◌,
}
use wasm_gpu.Typed.{Val, ValType}
use wasm_gpu.LinkedStack.{bottom}
use wasm_gpu.Locals.{FnLocal, lookup}
use wasm_gpu.Mvp.{i32_const, op_nop, Instruction, push_const_val, local_get, local_set}
use wasm_gpu.ControlFlow.{
  Operator, block, loop, if, els, br, br_if, end, mvp, ParsedBlockType, BlockType, default,
}
use wasm_gpu.Naga.{
  BlockContext, word_ty, val_ty, local_variable, load, binary, add_op, emit, new_block, pushed,
  if_statement, append_expr, stop_loop, resume_loop, try_then, otherwise, should_emit,
}
use wasm_gpu.Naga.Machine.{Gpu, Machine, update, falls, andthen, exec_block, value}
use wasm_gpu.Naga.Emission.{append_expr-exec, appended}
use wasm_gpu.Naga.Branches.{try_then-otherwise}
use wasm_gpu.ActiveBlock.{ActiveBlock, BodyData, perform_all}
use wasm_gpu.ActiveBlock.Blocks.{
  new, assign_arguments, store_all, store_all_eq, get_label, append_local, append_all_locals,
  push_loads, reverse_onto,
}
use wasm_gpu.ActiveBlock.StackMachine.{Operands, Operators, advance, advance_all}
use wasm_gpu.ActiveBlock.Correct.{HasSlots}
use wasm_gpu.ActiveBlock.Refines.{perform_all-run}
use wasm_gpu.ActiveBlock.Arguments.{assign_arguments_unseen}
use wasm_gpu.ActiveBlock.Entering.{Point}
use wasm_gpu.ActiveBlock.Ending.{Ends}
use wasm_gpu.ActiveBlock.Function.{populate_base_function, Returns, populate_base_function-Returns}

-- Every value is a number, and the memory is one number.
abbrev numbers : Gpu ℕ ℕ
numbers = record {
  literal_value = λ l. 4;
  constant_value = λ c. 5;
  operate = λ op a b. a + b;
  compute = λ e values. 0;
  truth = λ v. false;
  read = λ g w. w;
  write = λ g v w. v;
  call = λ f vs w. (w, w);
}

abbrev begun : Machine ℕ ℕ
begun = record { values = λ h. 0; variables = λ i. i + 10; world = 3 }

-- A pointer to a variable, of which a load is appended to a range of one expression.
abbrev loading : BlockContext
loading = record {
  expressions = local_variable 0 ∷ load 0 ∷ [];
  locals = record { ty = word_ty; init = none } ∷ [];
  block = pushed new_block (emit 1 1);
}

append_expr-exec_example :
    let e = binary add_op 1 1 in
    let arena = local_variable 0 ∷ load 0 ∷ e ∷ [] in
    (get_elem? arena (append_expr loading e).0 ≡ some e)
    × (exec_block numbers arena 1 (append_expr loading e).1.block begun
        ≡ andthen
            (exec_block numbers arena 1 loading.block begun)
            (λ m. (appended numbers arena loading e m, falls)))
unfolding append_expr should_emit
append_expr-exec_example =
    append_expr-exec numbers (local_variable 0 ∷ load 0 ∷ binary add_op 1 1 ∷ []) 1 loading
      (binary add_op 1 1) begun (omega arith) (λ h e p. p)

-- What the two arms of a conditional hold.
abbrev seven : BlockContext → Outcome (ℕ × BlockContext)
seven ctx = ok (7, stop_loop ctx)

abbrev eight : BlockContext → Outcome (ℕ × BlockContext)
eight ctx = ok (8, resume_loop ctx)

try_then-otherwise_example :
    (do (r, index, ctx) ← try_then loading 1 seven; otherwise index ctx eight) ≡ (do
      (r, accepted) ← seven (record loading { block = new_block })
      (s, rejected) ← eight (record accepted { block = new_block })
      ok (
        s,
        record rejected {
          block = pushed loading.block (if_statement 1 accepted.block rejected.block);
        },
      ))
try_then-otherwise_example = try_then-otherwise loading 1 seven eight

-- A function with one local and no results, and its outermost block.
abbrev one_local : BodyData
one_local = record {
  types = [];
  locals = (0, record { ty = ValType.i32; expression = 0 }) ∷ [];
  return_type = none;
  disjoint_memory = true;
  false_expr = 0;
  true_expr = 0;
}

abbrev outermost : ActiveBlock
outermost = record {
  ctx = record {
    expressions = local_variable 0 ∷ [];
    locals = record { ty = val_ty ValType.i32; init = none } ∷ [];
    block = new_block;
  };
  enclosing = [];
  labels = bottom (record { expression = 0; false_expr = 0; true_expr = 0 });
  arguments = [];
  results = [];
  stack = [];
  exit_state = default;
}

-- The local is read, and then set to a constant.
abbrev read_and_set : List Instruction
read_and_set = local_get 0 ∷ push_const_val (Val.i32 5) ∷ local_set 0 ∷ []

abbrev locals_after : Operands ℕ ℕ
locals_after = record { stack = 10 ∷ []; locals = update (λ i. i + 10) 0 5; world = 3 }

-- The operators that the functions of these numbers compute.
abbrev number_operators : Operators ℕ ℕ
number_operators = record {
  constant = λ v. 5;
  unary = λ f a w. (w, w);
  binary = λ f a b w. (w, w);
  load = λ f memory a offset w. (w, w);
  store = λ f memory a offset v w. w;
}

abbrev shared_memory : BodyData
shared_memory = record one_local { disjoint_memory = false }

perform_all-run_example :
    (state' : ActiveBlock) × (perform_all shared_memory outermost read_and_set ≡ ok state')
    × (m : Machine ℕ ℕ) × (exec_block numbers state'.ctx.expressions 1 state'.ctx.block begun
        ≡ (m, falls))
    × (map (value numbers state'.ctx.expressions m) state'.stack ≡ locals_after.stack)
    × ((i : ℕ) → m.variables i ≡ locals_after.locals i)
    × (m.world ≡ locals_after.world)
unfolding advance_all advance lookup
perform_all-run_example =
    perform_all-run numbers number_operators 1 begun shared_memory (λ i. i) outermost read_and_set
      locals_after
      (record {
        constants = λ v. refl;
        unaries = λ f a w. refl;
        binaries = λ f a b w. refl;
        loads = λ f memory a offset w. refl;
        stores = λ f memory a offset v w. refl;
      })
      refl (λ i j e. e) only_local refl refl ((one, refl), (tt, ((one, refl), tt))) refl
  where
    one : FnLocal
    one = record { ty = ValType.i32; expression = 0 }

    only_local : HasSlots (outermost.ctx.expressions) one_local (λ i. i)
    only_local zero local found =
        subst
          (λ (l : FnLocal).
            get_elem? (outermost.ctx.expressions) l.expression ≡ some (local_variable 0))
          (some_inj found) refl
    only_local (suc i) local found = ground (arith, found)

-- A block with a parameter, which is given the first expression.
abbrev with_parameter : BlockType
with_parameter = record { arguments = ValType.i32 ∷ []; results = [] }

abbrev entered_block : ActiveBlock
entered_block = new outermost.ctx with_parameter one_local none

abbrev assigned_block : ActiveBlock
assigned_block = record entered_block {
  ctx = store_all entered_block.ctx (0 ∷ []) entered_block.arguments;
}

assign_arguments_unseen_example :
    (xs : List ℕ) × Point assigned_block.ctx.expressions 1 assigned_block.arguments xs
    × (m : Machine ℕ ℕ) × (exec_block numbers assigned_block.ctx.expressions 1
          assigned_block.ctx.block begun
        ≡ (m, falls))
    × (map (value numbers assigned_block.ctx.expressions m) assigned_block.stack
        ≡ map begun.variables (reverse_onto xs []))
unfolding assign_arguments store_all_eq new get_label append_local append_all_locals push_loads
    exec_block
assign_arguments_unseen_example =
    assign_arguments_unseen numbers 1 begun begun outermost.ctx with_parameter one_local none
      (0 ∷ []) assigned_block tt refl refl

-- A loop in a block, left by a conditional branch or repeated, and then a conditional with two arms.
abbrev nested_operators : List Operator
nested_operators =
    block ParsedBlockType.empty
    ∷ loop ParsedBlockType.empty
    ∷ mvp (i32_const 1)
    ∷ br_if 1
    ∷ br 0
    ∷ end
    ∷ end
    ∷ mvp (i32_const 1)
    ∷ if ParsedBlockType.empty
    ∷ mvp op_nop
    ∷ els
    ∷ mvp op_nop
    ∷ end
    ∷ end
    ∷ []

populate_base_function-Returns_example :
    Ends
      (λ (ctx : BlockContext). Returns ctx.block)
      (populate_base_function [] none one_local.locals true outermost.ctx nested_operators)
populate_base_function-Returns_example =
    populate_base_function-Returns [] none one_local.locals true outermost.ctx nested_operators

-- The translation of these operators succeeds.
abbrev succeeds {ℓ} : {A : Type ℓ} → Outcome A → Bool
succeeds (ok a) = true
succeeds (Outcome.err fault) = false

nested_operators_translated :
    succeeds (populate_base_function [] none one_local.locals true outermost.ctx nested_operators)
    ≡ true
unfolding wasm_gpu.ActiveBlock.Function.components_len wasm_gpu.ActiveBlock.Function.new_body_data
    wasm_gpu.ActiveBlock.Function.populate_base_function
    wasm_gpu.ActiveBlock.Populate.eat_basic_block wasm_gpu.ActiveBlock.Populate.leave_to
    wasm_gpu.ActiveBlock.Populate.test_top_label wasm_gpu.ActiveBlock.Populate.branch_out
    wasm_gpu.ActiveBlock.Populate.skip_rest wasm_gpu.ActiveBlock.Populate.control_flow
    wasm_gpu.ActiveBlock.Populate.after_operation wasm_gpu.ActiveBlock.Populate.do_operation
    wasm_gpu.ActiveBlock.Populate.end_of wasm_gpu.ActiveBlock.Populate.round
    wasm_gpu.ActiveBlock.Populate.populate wasm_gpu.ActiveBlock.Populate.Operations.do_br
    wasm_gpu.ActiveBlock.Populate.Operations.pop_condition
    wasm_gpu.ActiveBlock.Populate.Operations.do_br_if
    wasm_gpu.ActiveBlock.Populate.Operations.push_results
    wasm_gpu.ActiveBlock.Populate.Operations.do_block
    wasm_gpu.ActiveBlock.Populate.Operations.accept_arm
    wasm_gpu.ActiveBlock.Populate.Operations.reject_arm
    wasm_gpu.ActiveBlock.Populate.Operations.do_if
    wasm_gpu.ActiveBlock.Populate.Operations.loop_body
    wasm_gpu.ActiveBlock.Populate.Operations.do_loop wasm_gpu.ActiveBlock.Blocks.append_local
    wasm_gpu.ActiveBlock.Blocks.append_all_locals wasm_gpu.ActiveBlock.Blocks.get_label
    wasm_gpu.ActiveBlock.Blocks.unset wasm_gpu.ActiveBlock.Blocks.if_is_set
    wasm_gpu.ActiveBlock.Blocks.push_loads wasm_gpu.ActiveBlock.Blocks.labels_above
    wasm_gpu.ActiveBlock.Blocks.new wasm_gpu.ActiveBlock.Blocks.store_all
    wasm_gpu.ActiveBlock.Blocks.store_all_eq wasm_gpu.ActiveBlock.Blocks.assign_arguments
    wasm_gpu.ActiveBlock.Blocks.push_store_stack_in_results wasm_gpu.ActiveBlock.Blocks.close
    wasm_gpu.ActiveBlock.Blocks.finish wasm_gpu.ActiveBlock.Blocks.pop_args
    wasm_gpu.ActiveBlock.Blocks.push_return wasm_gpu.ActiveBlock.Blocks.push_final_return
    wasm_gpu.ActiveBlock.push wasm_gpu.ActiveBlock.pop wasm_gpu.ActiveBlock.perform
    wasm_gpu.Naga.new_local wasm_gpu.Naga.store wasm_gpu.Naga.call_get_return wasm_gpu.Naga.cycle
    wasm_gpu.Naga.try_then wasm_gpu.Naga.otherwise wasm_gpu.Mvp.mvp_instruction
    wasm_gpu.ControlFlow.from_parsed wasm_gpu.ControlFlow.from_return_type
    wasm_gpu.ControlFlow.union wasm_gpu.ControlFlow.default wasm_gpu.ControlFlow.br_if_state
    wasm_gpu.ControlFlow.return_state wasm_gpu.ControlFlow.exit_state
    wasm_gpu.ControlFlow.eat_to_end wasm_gpu.LinkedStack.push wasm_gpu.LinkedStack.peek_nth
nested_operators_translated = refl
