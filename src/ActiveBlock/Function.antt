-- ===== src/ActiveBlock/Function.antt =====
-- wasm-gpu-transpiler/src/active_function.rs (`populate_base_function`): the translation of the body of a
-- function. The fuel is one more than the number of operators, which is enough.
use wasm_gpu.Prelude.{
  refl, ◌≡◌, ℕ, suc, List, [], length, Option, none, some, Bool, true, false, Outcome, ok, err,
  ◌>>=◌, ◌>>◌, assertion_failed, arith,
}
use wasm_gpu.Typed.{ValType}
use wasm_gpu.Functions.{FuncType}
use wasm_gpu.Locals.{FnLocal}
use wasm_gpu.ControlFlow.{Operator, from_return_type, default}
use wasm_gpu.Naga.{
  Block, BlockContext, pushed, return_statement, push_statement, void_return, result, compose,
  word_ty, literal, bool_literal, u32_literal, local_variable, append_expr, new_local,
}
use wasm_gpu.ActiveBlock.{ActiveBlock, BodyData}
use wasm_gpu.ActiveBlock.Blocks
use wasm_gpu.ActiveBlock.Blocks.{
  finish, push_final_return, push_return, pop_args, push_store_stack_in_results,
}
use wasm_gpu.ActiveBlock.Populate.{EndInstruction, ends, elses, populate}
use wasm_gpu.ActiveBlock.Ending.{Ends, Any, Ends-bind, pop_args-Ends}
use wasm_gpu.ActiveBlock.ExitState.{Passable, populate-Passable}
use wasm_gpu.ActiveBlock.Keeping.{Holds}
use wasm_gpu.ActiveBlock.Fuel.{populate-Ends}

-- The number of values that a function returns, where it returns any.
unfoldable pub components_len : Option (List ValType) → Option ℕ
components_len none = none
components_len (some components) = some (length components)

-- `BodyData::new` with `BlockLabelGen::new`; the counter that it declares is never read.
unfoldable pub new_body_data :
    List FuncType
    → Option (List ValType)
    → List (ℕ × FnLocal)
    → Bool
    → BlockContext
    → BodyData × BlockContext
new_body_data types return_type locals disjoint_memory ctx =
    let (zero_expr, ctx) = append_expr ctx (literal (u32_literal 0)) in
    let (counter, ctx) = new_local ctx word_ty (some zero_expr) in
    let (trap_check_counter, ctx) = append_expr ctx (local_variable counter) in
    let (false_expr, ctx) = append_expr ctx (literal (bool_literal false)) in
    let (true_expr, ctx) = append_expr ctx (literal (bool_literal true)) in
    (
      record {
        types = types;
        locals = locals;
        return_type = components_len return_type;
        disjoint_memory = disjoint_memory;
        false_expr = false_expr;
        true_expr = true_expr;
      },
      ctx,
    )

-- `assert_eq!` on the operator that ended the body.
unfoldable pub assert_end : EndInstruction → Outcome (Unit {0})
assert_end ends = ok tt
assert_end elses = err assertion_failed

-- The return behind the body, where control flow may get there.
unfoldable pub return_at_end : BodyData → ActiveBlock → List ℕ → Option ℕ → Outcome BlockContext
return_at_end body self results none = do self ← push_final_return body self results; ok self.ctx
return_at_end body self results (some depth) = ok self.ctx

unfoldable pub populate_base_function :
    List FuncType
    → Option (List ValType)
    → List (ℕ × FnLocal)
    → Bool
    → BlockContext
    → List Operator
    → Outcome BlockContext
unfolding assert_end return_at_end
populate_base_function types return_type locals disjoint_memory ctx operators = do
  let (body_data, ctx) = new_body_data types return_type locals disjoint_memory ctx
  let base_block = Blocks.new ctx (from_return_type return_type) body_data none
  (ended, base_block, instructions) ←
      populate (suc (length operators)) body_data false base_block operators
  assert_end ended
  let (results, control_flow_state, ctx) = finish base_block
  return_at_end body_data (record base_block { ctx = ctx }) results
      control_flow_state.lower_unconditional_depth

-- The last statement of a block is a return.
abbrev pub Returns : Block → Type 0
Returns block =
    (before : Block) × (value : Option ℕ) × (block ≡ pushed before (return_statement value))

push_return-Returns :
    (body : BodyData) (self : ActiveBlock)
    → Ends (λ (q : ActiveBlock). Returns q.ctx.block) (push_return body self)
unfolding push_return void_return result push_statement
push_return-Returns body self = go body.return_type
  where
    go :
        (o : Option ℕ)
        → Ends
            (λ (q : ActiveBlock). Returns q.ctx.block)
            (elim o [
              | none ↦ ok (record self { ctx = void_return self.ctx })
              | some required_values ↦ do
                (results, self) ← pop_args required_values [] self
                let (struct_build, ctx) = append_expr self.ctx (compose results)
                ok (record self { ctx = result ctx struct_build })
            ])
    go none = (self.ctx.block, none, refl)
    go (some n) =
        Ends-bind Any _ (pop_args n [] self) _ (pop_args-Ends n [] self)
          (λ q _. ((append_expr q.1.ctx (compose q.0)).1.block, some _, refl))

return_at_end-Returns :
    (body : BodyData) (self : ActiveBlock) (results : List ℕ) (depth : Option ℕ)
    → depth ≡ none
    → Ends (λ (ctx : BlockContext). Returns ctx.block) (return_at_end body self results depth)
unfolding return_at_end push_final_return
return_at_end-Returns body self results none h =
    Ends-bind _ _ (push_return body _) _ (push_return-Returns body _) (λ q returns. returns)
return_at_end-Returns body self results (some depth) h = cc h

-- A result that holds wherever there is one, of a call that ends.
Ends-Holds {ℓ} : {A : Type ℓ} (P Q : A → Type 0) (o : Outcome A) → Ends P o → Holds Q o → Ends Q o
Ends-Holds P Q (ok a) h k = k
Ends-Holds P Q (err fault) h k = h

-- The translation of the body of a function ends, whatever its operators are: it never runs out of fuel.
-- Where it succeeds, the last statement of the function is a return, behind all that was translated: the
-- exit state of a body never promises an unconditional branch, so that the final return is always pushed.
pub populate_base_function-Returns :
    (types : List FuncType) (return_type : Option (List ValType)) (locals : List (ℕ × FnLocal))
    (disjoint_memory : Bool) (ctx : BlockContext) (operators : List Operator)
    → Ends
        (λ (ctx' : BlockContext). Returns ctx'.block)
        (populate_base_function types return_type locals disjoint_memory ctx operators)
unfolding populate_base_function assert_end finish push_store_stack_in_results Blocks.new default
populate_base_function-Returns types return_type locals disjoint_memory ctx operators =
    let (body, ctx) = new_body_data types return_type locals disjoint_memory ctx in
    let base_block = Blocks.new ctx (from_return_type return_type) body none in
    let n = suc (length operators) in
    Ends-bind (λ (r : EndInstruction × ActiveBlock × List Operator). Passable r.1.exit_state) _
      (populate n body false base_block operators) _
      (Ends-Holds _ _ (populate n body false base_block operators)
        (populate-Ends n body false base_block operators (omega arith))
        (populate-Passable n body false base_block operators (refl, refl)))
      (λ r passable.
        Ends-bind Any _ (assert_end r.0) _ (assert_end-Ends r.0)
          (λ _ _. return_at_end-Returns body _ _ _ passable.0))
  where
    assert_end-Ends : (e : EndInstruction) → Ends Any (assert_end e)
    assert_end-Ends ends = tt
    assert_end-Ends elses = λ e. cc
