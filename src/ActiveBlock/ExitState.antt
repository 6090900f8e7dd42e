-- ===== src/ActiveBlock/ExitState.antt =====
-- active_block.rs (`populate`): the exit state of a block while it is populated.
use wasm_gpu.Prelude.{
  subst, ℕ, zero, suc, List, [], ◌∷◌, length, Option, none, some, Bool, false, Outcome, ◌≡◌, refl,
  sym, ◌∙◌,
}
use wasm_gpu.Mvp.{mvp_instruction, sign_extension_instruction}
use wasm_gpu.ControlFlow.{
  Operator, block, if, loop, els, end, br, br_if, leave, br_table, call, call_indirect, simd,
  threads, mvp, sign_extension, other, ControlFlowState, from_parsed, concat, decrement, option_min,
}
use wasm_gpu.Naga.{try_then, otherwise, cycle}
use wasm_gpu.ActiveBlock.{ActiveBlock, BodyData, perform}
use wasm_gpu.ActiveBlock.Blocks.{
  assign_arguments, pop_args, push_return, push_store_stack_in_results,
}
use wasm_gpu.ActiveBlock.Populate.{
  Populate, EndInstruction, eat_basic_block, eat_simd_operator, eat_threads_operator, do_br,
  do_br_if, pop_condition, do_return, do_block, do_if, do_loop, push_results, do_operation,
  branch_out, leave_to, test_top_label, control_flow, after_operation, round, populate, end_of,
}
use wasm_gpu.ActiveBlock.Keeping.{
  Holds, Holds-bind, Holds-after, Holds-weaken, Same, Same₁, perform-Same, pop_args-Same,
  push_return-Same, pop_condition-Same,
}

module _ (inner : Populate) (body : BodyData) where
  -- What an operator of control flow does to a block keeps its exit state.
  do_operation-Same :
      (self : ActiveBlock) (op : Operator) (l : List Operator)
      → Holds
          (λ (r : ControlFlowState × ActiveBlock × List Operator). Same self r.1)
          (do_operation inner body self op l)
  unfolding do_operation do_br do_br_if do_return do_block do_if do_loop push_results
  do_operation-Same self (br depth) l = refl
  do_operation-Same self (br_if depth) l =
      Holds-bind (Same₁ self) _ (do_br_if self depth) _
        (Holds-bind _ _ (pop_condition self) _ (pop_condition-Same self)
          (λ q h. Holds-after _ (try_then _ _ _) _ (λ _. h)))
        (λ q h. h)
  do_operation-Same self (block ty) l = Holds-after _ (from_parsed ty body.types) _ (λ bt.
      Holds-bind _ _ (pop_args (length bt.arguments) [] self) _
        (pop_args-Same (length bt.arguments) [] self)
        (λ r h.
          Holds-after _ (assign_arguments _ r.0) _
            (λ entered. Holds-after _ (inner false entered l) _ (λ _. h))))
  do_operation-Same self (if ty) l =
      Holds-bind _ _ (pop_condition self) _ (pop_condition-Same self) (λ c h.
        Holds-after _ (from_parsed ty body.types) _ (λ bt.
          Holds-bind _ _ (pop_args (length bt.arguments) [] c.1) _
            (pop_args-Same (length bt.arguments) [] c.1)
            (λ r h'.
              Holds-after _ (try_then _ _ _) _
                (λ t. Holds-after _ (otherwise t.1 t.2 _) _ (λ _. h' ∙ h)))))
  do_operation-Same self (loop ty) l = Holds-after _ (from_parsed ty body.types) _ (λ bt.
      Holds-bind _ _ (pop_args (length bt.arguments) [] _) _
        (pop_args-Same (length bt.arguments) [] _) (λ r h. Holds-after _ (cycle _ _) _ (λ _. h)))
  do_operation-Same self leave l =
      Holds-bind (Same₁ self) _ (do_return body self) _
        (Holds-bind _ _ (push_return body self) _ (push_return-Same body self) (λ q h. h))
        (λ q h. h)
  do_operation-Same self els l = tt
  do_operation-Same self end l = tt
  do_operation-Same self br_table l = tt
  do_operation-Same self call l = tt
  do_operation-Same self call_indirect l = tt
  do_operation-Same self simd l = tt
  do_operation-Same self threads l = tt
  do_operation-Same self (mvp op) l = tt
  do_operation-Same self (sign_extension op) l = tt
  do_operation-Same self (other op) l = tt

eat_basic_block-Same :
    (body : BodyData) (self : ActiveBlock) (l : List Operator)
    → Holds
        (λ (r : Operator × ActiveBlock × List Operator). Same self r.1)
        (eat_basic_block body self l)
unfolding eat_basic_block eat_simd_operator eat_threads_operator
eat_basic_block-Same body self [] = tt
eat_basic_block-Same body self (mvp op ∷ l) =
    Holds-bind (Same self) _ (perform body self (mvp_instruction op)) _
      (perform-Same body self (mvp_instruction op))
      (λ self' h.
        Holds-weaken _ _ (eat_basic_block body self' l) (λ r h'. h' ∙ h)
          (eat_basic_block-Same body self' l))
eat_basic_block-Same body self (sign_extension op ∷ l) =
    Holds-bind (Same self) _ (perform body self (sign_extension_instruction op)) _
      (perform-Same body self (sign_extension_instruction op))
      (λ self' h.
        Holds-weaken _ _ (eat_basic_block body self' l) (λ r h'. h' ∙ h)
          (eat_basic_block-Same body self' l))
eat_basic_block-Same body self (simd ∷ l) = tt
eat_basic_block-Same body self (threads ∷ l) = tt
eat_basic_block-Same body self (other op ∷ l) = tt
eat_basic_block-Same body self (block ty ∷ l) = refl
eat_basic_block-Same body self (if ty ∷ l) = refl
eat_basic_block-Same body self (loop ty ∷ l) = refl
eat_basic_block-Same body self (els ∷ l) = refl
eat_basic_block-Same body self (end ∷ l) = refl
eat_basic_block-Same body self (br d ∷ l) = refl
eat_basic_block-Same body self (br_if d ∷ l) = refl
eat_basic_block-Same body self (leave ∷ l) = refl
eat_basic_block-Same body self (br_table ∷ l) = refl
eat_basic_block-Same body self (call ∷ l) = refl
eat_basic_block-Same body self (call_indirect ∷ l) = refl

branch_out-Same :
    (looping : Bool) (self : ActiveBlock) (depth : Option ℕ)
    → Holds (Same self) (branch_out looping self depth)
unfolding branch_out test_top_label
branch_out-Same looping self (some zero) = refl
branch_out-Same looping self (some (suc depth)) = refl
branch_out-Same looping self none = Holds-after _ (leave_to looping self _ _) _ (λ _. refl)

control_flow-Same :
    (looping : Bool) (self : ActiveBlock) (conditional unconditional : Option ℕ) (l : List Operator)
    → Holds
        (λ (r : ActiveBlock × List Operator). Same self r.0)
        (control_flow looping self conditional unconditional l)
unfolding control_flow push_store_stack_in_results
control_flow-Same looping self none unconditional l = refl
control_flow-Same looping self (some depth) unconditional l =
    Holds-bind (Same self) _ (branch_out looping (push_store_stack_in_results self) unconditional) _
      (branch_out-Same looping (push_store_stack_in_results self) unconditional) (λ self' h. h)

-- An exit state that promises no branch: the end of the block may be reached.
abbrev pub Passable : ControlFlowState → Type 0
Passable s = (s.lower_unconditional_depth ≡ none) × (s.upper_conditional_depth ≡ none)

concat-Passable : (s t : ControlFlowState) → Passable s → Passable (concat s t)
unfolding concat option_min
concat-Passable s t (u, c) = rw (u, c) (min_none t.lower_unconditional_depth, refl)
  where
    min_none : (o : Option ℕ) → option_min o none ≡ none
    min_none none = refl
    min_none (some depth) = refl

-- What holds of the states that a populated block may be left in.
abbrev Passes : Outcome (EndInstruction × ActiveBlock × List Operator) → Type 0
Passes o = Holds (λ (r : EndInstruction × ActiveBlock × List Operator). Passable r.1.exit_state) o

round-Passes :
    (inner : Populate) (body : BodyData) (looping : Bool) (state : ActiveBlock) (op : Operator)
    (rest : List Operator) (e : Option EndInstruction)
    → ((self : ActiveBlock) (l : List Operator)
        → Passable self.exit_state
        → Passes (inner looping self l))
    → Passable state.exit_state
    → Passes (round inner body looping state op rest e)
unfolding round after_operation
round-Passes inner body looping state op rest (some e) next p = p
round-Passes inner body looping state op rest none next p =
    Holds-bind _ _ (do_operation inner body state op rest) _
      (do_operation-Same inner body state op rest)
      (λ q same.
        Holds-bind _ _ (after_operation looping q.1 q.0 q.2) _ (control_flow-Same looping _ _ _ q.2)
          (λ t same'. next t.0 t.1 (
            subst Passable (sym same')
              (concat-Passable q.1.exit_state (decrement q.0) (subst Passable (sym same) p)))))

-- A block whose exit state is passable keeps it so while it is populated.
pub populate-Passable :
    (fuel : ℕ) (body : BodyData) (looping : Bool) (self : ActiveBlock) (l : List Operator)
    → Passable self.exit_state
    → Holds
        (λ (r : EndInstruction × ActiveBlock × List Operator). Passable r.1.exit_state)
        (populate fuel body looping self l)
unfolding populate
populate-Passable zero body looping self l h = tt
populate-Passable (suc fuel) body looping self l h =
    Holds-bind _ _ (eat_basic_block body self l) _ (eat_basic_block-Same body self l) (λ q same.
      round-Passes (populate fuel body) body looping q.1 q.0 q.2 (end_of q.0)
        (λ self' l' h'. populate-Passable fuel body looping self' l' h')
        (subst Passable (sym same) h))
