-- ===== src/ActiveBlock/Fuel.antt =====
-- active_block.rs (`populate`): the translation of a block ends, and never reads beyond its operators.
use wasm_gpu.Prelude.{
  ℕ, zero, suc, ◌≤◌, ◌<◌, Bool, List, [], ◌∷◌, length, Option, none, some, arith,
}
use wasm_gpu.Mvp.{mvp_instruction, sign_extension_instruction}
use wasm_gpu.ControlFlow.{
  Operator, block, if, loop, els, end, br, br_if, leave, br_table, call, call_indirect, simd,
  threads, mvp, sign_extension, other, eat_at, eat_to_end,
}
use wasm_gpu.Naga.{BlockContext}
use wasm_gpu.ActiveBlock.{ActiveBlock, BodyData, BlockLabel, perform}
use wasm_gpu.ActiveBlock.Blocks.{on_r0_branching, on_rp_branching, push_store_stack_in_results}
use wasm_gpu.ActiveBlock.Populate.{
  eat_simd_operator, eat_threads_operator, EndInstruction, Populate, eat_basic_block, filled,
  leave_to, test_top_label, skip_rest, control_flow, branch_out, after_operation, do_operation,
  end_of, round, populate,
}
use wasm_gpu.ActiveBlock.Ending.{
  Any, Ends, Ends-bind, otherwise-bind, perform-Ends, try_then-bind, weaker,
}
use wasm_gpu.ActiveBlock.Nested.{Shrinks, do_operation-Ends}

eat_at-le : (l : List Operator) (depth : ℕ) → length (eat_at l depth) ≤ length l
unfolding eat_at
eat_at-le [] depth = omega arith
eat_at-le (end ∷ l) zero = omega arith
eat_at-le (end ∷ l) (suc depth) = omega (arith, eat_at-le l depth)
eat_at-le (block ty ∷ l) depth = omega (arith, eat_at-le l (suc depth))
eat_at-le (if ty ∷ l) depth = omega (arith, eat_at-le l (suc depth))
eat_at-le (loop ty ∷ l) depth = omega (arith, eat_at-le l (suc depth))
eat_at-le (els ∷ l) depth = omega (arith, eat_at-le l depth)
eat_at-le (br d ∷ l) depth = omega (arith, eat_at-le l depth)
eat_at-le (br_if d ∷ l) depth = omega (arith, eat_at-le l depth)
eat_at-le (leave ∷ l) depth = omega (arith, eat_at-le l depth)
eat_at-le (br_table ∷ l) depth = omega (arith, eat_at-le l depth)
eat_at-le (call ∷ l) depth = omega (arith, eat_at-le l depth)
eat_at-le (call_indirect ∷ l) depth = omega (arith, eat_at-le l depth)
eat_at-le (simd ∷ l) depth = omega (arith, eat_at-le l depth)
eat_at-le (threads ∷ l) depth = omega (arith, eat_at-le l depth)
eat_at-le (mvp op ∷ l) depth = omega (arith, eat_at-le l depth)
eat_at-le (sign_extension op ∷ l) depth = omega (arith, eat_at-le l depth)
eat_at-le (other op ∷ l) depth = omega (arith, eat_at-le l depth)

-- The operators that are left are fewer.
eat_basic_block-Ends :
    (body : BodyData) (self : ActiveBlock) (l : List Operator)
    → Ends (λ r. length r.2 < length l) (eat_basic_block body self l)
unfolding eat_basic_block eat_simd_operator eat_threads_operator
eat_basic_block-Ends body self [] = λ e. cc
eat_basic_block-Ends body self (mvp op ∷ l) =
    Ends-bind Any _ (perform body self (mvp_instruction op)) _
      (perform-Ends body self (mvp_instruction op))
      (λ self' _.
        weaker _ _ (eat_basic_block body self' l) (λ r h. omega (arith, h))
          (eat_basic_block-Ends body self' l))
eat_basic_block-Ends body self (sign_extension op ∷ l) =
    Ends-bind Any _ (perform body self (sign_extension_instruction op)) _
      (perform-Ends body self (sign_extension_instruction op))
      (λ self' _.
        weaker _ _ (eat_basic_block body self' l) (λ r h. omega (arith, h))
          (eat_basic_block-Ends body self' l))
eat_basic_block-Ends body self (simd ∷ l) = λ e. cc
eat_basic_block-Ends body self (threads ∷ l) = λ e. cc
eat_basic_block-Ends body self (other op ∷ l) = λ e. cc
eat_basic_block-Ends body self (block ty ∷ l) = omega arith
eat_basic_block-Ends body self (if ty ∷ l) = omega arith
eat_basic_block-Ends body self (loop ty ∷ l) = omega arith
eat_basic_block-Ends body self (els ∷ l) = omega arith
eat_basic_block-Ends body self (end ∷ l) = omega arith
eat_basic_block-Ends body self (br d ∷ l) = omega arith
eat_basic_block-Ends body self (br_if d ∷ l) = omega arith
eat_basic_block-Ends body self (leave ∷ l) = omega arith
eat_basic_block-Ends body self (br_table ∷ l) = omega arith
eat_basic_block-Ends body self (call ∷ l) = omega arith
eat_basic_block-Ends body self (call_indirect ∷ l) = omega arith

leave_to-Ends :
    (looping : Bool) (self : ActiveBlock) (ctx : BlockContext) (parent : Option BlockLabel)
    → Ends Any (leave_to looping self ctx parent)
unfolding leave_to
leave_to-Ends looping self ctx none = tt
leave_to-Ends looping self ctx (some parent) =
    try_then-bind Any Any _ _ (λ c. filled (on_rp_branching looping (record self { ctx = c }))) _
      (λ _. tt)
      (λ t _.
        otherwise-bind Any Any t.1 t.2
          (λ c. filled (on_r0_branching looping (record self { ctx = c }))) _ (λ _. tt) (λ _ _. tt))

branch_out-Ends :
    (looping : Bool) (self : ActiveBlock) (depth : Option ℕ)
    → Ends Any (branch_out looping self depth)
unfolding branch_out test_top_label
branch_out-Ends looping self (some zero) = tt
branch_out-Ends looping self (some (suc depth)) = tt
branch_out-Ends looping self none =
    Ends-bind Any Any (leave_to looping self _ _) _ (leave_to-Ends looping self _ _) (λ _ _. tt)

skip_rest-le : (depth : Option ℕ) (l : List Operator) → length (skip_rest depth l) ≤ length l
unfolding skip_rest eat_to_end
skip_rest-le none l = omega arith
skip_rest-le (some depth) l = eat_at-le l 0

control_flow-Ends :
    (looping : Bool) (self : ActiveBlock) (conditional unconditional : Option ℕ) (l : List Operator)
    → Ends (λ r. length r.1 ≤ length l) (control_flow looping self conditional unconditional l)
unfolding control_flow
control_flow-Ends looping self none unconditional l = omega arith
control_flow-Ends looping self (some depth) unconditional l =
    Ends-bind Any _ (branch_out looping (push_store_stack_in_results self) unconditional) _
      (branch_out-Ends looping (push_store_stack_in_results self) unconditional)
      (λ _ _. skip_rest-le unconditional l)

round-Ends :
    (n : ℕ) (inner : Populate) (body : BodyData) (looping : Bool) (self : ActiveBlock)
    (op : Operator) (l : List Operator) (e : Option EndInstruction)
    → Shrinks n inner
    → length l ≤ n
    → Ends (λ r. length r.2 ≤ length l) (round inner body looping self op l e)
unfolding round after_operation
round-Ends n inner body looping self op l (some e) shrinks le = omega arith
round-Ends n inner body looping self op l none shrinks le =
    Ends-bind _ _ (do_operation inner body self op l) _
      (do_operation-Ends n inner shrinks body self op l le)
      (λ q h.
        Ends-bind _ _ (after_operation looping q.1 q.0 q.2) _ (control_flow-Ends looping _ _ _ q.2)
          (λ t h'.
            weaker _ _ (inner looping t.0 t.1) (λ r h''. omega (arith, h, h', h''))
              (shrinks looping t.0 t.1 (omega (arith, le, h, h')))))

-- The translation of a block ends: with more fuel than there are operators it never runs out, and where
-- it succeeds there are fewer operators left than it was given.
pub populate-Ends :
    (fuel : ℕ) (body : BodyData) (looping : Bool) (self : ActiveBlock) (l : List Operator)
    → length l < fuel
    → Ends (λ r. length r.2 < length l) (populate fuel body looping self l)
unfolding populate
populate-Ends zero body looping self l h = absurd (omega arith)
populate-Ends (suc fuel) body looping self l h =
    Ends-bind _ _ (eat_basic_block body self l) _ (eat_basic_block-Ends body self l) (λ q shorter.
      weaker _ _ (round (populate fuel body) body looping q.1 q.0 q.2 (end_of q.0))
        (λ r h'. omega (arith, shorter, h'))
        (round-Ends (length q.2) (populate fuel body) body looping q.1 q.0 q.2 (end_of q.0)
          (λ looping' self' l' le.
            weaker _ _ (populate fuel body looping' self' l') (λ r h'. omega (arith, h'))
              (populate-Ends fuel body looping' self' l' (omega (arith, h, shorter, le))))
          (omega arith)))
