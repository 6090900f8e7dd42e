-- ===== src/Tests/Control.antt =====
-- The theorems about the translation of control flow at concrete inputs.
use wasm_gpu.Prelude.{ℕ, ◌≡◌, ◌≢◌, refl, List, [], ◌∷◌, ◌++◌, none, take, All, arith}
use wasm_gpu.LinkedStack.{LinkedStack, bottom, above, peek_nth}
use wasm_gpu.LinkedStack.Peeking.{values}
use wasm_gpu.ControlFlow.{
  ControlFlowState, default, br_state, br_if_state, exit_state, els, end, ParsedBlockType,
  eat_to_end, break_labels,
}
use wasm_gpu.ControlFlow.States.{deepest, exit_state_lem}
use wasm_gpu.ControlFlow.Skipping.{Code, flatten, eat_to_end_lem}
use wasm_gpu.ControlFlow.Skipping
use wasm_gpu.ControlFlow.Labels.{break_labels_miss_target}

-- A conditional branch out of two blocks, which is not taken, and then a branch out of three.
abbrev two_branches : List ControlFlowState
two_branches = br_if_state 1 ∷ br_state 2 ∷ []

exit_state_lem_example :
    ((exit_state default two_branches).lower_unconditional_depth ≡ none)
    × ((exit_state default two_branches).upper_conditional_depth ≡ none)
    × ((exit_state default two_branches).lower_conditional_depth ≡ deepest two_branches)
exit_state_lem_example = exit_state_lem two_branches

-- A block that works and branches, and then work of its own.
abbrev first_arm : Code
first_arm =
    Code.nest Skipping.Opening.open_block ParsedBlockType.empty
      (Code.work 1 (Code.call (Code.branch 0 Code.done))) (Code.work 2 Code.done)

abbrev second_arm : Code
second_arm = Code.work 3 Code.done

eat_to_end_lem_example :
    (eat_to_end (flatten first_arm ++ (end ∷ [])) ≡ end ∷ [])
    × (eat_to_end (flatten first_arm ++ (els ∷ (flatten second_arm ++ (end ∷ [])))) ≡ end ∷ [])
eat_to_end_lem_example = eat_to_end_lem first_arm second_arm []

abbrev three_labels : LinkedStack ℕ
three_labels = above 2 (above 1 (bottom 0))

break_labels_miss_target_example :
    (break_labels three_labels 1 ≡ take 1 (values three_labels))
    × All (λ label. label ≢ 1) (break_labels three_labels 1)
unfolding peek_nth
break_labels_miss_target_example =
    break_labels_miss_target three_labels 1 1
      ((λ e. omega arith, (λ e. omega arith, tt)), ((λ e. omega arith, tt), (tt, tt))) refl
