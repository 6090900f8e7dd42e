-- ===== src/ControlFlow/States.antt =====
-- active_block.rs (`ControlFlowState`): the state that a block exits with.
use wasm_gpu.Prelude.{ℕ, ◌≡◌, refl, sym, ap, List, [], ◌∷◌, Option, none, some, arith}
use wasm_gpu.ControlFlow.{
  ControlFlowState, option_min, option_max, concat, decrement, decrement_depth, default, exit_state,
}

option_min-none : (o : Option ℕ) → option_min o none ≡ none
unfolding option_min
option_min-none none = refl
option_min-none (some n) = refl

-- The deepest branch of a list of states, seen from one block above.
abbrev pub deepest : List ControlFlowState → Option ℕ
deepest [] = none
deepest (s ∷ states) = option_max (decrement_depth s.lower_conditional_depth) (deepest states)

option_max-none : (o : Option ℕ) → option_max o none ≡ o
unfolding option_max
option_max-none none = refl
option_max-none (some m) = refl

option_max_assoc :
    (o p q : Option ℕ) → option_max (option_max o p) q ≡ option_max o (option_max p q)
unfolding option_max
option_max_assoc none p q = refl
option_max_assoc (some m) none q = refl
option_max_assoc (some m) (some n) none = refl
option_max_assoc (some m) (some n) (some k) = ap some (omega arith)

-- A state without the two lower bounds.
abbrev pub conditional : Option ℕ → ControlFlowState
conditional o = record {
  lower_unconditional_depth = none;
  upper_conditional_depth = none;
  lower_conditional_depth = o;
}

concat-conditional :
    (o : Option ℕ) (t : ControlFlowState)
    → concat (conditional o) t ≡ conditional (option_max o t.lower_conditional_depth)
unfolding concat option_min
concat-conditional o t = rw (option_min-none t.lower_unconditional_depth) refl

exit_state-conditional :
    (o : Option ℕ) (states : List ControlFlowState)
    → exit_state (conditional o) states ≡ conditional (option_max o (deepest states))
unfolding exit_state decrement
exit_state-conditional o [] = ap conditional (sym (option_max-none o))
exit_state-conditional o (s ∷ states) =
    rw
      (
        concat-conditional o (decrement s),
        exit_state-conditional (option_max o (decrement_depth s.lower_conditional_depth)) states,
        option_max_assoc o (decrement_depth s.lower_conditional_depth) (deepest states),
      )
      refl

-- However a block branches, its exit state has neither an unconditional depth nor a lower bound on the
-- conditional one, since the lesser of a depth and none is none and a block starts with none; its upper
-- bound is the deepest branch of its operators, seen from outside the block.
pub exit_state_lem :
    (states : List ControlFlowState)
    → ((exit_state default states).lower_unconditional_depth ≡ none)
      × ((exit_state default states).upper_conditional_depth ≡ none)
      × ((exit_state default states).lower_conditional_depth ≡ deepest states)
unfolding default option_max
exit_state_lem states =
    let same = exit_state-conditional none states in
    (
      ap (λ s. s.lower_unconditional_depth) same,
      ap (λ s. s.upper_conditional_depth) same,
      ap (λ s. s.lower_conditional_depth) same,
    )
