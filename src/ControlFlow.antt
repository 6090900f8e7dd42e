-- ===== src/ControlFlow.antt =====
-- wasm-gpu-transpiler/src/active_function/active_block.rs: how far the branches of a block may leave,
-- the labels that a branch sets, and the operators that are skipped behind one. `leave` is `return`; operators
-- of other proposals are kept by their opcode.
pub mod States
pub mod Skipping
pub mod Labels
use wasm_gpu.Prelude.{
  ℕ, zero, suc, ◌-◌, min, max, List, [], ◌∷◌, map, Option, none, some, Outcome, ok, ◌>>=◌, expect,
  get_elem?, malformed, u32_mod,
}
use wasm_gpu.LinkedStack.{LinkedStack, PeekedLinkedStack, peek_n, collect}
use wasm_gpu.Typed.{ValType}
use wasm_gpu.Functions.{FuncType}
use wasm_gpu.Mvp.{MvpOperator, SignExtensionOperator}

-- `wasmparser::BlockType`
pub data ParsedBlockType : Type 0 where
  empty : ParsedBlockType
  type : ValType → ParsedBlockType
  func_type : ℕ → ParsedBlockType

pub record BlockType : Type 0 where
  pub arguments : List ValType
  pub results : List ValType

unfoldable pub from_parsed : ParsedBlockType → List FuncType → Outcome BlockType
from_parsed empty func_types = ok (record { arguments = []; results = [] })
from_parsed (type t) func_types = ok (record { arguments = []; results = t ∷ [] })
from_parsed (func_type ft_id) func_types = do
  ty ← expect (get_elem? func_types ft_id) malformed
  ok (record { arguments = ty.params; results = ty.results })

unfoldable pub from_return_type : Option (List ValType) → BlockType
from_return_type none = record { arguments = []; results = [] }
from_return_type (some results) = record { arguments = []; results = results }

pub record ControlFlowState : Type 0 where
  pub lower_unconditional_depth : Option ℕ
  pub upper_conditional_depth : Option ℕ
  pub lower_conditional_depth : Option ℕ

-- `Ord::min` and `Ord::max` of options: `None` is the least.
unfoldable pub option_min : Option ℕ → Option ℕ → Option ℕ
option_min (some m) (some n) = some (min m n)
option_min _ _ = none

unfoldable pub option_max : Option ℕ → Option ℕ → Option ℕ
option_max none n = n
option_max (some m) none = some m
option_max (some m) (some n) = some (max m n)

unfoldable pub union : ControlFlowState → ControlFlowState → ControlFlowState
unfolding option_min option_max
union lhs rhs = record {
  lower_unconditional_depth =
      option_min lhs.lower_unconditional_depth rhs.lower_unconditional_depth;
  upper_conditional_depth = option_min lhs.upper_conditional_depth rhs.upper_conditional_depth;
  lower_conditional_depth = option_max lhs.lower_conditional_depth rhs.lower_conditional_depth;
}

unfoldable pub concat : ControlFlowState → ControlFlowState → ControlFlowState
unfolding option_min option_max
concat first second = elim (first.lower_unconditional_depth) [
  | some depth ↦ first
  | none ↦
      let lower = option_min first.upper_conditional_depth second.upper_conditional_depth in
      record {
        lower_unconditional_depth = option_min second.lower_unconditional_depth lower;
        upper_conditional_depth = lower;
        lower_conditional_depth =
            option_max first.lower_conditional_depth second.lower_conditional_depth;
      }
]

-- `checked_sub(1)` under an `and_then`.
unfoldable pub decrement_depth : Option ℕ → Option ℕ
decrement_depth (some (suc v)) = some v
decrement_depth _ = none

unfoldable pub decrement : ControlFlowState → ControlFlowState
unfolding decrement_depth
decrement self = record {
  lower_unconditional_depth = decrement_depth self.lower_unconditional_depth;
  upper_conditional_depth = decrement_depth self.upper_conditional_depth;
  lower_conditional_depth = decrement_depth self.lower_conditional_depth;
}

unfoldable pub default : ControlFlowState
default = record {
  lower_unconditional_depth = none;
  upper_conditional_depth = none;
  lower_conditional_depth = none;
}

-- The states that `do_br`, `do_br_if` and `do_return` give.
unfoldable pub br_state : ℕ → ControlFlowState
br_state relative_depth = record {
  lower_unconditional_depth = some relative_depth;
  upper_conditional_depth = some relative_depth;
  lower_conditional_depth = some relative_depth;
}

unfoldable pub br_if_state : ℕ → ControlFlowState
br_if_state relative_depth = record {
  lower_unconditional_depth = none;
  upper_conditional_depth = some relative_depth;
  lower_conditional_depth = some relative_depth;
}

unfoldable pub return_state : ControlFlowState
unfolding br_state
return_state = br_state (u32_mod - 1)

-- The states of the operators of a block, as `populate` joins them into the block's own.
unfoldable pub exit_state : ControlFlowState → List ControlFlowState → ControlFlowState
unfolding concat decrement
exit_state state [] = state
exit_state state (s ∷ states) = exit_state (concat state (decrement s)) states

pub data Operator : Type 0 where
  block if loop : ParsedBlockType → Operator
  els end : Operator
  br br_if : ℕ → Operator
  leave br_table call call_indirect simd threads : Operator
  mvp : MvpOperator → Operator
  sign_extension : SignExtensionOperator → Operator
  other : ℕ → Operator

-- `eat_to_end` with its depth; the operators that are left.
unfoldable pub eat_at : List Operator → ℕ → List Operator
eat_at [] depth = []
eat_at (end ∷ rest) zero = end ∷ rest
eat_at (end ∷ rest) (suc depth) = eat_at rest depth
eat_at (block ty ∷ rest) depth = eat_at rest (suc depth)
eat_at (if ty ∷ rest) depth = eat_at rest (suc depth)
eat_at (loop ty ∷ rest) depth = eat_at rest (suc depth)
eat_at (_ ∷ rest) depth = eat_at rest depth

unfoldable pub eat_to_end : List Operator → List Operator
unfolding eat_at
eat_to_end instructions = eat_at instructions 0

-- The labels that `push_store_break_top_n_parents` stores true in.
unfoldable pub break_labels : LinkedStack ℕ → ℕ → List ℕ
unfolding peek_n collect
break_labels labels relative_depth = collect relative_depth (peek_n labels relative_depth)
