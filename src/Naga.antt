-- ===== src/Naga.antt =====
-- naga-ext/src/block_context.rs: the expressions and statements of a shader function and the context
-- that builds them. A handle is a place in the arena of the function; a constant is known by what it
-- is initialised with, a function by its name among the standard objects. A context that borrows
-- another one is the same context with another block.
pub mod Branches
pub mod Machine
pub mod Emission
use wasm_gpu.Prelude.{
  ℕ, suc, zero, ◌+◌, ◌==◌, if◌then◌else◌, List, [], ◌∷◌, ◌++◌, length, Option, none, some, Bool,
  true, false, Outcome, ok, err, ◌>>=◌, malformed,
}
use wasm_gpu.Typed.{Val, ValType}
use wasm_gpu.Traps.{Trap}
use wasm_gpu.Std.{StdFunction}

pub data Literal : Type 0 where
  bool_literal : Bool → Literal
  u32_literal i32_literal f32_literal : ℕ → Literal

pub data Constant : Type 0 where
  wasm_false wasm_true : Constant
  wasm_constant : Val → Constant
  trap_constant : Option Trap → Constant
  default_value : ValType → Constant

-- `naga::BinaryOperator`
pub data BinaryOperator : Type 0 where
  add_op subtract_op multiply_op divide_op modulo_op : BinaryOperator
  equal_op not_equal_op less_op less_equal_op greater_op greater_equal_op : BinaryOperator
  and_op exclusive_or_op inclusive_or_op shift_left_op shift_right_op : BinaryOperator

-- `naga::Expression`; the operands of the kinds that are not built here are a list of handles.
pub data Expression : Type 0 where
  literal : Literal → Expression
  constant : Constant → Expression
  function_argument local_variable global_variable : ℕ → Expression
  call_result : StdFunction → Expression
  zero_value atomic_result ray_query_proceed_result : Expression
  load : ℕ → Expression
  binary : BinaryOperator → ℕ → ℕ → Expression
  compose access access_index splat swizzle image_sample image_load : List ℕ → Expression
  image_query unary select derivative relational math as_scalar : List ℕ → Expression
  work_group_uniform_load_result array_length : List ℕ → Expression
  ray_query_get_intersection : List ℕ → Expression

-- `naga::Statement` and `naga::Block`, to which a statement is added at the end.
mutual
  pub data Statement : Type 0 where
    emit : ℕ → ℕ → Statement
    store_statement : ℕ → ℕ → Statement
    if_statement : ℕ → Block → Block → Statement
    loop_statement : Block → Statement
    call_statement : StdFunction → List ℕ → Option ℕ → Statement
    return_statement : Option ℕ → Statement
    break_statement continue_statement : Statement

  pub data Block : Type 0 where
    new_block : Block
    pushed : Block → Statement → Block

-- `naga::Block::len`, indexing, and the replacement of the statement at an index.
unfoldable pub block_len : Block → ℕ
block_len new_block = 0
block_len (pushed block statement) = suc (block_len block)

unfoldable pub statement_at : Block → ℕ → Option Statement
unfolding block_len
statement_at new_block i = none
statement_at (pushed block statement) i =
    if block_len block == i then some statement else statement_at block i

unfoldable pub set_statement : Block → ℕ → Statement → Block
unfolding block_len
set_statement new_block i s = new_block
set_statement (pushed block statement) i s =
    if block_len block == i then pushed block s else pushed (set_statement block i s) statement

-- The types of the variables that the translator declares.
pub data NagaType : Type 0 where
  bool_ty word_ty : NagaType
  val_ty : ValType → NagaType

pub record LocalVariable : Type 0 where
  pub ty : NagaType
  pub init : Option ℕ

pub record BlockContext : Type 0 where
  pub expressions : List Expression
  pub locals : List LocalVariable
  pub block : Block

unfoldable pub should_emit : Expression → Bool
should_emit (literal l) = false
should_emit (constant c) = false
should_emit zero_value = false
should_emit (function_argument i) = false
should_emit (local_variable i) = false
should_emit (global_variable i) = false
should_emit (call_result f) = false
should_emit atomic_result = false
should_emit ray_query_proceed_result = false
should_emit _ = true

-- `push_emit`: a range that ends right before the handle grows by it.
unfoldable pub emitted : Block → ℕ → Block
emitted (pushed block (emit start end)) handle =
    if end + 1 == handle
    then pushed block (emit start handle)
    else pushed (pushed block (emit start end)) (emit handle handle)
emitted block handle = pushed block (emit handle handle)

unfoldable pub push_emit : BlockContext → ℕ → BlockContext
unfolding emitted
push_emit self handle = record self { block = emitted self.block handle }

unfoldable pub append_expr : BlockContext → Expression → ℕ × BlockContext
unfolding should_emit push_emit
append_expr self expression =
    let handle = length self.expressions in
    let ctx = record self { expressions = self.expressions ++ expression ∷ [] } in
    (handle, if should_emit expression then push_emit ctx handle else ctx)

-- A statement at the end of the block of a context.
unfoldable pub push_statement : BlockContext → Statement → BlockContext
push_statement self statement = record self { block = pushed self.block statement }

unfoldable pub new_local : BlockContext → NagaType → Option ℕ → ℕ × BlockContext
new_local self ty init = (
  length self.locals,
  record self { locals = self.locals ++ record { ty = ty; init = init } ∷ [] },
)

unfoldable pub store : BlockContext → ℕ → ℕ → BlockContext
unfolding push_statement
store self pointer value = push_statement self (store_statement pointer value)

unfoldable pub call_get_return : BlockContext → StdFunction → List ℕ → ℕ × BlockContext
unfolding append_expr push_statement
call_get_return self function arguments =
    let (result, ctx) = append_expr self (call_result function) in
    (result, push_statement ctx (call_statement function arguments (some result)))

unfoldable pub call_void : BlockContext → StdFunction → List ℕ → BlockContext
unfolding push_statement
call_void self function arguments = push_statement self (call_statement function arguments none)

unfoldable pub result : BlockContext → ℕ → BlockContext
unfolding push_statement
result self value = push_statement self (return_statement (some value))

unfoldable pub void_return : BlockContext → BlockContext
unfolding push_statement
void_return self = push_statement self (return_statement none)

unfoldable pub stop_loop : BlockContext → BlockContext
unfolding push_statement
stop_loop self = push_statement self break_statement

unfoldable pub resume_loop : BlockContext → BlockContext
unfolding push_statement
resume_loop self = push_statement self continue_statement

module _ {ℓ} {R : Type ℓ} where
  -- `cycle`: the function fills the block of the loop.
  unfoldable pub cycle :
      BlockContext → (BlockContext → Outcome (R × BlockContext)) → Outcome (R × BlockContext)
  unfolding push_statement
  cycle self f = do
    (res, ctx) ← f (record self { block = new_block })
    ok (res, push_statement (record ctx { block = self.block }) (loop_statement ctx.block))

  -- `test(condition).try_then(f)`: the context and the place of the conditional.
  unfoldable pub try_then :
      BlockContext
      → ℕ
      → (BlockContext → Outcome (R × BlockContext))
      → Outcome (R × ℕ × BlockContext)
  unfolding push_statement block_len
  try_then self condition f = do
    (res, ctx) ← f (record self { block = new_block })
    ok (
      res,
      block_len self.block,
      push_statement (record ctx { block = self.block })
          (if_statement condition ctx.block new_block),
    )

  -- `otherwise`: the conditional at the place gets its second arm, which the source fills in place.
  unfoldable pub otherwise :
      ℕ → BlockContext → (BlockContext → Outcome (R × BlockContext)) → Outcome (R × BlockContext)
  unfolding statement_at set_statement
  otherwise condition_index self f = elim (statement_at self.block condition_index) [
    | some (if_statement condition accept reject) ↦ do
      (res, ctx) ← f (record self { block = reject })
      ok (
        res,
        record ctx {
          block =
              set_statement self.block condition_index (if_statement condition accept ctx.block);
        },
      )
    | _ ↦ err malformed
  ]
