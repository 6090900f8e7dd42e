-- ===== src/ActiveBlock/Nested.antt =====
-- active_block.rs (`do_block`, `do_if`, `do_loop`): the operators of control flow end where the calls for
-- inner blocks do.
use wasm_gpu.Prelude.{ℕ, ◌≤◌, Bool, true, false, List, [], length, arith}
use wasm_gpu.LinkedStack.{LinkedStack}
use wasm_gpu.ControlFlow.{
  Operator, block, if, loop, els, end, br, br_if, leave, br_table, call, call_indirect, simd,
  threads, mvp, sign_extension, other, ParsedBlockType, BlockType, ControlFlowState, from_parsed,
}
use wasm_gpu.Naga.{global_variable, append_expr, BlockContext}
use wasm_gpu.ActiveBlock.{trap_state, ActiveBlock, BodyData, BlockLabel}
use wasm_gpu.ActiveBlock.Blocks.{pop_args, assign_arguments, store_all_eq}
use wasm_gpu.ActiveBlock.Populate.{
  ends, elses, Populate, Arm, do_br_if, pop_condition, do_return, do_block, accept_arm, reject_arm,
  do_if, loop_body, do_loop, do_operation, populate,
}
use wasm_gpu.ActiveBlock.Ending.{
  Any, Ends, Ends-bind, assign_arguments-Ends, cycle-bind, do_br_if-Ends, do_return-Ends,
  from_parsed-Ends, otherwise-bind, pop_args-Ends, pop_condition-Ends, store_all_eq-Ends,
  try_then-Ends, try_then-bind,
}

-- How the calls for inner blocks behave on at most so many operators.
abbrev pub Shrinks : ℕ → Populate → Type 0
Shrinks n populate =
    (looping : Bool) (self : ActiveBlock) (l : List Operator)
    → length l ≤ n
    → Ends (λ r. length r.2 ≤ length l) (populate looping self l)

module _ (n : ℕ) (inner : Populate) (shrinks : Shrinks n inner) (body : BodyData) where
  do_block-Ends :
      (self : ActiveBlock) (ty : ParsedBlockType) (l : List Operator)
      → length l ≤ n
      → Ends (λ r. length r.2 ≤ length l) (do_block inner body self ty l)
  unfolding do_block
  do_block-Ends self ty l le =
      Ends-bind Any _ (from_parsed ty body.types) _ (from_parsed-Ends ty body.types) (λ bt _.
        Ends-bind Any _ (pop_args (length bt.arguments) [] self) _
          (pop_args-Ends (length bt.arguments) [] self)
          (λ r _.
            Ends-bind Any _ (assign_arguments _ r.0) _ (assign_arguments-Ends _ r.0) (λ entered _.
              Ends-bind _ _ (inner false entered l) _ (shrinks false entered l le) (λ q h. h))))

  accept_arm-Ends :
      (labels : LinkedStack BlockLabel) (ty : BlockType) (args : List ℕ) (l : List Operator)
      (ctx : BlockContext)
      → length l ≤ n
      → Ends (λ r. length r.0.3 ≤ length l) (accept_arm inner body labels ty args l ctx)
  unfolding accept_arm
  accept_arm-Ends labels ty args l ctx le =
      Ends-bind Any _ (assign_arguments _ args) _ (assign_arguments-Ends _ args) (λ entered _.
        Ends-bind _ _ (inner false entered l) _ (shrinks false entered l le) (λ q h. h))

  reject_arm-Ends :
      (labels : LinkedStack BlockLabel) (ty : BlockType) (args : List ℕ) (arm : Arm)
      (ctx : BlockContext)
      → length arm.3 ≤ n
      → Ends (λ r. length r.0.1 ≤ length arm.3) (reject_arm inner body labels ty args arm ctx)
  unfolding reject_arm
  reject_arm-Ends labels ty args (elses, results, state, l) ctx le =
      Ends-bind Any _ (assign_arguments _ args) _ (assign_arguments-Ends _ args) (λ entered _.
        Ends-bind _ _ (inner false (record entered { results = results }) l) _
          (shrinks false (record entered { results = results }) l le) (λ q h. h))
  reject_arm-Ends labels ty args (ends, results, state, l) ctx le =
      Ends-bind Any _ (store_all_eq ctx args results) _ (store_all_eq-Ends ctx args results)
        (λ _ _. omega arith)

  do_if-Ends :
      (self : ActiveBlock) (ty : ParsedBlockType) (l : List Operator)
      → length l ≤ n
      → Ends (λ r. length r.2 ≤ length l) (do_if inner body self ty l)
  unfolding do_if
  do_if-Ends self ty l le = Ends-bind Any _ (pop_condition self) _ (pop_condition-Ends self) (λ c _.
      Ends-bind Any _ (from_parsed ty body.types) _ (from_parsed-Ends ty body.types) (λ bt _.
        Ends-bind Any _ (pop_args (length bt.arguments) [] c.1) _
          (pop_args-Ends (length bt.arguments) [] c.1)
          (λ r _.
            try_then-bind (λ (arm : Arm). length arm.3 ≤ length l) _ r.1.ctx c.0
              (accept_arm inner body r.1.labels bt r.0 l) _
              (λ ctx. accept_arm-Ends r.1.labels bt r.0 l ctx le)
              (λ t shorter.
                otherwise-bind
                  (λ (q : ControlFlowState × List Operator). length q.1 ≤ length (t.0.3)) _ t.1 t.2
                  (reject_arm inner body r.1.labels bt r.0 t.0) _
                  (λ ctx. reject_arm-Ends r.1.labels bt r.0 t.0 ctx (omega (arith, le, shorter)))
                  (λ q h. omega (arith, h, shorter))))))

  loop_body-Ends :
      (labels : LinkedStack BlockLabel) (ty : BlockType) (args : List ℕ) (state : ℕ)
      (l : List Operator) (ctx : BlockContext)
      → length l ≤ n
      → Ends (λ r. length r.0.2 ≤ length l) (loop_body inner body labels ty args state l ctx)
  unfolding loop_body
  loop_body-Ends labels ty args state l ctx le =
      Ends-bind Any _ _ _ (try_then-Ends Any _ _ _ (λ _. tt)) (λ t _.
        Ends-bind Any _ (assign_arguments _ args) _ (assign_arguments-Ends _ args) (λ entered _.
          Ends-bind _ _ (inner true entered l) _ (shrinks true entered l le) (λ q h. h)))

  do_loop-Ends :
      (self : ActiveBlock) (ty : ParsedBlockType) (l : List Operator)
      → length l ≤ n
      → Ends (λ r. length r.2 ≤ length l) (do_loop inner body self ty l)
  unfolding do_loop
  do_loop-Ends self ty l le =
      Ends-bind Any _ (from_parsed ty body.types) _ (from_parsed-Ends ty body.types) (λ bt _.
        Ends-bind Any _ (pop_args (length bt.arguments) [] _) _
          (pop_args-Ends (length bt.arguments) [] _)
          (λ r _.
            cycle-bind (λ (q : List ℕ × ControlFlowState × List Operator). length q.2 ≤ length l) _
              r.1.ctx
              (loop_body inner body r.1.labels bt r.0
                (append_expr self.ctx (global_variable trap_state)).0 l)
              _
              (λ ctx.
                loop_body-Ends r.1.labels bt r.0
                  (append_expr self.ctx (global_variable trap_state)).0 l ctx le)
              (λ q h. h)))

  pub do_operation-Ends :
      (self : ActiveBlock) (op : Operator) (l : List Operator)
      → length l ≤ n
      → Ends (λ r. length r.2 ≤ length l) (do_operation inner body self op l)
  unfolding do_operation
  do_operation-Ends self (br depth) l le = omega arith
  do_operation-Ends self (br_if depth) l le =
      Ends-bind Any _ (do_br_if self depth) _ (do_br_if-Ends self depth) (λ _ _. omega arith)
  do_operation-Ends self (block ty) l le = do_block-Ends self ty l le
  do_operation-Ends self (if ty) l le = do_if-Ends self ty l le
  do_operation-Ends self (loop ty) l le = do_loop-Ends self ty l le
  do_operation-Ends self leave l le =
      Ends-bind Any _ (do_return body self) _ (do_return-Ends body self) (λ _ _. omega arith)
  do_operation-Ends self els l le = λ e. cc
  do_operation-Ends self end l le = λ e. cc
  do_operation-Ends self br_table l le = λ e. cc
  do_operation-Ends self call l le = λ e. cc
  do_operation-Ends self call_indirect l le = λ e. cc
  do_operation-Ends self simd l le = λ e. cc
  do_operation-Ends self threads l le = λ e. cc
  do_operation-Ends self (mvp op) l le = λ e. cc
  do_operation-Ends self (sign_extension op) l le = λ e. cc
  do_operation-Ends self (other op) l le = λ e. cc
