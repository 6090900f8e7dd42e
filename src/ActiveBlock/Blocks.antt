-- ===== src/ActiveBlock/Blocks.antt =====
-- wasm-gpu-transpiler/src/active_function/active_block.rs and active_block/block_label.rs: opening and
-- closing a block, labels, and the statements of branches.
use wasm_gpu.Prelude.{
  ℕ, zero, suc, List, [], ◌∷◌, length, Option, none, some, Bool, true, false, Outcome, ok, ◌>>=◌,
  ◌>>◌, assert, assertion_failed, ◌==◌,
}
use wasm_gpu.Typed.{ValType}
use wasm_gpu.LinkedStack
use wasm_gpu.LinkedStack.{LinkedStack, peek_n, collect, peek_nth}
use wasm_gpu.ControlFlow.{BlockType, ControlFlowState, default}
use wasm_gpu.Naga.{
  Block, BlockContext, NagaType, bool_ty, val_ty, constant, default_value, local_variable, load,
  compose, append_expr, new_local, store, pushed, if_statement, result, void_return, stop_loop,
  resume_loop,
}
use wasm_gpu.ActiveBlock.{ActiveBlock, BodyData, BlockLabel, Enclosing, pop}

-- `FnLocal::append_to`: a variable of the function and the expression that points to it.
unfoldable pub append_local : BlockContext → NagaType → ℕ → ℕ × BlockContext
append_local ctx ty init =
    let (local, ctx) = new_local ctx ty (some init) in append_expr ctx (local_variable local)

-- `FnLocal::append_wasm_to` and `append_all_wasm_to`, in the arena of expressions.
unfoldable pub append_all_locals : BlockContext → List ValType → List ℕ × BlockContext
append_all_locals ctx [] = ([], ctx)
append_all_locals ctx (local_ty ∷ local_tys) =
    let (init, ctx) = append_expr ctx (constant (default_value local_ty)) in
    let (local, ctx) = append_local ctx (val_ty local_ty) init in
    let (locals, ctx) = append_all_locals ctx local_tys in (local ∷ locals, ctx)

unfoldable pub get_label : BodyData → BlockContext → BlockLabel × BlockContext
get_label body ctx =
    let (expression, ctx) = append_local ctx bool_ty body.false_expr in
    (
      record { expression = expression; false_expr = body.false_expr; true_expr = body.true_expr },
      ctx,
    )

unfoldable pub set : BlockLabel → BlockContext → BlockContext
set self ctx = store ctx self.expression self.true_expr

unfoldable pub unset : BlockLabel → BlockContext → BlockContext
unset self ctx = store ctx self.expression self.false_expr

-- The load of the variable of a label, in front of a test of it.
unfoldable pub if_is_set : BlockLabel → BlockContext → ℕ × BlockContext
if_is_set self ctx = append_expr ctx (load self.expression)

-- The loop that loads variables and puts them on a stack.
unfoldable pub push_loads : BlockContext → List ℕ → List ℕ → List ℕ × BlockContext
push_loads ctx [] stack = (stack, ctx)
push_loads ctx (pointer ∷ pointers) stack =
    let (loaded, ctx) = append_expr ctx (load pointer) in push_loads ctx pointers (loaded ∷ stack)

unfoldable pub labels_above : Option (LinkedStack BlockLabel) → BlockLabel → LinkedStack BlockLabel
labels_above (some parents) own_label = LinkedStack.push parents own_label
labels_above none own_label = LinkedStack.new own_label

-- `ActiveBlock::new`
unfoldable pub new :
    BlockContext → BlockType → BodyData → Option (LinkedStack BlockLabel) → ActiveBlock
new ctx block_type body_data parents =
    let (own_label, ctx) = get_label body_data ctx in
    let (arguments, ctx) = append_all_locals ctx block_type.arguments in
    let (results, ctx) = append_all_locals ctx block_type.results in
    let (stack, ctx) = push_loads ctx arguments [] in
    record {
      ctx = ctx;
      enclosing = [];
      labels = labels_above parents own_label;
      arguments = arguments;
      results = results;
      stack = stack;
      exit_state = default;
    }

-- Stores of values into the variables beside them; `zip` stops at the shorter list.
unfoldable pub store_all : BlockContext → List ℕ → List ℕ → BlockContext
store_all ctx (value ∷ values) (pointer ∷ pointers) =
    store_all (store ctx pointer value) values pointers
store_all ctx _ _ = ctx

-- `zip_eq` panics at lists of different lengths.
unfoldable pub store_all_eq : BlockContext → List ℕ → List ℕ → Outcome BlockContext
store_all_eq ctx values pointers = do
  assert (length values == length pointers) assertion_failed
  ok (store_all ctx values pointers)

unfoldable pub assign_arguments : ActiveBlock → List ℕ → Outcome ActiveBlock
assign_arguments self values = do
  ctx ← store_all_eq self.ctx values self.arguments
  ok (record self { ctx = ctx })

unfoldable pub reverse_onto : List ℕ → List ℕ → List ℕ
reverse_onto [] out = out
reverse_onto (x ∷ xs) out = reverse_onto xs (x ∷ out)

-- The top of the stack goes to the last result.
unfoldable pub push_store_stack_in_results : ActiveBlock → ActiveBlock
unfolding reverse_onto
push_store_stack_in_results self = record self {
  ctx = store_all self.ctx self.stack (reverse_onto self.results []);
}

-- A block closes with every conditional around it.
unfoldable pub close : List Enclosing → Block → Block
close [] block = block
close (e ∷ enclosing) block =
    close enclosing (pushed e.front (if_statement e.condition e.accept block))

-- `finish`: the results, the exit state and the context behind the block.
unfoldable pub finish : ActiveBlock → List ℕ × ControlFlowState × BlockContext
finish self =
    let self = push_store_stack_in_results self in
    (
      self.results,
      self.exit_state,
      record (self.ctx) { block = close self.enclosing self.ctx.block },
    )

-- The loop that pops the arguments of a block, and their `reverse`.
unfoldable pub pop_args : ℕ → List ℕ → ActiveBlock → Outcome (List ℕ × ActiveBlock)
pop_args zero args self = ok (args, self)
pop_args (suc n) args self = do (arg, self) ← pop self; pop_args n (arg ∷ args) self

unfoldable pub set_all : List BlockLabel → BlockContext → BlockContext
unfolding set
set_all [] ctx = ctx
set_all (label ∷ labels) ctx = set_all labels (set label ctx)

unfoldable pub push_store_break_top_n_parents :
    BlockContext → LinkedStack BlockLabel → ℕ → BlockContext
unfolding peek_n collect
push_store_break_top_n_parents ctx labels relative_depth =
    set_all (collect relative_depth (peek_n labels relative_depth)) ctx

-- `push_return`: the values of the return type, or nothing.
unfoldable pub push_return : BodyData → ActiveBlock → Outcome ActiveBlock
push_return body self = elim (body.return_type) [
  | none ↦ ok (record self { ctx = void_return self.ctx })
  | some required_values ↦ do
    (results, self) ← pop_args required_values [] self
    let (struct_build, ctx) = append_expr self.ctx (compose results)
    ok (record self { ctx = result ctx struct_build })
]

-- `push_final_return`, behind the outermost block.
unfoldable pub push_final_return : BodyData → ActiveBlock → List ℕ → Outcome ActiveBlock
push_final_return body self results =
    let (stack, ctx) = push_loads self.ctx results [] in
    push_return body (record self { ctx = ctx; stack = stack })

-- What a looping block does where it is branched to, and where it is left; a straight block does
-- nothing.
unfoldable pub read_results_back : BlockContext → List ℕ → List ℕ → BlockContext
read_results_back ctx (dst ∷ arguments) (src ∷ results) =
    let (value, ctx) = append_expr ctx (load src) in
    read_results_back (store ctx dst value) arguments results
read_results_back ctx _ _ = ctx

unfoldable pub on_r0_branching : Bool → ActiveBlock → BlockContext
on_r0_branching true active =
    resume_loop (read_results_back active.ctx active.arguments active.results)
on_r0_branching false active = active.ctx

unfoldable pub on_rp_branching : Bool → ActiveBlock → BlockContext
on_rp_branching true active = stop_loop active.ctx
on_rp_branching false active = active.ctx
