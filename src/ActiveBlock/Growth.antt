-- ===== src/ActiveBlock/Growth.antt =====
-- active_block.rs: operators only append to the expressions of a function, and fail only for what the
-- translator does not support.
use wasm_gpu.Prelude.{
  ℕ, ◌≡◌, refl, List, [], ◌∷◌, Outcome, ok, err, subst, ◌>>=◌, assert, out_of_range, ltb, u32_mod,
}
use wasm_gpu.Std.{StdFunction}
use wasm_gpu.Naga.{
  BlockContext, Constant, Expression, literal, u32_literal, append_expr, store, push_statement,
  call_void, call_get_return, call_result,
}
use wasm_gpu.Naga.Emission.{Within}
use wasm_gpu.Mvp.{
  Instruction, nop, drop, push_const_val, append_trap, local_get, local_set, local_tee, unary,
  binary, mem_load, mem_store,
}
use wasm_gpu.ActiveBlock.{
  ActiveBlock, BodyData, push, pop, peek, pop_from, trap_value, emit_set_trap, local_ptr, push_call,
  access_address, perform, perform_all, pop_one_push_call_mono, pop_two_push_call_bi,
  pop_one_push_call_mem_func, pop_two_call_mem_func,
}
use wasm_gpu.ActiveBlock.Running.{Within-before}
use wasm_gpu.ActiveBlock.Addresses.{Within-access_address}

-- The expressions before an operation are in the arena when those behind it are.
abbrev pub Grows : List Expression → Outcome ActiveBlock → BlockContext → Type 0
Grows arena (ok state) ctx = Within arena state.ctx.expressions → Within arena ctx.expressions
Grows arena (err fault) ctx = Unit

Grows-bind {ℓ} :
    {A : Type ℓ} (arena : List Expression) (ctx : BlockContext) (first : Outcome A)
    (rest : A → Outcome ActiveBlock)
    → ((a : A) → first ≡ ok a → Grows arena (rest a) ctx)
    → Grows arena (first >>= rest) ctx
Grows-bind arena ctx (err fault) rest each = tt
Grows-bind arena ctx (ok a) rest each = each a refl

-- An operation that follows one that appended expressions.
Grows-after :
    (arena : List Expression) (between ctx : BlockContext) (o : Outcome ActiveBlock)
    → (Within arena between.expressions → Within arena ctx.expressions)
    → Grows arena o between
    → Grows arena o ctx
Grows-after arena between ctx (err fault) back h = tt
Grows-after arena between ctx (ok state) back h = λ w. back (h w)

pub Within-push_call :
    (arena : List Expression) (state : ActiveBlock) (function : StdFunction) (hs : List ℕ)
    → Within arena (push_call state function hs).ctx.expressions
    → Within arena state.ctx.expressions
unfolding push_call call_get_return push_statement
Within-push_call arena state function hs within =
    Within-before arena state.ctx (call_result function) within

Within-emit_set_trap :
    (arena : List Expression) (ctx : BlockContext) (code : Constant)
    → Within arena (emit_set_trap ctx code).expressions
    → Within arena ctx.expressions
unfolding emit_set_trap push_statement
Within-emit_set_trap arena ctx code within = Within-before arena _ _ (
    Within-before arena _ _
      (Within-before arena _ _ (Within-before arena _ _ (Within-before arena _ _ within))))

-- What is appended behind a pop.
pop-Grows :
    (arena : List Expression) (state : ActiveBlock) (rest : ℕ × ActiveBlock → Outcome ActiveBlock)
    → ((r : ℕ × ActiveBlock) → Grows arena (rest r) r.1.ctx)
    → Grows arena (pop state >>= rest) state.ctx
unfolding pop
pop-Grows arena state rest each = go (pop_from state.stack)
  where
    go :
        (o : Outcome (ℕ × List ℕ))
        → Grows arena
            ((o >>= λ (p : ℕ × List ℕ). ok (p.0, record state { stack = p.1 })) >>= rest)
            state.ctx
    go (err fault) = tt
    go (ok p) = each (p.0, record state { stack = p.1 })

pub perform-Grows :
    (arena : List Expression) (body : BodyData) (state : ActiveBlock) (i : Instruction)
    → Grows arena (perform body state i) state.ctx
unfolding perform push pop_one_push_call_mono pop_two_push_call_bi pop_one_push_call_mem_func
    pop_two_call_mem_func call_void store push_statement
perform-Grows arena body state nop = λ w. w
perform-Grows arena body state (push_const_val v) = λ w. Within-before arena _ _ w
perform-Grows arena body state (append_trap t) =
    Grows-bind arena state.ctx (trap_value t) _
      (λ code _. Within-emit_set_trap arena state.ctx code)
perform-Grows arena body state drop = pop-Grows arena state _ (λ r w. w)
perform-Grows arena body state (local_get i) =
    Grows-bind arena state.ctx (local_ptr body i) _ (λ pointer _ w. Within-before arena _ _ w)
perform-Grows arena body state (local_set i) =
    Grows-bind arena state.ctx (local_ptr body i) _
      (λ pointer _. pop-Grows arena state _ (λ r w. w))
perform-Grows arena body state (local_tee i) =
    Grows-bind arena state.ctx (local_ptr body i) _
      (λ pointer _. Grows-bind arena state.ctx (peek state) _ (λ h _ w. w))
perform-Grows arena body state (unary f) =
    pop-Grows arena state _ (λ r. Within-push_call arena r.1 f (r.0 ∷ []))
perform-Grows arena body state (binary f) =
    pop-Grows arena state _
      (λ r. pop-Grows arena r.1 _ (λ q. Within-push_call arena q.1 f (q.0 ∷ r.0 ∷ [])))
perform-Grows arena body state (mem_load memarg f) =
    let c = append_expr state.ctx (literal (u32_literal memarg.memory)) in
    let state' = record state { ctx = c.1 } in
    Grows-bind arena state.ctx (assert (ltb memarg.offset u32_mod) out_of_range) _ (λ _ _.
      Grows-after arena c.1 state.ctx _ (Within-before arena state.ctx _) (
        pop-Grows arena state' _ (λ r w.
          let a = access_address body r.1.ctx r.0 memarg.offset in
          Within-access_address arena body r.1.ctx r.0 memarg.offset
            (Within-push_call arena (record (r.1) { ctx = a.1 }) f (c.0 ∷ a.0 ∷ []) w))))
perform-Grows arena body state (mem_store memarg f) =
    Grows-bind arena state.ctx (assert (ltb memarg.offset u32_mod) out_of_range) _ (λ _ _.
      pop-Grows arena state _ (λ v.
        let c = append_expr v.1.ctx (literal (u32_literal memarg.memory)) in
        let state' = record (v.1) { ctx = c.1 } in
        Grows-after arena c.1 v.1.ctx _ (Within-before arena v.1.ctx _) (
          pop-Grows arena state' _
            (λ r. Within-access_address arena body r.1.ctx r.0 memarg.offset))))
perform-Grows arena body state Instruction.unimplemented = tt

pub perform_all-Grows :
    (arena : List Expression) (body : BodyData) (state : ActiveBlock) (is : List Instruction)
    → Grows arena (perform_all body state is) state.ctx
unfolding perform_all
perform_all-Grows arena body state [] = λ w. w
perform_all-Grows arena body state (i ∷ is) =
    Grows-bind arena state.ctx (perform body state i) _ (λ state' e.
      Grows-after arena state'.ctx state.ctx _
        (subst (λ o. Grows arena o state.ctx) e (perform-Grows arena body state i))
        (perform_all-Grows arena body state' is))
