-- ===== src/ActiveBlock/Supported.antt =====
-- active_block.rs and mvp.rs: what the translator supports, and that it takes what runs directly.
use wasm_gpu.Prelude.{
  ℕ, suc, ◌<◌, ◌≡◌, ◌≢◌, refl, ap, subst, true, List, [], ◌∷◌, length, All, some, Outcome, ok, err,
  >>=-eq-ok, ltb, arith, u32_mod,
}
use wasm_gpu.Traps.{
  Trap, stack_overflow, memory_out_of_bounds, heap_misaligned, table_out_of_bounds,
  indirect_call_to_null, bad_signature, integer_overflow, integer_division_by_zero,
  bad_conversion_to_integer, unreachable_code_reached, interrupt, always_trap_adapter, out_of_fuel,
  atomic_wait_non_shared_memory, other,
}
use wasm_gpu.Locals
use wasm_gpu.Locals.{FnLocal, lookup}
use wasm_gpu.Naga.{BlockContext, Constant, trap_constant}
use wasm_gpu.Naga.Machine.{Gpu}
use wasm_gpu.Mvp.{
  Instruction, nop, drop, push_const_val, append_trap, local_get, local_set, local_tee, unary,
  binary, mem_load, mem_store,
}
use wasm_gpu.ActiveBlock.{
  ActiveBlock, BodyData, push, pop, peek, pop_from, trap_value, local_ptr, push_call, perform,
  perform_all, pop_one_push_call_mono, pop_two_push_call_bi, pop_one_push_call_mem_func,
  pop_two_call_mem_func,
}
use wasm_gpu.ActiveBlock.Direct.{step, run}
use wasm_gpu.ActiveBlock.StackMachine.{Operands}

-- What the translator supports: a local that the function has, an offset that fits into 32 bits, and a
-- trap that has a constant.
abbrev pub Supported : BodyData → Instruction → Type 0
Supported body (local_get i) = (local : FnLocal) × (lookup body.locals i ≡ some local)
Supported body (local_set i) = (local : FnLocal) × (lookup body.locals i ≡ some local)
Supported body (local_tee i) = (local : FnLocal) × (lookup body.locals i ≡ some local)
Supported body (mem_load memarg f) = memarg.offset < u32_mod
Supported body (mem_store memarg f) = memarg.offset < u32_mod
Supported body (append_trap t) = t ≢ other
Supported body _ = Unit

trap_value-known : (t : Trap) → t ≢ other → (code : Constant) × (trap_value t ≡ ok code)
unfolding trap_value
trap_value-known stack_overflow h = (trap_constant (some stack_overflow), refl)
trap_value-known memory_out_of_bounds h = (trap_constant (some memory_out_of_bounds), refl)
trap_value-known heap_misaligned h = (trap_constant (some heap_misaligned), refl)
trap_value-known table_out_of_bounds h = (trap_constant (some table_out_of_bounds), refl)
trap_value-known indirect_call_to_null h = (trap_constant (some indirect_call_to_null), refl)
trap_value-known bad_signature h = (trap_constant (some bad_signature), refl)
trap_value-known integer_overflow h = (trap_constant (some integer_overflow), refl)
trap_value-known integer_division_by_zero h = (trap_constant (some integer_division_by_zero), refl)
trap_value-known bad_conversion_to_integer h =
    (trap_constant (some bad_conversion_to_integer), refl)
trap_value-known unreachable_code_reached h = (trap_constant (some unreachable_code_reached), refl)
trap_value-known interrupt h = (trap_constant (some interrupt), refl)
trap_value-known always_trap_adapter h = (trap_constant (some always_trap_adapter), refl)
trap_value-known out_of_fuel h = (trap_constant (some out_of_fuel), refl)
trap_value-known atomic_wait_non_shared_memory h =
    (trap_constant (some atomic_wait_non_shared_memory), refl)
trap_value-known other h = absurd (h refl)

-- The translation of an operator succeeds, and leaves as many handles as there are values.
abbrev Succeeds : {V W : Type 0} → Outcome ActiveBlock → Outcome (Operands V W) → Type 0
Succeeds o (err fault) = Unit
Succeeds (ok state) (ok s) = length state.stack ≡ length s.stack
Succeeds (err fault) (ok s) = ⊥

module _ {V W : Type 0} (gpu : Gpu V W) (body : BodyData) where
  local_ptr-known :
      (i : ℕ) (local : FnLocal)
      → lookup body.locals i ≡ some local
      → local_ptr body i ≡ ok local.expression
  unfolding local_ptr Locals.get
  local_ptr-known i local e = rw e refl

  fits : (offset : ℕ) → offset < u32_mod → ltb offset u32_mod ≡ true
  fits offset h = ground arith

  perform-Succeeds :
      (base : ActiveBlock) (ctx : BlockContext) (hs : List ℕ) (vs : List V) (locals : ℕ → V) (w : W)
      (i : Instruction)
      → Supported body i
      → length hs ≡ length vs
      → Succeeds
          (perform body (record base { ctx = ctx; stack = hs }) i)
          (step gpu body.disjoint_memory i (record { stack = vs; locals = locals; world = w }))
  unfolding perform step push pop peek pop_from push_call pop_one_push_call_mono
      pop_two_push_call_bi pop_one_push_call_mem_func pop_two_call_mem_func
  perform-Succeeds base ctx hs vs locals w nop h e = e
  perform-Succeeds base ctx hs vs locals w (push_const_val v) h e = ap suc e
  perform-Succeeds base ctx hs vs locals w (append_trap t) h e =
      let (code, known) = trap_value-known t h in rw known e
  perform-Succeeds base ctx hs [] locals w drop h e = tt
  perform-Succeeds base ctx [] (v ∷ vs) locals w drop h e = absurd (omega (arith, e))
  perform-Succeeds base ctx (x ∷ hs) (v ∷ vs) locals w drop h e = omega (arith, e)
  perform-Succeeds base ctx hs vs locals w (local_get i) (local, found) e =
      rw (local_ptr-known i local found) (ap suc e)
  perform-Succeeds base ctx hs [] locals w (local_set i) h e = tt
  perform-Succeeds base ctx [] (v ∷ vs) locals w (local_set i) h e = absurd (omega (arith, e))
  perform-Succeeds base ctx (x ∷ hs) (v ∷ vs) locals w (local_set i) (local, found) e =
      rw (local_ptr-known i local found) (omega (arith, e))
  perform-Succeeds base ctx hs [] locals w (local_tee i) h e = tt
  perform-Succeeds base ctx [] (v ∷ vs) locals w (local_tee i) h e = absurd (omega (arith, e))
  perform-Succeeds base ctx (x ∷ hs) (v ∷ vs) locals w (local_tee i) (local, found) e =
      rw (local_ptr-known i local found) e
  perform-Succeeds base ctx hs [] locals w (unary f) h e = tt
  perform-Succeeds base ctx [] (v ∷ vs) locals w (unary f) h e = absurd (omega (arith, e))
  perform-Succeeds base ctx (x ∷ hs) (v ∷ vs) locals w (unary f) h e = e
  perform-Succeeds base ctx hs [] locals w (binary f) h e = tt
  perform-Succeeds base ctx hs (u ∷ []) locals w (binary f) h e = tt
  perform-Succeeds base ctx [] (u ∷ v ∷ vs) locals w (binary f) h e = absurd (omega (arith, e))
  perform-Succeeds base ctx (x ∷ []) (u ∷ v ∷ vs) locals w (binary f) h e =
      absurd (omega (arith, e))
  perform-Succeeds base ctx (x ∷ y ∷ hs) (u ∷ v ∷ vs) locals w (binary f) h e = omega (arith, e)
  perform-Succeeds base ctx hs [] locals w (mem_load memarg f) h e = tt
  perform-Succeeds base ctx [] (v ∷ vs) locals w (mem_load memarg f) h e = absurd (omega (arith, e))
  perform-Succeeds base ctx (x ∷ hs) (v ∷ vs) locals w (mem_load memarg f) h e =
      rw (fits memarg.offset h) e
  perform-Succeeds base ctx hs [] locals w (mem_store memarg f) h e = tt
  perform-Succeeds base ctx hs (u ∷ []) locals w (mem_store memarg f) h e = tt
  perform-Succeeds base ctx [] (u ∷ v ∷ vs) locals w (mem_store memarg f) h e =
      absurd (omega (arith, e))
  perform-Succeeds base ctx (x ∷ []) (u ∷ v ∷ vs) locals w (mem_store memarg f) h e =
      absurd (omega (arith, e))
  perform-Succeeds base ctx (x ∷ y ∷ hs) (u ∷ v ∷ vs) locals w (mem_store memarg f) h e =
      rw (fits memarg.offset h) (omega (arith, e))
  perform-Succeeds base ctx hs vs locals w Instruction.unimplemented h e = tt

  -- Where the operators run, they are translated.
  pub perform_all-ok :
      (state : ActiveBlock) (s s' : Operands V W) (is : List Instruction)
      → All (Supported body) is
      → length state.stack ≡ length s.stack
      → run gpu body.disjoint_memory is s ≡ ok s'
      → (state' : ActiveBlock) × (perform_all body state is ≡ ok state')
  unfolding perform_all run
  perform_all-ok state s s' [] all e ran = (state, refl)
  perform_all-ok state s s' (i ∷ is) all e ran =
      let (s₁, stepped, ran') = >>=-eq-ok (step gpu body.disjoint_memory i s) _ ran in
      let succeeds =
        perform-Succeeds state state.ctx state.stack s.stack s.locals s.world i all.0 e in
      let (state₁, performed, same) =
        succeeded (perform body state i) s₁
          (subst (Succeeds (perform body state i)) stepped succeeds) in
      let (state', performed') = perform_all-ok state₁ s₁ s' is all.1 same ran' in
      (state', rw performed performed')
    where
      succeeded :
          (o : Outcome ActiveBlock) (s₁ : Operands V W)
          → Succeeds o (ok s₁)
          → (state₁ : ActiveBlock) × (o ≡ ok state₁) × (length state₁.stack ≡ length s₁.stack)
      succeeded (ok state₁) s₁ h = (state₁, refl, h)
      succeeded (err fault) s₁ h = absurd h
