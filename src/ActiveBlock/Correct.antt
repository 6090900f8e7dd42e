-- ===== src/ActiveBlock/Correct.antt =====
-- active_block.rs and mvp.rs: running the code that was emitted for a basic block does what the operators
-- of the block do directly.
use wasm_gpu.Prelude.{
  ℕ, ◌≡◌, refl, sym, ap, subst, List, [], ◌∷◌, map, Option, none, some, get_elem?, Outcome, ok, err,
  ok-injective, expect, malformed, ◌>>=◌, assert, out_of_range, ltb, arith, u32_mod,
}
use wasm_gpu.Traps.{
  Trap, stack_overflow, memory_out_of_bounds, heap_misaligned, table_out_of_bounds,
  indirect_call_to_null, bad_signature, integer_overflow, integer_division_by_zero,
  bad_conversion_to_integer, unreachable_code_reached, interrupt, always_trap_adapter, out_of_fuel,
  atomic_wait_non_shared_memory, other,
}
use wasm_gpu.Locals
use wasm_gpu.Locals.{FnLocal, lookup}
use wasm_gpu.Naga.{
  BlockContext, Constant, Expression, local_variable, constant, wasm_constant, trap_constant,
  literal, u32_literal, load, append_expr, push_statement, call_void,
}
use wasm_gpu.Naga.Machine.{Gpu, Machine, update}
use wasm_gpu.Naga.Emission.{Within}
use wasm_gpu.Mvp.{
  Instruction, nop, drop, push_const_val, append_trap, local_get, local_set, local_tee, unary,
  binary, mem_load, mem_store,
}
use wasm_gpu.ActiveBlock.{
  ActiveBlock, BodyData, push, pop, peek, pop_from, trap_value, emit_set_trap, local_ptr, push_call,
  access_address, perform, pop_one_push_call_mono, pop_two_push_call_bi, pop_one_push_call_mem_func,
  pop_two_call_mem_func,
}
use wasm_gpu.ActiveBlock.Direct.{step}
use wasm_gpu.ActiveBlock.StackMachine.{Operands}
use wasm_gpu.ActiveBlock.Running.{Running, append_static, forget}
use wasm_gpu.ActiveBlock.Statements.{
  trapped, append_load_local, store-Running, call_void-Running, call_get_return-Running,
  emit_set_trap-Running,
}
use wasm_gpu.ActiveBlock.Addresses.{access_address-Running, Within-access_address}
use wasm_gpu.ActiveBlock.Growth.{Within-push_call}

trap_value-eq :
    (t : Trap) (code : Constant) → trap_value t ≡ ok code → trap_constant (some t) ≡ code
unfolding trap_value
trap_value-eq stack_overflow code h = ok-injective h
trap_value-eq memory_out_of_bounds code h = ok-injective h
trap_value-eq heap_misaligned code h = ok-injective h
trap_value-eq table_out_of_bounds code h = ok-injective h
trap_value-eq indirect_call_to_null code h = ok-injective h
trap_value-eq bad_signature code h = ok-injective h
trap_value-eq integer_overflow code h = ok-injective h
trap_value-eq integer_division_by_zero code h = ok-injective h
trap_value-eq bad_conversion_to_integer code h = ok-injective h
trap_value-eq unreachable_code_reached code h = ok-injective h
trap_value-eq interrupt code h = ok-injective h
trap_value-eq always_trap_adapter code h = ok-injective h
trap_value-eq out_of_fuel code h = ok-injective h
trap_value-eq atomic_wait_non_shared_memory code h = ok-injective h
trap_value-eq other code h = cc

-- The local with an index is the variable of a function's own for it: the pointer that the map holds for
-- an index is the expression of that variable.
abbrev pub HasSlots : List Expression → BodyData → (ℕ → ℕ) → Type 0
HasSlots expressions body slot =
    (i : ℕ) (local : FnLocal)
    → lookup body.locals i ≡ some local
    → get_elem? expressions local.expression ≡ some (local_variable (slot i))

abbrev pub Distinct : (ℕ → ℕ) → Type 0
Distinct slot = (i j : ℕ) → slot i ≡ slot j → i ≡ j

module _ {V W : Type 0} (gpu : Gpu V W) (fuel : ℕ) (start : Machine V W) (body : BodyData)
    (slot : ℕ → ℕ) (arena : List Expression) where
  -- The emitted code so far has led to the state that the operators lead to: the values of the handles on the
  -- stack, the variables of the locals, and the memory.
  pub record Simulates (state : ActiveBlock) (s : Operands V W) : Type 0 where
    pub known : List (ℕ × V)
    pub vars : ℕ → V
    pub handles : state.stack ≡ map (λ p. p.0) known
    pub stack : map (λ p. p.1) known ≡ s.stack
    pub held : (i : ℕ) → vars (slot i) ≡ s.locals i
    pub running : Running gpu arena fuel start state.ctx known vars s.world

  abbrev pub Simulated : Outcome ActiveBlock → Outcome (Operands V W) → Type 0
  Simulated (ok state) (ok s) = Within arena state.ctx.expressions → Simulates state s
  Simulated (ok state) (err fault) = ⊥
  Simulated (err fault) s = Unit

  -- The state with a given context and stack, and the operands.
  abbrev at_state : ActiveBlock → BlockContext → List (ℕ × V) → ActiveBlock
  at_state base ctx known = record base { ctx = ctx; stack = map (λ p. p.0) known }

  abbrev wasm_state : List (ℕ × V) → (ℕ → V) → W → Operands V W
  wasm_state known locals w = record { stack = map (λ p. p.1) known; locals = locals; world = w }

  updated :
      (locals vars : ℕ → V) (i : ℕ) (v : V)
      → Distinct slot
      → ((j : ℕ) → vars (slot j) ≡ locals j)
      → (j : ℕ) → update vars (slot i) v (slot j) ≡ update locals i v j
  updated locals vars i v distinct held j = ground (arith, held j, distinct i j, ap slot)

  -- An operation of the translator that leaves the operands alone.
  Simulated-bind {ℓ} :
      {A : Type ℓ} (first : Outcome A) (rest : A → Outcome ActiveBlock) (o : Outcome (Operands V W))
      → ((a : A) → first ≡ ok a → Simulated (rest a) o)
      → Simulated (first >>= rest) o
  Simulated-bind (err fault) rest o each = tt
  Simulated-bind (ok a) rest o each = each a refl

  slot_of_ptr :
      (i pointer : ℕ)
      → HasSlots arena body slot
      → local_ptr body i ≡ ok pointer
      → get_elem? arena pointer ≡ some (local_variable (slot i))
  unfolding local_ptr Locals.get
  slot_of_ptr i pointer slots h = go (lookup body.locals i) (slots i) h
    where
      go :
          (o : Option FnLocal)
          → ((local : FnLocal)
              → o ≡ some local
              → get_elem? arena local.expression ≡ some (local_variable (slot i)))
          → (expect o malformed >>= λ (local : FnLocal). ok local.expression) ≡ ok pointer
          → get_elem? arena pointer ≡ some (local_variable (slot i))
      go none each e = cc
      go (some local) each e =
          subst (λ p. get_elem? arena p ≡ some (local_variable (slot i))) (ok-injective e)
            (each local refl)

  -- The state that the operator has led to, with the same values on both stacks.
  reached :
      (base : ActiveBlock) {ctx : BlockContext} (known : List (ℕ × V)) {vars locals : ℕ → V} {w : W}
      → ((j : ℕ) → vars (slot j) ≡ locals j)
      → Running gpu arena fuel start ctx known vars w
      → Simulates (at_state base ctx known) (wasm_state known locals w)
  reached base known {vars = vars} held running = record {
    known = known;
    vars = vars;
    handles = refl;
    stack = refl;
    held = held;
    running = running;
  }

  -- What the translator does for an operator simulates it.
  pub perform-Simulated :
      (base : ActiveBlock) (ctx : BlockContext) (known : List (ℕ × V)) (vars locals : ℕ → V) (w : W)
      (i : Instruction)
      → Distinct slot
      → HasSlots arena body slot
      → ((j : ℕ) → vars (slot j) ≡ locals j)
      → Running gpu arena fuel start ctx known vars w
      → Simulated
          (perform body (at_state base ctx known) i)
          (step gpu body.disjoint_memory i (wasm_state known locals w))
  unfolding perform step push pop peek pop_from local_ptr push_call Locals.get
      pop_one_push_call_mono pop_two_push_call_bi pop_one_push_call_mem_func pop_two_call_mem_func
      call_void push_statement
  perform-Simulated base ctx known vars locals w nop d slots held r =
      λ within. reached base known held r
  perform-Simulated base ctx known vars locals w (push_const_val v) d slots held r = λ within.
      reached base (_ ∷ known) held (
        append_static gpu arena fuel start ctx (constant (wasm_constant v)) known vars w _ refl r
          within)
  perform-Simulated base ctx known vars locals w (append_trap t) d slots held r =
      Simulated-bind (trap_value t) _ _ (λ code e within. reached base known held (
        subst (Running gpu arena fuel start (emit_set_trap ctx code) known vars)
          (ap (λ c. trapped gpu arena fuel start c w) (sym (trap_value-eq t code e)))
          (emit_set_trap-Running gpu arena fuel start ctx code known vars w r within)))
  perform-Simulated base ctx [] vars locals w drop d slots held r = tt
  perform-Simulated base ctx (p ∷ known) vars locals w drop d slots held r = λ within.
      reached base known held (forget gpu arena fuel start ctx (p ∷ known) known vars w r r.knows.1)
  perform-Simulated base ctx known vars locals w (local_get i) d slots held r =
      Simulated-bind (local_ptr body i) _ _ (λ pointer e within. record {
        known = (((append_expr ctx (load pointer)).0, vars (slot i)) ∷ known);
        vars = vars;
        handles = refl;
        stack = ap (λ v. v ∷ map (λ p. p.1) known) (held i);
        held = held;
        running =
            append_load_local gpu arena fuel start ctx pointer (slot i) known vars w
              (slot_of_ptr i pointer slots e) r within;
      })
  perform-Simulated base ctx [] vars locals w (local_set i) d slots held r =
      Simulated-bind (local_ptr body i) _ _ (λ _ _. tt)
  perform-Simulated base ctx (p ∷ known) vars locals w (local_set i) d slots held r =
      Simulated-bind (local_ptr body i) _ _ (λ pointer e within.
        let r' =
          store-Running gpu arena fuel start ctx pointer (slot i) p.0 p.1 (p ∷ known) vars w
            (slot_of_ptr i pointer slots e) (0, refl) r in
        reached base known (updated locals vars i p.1 d held)
          (forget gpu arena fuel start _ _ known _ w r' r'.knows.1))
  perform-Simulated base ctx [] vars locals w (local_tee i) d slots held r =
      Simulated-bind (local_ptr body i) _ _ (λ _ _. tt)
  perform-Simulated base ctx (p ∷ known) vars locals w (local_tee i) d slots held r =
      Simulated-bind (local_ptr body i) _ _ (λ pointer e within.
        let r' =
          store-Running gpu arena fuel start ctx pointer (slot i) p.0 p.1 (p ∷ known) vars w
            (slot_of_ptr i pointer slots e) (0, refl) r in
        reached base (p ∷ known) (updated locals vars i p.1 d held) r')
  perform-Simulated base ctx [] vars locals w (unary f) d slots held r = tt
  perform-Simulated base ctx (a ∷ known) vars locals w (unary f) d slots held r = λ within.
      let r' =
        call_get_return-Running gpu arena fuel start ctx f (a ∷ []) (a ∷ known) vars w
          ((0, refl), tt) r within in
      reached base (_ ∷ known) held
        (forget gpu arena fuel start _ _ (_ ∷ known) vars _ r' (r'.knows.0, r'.knows.1.1))
  perform-Simulated base ctx [] vars locals w (binary f) d slots held r = tt
  perform-Simulated base ctx (a ∷ []) vars locals w (binary f) d slots held r = tt
  perform-Simulated base ctx (a ∷ b ∷ known) vars locals w (binary f) d slots held r = λ within.
      let r' =
        call_get_return-Running gpu arena fuel start ctx f (b ∷ a ∷ []) (a ∷ b ∷ known) vars w
          ((1, refl), ((0, refl), tt)) r within in
      reached base (_ ∷ known) held
        (forget gpu arena fuel start _ _ (_ ∷ known) vars _ r' (r'.knows.0, r'.knows.1.1.1))
  perform-Simulated base ctx [] vars locals w (mem_load memarg f) d slots held r =
      Simulated-bind (assert (ltb memarg.offset u32_mod) out_of_range) _ _ (λ _ _. tt)
  perform-Simulated base ctx (p ∷ known) vars locals w (mem_load memarg f) d slots held r =
      let memory = literal (u32_literal memarg.memory) in
      let c = append_expr ctx memory in
      let a = access_address body c.1 p.0 memarg.offset in
      Simulated-bind (assert (ltb memarg.offset u32_mod) out_of_range) _ _ (λ _ _ within.
        let wa = Within-push_call arena (at_state base a.1 known) f (c.0 ∷ a.0 ∷ []) within in
        let wc = Within-access_address arena body c.1 p.0 memarg.offset wa in
        let r1 = append_static gpu arena fuel start ctx memory (p ∷ known) vars w _ refl r wc in
        let r2 =
          access_address-Running gpu arena fuel start body c.1 p.0 memarg.offset _ vars w p.1
            (1, refl) r1 wa in
        let r3 =
          call_get_return-Running gpu arena fuel start a.1 f ((c.0, _) ∷ (a.0, _) ∷ []) _ vars w
            ((1, refl), ((0, refl), tt)) r2 within in
        reached base (_ ∷ known) held
          (forget gpu arena fuel start _ _ (_ ∷ known) vars _ r3 (r3.knows.0, r3.knows.1.1.1.1)))
  perform-Simulated base ctx [] vars locals w (mem_store memarg f) d slots held r =
      Simulated-bind (assert (ltb memarg.offset u32_mod) out_of_range) _ _ (λ _ _. tt)
  perform-Simulated base ctx (v ∷ []) vars locals w (mem_store memarg f) d slots held r =
      Simulated-bind (assert (ltb memarg.offset u32_mod) out_of_range) _ _ (λ _ _. tt)
  perform-Simulated base ctx (v ∷ p ∷ known) vars locals w (mem_store memarg f) d slots held r =
      let memory = literal (u32_literal memarg.memory) in
      let c = append_expr ctx memory in
      let a = access_address body c.1 p.0 memarg.offset in
      Simulated-bind (assert (ltb memarg.offset u32_mod) out_of_range) _ _ (λ _ _ wa.
        let wc = Within-access_address arena body c.1 p.0 memarg.offset wa in
        let r1 = append_static gpu arena fuel start ctx memory (v ∷ p ∷ known) vars w _ refl r wc in
        let r2 =
          access_address-Running gpu arena fuel start body c.1 p.0 memarg.offset _ vars w p.1
            (2, refl) r1 wa in
        let r3 =
          call_void-Running gpu arena fuel start a.1 f ((c.0, _) ∷ (a.0, _) ∷ (v.0, v.1) ∷ []) _
            vars w ((1, refl), ((0, refl), ((2, refl), tt))) r2 in
        reached base known held (forget gpu arena fuel start _ _ known vars _ r3 r3.knows.1.1.1.1))
  perform-Simulated base ctx known vars locals w Instruction.unimplemented d slots held r = tt
