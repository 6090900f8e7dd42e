-- ===== src/ActiveBlock/Refines.antt =====
-- active_block.rs and mvp.rs: a basic block is translated whenever the stack machine runs it, and the
-- emitted statements do what the stack machine does.
use wasm_gpu.Prelude.{
  false, ℕ, ◌≡◌, refl, sym, ap, subst, ◌∙◌, List, [], ◌∷◌, map, length, All, ok, ok-injective,
  >>=-eq-ok,
}
use wasm_gpu.Naga.{Expression, new_block}
use wasm_gpu.Naga.Machine.{Gpu, Machine, falls, exec_block, value}
use wasm_gpu.Naga.Emission.{Within, LastOrdered}
use wasm_gpu.Mvp.{Instruction}
use wasm_gpu.ActiveBlock.{ActiveBlock, BodyData, perform, perform_all}
use wasm_gpu.ActiveBlock.Direct.{step, run}
use wasm_gpu.ActiveBlock.Running.{values-Knows}
use wasm_gpu.ActiveBlock.Growth.{Grows, perform_all-Grows}
use wasm_gpu.ActiveBlock.Correct.{Simulates, Simulated, HasSlots, Distinct, perform-Simulated}
use wasm_gpu.Mvp.{
  nop, drop, push_const_val, append_trap, local_get, local_set, local_tee, unary, binary, mem_load,
  mem_store,
}
use wasm_gpu.ActiveBlock.StackMachine.{Operands, Operators, Computes, advance, advance_all}
use wasm_gpu.ActiveBlock.Supported.{Supported, perform_all-ok}

module _ {V W : Type 0} (gpu : Gpu V W) (body : BodyData) where
  module _ (fuel : ℕ) (start : Machine V W) (slot : ℕ → ℕ) (arena : List Expression) where
    perform-Simulates :
        (state : ActiveBlock) (s : Operands V W) (i : Instruction)
        → Distinct slot
        → HasSlots arena body slot
        → Simulates gpu fuel start body slot arena state s
        → Simulated gpu fuel start body slot arena
            (perform body state i)
            (step gpu body.disjoint_memory i s)
    perform-Simulates state s i d slots sim =
        let h =
          perform-Simulated gpu fuel start body slot arena state state.ctx sim.known sim.vars
            s.locals s.world i d slots sim.held sim.running in
        subst
          (λ hs.
            Simulated gpu fuel start body slot arena (perform body (record state { stack = hs }) i)
              (step gpu body.disjoint_memory i s))
          (sym sim.handles)
          (subst
            (λ vs.
              Simulated gpu fuel start body slot arena
                (perform body (record state { stack = map (λ p. p.0) sim.known }) i)
                (step gpu body.disjoint_memory i (record s { stack = vs })))
            sim.stack h)

    perform_all-Simulates :
        (state state' : ActiveBlock) (s s' : Operands V W) (is : List Instruction)
        → Distinct slot
        → HasSlots arena body slot
        → Within arena state'.ctx.expressions
        → Simulates gpu fuel start body slot arena state s
        → perform_all body state is ≡ ok state'
        → run gpu body.disjoint_memory is s ≡ ok s'
        → Simulates gpu fuel start body slot arena state' s'
    unfolding perform_all run
    perform_all-Simulates state state' s s' [] d slots within sim performed ran =
        subst (λ x. Simulates gpu fuel start body slot arena x s') (ok-injective performed)
          (subst (Simulates gpu fuel start body slot arena state) (ok-injective ran) sim)
    perform_all-Simulates state state' s s' (i ∷ is) d slots within sim performed ran =
        let (state₁, first, rest) = >>=-eq-ok (perform body state i) _ performed in
        let (s₁, stepped, ran') = >>=-eq-ok (step gpu body.disjoint_memory i s) _ ran in
        let within₁ =
          subst (λ o. Grows arena o state₁.ctx) rest (perform_all-Grows arena body state₁ is)
            within in
        let simulated : Simulated gpu fuel start body slot arena (ok state₁) (ok s₁) =
          subst (λ o. Simulated gpu fuel start body slot arena o (ok s₁)) first
            (subst (Simulated gpu fuel start body slot arena (perform body state i)) stepped
              (perform-Simulates state s i d slots sim)) in
        perform_all-Simulates state₁ state' s₁ s' is d slots within (simulated within₁) rest ran'

-- The statements of a translated block do what its operators do directly.
perform_all-direct :
    {V W : Type 0} (gpu : Gpu V W) (fuel : ℕ) (start : Machine V W) (body : BodyData) (slot : ℕ → ℕ)
    (state : ActiveBlock) (is : List Instruction) (s' : Operands V W)
    → Distinct slot
    → HasSlots state.ctx.expressions body slot
    → state.ctx.block ≡ new_block
    → state.stack ≡ []
    → All (Supported body) is
    → run gpu body.disjoint_memory is
        (record { stack = []; locals = λ i. start.variables (slot i); world = start.world })
      ≡ ok s'
    → (state' : ActiveBlock) × (perform_all body state is ≡ ok state')
      × (m : Machine V W) × (exec_block gpu state'.ctx.expressions fuel state'.ctx.block start
          ≡ (m, falls))
      × (map (value gpu state'.ctx.expressions m) state'.stack ≡ s'.stack)
      × ((i : ℕ) → m.variables (slot i) ≡ s'.locals i)
      × (m.world ≡ s'.world)
unfolding exec_block
perform_all-direct {V = V} {W = W} gpu fuel start body slot state is s' d slots block stack all
      ran =
    let s : Operands V W = record {
      stack = [];
      locals = λ i. start.variables (slot i);
      world = start.world;
    } in
    let (state', performed) = perform_all-ok gpu body state s s' is all (ap length stack) ran in
    let arena = state'.ctx.expressions in
    let within =
      subst (λ o. Grows arena o state.ctx) performed (perform_all-Grows arena body state is)
        (λ h e p. p) in
    let sim =
      perform_all-Simulates gpu body fuel start slot arena state state' s s' is d
        (λ i local found. within local.expression _ (slots i local found)) (λ h e p. p)
        (record {
          known = [];
          vars = start.variables;
          handles = stack;
          stack = refl;
          held = λ i. refl;
          running = record {
            machine = start;
            runs = ap (λ b. exec_block gpu arena fuel b start) block;
            ordered = subst LastOrdered (sym block) tt;
            knows = tt;
            variables = refl;
            world = refl;
          };
        })
        performed ran in
    let r = sim.running in
    (
      state',
      performed,
      r.machine,
      r.runs,
      ap (map (value gpu arena r.machine)) sim.handles
          ∙ values-Knows gpu arena fuel start (length arena) r.machine sim.known r.knows
          ∙ sim.stack,
      λ i. ap (λ f. f (slot i)) r.variables ∙ sim.held i,
      r.world,
    )

module _ {V W : Type 0} (gpu : Gpu V W) (operators : Operators V W)
    (computes : Computes gpu operators) where
  -- Where the stack machine goes on, the operator does the same directly.
  advance-step :
      (i : Instruction) (s s' : Operands V W)
      → advance operators i s ≡ ok s'
      → step gpu false i s ≡ ok s'
  unfolding advance step
  advance-step i s s' h = go i s.stack s.locals s.world h
    where
      go :
          (i : Instruction) (stack : List V) (locals : ℕ → V) (w : W)
          → advance operators i (record { stack = stack; locals = locals; world = w }) ≡ ok s'
          → step gpu false i (record { stack = stack; locals = locals; world = w }) ≡ ok s'
      go nop stack locals w h = h
      go (append_trap t) stack locals w h = cc h
      go Instruction.unimplemented stack locals w h = cc h
      go (push_const_val v) stack locals w h = rw (computes.constants v) h
      go (local_get j) stack locals w h = h
      go drop [] locals w h = cc h
      go drop (a ∷ stack) locals w h = h
      go (local_set j) [] locals w h = cc h
      go (local_set j) (a ∷ stack) locals w h = h
      go (local_tee j) [] locals w h = cc h
      go (local_tee j) (a ∷ stack) locals w h = h
      go (unary f) [] locals w h = cc h
      go (unary f) (a ∷ stack) locals w h = rw (computes.unaries f a w) h
      go (binary f) [] locals w h = cc h
      go (binary f) (a ∷ []) locals w h = cc h
      go (binary f) (b ∷ a ∷ stack) locals w h = rw (computes.binaries f a b w) h
      go (mem_load memarg f) [] locals w h = cc h
      go (mem_load memarg f) (a ∷ stack) locals w h =
          rw (computes.loads f memarg.memory a memarg.offset w) h
      go (mem_store memarg f) [] locals w h = cc h
      go (mem_store memarg f) (v ∷ []) locals w h = cc h
      go (mem_store memarg f) (v ∷ a ∷ stack) locals w h =
          rw (computes.stores f memarg.memory a memarg.offset v w) h

  advance_all-run :
      (is : List Instruction) (s s' : Operands V W)
      → advance_all operators is s ≡ ok s'
      → run gpu false is s ≡ ok s'
  unfolding advance_all run
  advance_all-run [] s s' h = h
  advance_all-run (i ∷ is) s s' h =
      let (s₁, first, rest) = >>=-eq-ok (advance operators i s) _ h in
      rw (advance-step i s s₁ first) (advance_all-run is s₁ s' rest)

-- The translation of a basic block into a new block of the shader, for a memory that the invocations
-- share. The functions of the shader are taken to compute the operators of numbers and of memory. The
-- translator supports the operators, and the locals have variables of their own. If the stack machine runs
-- the operators on an empty stack to a result, so that none is `unreachable` or one that the source leaves
-- unimplemented, then the translator takes them all, and running the statements that it emitted falls
-- through, with the values of the handles on its stack those on the stack of the machine, the variables of
-- the locals holding the locals, and the same memory.
pub perform_all-run :
    {V W : Type 0} (gpu : Gpu V W) (operators : Operators V W) (fuel : ℕ) (start : Machine V W)
    (body : BodyData) (slot : ℕ → ℕ) (state : ActiveBlock) (is : List Instruction)
    (s' : Operands V W)
    → Computes gpu operators
    → body.disjoint_memory ≡ false
    → Distinct slot
    → HasSlots state.ctx.expressions body slot
    → state.ctx.block ≡ new_block
    → state.stack ≡ []
    → All (Supported body) is
    → advance_all operators is
        (record { stack = []; locals = λ i. start.variables (slot i); world = start.world })
      ≡ ok s'
    → (state' : ActiveBlock) × (perform_all body state is ≡ ok state')
      × (m : Machine V W) × (exec_block gpu state'.ctx.expressions fuel state'.ctx.block start
          ≡ (m, falls))
      × (map (value gpu state'.ctx.expressions m) state'.stack ≡ s'.stack)
      × ((i : ℕ) → m.variables (slot i) ≡ s'.locals i)
      × (m.world ≡ s'.world)
perform_all-run {V = V} {W = W} gpu operators fuel start body slot state is s' computes shared d
      slots block stack all ran =
    let s : Operands V W = record {
      stack = [];
      locals = λ i. start.variables (slot i);
      world = start.world;
    } in
    perform_all-direct gpu fuel start body slot state is s' d slots block stack all
      (ap (λ b. run gpu b is s) shared ∙ advance_all-run gpu operators computes is s s' ran)
