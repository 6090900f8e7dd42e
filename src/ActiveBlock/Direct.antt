-- ===== src/ActiveBlock/Direct.antt =====
-- What the translated operators of a basic block come to, on a stack of values, the locals and the memory:
-- they call the functions of the shader, set the trap state and go on, and move addresses as the source
-- does. It is a step between the emitted statements and the stack machine, and models no code itself.
use wasm_gpu.Prelude.{
  ℕ, ◌*◌, List, [], ◌∷◌, none, some, Bool, true, false, if◌then◌else◌, Outcome, ok, err, ◌>>=◌,
  malformed, unimplemented,
}
use wasm_gpu.Access.{memory_stride_words}
use wasm_gpu.Mvp.{
  Instruction, nop, drop, push_const_val, append_trap, local_get, local_set, local_tee, unary,
  binary, mem_load, mem_store,
}
use wasm_gpu.Naga.{
  u32_literal, wasm_constant, trap_constant, add_op, multiply_op, divide_op, modulo_op, equal_op,
}
use wasm_gpu.Naga.Machine.{Gpu, update}
use wasm_gpu.ActiveBlock.StackMachine.{Operands}
use wasm_gpu.ActiveBlock.{trap_state, invocations_count, instance_id}

abbrev pub pop_value {ℓ} : {A : Type ℓ} → List A → Outcome (A × List A)
pop_value [] = err malformed
pop_value (a ∷ stack) = ok (a, stack)

module _ {V W : Type 0} (gpu : Gpu V W) where
  -- An address moved to the memory of the invocation, where each has its own.
  abbrev pub moved_address : Bool → W → V → V
  moved_address true w address =
      let stride = gpu.literal_value (u32_literal (memory_stride_words * 4)) in
      gpu.operate add_op
        (gpu.operate multiply_op (gpu.operate divide_op address stride)
          (gpu.read invocations_count w))
        (gpu.operate add_op (gpu.operate multiply_op stride (gpu.read instance_id w))
          (gpu.operate modulo_op address stride))
  moved_address false w address = address

  -- The address of an access.
  abbrev pub shared_address : Bool → W → V → ℕ → V
  shared_address disjoint w address offset =
      moved_address disjoint w (gpu.operate add_op address (gpu.literal_value (u32_literal offset)))

  unfoldable pub step : Bool → Instruction → Operands V W → Outcome (Operands V W)
  step disjoint nop s = ok s
  step disjoint (push_const_val value) s =
      ok (record s { stack = gpu.constant_value (wasm_constant value) ∷ s.stack })
  step disjoint (append_trap t) s =
      let unset =
        gpu.operate equal_op (gpu.read trap_state s.world)
          (gpu.constant_value (trap_constant none)) in
      ok (record s {
        world =
            if gpu.truth unset
            then gpu.write trap_state (gpu.constant_value (trap_constant (some t))) s.world
            else s.world;
      })
  step disjoint drop s = do (value, stack) ← pop_value s.stack; ok (record s { stack = stack })
  step disjoint (local_get i) s = ok (record s { stack = s.locals i ∷ s.stack })
  step disjoint (local_set i) s = do
    (value, stack) ← pop_value s.stack
    ok (record s { stack = stack; locals = update s.locals i value })
  step disjoint (local_tee i) s = do
    (value, stack) ← pop_value s.stack
    ok (record s { locals = update s.locals i value })
  step disjoint (unary function) s = do
    (value, stack) ← pop_value s.stack
    let (result, world) = gpu.call function (value ∷ []) s.world
    ok (record s { stack = result ∷ stack; world = world })
  step disjoint (binary function) s = do
    (rhs, stack) ← pop_value s.stack
    (lhs, stack) ← pop_value stack
    let (result, world) = gpu.call function (lhs ∷ rhs ∷ []) s.world
    ok (record s { stack = result ∷ stack; world = world })
  step disjoint (mem_load memarg function) s = do
    (popped, stack) ← pop_value s.stack
    let address = shared_address disjoint s.world popped memarg.offset
    let memory = gpu.literal_value (u32_literal memarg.memory)
    let (result, world) = gpu.call function (memory ∷ address ∷ []) s.world
    ok (record s { stack = result ∷ stack; world = world })
  step disjoint (mem_store memarg function) s = do
    (value, stack) ← pop_value s.stack
    (popped, stack) ← pop_value stack
    let address = shared_address disjoint s.world popped memarg.offset
    let memory = gpu.literal_value (u32_literal memarg.memory)
    let (result, world) = gpu.call function (memory ∷ address ∷ value ∷ []) s.world
    ok (record s { stack = stack; world = world })
  step disjoint Instruction.unimplemented s = err unimplemented

  unfoldable pub run : Bool → List Instruction → Operands V W → Outcome (Operands V W)
  unfolding step
  run disjoint [] s = ok s
  run disjoint (i ∷ is) s = do s ← step disjoint i s; run disjoint is s
