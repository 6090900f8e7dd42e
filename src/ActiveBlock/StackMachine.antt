-- ===== src/ActiveBlock/StackMachine.antt =====
-- An abstract stack machine for the operators of a basic block, which knows neither expressions nor
-- statements. What an operator of numbers or of memory does to values is a parameter, by the name of the
-- function that stands for it. It describes no code of the repository.
use wasm_gpu.Prelude.{
  ℕ, List, [], ◌∷◌, Outcome, ok, err, ◌>>=◌, ◌≡◌, malformed, unimplemented, unsupported,
}
use wasm_gpu.Typed.{Val}
use wasm_gpu.Std.{StdFunction}
use wasm_gpu.Mvp.{
  Instruction, nop, drop, push_const_val, append_trap, local_get, local_set, local_tee, unary,
  binary, mem_load, mem_store,
}
use wasm_gpu.Naga.{u32_literal, wasm_constant, add_op}
use wasm_gpu.Naga.Machine.{Gpu, update}

-- The stack of values, the locals and the memory.
pub record Operands (V W : Type 0) : Type 0 where
  pub stack : List V
  pub locals : ℕ → V
  pub world : W

-- The operators on values; an access to memory has the index of the memory, the address and the offset.
pub record Operators (V W : Type 0) : Type 0 where
  pub constant : Val → V
  pub unary : StdFunction → V → W → V × W
  pub binary : StdFunction → V → V → W → V × W
  pub load : StdFunction → ℕ → V → ℕ → W → V × W
  pub store : StdFunction → ℕ → V → ℕ → V → W → W

-- The functions of the shader compute the operators, an access at the sum of its address and its offset.
pub record Computes {V W : Type 0} (gpu : Gpu V W) (operators : Operators V W) : Type 0 where
  pub constants : (v : Val) → gpu.constant_value (wasm_constant v) ≡ operators.constant v
  pub unaries : (f : StdFunction) (a : V) (w : W) → gpu.call f (a ∷ []) w ≡ operators.unary f a w
  pub binaries :
      (f : StdFunction) (a b : V) (w : W) → gpu.call f (a ∷ b ∷ []) w ≡ operators.binary f a b w
  pub loads :
      (f : StdFunction) (memory : ℕ) (address : V) (offset : ℕ) (w : W)
      → gpu.call f
          (gpu.literal_value (u32_literal memory)
            ∷ gpu.operate add_op address (gpu.literal_value (u32_literal offset))
            ∷ [])
          w
        ≡ operators.load f memory address offset w
  pub stores :
      (f : StdFunction) (memory : ℕ) (address : V) (offset : ℕ) (v : V) (w : W)
      → (gpu.call f
          (gpu.literal_value (u32_literal memory)
            ∷ gpu.operate add_op address (gpu.literal_value (u32_literal offset))
            ∷ v
            ∷ [])
          w).1
        ≡ operators.store f memory address offset v w

module _ {V W : Type 0} (operators : Operators V W) where
  -- A trap ends the run without a result, and so does an operator that the source leaves unimplemented.
  unfoldable pub advance : Instruction → Operands V W → Outcome (Operands V W)
  advance nop s = ok s
  advance (append_trap t) s = err unsupported
  advance Instruction.unimplemented s = err unimplemented
  advance (push_const_val v) s = ok (record s { stack = operators.constant v ∷ s.stack })
  advance (local_get i) s = ok (record s { stack = s.locals i ∷ s.stack })
  advance drop s = elim s.stack [ a ∷ stack ↦ ok (record s { stack = stack }) | _ ↦ err malformed ]
  advance (local_set i) s = elim s.stack [
    | a ∷ stack ↦ ok (record s { stack = stack; locals = update s.locals i a })
    | _ ↦ err malformed
  ]
  advance (local_tee i) s = elim s.stack [
    | a ∷ stack ↦ ok (record s { locals = update s.locals i a })
    | _ ↦ err malformed
  ]
  advance (unary f) s = elim s.stack [
    | a ∷ stack ↦
        let r = operators.unary f a s.world in ok (record s { stack = r.0 ∷ stack; world = r.1 })
    | _ ↦ err malformed
  ]
  advance (binary f) s = elim s.stack [
    | b ∷ a ∷ stack ↦
        let r = operators.binary f a b s.world in ok (record s { stack = r.0 ∷ stack; world = r.1 })
    | _ ↦ err malformed
  ]
  advance (mem_load memarg f) s = elim s.stack [
    | a ∷ stack ↦
        let r = operators.load f memarg.memory a memarg.offset s.world in
        ok (record s { stack = r.0 ∷ stack; world = r.1 })
    | _ ↦ err malformed
  ]
  advance (mem_store memarg f) s = elim s.stack [
    | v ∷ a ∷ stack ↦ ok (record s {
      stack = stack;
      world = operators.store f memarg.memory a memarg.offset v s.world;
    })
    | _ ↦ err malformed
  ]

  unfoldable pub advance_all : List Instruction → Operands V W → Outcome (Operands V W)
  unfolding advance
  advance_all [] s = ok s
  advance_all (i ∷ is) s = do s ← advance i s; advance_all is s
