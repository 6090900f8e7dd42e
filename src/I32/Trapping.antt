-- ===== src/I32/Trapping.antt =====
-- wasm-gpu-transpiler/src/std_objects/wasm_tys/native_i32.rs: the traps of the divisions of `i32`.
use wasm_gpu.Prelude.{
  ℕ, ◌-◌, ◌^◌, ◌≡◌, refl, Bool-cases, inl, inr, false, ◌&&◌, ◌==◌, if◌then◌else◌, Outcome, ok,
  Option, none, some, u32_mod, arith,
}
use wasm_gpu.Traps.{Trap, integer_division_by_zero, integer_overflow, trap_to_u32, u32_to_trap}
use wasm_gpu.Access.{emit_set_trap}
use wasm_gpu.I32.{div_s, div_u, rem_s, rem_u, test_then}

-- A call returns, and leaves a trap state that the host reads as the given one.
abbrev pub Ends : Outcome (ℕ × ℕ) → Option Trap → Type 0
Ends call trap = (value code : ℕ) × (call ≡ ok (value, code)) × (u32_to_trap code ≡ ok trap)

-- The trap of a division by the number, and that of a signed division, by the specification.
abbrev pub zero_trap : ℕ → Option Trap
zero_trap b = if b == 0 then some integer_division_by_zero else none

abbrev pub signed_trap : ℕ → ℕ → Option Trap
signed_trap a b = if (a == 2 ^ 31) && (b == u32_mod - 1) then some integer_overflow else zero_trap b

-- From no trap, the four divisions and remainders of i32 return and leave the trap state of a division
-- by zero exactly for the divisor 0, and the signed division that of an overflow for - 2 ^ 31 by - 1;
-- for every other pair of operands the host reads that nothing was trapped.
pub divisions-Ends :
    (a b : ℕ)
    → Ends (div_s a b 0) (signed_trap a b)
      × Ends (div_u a b 0) (zero_trap b)
      × Ends (rem_s a b 0) (zero_trap b)
      × Ends (rem_u a b 0) (zero_trap b)
unfolding div_s div_u rem_s rem_u test_then emit_set_trap trap_to_u32 u32_to_trap
divisions-Ends a b = elim (Bool-cases (b == 0)) [
  | inl e ↦
      let other : (b == 0xffffffff) ≡ false = ground (arith, e) in
      elim (Bool-cases (a == 0x80000000)) [
        | inl f ↦
            rw (e, other, f)
              ((_, _, refl, refl), (_, _, refl, refl), (_, _, refl, refl), (_, _, refl, refl))
        | inr f ↦
            rw (e, other, f)
              ((_, _, refl, refl), (_, _, refl, refl), (_, _, refl, refl), (_, _, refl, refl))
      ]
  | inr e ↦ elim (Bool-cases (a == 0x80000000)) [
    | inr f ↦
        rw (e, f) ((_, _, refl, refl), (_, _, refl, refl), (_, _, refl, refl), (_, _, refl, refl))
    | inl f ↦ elim (Bool-cases (b == 0xffffffff)) [
      | inl g ↦
          rw (e, f, g)
            ((_, _, refl, refl), (_, _, refl, refl), (_, _, refl, refl), (_, _, refl, refl))
      | inr g ↦
          rw (e, f, g)
            ((_, _, refl, refl), (_, _, refl, refl), (_, _, refl, refl), (_, _, refl, refl))
    ]
  ]
]
