-- ===== src/I32.antt =====
-- wasm-gpu-transpiler/src/std_objects/wasm_tys/native_i32.rs: the functions on `i32` that are more than
-- one instruction of the shader. A value is its pattern of 32 bits; each definition is the function
-- that the generator of the same name emits.
pub mod Trapping
pub mod Extend
use wasm_gpu.Prelude.{
  ℕ, ◌+◌, ◌-◌, ◌*◌, ◌/◌, ◌%◌, ◌^◌, Bool, true, false, ◌&&◌, not, ltb, ◌==◌, if◌then◌else◌, Outcome,
  ok, err, ◌>>=◌, u32_mod,
}
use wasm_gpu.Traps.{Trap, integer_division_by_zero, integer_overflow}
use wasm_gpu.Access.{emit_set_trap}
use wasm_gpu.I64.{sub_u32, shl, shr_sint}

-- `/` and `%` of a shader on `u32`; a division by zero gives the dividend.
abbrev pub div_u32 : ℕ → ℕ → ℕ
div_u32 a b = if b == 0 then a else a / b

abbrev pub rem_u32 : ℕ → ℕ → ℕ
rem_u32 a b = if b == 0 then 0 else a % b

-- The sign bit and the magnitude of a pattern that was cast by `as Sint`.
abbrev pub is_negative : ℕ → Bool
is_negative n = not (ltb (n + n) u32_mod)

abbrev pub magnitude : ℕ → ℕ
magnitude n = if is_negative n then sub_u32 0 n else n

abbrev pub signed : Bool → ℕ → ℕ
signed negative n = if negative then sub_u32 0 n else n

-- `/` and `%` of a shader on `i32` round to zero.
abbrev pub div_sint : ℕ → ℕ → ℕ
div_sint a b =
    if b == 0
    then a
    else signed (if is_negative a then not (is_negative b) else is_negative b)
        (magnitude a / magnitude b)

abbrev pub rem_sint : ℕ → ℕ → ℕ
rem_sint a b = if b == 0 then 0 else signed (is_negative a) (magnitude a % magnitude b)

-- `ctx.test(condition).then(...)` around `emit_set_trap`.
unfoldable pub test_then : Bool → Trap → ℕ → Outcome ℕ
unfolding emit_set_trap
test_then condition trap trap_state =
    if condition then emit_set_trap trap trap_state else ok trap_state

-- A call returns its value and the trap state that it leaves.
unfoldable pub div_s : ℕ → ℕ → ℕ → Outcome (ℕ × ℕ)
unfolding test_then
div_s lhs rhs trap_state = do
  trap_state ← test_then (rhs == 0) integer_division_by_zero trap_state
  trap_state ← test_then ((lhs == 0x80000000) && (rhs == 0xffffffff)) integer_overflow trap_state
  ok (div_sint lhs rhs, trap_state)

unfoldable pub div_u : ℕ → ℕ → ℕ → Outcome (ℕ × ℕ)
unfolding test_then
div_u lhs rhs trap_state = do
  trap_state ← test_then (rhs == 0) integer_division_by_zero trap_state
  ok (div_u32 lhs rhs, trap_state)

unfoldable pub rem_s : ℕ → ℕ → ℕ → Outcome (ℕ × ℕ)
unfolding test_then
rem_s lhs rhs trap_state = do
  trap_state ← test_then (rhs == 0) integer_division_by_zero trap_state
  ok (rem_sint lhs rhs, trap_state)

unfoldable pub rem_u : ℕ → ℕ → ℕ → Outcome (ℕ × ℕ)
unfolding test_then
rem_u lhs rhs trap_state = do
  trap_state ← test_then (rhs == 0) integer_division_by_zero trap_state
  ok (rem_u32 lhs rhs, trap_state)

unfoldable pub extend_8_s : ℕ → ℕ
unfolding shl shr_sint
extend_8_s value = shr_sint (shl value 24) 24

unfoldable pub extend_16_s : ℕ → ℕ
unfolding shl shr_sint
extend_16_s value = shr_sint (shl value 16) 16
