-- ===== src/Traps.antt =====
-- wasm-gpu-transpiler/src/traps.rs: trap codes. `Trap` is that of `wasmtime_environ`, an open enum:
-- `other` stands for the codes that the two functions refuse with a panic.
use wasm_gpu.Prelude.{
  ℕ, ◌≡◌, ◌↔◌, Option, none, some, Outcome, ok, err, unimplemented, ◌==◌, if◌then◌else◌, arith,
  ok-injective,
}

pub data Trap : Type 0 where
  stack_overflow memory_out_of_bounds heap_misaligned table_out_of_bounds : Trap
  indirect_call_to_null bad_signature integer_overflow integer_division_by_zero : Trap
  bad_conversion_to_integer unreachable_code_reached interrupt always_trap_adapter : Trap
  out_of_fuel atomic_wait_non_shared_memory other : Trap

unfoldable pub trap_to_u32 : Option Trap → Outcome ℕ
trap_to_u32 none = ok 0
trap_to_u32 (some stack_overflow) = ok 1
trap_to_u32 (some memory_out_of_bounds) = ok 2
trap_to_u32 (some heap_misaligned) = ok 3
trap_to_u32 (some table_out_of_bounds) = ok 4
trap_to_u32 (some indirect_call_to_null) = ok 5
trap_to_u32 (some bad_signature) = ok 6
trap_to_u32 (some integer_overflow) = ok 7
trap_to_u32 (some integer_division_by_zero) = ok 8
trap_to_u32 (some bad_conversion_to_integer) = ok 9
trap_to_u32 (some unreachable_code_reached) = ok 10
trap_to_u32 (some interrupt) = ok 11
trap_to_u32 (some always_trap_adapter) = ok 12
trap_to_u32 (some out_of_fuel) = ok 13
trap_to_u32 (some atomic_wait_non_shared_memory) = ok 14
trap_to_u32 (some other) = err unimplemented

unfoldable pub u32_to_trap : ℕ → Outcome (Option Trap)
u32_to_trap code =
    if code == 0
    then ok none
    else if code == 1
    then ok (some stack_overflow)
    else if code == 2
    then ok (some memory_out_of_bounds)
    else if code == 3
    then ok (some heap_misaligned)
    else if code == 4
    then ok (some table_out_of_bounds)
    else if code == 5
    then ok (some indirect_call_to_null)
    else if code == 6
    then ok (some bad_signature)
    else if code == 7
    then ok (some integer_overflow)
    else if code == 8
    then ok (some integer_division_by_zero)
    else if code == 9
    then ok (some bad_conversion_to_integer)
    else if code == 10
    then ok (some unreachable_code_reached)
    else if code == 11
    then ok (some interrupt)
    else if code == 12
    then ok (some always_trap_adapter)
    else if code == 13
    then ok (some out_of_fuel)
    else if code == 14
    then ok (some atomic_wait_non_shared_memory)
    else err unimplemented

u32_to_trap_of_code :
    (t : Option Trap) (code : ℕ) → trap_to_u32 t ≡ ok code → u32_to_trap code ≡ ok t
unfolding trap_to_u32 u32_to_trap
u32_to_trap_of_code none code h = rw (← ok-injective h)
u32_to_trap_of_code (some stack_overflow) code h = rw (← ok-injective h)
u32_to_trap_of_code (some memory_out_of_bounds) code h = rw (← ok-injective h)
u32_to_trap_of_code (some heap_misaligned) code h = rw (← ok-injective h)
u32_to_trap_of_code (some table_out_of_bounds) code h = rw (← ok-injective h)
u32_to_trap_of_code (some indirect_call_to_null) code h = rw (← ok-injective h)
u32_to_trap_of_code (some bad_signature) code h = rw (← ok-injective h)
u32_to_trap_of_code (some integer_overflow) code h = rw (← ok-injective h)
u32_to_trap_of_code (some integer_division_by_zero) code h = rw (← ok-injective h)
u32_to_trap_of_code (some bad_conversion_to_integer) code h = rw (← ok-injective h)
u32_to_trap_of_code (some unreachable_code_reached) code h = rw (← ok-injective h)
u32_to_trap_of_code (some interrupt) code h = rw (← ok-injective h)
u32_to_trap_of_code (some always_trap_adapter) code h = rw (← ok-injective h)
u32_to_trap_of_code (some out_of_fuel) code h = rw (← ok-injective h)
u32_to_trap_of_code (some atomic_wait_non_shared_memory) code h = rw (← ok-injective h)
u32_to_trap_of_code (some other) code h = cc

trap_to_u32_of_trap :
    (code : ℕ) (t : Option Trap) → u32_to_trap code ≡ ok t → trap_to_u32 t ≡ ok code
unfolding trap_to_u32 u32_to_trap
trap_to_u32_of_trap code t h = ground arith

-- The two tables are inverse to one another: a code stands for a trap, or for none, exactly if
-- that trap has this code.
pub u32_to_trap_iff :
    (code : ℕ) (t : Option Trap) → (u32_to_trap code ≡ ok t) ↔ (trap_to_u32 t ≡ ok code)
u32_to_trap_iff code t = (trap_to_u32_of_trap code t, u32_to_trap_of_code t code)
