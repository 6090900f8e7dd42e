-- ===== src/Access/Trapping.antt =====
-- wasm-gpu-transpiler/src/std_objects/flags.rs and wasm_tys.rs: which trap an invocation ends with,
-- and what it may still store.
use wasm_gpu.Prelude.{
  ℕ, ◌/◌, ◌<◌, ◌≡◌, ◌≢◌, refl, false, List, [], ◌∷◌, All, some, length, get_elem?-overwrite_self,
  get_elem?-overwrite_other, Outcome, ok, ◌>>=◌, ◌==◌, arith,
}
use wasm_gpu.Traps.{
  Trap, stack_overflow, memory_out_of_bounds, heap_misaligned, table_out_of_bounds,
  indirect_call_to_null, bad_signature, integer_overflow, integer_division_by_zero,
  bad_conversion_to_integer, unreachable_code_reached, interrupt, always_trap_adapter, out_of_fuel,
  atomic_wait_non_shared_memory, other, trap_to_u32, u32_to_trap, u32_to_trap_iff,
}
use wasm_gpu.Access.{load, store, emit_set_trap}

-- A trap of the program has a code, which is not that of no trap.
known : (t : Trap) → t ≢ other → (code : ℕ) × (trap_to_u32 (some t) ≡ ok code) × (0 < code)
unfolding trap_to_u32
known stack_overflow h = (1, refl, omega arith)
known memory_out_of_bounds h = (2, refl, omega arith)
known heap_misaligned h = (3, refl, omega arith)
known table_out_of_bounds h = (4, refl, omega arith)
known indirect_call_to_null h = (5, refl, omega arith)
known bad_signature h = (6, refl, omega arith)
known integer_overflow h = (7, refl, omega arith)
known integer_division_by_zero h = (8, refl, omega arith)
known bad_conversion_to_integer h = (9, refl, omega arith)
known unreachable_code_reached h = (10, refl, omega arith)
known interrupt h = (11, refl, omega arith)
known always_trap_adapter h = (12, refl, omega arith)
known out_of_fuel h = (13, refl, omega arith)
known atomic_wait_non_shared_memory h = (14, refl, omega arith)
known other h = absurd (h refl)

-- The traps that an invocation runs into, in order, from a trap state on.
unfoldable pub set_traps : List Trap → ℕ → Outcome ℕ
set_traps [] trap_state = ok trap_state
set_traps (t ∷ ts) trap_state = do
  trap_state' ← emit_set_trap t trap_state
  set_traps ts trap_state'

-- A trap state that is set stays as it is.
set_traps_kept :
    (ts : List Trap) (code : ℕ) → 0 < code → All (λ t. t ≢ other) ts → set_traps ts code ≡ ok code
unfolding set_traps emit_set_trap
set_traps_kept [] code pos h = refl
set_traps_kept (t ∷ ts) code pos h =
    let (new_code, coded, _) = known t h.0 in
    let skipped : (code == 0) ≡ false = ground arith in
    rw (coded, skipped) (set_traps_kept ts code pos h.1)

-- An invocation that runs into traps ends with a code that the host reads as the first of them.
pub set_traps_first :
    (t : Trap) (ts : List Trap)
    → All (λ u. u ≢ other) (t ∷ ts)
    → (code : ℕ) × (set_traps (t ∷ ts) 0 ≡ ok code) × (u32_to_trap code ≡ ok (some t))
unfolding set_traps emit_set_trap
set_traps_first t ts h =
    let (code, coded, pos) = known t h.0 in
    (code, rw coded (set_traps_kept ts code pos h.1), (u32_to_trap_iff code (some t)).1 coded)

-- After a store by an invocation that has not trapped, a load of any address in the same word gives
-- the stored value, and loads of the other words give what they gave; a trapped invocation's
-- store changes nothing.
pub load-store :
    (trap_state : ℕ) (memory : List ℕ) (address value other_address : ℕ)
    → address / 4 < length memory
    → (trap_state ≡ 0
        → other_address / 4 ≡ address / 4
        → load (store trap_state memory address value) other_address ≡ some value)
      × (other_address / 4 ≢ address / 4
          → load (store trap_state memory address value) other_address ≡ load memory other_address)
      × (trap_state ≢ 0 → store trap_state memory address value ≡ memory)
unfolding load store
load-store trap_state memory address value other_address inside = (
  λ unset same. rw (unset, same) (get_elem?-overwrite_self memory (address / 4) value inside),
  λ ne. ground (arith, get_elem?-overwrite_other memory (address / 4) value (other_address / 4) ne),
  λ set. ground arith,
)
