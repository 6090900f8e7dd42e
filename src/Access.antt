-- ===== src/Access.antt =====
-- wasm-gpu-transpiler/src/active_function/active_block.rs (accesses to memory), std_objects/flags.rs
-- and the accesses of std_objects/wasm_tys.rs: what one invocation does to the memory and to its
-- trap state. The memory is a list of words, and an invocation's trap state is the code in a private
-- variable of the shader, 0 at the start.
pub mod Addresses
pub mod Trapping
use wasm_gpu.Prelude.{
  ℕ, ◌+◌, ◌*◌, ◌/◌, ◌%◌, Bool, List, [], ◌∷◌, Option, some, none, get_elem?, overwrite, ◌==◌,
  if◌then◌else◌, Outcome, ok, ◌>>=◌, u32_mod,
}
use wasm_gpu.Traps.{Trap, trap_to_u32}

abbrev pub memory_stride_words : ℕ
memory_stride_words = 4

-- A shader's `*` and `+` on `u32`.
abbrev mul_u32 : ℕ → ℕ → ℕ
mul_u32 a b = a * b % u32_mod

abbrev add_u32 : ℕ → ℕ → ℕ
add_u32 a b = (a + b) % u32_mod

unfoldable pub disjoint_memory_address : ℕ → ℕ → ℕ → ℕ
disjoint_memory_address shared_address invocations_count instance_id =
    let stride_bytes = memory_stride_words * 4 in
    add_u32
      (add_u32 (mul_u32 (shared_address / stride_bytes) invocations_count)
        (mul_u32 stride_bytes instance_id))
      (shared_address % stride_bytes)

-- The address of an access with a constant offset, of `pop_one_push_call_mem_func` and of
-- `pop_two_call_mem_func`.
unfoldable pub access_address : Bool → ℕ → ℕ → ℕ → ℕ → ℕ
unfolding disjoint_memory_address
access_address disjoint_memory offset invocations_count instance_id popped =
    let address = add_u32 popped offset in
    if disjoint_memory
    then disjoint_memory_address address invocations_count instance_id
    else address

-- The generated load of a word. Both of its paths, aligned and not, read the word at `address >> 2`.
unfoldable pub load : List ℕ → ℕ → Option ℕ
load memory address = get_elem? memory (address / 4)

-- The generated store of a word, which first tests the trap state.
unfoldable pub store : ℕ → List ℕ → ℕ → ℕ → List ℕ
store trap_state memory address value =
    if trap_state == 0 then overwrite memory (address / 4) (value ∷ []) else memory

-- `emit_set_trap`: what the emitted instructions do to the trap state.
unfoldable pub emit_set_trap : Trap → ℕ → Outcome ℕ
unfolding trap_to_u32
emit_set_trap trap trap_state = do
  new_trap_code ← trap_to_u32 (some trap)
  no_trap ← trap_to_u32 none
  ok (if trap_state == no_trap then new_trap_code else trap_state)
