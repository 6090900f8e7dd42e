-- ===== src/Access/Addresses.antt =====
-- wasm-gpu-transpiler/src/active_function/active_block.rs (`disjoint_memory_address`): which
-- addresses of two invocations are the same place.
use wasm_gpu.Prelude.{ℕ, ◌+◌, ◌*◌, ◌/◌, ◌%◌, ◌<◌, ◌≡◌, u32_mod, arith}
use native.Mathlib.Nat.{add-mul}
use wasm_gpu.Access.{disjoint_memory_address}

-- With an even number of invocations and without wrap-around, an invocation of the upper half has its
-- bytes where an invocation of the lower half has those 128 further on.
pub disjoint_memory_address_shared :
    (half id address : ℕ)
    → id < half
    → (address / 16 + 8) * (2 * half) + 16 * (id + half) + 16 < u32_mod
    → disjoint_memory_address address (2 * half) (id + half)
      ≡ disjoint_memory_address (address + 128) (2 * half) id
unfolding disjoint_memory_address
disjoint_memory_address_shared half id address lower room =
    let block : (address + 128) / 16 ≡ address / 16 + 8 = omega arith in
    let offset : (address + 128) % 16 ≡ address % 16 = omega arith in
    let spread : (address / 16 + 8) * (2 * half) ≡ address / 16 * (2 * half) + 8 * (2 * half) =
      add-mul (address / 16) 8 (2 * half) in
    rw (block, offset, spread) (omega arith)
