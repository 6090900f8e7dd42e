-- ===== src/I32/Extend.antt =====
-- wasm-gpu-transpiler/src/std_objects/wasm_tys/native_i32.rs: the sign extensions of `i32`.
use wasm_gpu.Prelude.{ℕ, ◌%◌, ◌^◌, ◌<◌, ◌≡◌, u32_mod, arith}
use wasm_gpu.I64.{as_sint, shl, shr_sint}
use wasm_gpu.I32.{extend_8_s, extend_16_s}

-- The sign extensions of 8 and of 16 bits give, as integers in two's complement of 32 bits, the
-- integers in two's complement of the lowest 8 and 16 bits.
as_sint-extend :
    (v : ℕ)
    → v < u32_mod
    → (as_sint u32_mod (extend_8_s v) ≡ as_sint (2 ^ 8) (v % 2 ^ 8))
      × (as_sint u32_mod (extend_16_s v) ≡ as_sint (2 ^ 16) (v % 2 ^ 16))
unfolding as_sint extend_8_s extend_16_s shl shr_sint
as_sint-extend v h = (ground arith, ground arith)
