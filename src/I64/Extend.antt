-- ===== src/I64/Extend.antt =====
-- wasm-gpu-transpiler/src/std_objects/wasm_tys/polyfill_i64.rs: the sign extensions of `i64`.
use wasm_gpu.Prelude.{ℕ, ◌+◌, ◌-◌, ◌/◌, ◌%◌, ◌^◌, ◌≡◌, ◌↔◌, ltb, if◌then◌else◌, u64_mod, arith, ◌⊎◌}
use wasm_gpu.I64.{I64, shl, shr_sint, extend_8_s, extend_16_s, extend_32_s}
use wasm_gpu.I64.Arithmetic.{high_first, low_first, value, IsI64}

-- The 64 bits of the integer in two's complement whose lowest bits, modulo `m`, are given.
abbrev pub sign_extended : ℕ → ℕ → ℕ
sign_extended m n = if ltb (n % m + n % m) m then n % m else n % m + (u64_mod - m)

-- The extension of 8 bits is right exactly if the lowest bit is the sign bit.
extend_8_s_iff :
    (v : I64)
    → IsI64 v
    → (value high_first (extend_8_s v) ≡ sign_extended (2 ^ 8) (value high_first v))
      ↔ (v.component_1 % 2 ≡ v.component_1 / 2 ^ 7 % 2)
unfolding extend_8_s shl shr_sint
extend_8_s_iff v h = (λ e. ground arith, λ e. ground arith)

-- The extension of 16 bits is right exactly if the lowest bit is the sign bit.
extend_16_s_iff :
    (v : I64)
    → IsI64 v
    → (value high_first (extend_16_s v) ≡ sign_extended (2 ^ 16) (value high_first v))
      ↔ (v.component_1 % 2 ≡ v.component_1 / 2 ^ 15 % 2)
unfolding extend_16_s shl shr_sint
extend_16_s_iff v h = (λ e. ground arith, λ e. ground arith)

-- The extension of 32 bits is right exactly if the lowest bit is the sign bit.
extend_32_s_iff :
    (v : I64)
    → IsI64 v
    → (value high_first (extend_32_s v) ≡ sign_extended (2 ^ 32) (value high_first v))
      ↔ (v.component_1 % 2 ≡ v.component_1 / 2 ^ 31 % 2)
unfolding extend_32_s shl shr_sint
extend_32_s_iff v h = (λ e. ground arith, λ e. ground arith)

-- The lowest bits of both words, modulo `m`, are all zeros or all ones.
abbrev pub Uniform : ℕ → I64 → Type 0
Uniform m v =
    ((v.component_0 % m ≡ 0) × (v.component_1 % m ≡ 0))
    ⊎ ((v.component_0 % m + 1 ≡ m) × (v.component_1 % m + 1 ≡ m))

-- With the low word first, the extension of 8 bits is right exactly where both words end in zeros only,
-- or both in ones only.
extend_8_s_low_first :
    (v : I64)
    → IsI64 v
    → (value low_first (extend_8_s v) ≡ sign_extended (2 ^ 8) (value low_first v))
      ↔ Uniform (2 ^ 8) v
unfolding extend_8_s shl shr_sint
extend_8_s_low_first v h = (λ e. ground arith, λ e. ground (arith, e))

-- With the low word first, the extension of 16 bits is right exactly where both words end in zeros only,
-- or both in ones only.
extend_16_s_low_first :
    (v : I64)
    → IsI64 v
    → (value low_first (extend_16_s v) ≡ sign_extended (2 ^ 16) (value low_first v))
      ↔ Uniform (2 ^ 16) v
unfolding extend_16_s shl shr_sint
extend_16_s_low_first v h = (λ e. ground arith, λ e. ground (arith, e))

-- With the low word first, the extension of 32 bits is right exactly where both words end in zeros only,
-- or both in ones only.
extend_32_s_low_first :
    (v : I64)
    → IsI64 v
    → (value low_first (extend_32_s v) ≡ sign_extended (2 ^ 32) (value low_first v))
      ↔ Uniform (2 ^ 32) v
unfolding extend_32_s shl shr_sint
extend_32_s_low_first v h = (λ e. ground arith, λ e. ground (arith, e))

-- Where the first component of a vector is taken for the high word of its number, each sign extension, of
-- 8, 16 and 32 bits, gives the integer of the lowest bits in two's complement exactly if the lowest bit is
-- the sign bit. Where it is taken for the low word, as wasm-gpu-transpiler/src/README.md has it, the
-- extension of n bits is right exactly if the lowest n bits of both words are all zeros or all ones.
pub extend_iff :
    (v : I64)
    → IsI64 v
    → (((value high_first (extend_8_s v) ≡ sign_extended (2 ^ 8) (value high_first v))
          ↔ (v.component_1 % 2 ≡ v.component_1 / 2 ^ 7 % 2))
        × ((value high_first (extend_16_s v) ≡ sign_extended (2 ^ 16) (value high_first v))
            ↔ (v.component_1 % 2 ≡ v.component_1 / 2 ^ 15 % 2))
        × ((value high_first (extend_32_s v) ≡ sign_extended (2 ^ 32) (value high_first v))
            ↔ (v.component_1 % 2 ≡ v.component_1 / 2 ^ 31 % 2)))
      × ((value low_first (extend_8_s v) ≡ sign_extended (2 ^ 8) (value low_first v))
          ↔ Uniform (2 ^ 8) v)
      × ((value low_first (extend_16_s v) ≡ sign_extended (2 ^ 16) (value low_first v))
          ↔ Uniform (2 ^ 16) v)
      × ((value low_first (extend_32_s v) ≡ sign_extended (2 ^ 32) (value low_first v))
          ↔ Uniform (2 ^ 32) v)
extend_iff v h = (
  (extend_8_s_iff v h, extend_16_s_iff v h, extend_32_s_iff v h),
  extend_8_s_low_first v h,
  extend_16_s_low_first v h,
  extend_32_s_low_first v h,
)
