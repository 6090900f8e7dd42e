-- ===== src/Tests/Shader.antt =====
-- The theorems about the shader's functions and the translator's stack at concrete inputs.
use wasm_gpu.Prelude.{
  ◌≤◌, ◌⊎◌, ℕ, ◌+◌, ◌/◌, ◌%◌, ◌^◌, ◌<◌, ◌≡◌, ◌≢◌, ◌↔◌, not, List, [], ◌∷◌, some, take, ltb, leb,
  ◌==◌, u32_mod, u64_mod, arith,
}
use wasm_gpu.I64.{
  I64, as_sint, ltb_sint, add, eq, ne, eqz, lt_u, le_u, gt_u, ge_u, lt_s, le_s, gt_s, ge_s,
  make_const, extend_8_s, extend_16_s, extend_32_s,
}
use wasm_gpu.I32.{div_s, div_u, rem_s, rem_u}
use wasm_gpu.I32.Trapping.{Ends, signed_trap, zero_trap, divisions-Ends}
use wasm_gpu.I64.Arithmetic.{high_first, low_first, value, value-comparisons}
use wasm_gpu.I64.Constants.{add-make_const_iff}
use wasm_gpu.I64.Extend.{Uniform, sign_extended, extend_iff}
use wasm_gpu.Access.{load, store, disjoint_memory_address}
use wasm_gpu.Access.Trapping.{set_traps, set_traps_first, load-store}
use wasm_gpu.Access.Addresses.{disjoint_memory_address_shared}
use wasm_gpu.Prelude.{ok}
use wasm_gpu.Traps.{integer_division_by_zero, integer_overflow, u32_to_trap}
use wasm_gpu.LinkedStack.{LinkedStack, new, push, peek_n, collect}
use wasm_gpu.LinkedStack.Peeking.{values, collect-peek_n}

-- 2 ^ 32 - 1 and -1.
abbrev low_max : I64
low_max = record { component_0 = 0; component_1 = 0xffffffff }

abbrev minus_one : I64
minus_one = record { component_0 = 0xffffffff; component_1 = 0xffffffff }

value-comparisons_example :
    ((lt_u low_max minus_one ≡ ltb (value high_first low_max) (value high_first minus_one))
      × (le_u low_max minus_one ≡ leb (value high_first low_max) (value high_first minus_one))
      × (gt_u low_max minus_one ≡ ltb (value high_first minus_one) (value high_first low_max))
      × (ge_u low_max minus_one ≡ leb (value high_first minus_one) (value high_first low_max))
      × (eq low_max minus_one ≡ (value high_first low_max == value high_first minus_one))
      × (ne low_max minus_one ≡ not (value high_first low_max == value high_first minus_one))
      × (eqz low_max ≡ (value high_first low_max == 0)))
    × ((lt_s low_max minus_one
          ≡ ltb_sint
              (as_sint u64_mod (value high_first low_max))
              (as_sint u64_mod (value high_first minus_one)))
        × (le_s low_max minus_one
            ≡ not (
                ltb_sint
                  (as_sint u64_mod (value high_first minus_one))
                  (as_sint u64_mod (value high_first low_max))))
        × (gt_s low_max minus_one
            ≡ ltb_sint
                (as_sint u64_mod (value high_first minus_one))
                (as_sint u64_mod (value high_first low_max)))
        × (ge_s low_max minus_one
            ≡ not (
                ltb_sint
                  (as_sint u64_mod (value high_first low_max))
                  (as_sint u64_mod (value high_first minus_one)))))
    × ((eq low_max minus_one ≡ (value low_first low_max == value low_first minus_one))
        × (ne low_max minus_one ≡ not (value low_first low_max == value low_first minus_one))
        × (eqz low_max ≡ (value low_first low_max == 0)))
    × ((lt_u low_max minus_one ≡ ltb (value low_first low_max) (value low_first minus_one)) ↔ (
        ((low_max.component_0 ≤ 0xffffffff) × (low_max.component_1 ≤ 0xffffffff))
        ⊎ ((minus_one.component_0 ≤ low_max.component_0)
            × (minus_one.component_1 ≤ low_max.component_1))))
value-comparisons_example =
    value-comparisons low_max minus_one (omega arith, omega arith) (omega arith, omega arith)

add-make_const_iff_example :
    (add (make_const 0xffffffff) (make_const 1) ≡ make_const ((0xffffffff + 1) % u64_mod)) ↔ (
      (0xffffffff % u32_mod + 1 % u32_mod < u32_mod)
      × (0xffffffff / u32_mod + 1 / u32_mod < u32_mod))
add-make_const_iff_example = add-make_const_iff 0xffffffff 1 (omega arith) (omega arith)

abbrev three_words : List ℕ
three_words = 5 ∷ 6 ∷ 7 ∷ []

divisions-Ends_example :
    Ends (div_s 0x80000000 0xffffffff 0) (signed_trap 0x80000000 0xffffffff)
    × Ends (div_u 0x80000000 0xffffffff 0) (zero_trap 0xffffffff)
    × Ends (rem_s 0x80000000 0xffffffff 0) (zero_trap 0xffffffff)
    × Ends (rem_u 0x80000000 0xffffffff 0) (zero_trap 0xffffffff)
divisions-Ends_example = divisions-Ends 0x80000000 0xffffffff

extend_iff_example :
    (((value high_first (extend_8_s low_max) ≡ sign_extended (2 ^ 8) (value high_first low_max))
        ↔ (low_max.component_1 % 2 ≡ low_max.component_1 / 2 ^ 7 % 2))
      × ((value high_first (extend_16_s low_max)
            ≡ sign_extended (2 ^ 16) (value high_first low_max))
          ↔ (low_max.component_1 % 2 ≡ low_max.component_1 / 2 ^ 15 % 2))
      × ((value high_first (extend_32_s low_max)
            ≡ sign_extended (2 ^ 32) (value high_first low_max))
          ↔ (low_max.component_1 % 2 ≡ low_max.component_1 / 2 ^ 31 % 2)))
    × ((value low_first (extend_8_s low_max) ≡ sign_extended (2 ^ 8) (value low_first low_max))
        ↔ Uniform (2 ^ 8) low_max)
    × ((value low_first (extend_16_s low_max) ≡ sign_extended (2 ^ 16) (value low_first low_max))
        ↔ Uniform (2 ^ 16) low_max)
    × ((value low_first (extend_32_s low_max) ≡ sign_extended (2 ^ 32) (value low_first low_max))
        ↔ Uniform (2 ^ 32) low_max)
extend_iff_example = extend_iff low_max (omega arith, omega arith)

abbrev two_values : LinkedStack ℕ
two_values = push (new 1) 2

collect-peek_n_example : collect 4 (peek_n two_values 3) ≡ take 3 (values two_values)
collect-peek_n_example = collect-peek_n 4 3 two_values (omega arith)

set_traps_first_example :
    (code : ℕ) × (set_traps (integer_division_by_zero ∷ integer_overflow ∷ []) 0 ≡ ok code)
    × (u32_to_trap code ≡ ok (some integer_division_by_zero))
set_traps_first_example =
    set_traps_first integer_division_by_zero (integer_overflow ∷ []) ((λ e. cc), ((λ e. cc), tt))

abbrev untrapped : ℕ
untrapped = 0

load-store_example :
    (untrapped ≡ 0 → 7 / 4 ≡ 4 / 4 → load (store untrapped three_words 4 9) 7 ≡ some 9)
    × (7 / 4 ≢ 4 / 4 → load (store untrapped three_words 4 9) 7 ≡ load three_words 7)
    × (untrapped ≢ 0 → store untrapped three_words 4 9 ≡ three_words)
load-store_example = load-store untrapped three_words 4 9 7 (omega arith)

-- The first byte of the second of two invocations.
disjoint_memory_address_shared_example :
    disjoint_memory_address 0 2 1 ≡ disjoint_memory_address 128 2 0
disjoint_memory_address_shared_example =
    disjoint_memory_address_shared 1 0 0 (omega arith) (omega arith)
