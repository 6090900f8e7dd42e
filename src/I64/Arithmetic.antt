-- ===== src/I64/Arithmetic.antt =====
-- wasm-gpu-transpiler/src/std_objects/wasm_tys/polyfill_i64.rs: the functions on `i64` against the
-- arithmetic of 64 bits.
use wasm_gpu.Prelude.{
  ℕ, ◌+◌, ◌*◌, ◌<◌, ◌≡◌, not, ltb, leb, ◌==◌, u32_mod, u64_mod, arith, ◌≤◌, ◌↔◌, ◌⊎◌,
}
use wasm_gpu.I64.{
  I64, as_sint, ltb_sint, lt_sint, eq, ne, eqz, lt_u, le_u, gt_u, ge_u, lt_s, le_s, gt_s, ge_s,
  boolean_binary,
}

-- Both components are words.
abbrev pub IsI64 : I64 → Type 0
IsI64 v = (v.component_0 < u32_mod) × (v.component_1 < u32_mod)

-- The two orders of the words of a number: the functions of the source take the first component for the
-- high word, while wasm-gpu-transpiler/src/README.md, the constants and the inputs take it for the low one.
pub data WordOrder : Type 0 where
  high_first low_first : WordOrder

abbrev pub value : WordOrder → I64 → ℕ
value high_first v = v.component_0 * u32_mod + v.component_1
value low_first v = v.component_0 + v.component_1 * u32_mod

-- The unsigned comparisons, and the tests for equality and for zero, are those of the numbers.
value-comparisons_u :
    (a b : I64)
    → IsI64 a
    → IsI64 b
    → (lt_u a b ≡ ltb (value high_first a) (value high_first b))
      × (le_u a b ≡ leb (value high_first a) (value high_first b))
      × (gt_u a b ≡ ltb (value high_first b) (value high_first a))
      × (ge_u a b ≡ leb (value high_first b) (value high_first a))
      × (eq a b ≡ (value high_first a == value high_first b))
      × (ne a b ≡ not (value high_first a == value high_first b))
      × (eqz a ≡ (value high_first a == 0))
unfolding lt_u le_u gt_u ge_u boolean_binary eq ne eqz
value-comparisons_u a b ha hb = (
  ground arith,
  ground arith,
  ground arith,
  ground arith,
  ground arith,
  ground arith,
  ground arith,
)

-- The signed comparisons are those of the integers in two's complement.
value-comparisons_s :
    (a b : I64)
    → IsI64 a
    → IsI64 b
    → (lt_s a b
        ≡ ltb_sint (as_sint u64_mod (value high_first a)) (as_sint u64_mod (value high_first b)))
      × (le_s a b
          ≡ not (
              ltb_sint
                (as_sint u64_mod (value high_first b))
                (as_sint u64_mod (value high_first a))))
      × (gt_s a b
          ≡ ltb_sint (as_sint u64_mod (value high_first b)) (as_sint u64_mod (value high_first a)))
      × (ge_s a b
          ≡ not (
              ltb_sint
                (as_sint u64_mod (value high_first a))
                (as_sint u64_mod (value high_first b))))
unfolding lt_s le_s gt_s ge_s boolean_binary lt_sint ltb_sint as_sint
value-comparisons_s a b ha hb = (ground arith, ground arith, ground arith, ground arith)

-- With the low word first, the unsigned order is right exactly where both words are ordered alike.
value-lt_u_low_first :
    (a b : I64)
    → IsI64 a
    → IsI64 b
    → (lt_u a b ≡ ltb (value low_first a) (value low_first b)) ↔ (
        ((a.component_0 ≤ b.component_0) × (a.component_1 ≤ b.component_1))
        ⊎ ((b.component_0 ≤ a.component_0) × (b.component_1 ≤ a.component_1)))
unfolding lt_u boolean_binary
value-lt_u_low_first a b ha hb = (λ e. ground arith, λ h. ground (arith, h))

value-eq_low_first :
    (a b : I64)
    → IsI64 a
    → IsI64 b
    → (eq a b ≡ (value low_first a == value low_first b))
      × (ne a b ≡ not (value low_first a == value low_first b))
      × (eqz a ≡ (value low_first a == 0))
unfolding eq ne eqz boolean_binary
value-eq_low_first a b ha hb = (ground arith, ground arith, ground arith)

-- Where the first component of a vector is taken for the high word of its number, the unsigned comparisons
-- and the tests for equality and for zero are those of the numbers, and the signed ones those of the
-- integers in two's complement. Where it is taken for the low word, as wasm-gpu-transpiler/src/README.md
-- has it, the tests for equality and for zero are still those of the numbers, and `lt_u` is right exactly
-- if both words of one number are at most those of the other.
pub value-comparisons :
    (a b : I64)
    → IsI64 a
    → IsI64 b
    → ((lt_u a b ≡ ltb (value high_first a) (value high_first b))
        × (le_u a b ≡ leb (value high_first a) (value high_first b))
        × (gt_u a b ≡ ltb (value high_first b) (value high_first a))
        × (ge_u a b ≡ leb (value high_first b) (value high_first a))
        × (eq a b ≡ (value high_first a == value high_first b))
        × (ne a b ≡ not (value high_first a == value high_first b))
        × (eqz a ≡ (value high_first a == 0)))
      × ((lt_s a b
            ≡ ltb_sint
                (as_sint u64_mod (value high_first a))
                (as_sint u64_mod (value high_first b)))
          × (le_s a b
              ≡ not (
                  ltb_sint
                    (as_sint u64_mod (value high_first b))
                    (as_sint u64_mod (value high_first a))))
          × (gt_s a b
              ≡ ltb_sint
                  (as_sint u64_mod (value high_first b))
                  (as_sint u64_mod (value high_first a)))
          × (ge_s a b
              ≡ not (
                  ltb_sint
                    (as_sint u64_mod (value high_first a))
                    (as_sint u64_mod (value high_first b)))))
      × ((eq a b ≡ (value low_first a == value low_first b))
          × (ne a b ≡ not (value low_first a == value low_first b))
          × (eqz a ≡ (value low_first a == 0)))
      × ((lt_u a b ≡ ltb (value low_first a) (value low_first b)) ↔ (
          ((a.component_0 ≤ b.component_0) × (a.component_1 ≤ b.component_1))
          ⊎ ((b.component_0 ≤ a.component_0) × (b.component_1 ≤ a.component_1))))
value-comparisons a b ha hb = (
  value-comparisons_u a b ha hb,
  value-comparisons_s a b ha hb,
  value-eq_low_first a b ha hb,
  value-lt_u_low_first a b ha hb,
)
