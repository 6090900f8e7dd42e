-- ===== src/I64/Constants.antt =====
-- wasm-gpu-transpiler/src/std_objects/wasm_tys/polyfill_i64.rs and wasm_tys.rs: the constants and
-- the accesses to buffers of `i64`, and how they meet the arithmetic.
use wasm_gpu.Prelude.{
  ℕ, ◌+◌, ◌*◌, ◌/◌, ◌%◌, ◌<◌, ◌≡◌, ◌≢◌, ◌↔◌, ap, ◌∙◌, List, [], ◌∷◌, get_elem?, some, length,
  overwrite, length-overwrite, get_elem?-overwrite_self, get_elem?-overwrite_other, from_le_bytes,
  to_le_bytes, u32_mod, u64_mod, arith,
}
use wasm_gpu.I64.{I64, add, make_const, compose, read, write}
use wasm_gpu.I64.Arithmetic.{high_first, value, IsI64}
use mathlib.Core.Path.{ap₂}

make_const_components :
    (v : ℕ)
    → v < u64_mod
    → ((make_const v).component_0 ≡ v % u32_mod) × ((make_const v).component_1 ≡ v / u32_mod)
unfolding make_const to_le_bytes from_le_bytes
make_const_components v h = (omega arith, omega arith)

-- The functions take a constant for the number whose words are those of the constant in the other
-- order: its low word is put into the component that they use as the high word.
value-make_const :
    (v : ℕ) → v < u64_mod → value high_first (make_const v) ≡ v % u32_mod * u32_mod + v / u32_mod
value-make_const v h = omega (arith, make_const_components v h)

I64_ext : {a b : I64} → a.component_0 ≡ b.component_0 → a.component_1 ≡ b.component_1 → a ≡ b
I64_ext e0 e1 = ap₂ (λ x y. record { component_0 = x; component_1 = y }) e0 e1

add_components :
    (a b : I64)
    → IsI64 a
    → IsI64 b
    → ((add a b).component_0
        ≡ (a.component_0 + b.component_0 + (a.component_1 + b.component_1) / u32_mod) % u32_mod)
      × ((add a b).component_1 ≡ (a.component_1 + b.component_1) % u32_mod)
unfolding add
add_components a b ha hb = (ground arith, ground arith)

-- So the sum of two constants is the constant of the sum exactly if neither the low words nor
-- the high words carry.
pub add-make_const_iff :
    (v w : ℕ)
    → v < u64_mod
    → w < u64_mod
    → (add (make_const v) (make_const w) ≡ make_const ((v + w) % u64_mod))
      ↔ ((v % u32_mod + w % u32_mod < u32_mod) × (v / u32_mod + w / u32_mod < u32_mod))
add-make_const_iff v w hv hw =
    let n = (v + w) % u64_mod in
    let small : n < u64_mod = omega arith in
    let (v0, v1) = make_const_components v hv in
    let (w0, w1) = make_const_components w hw in
    let (n0, n1) = make_const_components n small in
    let (s0, s1) =
      add_components (make_const v) (make_const w) (omega arith, omega arith)
        (omega arith, omega arith) in
    (
      λ e.
          let e0 = ap (λ (x : I64). x.component_0) e in
          let e1 = ap (λ (x : I64). x.component_1) e in (omega arith, omega arith),
      λ h. I64_ext (omega (arith, h.0, h.1)) (omega (arith, h.0, h.1)),
    )

-- What is written at an address of a buffer is read back there, and the other words are kept.
read-write :
    (buffer : List ℕ) (word_address : ℕ) (v : I64)
    → word_address + 1 < length buffer
    → (read (write buffer word_address v) word_address ≡ some v)
      × ((i : ℕ)
          → i ≢ word_address
          → i ≢ word_address + 1
          → get_elem? (write buffer word_address v) i ≡ get_elem? buffer i)
unfolding read write compose
read-write buffer word_address v h =
    let first = overwrite buffer word_address (v.component_0 ∷ []) in
    let low : get_elem? (overwrite first (word_address + 1) (v.component_1 ∷ [])) word_address
        ≡ some v.component_0 =
      get_elem?-overwrite_other first (word_address + 1) v.component_1 word_address (omega arith)
      ∙ get_elem?-overwrite_self buffer word_address v.component_0 (omega arith) in
    let next =
      get_elem?-overwrite_self first (word_address + 1) v.component_1
        (omega (arith, length-overwrite buffer word_address (v.component_0 ∷ []))) in
    (
      ap₂ compose low next,
      λ i ne_low ne_high.
          get_elem?-overwrite_other first (word_address + 1) v.component_1 i ne_high
          ∙ get_elem?-overwrite_other buffer word_address v.component_0 i ne_low,
    )
