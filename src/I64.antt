-- ===== src/I64.antt =====
-- wasm-gpu-transpiler/src/std_objects/wasm_tys/polyfill_i64.rs and wasm_tys.rs: an `i64` in a shader
-- is a vector of two words of 32 bits. Each definition is the function that the generator of
-- the same name emits; a shader's `u32` arithmetic wraps.
pub mod Arithmetic
pub mod Constants
pub mod Extend
use wasm_gpu.Prelude.{
  ℕ, suc, ◌+◌, ◌-◌, ◌*◌, ◌/◌, ◌%◌, ◌^◌, Bool, true, false, ◌&&◌, ◌||◌, not, List, take, drop,
  get_elem?, Option, none, some, ltb, leb, ◌==◌, if◌then◌else◌, to_le_bytes, from_le_bytes,
  overwrite, u32_mod, ◌∷◌, [],
}

pub record I64 : Type 0 where
  pub component_0 : ℕ
  pub component_1 : ℕ

abbrev pub word_max : ℕ
word_max = 0xffffffff

-- A shader's `+` and `-` on `u32`.
abbrev pub add_u32 : ℕ → ℕ → ℕ
add_u32 a b = (a + b) % u32_mod

abbrev pub sub_u32 : ℕ → ℕ → ℕ
sub_u32 a b = (a + (u32_mod - b)) % u32_mod

pub data ℤ : Type 0 where
  pos negsuc : ℕ → ℤ

-- The integer that a pattern of bits of the given modulus stands for; `as Sint` at `u32_mod`.
unfoldable pub as_sint : ℕ → ℕ → ℤ
as_sint modulus n = if ltb (n + n) modulus then pos n else negsuc (modulus - 1 - n)

unfoldable pub ltb_sint : ℤ → ℤ → Bool
ltb_sint (pos m) (pos n) = ltb m n
ltb_sint (pos m) (negsuc n) = false
ltb_sint (negsuc m) (pos n) = true
ltb_sint (negsuc m) (negsuc n) = ltb n m

unfoldable pub add : I64 → I64 → I64
add lhs rhs =
    let lhs_high = lhs.component_0 in
    let lhs_low = lhs.component_1 in
    let rhs_high = rhs.component_0 in
    let rhs_low = rhs.component_1 in
    let carry_bit = if ltb (sub_u32 word_max rhs_low) lhs_low then 1 else 0 in
    let res_low = add_u32 lhs_low rhs_low in
    let res_high = add_u32 (add_u32 lhs_high rhs_high) carry_bit in
    record { component_0 = res_high; component_1 = res_low }

unfoldable pub sub : I64 → I64 → I64
sub lhs rhs =
    let lhs_high = lhs.component_0 in
    let lhs_low = lhs.component_1 in
    let rhs_high = rhs.component_0 in
    let rhs_low = rhs.component_1 in
    let carry_condition = ltb lhs_low rhs_low in
    let res_low =
      if carry_condition
      then add_u32 (add_u32 (sub_u32 word_max rhs_low) lhs_low) 1
      else sub_u32 lhs_low rhs_low in
    let res_high = sub_u32 (sub_u32 lhs_high rhs_high) (if carry_condition then 1 else 0) in
    record { component_0 = res_high; component_1 = res_low }

-- The multiplication is not written yet: its body is the left operand.
unfoldable pub mul : I64 → I64 → I64
mul lhs rhs = lhs

-- `gen_boolean_binary`
unfoldable pub boolean_binary : (ℕ → ℕ → ℕ → ℕ → Bool) → I64 → I64 → Bool
boolean_binary make lhs rhs = make lhs.component_0 lhs.component_1 rhs.component_0 rhs.component_1

-- `gen_boolean_mono` of `eqz`
unfoldable pub eqz : I64 → Bool
eqz value = (value.component_0 == 0) && (value.component_1 == 0)

unfoldable pub eq : I64 → I64 → Bool
eq lhs rhs = (lhs.component_1 == rhs.component_1) && (lhs.component_0 == rhs.component_0)

unfoldable pub ne : I64 → I64 → Bool
ne lhs rhs = not (lhs.component_1 == rhs.component_1) || not (lhs.component_0 == rhs.component_0)

unfoldable pub lt_u : I64 → I64 → Bool
unfolding boolean_binary
lt_u = boolean_binary (λ lh ll rh rl. ltb lh rh || ((lh == rh) && ltb ll rl))

unfoldable pub le_u : I64 → I64 → Bool
unfolding boolean_binary
le_u = boolean_binary (λ lh ll rh rl. ltb lh rh || ((lh == rh) && leb ll rl))

unfoldable pub gt_u : I64 → I64 → Bool
unfolding boolean_binary
gt_u = boolean_binary (λ lh ll rh rl. ltb rh lh || ((lh == rh) && ltb rl ll))

unfoldable pub ge_u : I64 → I64 → Bool
unfolding boolean_binary
ge_u = boolean_binary (λ lh ll rh rl. ltb rh lh || ((lh == rh) && leb rl ll))

-- `<` after `as Sint`
unfoldable pub lt_sint : ℕ → ℕ → Bool
unfolding ltb_sint as_sint
lt_sint a b = ltb_sint (as_sint u32_mod a) (as_sint u32_mod b)

unfoldable pub lt_s : I64 → I64 → Bool
unfolding boolean_binary lt_sint
lt_s = boolean_binary (λ lh ll rh rl. lt_sint lh rh || ((lh == rh) && ltb ll rl))

unfoldable pub le_s : I64 → I64 → Bool
unfolding boolean_binary lt_sint
le_s = boolean_binary (λ lh ll rh rl. lt_sint lh rh || ((lh == rh) && leb ll rl))

unfoldable pub gt_s : I64 → I64 → Bool
unfolding boolean_binary lt_sint
gt_s = boolean_binary (λ lh ll rh rl. lt_sint rh lh || ((lh == rh) && ltb rl ll))

unfoldable pub ge_s : I64 → I64 → Bool
unfolding boolean_binary lt_sint
ge_s = boolean_binary (λ lh ll rh rl. lt_sint rh lh || ((lh == rh) && leb rl ll))

-- `make_64_bit_const_expr_from_2vec32`; the value is given by its 64 bits.
unfoldable pub make_const : ℕ → I64
unfolding to_le_bytes from_le_bytes
make_const value =
    let bytes = to_le_bytes 8 value in
    record {
      component_0 = from_le_bytes (take 4 bytes);
      component_1 = from_le_bytes (drop 4 bytes);
    }

-- `gen_read` and `gen_write`, on the words of a buffer.
-- The vector of two loaded words; a load may be out of bounds.
unfoldable pub compose : Option ℕ → Option ℕ → Option I64
compose (some word1) (some word2) = some (record { component_0 = word1; component_1 = word2 })
compose _ _ = none

unfoldable pub read : List ℕ → ℕ → Option I64
unfolding compose
read buffer word_address =
    compose (get_elem? buffer word_address) (get_elem? buffer (word_address + 1))

unfoldable pub write : List ℕ → ℕ → I64 → List ℕ
write buffer word_address value =
    overwrite (overwrite buffer word_address (value.component_0 ∷ [])) (word_address + 1)
      (value.component_1 ∷ [])

-- A shader's `<<`, and `>>` on a value that was cast by `as Sint`, on the patterns of bits.
unfoldable pub shl : ℕ → ℕ → ℕ
shl a n = a * 2 ^ n % u32_mod

unfoldable pub shr_sint : ℕ → ℕ → ℕ
shr_sint a n = if ltb (a + a) u32_mod then a / 2 ^ n else word_max - (word_max - a) / 2 ^ n

unfoldable pub extend_8_s : I64 → I64
unfolding shl shr_sint
extend_8_s value =
    let low = value.component_1 in
    let high = shr_sint (shl low 31) 31 in
    let low' = shr_sint (shl low 24) 24 in record { component_0 = high; component_1 = low' }

unfoldable pub extend_16_s : I64 → I64
unfolding shl shr_sint
extend_16_s value =
    let low = value.component_1 in
    let high = shr_sint (shl low 31) 31 in
    let low' = shr_sint (shl low 16) 16 in record { component_0 = high; component_1 = low' }

unfoldable pub extend_32_s : I64 → I64
unfolding shl shr_sint
extend_32_s value =
    let low = value.component_1 in
    let high = shr_sint (shl low 31) 31 in record { component_0 = high; component_1 = low }
