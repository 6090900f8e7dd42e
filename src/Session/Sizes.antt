-- ===== src/Session/Sizes.antt =====
-- wasm-gpu/src/session.rs (`make_output`, `make_flags`) against active_function/results.rs and
-- active_function.rs of the transpiler: the buffers have room for what the invocations store.
use wasm_gpu.Prelude.{
  ℕ, zero, suc, ◌+◌, ◌*◌, ◌%◌, ◌<◌, ◌≤◌, ◌≡◌, ap, ◌∙◌, List, [], ◌∷◌, some, some_inj, get_elem?,
  arith, u32_mod,
}
use native.Mathlib.Nat.{mul-add}
use wasm_gpu.Typed.{ValType, byte_count}
use wasm_gpu.Layout.{words, word_offset, word_alignment, locations, entry_locations, io_base_index}
use wasm_gpu.Layout.Words.{byte_count-words, words_pos, word_alignment_lem, word_offset_acc}
use wasm_gpu.Session.{make_output_size, make_flags_size, output_instance_len}
use wasm_gpu.Session.Outputs.{output_instance_len-word_alignment, row_start, row_end}

-- Below the end of the address space, a value lies between its base and the end of its list.
locations_bound :
    (ts : List ValType) (j base offset : ℕ) {t : ValType} {w : ℕ}
    → get_elem? ts j ≡ some t
    → get_elem? (locations base offset ts) j ≡ some w
    → base + (offset + word_offset 0 ts) ≤ u32_mod
    → 0 < words t
    → (base + offset ≤ w) × (w + words t ≤ base + (offset + word_offset 0 ts))
unfolding locations word_offset
locations_bound [] j base offset et ew room pos = cc
locations_bound (x ∷ ts) zero base offset {t} {w} et ew room pos =
    let loc : (base + offset) % u32_mod ≡ w = some_inj ew in
    let size : words x ≡ words t = ap words (some_inj et) in
    let sum = word_offset_acc (0 + words x) ts in (omega arith, omega arith)
locations_bound (x ∷ ts) (suc j) base offset et ew room pos =
    let sum = word_offset_acc (0 + words x) ts in
    let (low, high) = locations_bound ts j base (offset + words x) et ew (omega arith) pos in
    (omega arith, omega arith)

row_last : (al i n : ℕ) → i < n → al * i + al ≤ al * n
row_last al i n h = grind arith

entry_bound :
    (tys : List ValType) (count i j : ℕ) {t : ValType} {w : ℕ}
    → i < count
    → word_alignment tys * count ≤ u32_mod
    → get_elem? tys j ≡ some t
    → get_elem? (entry_locations tys i) j ≡ some w
    → (word_alignment tys * i ≤ w) × (w + words t ≤ word_alignment tys * i + word_alignment tys)
unfolding entry_locations io_base_index
entry_bound tys count i j {t} {w} h fits et ew =
    let al = word_alignment tys in
    let base : al * i % u32_mod ≡ al * i = omega (arith, row_start al i count h fits) in
    let (low, high) =
      locations_bound tys j (al * i % u32_mod) 0 et ew
        (omega (arith, base, row_end al i count h fits, word_alignment_lem tys)) (words_pos t) in
    (omega (arith, base, low), omega (arith, base, high, word_alignment_lem tys))

make_output_size_le :
    (count : ℕ) (tys : List ValType) → 4 * (word_alignment tys * count) ≤ make_output_size count tys
unfolding make_output_size
make_output_size_le count tys =
    let scaled : count * output_instance_len tys ≡ 4 * (word_alignment tys * count) =
      ap (λ k. count * k) (output_instance_len-word_alignment tys) ∙ grind arith in
    omega (arith, scaled)

make_flags_size_le : (i count : ℕ) → i < count → 4 * i + 4 ≤ make_flags_size count
unfolding make_flags_size
make_flags_size_le i count h = omega arith

-- Where `count` invocations fit in the address space, each result of an invocation lies in the words
-- of that invocation and of no other, and inside the output buffer; and its flag lies inside the
-- buffer of flags.
pub entry_locations-make_output_size :
    (tys : List ValType) (count i j w : ℕ) (t : ValType)
    → i < count
    → word_alignment tys * count ≤ u32_mod
    → get_elem? tys j ≡ some t
    → get_elem? (entry_locations tys i) j ≡ some w
    → (word_alignment tys * i ≤ w)
      × (w + words t ≤ word_alignment tys * (i + 1))
      × (4 * w + byte_count t ≤ make_output_size count tys)
      × (4 * i + 4 ≤ make_flags_size count)
entry_locations-make_output_size tys count i j w t h fits et ew =
    let al = word_alignment tys in
    let (low, high) = entry_bound tys count i j h fits et ew in
    let next : al * (i + 1) ≡ al * i + al = omega (arith, mul-add al i 1) in
    let last = row_last al i count h in
    (
      low,
      omega (arith, next, high),
      omega (arith, byte_count-words t, high, last, make_output_size_le count tys),
      make_flags_size_le i count h,
    )
