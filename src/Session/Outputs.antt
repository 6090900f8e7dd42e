-- ===== src/Session/Outputs.antt =====
-- wasm-gpu/src/session.rs (`extract_output`) against active_function/results.rs and
-- active_function.rs of the transpiler: the host reads every result where the shader stored it.
use wasm_gpu.Prelude.{
  ℕ, zero, suc, ◌+◌, ◌*◌, ◌%◌, ◌^◌, ◌<◌, ◌≤◌, ◌≡◌, refl, sym, subst, ◌∙◌, ap, List, [], ◌∷◌, map,
  Option, none, some, length, get_elem?, All, arith, u32_mod, ok, ◌>>=◌, to_le_bytes, from_le_bytes,
  from_le_bytes-to_le_bytes,
}
use wasm_gpu.Typed.{ValType, Val, byte_count, get_type, to_bytes}
use wasm_gpu.Typed.Bytes.{IsVal, try_from_bytes-to_bytes}
use wasm_gpu.Traps.{Trap, trap_to_u32, u32_to_trap, u32_to_trap_iff}
use wasm_gpu.Layout.{
  words, word_offset, word_alignment, entry_locations, io_base_index, locations, next_multiple_of,
}
use wasm_gpu.Layout.Words.{words_pos, padded-words, word_alignment_lem, word_offset_acc}
use wasm_gpu.Session.{
  Reader, Invoked, trapped, returned, output_length, output_instance_len, extract_values,
  extract_instance, extract_from, extract_output,
}

output_length-word_offset : (ts : List ValType) → output_length ts ≡ 4 * word_offset 0 ts
unfolding output_length word_offset
output_length-word_offset [] = refl
output_length-word_offset (t ∷ ts) =
    omega (arith, padded-words t, output_length-word_offset ts, word_offset_acc (0 + words t) ts)

pub output_instance_len-word_alignment :
    (ts : List ValType) → output_instance_len ts ≡ 4 * word_alignment ts
unfolding output_instance_len next_multiple_of
output_instance_len-word_alignment ts =
    ground (arith, output_length-word_offset ts, word_alignment_lem ts)

-- The trap that the flag of an invocation stands for.
abbrev pub flag_of : Invoked → Option Trap
flag_of (trapped t) = some t
flag_of (returned vs) = none

-- A reader finds the values of a list at the given locations.
abbrev pub Stores : Reader → List ℕ → List Val → Type 0
Stores output at vs =
    (j w : ℕ) (v : Val)
    → get_elem? vs j ≡ some v
    → get_elem? at j ≡ some w
    → output (4 * w) (4 * w + byte_count (get_type v)) ≡ ok (to_bytes v)

-- What invocation `i` left behind: its flag, and if it did not trap its results, of the types of
-- the function, where `entry_locations` says.
abbrev pub LeftResults : Reader → List ValType → ℕ → Invoked → Type 0
LeftResults output tys i (trapped t) = Unit {0}
LeftResults output tys i (returned vs) =
    (map get_type vs ≡ tys) × All IsVal vs × Stores output (entry_locations tys i) vs

pub record Left (tys : List ValType) (flags output : Reader) (i : ℕ) (r : Invoked) : Type 0 where
  pub code : ℕ
  pub encoded : trap_to_u32 (flag_of r) ≡ ok code
  pub small : code < 256 ^ 4
  pub flag : flags (4 * i) (4 * i + 4) ≡ ok (to_le_bytes 4 code)
  pub results : LeftResults output tys i r

extract_values_lem :
    (output : Reader) (base o offset : ℕ) (vs : List Val)
    → All IsVal vs
    → offset ≡ 4 * (base + o)
    → base + (o + word_offset 0 (map get_type vs)) ≤ u32_mod
    → Stores output (locations base o (map get_type vs)) vs
    → extract_values output (map get_type vs) offset ≡ ok vs
unfolding extract_values locations word_offset
extract_values_lem output base o offset [] valid at fits h = refl
extract_values_lem output base o offset (v ∷ vs) valid at fits h =
    let t = get_type v in
    let room : base + (o + words t + word_offset 0 (map get_type vs)) ≤ u32_mod =
      omega (arith, word_offset_acc (0 + words t) (map get_type vs)) in
    let exact : 4 * ((base + o) % u32_mod) ≡ offset = omega (arith, words_pos t) in
    let bytes : output offset (offset + byte_count t) ≡ ok (to_bytes v) =
      rw exact at (h 0 ((base + o) % u32_mod) v refl refl) in
    let rest : extract_values output (map get_type vs) (offset + next_multiple_of (byte_count t) 4)
        ≡ ok vs =
      extract_values_lem output base (o + words t) (offset + next_multiple_of (byte_count t) 4) vs
        valid.1 (omega (arith, padded-words t)) room (λ j w u eu ew. h (suc j) w u eu ew) in
    rw (bytes, try_from_bytes-to_bytes v valid.0, rest) refl

pub row_end : (al i n : ℕ) → i < n → al * n ≤ u32_mod → al * i + al ≤ u32_mod
row_end al i n h fits = grind arith

pub row_start : (al i n : ℕ) → i < n → al * n ≤ u32_mod → al * i < u32_mod
row_start zero i n h fits = omega arith
row_start (suc al) i n h fits = omega (arith, row_end (suc al) i n h fits)

entry_values :
    (output : Reader) (tys : List ValType) (i n : ℕ) (vs : List Val)
    → i < n
    → word_alignment tys * n ≤ u32_mod
    → map get_type vs ≡ tys
    → All IsVal vs
    → Stores output (entry_locations tys i) vs
    → extract_values output tys (output_instance_len tys * i) ≡ ok vs
unfolding entry_locations io_base_index
entry_values output tys i n vs h fits typed valid stored =
    let al = word_alignment tys in
    let base : al * i % u32_mod ≡ al * i = omega (arith, row_start al i n h fits) in
    let scaled : output_instance_len tys * i ≡ 4 * (al * i) =
      ap (λ k. k * i) (output_instance_len-word_alignment tys) ∙ omega arith in
    subst (λ ts. extract_values output ts (output_instance_len tys * i) ≡ ok vs) typed
      (extract_values_lem output (al * i % u32_mod) 0 (output_instance_len tys * i) vs valid
        (omega (arith, base, scaled))
        (omega
          (arith, base, row_end al i n h fits, ap (word_offset 0) typed, word_alignment_lem tys))
        (subst (λ ts. Stores output (locations (al * i % u32_mod) 0 ts) vs) (sym typed) stored))

extract_instance_lem :
    (tys : List ValType) (flags output : Reader) (i n : ℕ) (r : Invoked)
    → i < n
    → word_alignment tys * n ≤ u32_mod
    → Left tys flags output i r
    → extract_instance tys flags output i ≡ ok r
unfolding extract_instance
extract_instance_lem tys flags output i n r h fits left =
    let at : 0 + 4 * i ≡ 4 * i = omega arith in
    let decoded : u32_to_trap (from_le_bytes (to_le_bytes 4 left.code)) ≡ ok (flag_of r) =
      ap u32_to_trap (from_le_bytes-to_le_bytes 4 left.code left.small)
      ∙ (u32_to_trap_iff left.code (flag_of r)).1 left.encoded in
    rw (at, left.flag, decoded) (finish r left.results)
  where
    finish :
        (r : Invoked)
        → LeftResults output tys i r
        → (elim (flag_of r) [
          | some t ↦ ok (trapped t)
          | none ↦
              extract_values output tys (output_instance_len tys * i) >>= λ vs. ok (returned vs)
        ])
          ≡ ok r
    finish (trapped t) u = refl
    finish (returned vs) (typed, valid, stored) =
        rw (entry_values output tys i n vs h fits typed valid stored) refl

extract_from_lem :
    (tys : List ValType) (flags output : Reader) (i n : ℕ) (rs : List Invoked)
    → i + length rs ≤ n
    → word_alignment tys * n ≤ u32_mod
    → ((k m : ℕ) (r : Invoked) → m ≡ i + k → get_elem? rs k ≡ some r → Left tys flags output m r)
    → extract_from tys flags output i (length rs) ≡ ok rs
unfolding extract_from
extract_from_lem tys flags output i n [] h fits left = refl
extract_from_lem tys flags output i n (r ∷ rs) h fits left =
    let first : extract_instance tys flags output i ≡ ok r =
      extract_instance_lem tys flags output i n r (omega arith) fits
        (left 0 i r (omega arith) refl) in
    let rest : extract_from tys flags output (suc i) (length rs) ≡ ok rs =
      extract_from_lem tys flags output (suc i) n rs (omega arith) fits
        (λ k m s e p. left (suc k) m s (omega arith) p) in
    rw (first, rest) refl

-- The host reads back what the shader left: where every invocation wrote its trap flag, and where
-- it did not trap stored its results at the locations that the entry function computes, and the
-- output is addressable by 32-bit word indices, `extract_output` returns for each invocation in
-- order its trap or exactly its results.
pub extract_output-entry_locations :
    (tys : List ValType) (flags output : Reader) (rs : List Invoked)
    → word_alignment tys * length rs ≤ u32_mod
    → ((i : ℕ) (r : Invoked) → get_elem? rs i ≡ some r → Left tys flags output i r)
    → extract_output tys (length rs) flags output ≡ ok rs
unfolding extract_output
extract_output-entry_locations tys flags output rs fits left =
    extract_from_lem tys flags output 0 (length rs) rs (omega arith) fits
      (λ k m r e p. subst (λ x. Left tys flags output x r) (sym (e ∙ omega arith)) (left k r p))
