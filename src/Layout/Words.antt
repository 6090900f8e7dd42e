-- ===== src/Layout/Words.antt =====
-- wasm-gpu-transpiler/src/active_function/arguments.rs: every type takes whole words, so nothing is
-- padded between the values of one invocation.
use wasm_gpu.Prelude.{
  ℕ, zero, suc, ◌+◌, ◌*◌, ◌<◌, ◌≡◌, refl, sym, ◌∙◌, ap, List, [], ◌∷◌, ◌++◌, map, some, length,
  length-append, get_elem?, arith, u32_mod, ◌%◌, some_inj, append_assoc,
}
use wasm_gpu.Typed.{ValType, i32, i64, f32, f64, v128, ref, Val, byte_count, get_type, to_bytes}
use wasm_gpu.Typed.Bytes.{length-to_bytes}
use wasm_gpu.Typed.Tuples.{vec_to_bytes}
use wasm_gpu.Layout.{words, word_offset, word_alignment, locations, next_multiple_of}

pub byte_count-words : (t : ValType) → byte_count t ≡ 4 * words t
unfolding byte_count words
byte_count-words i32 = refl
byte_count-words i64 = refl
byte_count-words f32 = refl
byte_count-words f64 = refl
byte_count-words v128 = refl
byte_count-words (ref r) = refl

pub word_offset_acc : (acc : ℕ) (ts : List ValType) → word_offset acc ts ≡ acc + word_offset 0 ts
unfolding word_offset
word_offset_acc acc [] = omega arith
word_offset_acc acc (t ∷ ts) =
    omega (arith, word_offset_acc (acc + words t) ts, word_offset_acc (0 + words t) ts)

pub word_alignment_lem : (ts : List ValType) → word_alignment ts ≡ word_offset 0 ts
unfolding word_alignment next_multiple_of
word_alignment_lem ts = ground arith

pub length-vec_to_bytes_words :
    (vs : List Val) → length (vec_to_bytes vs) ≡ 4 * word_offset 0 (map get_type vs)
unfolding vec_to_bytes word_offset
length-vec_to_bytes_words [] = refl
length-vec_to_bytes_words (v ∷ vs) = omega (
  arith,
  length-append (to_bytes v) (vec_to_bytes vs),
  length-to_bytes v,
  byte_count-words (get_type v),
  length-vec_to_bytes_words vs,
  word_offset_acc (0 + words (get_type v)) (map get_type vs),
)

-- The bytes of a list of values around those of entry `j`, which stand at the entry's location.
pub locations-split :
    (vs : List Val) (j base offset : ℕ) {v : Val} {w : ℕ}
    → get_elem? vs j ≡ some v
    → get_elem? (locations base offset (map get_type vs)) j ≡ some w
    → (pre : List ℕ) × (post : List ℕ) × (off : ℕ) × (vec_to_bytes vs ≡ pre ++ (to_bytes v ++ post))
      × (length pre ≡ 4 * off)
      × (w ≡ (base + (offset + off)) % u32_mod)
unfolding locations vec_to_bytes
locations-split [] j base offset ev ew = cc
locations-split (x ∷ vs) zero base offset {v} {w} ev ew = (
  [],
  vec_to_bytes vs,
  0,
  ap (λ (y : Val). to_bytes y ++ vec_to_bytes vs) (some_inj ev),
  refl,
  omega (arith, some_inj ew),
)
locations-split (x ∷ vs) (suc j) base offset ev ew =
    let (pre, post, off, bytes, len, loc) =
      locations-split vs j base (offset + words (get_type x)) ev ew in
    (
      to_bytes x ++ pre,
      post,
      words (get_type x) + off,
      ap (λ (l : List ℕ). to_bytes x ++ l) bytes ∙ sym (append_assoc (to_bytes x) pre _),
      omega (
        arith,
        length-append (to_bytes x) pre,
        len,
        length-to_bytes x,
        byte_count-words (get_type x),
      ),
      loc ∙ ap (λ n. (base + n) % u32_mod) (omega arith),
    )

pub words_pos : (t : ValType) → 0 < words t
unfolding words
words_pos i32 = omega arith
words_pos i64 = omega arith
words_pos f32 = omega arith
words_pos f64 = omega arith
words_pos v128 = omega arith
words_pos (ref r) = omega arith

-- The host's count of bytes for a value and the shader's count of words agree.
pub padded-words : (t : ValType) → next_multiple_of (byte_count t) 4 ≡ 4 * words t
unfolding next_multiple_of byte_count words
padded-words i32 = refl
padded-words i64 = refl
padded-words f32 = refl
padded-words f64 = refl
padded-words v128 = refl
padded-words (ref r) = refl
