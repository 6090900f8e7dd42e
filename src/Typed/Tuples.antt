-- ===== src/Typed/Tuples.antt =====
-- wasm-gpu-transpiler/src/typed.rs: the byte form of a tuple of values (`WasmTyVec`). A tuple type
-- is the list of its component types, `VAL_TYPES`.
use wasm_gpu.Prelude.{
  ℕ, ◌+◌, ◌-◌, ◌≡◌, refl, sym, ◌∙◌, ap, List, [], ◌∷◌, ◌++◌, map, length, length-append, slice,
  take, take-length_append, drop-length_append, All, Outcome, ok, err, ◌>>=◌, unparsable, ltb, ◌==◌,
  if◌then◌else◌, true, false, arith, append_assoc, append-nil,
}
use wasm_gpu.Typed.{ValType, Val, byte_count, get_type, to_bytes, try_from_bytes}
use wasm_gpu.Typed.Bytes.{IsVal, length-to_bytes, try_from_bytes-to_bytes}

unfoldable pub vec_byte_count : List ValType → ℕ
unfolding byte_count
vec_byte_count [] = 0
vec_byte_count (t ∷ ts) = byte_count t + vec_byte_count ts

unfoldable pub vec_to_bytes : List Val → List ℕ
unfolding to_bytes
vec_to_bytes [] = []
vec_to_bytes (v ∷ vs) = to_bytes v ++ vec_to_bytes vs

-- The components from position `index` on; every byte must belong to one.
unfoldable pub vec_from_bytes_at : List ValType → ℕ → List ℕ → Outcome (List Val)
unfolding byte_count try_from_bytes
vec_from_bytes_at [] index bs = if index == length bs then ok [] else err unparsable
vec_from_bytes_at (t ∷ ts) index bs =
    let start = index in
    let stop = start + byte_count t in
    if ltb (length bs) stop then err unparsable else (do
      v ← try_from_bytes t (slice start (stop - start) bs)
      vs ← vec_from_bytes_at ts stop bs
      ok (v ∷ vs))

unfoldable pub vec_try_from_bytes : List ValType → List ℕ → Outcome (List Val)
unfolding vec_from_bytes_at
vec_try_from_bytes ts bs = vec_from_bytes_at ts 0 bs

vec_from_bytes_at-append :
    (vs : List Val) (before : List ℕ) (index : ℕ)
    → All IsVal vs
    → index ≡ length before
    → vec_from_bytes_at (map get_type vs) index (before ++ vec_to_bytes vs) ≡ ok vs
unfolding vec_from_bytes_at vec_to_bytes
vec_from_bytes_at-append [] before index h e =
    let fits : (index == length (before ++ [])) ≡ true =
      ground (arith, e, ap (length {A = ℕ}) (append-nil before)) in
    rw fits refl
vec_from_bytes_at-append (v ∷ vs) before index h e =
    let bytes = to_bytes v in
    let rest = vec_to_bytes vs in
    let width : length bytes ≡ byte_count (get_type v) = length-to_bytes v in
    let total : length (before ++ (bytes ++ rest)) ≡ length before + (length bytes + length rest) =
      length-append before (bytes ++ rest)
      ∙ ap (λ n. length before + n) (length-append bytes rest) in
    let inside : ltb (length (before ++ (bytes ++ rest))) (index + byte_count (get_type v))
        ≡ false =
      ground (arith, total, width, e) in
    let here : slice index (index + byte_count (get_type v) - index) (before ++ (bytes ++ rest))
        ≡ bytes =
      ap (take (index + byte_count (get_type v) - index))
        (drop-length_append before (bytes ++ rest) index e)
      ∙ take-length_append bytes rest (index + byte_count (get_type v) - index)
          (omega (arith, width)) in
    let back : try_from_bytes (get_type v)
          (slice index (index + byte_count (get_type v) - index) (before ++ (bytes ++ rest)))
        ≡ ok v =
      ap (try_from_bytes (get_type v)) here ∙ try_from_bytes-to_bytes v h.0 in
    let later : vec_from_bytes_at (map get_type vs) (index + byte_count (get_type v))
          (before ++ (bytes ++ rest))
        ≡ ok vs =
      ap (vec_from_bytes_at (map get_type vs) (index + byte_count (get_type v)))
        (sym (append_assoc before bytes rest))
      ∙ vec_from_bytes_at-append vs (before ++ bytes) (index + byte_count (get_type v)) h.1
          (omega (arith, width, e, length-append before bytes)) in
    rw (inside, back, later) refl

pub length-vec_to_bytes :
    (vs : List Val) → length (vec_to_bytes vs) ≡ vec_byte_count (map get_type vs)
unfolding vec_to_bytes vec_byte_count
length-vec_to_bytes [] = refl
length-vec_to_bytes (v ∷ vs) =
    omega (
      arith,
      length-append (to_bytes v) (vec_to_bytes vs),
      length-to_bytes v,
      length-vec_to_bytes vs,
    )

-- A tuple is read back from its bytes, which are as many as its type says.
pub vec_try_from_bytes-vec_to_bytes :
    (vs : List Val)
    → All IsVal vs
    → (vec_try_from_bytes (map get_type vs) (vec_to_bytes vs) ≡ ok vs)
      × (length (vec_to_bytes vs) ≡ vec_byte_count (map get_type vs))
unfolding vec_try_from_bytes
vec_try_from_bytes-vec_to_bytes vs h =
    (vec_from_bytes_at-append vs [] 0 h refl, length-vec_to_bytes vs)
