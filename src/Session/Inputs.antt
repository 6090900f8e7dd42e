-- ===== src/Session/Inputs.antt =====
-- wasm-gpu/src/session.rs (`make_inputs`) against active_function/arguments.rs and active_function.rs
-- of the transpiler: the host writes every argument where the shader reads it.
use wasm_gpu.Prelude.{
  ℕ, zero, suc, ◌+◌, ◌*◌, ◌%◌, ◌<◌, ◌≤◌, ◌≡◌, refl, sym, subst, ◌∙◌, ap, List, [], ◌∷◌, ◌++◌, map,
  some, length, length-append, get_elem?, slice, slice-append_middle, append_assoc, append-nil, All,
  arith, u32_mod, some_inj, Bool-cases, inl, inr, ltb,
}
use wasm_gpu.Typed.{ValType, Val, byte_count, get_type, to_bytes}
use wasm_gpu.Typed.Bytes.{length-to_bytes}
use wasm_gpu.Typed.Tuples.{vec_to_bytes}
use wasm_gpu.Layout.{word_offset, word_alignment, entry_locations, io_base_index, locations}
use wasm_gpu.Layout.Words.{
  byte_count-words, words_pos, word_alignment_lem, length-vec_to_bytes_words, locations-split,
}
use wasm_gpu.Session.{pad_multiple, pad_up_to, push_input_set, push_input_sets, make_inputs}

-- The values of all invocations, one after another.
pub sets_to_bytes : List (List Val) → List ℕ
sets_to_bytes [] = []
sets_to_bytes (vs ∷ sets) = vec_to_bytes vs ++ sets_to_bytes sets

pad_multiple_whole :
    (fuel m : ℕ) (bytes : List ℕ) → length bytes % m ≡ 0 → pad_multiple fuel m bytes ≡ bytes
unfolding pad_multiple
pad_multiple_whole zero m bytes h = refl
pad_multiple_whole (suc fuel) m bytes h = rw h refl

push_input_set_lem :
    (bytes : List ℕ) (vs : List Val)
    → length bytes % 4 ≡ 0
    → push_input_set bytes vs ≡ bytes ++ vec_to_bytes vs
unfolding push_input_set vec_to_bytes
push_input_set_lem bytes [] h = sym (append-nil bytes)
push_input_set_lem bytes (v ∷ vs) h =
    let whole : length (bytes ++ to_bytes v) % 4 ≡ 0 =
      omega (
        arith,
        length-append bytes (to_bytes v),
        length-to_bytes v,
        byte_count-words (get_type v),
      ) in
    ap (λ (l : List ℕ). push_input_set l vs) (pad_multiple_whole 4 4 (bytes ++ to_bytes v) whole)
    ∙ push_input_set_lem (bytes ++ to_bytes v) vs whole
    ∙ append_assoc bytes (to_bytes v) (vec_to_bytes vs)

push_input_sets_lem :
    (bytes : List ℕ) (sets : List (List Val))
    → length bytes % 4 ≡ 0
    → push_input_sets bytes sets ≡ bytes ++ sets_to_bytes sets
unfolding push_input_sets sets_to_bytes
push_input_sets_lem bytes [] h = sym (append-nil bytes)
push_input_sets_lem bytes (vs ∷ sets) h =
    let pushed = push_input_set_lem bytes vs h in
    let whole : length (bytes ++ vec_to_bytes vs) % 4 ≡ 0 =
      omega (arith, length-append bytes (vec_to_bytes vs), length-vec_to_bytes_words vs) in
    ap (λ (l : List ℕ). push_input_sets (pad_multiple 4 4 l) sets) pushed
    ∙ ap (λ (l : List ℕ). push_input_sets l sets)
        (pad_multiple_whole 4 4 (bytes ++ vec_to_bytes vs) whole)
    ∙ push_input_sets_lem (bytes ++ vec_to_bytes vs) sets whole
    ∙ append_assoc bytes (vec_to_bytes vs) (sets_to_bytes sets)

-- Padding to a least length only adds bytes at the end, and reaches it.
pad_up_to_lem :
    (fuel n : ℕ) (bytes : List ℕ)
    → n ≤ length bytes + fuel
    → (tail : List ℕ) × (pad_up_to fuel n bytes ≡ bytes ++ tail)
      × (n ≤ length (pad_up_to fuel n bytes))
unfolding pad_up_to
pad_up_to_lem zero n bytes h = ([], sym (append-nil bytes), omega arith)
pad_up_to_lem (suc fuel) n bytes h = elim (Bool-cases (ltb (length bytes) n)) [
  | inl short ↦
      let (tail, same, long) =
        pad_up_to_lem fuel n (bytes ++ 0 ∷ []) (omega (arith, length-append bytes (0 ∷ []))) in
      rw short (0 ∷ tail, same ∙ append_assoc bytes (0 ∷ []) tail, long)
  | inr enough ↦ rw enough ([], sym (append-nil bytes), ground arith)
]

make_inputs_lem :
    (args : List (List Val))
    → (tail : List ℕ) × (make_inputs args ≡ sets_to_bytes args ++ tail)
      × (128 ≤ length (make_inputs args))
unfolding make_inputs
make_inputs_lem args =
    let (tail, same, long) = pad_up_to_lem 128 128 (push_input_sets [] args) (omega arith) in
    (tail, same ∙ ap (λ (l : List ℕ). l ++ tail) (push_input_sets_lem [] args refl), long)

-- The bytes of all invocations around those of invocation `i`.
sets_split :
    (tys : List ValType) (args : List (List Val)) (i : ℕ) {vs : List Val}
    → All (λ a. map get_type a ≡ tys) args
    → get_elem? args i ≡ some vs
    → (pre : List ℕ) × (post : List ℕ) × (sets_to_bytes args ≡ pre ++ (vec_to_bytes vs ++ post))
      × (length pre ≡ 4 * (word_alignment tys * i))
      × (map get_type vs ≡ tys)
      × (i < length args)
unfolding sets_to_bytes
sets_split tys [] i h e = cc
sets_split tys (a ∷ args) zero {vs} h e =
    let same : a ≡ vs = some_inj e in
    (
      [],
      sets_to_bytes args,
      ap (λ (x : List Val). vec_to_bytes x ++ sets_to_bytes args) same,
      omega arith,
      ap (map get_type) (sym same) ∙ h.0,
      omega arith,
    )
sets_split tys (a ∷ args) (suc i) h e =
    let (pre, post, bytes, len, typed, inside) = sets_split tys args i h.1 e in
    (
      vec_to_bytes a ++ pre,
      post,
      ap (λ (l : List ℕ). vec_to_bytes a ++ l) bytes ∙ sym (append_assoc (vec_to_bytes a) pre _),
      grind (
        arith,
        length-append (vec_to_bytes a) pre,
        len,
        length-vec_to_bytes_words a,
        ap (word_offset 0) h.0,
        word_alignment_lem tys,
      ),
      typed,
      omega arith,
    )

-- A row of `al` entries for each of `n` instances fits below the word size.
row_fits : (al i n off : ℕ) → i < n → off < al → al * n ≤ u32_mod → al * i + off < u32_mod
row_fits al i n off h k fits = grind arith

location_exact :
    (al i n off w : ℕ)
    → i < n
    → off < al
    → al * n ≤ u32_mod
    → w ≡ (al * i % u32_mod + (0 + off)) % u32_mod
    → w ≡ al * i + off
location_exact al i n off w h k fits e = omega (arith, row_fits al i n off h k fits)

-- The shader reads what the host wrote: where every invocation has arguments of the types of the
-- function, and the input buffer is addressable by 32-bit word indices, the location that the
-- entry function computes for argument `j` of invocation `i` holds, in the buffer that
-- `make_inputs` fills, exactly the bytes of that argument.
pub make_inputs-entry_locations :
    (tys : List ValType) (args : List (List Val)) (i j w : ℕ) (vs : List Val) (v : Val)
    → All (λ a. map get_type a ≡ tys) args
    → get_elem? args i ≡ some vs
    → get_elem? vs j ≡ some v
    → get_elem? (entry_locations tys i) j ≡ some w
    → word_alignment tys * length args ≤ u32_mod
    → slice (4 * w) (byte_count (get_type v)) (make_inputs args) ≡ to_bytes v
unfolding entry_locations io_base_index
make_inputs-entry_locations tys args i j w vs v typed es ev ew fits =
    let (tail, bytes, _) = make_inputs_lem args in
    let (pre, post, all_bytes, at, types, inside) = sets_split tys args i typed es in
    let (pre', post', off, own_bytes, at', loc) =
      locations-split vs j (io_base_index (word_alignment tys) i) 0 ev (
        subst (λ ts. get_elem? (locations (io_base_index (word_alignment tys) i) 0 ts) j ≡ some w)
          (sym types) ew) in
    let room : off < word_alignment tys = omega (
      arith,
      at',
      length-append pre' (to_bytes v ++ post'),
      length-append (to_bytes v) post',
      ap (length {A = ℕ}) own_bytes,
      length-vec_to_bytes_words vs,
      ap (word_offset 0) types,
      word_alignment_lem tys,
      length-to_bytes v,
      byte_count-words (get_type v),
      words_pos (get_type v),
    ) in
    let exact : w ≡ word_alignment tys * i + off =
      location_exact (word_alignment tys) i (length args) off w inside room fits loc in
    let parts : make_inputs args ≡ (pre ++ pre') ++ (to_bytes v ++ (post' ++ (post ++ tail))) =
      bytes
      ∙ ap (λ l. l ++ tail) (all_bytes ∙ ap (λ l. pre ++ (l ++ post)) own_bytes)
      ∙ simp append_assoc in
    rw parts (
      slice-append_middle (pre ++ pre') (to_bytes v) (post' ++ (post ++ tail)) (4 * w)
        (byte_count (get_type v)) (omega (arith, exact, at, at', length-append pre pre'))
        (sym (length-to_bytes v)))
