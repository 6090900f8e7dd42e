-- ===== src/Typed/Bytes.antt =====
-- wasm-gpu-transpiler/src/typed.rs: values and their bytes determine one another.
use mathlib.Core.Bool.{and-eq-true_iff}
use mathlib.Core.List.{tail}
use mathlib.Core.Path.{ap₂}
use wasm_gpu.Prelude.{
  ℕ, subst, ◌-◌, ◌^◌, ◌<◌, ◌≡◌, refl, sym, ◌∙◌, ap, Bool, true, List, [], ◌∷◌, Option, none, some,
  length, All, IsByte, ok, ◌==◌, ◌↔◌, inl, inr, ==_iff, ==_refl, Bool-cases, arith, u32_mod,
  to_le_bytes, from_le_bytes, length-to_le_bytes, from_le_bytes-to_le_bytes, from_le_bytes-lt,
  to_le_bytes-from_le_bytes, ok-injective,
}
use wasm_gpu.Typed.{
  ValType, i32, i64, f32, f64, v128, ref, HeapType, func, extern, typed_func, Val, func_ref,
  extern_ref, byte_count, get_type, to_bytes, try_from_bytes, sized, non_max, ref_from_le_bytes,
  ref_to_le_bytes, bitwise_eq, val_type_eq, bytes_eq,
}

-- What the types of the source guarantee of a value.
abbrev pub IsRef : Option ℕ → Type 0
IsRef none = Unit {0}
IsRef (some v) = v < u32_mod - 1

abbrev pub IsVal : Val → Type 0
IsVal (Val.i32 v) = v < 256 ^ 4
IsVal (Val.i64 v) = v < 256 ^ 8
IsVal (Val.f32 v) = v < 256 ^ 4
IsVal (Val.f64 v) = v < 256 ^ 8
IsVal (Val.v128 v) = v < 256 ^ 16
IsVal (func_ref v) = IsRef v
IsVal (extern_ref v) = IsRef v

pub length-ref_to_le_bytes : (v : Option ℕ) → length (ref_to_le_bytes v) ≡ 4
unfolding ref_to_le_bytes
length-ref_to_le_bytes none = refl
length-ref_to_le_bytes (some v) = length-to_le_bytes 4 v

pub length-to_bytes : (v : Val) → length (to_bytes v) ≡ byte_count (get_type v)
unfolding to_bytes byte_count get_type
length-to_bytes (Val.i32 v) = length-to_le_bytes 4 v
length-to_bytes (Val.i64 v) = length-to_le_bytes 8 v
length-to_bytes (Val.f32 v) = length-to_le_bytes 4 v
length-to_bytes (Val.f64 v) = length-to_le_bytes 8 v
length-to_bytes (Val.v128 v) = length-to_le_bytes 16 v
length-to_bytes (func_ref v) = length-ref_to_le_bytes v
length-to_bytes (extern_ref v) = length-ref_to_le_bytes v

sized_exact {ℓ} :
    {A : Type ℓ} (n : ℕ) (bs : List ℕ) (a b : A) → length bs ≡ n → a ≡ b → sized n bs a ≡ ok b
unfolding sized
sized_exact n bs a b h e = rw (h, ==_refl n) (ap ok e)

ref_from_le_bytes-ref_to_le_bytes :
    (v : Option ℕ) → IsRef v → ref_from_le_bytes (ref_to_le_bytes v) ≡ v
unfolding ref_from_le_bytes ref_to_le_bytes non_max
ref_from_le_bytes-ref_to_le_bytes none h = refl
ref_from_le_bytes-ref_to_le_bytes (some v) h =
    rw (from_le_bytes-to_le_bytes 4 v (omega arith)) (ground arith)

-- A value is read back from its bytes.
pub try_from_bytes-to_bytes : (v : Val) → IsVal v → try_from_bytes (get_type v) (to_bytes v) ≡ ok v
unfolding try_from_bytes get_type to_bytes
try_from_bytes-to_bytes (Val.i32 v) h =
    sized_exact 4 (to_le_bytes 4 v) _ _ (length-to_le_bytes 4 v)
      (ap Val.i32 (from_le_bytes-to_le_bytes 4 v h))
try_from_bytes-to_bytes (Val.i64 v) h =
    sized_exact 8 (to_le_bytes 8 v) _ _ (length-to_le_bytes 8 v)
      (ap Val.i64 (from_le_bytes-to_le_bytes 8 v h))
try_from_bytes-to_bytes (Val.f32 v) h =
    sized_exact 4 (to_le_bytes 4 v) _ _ (length-to_le_bytes 4 v)
      (ap Val.f32 (from_le_bytes-to_le_bytes 4 v h))
try_from_bytes-to_bytes (Val.f64 v) h =
    sized_exact 8 (to_le_bytes 8 v) _ _ (length-to_le_bytes 8 v)
      (ap Val.f64 (from_le_bytes-to_le_bytes 8 v h))
try_from_bytes-to_bytes (Val.v128 v) h =
    sized_exact 16 (to_le_bytes 16 v) _ _ (length-to_le_bytes 16 v)
      (ap Val.v128 (from_le_bytes-to_le_bytes 16 v h))
try_from_bytes-to_bytes (func_ref v) h =
    sized_exact 4 (ref_to_le_bytes v) _ _ (length-ref_to_le_bytes v)
      (ap func_ref (ref_from_le_bytes-ref_to_le_bytes v h))
try_from_bytes-to_bytes (extern_ref v) h =
    sized_exact 4 (ref_to_le_bytes v) _ _ (length-ref_to_le_bytes v)
      (ap extern_ref (ref_from_le_bytes-ref_to_le_bytes v h))

sized-eq-ok {ℓ} :
    {A : Type ℓ} (n : ℕ) (bs : List ℕ) (a : A) {b : A}
    → sized n bs a ≡ ok b
    → (length bs ≡ n) × (a ≡ b)
unfolding sized
sized-eq-ok n bs a h = ground arith

-- `4` bytes and the reference that they hold.
ref_to_le_bytes-ref_from_le_bytes :
    (bs : List ℕ)
    → All IsByte bs
    → length bs ≡ 4
    → (ref_to_le_bytes (ref_from_le_bytes bs) ≡ bs) × IsRef (ref_from_le_bytes bs)
unfolding ref_to_le_bytes ref_from_le_bytes non_max
ref_to_le_bytes-ref_from_le_bytes bs h e =
    let back = to_le_bytes-from_le_bytes 4 bs h e in
    let small : from_le_bytes bs < u32_mod =
      omega (arith, from_le_bytes-lt bs h, ap (λ n. 256 ^ n) e) in
    elim (Bool-cases (from_le_bytes bs == u32_mod - 1)) [
      | inl top ↦ rw top (ap (to_le_bytes 4) (sym ((==_iff _ _).0 top)) ∙ back, tt)
      | inr other ↦ rw other (back, ground arith)
    ]

-- Reading a sized word: the value has the bytes that were read, and is in range.
word_back :
    (k : ℕ) (make : ℕ → Val) (bs : List ℕ) {v : Val}
    → ((n : ℕ) → to_bytes (make n) ≡ to_le_bytes k n)
    → ((n : ℕ) → n < 256 ^ k → IsVal (make n))
    → All IsByte bs
    → sized k bs (make (from_le_bytes bs)) ≡ ok v
    → (to_bytes v ≡ bs) × IsVal v
word_back k make bs bytes valid h e =
    let (len, same) = sized-eq-ok k bs (make (from_le_bytes bs)) e in
    subst (λ (x : Val). (to_bytes x ≡ bs) × IsVal x) same
      (
        bytes (from_le_bytes bs) ∙ to_le_bytes-from_le_bytes k bs h len,
        valid (from_le_bytes bs) (omega (arith, from_le_bytes-lt bs h, ap (λ n. 256 ^ n) len)),
      )

ref_back :
    (make : Option ℕ → Val) (bs : List ℕ) {v : Val}
    → ((r : Option ℕ) → to_bytes (make r) ≡ ref_to_le_bytes r)
    → ((r : Option ℕ) → IsRef r → IsVal (make r))
    → All IsByte bs
    → sized 4 bs (make (ref_from_le_bytes bs)) ≡ ok v
    → (to_bytes v ≡ bs) × IsVal v
ref_back make bs bytes valid h e =
    let (len, same) = sized-eq-ok 4 bs (make (ref_from_le_bytes bs)) e in
    let (back, fits) = ref_to_le_bytes-ref_from_le_bytes bs h len in
    subst (λ (x : Val). (to_bytes x ≡ bs) × IsVal x) same
      (bytes (ref_from_le_bytes bs) ∙ back, valid (ref_from_le_bytes bs) fits)

heap_back :
    (t : HeapType) (nullable : Bool) (bs : List ℕ) {v : Val}
    → All IsByte bs
    → try_from_bytes (ref (record { nullable = nullable; heap_type = t })) bs ≡ ok v
    → (to_bytes v ≡ bs) × IsVal v
unfolding try_from_bytes to_bytes
heap_back func n bs h e = ref_back func_ref bs (λ r. refl) (λ r p. p) h e
heap_back extern n bs h e = ref_back extern_ref bs (λ r. refl) (λ r p. p) h e
heap_back (typed_func i) n bs h e = cc

-- Whatever is read from bytes has exactly these bytes, and is a value that the types of the
-- source allow.
pub to_bytes-try_from_bytes :
    (t : ValType) (bs : List ℕ) (v : Val)
    → All IsByte bs
    → try_from_bytes t bs ≡ ok v
    → (to_bytes v ≡ bs) × IsVal v
unfolding try_from_bytes to_bytes
to_bytes-try_from_bytes i32 bs v h e = word_back 4 Val.i32 bs (λ n. refl) (λ n p. p) h e
to_bytes-try_from_bytes i64 bs v h e = word_back 8 Val.i64 bs (λ n. refl) (λ n p. p) h e
to_bytes-try_from_bytes f32 bs v h e = word_back 4 Val.f32 bs (λ n. refl) (λ n p. p) h e
to_bytes-try_from_bytes f64 bs v h e = word_back 8 Val.f64 bs (λ n. refl) (λ n p. p) h e
to_bytes-try_from_bytes v128 bs v h e = word_back 16 Val.v128 bs (λ n. refl) (λ n p. p) h e
to_bytes-try_from_bytes (ref r) bs v h e = heap_back r.heap_type r.nullable bs h e

bytes_eq_iff : (xs ys : List ℕ) → (bytes_eq xs ys ≡ true) ↔ (xs ≡ ys)
unfolding bytes_eq
bytes_eq_iff [] [] = (λ h. refl, λ h. refl)
bytes_eq_iff [] (y ∷ ys) = (λ h. cc, λ h. cc)
bytes_eq_iff (x ∷ xs) [] = (λ h. cc, λ h. cc)
bytes_eq_iff (x ∷ xs) (y ∷ ys) =
    let (sound, complete) = bytes_eq_iff xs ys in
    (λ h. ground (arith, sound), λ h. ground (arith, ==_refl x, complete (ap tail h)))

val_type_eq-get_type :
    (a b : Val) → val_type_eq (get_type a) (get_type b) ≡ true → get_type a ≡ get_type b
unfolding val_type_eq get_type
val_type_eq-get_type (Val.i32 v) (Val.i32 w) h = refl
val_type_eq-get_type (func_ref v) (func_ref w) h = refl
val_type_eq-get_type a b h = ground arith

pub val_type_eq_refl : (a : Val) → val_type_eq (get_type a) (get_type a) ≡ true
unfolding val_type_eq get_type
val_type_eq_refl (Val.i32 v) = refl
val_type_eq_refl a = refl

-- Two values of the source are equal bit by bit exactly if they are the same value.
bitwise_eq_iff : (a b : Val) → IsVal a → IsVal b → (bitwise_eq a b ≡ true) ↔ (a ≡ b)
unfolding bitwise_eq
bitwise_eq_iff a b ha hb = (
  λ h.
      let (types, bytes) = (and-eq-true_iff _ _).0 h in
      ok-injective (
        sym (try_from_bytes-to_bytes a ha)
        ∙ ap₂ try_from_bytes (val_type_eq-get_type a b types) ((bytes_eq_iff _ _).0 bytes)
        ∙ try_from_bytes-to_bytes b hb),
  λ e. rw (← e) (
      (and-eq-true_iff _ _).1
        (val_type_eq_refl a, (bytes_eq_iff (to_bytes a) (to_bytes a)).1 refl)),
)
