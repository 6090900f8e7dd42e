-- ===== src/Typed.antt =====
-- wasm-gpu-transpiler/src/typed.rs: WebAssembly values and their bytes. A value of an integer or a
-- float type is its bit pattern; a reference is a number below 2 ^ 32 - 1, or null.
pub mod Equality
pub mod Bytes
pub mod Tuples
use wasm_gpu.Prelude.{
  ℕ, ◌-◌, Bool, true, false, ◌&&◌, List, [], ◌∷◌, Option, none, some, length, ◌==◌, if◌then◌else◌,
  Outcome, ok, err, ◌>>=◌, unparsable, unimplemented, to_le_bytes, from_le_bytes, u32_mod,
}

-- `wasmparser::HeapType`, `RefType` and `ValType`.
pub data HeapType : Type 0 where
  func extern : HeapType
  typed_func : ℕ → HeapType

pub record RefType : Type 0 where
  pub nullable : Bool
  pub heap_type : HeapType

pub data ValType : Type 0 where
  i32 i64 f32 f64 v128 : ValType
  ref : RefType → ValType

abbrev pub funcref : RefType
funcref = record { nullable = true; heap_type = func }

abbrev pub externref : RefType
externref = record { nullable = true; heap_type = extern }

unfoldable pub byte_count : ValType → ℕ
byte_count i32 = 4
byte_count i64 = 8
byte_count f32 = 4
byte_count f64 = 8
byte_count v128 = 16
byte_count (ref r) = 4

pub data Val : Type 0 where
  i32 i64 f32 f64 v128 : ℕ → Val
  func_ref extern_ref : Option ℕ → Val

unfoldable pub get_type : Val → ValType
get_type (Val.i32 v) = i32
get_type (Val.i64 v) = i64
get_type (Val.f32 v) = f32
get_type (Val.f64 v) = f64
get_type (Val.v128 v) = v128
get_type (func_ref v) = ref funcref
get_type (extern_ref v) = ref externref

-- `NonMaxU32::new`
unfoldable pub non_max : ℕ → Option ℕ
non_max v = if v == u32_mod - 1 then none else some v

-- `from_le_bytes` and `to_le_bytes` of `FuncRef` and `ExternRef`.
unfoldable pub ref_from_le_bytes : List ℕ → Option ℕ
unfolding non_max from_le_bytes
ref_from_le_bytes bs = non_max (from_le_bytes bs)

unfoldable pub ref_to_le_bytes : Option ℕ → List ℕ
unfolding to_le_bytes
ref_to_le_bytes none = 0xff ∷ 0xff ∷ 0xff ∷ 0xff ∷ []
ref_to_le_bytes (some v) = to_le_bytes 4 v

-- `TryFrom<Option<u32>>` of the reference types; `none` is the error.
unfoldable pub ref_try_from : Option ℕ → Option (Option ℕ)
unfolding non_max
ref_try_from none = some none
ref_try_from (some v) = if v == u32_mod - 1 then none else some (some v)

unfoldable pub to_bytes : Val → List ℕ
unfolding to_le_bytes ref_to_le_bytes
to_bytes (Val.i32 v) = to_le_bytes 4 v
to_bytes (Val.i64 v) = to_le_bytes 8 v
to_bytes (Val.f32 v) = to_le_bytes 4 v
to_bytes (Val.f64 v) = to_le_bytes 8 v
to_bytes (Val.v128 v) = to_le_bytes 16 v
to_bytes (func_ref v) = ref_to_le_bytes v
to_bytes (extern_ref v) = ref_to_le_bytes v

-- `try_from_bytes` of `impl_vec_base`: the length is that of the type, then the bytes are read.
unfoldable pub sized {ℓ} : {A : Type ℓ} → ℕ → List ℕ → A → Outcome A
sized n bs a = if length bs == n then ok a else err unparsable

unfoldable pub try_from_bytes : ValType → List ℕ → Outcome Val
unfolding sized from_le_bytes ref_from_le_bytes
try_from_bytes i32 bs = sized 4 bs (Val.i32 (from_le_bytes bs))
try_from_bytes i64 bs = sized 8 bs (Val.i64 (from_le_bytes bs))
try_from_bytes f32 bs = sized 4 bs (Val.f32 (from_le_bytes bs))
try_from_bytes f64 bs = sized 8 bs (Val.f64 (from_le_bytes bs))
try_from_bytes v128 bs = sized 16 bs (Val.v128 (from_le_bytes bs))
try_from_bytes (ref r) bs = elim r.heap_type [
  | func ↦ sized 4 bs (func_ref (ref_from_le_bytes bs))
  | extern ↦ sized 4 bs (extern_ref (ref_from_le_bytes bs))
  | typed_func i ↦ err unimplemented
]

-- `==` on types and on bytes.
unfoldable pub heap_type_eq : HeapType → HeapType → Bool
heap_type_eq func func = true
heap_type_eq extern extern = true
heap_type_eq (typed_func i) (typed_func j) = i == j
heap_type_eq _ _ = false

unfoldable pub bool_eq : Bool → Bool → Bool
bool_eq true b = b
bool_eq false true = false
bool_eq false false = true

unfoldable pub val_type_eq : ValType → ValType → Bool
unfolding heap_type_eq bool_eq
val_type_eq i32 i32 = true
val_type_eq i64 i64 = true
val_type_eq f32 f32 = true
val_type_eq f64 f64 = true
val_type_eq v128 v128 = true
val_type_eq (ref r) (ref s) = bool_eq r.nullable s.nullable && heap_type_eq r.heap_type s.heap_type
val_type_eq _ _ = false

unfoldable pub bytes_eq : List ℕ → List ℕ → Bool
bytes_eq [] [] = true
bytes_eq (x ∷ xs) (y ∷ ys) = x == y && bytes_eq xs ys
bytes_eq _ _ = false

unfoldable pub bitwise_eq : Val → Val → Bool
unfolding get_type to_bytes val_type_eq bytes_eq
bitwise_eq a b = val_type_eq (get_type a) (get_type b) && bytes_eq (to_bytes a) (to_bytes b)
