-- ===== src/Functions.antt =====
-- wasm-gpu/src/instance/func.rs, wasm-gpu/src/func.rs and wasm-gpu-transpiler/src/wasm_front.rs: the
-- functions of all modules of a store set, pointers to them, and the objects that a function can
-- name. The operators of a body are a parameter. The vector of functions keeps its capacity beside its entries.
pub mod Linking
pub mod Accessible
use wasm_gpu.Prelude.{
  ℕ, zero, suc, ◌+◌, ◌%◌, List, [], ◌∷◌, ◌++◌, Option, none, some, length, get_elem?, ltb, Bool,
  ◌&&◌, true, false, Outcome, ok, err, ◌>>=◌, ◌>>◌, assert, expect, try_map, invalid_pointer,
  out_of_range, out_of_capacity, u32_mod,
}
use wasm_gpu.Capability
use wasm_gpu.Capability.{CapabilityStore, Capability}
use wasm_gpu.Typed.{ValType, val_type_eq, ref_try_from}

-- `wasmparser::FuncType`
pub record FuncType : Type 0 where
  pub params : List ValType
  pub results : List ValType

unfoldable pub val_types_eq : List ValType → List ValType → Bool
unfolding val_type_eq
val_types_eq [] [] = true
val_types_eq (s ∷ ss) (t ∷ ts) = val_type_eq s t && val_types_eq ss ts
val_types_eq _ _ = false

unfoldable pub func_type_eq : FuncType → FuncType → Bool
unfolding val_types_eq
func_type_eq s t = val_types_eq s.params t.params && val_types_eq s.results t.results

pub record UntypedFuncPtr : Type 0 where
  pub ptr : ℕ
  pub cap : Capability
  pub ty : FuncType

unfoldable pub to_func_ref : UntypedFuncPtr → Outcome (Option ℕ)
unfolding ref_try_from
to_func_ref p = expect (ref_try_from (some (p.ptr % u32_mod))) out_of_range

-- `From<usize>` of the index types.
unfoldable pub to_index : ℕ → Outcome ℕ
to_index n = assert (ltb n u32_mod) out_of_range >> ok n

pub data GlobalIndex : Type 0 where
  mutable immutable : ℕ → GlobalIndex

pub record FuncAccessible : Type 0 where
  pub func_index_lookup : List (Option ℕ)
  pub global_index_lookup : List GlobalIndex
  pub element_index_lookup : List ℕ
  pub table_index_lookup : List ℕ
  pub data_index_lookup : List ℕ
  pub memory_index_lookup : List ℕ

unfoldable pub empty : FuncAccessible
empty = record {
  func_index_lookup = [];
  global_index_lookup = [];
  element_index_lookup = [];
  table_index_lookup = [];
  data_index_lookup = [];
  memory_index_lookup = [];
}

pub record FuncData (O : Type 0) : Type 0 where
  pub ty : FuncType
  pub locals : List (ℕ × ValType)
  pub operators : List O
  pub types : List FuncType

pub record FuncUnit (O : Type 0) : Type 0 where
  pub body : FuncData O
  pub accessible : FuncAccessible

pub record FuncsInstance (O : Type 0) : Type 0 where
  pub wasm_functions : List (FuncUnit O)
  pub capacity : ℕ
  pub cap_set : CapabilityStore

-- An entry of a vector is replaced; out of range nothing is.
unfoldable pub set_elem {ℓ} : {A : Type ℓ} → List A → ℕ → (A → A) → List A
set_elem [] i f = []
set_elem (x ∷ xs) zero f = f x ∷ xs
set_elem (x ∷ xs) (suc i) f = x ∷ set_elem xs i f

module _ {O : Type 0} where
  unfoldable pub new : ℕ → FuncsInstance O × ℕ
  unfolding Capability.new
  new counter =
      let (cap_set, counter') = Capability.new 0 counter in
      (record { wasm_functions = []; capacity = 0; cap_set = cap_set }, counter')

  -- `Vec::reserve_exact` of the standard library, from the length, the capacity and the number of
  -- entries to make room for to the capacity that the allocator comes to, is a parameter.
  unfoldable pub reserve : (ℕ → ℕ → ℕ → ℕ) → FuncsInstance O → ℕ → ℕ → FuncsInstance O × ℕ
  reserve reserve_exact self count counter =
      let capacity = reserve_exact (length self.wasm_functions) self.capacity count in
      let (cap_set, counter') = Capability.resize_ref self.cap_set capacity counter in
      (record self { capacity = capacity; cap_set = cap_set }, counter')

  unfoldable pub register_definition :
      FuncsInstance O → FuncData O → Outcome (UntypedFuncPtr × FuncsInstance O)
  unfolding empty
  register_definition self func_data = do
    let ptr = length self.wasm_functions
    assert (ltb ptr self.capacity) out_of_capacity
    ok (
      record { ptr = ptr; cap = Capability.get_cap self.cap_set; ty = func_data.ty },
      record self {
        wasm_functions =
            self.wasm_functions ++ record { body = func_data; accessible = empty } ∷ [];
      },
    )

  unfoldable pub link_function_imports :
      FuncsInstance O → UntypedFuncPtr → FuncAccessible → Outcome (FuncsInstance O)
  unfolding set_elem
  link_function_imports self p accessible = do
    assert (Capability.check self.cap_set p.cap) invalid_pointer
    _ ← expect (get_elem? self.wasm_functions p.ptr) invalid_pointer
    ok (record self {
      wasm_functions =
          set_elem self.wasm_functions p.ptr
            (λ u. record { body = u.body; accessible = accessible });
    })

  unfoldable pub get : FuncsInstance O → UntypedFuncPtr → Outcome (FuncUnit O)
  get self p = do
    assert (Capability.check self.cap_set p.cap) invalid_pointer
    expect (get_elem? self.wasm_functions p.ptr) invalid_pointer
