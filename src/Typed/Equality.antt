-- ===== src/Typed/Equality.antt =====
-- wasm-gpu-transpiler/src/typed.rs: the Boolean tests on types are equality.
use wasm_gpu.Prelude.{Bool, true, ◌≡◌, ◌↔◌, arith}
use wasm_gpu.Typed.{ValType, HeapType, heap_type_eq, bool_eq, val_type_eq}

pub heap_type_eq_iff : (s t : HeapType) → (heap_type_eq s t ≡ true) ↔ (s ≡ t)
unfolding heap_type_eq
heap_type_eq_iff s t = ground arith

pub bool_eq_iff : (s t : Bool) → (bool_eq s t ≡ true) ↔ (s ≡ t)
unfolding bool_eq
bool_eq_iff s t = ground arith

pub val_type_eq_iff : (s t : ValType) → (val_type_eq s t ≡ true) ↔ (s ≡ t)
unfolding val_type_eq heap_type_eq bool_eq
val_type_eq_iff s t = ground arith
