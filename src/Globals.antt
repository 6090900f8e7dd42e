-- ===== src/Globals.antt =====
-- wasm-gpu/src/instance/global/builder.rs, global/immutable.rs and global.rs: the buffers of the
-- mutable and of the immutable globals. Both are filled from the front, and have the same fields
-- and the same `reserve` and `try_push`; they differ in what `try_get` asserts.
pub mod Values
use wasm_gpu.Prelude.{
  ℕ, ◌+◌, Bool, true, false, not, ◌&&◌, length, leb, Outcome, ok, err, ◌>>=◌, ◌>>◌, assert,
  invalid_pointer, index_out_of_bounds, wrong_type,
}
use wasm_gpu.Capability
use wasm_gpu.Capability.{CapabilityStore, Capability}
use wasm_gpu.Buffers.{LazyBuffers}
use wasm_gpu.Typed.{
  ValType, RefType, HeapType, i32, i64, f32, f64, v128, ref, func, extern, typed_func, funcref,
  externref, Val, byte_count, get_type, to_bytes, try_from_bytes, val_type_eq,
}

-- `AbstractGlobalMutablePtr` and `GlobalImmutablePtr`.
pub record GlobalPtr : Type 0 where
  pub ptr : ℕ
  pub cap : Capability
  pub content_type : ValType

-- `wasmparser::GlobalType`
pub record GlobalType : Type 0 where
  pub content_type : ValType
  pub mutable : Bool

pub data AbstractGlobalPtr : Type 0 where
  immutable mutable : GlobalPtr → AbstractGlobalPtr

unfoldable pub is_type : AbstractGlobalPtr → GlobalType → Bool
unfolding val_type_eq
is_type (immutable p) ty = val_type_eq p.content_type ty.content_type && not ty.mutable
is_type (mutable p) ty = val_type_eq p.content_type ty.content_type && ty.mutable

-- The type that `try_get` reads a global of the given type at.
unfoldable pub heap_target : HeapType → ValType
heap_target func = ref funcref
heap_target (typed_func i) = ref funcref
heap_target extern = ref externref

unfoldable pub read_target : ValType → ValType
unfolding heap_target
read_target (ref r) = heap_target r.heap_type
read_target i32 = i32
read_target i64 = i64
read_target f32 = f32
read_target f64 = f64
read_target v128 = v128

module _ (B : LazyBuffers) where
  open B use {
    Buffer, create_and_map_empty, len, extend_lazy, try_read_slice_locking, try_write_slice_locking,
  }

  pub record GlobalsBuilder : Type 0 where
    pub values : Buffer
    pub head : ℕ
    pub cap_set : CapabilityStore

  unfoldable pub new : ℕ → GlobalsBuilder × ℕ
  new counter =
      let (cap_set, counter') = Capability.new 0 counter in
      (record { values = create_and_map_empty; head = 0; cap_set = cap_set }, counter')

  unfoldable pub reserve : GlobalsBuilder → ℕ → ℕ → GlobalsBuilder × ℕ
  reserve self values_size counter =
      let values = extend_lazy self.values values_size in
      let (cap_set, counter') = Capability.resize_ref self.cap_set (len values) counter in
      (record self { values = values; cap_set = cap_set }, counter')

  unfoldable pub try_push : GlobalsBuilder → Val → Outcome (GlobalPtr × GlobalsBuilder)
  try_push self v = do
    let bytes = to_bytes v
    let start = self.head
    let stop = start + length bytes
    assert (leb stop (len self.values)) index_out_of_bounds
    values ← try_write_slice_locking self.values start stop bytes
    ok (
      record { ptr = start; cap = Capability.get_cap self.cap_set; content_type = get_type v },
      record self { values = values; head = stop },
    )

  -- The part of `try_get_typed` that both buffers share, at the type `t`.
  unfoldable pub read_typed : GlobalsBuilder → ValType → GlobalPtr → Outcome Val
  read_typed self t p = do
    let start = p.ptr
    let stop = start + byte_count t
    assert (leb stop (len self.values)) index_out_of_bounds
    bytes ← try_read_slice_locking self.values start stop
    try_from_bytes t bytes

  -- `try_get` of the mutable globals.
  unfoldable pub try_get_mutable : GlobalsBuilder → GlobalPtr → Outcome Val
  unfolding read_typed
  try_get_mutable self p = do
    assert (Capability.check self.cap_set p.cap) invalid_pointer
    assert (Capability.check self.cap_set p.cap) invalid_pointer
    assert (val_type_eq p.content_type (read_target p.content_type)) wrong_type
    read_typed self (read_target p.content_type) p

  -- `try_get` of the immutable globals.
  unfoldable pub try_get_immutable : GlobalsBuilder → GlobalPtr → Outcome Val
  unfolding read_typed
  try_get_immutable self p = do
    assert (Capability.check self.cap_set p.cap) invalid_pointer
    assert (Capability.check self.cap_set p.cap) invalid_pointer
    read_typed self (read_target p.content_type) p
