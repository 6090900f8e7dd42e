-- ===== src/Table.antt =====
-- wasm-gpu/src/instance/table/builder.rs: the buffer in which a builder lays out the tables of its
-- modules, and their initialisation. The id counter is passed along.
pub mod Entries
use wasm_gpu.Prelude.{
  ℕ, ◌+◌, Bool, ◌&&◌, List, Option, length, leb, Outcome, ok, ◌>>=◌, ◌>>◌, assert, invalid_pointer,
  index_out_of_bounds,
}
use wasm_gpu.Capability
use wasm_gpu.Capability.{CapabilityStore, Capability}
use wasm_gpu.Buffers.{LazyBuffers}
use wasm_gpu.Memory.{wasm_limits_match}
use wasm_gpu.Typed.{RefType, ValType, ref, val_type_eq}

-- `wasmparser::TableType`
pub record TableType : Type 0 where
  pub element_type : RefType
  pub initial : ℕ
  pub maximum : Option ℕ

pub record AbstractTablePtr : Type 0 where
  pub ptr : ℕ
  pub cap : Capability
  pub ty : TableType
  pub len : ℕ

unfoldable pub is_type : AbstractTablePtr → TableType → Bool
unfolding val_type_eq wasm_limits_match
is_type p ty =
    val_type_eq (ref p.ty.element_type) (ref ty.element_type)
    && wasm_limits_match p.ty.initial p.ty.maximum ty.initial ty.maximum

module _ (B : LazyBuffers) where
  open B use {Buffer, create_and_map_empty, len, extend_lazy, try_write_slice_locking}

  pub record TableInstanceSetBuilder : Type 0 where
    pub tables : Buffer
    pub cap_set : CapabilityStore

  unfoldable pub new : ℕ → TableInstanceSetBuilder × ℕ
  unfolding Capability.new
  new counter =
      let (cap_set, counter') = Capability.new 0 counter in
      (record { tables = create_and_map_empty; cap_set = cap_set }, counter')

  unfoldable pub add_table :
      TableInstanceSetBuilder → TableType → ℕ → AbstractTablePtr × TableInstanceSetBuilder × ℕ
  unfolding Capability.get_cap
  add_table self plan counter =
      let ptr = len self.tables in
      let size = plan.initial in
      let tables = extend_lazy self.tables size in
      let (cap_set, counter') = Capability.resize_ref self.cap_set (len tables) counter in
      (
        record { ptr = ptr; cap = Capability.get_cap cap_set; ty = plan; len = size },
        record { tables = tables; cap_set = cap_set },
        counter',
      )

  unfoldable pub try_initialize :
      TableInstanceSetBuilder → AbstractTablePtr → List ℕ → ℕ → Outcome TableInstanceSetBuilder
  try_initialize self ptr bytes offset = do
    assert (Capability.check self.cap_set ptr.cap) invalid_pointer
    assert (leb (offset + length bytes) ptr.len) index_out_of_bounds
    tables ←
        try_write_slice_locking self.tables (ptr.ptr + offset) (ptr.ptr + offset + length bytes)
          bytes
    ok (record self { tables = tables })
