-- ===== src/Data.antt =====
-- wasm-gpu/src/instance/data.rs: the buffer of the passive data segments.
pub mod Segments
use wasm_gpu.Prelude.{
  ℕ, ◌+◌, List, length, leb, Outcome, ok, ◌>>=◌, ◌>>◌, assert, invalid_pointer, index_out_of_bounds,
}
use wasm_gpu.Capability
use wasm_gpu.Capability.{CapabilityStore, Capability}
use wasm_gpu.Buffers.{LazyBuffers}

pub record DataPtr : Type 0 where
  pub ptr : ℕ
  pub cap : Capability
  pub len : ℕ

module _ (B : LazyBuffers) where
  open B use {
    Buffer, create_and_map_empty, len, resize_lazy, try_read_slice_locking, try_write_slice_locking,
  }

  pub record DataInstance : Type 0 where
    pub datas : Buffer
    pub cap_set : CapabilityStore
    pub head : ℕ

  unfoldable pub new : ℕ → DataInstance × ℕ
  unfolding Capability.new
  new counter =
      let (cap_set, counter') = Capability.new 0 counter in
      (record { datas = create_and_map_empty; cap_set = cap_set; head = 0 }, counter')

  unfoldable pub reserve : DataInstance → ℕ → ℕ → DataInstance × ℕ
  reserve self values_size counter =
      let datas = resize_lazy self.datas values_size in
      let (cap_set, counter') = Capability.resize_ref self.cap_set (len datas) counter in
      (record self { datas = datas; cap_set = cap_set }, counter')

  -- The head is read, and stays where it is.
  unfoldable pub try_add_data : DataInstance → List ℕ → Outcome (DataPtr × DataInstance)
  try_add_data self bytes = do
    let start = self.head
    let stop = start + length bytes
    assert (leb stop (len self.datas)) index_out_of_bounds
    datas ← try_write_slice_locking self.datas start stop bytes
    ok (
      record { ptr = start; cap = Capability.get_cap self.cap_set; len = length bytes },
      record self { datas = datas },
    )

  unfoldable pub try_get : DataInstance → DataPtr → Outcome (List ℕ)
  try_get self p = do
    assert (Capability.check self.cap_set p.cap) invalid_pointer
    try_read_slice_locking self.datas p.ptr (p.ptr + p.len)
