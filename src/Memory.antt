-- ===== src/Memory.antt =====
-- wasm-gpu/src/instance/memory/builder.rs and memory/instance.rs: the buffer in which a builder
-- lays out the linear memories of its modules, the pointers into it, and their initialisation.
-- The id counter is passed along. A `usize` has 64 bits; sums of positions inside one buffer are
-- not wrapped, since a buffer that long cannot be allocated.

pub mod Isolation
use wasm_gpu.Prelude.{
  ℕ, ◌+◌, ◌*◌, ◌%◌, Bool, true, false, List, Option, none, some, length, leb, ltb, Outcome, ok,
  ◌>>=◌, ◌>>◌, assert, invalid_pointer, index_out_of_bounds, u64_mod, if◌then◌else◌,
}
use wasm_gpu.Capability
use wasm_gpu.Capability.{CapabilityStore, Capability}
use wasm_gpu.Buffers.{LazyBuffers}

-- `wasmparser::MemoryType`, as far as it is read.
pub record MemoryType : Type 0 where
  pub initial : ℕ
  pub maximum : Option ℕ

-- `wasmtime_environ::WASM_PAGE_SIZE`
abbrev pub wasm_page_size : ℕ
wasm_page_size = 65536

pub record AbstractMemoryPtr : Type 0 where
  pub ptr : ℕ
  pub cap : Capability
  pub ty : MemoryType
  pub len : ℕ

-- The concrete pointer: the same place in instance `index`.
pub record MemoryPtr : Type 0 where
  pub src : AbstractMemoryPtr
  pub index : ℕ

-- `concrete` of the pointer macros.
unfoldable pub concrete : AbstractMemoryPtr → ℕ → MemoryPtr
concrete src index = record { src = src; index = index }

-- The two ends of the range of a concrete pointer.
unfoldable pub bounds : MemoryPtr → ℕ → ℕ × ℕ
bounds p instance_count =
    let segment_len = p.src.len in
    let start = p.src.ptr * instance_count + p.index * segment_len in (start, start + segment_len)

-- The `match` on the two maxima in `wasm_limits_match`.
unfoldable pub maxima_match : Option ℕ → Option ℕ → Bool
maxima_match none none = true
maxima_match (some m1) (some m2) = leb m2 m1
maxima_match none (some m2) = false
maxima_match (some m1) none = false

-- `wasm_limits_match` of memory.rs, called with the provided limits and then the required ones.
unfoldable pub wasm_limits_match : ℕ → Option ℕ → ℕ → Option ℕ → Bool
unfolding maxima_match
wasm_limits_match n1 m1 n2 m2 = if ltb n2 n1 then false else maxima_match m1 m2

unfoldable pub is_type : AbstractMemoryPtr → MemoryType → Bool
unfolding wasm_limits_match
is_type p ty = wasm_limits_match p.ty.initial p.ty.maximum ty.initial ty.maximum

module _ (B : LazyBuffers) where
  open B use {Buffer, create_and_map_empty, len, extend_lazy, try_write_slice_locking}

  pub record MemoryInstanceSetBuilder : Type 0 where
    pub memory : Buffer
    pub cap_set : CapabilityStore

  unfoldable pub new : ℕ → MemoryInstanceSetBuilder × ℕ
  unfolding Capability.new
  new counter =
      let (cap_set, counter') = Capability.new 0 counter in
      (record { memory = create_and_map_empty; cap_set = cap_set }, counter')

  unfoldable pub add_memory :
      MemoryInstanceSetBuilder → MemoryType → ℕ → AbstractMemoryPtr × MemoryInstanceSetBuilder × ℕ
  unfolding Capability.get_cap
  add_memory self plan counter =
      let ptr = len self.memory in
      let size = plan.initial * wasm_page_size % u64_mod in
      let memory = extend_lazy self.memory size in
      let (cap_set, counter') = Capability.resize_ref self.cap_set (len memory) counter in
      (
        record { ptr = ptr; cap = Capability.get_cap cap_set; ty = plan; len = size },
        record { memory = memory; cap_set = cap_set },
        counter',
      )

  unfoldable pub try_initialize :
      MemoryInstanceSetBuilder → AbstractMemoryPtr → List ℕ → ℕ → Outcome MemoryInstanceSetBuilder
  try_initialize self ptr bytes offset = do
    assert (Capability.check self.cap_set ptr.cap) invalid_pointer
    assert (leb (offset + length bytes) ptr.len) index_out_of_bounds
    memory ←
        try_write_slice_locking self.memory (ptr.ptr + offset) (ptr.ptr + offset + length bytes)
          bytes
    ok (record self { memory = memory })
