-- ===== src/Elements.antt =====
-- wasm-gpu/src/instance/element.rs: the buffer of the element segments, lists of references.
pub mod Segments
use wasm_gpu.Prelude.{
  ℕ, ◌+◌, ◌*◌, List, [], ◌∷◌, ◌++◌, length, Option, none, some, leb, Outcome, ok, err, ◌>>=◌, ◌>>◌,
  assert, invalid_pointer, index_out_of_bounds, out_of_range,
}
use wasm_gpu.Capability
use wasm_gpu.Capability.{CapabilityStore, Capability}
use wasm_gpu.Buffers.{LazyBuffers}
use wasm_gpu.Typed.{RefType, funcref, byte_count, ValType, ref, ref_try_from, ref_to_le_bytes}

pub record ElementPtr : Type 0 where
  pub ptr : ℕ
  pub cap : Capability
  pub ty : RefType
  pub len : ℕ

-- The bytes of one entry; an entry that is no reference panics.
unfoldable pub entry_bytes : Option ℕ → Outcome (List ℕ)
unfolding ref_try_from ref_to_le_bytes
entry_bytes v = elim (ref_try_from v) [ none ↦ err out_of_range | some r ↦ ok (ref_to_le_bytes r) ]

-- The `flat_map` over the entries.
unfoldable pub element_bytes : List (Option ℕ) → Outcome (List ℕ)
unfolding entry_bytes
element_bytes [] = ok []
element_bytes (v ∷ element) = do
  first ← entry_bytes v
  rest ← element_bytes element
  ok (first ++ rest)

module _ (B : LazyBuffers) where
  open B use {
    Buffer, create_and_map_empty, len, extend_lazy, try_read_slice_locking, try_write_slice_locking,
  }

  pub record ElementInstance : Type 0 where
    pub references : Buffer
    pub cap_set : CapabilityStore
    pub head : ℕ

  unfoldable pub new : ℕ → ElementInstance × ℕ
  unfolding Capability.new
  new counter =
      let (cap_set, counter') = Capability.new 0 counter in
      (record { references = create_and_map_empty; cap_set = cap_set; head = 0 }, counter')

  unfoldable pub reserve : ElementInstance → ℕ → ℕ → ElementInstance × ℕ
  reserve self values_size counter =
      let references = extend_lazy self.references values_size in
      let (cap_set, counter') = Capability.resize_ref self.cap_set (len references) counter in
      (record self { references = references; cap_set = cap_set }, counter')

  unfoldable pub try_add_element :
      ElementInstance → RefType → List (Option ℕ) → Outcome (ElementPtr × ElementInstance)
  unfolding byte_count element_bytes
  try_add_element self ty element = do
    let start = self.head
    let stop = start + length element * byte_count (ref funcref)
    assert (leb stop (len self.references)) index_out_of_bounds
    bytes ← element_bytes element
    references ← try_write_slice_locking self.references start stop bytes
    ok (
      record { ptr = start; cap = Capability.get_cap self.cap_set; ty = ty; len = length element },
      record self { references = references; head = stop },
    )

  unfoldable pub try_get : ElementInstance → ElementPtr → Outcome (List ℕ)
  try_get self p = do
    assert (Capability.check self.cap_set p.cap) invalid_pointer
    try_read_slice_locking self.references p.ptr (p.ptr + p.len * 4)
