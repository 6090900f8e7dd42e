-- ===== src/Table/Entries.antt =====
-- wasm-gpu/src/instance/table/builder.rs: how many entries a new table takes.
use wasm_gpu.Prelude.{
  ℕ, ◌+◌, ◌*◌, ◌<◌, ◌≤◌, ◌≡◌, refl, List, length, le→leb, lt→leb_false, ok, err, ◌>>=◌,
  index_out_of_bounds, u64_mod, arith,
}
use wasm_gpu.Buffers.{LazyBuffers}
use wasm_gpu.Arena.{len-extend_lazy}
use wasm_gpu.Capability.Tracks.{Tracks, Tracks-resize_ref, check-get_cap}
use wasm_gpu.Typed.{byte_count, ref}
use wasm_gpu.Table.{TableType, TableInstanceSetBuilder, add_table, try_initialize}

module _ (B : LazyBuffers) where
  open B use {len, extend_lazy, try_write_slice_locking}

  -- A table that was just added takes the bytes of `k` references exactly where their bytes, and not
  -- their number, fit under the table's initial number of entries: there its initialisation comes down
  -- to one write inside the buffer, and elsewhere it is out of bounds.
  pub try_initialize-add_table :
      (self : TableInstanceSetBuilder B) (plan : TableType) (counter k offset : ℕ) (bytes : List ℕ)
      → counter + 1 < u64_mod
      → Tracks counter self.cap_set (len self.tables)
      → length bytes ≡ k * byte_count (ref plan.element_type)
      → let (p, self', _) = add_table B self plan counter in
        (offset + 4 * k ≤ plan.initial
          → (try_initialize B self' p bytes offset ≡ (
              try_write_slice_locking self'.tables
                (p.ptr + offset)
                (p.ptr + offset + length bytes)
                bytes
              >>= λ m. ok (record self' { tables = m })))
            × (p.ptr + offset + length bytes ≤ len self'.tables))
        × (plan.initial < offset + 4 * k
            → try_initialize B self' p bytes offset ≡ err index_out_of_bounds)
  unfolding add_table try_initialize byte_count
  try_initialize-add_table self plan counter k offset bytes h tracks size =
      let n = len (extend_lazy self.tables plan.initial) in
      let good = check-get_cap (Tracks-resize_ref counter n self.cap_set _ h tracks) in
      (
        λ fits. (
          rw (good, le→leb (offset + length bytes) plan.initial (omega arith)) refl,
          omega (arith, len-extend_lazy B self.tables plan.initial),
        ),
        λ over. rw (good, lt→leb_false (offset + length bytes) plan.initial (omega arith)) refl,
      )
