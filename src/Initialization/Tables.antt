-- ===== src/Initialization/Tables.antt =====
-- wasm-gpu/src/module.rs (`try_initialize_tables`, `try_initialize_memories`): the tables and memories
-- of a module are appended to the builders, then the active segments are written into them.
use wasm_gpu.Prelude.{
  ℕ, ◌==◌, List, [], ◌∷◌, ◌++◌, get_elem?, some, Outcome, ok, err, ◌>>=◌, ◌>>◌, assert, expect,
  assertion_failed, index_out_of_bounds,
}
use wasm_gpu.Buffers.{LazyBuffers}
use wasm_gpu.Constexpr.{Environment, interpret_constexpr}
use wasm_gpu.Elements
use wasm_gpu.Elements.{ElementInstance, ElementPtr}
use wasm_gpu.Data
use wasm_gpu.Data.{DataInstance, DataPtr}
use wasm_gpu.Table
use wasm_gpu.Table.{TableType, AbstractTablePtr, TableInstanceSetBuilder}
use wasm_gpu.Memory
use wasm_gpu.Memory.{MemoryType, AbstractMemoryPtr, MemoryInstanceSetBuilder}
use wasm_gpu.Parsing.{ParsedElement, ParsedElementKind, ParsedTable, ParsedData, ParsedDataKind}
use wasm_gpu.Initialization.{offset_of}

module _ (B : LazyBuffers) where
  unfoldable pub add_tables :
      List ParsedTable
      → TableInstanceSetBuilder B
      → ℕ
      → List AbstractTablePtr × TableInstanceSetBuilder B × ℕ
  unfolding Table.add_table
  add_tables [] tables counter = ([], tables, counter)
  add_tables (plan ∷ plans) tables counter =
      let (ptr, tables', counter') = Table.add_table B tables plan.ty counter in
      let (ptrs, tables'', counter'') = add_tables plans tables' counter' in
      (ptr ∷ ptrs, tables'', counter'')

  -- One iteration of the loop over the segments: only active ones with a table are written.
  unfoldable pub initialize_table :
      Environment B
      → List AbstractTablePtr
      → ElementInstance B
      → ParsedElementKind
      → ElementPtr
      → TableInstanceSetBuilder B
      → Outcome (TableInstanceSetBuilder B)
  unfolding interpret_constexpr offset_of Elements.try_get Table.try_initialize
  initialize_table env ptrs elements (ParsedElementKind.active (some table_index) offset_expr) p
        tables =
      do
        table_ptr ← expect (get_elem? ptrs table_index) index_out_of_bounds
        v ← interpret_constexpr B env offset_expr
        offset ← offset_of v
        bytes ← Elements.try_get B elements p
        Table.try_initialize B tables table_ptr bytes offset
  initialize_table env ptrs elements _ p tables = ok tables

  -- The loop over `zip_eq`, which panics when one list ends before the other.
  unfoldable pub initialize_tables :
      Environment B
      → List AbstractTablePtr
      → ElementInstance B
      → List ParsedElement
      → List ElementPtr
      → TableInstanceSetBuilder B
      → Outcome (TableInstanceSetBuilder B)
  unfolding initialize_table
  initialize_tables env ptrs elements [] [] tables = ok tables
  initialize_tables env ptrs elements (e ∷ es) (p ∷ ps) tables = do
    tables' ← initialize_table env ptrs elements e.kind p tables
    initialize_tables env ptrs elements es ps tables'
  initialize_tables env ptrs elements _ _ tables = err assertion_failed

  unfoldable pub try_initialize_tables :
      Environment B
      → List ParsedTable
      → List AbstractTablePtr
      → ElementInstance B
      → List ParsedElement
      → List ElementPtr
      → TableInstanceSetBuilder B
      → ℕ
      → Outcome (List AbstractTablePtr × TableInstanceSetBuilder B × ℕ)
  unfolding add_tables initialize_tables
  try_initialize_tables env plans imported elements parsed element_ptrs tables counter =
      let (ptrs, tables', counter') = add_tables plans tables counter in
      initialize_tables env (imported ++ ptrs) elements parsed element_ptrs tables' >>= λ tables''.
      ok (imported ++ ptrs, tables'', counter')

  unfoldable pub add_memories :
      List MemoryType
      → MemoryInstanceSetBuilder B
      → ℕ
      → List AbstractMemoryPtr × MemoryInstanceSetBuilder B × ℕ
  unfolding Memory.add_memory
  add_memories [] memories counter = ([], memories, counter)
  add_memories (plan ∷ plans) memories counter =
      let (ptr, memories', counter') = Memory.add_memory B memories plan counter in
      let (ptrs, memories'', counter'') = add_memories plans memories' counter' in
      (ptr ∷ ptrs, memories'', counter'')

  unfoldable pub initialize_memory :
      Environment B
      → List AbstractMemoryPtr
      → DataInstance B
      → ParsedDataKind
      → DataPtr
      → MemoryInstanceSetBuilder B
      → Outcome (MemoryInstanceSetBuilder B)
  unfolding interpret_constexpr offset_of Data.try_get Memory.try_initialize
  initialize_memory env ptrs datas (ParsedDataKind.active memory_index offset_expr) p memories = do
    assert (memory_index == 0) assertion_failed
    memory_ptr ← expect (get_elem? ptrs memory_index) index_out_of_bounds
    v ← interpret_constexpr B env offset_expr
    offset ← offset_of v
    bytes ← Data.try_get B datas p
    Memory.try_initialize B memories memory_ptr bytes offset
  initialize_memory env ptrs datas ParsedDataKind.passive p memories = ok memories

  unfoldable pub initialize_memories :
      Environment B
      → List AbstractMemoryPtr
      → DataInstance B
      → List ParsedData
      → List DataPtr
      → MemoryInstanceSetBuilder B
      → Outcome (MemoryInstanceSetBuilder B)
  unfolding initialize_memory
  initialize_memories env ptrs datas [] [] memories = ok memories
  initialize_memories env ptrs datas (d ∷ ds) (p ∷ ps) memories = do
    memories' ← initialize_memory env ptrs datas d.kind p memories
    initialize_memories env ptrs datas ds ps memories'
  initialize_memories env ptrs datas _ _ memories = err assertion_failed

  unfoldable pub try_initialize_memories :
      Environment B
      → List MemoryType
      → List AbstractMemoryPtr
      → DataInstance B
      → List ParsedData
      → List DataPtr
      → MemoryInstanceSetBuilder B
      → ℕ
      → Outcome (List AbstractMemoryPtr × MemoryInstanceSetBuilder B × ℕ)
  unfolding add_memories initialize_memories
  try_initialize_memories env plans imported datas parsed data_ptrs memories counter =
      let (ptrs, memories', counter') = add_memories plans memories counter in
      initialize_memories env (imported ++ ptrs) datas parsed data_ptrs memories' >>= λ memories''.
      ok (imported ++ ptrs, memories'', counter')
