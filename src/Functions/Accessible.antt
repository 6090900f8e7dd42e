-- ===== src/Functions/Accessible.antt =====
-- wasm-gpu/src/func.rs: the objects that the functions of a module can name, as pointers of the host and
-- as the indices that the translator works with.
use wasm_gpu.Prelude.{List, Outcome, ok, ◌>>=◌, try_map}
use wasm_gpu.Globals
use wasm_gpu.Globals.{AbstractGlobalPtr}
use wasm_gpu.Elements.{ElementPtr}
use wasm_gpu.Data.{DataPtr}
use wasm_gpu.Table.{AbstractTablePtr}
use wasm_gpu.Memory.{AbstractMemoryPtr}
use wasm_gpu.Functions.{UntypedFuncPtr, to_func_ref, to_index, GlobalIndex, FuncAccessible}

pub record FuncAccessiblePtrs : Type 0 where
  pub func_index_lookup : List UntypedFuncPtr
  pub global_index_lookup : List AbstractGlobalPtr
  pub element_index_lookup : List ElementPtr
  pub table_index_lookup : List AbstractTablePtr
  pub data_index_lookup : List DataPtr
  pub memory_index_lookup : List AbstractMemoryPtr

unfoldable pub global_to_index : AbstractGlobalPtr → Outcome GlobalIndex
unfolding to_index
global_to_index (Globals.immutable p) = to_index p.ptr >>= λ i. ok (GlobalIndex.immutable i)
global_to_index (Globals.mutable p) = to_index p.ptr >>= λ i. ok (GlobalIndex.mutable i)

unfoldable pub to_indices : FuncAccessiblePtrs → Outcome FuncAccessible
unfolding to_func_ref to_index global_to_index try_map
to_indices self = do
  funcs ← try_map to_func_ref self.func_index_lookup
  globals ← try_map global_to_index self.global_index_lookup
  elements ← try_map (λ (p : ElementPtr). to_index p.ptr) self.element_index_lookup
  tables ← try_map (λ (p : AbstractTablePtr). to_index p.ptr) self.table_index_lookup
  datas ← try_map (λ (p : DataPtr). to_index p.ptr) self.data_index_lookup
  memories ← try_map (λ (p : AbstractMemoryPtr). to_index p.ptr) self.memory_index_lookup
  ok (record {
    func_index_lookup = funcs;
    global_index_lookup = globals;
    element_index_lookup = elements;
    table_index_lookup = tables;
    data_index_lookup = datas;
    memory_index_lookup = memories;
  })
