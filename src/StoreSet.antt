-- ===== src/StoreSet.antt =====
-- wasm-gpu/src/store_set/builder.rs (`MappedStoreSetBuilder`): the buffers of a store set that is being
-- built, and the instantiation of a module in it. The checks by `debug_assert_eq!` are not part of a
-- release build and are left out; `RefType::is_func_ref` and `Vec::reserve_exact` are parameters.
pub mod Instantiated
use wasm_gpu.Prelude.{ℕ, Bool, List, Option, Outcome, ok, ◌>>=◌}
use wasm_gpu.Buffers.{LazyBuffers}
use wasm_gpu.Typed.{RefType}
use wasm_gpu.Table
use wasm_gpu.Table.{TableInstanceSetBuilder}
use wasm_gpu.Memory
use wasm_gpu.Memory.{MemoryInstanceSetBuilder}
use wasm_gpu.Globals
use wasm_gpu.Globals.{GlobalsBuilder}
use wasm_gpu.Elements
use wasm_gpu.Elements.{ElementInstance}
use wasm_gpu.Data
use wasm_gpu.Data.{DataInstance}
use wasm_gpu.Functions
use wasm_gpu.Functions.{FuncsInstance}
use wasm_gpu.Functions.Accessible.{FuncAccessiblePtrs, to_indices}
use wasm_gpu.Constexpr.{Environment}
use wasm_gpu.Parsing.{ParsedModule}
use wasm_gpu.Imports.{NamedExtern, ModuleInstanceReferences, typecheck_imports}
use wasm_gpu.Initialization.Globals.{try_initialize_globals}
use wasm_gpu.Initialization.Segments.{try_initialize_elements, try_initialize_datas}
use wasm_gpu.Initialization.Tables.{try_initialize_tables, try_initialize_memories}
use wasm_gpu.Initialization.Functions.{try_initialize_function_definitions, link_bodies, start_fn}

pub record StoreSetBuilder (B : LazyBuffers) (O : Type 0) : Type 0 where
  pub tables : TableInstanceSetBuilder B
  pub memories : MemoryInstanceSetBuilder B
  pub mutable_globals : GlobalsBuilder B
  pub elements : ElementInstance B
  pub datas : DataInstance B
  pub immutable_globals : GlobalsBuilder B
  pub functions : FuncsInstance O

module _ (B : LazyBuffers) {O : Type 0} where
  -- The parts draw their first ids in the order in which they are made.
  unfoldable pub new : ℕ → StoreSetBuilder B O × ℕ
  unfolding Table.new Memory.new Globals.new Elements.new Data.new Functions.new
  new counter =
      let (tables, counter1) = Table.new B counter in
      let (memories, counter2) = Memory.new B counter1 in
      let (immutable_globals, counter3) = Globals.new B counter2 in
      let (mutable_globals, counter4) = Globals.new B counter3 in
      let (elements, counter5) = Elements.new B counter4 in
      let (datas, counter6) = Data.new B counter5 in
      let (functions, counter7) = Functions.new counter6 in
      (
        record {
          tables = tables;
          memories = memories;
          mutable_globals = mutable_globals;
          elements = elements;
          datas = datas;
          immutable_globals = immutable_globals;
          functions = functions;
        },
        counter7,
      )

  unfoldable pub instantiate_module :
      (RefType → Bool)
      → (ℕ → ℕ → ℕ → ℕ)
      → StoreSetBuilder B O
      → ParsedModule O
      → List NamedExtern
      → ℕ
      → Outcome (ModuleInstanceReferences × StoreSetBuilder B O × ℕ)
  unfolding typecheck_imports try_initialize_function_definitions try_initialize_globals
      try_initialize_elements try_initialize_tables try_initialize_datas try_initialize_memories
      to_indices link_bodies start_fn
  instantiate_module is_func_ref reserve_exact self parsed imports counter = do
    validated ← typecheck_imports parsed.types parsed.imports imports
    funcs ←
        try_initialize_function_definitions reserve_exact parsed.types parsed.functions
          self.functions validated.functions counter
    globals ←
        try_initialize_globals B parsed.globals self.mutable_globals self.immutable_globals
          validated.globals funcs.0 funcs.2
    let env : Environment B = record {
      mutable_globals = globals.1;
      immutable_globals = globals.2;
      global_ptrs = globals.0;
      func_ptrs = funcs.0;
    }
    elements ← try_initialize_elements B is_func_ref env parsed.elements self.elements globals.3
    tables ←
        try_initialize_tables B env parsed.tables validated.tables elements.1 parsed.elements
          elements.0 self.tables elements.2
    datas ← try_initialize_datas B parsed.datas self.datas tables.2
    memories ←
        try_initialize_memories B env parsed.memories validated.memories datas.1 parsed.datas
          datas.0 self.memories datas.2
    let ptrs : FuncAccessiblePtrs = record {
      func_index_lookup = funcs.0;
      global_index_lookup = globals.0;
      element_index_lookup = elements.0;
      table_index_lookup = tables.0;
      data_index_lookup = datas.0;
      memory_index_lookup = memories.0;
    }
    accessible ← to_indices ptrs
    functions ← link_bodies parsed.functions funcs.0 accessible funcs.1
    start ← start_fn parsed.start_func funcs.0
    ok (
      record {
        funcs = funcs.0;
        tables = tables.0;
        memories = memories.0;
        globals = globals.0;
        exports = parsed.exports;
        start_fn = start;
      },
      record {
        tables = tables.1;
        memories = memories.1;
        mutable_globals = globals.1;
        elements = elements.1;
        datas = datas.1;
        immutable_globals = globals.2;
        functions = functions;
      },
      memories.2,
    )
