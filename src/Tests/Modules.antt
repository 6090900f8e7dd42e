-- ===== src/Tests/Modules.antt =====
-- The theorems about modules and their instantiation at concrete inputs.
use Prim.Native.String.{String}
use wasm_gpu.Prelude.{
  try_map, false, true, Bool, max, ℕ, ◌+◌, ◌≡◌, refl, List, [], ◌∷◌, length, slice, get_elem?, All,
  none, some, ok, err, ◌>>=◌, assertion_failed, arith,
}
use wasm_gpu.Buffers.{LazyBuffers, host_buffers}
use wasm_gpu.Capability
use wasm_gpu.Typed
use wasm_gpu.Typed.{Val, i32, RefType}
use wasm_gpu.Memory
use wasm_gpu.Globals
use wasm_gpu.Globals.{GlobalType}
use wasm_gpu.Functions
use wasm_gpu.Functions.{FuncType, FuncData, FuncsInstance, FuncAccessible, UntypedFuncPtr, get}
use wasm_gpu.Functions.Linking.{linked, with_functions}
use wasm_gpu.Constexpr.{Environment, global_get, i32_const, end, interpret_constexpr}
use wasm_gpu.Constexpr.Reading.{interpret_constexpr-global_get}
use wasm_gpu.Parsing.{
  Global, ParsedFunc, ParsedData, ParsedDataKind, ImportTypeRef, ModuleExport, ParsedModule,
}
use wasm_gpu.Data
use wasm_gpu.Data.{DataInstance, DataPtr}
use wasm_gpu.Initialization.Globals.{try_initialize_globals}
use wasm_gpu.Initialization.Panics.{try_initialize_globals_panics}
use wasm_gpu.Initialization.Segments.{reserved_size, add_datas, try_initialize_datas}
use wasm_gpu.Initialization.Overlap.{try_initialize_datas_overlaps}
use wasm_gpu.Initialization.Functions.{func_data}
use wasm_gpu.Initialization.Linked.{ptrs_from, functions_linked}
use wasm_gpu.Imports.{Extern, NamedExtern, ModuleInstanceReferences, no_imports, typecheck_imports}
use wasm_gpu.Imports.Validated.{
  Resolved, extended, funcs_of, tables_of, memories_of, globals_of, typecheck_imports_iff,
}
use wasm_gpu.Elements
use wasm_gpu.StoreSet
use wasm_gpu.StoreSet.{StoreSetBuilder}
use wasm_gpu.StoreSet.Instantiated.{Indexes, instantiate_module-Indexes}
use wasm_gpu.Tests.Host.{seven_ptr, more_room, more_room_reached}

abbrev no_params : FuncType
no_params = record { params = []; results = [] }

abbrev no_functions : FuncsInstance ℕ
no_functions = (Functions.new 0).0

abbrev one_func : ParsedFunc ℕ
one_func = record { type_id = 0; locals = []; operators = 5 ∷ [] }

abbrev one_body : FuncData ℕ
one_body = record { ty = no_params; locals = []; operators = 5 ∷ []; types = no_params ∷ [] }

-- An allocator that gives what it is asked for.
abbrev exactly : ℕ → ℕ → ℕ → ℕ
exactly n capacity count = max capacity (n + count)

abbrev reserved : FuncsInstance ℕ
reserved = (Functions.reserve exactly no_functions 1 1).0

functions_linked_example :
    (p : UntypedFuncPtr) × (get_elem? (ptrs_from reserved 0 (one_body ∷ [])) 0 ≡ some p)
    × (get (with_functions reserved (linked Functions.empty one_body ∷ [])) p
        ≡ ok (linked Functions.empty one_body))
unfolding Functions.new try_map func_data
functions_linked_example =
    (functions_linked exactly (no_params ∷ []) (one_func ∷ []) (one_body ∷ []) no_functions [] 1
        Functions.empty refl (λ n capacity count. omega arith)).2
      0 one_body refl

abbrev i32_global : Global
i32_global = record {
  ty = record { content_type = i32; mutable = false };
  initializer = i32_const 7 ∷ end ∷ [];
}

try_initialize_globals_panics_example :
    try_initialize_globals host_buffers
      (i32_global ∷ [])
      (Globals.new host_buffers 0).0
      (Globals.new host_buffers 1).0
      []
      []
      2
    ≡ err assertion_failed
try_initialize_globals_panics_example =
    (try_initialize_globals_panics host_buffers (Globals.new host_buffers 0).0
        (Globals.new host_buffers 1).0 [] [] 2).0
      i32_global []

-- Two data segments, and the buffer that they come to.
abbrev segment : List ℕ → ParsedData
segment bytes = record { kind = ParsedDataKind.passive; bytes = bytes }

abbrev no_data : DataInstance host_buffers
no_data = (Data.new host_buffers 0).0

abbrev sized : DataInstance host_buffers × ℕ
sized = Data.reserve host_buffers no_data 3 1

abbrev two_segments : DataInstance host_buffers
two_segments = record (sized.0) { datas = 9 ∷ 2 ∷ 0 ∷ [] }

abbrev segment_ptr : ℕ → DataPtr
segment_ptr n = record { ptr = 0; cap = Capability.get_cap two_segments.cap_set; len = n }

try_initialize_datas_overlaps_example :
    All (λ p. p.ptr ≡ 0) (segment_ptr 2 ∷ segment_ptr 1 ∷ [])
    × (length (segment_ptr 2 ∷ segment_ptr 1 ∷ []) ≡ 2)
    × (slice 0 1 two_segments.datas ≡ 9 ∷ [])
unfolding Data.new Data.reserve try_initialize_datas reserved_size add_datas Data.try_add_data
    Capability.new Capability.resize_ref Capability.get_cap
try_initialize_datas_overlaps_example =
    try_initialize_datas_overlaps host_buffers (segment (1 ∷ 2 ∷ [])) (segment (9 ∷ []) ∷ [])
      no_data two_segments (segment_ptr 2 ∷ segment_ptr 1 ∷ []) 1 sized.1 refl

abbrev seven_env : Environment host_buffers
seven_env = record {
  mutable_globals = more_room.builder;
  immutable_globals = more_room.builder;
  global_ptrs = Globals.mutable seven_ptr ∷ [];
  func_ptrs = [];
}

interpret_constexpr-global_get_example :
    interpret_constexpr host_buffers seven_env (global_get 0 ∷ end ∷ []) ≡ (
      LazyBuffers.try_read_slice_locking host_buffers more_room.builder.values 0 4 >>= λ _.
      ok (Val.i32 7))
unfolding Typed.byte_count Typed.get_type
interpret_constexpr-global_get_example =
    (interpret_constexpr-global_get host_buffers seven_env more_room more_room 0 0 seven_ptr
        (Val.i32 7) more_room_reached more_room_reached refl refl).0
      refl refl

abbrev one_page : Memory.MemoryType
one_page = record { initial = 1; maximum = none }

abbrev page_ptr : Memory.AbstractMemoryPtr
page_ptr = record { ptr = 0; cap = record { id = 0 }; ty = one_page; len = 65536 }

abbrev page_import : String × String × ImportTypeRef
page_import = ("env", "memory", ImportTypeRef.memory one_page)

abbrev page_export : NamedExtern
page_export = record { module_name = "env"; name = "memory"; ext = Extern.memory page_ptr }

typecheck_imports_iff_example :
    typecheck_imports [] (page_import ∷ []) (page_export ∷ [])
    ≡ ok (extended no_imports (Extern.memory page_ptr ∷ []))
typecheck_imports_iff_example =
    (typecheck_imports_iff [] (page_import ∷ []) (page_export ∷ [])
        (extended no_imports (Extern.memory page_ptr ∷ []))).1
      (
        Extern.memory page_ptr ∷ [],
        (([], page_export, [], refl, refl, refl, refl, tt), omega arith, tt),
        refl,
      )

-- A module with a function of its own and an imported memory, and what its instantiation comes to.
abbrev page_module : ParsedModule ℕ
page_module = record {
  types = no_params ∷ [];
  imports = page_import ∷ [];
  tables = [];
  memories = [];
  globals = [];
  exports = ("run", ModuleExport.func 0) ∷ [];
  start_func = some 0;
  elements = [];
  datas = [];
  functions = one_func ∷ [];
}

abbrev store_set : StoreSetBuilder host_buffers ℕ
store_set = (StoreSet.new host_buffers 0).0

abbrev run_ptr : UntypedFuncPtr
run_ptr = record { ptr = 0; cap = record { id = 7 }; ty = no_params }

abbrev run_accessible : FuncAccessible
run_accessible = record {
  func_index_lookup = some 0 ∷ [];
  global_index_lookup = [];
  element_index_lookup = [];
  table_index_lookup = [];
  data_index_lookup = [];
  memory_index_lookup = 0 ∷ [];
}

abbrev page_instance : ModuleInstanceReferences
page_instance = record {
  funcs = run_ptr ∷ [];
  tables = [];
  memories = page_ptr ∷ [];
  globals = [];
  exports = ("run", ModuleExport.func 0) ∷ [];
  start_fn = some run_ptr;
}

abbrev store_set_after : StoreSetBuilder host_buffers ℕ
store_set_after = record {
  tables = store_set.tables;
  memories = store_set.memories;
  mutable_globals = (Globals.reserve host_buffers store_set.mutable_globals 0 9).0;
  elements = (Elements.reserve host_buffers store_set.elements 0 10).0;
  datas = (Data.reserve host_buffers store_set.datas 0 11).0;
  immutable_globals = (Globals.reserve host_buffers store_set.immutable_globals 0 8).0;
  functions =
      with_functions (Functions.reserve exactly store_set.functions 1 7).0
        (linked run_accessible one_body ∷ []);
}

abbrev any_func_ref : RefType → Bool
any_func_ref ty = true

instantiate_module-Indexes_example :
    (exts : List Extern) × Resolved (no_params ∷ []) (page_export ∷ []) (page_import ∷ []) exts
    × (page_module.globals ≡ [])
    × Indexes (funcs_of exts) (one_func ∷ []) (run_ptr ∷ [])
    × Indexes (tables_of exts) page_module.tables page_instance.tables
    × Indexes (memories_of exts) page_module.memories (page_ptr ∷ [])
    × (page_instance.globals ≡ globals_of exts)
    × (page_instance.exports ≡ page_module.exports)
unfolding StoreSet.new StoreSet.instantiate_module Capability.check Capability.resize_ref
instantiate_module-Indexes_example =
    instantiate_module-Indexes host_buffers any_func_ref exactly store_set page_module
      (page_export ∷ []) 7 (page_instance, store_set_after, 12) refl
