-- ===== src/Imports.antt =====
-- wasm-gpu/src/externs.rs, wasm-gpu/src/instance.rs and wasm-gpu/src/module.rs (`typecheck_imports`):
-- the objects that a module instance exports, and the check of what is provided for the imports of a
-- module.
pub mod Matching
pub mod Validated
use text.Mathlib.Text
use Prim.Native.String.{String}
use wasm_gpu.Prelude.{
  ℕ, Bool, true, false, ◌&&◌, List, [], ◌∷◌, ◌++◌, map, get_elem?, Option, none, some, Outcome, ok,
  err, ◌>>=◌, ◌>>◌, assert, expect, try_map, missing_import, wrong_import, malformed, if◌then◌else◌,
}
use wasm_gpu.Functions.{FuncType, func_type_eq, UntypedFuncPtr}
use wasm_gpu.Globals
use wasm_gpu.Globals.{AbstractGlobalPtr}
use wasm_gpu.Table
use wasm_gpu.Table.{AbstractTablePtr}
use wasm_gpu.Memory
use wasm_gpu.Memory.{AbstractMemoryPtr}
use wasm_gpu.Parsing.{ImportTypeRef, ModuleExport}

pub data Extern : Type 0 where
  func : UntypedFuncPtr → Extern
  global : AbstractGlobalPtr → Extern
  table : AbstractTablePtr → Extern
  memory : AbstractMemoryPtr → Extern

pub record NamedExtern : Type 0 where
  pub module_name : String
  pub name : String
  pub ext : Extern

-- `import_by_name.get` of the map that is collected from the provided objects: of several with one
-- name the last one is in the map.
unfoldable pub import_by_name : List NamedExtern → String → String → Option Extern
import_by_name [] module_name name = none
import_by_name (p ∷ provided) module_name name = elim (import_by_name provided module_name name) [
  | some ext ↦ some ext
  | none ↦ if Text.◌==◌ p.module_name module_name && Text.◌==◌ p.name name then some p.ext else none
]

-- Whether a provided object has the type that an import requires.
unfoldable pub import_matches : List FuncType → ImportTypeRef → Extern → Outcome Bool
unfolding func_type_eq Globals.is_type Table.is_type Memory.is_type
import_matches types (ImportTypeRef.func f_id) (func f2) = do
  ty ← expect (get_elem? types f_id) malformed
  ok (func_type_eq f2.ty ty)
import_matches types (ImportTypeRef.table t1) (table t2) = ok (Table.is_type t2 t1)
import_matches types (ImportTypeRef.memory m1) (memory m2) = ok (Memory.is_type m2 m1)
import_matches types (ImportTypeRef.global g1) (global g2) = ok (Globals.is_type g2 g1)
import_matches types _ _ = ok false

pub record ValidatedImports : Type 0 where
  pub functions : List UntypedFuncPtr
  pub globals : List AbstractGlobalPtr
  pub tables : List AbstractTablePtr
  pub memories : List AbstractMemoryPtr

unfoldable pub no_imports : ValidatedImports
no_imports = record { functions = []; globals = []; tables = []; memories = [] }

-- The match that adds a provided object to the validated ones.
unfoldable pub validate : ValidatedImports → Extern → ValidatedImports
validate v (func f) = record v { functions = v.functions ++ f ∷ [] }
validate v (global g) = record v { globals = v.globals ++ g ∷ [] }
validate v (table t) = record v { tables = v.tables ++ t ∷ [] }
validate v (memory m) = record v { memories = v.memories ++ m ∷ [] }

-- The loop over the imports, with the validated ones so far.
unfoldable pub typecheck_loop :
    List FuncType
    → List NamedExtern
    → List (String × String × ImportTypeRef)
    → ValidatedImports
    → Outcome ValidatedImports
unfolding import_by_name import_matches validate
typecheck_loop types provided [] validated = ok validated
typecheck_loop types provided (required ∷ imports) validated =
    expect (import_by_name provided required.0 required.1) missing_import >>= λ ext.
    import_matches types required.2 ext >>= λ matches.
    assert matches wrong_import >> typecheck_loop types provided imports (validate validated ext)

unfoldable pub typecheck_imports :
    List FuncType
    → List (String × String × ImportTypeRef)
    → List NamedExtern
    → Outcome ValidatedImports
unfolding typecheck_loop no_imports
typecheck_imports types imports provided = typecheck_loop types provided imports no_imports

pub record ModuleInstanceReferences : Type 0 where
  pub funcs : List UntypedFuncPtr
  pub tables : List AbstractTablePtr
  pub memories : List AbstractMemoryPtr
  pub globals : List AbstractGlobalPtr
  pub exports : List (String × ModuleExport)
  pub start_fn : Option UntypedFuncPtr

-- `exports.get`, the names of a map being distinct.
unfoldable pub find_export : List (String × ModuleExport) → String → Option ModuleExport
find_export [] name = none
find_export ((key, export) ∷ exports) name =
    if Text.◌==◌ key name then some export else find_export exports name

-- `?` on an `Option`, then `Some` of the object.
abbrev pub exported {ℓ} : {A : Type ℓ} → (A → Extern) → Option A → Option Extern
exported f none = none
exported f (some a) = some (f a)

unfoldable pub export_at : ModuleInstanceReferences → ModuleExport → Option Extern
export_at self (ModuleExport.func ptr) = exported func (get_elem? self.funcs ptr)
export_at self (ModuleExport.global ptr) = exported global (get_elem? self.globals ptr)
export_at self (ModuleExport.table ptr) = exported table (get_elem? self.tables ptr)
export_at self (ModuleExport.memory ptr) = exported memory (get_elem? self.memories ptr)

unfoldable pub get_export : ModuleInstanceReferences → String → Option Extern
unfolding find_export export_at
get_export self name = elim (find_export self.exports name) [
  | none ↦ none
  | some mod_exp ↦ export_at self mod_exp
]

-- The match on an exported object that must be a function, and one that must be a memory.
unfoldable pub as_func : Extern → Outcome UntypedFuncPtr
as_func (func f) = ok f
as_func _ = err wrong_import

unfoldable pub as_memory : Extern → Outcome AbstractMemoryPtr
as_memory (memory m) = ok m
as_memory _ = err wrong_import

unfoldable pub get_func : ModuleInstanceReferences → String → Outcome UntypedFuncPtr
unfolding get_export as_func
get_func self name = expect (get_export self name) missing_import >>= as_func

unfoldable pub get_memory_export : ModuleInstanceReferences → String → Outcome AbstractMemoryPtr
unfolding get_export as_memory
get_memory_export self name = expect (get_export self name) missing_import >>= as_memory

-- One object for each name of the map.
unfoldable pub get_named_exports : ModuleInstanceReferences → String → Outcome (List NamedExtern)
unfolding get_export try_map
get_named_exports self module_name =
    try_map
      (λ (export : String × ModuleExport). expect (get_export self export.0) malformed >>= λ ext.
        ok (record { module_name = module_name; name = export.0; ext = ext }))
      self.exports
