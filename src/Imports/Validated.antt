-- ===== src/Imports/Validated.antt =====
-- wasm-gpu/src/module.rs (`typecheck_imports`): what a successful check validates.
use Prim.Native.String.{String}
use wasm_gpu.Prelude.{
  ◌≡◌, refl, sym, ap, ◌∙◌, ◌↔◌, List, [], ◌∷◌, ◌++◌, ok, assert, expect, >>=-eq-ok, expect-eq-ok,
  assert-eq-ok, ok-injective, append_assoc, append-nil,
}
use wasm_gpu.Functions.{FuncType, UntypedFuncPtr}
use wasm_gpu.Globals.{AbstractGlobalPtr}
use wasm_gpu.Table.{AbstractTablePtr}
use wasm_gpu.Memory.{AbstractMemoryPtr}
use wasm_gpu.Parsing.{ImportTypeRef}
use wasm_gpu.Imports.Matching.{Provides, HasType, import_by_name_iff, import_matches_iff}
use wasm_gpu.Imports.{
  Extern, func, global, table, memory, NamedExtern, ValidatedImports, import_by_name,
  import_matches, no_imports, validate, typecheck_loop, typecheck_imports,
}

-- The objects of one kind.
abbrev pub funcs_of : List Extern → List UntypedFuncPtr
funcs_of [] = []
funcs_of (func f ∷ exts) = f ∷ funcs_of exts
funcs_of (_ ∷ exts) = funcs_of exts

abbrev pub globals_of : List Extern → List AbstractGlobalPtr
globals_of [] = []
globals_of (global g ∷ exts) = g ∷ globals_of exts
globals_of (_ ∷ exts) = globals_of exts

abbrev pub tables_of : List Extern → List AbstractTablePtr
tables_of [] = []
tables_of (table t ∷ exts) = t ∷ tables_of exts
tables_of (_ ∷ exts) = tables_of exts

abbrev pub memories_of : List Extern → List AbstractMemoryPtr
memories_of [] = []
memories_of (memory m ∷ exts) = m ∷ memories_of exts
memories_of (_ ∷ exts) = memories_of exts

-- Validated objects followed by those of a list, kind by kind.
abbrev pub extended : ValidatedImports → List Extern → ValidatedImports
extended v exts = record {
  functions = v.functions ++ funcs_of exts;
  globals = v.globals ++ globals_of exts;
  tables = v.tables ++ tables_of exts;
  memories = v.memories ++ memories_of exts;
}

-- One object for each import: the last one that is provided under its names, of the type that it requires.
abbrev pub Resolved :
    List FuncType → List NamedExtern → List (String × String × ImportTypeRef) → List Extern → Type 0
Resolved types provided [] [] = Unit
Resolved types provided (r ∷ imports) (ext ∷ exts) =
    Provides provided r.0 r.1 ext × HasType types r.2 ext × Resolved types provided imports exts
Resolved types provided _ _ = ⊥

extended-nil : (v : ValidatedImports) → extended v [] ≡ v
extended-nil v =
    rw (append-nil v.functions, append-nil v.globals, append-nil v.tables, append-nil v.memories)
      refl

validate-extended :
    (v : ValidatedImports) (ext : Extern) (exts : List Extern)
    → extended (validate v ext) exts ≡ extended v (ext ∷ exts)
unfolding validate
validate-extended v (func f) exts =
    ap (λ l. record (extended v exts) { functions = l })
      (append_assoc v.functions (f ∷ []) (funcs_of exts))
validate-extended v (global g) exts =
    ap (λ l. record (extended v exts) { globals = l })
      (append_assoc v.globals (g ∷ []) (globals_of exts))
validate-extended v (table t) exts =
    ap (λ l. record (extended v exts) { tables = l })
      (append_assoc v.tables (t ∷ []) (tables_of exts))
validate-extended v (memory m) exts =
    ap (λ l. record (extended v exts) { memories = l })
      (append_assoc v.memories (m ∷ []) (memories_of exts))

loop_complete :
    (types : List FuncType) (provided : List NamedExtern)
    (imports : List (String × String × ImportTypeRef)) (exts : List Extern) (v : ValidatedImports)
    → Resolved types provided imports exts
    → typecheck_loop types provided imports v ≡ ok (extended v exts)
unfolding typecheck_loop
loop_complete types provided [] [] v h = ap ok (sym (extended-nil v))
loop_complete types provided [] (ext ∷ exts) v h = absurd h
loop_complete types provided (r ∷ imports) [] v h = absurd h
loop_complete types provided (r ∷ imports) (ext ∷ exts) v (found, matches, rest) =
    rw
      (
        (import_by_name_iff r.0 r.1 provided ext).1 found,
        (import_matches_iff types r.2 ext).1 matches,
        loop_complete types provided imports exts (validate v ext) rest,
      )
      (ap ok (validate-extended v ext exts))

loop_sound :
    (types : List FuncType) (provided : List NamedExtern)
    (imports : List (String × String × ImportTypeRef)) (v : ValidatedImports) {w : ValidatedImports}
    → typecheck_loop types provided imports v ≡ ok w
    → (exts : List Extern) × Resolved types provided imports exts × (w ≡ extended v exts)
unfolding typecheck_loop
loop_sound types provided [] v h = ([], tt, sym (ok-injective h) ∙ sym (extended-nil v))
loop_sound types provided (r ∷ imports) v h =
    let (ext, e1, h1) = >>=-eq-ok (expect (import_by_name provided r.0 r.1) _) _ h in
    let (matches, e2, h2) = >>=-eq-ok (import_matches types r.2 ext) _ h1 in
    let (u, e3, h3) = >>=-eq-ok (assert matches _) _ h2 in
    let (exts, all, same) = loop_sound types provided imports (validate v ext) h3 in
    (
      ext ∷ exts,
      (
        (import_by_name_iff r.0 r.1 provided ext).0
            (expect-eq-ok (import_by_name provided r.0 r.1) _ e1),
        (import_matches_iff types r.2 ext).0 (e2 ∙ ap ok (assert-eq-ok matches _ e3)),
        all,
      ),
      same ∙ validate-extended v ext exts,
    )

-- The check of the imports succeeds exactly when for every import an object is provided under its two
-- names and the last such object has the kind and the type that it requires, and gives these objects,
-- sorted by kind and in the order of the imports. The type of a function is the one at the index in the
-- module, that of a global has its value type and mutability, and a table its element type; of limits the
-- provided minimum is at most the required one (WebAssembly wants it to be at least that), and there is
-- neither maximum or the provided one is at least the required one.
pub typecheck_imports_iff :
    (types : List FuncType) (imports : List (String × String × ImportTypeRef))
    (provided : List NamedExtern) (v : ValidatedImports)
    → (typecheck_imports types imports provided ≡ ok v) ↔ (
        (exts : List Extern) × Resolved types provided imports exts
        × (v ≡ extended no_imports exts))
unfolding typecheck_imports
typecheck_imports_iff types imports provided v = (
  loop_sound types provided imports no_imports,
  λ (exts, all, same). loop_complete types provided imports exts no_imports all ∙ ap ok (sym same),
)
