-- ===== src/StoreSet/Instantiated.antt =====
-- wasm-gpu/src/store_set/builder.rs (`instantiate_module`): the index spaces of a module instance.
use wasm_gpu.Prelude.{
  ℕ, suc, ◌≡◌, refl, sym, ap, ◌∙◌, Bool, List, [], ◌∷◌, ◌++◌, length, ok, err, >>=-eq-ok,
  >>=_ensures, ok-injective,
}
use wasm_gpu.Buffers.{LazyBuffers}
use wasm_gpu.Typed.{RefType}
use wasm_gpu.Table.{TableInstanceSetBuilder, AbstractTablePtr}
use wasm_gpu.Memory.{MemoryType, MemoryInstanceSetBuilder, AbstractMemoryPtr}
use wasm_gpu.Globals.{GlobalsBuilder, AbstractGlobalPtr}
use wasm_gpu.Elements.{ElementInstance, ElementPtr}
use wasm_gpu.Data.{DataInstance, DataPtr}
use wasm_gpu.Functions
use wasm_gpu.Functions.{FuncType, FuncsInstance, UntypedFuncPtr, register_definition}
use wasm_gpu.Constexpr.{Environment}
use wasm_gpu.Parsing.{Global, ParsedFunc, ParsedTable, ParsedElement, ParsedData, ParsedModule}
use wasm_gpu.Imports.{Extern, NamedExtern, ModuleInstanceReferences, typecheck_imports}
use wasm_gpu.Imports.Validated.{
  Resolved, funcs_of, globals_of, tables_of, memories_of, typecheck_imports_iff,
}
use wasm_gpu.Initialization.Globals.{try_initialize_globals}
use wasm_gpu.Initialization.Panics.{try_initialize_globals_panics}
use wasm_gpu.Initialization.Segments.{try_initialize_elements, try_initialize_datas}
use wasm_gpu.Initialization.Tables.{
  add_tables, try_initialize_tables, add_memories, try_initialize_memories, initialize_tables,
  initialize_memories,
}
use wasm_gpu.Initialization.Functions.{
  func_data, register_all, link_bodies, start_fn, try_initialize_function_definitions,
}
use wasm_gpu.Functions.Accessible.{FuncAccessiblePtrs, to_indices}
use wasm_gpu.StoreSet.{StoreSetBuilder, instantiate_module}

-- A list of pointers that starts with imported ones and goes on with a pointer for each definition.
abbrev pub Indexes {ℓ κ} : {A : Type ℓ} {B : Type κ} → List A → List B → List A → Type ℓ
Indexes {A = A} imported defined all =
    (own : List A) × (all ≡ imported ++ own) × (length own ≡ length defined)

Indexes-cast {ℓ κ} :
    {A : Type ℓ} {B : Type κ} {imported imported' : List A} (defined : List B) {all all' : List A}
    → imported ≡ imported'
    → all ≡ all'
    → Indexes imported defined all
    → Indexes imported' defined all'
Indexes-cast defined e f (own, same, len) = (own, sym f ∙ same ∙ ap (λ l. l ++ own) e, len)

module _ {O : Type 0} where
  length-register_all :
      (types : List FuncType) (parsed : List (ParsedFunc O)) (functions : FuncsInstance O)
      {r : List UntypedFuncPtr × FuncsInstance O}
      → register_all types parsed functions ≡ ok r
      → length r.0 ≡ length parsed
  unfolding register_all
  length-register_all types [] functions h =
      sym (ap (λ (r : List UntypedFuncPtr × FuncsInstance O). length r.0) (ok-injective h))
  length-register_all types (f ∷ parsed) functions h =
      let (b, e1, h1) = >>=-eq-ok (func_data types f) _ h in
      let (registered, e2, h2) = >>=-eq-ok (register_definition functions b) _ h1 in
      let (more, e3, h3) = >>=-eq-ok (register_all types parsed registered.1) _ h2 in
      sym (ap (λ (r : List UntypedFuncPtr × FuncsInstance O). length r.0) (ok-injective h3))
      ∙ ap suc (length-register_all types parsed registered.1 e3)

  definitions-Indexes :
      (reserve_exact : ℕ → ℕ → ℕ → ℕ) (types : List FuncType) (parsed : List (ParsedFunc O))
      (functions : FuncsInstance O) (imports : List UntypedFuncPtr) (counter : ℕ)
      {r : List UntypedFuncPtr × FuncsInstance O × ℕ}
      → try_initialize_function_definitions reserve_exact types parsed functions imports counter
        ≡ ok r
      → Indexes imports parsed r.0
  unfolding try_initialize_function_definitions
  definitions-Indexes reserve_exact types parsed functions imports counter h =
      let reserved = (Functions.reserve reserve_exact functions (length parsed) counter).0 in
      let (registered, e1, h1) = >>=-eq-ok (register_all types parsed reserved) _ h in
      (
        registered.0,
        sym (ap (λ (r : List UntypedFuncPtr × FuncsInstance O × ℕ). r.0) (ok-injective h1)),
        length-register_all types parsed reserved e1,
      )

module _ (B : LazyBuffers) where
  globals_only_imported :
      (globals : List Global) (muts imms : GlobalsBuilder B) (imports : List AbstractGlobalPtr)
      (funcs : List UntypedFuncPtr) (counter : ℕ)
      {r : List AbstractGlobalPtr × GlobalsBuilder B × GlobalsBuilder B × ℕ}
      → try_initialize_globals B globals muts imms imports funcs counter ≡ ok r
      → (globals ≡ []) × (r.0 ≡ imports)
  globals_only_imported [] muts imms imports funcs counter h = (
    refl,
    ap (λ (r : List AbstractGlobalPtr × GlobalsBuilder B × GlobalsBuilder B × ℕ). r.0)
        (ok-injective
          (sym h ∙ (try_initialize_globals_panics B muts imms imports funcs counter).1)),
  )
  globals_only_imported (g ∷ globals) muts imms imports funcs counter h = absurd (
      err_not_ok
        (sym ((try_initialize_globals_panics B muts imms imports funcs counter).0 g globals) ∙ h))
    where
      err_not_ok : {A : Type 0} {f : _} {a : A} → err f ≡ ok a → ⊥
      err_not_ok e = cc

  length-add_tables :
      (plans : List ParsedTable) (tables : TableInstanceSetBuilder B) (counter : ℕ)
      → length (add_tables B plans tables counter).0 ≡ length plans
  unfolding add_tables
  length-add_tables [] tables counter = refl
  length-add_tables (plan ∷ plans) tables counter = ap suc (length-add_tables plans _ _)

  length-add_memories :
      (plans : List MemoryType) (memories : MemoryInstanceSetBuilder B) (counter : ℕ)
      → length (add_memories B plans memories counter).0 ≡ length plans
  unfolding add_memories
  length-add_memories [] memories counter = refl
  length-add_memories (plan ∷ plans) memories counter = ap suc (length-add_memories plans _ _)

  tables-Indexes :
      (env : Environment B) (plans : List ParsedTable) (imported : List AbstractTablePtr)
      (elements : ElementInstance B) (parsed : List ParsedElement) (ptrs : List ElementPtr)
      (tables : TableInstanceSetBuilder B) (counter : ℕ)
      {r : List AbstractTablePtr × TableInstanceSetBuilder B × ℕ}
      → try_initialize_tables B env plans imported elements parsed ptrs tables counter ≡ ok r
      → Indexes imported plans r.0
  unfolding try_initialize_tables
  tables-Indexes env plans imported elements parsed ptrs tables counter h =
      let added = add_tables B plans tables counter in
      let (done, e, h1) =
        >>=-eq-ok (initialize_tables B env (imported ++ added.0) elements parsed ptrs added.1) _
          h in
      (
        added.0,
        sym (
            ap (λ (r : List AbstractTablePtr × TableInstanceSetBuilder B × ℕ). r.0)
              (ok-injective h1)),
        length-add_tables plans tables counter,
      )

  memories-Indexes :
      (env : Environment B) (plans : List MemoryType) (imported : List AbstractMemoryPtr)
      (datas : DataInstance B) (parsed : List ParsedData) (ptrs : List DataPtr)
      (memories : MemoryInstanceSetBuilder B) (counter : ℕ)
      {r : List AbstractMemoryPtr × MemoryInstanceSetBuilder B × ℕ}
      → try_initialize_memories B env plans imported datas parsed ptrs memories counter ≡ ok r
      → Indexes imported plans r.0
  unfolding try_initialize_memories
  memories-Indexes env plans imported datas parsed ptrs memories counter h =
      let added = add_memories B plans memories counter in
      let (done, e, h1) =
        >>=-eq-ok (initialize_memories B env (imported ++ added.0) datas parsed ptrs added.1) _ h in
      (
        added.0,
        sym (
            ap (λ (r : List AbstractMemoryPtr × MemoryInstanceSetBuilder B × ℕ). r.0)
              (ok-injective h1)),
        length-add_memories plans memories counter,
      )

-- What is known of an instance: objects that were provided for the imports, and what each index leads to.
abbrev Instantiates :
    {O : Type 0} → ParsedModule O → List NamedExtern → ModuleInstanceReferences → Type 0
Instantiates parsed imports inst =
    (exts : List Extern) × Resolved parsed.types imports parsed.imports exts
    × (parsed.globals ≡ [])
    × Indexes (funcs_of exts) parsed.functions inst.funcs
    × Indexes (tables_of exts) parsed.tables inst.tables
    × Indexes (memories_of exts) parsed.memories inst.memories
    × (inst.globals ≡ globals_of exts)
    × (inst.exports ≡ parsed.exports)

module _ (B : LazyBuffers) {O : Type 0} where
  -- What constant expressions are evaluated in, and what the functions can name.
  abbrev env_of :
      List UntypedFuncPtr × FuncsInstance O × ℕ
      → List AbstractGlobalPtr × GlobalsBuilder B × GlobalsBuilder B × ℕ
      → Environment B
  env_of funcs globals = record {
    mutable_globals = globals.1;
    immutable_globals = globals.2;
    global_ptrs = globals.0;
    func_ptrs = funcs.0;
  }

  abbrev ptrs_of :
      List UntypedFuncPtr × FuncsInstance O × ℕ
      → List AbstractGlobalPtr × GlobalsBuilder B × GlobalsBuilder B × ℕ
      → List ElementPtr × ElementInstance B × ℕ
      → List AbstractTablePtr × TableInstanceSetBuilder B × ℕ
      → List DataPtr × DataInstance B × ℕ
      → List AbstractMemoryPtr × MemoryInstanceSetBuilder B × ℕ
      → FuncAccessiblePtrs
  ptrs_of funcs globals elements tables datas memories = record {
    func_index_lookup = funcs.0;
    global_index_lookup = globals.0;
    element_index_lookup = elements.0;
    table_index_lookup = tables.0;
    data_index_lookup = datas.0;
    memory_index_lookup = memories.0;
  }

  -- When a module is instantiated, an object that its check accepts was provided for each import, the
  -- module defines no globals of its own, and the functions, tables and memories of the instance are the
  -- imported ones followed by one for each that the module defines; its globals are the imported ones.
  pub instantiate_module-Indexes :
      (is_func_ref : RefType → Bool) (reserve_exact : ℕ → ℕ → ℕ → ℕ) (self : StoreSetBuilder B O)
      (parsed : ParsedModule O) (imports : List NamedExtern) (counter : ℕ)
      (result : ModuleInstanceReferences × StoreSetBuilder B O × ℕ)
      → instantiate_module B is_func_ref reserve_exact self parsed imports counter ≡ ok result
      → (exts : List Extern) × Resolved parsed.types imports parsed.imports exts
        × (parsed.globals ≡ [])
        × Indexes (funcs_of exts) parsed.functions result.0.funcs
        × Indexes (tables_of exts) parsed.tables result.0.tables
        × Indexes (memories_of exts) parsed.memories result.0.memories
        × (result.0.globals ≡ globals_of exts)
        × (result.0.exports ≡ parsed.exports)
  unfolding instantiate_module
  instantiate_module-Indexes is_func_ref reserve_exact self parsed imports counter =
      let P : ModuleInstanceReferences × StoreSetBuilder B O × ℕ → Type 0 =
        λ r. Instantiates parsed imports r.0 in
      >>=_ensures P (typecheck_imports parsed.types parsed.imports imports) _ (λ v e1.
        >>=_ensures P
          (try_initialize_function_definitions reserve_exact parsed.types parsed.functions
            self.functions v.functions counter)
          _
          (λ funcs e2.
            >>=_ensures P
              (try_initialize_globals B parsed.globals self.mutable_globals self.immutable_globals
                v.globals funcs.0 funcs.2)
              _
              (λ globals e3.
                >>=_ensures P
                  (try_initialize_elements B is_func_ref (env_of funcs globals) parsed.elements
                    self.elements globals.3)
                  _
                  (λ elements e4.
                    >>=_ensures P
                      (try_initialize_tables B (env_of funcs globals) parsed.tables v.tables
                        elements.1 parsed.elements elements.0 self.tables elements.2)
                      _
                      (λ tables e5.
                        >>=_ensures P (try_initialize_datas B parsed.datas self.datas tables.2) _
                          (λ datas e6.
                            >>=_ensures P
                              (try_initialize_memories B (env_of funcs globals) parsed.memories
                                v.memories datas.1 parsed.datas datas.0 self.memories datas.2)
                              _
                              (λ memories e7.
                                >>=_ensures P
                                  (to_indices
                                    (ptrs_of funcs globals elements tables datas memories))
                                  _
                                  (λ accessible e8.
                                    >>=_ensures P
                                      (link_bodies parsed.functions funcs.0 accessible funcs.1) _
                                      (λ functions e9.
                                        >>=_ensures P (start_fn parsed.start_func funcs.0) _
                                          (λ start e10 r h.
                                            let (exts, all, sorted) =
                                              (typecheck_imports_iff parsed.types parsed.imports
                                                  imports v).0
                                                e1 in
                                            let (none_own, only) =
                                              globals_only_imported B parsed.globals
                                                self.mutable_globals self.immutable_globals
                                                v.globals funcs.0 funcs.2 e3 in
                                            let same : _ ≡ r.0 = ap (λ x. x.0) (ok-injective h) in
                                            (
                                              exts,
                                              all,
                                              none_own,
                                              Indexes-cast parsed.functions
                                                  (ap (λ w. w.functions) sorted)
                                                  (ap (λ i. i.funcs) same)
                                                  (definitions-Indexes reserve_exact parsed.types
                                                    parsed.functions self.functions v.functions
                                                    counter e2),
                                              Indexes-cast parsed.tables (ap (λ w. w.tables) sorted)
                                                  (ap (λ i. i.tables) same)
                                                  (tables-Indexes B (env_of funcs globals)
                                                    parsed.tables v.tables elements.1
                                                    parsed.elements elements.0 self.tables
                                                    elements.2 e5),
                                              Indexes-cast parsed.memories
                                                  (ap (λ w. w.memories) sorted)
                                                  (ap (λ i. i.memories) same)
                                                  (memories-Indexes B (env_of funcs globals)
                                                    parsed.memories v.memories datas.1 parsed.datas
                                                    datas.0 self.memories datas.2 e7),
                                              sym (ap (λ i. i.globals) same)
                                                  ∙ only
                                                  ∙ ap (λ w. w.globals) sorted,
                                              sym (ap (λ i. i.exports) same),
                                            )))))))))))
