-- ===== src/Initialization/Linked.antt =====
-- wasm-gpu/src/module.rs: the functions of a module are registered one after the other and then linked.
use wasm_gpu.Prelude.{
  ℕ, zero, suc, ◌+◌, ◌-◌, ◌≤◌, ◌≡◌, refl, sym, ap, subst, ◌∙◌, List, [], ◌∷◌, ◌++◌, map, length,
  get_elem?, some, true, ok, try_map, arith, append_assoc, append-nil, ==_refl, length-append,
  drop-length_append, >>=-eq-ok, ok-injective,
}
use wasm_gpu.Capability
use wasm_gpu.Capability.Ids
use wasm_gpu.Functions
use wasm_gpu.Functions.{
  FuncType, FuncData, FuncUnit, FuncAccessible, FuncsInstance, UntypedFuncPtr, empty, get,
}
use wasm_gpu.Functions.Linking.{
  linked, with_functions, ptr_at, register_definition_lem, link_function_imports_lem, get_lem,
}
use wasm_gpu.Parsing.{ParsedFunc}
use wasm_gpu.Initialization.Functions.{
  func_data, register_all, link_all, link_bodies, try_initialize_function_definitions,
}

module _ {O : Type 0} where
  -- Pointers to consecutive functions.
  abbrev pub ptrs_from : FuncsInstance O → ℕ → List (FuncData O) → List UntypedFuncPtr
  ptrs_from self n [] = []
  ptrs_from self n (body ∷ bodies) = ptr_at self n body ∷ ptrs_from self (suc n) bodies

  pub length-ptrs_from :
      (self : FuncsInstance O) (n : ℕ) (bodies : List (FuncData O))
      → length (ptrs_from self n bodies) ≡ length bodies
  length-ptrs_from self n [] = refl
  length-ptrs_from self n (body ∷ bodies) = ap suc (length-ptrs_from self (suc n) bodies)

  -- What a collected map of a longer list was made of.
  try_map-cons :
      (types : List FuncType) (f : ParsedFunc O) (parsed : List (ParsedFunc O))
      {bodies : List (FuncData O)}
      → try_map (func_data types) (f ∷ parsed) ≡ ok bodies
      → (b : FuncData O) × (bs : List (FuncData O)) × (func_data types f ≡ ok b)
        × (try_map (func_data types) parsed ≡ ok bs)
        × (b ∷ bs ≡ bodies)
  unfolding try_map
  try_map-cons types f parsed h =
      let (b, e1, h1) = >>=-eq-ok (func_data types f) _ h in
      let (bs, e2, h2) = >>=-eq-ok (try_map (func_data types) parsed) _ h1 in
      (b, bs, e1, e2, ok-injective h2)

  pub length-try_map :
      (types : List FuncType) (parsed : List (ParsedFunc O)) (bodies : List (FuncData O))
      → try_map (func_data types) parsed ≡ ok bodies
      → length bodies ≡ length parsed
  unfolding try_map
  length-try_map types [] bodies h =
      subst (λ (l : List (FuncData O)). length l ≡ 0) (ok-injective h) refl
  length-try_map types (f ∷ parsed) bodies h =
      let (b, bs, e1, e2, e3) = try_map-cons types f parsed h in
      subst (λ l. length l ≡ suc (length parsed)) e3 (ap suc (length-try_map types parsed bs e2))

  -- What registering the bodies gives: their pointers, and the functions with them behind.
  abbrev pub registered :
      FuncsInstance O
      → List (FuncUnit O)
      → ℕ
      → List (FuncData O)
      → List UntypedFuncPtr × FuncsInstance O
  registered self before n bodies =
      (ptrs_from self n bodies, with_functions self (before ++ map (linked empty) bodies))

  pub register_all_lem :
      (types : List FuncType) (parsed : List (ParsedFunc O)) (bodies : List (FuncData O))
      (self : FuncsInstance O) (before : List (FuncUnit O)) (n : ℕ)
      → try_map (func_data types) parsed ≡ ok bodies
      → n ≡ length before
      → n + length parsed ≤ self.capacity
      → register_all types parsed (with_functions self before)
        ≡ ok (registered self before n bodies)
  unfolding register_all try_map
  register_all_lem types [] bodies self before n h e room =
      subst
        (λ bs.
          register_all types [] (with_functions self before) ≡ ok (registered self before n bs))
        (ok-injective h) (rw (append-nil before) refl)
  register_all_lem types (f ∷ parsed) bodies self before n h e room =
      let (b, bs, e1, e2, e3) = try_map-cons types f parsed h in
      let first = register_definition_lem (with_functions self before) b n e (omega arith) in
      let rest =
        register_all_lem types parsed bs self (before ++ linked empty b ∷ []) (suc n) e2
          (omega (arith, length-append before (linked empty b ∷ []))) (omega arith) in
      subst
        (λ bs.
          register_all types (f ∷ parsed) (with_functions self before)
          ≡ ok (registered self before n bs))
        e3
        (rw (e1, first, rest, append_assoc before (linked empty b ∷ []) (map (linked empty) bs))
          refl)

  pub link_all_lem :
      (bodies : List (FuncData O)) (accessible old : FuncAccessible) (self : FuncsInstance O)
      (before : List (FuncUnit O)) (n : ℕ)
      → n ≡ length before
      → Capability.check self.cap_set (Capability.get_cap self.cap_set) ≡ true
      → link_all
          (ptrs_from self n bodies)
          accessible
          (with_functions self (before ++ map (linked old) bodies))
        ≡ ok (with_functions self (before ++ map (linked accessible) bodies))
  unfolding link_all
  link_all_lem [] accessible old self before n e h = refl
  link_all_lem (b ∷ bodies) accessible old self before n e h =
      let step =
        link_function_imports_lem self before (map (linked old) bodies) (linked old b) b accessible
          n e h in
      let rest =
        link_all_lem bodies accessible old self (before ++ linked accessible b ∷ []) (suc n)
          (omega (arith, length-append before (linked accessible b ∷ []))) h in
      rw
        (
          step,
          sym (append_assoc before (linked accessible b ∷ []) (map (linked old) bodies)),
          sym (append_assoc before (linked accessible b ∷ []) (map (linked accessible) bodies)),
        )
        rest

  -- The capability that `reserve` issues is accepted.
  pub reserve-check :
      (reserve_exact : ℕ → ℕ → ℕ → ℕ) (self : FuncsInstance O) (count counter : ℕ)
      → let (reserved, counter') = Functions.reserve reserve_exact self count counter in
        Capability.check reserved.cap_set (Capability.get_cap reserved.cap_set) ≡ true
  unfolding Functions.reserve Capability.resize_ref Capability.check Capability.get_cap
  reserve-check reserve_exact self count counter =
      Ids.contains-insert counter counter
        (Capability.resize_loop (reserve_exact (length self.wasm_functions) self.capacity count)
          self.cap_set.id_sizes [] []).0
      ∙ ground (arith, ==_refl counter)

  -- A body behind the pointer at its place.
  pub get-ptrs_from :
      (bodies : List (FuncData O)) (accessible : FuncAccessible) (self : FuncsInstance O)
      (before : List (FuncUnit O)) (n i : ℕ) (body : FuncData O)
      → n ≡ length before
      → Capability.check self.cap_set (Capability.get_cap self.cap_set) ≡ true
      → get_elem? bodies i ≡ some body
      → (p : UntypedFuncPtr) × (get_elem? (ptrs_from self n bodies) i ≡ some p)
        × (get (with_functions self (before ++ map (linked accessible) bodies)) p
            ≡ ok (linked accessible body))
  get-ptrs_from [] accessible self before n i body e h at_i = cc
  get-ptrs_from (b ∷ bodies) accessible self before n zero body e h at_i = (
    ptr_at self n b,
    refl,
    get_lem self before (map (linked accessible) bodies) (linked accessible b) b n e h
        ∙ ap (λ v. ok (linked accessible v)) (cc),
  )
  get-ptrs_from (b ∷ bodies) accessible self before n (suc i) body e h at_i =
      let (p, found, gives) =
        get-ptrs_from bodies accessible self (before ++ linked accessible b ∷ []) (suc n) i body
          (omega (arith, length-append before (linked accessible b ∷ []))) h at_i in
      (
        p,
        found,
        subst (λ fs. get (with_functions self fs) p ≡ ok (linked accessible body))
            (append_assoc before (linked accessible b ∷ []) (map (linked accessible) bodies)) gives,
      )

  -- Instantiating the functions of a module: when every function has a type of the module and
  -- `reserve_exact` makes the room that it is asked for, `try_initialize_function_definitions` keeps the functions that are there,
  -- appends the bodies in order and returns the imported pointers followed by theirs; the linking loop
  -- on these pointers then succeeds, changes what exactly the new functions access, and the i-th new
  -- pointer gets the i-th body, linked.
  pub functions_linked :
      (reserve_exact : ℕ → ℕ → ℕ → ℕ) (types : List FuncType) (parsed : List (ParsedFunc O))
      (bodies : List (FuncData O)) (self : FuncsInstance O) (imports : List UntypedFuncPtr)
      (counter : ℕ) (accessible : FuncAccessible)
      → try_map (func_data types) parsed ≡ ok bodies
      → ((length_before capacity count : ℕ)
          → length_before + count ≤ reserve_exact length_before capacity count)
      → let (reserved, counter') = Functions.reserve reserve_exact self (length parsed) counter in
        let ptrs = ptrs_from reserved (length self.wasm_functions) bodies in
        let defined = with_functions reserved (self.wasm_functions ++ map (linked empty) bodies) in
        let final =
          with_functions reserved (self.wasm_functions ++ map (linked accessible) bodies) in
        (try_initialize_function_definitions reserve_exact types parsed self imports counter
          ≡ ok (imports ++ ptrs, defined, counter'))
        × (link_bodies parsed (imports ++ ptrs) accessible defined ≡ ok final)
        × ((i : ℕ) (body : FuncData O)
            → get_elem? bodies i ≡ some body
            → (p : UntypedFuncPtr) × (get_elem? ptrs i ≡ some p)
              × (get final p ≡ ok (linked accessible body)))
  unfolding try_initialize_function_definitions link_bodies Functions.reserve
  functions_linked reserve_exact types parsed bodies self imports counter accessible h room =
      let reserved = (Functions.reserve reserve_exact self (length parsed) counter).0 in
      let n = length self.wasm_functions in
      let ptrs = ptrs_from reserved n bodies in
      let ok_cap = reserve-check reserve_exact self (length parsed) counter in
      (
        rw
            (register_all_lem types parsed bodies reserved self.wasm_functions n h refl
              (room n self.capacity (length parsed)))
            refl,
        rw
            (drop-length_append imports ptrs (length (imports ++ ptrs) - length parsed) (
              omega (
                arith,
                length-append imports ptrs,
                length-ptrs_from reserved n bodies,
                length-try_map types parsed bodies h,
              )))
            (link_all_lem bodies accessible empty reserved self.wasm_functions n refl ok_cap),
        λ i body at_i.
            get-ptrs_from bodies accessible reserved self.wasm_functions n i body refl ok_cap at_i,
      )
