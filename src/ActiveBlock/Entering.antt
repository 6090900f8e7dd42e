-- ===== src/ActiveBlock/Entering.antt =====
-- active_block.rs (`ActiveBlock::new`): what the variables and the stack of a block hold when it is entered.
use wasm_gpu.Prelude.{
  ℕ, suc, ◌≤◌, ◌≡◌, refl, ap, ◌∙◌, List, [], ◌∷◌, ◌++◌, map, length, length-append, get_elem?,
  Option, some, arith,
}
use wasm_gpu.Typed.{ValType}
use wasm_gpu.LinkedStack.{LinkedStack}
use wasm_gpu.ControlFlow.{BlockType}
use wasm_gpu.Naga.{
  BlockContext, LocalVariable, should_emit, Expression, NagaType, val_ty, bool_ty, constant,
  default_value, local_variable, load, append_expr, new_local, store, store_statement,
}
use wasm_gpu.Naga.Machine.{Gpu, Machine, update, value, exec_statement}
use wasm_gpu.Naga.Emission.{Within}
use wasm_gpu.ActiveBlock.{BodyData, BlockLabel}
use wasm_gpu.ActiveBlock.Blocks.{
  append_local, append_all_locals, get_label, push_loads, new, store_all, reverse_onto,
}
use wasm_gpu.ActiveBlock.Running.{Running, append-Running, forget, Within-before}
use wasm_gpu.ActiveBlock.Statements.{append_load_local, push-Running}

-- Each pointer is that of the variable beside it, which was declared after the first `n`.
abbrev pub Point : List Expression → ℕ → List ℕ → List ℕ → Type 0
Point arena n [] [] = Unit
Point arena n (p ∷ ps) (x ∷ xs) =
    (get_elem? arena p ≡ some (local_variable x)) × (n ≤ x) × Point arena n ps xs
Point arena n _ _ = ⊥

module _ {V W : Type 0} (gpu : Gpu V W) (arena : List Expression) (fuel : ℕ)
    (start : Machine V W) where
  -- What runs does not depend on the variables that are declared.
  relocal :
      (ctx : BlockContext) (locals : List LocalVariable) (known : List (ℕ × V)) (vars : ℕ → V)
      (w : W)
      → Running gpu arena fuel start ctx known vars w
      → Running gpu arena fuel start (record ctx { locals = locals }) known vars w
  relocal ctx locals known vars w r = record {
    machine = r.machine;
    runs = r.runs;
    ordered = r.ordered;
    knows = r.knows;
    variables = r.variables;
    world = r.world;
  }

  Within-local :
      (ctx : BlockContext) (ty : NagaType) (init : ℕ)
      → Within arena (append_local ctx ty init).1.expressions
      → Within arena ctx.expressions
  unfolding append_local new_local
  Within-local ctx ty init within = Within-before arena _ _ within

  length-append_local :
      (ctx : BlockContext) (ty : NagaType) (init : ℕ)
      → length (append_local ctx ty init).1.locals ≡ suc (length ctx.locals)
  unfolding append_local new_local append_expr should_emit
  length-append_local ctx ty init =
      length-append ctx.locals (record { ty = ty; init = some init } ∷ []) ∙ omega arith

  append_local-Running :
      (ctx : BlockContext) (ty : NagaType) (init : ℕ) (known : List (ℕ × V)) (vars : ℕ → V) (w : W)
      → Running gpu arena fuel start ctx known vars w
      → Within arena (append_local ctx ty init).1.expressions
      → Running gpu arena fuel start (append_local ctx ty init).1 known vars w
        × (get_elem? arena (append_local ctx ty init).0 ≡ some (local_variable (length ctx.locals)))
  unfolding append_local new_local
  append_local-Running ctx ty init known vars w r within =
      let ctx' = record ctx { locals = ctx.locals ++ record { ty = ty; init = some init } ∷ [] } in
      let (found, r', _) =
        append-Running gpu arena fuel start ctx' (local_variable (length ctx.locals)) known vars w
          (relocal ctx _ known vars w r) within in
      (r', found)

  Within-locals :
      (ctx : BlockContext) (tys : List ValType)
      → Within arena (append_all_locals ctx tys).1.expressions
      → Within arena ctx.expressions
  unfolding append_all_locals
  Within-locals ctx [] within = within
  Within-locals ctx (ty ∷ tys) within =
      let c1 = append_expr ctx (constant (default_value ty)) in
      let c2 = append_local c1.1 (val_ty ty) c1.0 in
      Within-before arena ctx _ (Within-local c1.1 (val_ty ty) c1.0 (Within-locals c2.1 tys within))

  length-append_constant :
      (ctx : BlockContext) (ty : ValType)
      → length (append_expr ctx (constant (default_value ty))).1.locals ≡ length ctx.locals
  unfolding append_expr should_emit
  length-append_constant ctx ty = refl

  append_all_locals-Running :
      (n : ℕ) (ctx : BlockContext) (tys : List ValType) (known : List (ℕ × V)) (vars : ℕ → V)
      (w : W)
      → n ≤ length ctx.locals
      → Running gpu arena fuel start ctx known vars w
      → Within arena (append_all_locals ctx tys).1.expressions
      → Running gpu arena fuel start (append_all_locals ctx tys).1 known vars w
        × (xs : List ℕ) × Point arena n (append_all_locals ctx tys).0 xs
  unfolding append_all_locals
  append_all_locals-Running n ctx [] known vars w le r within = (r, [], tt)
  append_all_locals-Running n ctx (ty ∷ tys) known vars w le r within =
      let e1 = constant (default_value ty) in
      let c1 = append_expr ctx e1 in
      let c2 = append_local c1.1 (val_ty ty) c1.0 in
      let w2 = Within-locals c2.1 tys within in
      let w1 = Within-local c1.1 (val_ty ty) c1.0 w2 in
      let (_, r1, _) = append-Running gpu arena fuel start ctx e1 known vars w r w1 in
      let (r2, found) = append_local-Running c1.1 (val_ty ty) c1.0 known vars w r1 w2 in
      let (r3, xs, points) =
        append_all_locals-Running n c2.1 tys known vars w
          (omega
            (arith, le, length-append_local c1.1 (val_ty ty) c1.0, length-append_constant ctx ty))
          r2 within in
      (
        r3,
        length c1.1.locals ∷ xs,
        (found, omega (arith, le, length-append_constant ctx ty), points),
      )

  Within-loads :
      (ctx : BlockContext) (pointers stack : List ℕ)
      → Within arena (push_loads ctx pointers stack).1.expressions
      → Within arena ctx.expressions
  unfolding push_loads
  Within-loads ctx [] stack within = within
  Within-loads ctx (p ∷ ps) stack within =
      let c = append_expr ctx (load p) in
      Within-before arena ctx (load p) (Within-loads c.1 ps (c.0 ∷ stack) within)

  -- Loading variables puts their values onto the stack, the last one on top.
  push_loads-Running :
      (n : ℕ) (ctx : BlockContext) (pointers xs zs : List ℕ) (known : List (ℕ × V)) (vars : ℕ → V)
      (w : W)
      → Point arena n pointers xs
      → map (λ p. p.1) known ≡ map vars zs
      → Running gpu arena fuel start ctx known vars w
      → Within arena (push_loads ctx pointers (map (λ p. p.0) known)).1.expressions
      → (known' : List (ℕ × V)) × Running gpu arena fuel start
          (push_loads ctx pointers (map (λ p. p.0) known)).1
          known'
          vars
          w
        × ((push_loads ctx pointers (map (λ p. p.0) known)).0 ≡ map (λ p. p.0) known')
        × (map (λ p. p.1) known' ≡ map vars (reverse_onto xs zs))
  unfolding push_loads reverse_onto
  push_loads-Running n ctx [] [] zs known vars w points e r within = (known, r, refl, e)
  push_loads-Running n ctx [] (x ∷ xs) zs known vars w points e r within = absurd points
  push_loads-Running n ctx (p ∷ ps) [] zs known vars w points e r within = absurd points
  push_loads-Running n ctx (p ∷ ps) (x ∷ xs) zs known vars w points e r within =
      let c = append_expr ctx (load p) in
      let w1 = Within-loads c.1 ps (c.0 ∷ map (λ p. p.0) known) within in
      let r1 = append_load_local gpu arena fuel start ctx p x known vars w points.0 r w1 in
      push_loads-Running n c.1 ps xs (x ∷ zs) ((c.0, vars x) ∷ known) vars w points.2
        (ap (◌∷◌ (vars x)) e) r1 within

  -- A store into a variable keeps all known values, whatever it stores.
  store_any :
      (ctx : BlockContext) (pointer x h : ℕ) (known : List (ℕ × V)) (vars : ℕ → V) (w : W)
      → get_elem? arena pointer ≡ some (local_variable x)
      → Running gpu arena fuel start ctx known vars w
      → (vars' : ℕ → V) × Running gpu arena fuel start (store ctx pointer h) known vars' w
  unfolding store exec_statement value
  store_any ctx pointer x h known vars w found r =
      let m = r.machine in
      (
        update m.variables x (value gpu arena m h),
        push-Running gpu arena fuel start ctx (store_statement pointer h) known known vars _ w w r
            (record m { variables = update m.variables x (value gpu arena m h) }) tt (rw found refl)
            r.knows refl r.world,
      )

  pub store_all-Running :
      (n : ℕ) (ctx : BlockContext) (values pointers xs : List ℕ) (known : List (ℕ × V))
      (vars : ℕ → V) (w : W)
      → Point arena n pointers xs
      → Running gpu arena fuel start ctx known vars w
      → (vars' : ℕ → V) × Running gpu arena fuel start (store_all ctx values pointers) known vars' w
  unfolding store_all
  store_all-Running n ctx [] ps xs known vars w points r = (vars, r)
  store_all-Running n ctx (v ∷ vs) [] xs known vars w points r = (vars, r)
  store_all-Running n ctx (v ∷ vs) (p ∷ ps) [] known vars w points r = absurd points
  store_all-Running n ctx (v ∷ vs) (p ∷ ps) (x ∷ xs) known vars w points r =
      let (vars', r') = store_any ctx p x v known vars w points.0 r in
      store_all-Running n (store ctx p v) vs ps xs known vars' w points.2 r'

  pub new-Running :
      (ctx : BlockContext) (block_type : BlockType) (body : BodyData)
      (parents : Option (LinkedStack BlockLabel)) (known : List (ℕ × V)) (vars : ℕ → V) (w : W)
      → Running gpu arena fuel start ctx known vars w
      → let inner = new ctx block_type body parents in
        Within arena inner.ctx.expressions
        → (xs : List ℕ) × Point arena (length ctx.locals) inner.arguments xs
          × (known' : List (ℕ × V)) × Running gpu arena fuel start inner.ctx known' vars w
          × (inner.stack ≡ map (λ p. p.0) known')
          × (map (λ p. p.1) known' ≡ map vars (reverse_onto xs []))
  unfolding new get_label
  new-Running ctx block_type body parents known vars w r within =
      let n = length ctx.locals in
      let c1 = append_local ctx bool_ty body.false_expr in
      let c2 = append_all_locals c1.1 block_type.arguments in
      let c3 = append_all_locals c2.1 block_type.results in
      let w3 = Within-loads c3.1 c2.0 [] within in
      let w2 = Within-locals c2.1 block_type.results w3 in
      let w1 = Within-locals c1.1 block_type.arguments w2 in
      let (r1, _) = append_local-Running ctx bool_ty body.false_expr known vars w r w1 in
      let (r2, xs, points) =
        append_all_locals-Running n c1.1 block_type.arguments known vars w
          (omega (arith, length-append_local ctx bool_ty body.false_expr)) r1 w2 in
      let (r3, _, _) =
        append_all_locals-Running 0 c2.1 block_type.results known vars w (omega arith) r2 w3 in
      let r4 = forget gpu arena fuel start c3.1 known [] vars w r3 tt in
      let (known', r5, handles, values) =
        push_loads-Running n c3.1 c2.0 xs [] [] vars w points refl r4 within in
      (xs, points, known', r5, handles, values)
