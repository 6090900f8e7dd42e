-- ===== src/ActiveBlock/Running.antt =====
-- What is known of a run of the block that a context has built so far: its state, and the values of
-- some handles.
use wasm_gpu.Prelude.{
  ℕ, suc, ◌≤◌, ◌<◌, ◌≡◌, refl, ap, subst, ◌∙◌, ==_refl, Bool-cases, inl, inr, true, if◌then◌else◌,
  List, [], ◌∷◌, map, length, All, length-append, get_elem?, none, some, arith,
}
use wasm_gpu.Naga.{Expression, BlockContext, should_emit, append_expr}
use wasm_gpu.Naga.Machine.{
  Gpu, Machine, falls, andthen, update, value_or, static_value, value, evaluate, emit_one,
  exec_block,
}
use wasm_gpu.Naga.Emission.{
  Within, LastOrdered, Within-append, append_expr-expressions, append_expr-LastOrdered, appended,
  append_expr-exec,
}

-- A list of expressions that grew by one is longer by one.
pub length-append_expr :
    (ctx : BlockContext) (e : Expression)
    → length (append_expr ctx e).1.expressions ≡ suc (length ctx.expressions)
length-append_expr ctx e =
    ap length (append_expr-expressions ctx e) ∙ length-append ctx.expressions (e ∷ []) ∙ omega arith

pub Within-before :
    (arena : List Expression) (ctx : BlockContext) (e : Expression)
    → Within arena (append_expr ctx e).1.expressions
    → Within arena ctx.expressions
Within-before arena ctx e w =
    Within-append arena ctx.expressions (e ∷ [])
      (subst (Within arena) (append_expr-expressions ctx e) w)

module _ {V W : Type 0} (gpu : Gpu V W) (arena : List Expression) (fuel : ℕ)
    (start : Machine V W) where
  pub record Running (ctx : BlockContext) (known : List (ℕ × V)) (vars : ℕ → V) (w : W)
      : Type 0 where
    pub machine : Machine V W
    pub runs : exec_block gpu arena fuel ctx.block start ≡ (machine, falls)
    pub ordered : LastOrdered ctx.block
    pub knows :
        All (λ p. (p.0 < length ctx.expressions) × (value gpu arena machine p.0 ≡ p.1)) known
    pub variables : machine.variables ≡ vars
    pub world : machine.world ≡ w

  -- Setting the value of another handle changes none.
  pub value-update :
      (m : Machine V W) (h k : ℕ) (v : V)
      → k < h
      → value gpu arena (record m { values = update m.values h v }) k ≡ value gpu arena m k
  unfolding value
  value-update m h k v lt =
      ap (value_or (static_value gpu arena (get_elem? arena k))) (ground arith)

  value-appended :
      (ctx : BlockContext) (e : Expression) (m : Machine V W) (k : ℕ)
      → k < length ctx.expressions
      → value gpu arena (appended gpu arena ctx e m) k ≡ value gpu arena m k
  unfolding emit_one
  value-appended ctx e m k lt = elim (Bool-cases (should_emit e)) [
    | inl b ↦ rw b (value-update m (length ctx.expressions) k _ lt)
    | inr b ↦ rw b refl
  ]

  appended-variables :
      (ctx : BlockContext) (e : Expression) (m : Machine V W)
      → (appended gpu arena ctx e m).variables ≡ m.variables
  unfolding emit_one
  appended-variables ctx e m = elim (Bool-cases (should_emit e)) [
    | inl b ↦ rw b refl
    | inr b ↦ rw b refl
  ]

  appended-world :
      (ctx : BlockContext) (e : Expression) (m : Machine V W)
      → (appended gpu arena ctx e m).world ≡ m.world
  unfolding emit_one
  appended-world ctx e m = elim (Bool-cases (should_emit e)) [
    | inl b ↦ rw b refl
    | inr b ↦ rw b refl
  ]

  -- What is known of the values of a context's handles.
  abbrev pub Knows : ℕ → Machine V W → List (ℕ × V) → Type 0
  Knows n m known = All (λ p. (p.0 < n) × (value gpu arena m p.0 ≡ p.1)) known

  pub Knows-kept :
      (n n' : ℕ) (m m' : Machine V W) (known : List (ℕ × V))
      → n ≤ n'
      → ((k : ℕ) → k < n → value gpu arena m' k ≡ value gpu arena m k)
      → Knows n m known
      → Knows n' m' known
  Knows-kept n n' m m' [] le same h = tt
  Knows-kept n n' m m' (p ∷ known) le same h =
      ((omega (arith, h.0.0), same p.0 h.0.0 ∙ h.0.1), Knows-kept n n' m m' known le same h.1)

  -- The values of handles that are known.
  pub values-Knows :
      (n : ℕ) (m : Machine V W) (known : List (ℕ × V))
      → Knows n m known
      → map (value gpu arena m) (map (λ p. p.0) known) ≡ map (λ p. p.1) known
  values-Knows n m [] k = refl
  values-Knows n m (p ∷ known) k = rw (k.0.1, values-Knows n m known k.1) refl

  -- An appended expression: the machine that is left, and where the expression is.
  pub append-Running :
      (ctx : BlockContext) (e : Expression) (known : List (ℕ × V)) (vars : ℕ → V) (w : W)
      → (r : Running ctx known vars w) → Within arena (append_expr ctx e).1.expressions
      → (get_elem? arena (append_expr ctx e).0 ≡ some e)
        × (r' : Running (append_expr ctx e).1 known vars w) × (r'.machine
            ≡ appended gpu arena ctx e r.machine)
  append-Running ctx e known vars w r within =
      let (found, ran) = append_expr-exec gpu arena fuel ctx e start r.ordered within in
      (
        found,
        record {
          machine = appended gpu arena ctx e r.machine;
          runs = ran ∙ ap (λ x. andthen x (λ m. (appended gpu arena ctx e m, falls))) r.runs;
          ordered = append_expr-LastOrdered ctx e r.ordered;
          knows =
              Knows-kept (length ctx.expressions) (length (append_expr ctx e).1.expressions)
                r.machine (appended gpu arena ctx e r.machine) known
                (omega (arith, length-append_expr ctx e)) (value-appended ctx e r.machine) r.knows;
          variables = appended-variables ctx e r.machine ∙ r.variables;
          world = appended-world ctx e r.machine ∙ r.world;
        },
        refl,
      )

  -- One more known value.
  pub know :
      (ctx : BlockContext) (known : List (ℕ × V)) (vars : ℕ → V) (w : W) (h : ℕ) (v : V)
      → (r : Running ctx known vars w) → h < length ctx.expressions
      → value gpu arena r.machine h ≡ v
      → Running ctx ((h, v) ∷ known) vars w
  know ctx known vars w h v r lt e = record {
    machine = r.machine;
    runs = r.runs;
    ordered = r.ordered;
    knows = ((lt, e), r.knows);
    variables = r.variables;
    world = r.world;
  }

  -- Fewer known values.
  pub forget :
      (ctx : BlockContext) (known known' : List (ℕ × V)) (vars : ℕ → V) (w : W)
      → (r : Running ctx known vars w) → Knows (length ctx.expressions) r.machine known'
      → Running ctx known' vars w
  forget ctx known known' vars w r knows = record {
    machine = r.machine;
    runs = r.runs;
    ordered = r.ordered;
    knows = knows;
    variables = r.variables;
    world = r.world;
  }

  -- An expression whose value is not found by emitting it.
  pub append_static :
      (ctx : BlockContext) (e : Expression) (known : List (ℕ × V)) (vars : ℕ → V) (w : W) (v : V)
      → static_value gpu arena (some e) ≡ some v
      → Running ctx known vars w
      → Within arena (append_expr ctx e).1.expressions
      → Running (append_expr ctx e).1 (((append_expr ctx e).0, v) ∷ known) vars w
  unfolding value append_expr
  append_static ctx e known vars w v static r within =
      let (found, r', same) = append-Running ctx e known vars w r within in
      know (append_expr ctx e).1 known vars w (length ctx.expressions) v r'
        (omega (arith, length-append_expr ctx e))
        (ap (λ o. value_or (static_value gpu arena o) (r'.machine.values (length ctx.expressions)))
            found
          ∙ ap (λ o. value_or o (r'.machine.values (length ctx.expressions))) static)

  -- An expression that is emitted has the value that it is evaluated to.
  pub append_emitted :
      (ctx : BlockContext) (e : Expression) (known : List (ℕ × V)) (vars : ℕ → V) (w : W) (v : V)
      → should_emit e ≡ true
      → static_value gpu arena (some e) ≡ none
      → ((m : Machine V W)
          → Knows (length ctx.expressions) m known
          → m.variables ≡ vars
          → m.world ≡ w
          → evaluate gpu arena m (some e) (length ctx.expressions) ≡ v)
      → Running ctx known vars w
      → Within arena (append_expr ctx e).1.expressions
      → Running (append_expr ctx e).1 (((append_expr ctx e).0, v) ∷ known) vars w
  unfolding value emit_one append_expr
  append_emitted ctx e known vars w v emits static evaluates r within =
      let (found, r', same) = append-Running ctx e known vars w r within in
      let n = length ctx.expressions in
      let evaluated : value gpu arena (appended gpu arena ctx e r.machine) n ≡ v =
        rw (emits, found, static)
          (ap (λ b. if b then evaluate gpu arena r.machine (some e) n else r.machine.values n)
              (==_refl n)
            ∙ evaluates r.machine r.knows r.variables r.world) in
      know (append_expr ctx e).1 known vars w n v r' (omega (arith, length-append_expr ctx e))
        (ap (λ m. value gpu arena m n) same ∙ evaluated)
