-- ===== src/ActiveBlock/Statements.antt =====
-- How the expressions and statements that the translator appends change what is known of a run.
use wasm_gpu.Prelude.{
  ℕ, suc, ◌<◌, ◌≡◌, refl, ap, ◌∙◌, ==_refl, Bool-cases, inl, inr, if◌then◌else◌, List, [], ◌∷◌, map,
  length, All, All-get_elem?, get_elem?, get_elem?-new, length-append, ◌++◌, none, some, arith,
}
use wasm_gpu.Std.{StdFunction}
use wasm_gpu.Naga.{
  BinaryOperator, Expression, Constant, constant, call_result, load, binary, local_variable,
  global_variable, equal_op, Statement, BlockContext, store_statement, call_statement, if_statement,
  new_block, pushed, should_emit, append_expr, push_statement, store, call_void, call_get_return,
  trap_constant,
}
use wasm_gpu.Naga.Machine.{
  Gpu, Machine, falls, andthen, update, value, evaluate, exec_statement, exec_block,
}
use wasm_gpu.Naga.Emission.{Within, LastOrdered}
use wasm_gpu.ActiveBlock.{trap_state, emit_set_trap}
use wasm_gpu.ActiveBlock.Running.{
  Running, Knows, append-Running, append_static, append_emitted, value-update, Knows-kept,
  Within-before,
}

module _ {V W : Type 0} (gpu : Gpu V W) (arena : List Expression) (fuel : ℕ)
    (start : Machine V W) where
  -- A handle is known to have a value.
  abbrev pub Known : List (ℕ × V) → ℕ → V → Type 0
  Known known h v = (i : ℕ) × (get_elem? known i ≡ some (h, v))

  value-Known :
      (n : ℕ) (m : Machine V W) (known : List (ℕ × V)) (h : ℕ) (v : V)
      → Known known h v
      → Knows gpu arena fuel start n m known
      → value gpu arena m h ≡ v
  value-Known n m known h v (i, e) k =
      (All-get_elem? (λ p. (p.0 < n) × (value gpu arena m p.0 ≡ p.1)) known i k e).1

  pub append_binary :
      (ctx : BlockContext) (op : BinaryOperator) (a b : ℕ) (known : List (ℕ × V)) (vars : ℕ → V)
      (w : W) (va vb : V)
      → Known known a va
      → Known known b vb
      → Running gpu arena fuel start ctx known vars w
      → Within arena (append_expr ctx (binary op a b)).1.expressions
      → Running gpu arena fuel start
          (append_expr ctx (binary op a b)).1
          (((append_expr ctx (binary op a b)).0, gpu.operate op va vb) ∷ known)
          vars
          w
  unfolding evaluate should_emit
  append_binary ctx op a b known vars w va vb ka kb r within =
      append_emitted gpu arena fuel start ctx (binary op a b) known vars w (gpu.operate op va vb)
        refl refl
        (λ m k _ _.
          ap (λ x. gpu.operate op x (value gpu arena m b))
            (value-Known (length ctx.expressions) m known a va ka k)
          ∙ ap (gpu.operate op va) (value-Known (length ctx.expressions) m known b vb kb k))
        r within

  pub append_load_local :
      (ctx : BlockContext) (pointer x : ℕ) (known : List (ℕ × V)) (vars : ℕ → V) (w : W)
      → get_elem? arena pointer ≡ some (local_variable x)
      → Running gpu arena fuel start ctx known vars w
      → Within arena (append_expr ctx (load pointer)).1.expressions
      → Running gpu arena fuel start
          (append_expr ctx (load pointer)).1
          (((append_expr ctx (load pointer)).0, vars x) ∷ known)
          vars
          w
  unfolding evaluate should_emit
  append_load_local ctx pointer x known vars w found r within =
      append_emitted gpu arena fuel start ctx (load pointer) known vars w (vars x) refl refl
        (λ m _ same _. rw found (ap (λ f. f x) same)) r within

  pub append_load_global :
      (ctx : BlockContext) (pointer g : ℕ) (known : List (ℕ × V)) (vars : ℕ → V) (w : W)
      → get_elem? arena pointer ≡ some (global_variable g)
      → Running gpu arena fuel start ctx known vars w
      → Within arena (append_expr ctx (load pointer)).1.expressions
      → Running gpu arena fuel start
          (append_expr ctx (load pointer)).1
          (((append_expr ctx (load pointer)).0, gpu.read g w) ∷ known)
          vars
          w
  unfolding evaluate should_emit
  append_load_global ctx pointer g known vars w found r within =
      append_emitted gpu arena fuel start ctx (load pointer) known vars w (gpu.read g w) refl refl
        (λ m _ _ same. rw found (ap (gpu.read g) same)) r within

  -- A statement that falls through, by the machine that it leaves.
  pub push-Running :
      (ctx : BlockContext) (s : Statement) (known known' : List (ℕ × V)) (vars vars' : ℕ → V)
      (w w' : W) (r : Running gpu arena fuel start ctx known vars w) (m : Machine V W)
      → LastOrdered (pushed ctx.block s)
      → exec_statement gpu arena fuel s r.machine ≡ (m, falls)
      → Knows gpu arena fuel start (length ctx.expressions) m known'
      → m.variables ≡ vars'
      → m.world ≡ w'
      → Running gpu arena fuel start (push_statement ctx s) known' vars' w'
  unfolding push_statement exec_block
  push-Running ctx s known known' vars vars' w w' r m o ran knows variables world = record {
    machine = m;
    runs = ap (λ x. andthen x (exec_statement gpu arena fuel s)) r.runs ∙ ran;
    ordered = o;
    knows = knows;
    variables = variables;
    world = world;
  }

  pub store-Running :
      (ctx : BlockContext) (pointer x h : ℕ) (v : V) (known : List (ℕ × V)) (vars : ℕ → V) (w : W)
      → get_elem? arena pointer ≡ some (local_variable x)
      → Known known h v
      → Running gpu arena fuel start ctx known vars w
      → Running gpu arena fuel start (store ctx pointer h) known (update vars x v) w
  unfolding store exec_statement value
  store-Running ctx pointer x h v known vars w found k r =
      let m = r.machine in
      let same = value-Known (length ctx.expressions) m known h v k r.knows in
      push-Running ctx (store_statement pointer h) known known vars (update vars x v) w w r
        (record m { variables = update m.variables x (value gpu arena m h) }) tt (rw found refl)
        r.knows (ap (λ f. update f x (value gpu arena m h)) r.variables ∙ ap (update vars x) same)
        r.world

  -- The values of the arguments of a call.
  abbrev pub AllKnown : List (ℕ × V) → List (ℕ × V) → Type 0
  AllKnown known = All (λ p. Known known p.0 p.1)

  values-AllKnown :
      (n : ℕ) (m : Machine V W) (known arguments : List (ℕ × V))
      → AllKnown known arguments
      → Knows gpu arena fuel start n m known
      → map (value gpu arena m) (map (λ p. p.0) arguments) ≡ map (λ p. p.1) arguments
  values-AllKnown n m known [] all k = refl
  values-AllKnown n m known (p ∷ arguments) all k =
      rw (value-Known n m known p.0 p.1 all.0 k, values-AllKnown n m known arguments all.1 k) refl

  pub call_void-Running :
      (ctx : BlockContext) (function : StdFunction) (arguments known : List (ℕ × V)) (vars : ℕ → V)
      (w : W)
      → AllKnown known arguments
      → Running gpu arena fuel start ctx known vars w
      → Running gpu arena fuel start
          (call_void ctx function (map (λ p. p.0) arguments))
          known
          vars
          (gpu.call function (map (λ p. p.1) arguments) w).1
  unfolding call_void exec_statement value
  call_void-Running ctx function arguments known vars w all r =
      let m = r.machine in
      let hs = map (λ p. p.0) arguments in
      let values = values-AllKnown (length ctx.expressions) m known arguments all r.knows in
      push-Running ctx (call_statement function hs none) known known vars vars w _ r
        (record m { world = (gpu.call function (map (value gpu arena m) hs) m.world).1 }) tt refl
        r.knows r.variables
        (ap (λ vs. (gpu.call function vs m.world).1) values
          ∙ ap (λ x. (gpu.call function (map (λ p. p.1) arguments) x).1) r.world)

  pub call_get_return-Running :
      (ctx : BlockContext) (function : StdFunction) (arguments known : List (ℕ × V)) (vars : ℕ → V)
      (w : W)
      → AllKnown known arguments
      → Running gpu arena fuel start ctx known vars w
      → Within arena (call_get_return ctx function (map (λ p. p.0) arguments)).1.expressions
      → let (result, world) = gpu.call function (map (λ p. p.1) arguments) w in
        Running gpu arena fuel start
          (call_get_return ctx function (map (λ p. p.0) arguments)).1
          (((call_get_return ctx function (map (λ p. p.0) arguments)).0, result) ∷ known)
          vars
          world
  unfolding call_get_return exec_statement append_expr should_emit value
  call_get_return-Running ctx function arguments known vars w all r within =
      let h = length ctx.expressions in
      let m = r.machine in
      let hs = map (λ p. p.0) arguments in
      let longer : length (ctx.expressions ++ call_result function ∷ []) ≡ suc h =
        omega (arith, length-append ctx.expressions (call_result function ∷ [])) in
      let ctx' = record ctx { expressions = ctx.expressions ++ call_result function ∷ [] } in
      let called = gpu.call function (map (value gpu arena m) hs) m.world in
      let m' = record m { values = update m.values h called.0; world = called.1 } in
      let returned : called ≡ gpu.call function (map (λ p. p.1) arguments) w =
        ap (λ vs. gpu.call function vs m.world) (values-AllKnown h m known arguments all r.knows)
        ∙ ap (gpu.call function (map (λ p. p.1) arguments)) r.world in
      let found =
        within h (call_result function) (get_elem?-new ctx.expressions (call_result function)) in
      let result : value gpu arena m' h ≡ called.0 =
        rw found (ap (λ b. if b then called.0 else m.values h) (==_refl h)) in
      push-Running ctx' (call_statement function hs (some h)) known _ vars vars w _
        (record {
          machine = m;
          runs = r.runs;
          ordered = r.ordered;
          knows =
              Knows-kept gpu arena fuel start h _ m m known (omega (arith, longer)) (λ k lt. refl)
                r.knows;
          variables = r.variables;
          world = r.world;
        })
        m' tt refl
        (
          (omega (arith, longer), result ∙ ap (λ c. c.0) returned),
          Knows-kept gpu arena fuel start h _ m m' known (omega (arith, longer))
              (λ k lt. value-update gpu arena fuel start m h k called.0 lt) r.knows,
        )
        r.variables (ap (λ c. c.1) returned)

  -- What setting the trap state does to the memory: only the first trap is kept.
  abbrev pub trapped : Constant → W → W
  trapped code w =
      if gpu.truth
        (gpu.operate equal_op (gpu.read trap_state w) (gpu.constant_value (trap_constant none)))
      then gpu.write trap_state (gpu.constant_value code) w
      else w

  pub emit_set_trap-Running :
      (ctx : BlockContext) (code : Constant) (known : List (ℕ × V)) (vars : ℕ → V) (w : W)
      → Running gpu arena fuel start ctx known vars w
      → Within arena (emit_set_trap ctx code).expressions
      → Running gpu arena fuel start (emit_set_trap ctx code) known vars (trapped code w)
  unfolding emit_set_trap store push_statement exec_statement exec_block value
  emit_set_trap-Running ctx code known vars w r within =
      let e1 = constant code in
      let c1 = append_expr ctx e1 in
      let e2 = global_variable trap_state in
      let c2 = append_expr c1.1 e2 in
      let e3 = load c2.0 in
      let c3 = append_expr c2.1 e3 in
      let e4 = constant (trap_constant none) in
      let c4 = append_expr c3.1 e4 in
      let e5 = binary equal_op c3.0 c4.0 in
      let c5 = append_expr c4.1 e5 in
      let w4 = Within-before arena c4.1 e5 within in
      let w3 = Within-before arena c3.1 e4 w4 in
      let w2 = Within-before arena c2.1 e3 w3 in
      let w1 = Within-before arena c1.1 e2 w2 in
      let r1 = append_static gpu arena fuel start ctx e1 known vars w _ refl r w1 in
      let (found, r2, _) = append-Running gpu arena fuel start c1.1 e2 _ vars w r1 w2 in
      let r3 = append_load_global c2.1 c2.0 trap_state _ vars w found r2 w3 in
      let r4 = append_static gpu arena fuel start c3.1 e4 _ vars w _ refl r3 w4 in
      let r5 = append_binary c4.1 equal_op c3.0 c4.0 _ vars w _ _ (1, refl) (0, refl) r4 within in
      let m = r5.machine in
      let tested = r5.knows.0.1 in
      let new_code = r5.knows.1.1.1.0.1 in
      let kept = r5.knows.1.1.1.1 in
      let accept = pushed new_block (store_statement c2.0 c1.0) in
      let unset =
        gpu.operate equal_op (gpu.read trap_state w) (gpu.constant_value (trap_constant none)) in
      elim (Bool-cases (gpu.truth unset)) [
        | inl b ↦
            let ran : exec_statement gpu arena fuel (if_statement c5.0 accept new_block) m ≡ (
              record m { world = gpu.write trap_state (value gpu arena m c1.0) m.world },
              falls,
            ) =
              rw (tested, b, found) refl in
            push-Running c5.1 (if_statement c5.0 accept new_block) _ known vars vars w _ r5 _ tt ran
              kept r5.variables (rw (b, new_code, r5.world) refl)
        | inr b ↦
            let ran : exec_statement gpu arena fuel (if_statement c5.0 accept new_block) m
                ≡ (m, falls) =
              rw (tested, b) refl in
            push-Running c5.1 (if_statement c5.0 accept new_block) _ known vars vars w _ r5 m tt ran
              kept r5.variables (rw b r5.world)
      ]
