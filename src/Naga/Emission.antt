-- ===== src/Naga/Emission.antt =====
-- naga-ext/src/block_context.rs (`append_expr`, `push_emit`): what an appended expression does when the
-- block is run.
use wasm_gpu.Prelude.{
  ℕ, suc, ◌+◌, ◌-◌, ◌≤◌, ◌≡◌, refl, sym, ap, ◌∙◌, ◌==◌, ==_iff, Bool-cases, inl, inr, if◌then◌else◌,
  List, [], ◌∷◌, ◌++◌, length, get_elem?, get_elem?-new, get_elem?-old, some, arith,
}
use wasm_gpu.Naga.{
  Expression, Block, BlockContext, emit, store_statement, if_statement, loop_statement,
  call_statement, return_statement, break_statement, continue_statement, new_block, pushed,
  should_emit, emitted, push_emit, append_expr,
}
use wasm_gpu.Naga.Machine.{
  Gpu, Machine, Flow, falls, andthen, emit_one, emit_range, exec_statement, exec_block,
}

-- The expressions of a list are those of the arena, in their places.
abbrev pub Within : List Expression → List Expression → Type 0
Within arena xs = (h : ℕ) (e : Expression) → get_elem? xs h ≡ some e → get_elem? arena h ≡ some e

-- A range that the block ends with runs forwards.
abbrev pub LastOrdered : Block → Type 0
LastOrdered (pushed block (emit start end)) = start ≤ end
LastOrdered _ = Unit

pub Within-append : (arena xs ys : List Expression) → Within arena (xs ++ ys) → Within arena xs
Within-append arena xs ys w h e p = w h e (get_elem?-old xs ys h p)

emitted-LastOrdered : (block : Block) (h : ℕ) → LastOrdered block → LastOrdered (emitted block h)
unfolding emitted
emitted-LastOrdered new_block h o = omega arith
emitted-LastOrdered (pushed block (emit start end)) h o = elim (Bool-cases (end + 1 == h)) [
  | inl e ↦ rw e (omega (arith, (==_iff (end + 1) h).0 e))
  | inr e ↦ rw e (omega arith)
]
emitted-LastOrdered (pushed block (store_statement p v)) h o = omega arith
emitted-LastOrdered (pushed block (if_statement c a r)) h o = omega arith
emitted-LastOrdered (pushed block (loop_statement b)) h o = omega arith
emitted-LastOrdered (pushed block (call_statement f a r)) h o = omega arith
emitted-LastOrdered (pushed block (return_statement v)) h o = omega arith
emitted-LastOrdered (pushed block break_statement) h o = omega arith
emitted-LastOrdered (pushed block continue_statement) h o = omega arith

pub append_expr-expressions :
    (ctx : BlockContext) (e : Expression)
    → (append_expr ctx e).1.expressions ≡ ctx.expressions ++ e ∷ []
unfolding append_expr push_emit
append_expr-expressions ctx e = elim (Bool-cases (should_emit e)) [
  | inl b ↦ rw b refl
  | inr b ↦ rw b refl
]

pub append_expr-LastOrdered :
    (ctx : BlockContext) (e : Expression)
    → LastOrdered ctx.block
    → LastOrdered (append_expr ctx e).1.block
unfolding append_expr push_emit
append_expr-LastOrdered ctx e o = elim (Bool-cases (should_emit e)) [
  | inl b ↦ rw b (emitted-LastOrdered ctx.block (length ctx.expressions) o)
  | inr b ↦ rw b o
]

module _ {V W : Type 0} (gpu : Gpu V W) (arena : List Expression) (fuel : ℕ) where
  andthen_assoc :
      (r : Machine V W × Flow) (f : Machine V W → Machine V W) (h : ℕ)
      → andthen (andthen r (λ m. (f m, falls))) (λ m. (emit_one gpu arena h m, falls))
        ≡ andthen r (λ m. (emit_one gpu arena h (f m), falls))
  andthen_assoc (m, falls) f h = refl
  andthen_assoc (m, Flow.breaks) f h = refl
  andthen_assoc (m, Flow.continues) f h = refl
  andthen_assoc (m, Flow.endless) f h = refl
  andthen_assoc (m, Flow.returns v) f h = refl

  emit_single :
      (block : Block) (h : ℕ) (m : Machine V W)
      → exec_block gpu arena fuel (pushed block (emit h h)) m
        ≡ andthen (exec_block gpu arena fuel block m) (λ m. (emit_one gpu arena h m, falls))
  unfolding exec_block exec_statement emit_range
  emit_single block h m =
      let same : h - h ≡ 0 = omega arith in
      ap
        (λ n.
          andthen (exec_block gpu arena fuel block m) (λ m. (emit_range gpu arena h n m, falls)))
        same

  emit_grown :
      (block : Block) (start end h : ℕ) (m : Machine V W)
      → start ≤ end
      → end + 1 ≡ h
      → exec_block gpu arena fuel (pushed block (emit start h)) m
        ≡ andthen
            (exec_block gpu arena fuel (pushed block (emit start end)) m)
            (λ m. (emit_one gpu arena h m, falls))
  unfolding exec_block exec_statement emit_range
  emit_grown block start end h m o e =
      let size : h - start ≡ suc (end - start) = omega (arith, o, e) in
      let last : start + suc (end - start) ≡ h = omega (arith, o, e) in
      ap
        (λ n.
          andthen (exec_block gpu arena fuel block m)
            (λ m. (emit_range gpu arena start n m, falls)))
        size
      ∙ ap
          (λ k.
            andthen (exec_block gpu arena fuel block m)
              (λ m. (emit_one gpu arena k (emit_range gpu arena start (end - start) m), falls)))
          last
      ∙ sym (
          andthen_assoc (exec_block gpu arena fuel block m)
            (emit_range gpu arena start (end - start)) h)

  -- Emitting a handle evaluates it after everything that the block did before.
  emitted-exec :
      (block : Block) (h : ℕ) (m : Machine V W)
      → LastOrdered block
      → exec_block gpu arena fuel (emitted block h) m
        ≡ andthen (exec_block gpu arena fuel block m) (λ m. (emit_one gpu arena h m, falls))
  unfolding emitted
  emitted-exec new_block h m o = emit_single new_block h m
  emitted-exec (pushed block (emit start end)) h m o = elim (Bool-cases (end + 1 == h)) [
    | inl e ↦ rw e (emit_grown block start end h m o ((==_iff (end + 1) h).0 e))
    | inr e ↦ rw e (emit_single (pushed block (emit start end)) h m)
  ]
  emitted-exec (pushed block (store_statement p v)) h m o = emit_single _ h m
  emitted-exec (pushed block (if_statement c a r)) h m o = emit_single _ h m
  emitted-exec (pushed block (loop_statement b)) h m o = emit_single _ h m
  emitted-exec (pushed block (call_statement f a r)) h m o = emit_single _ h m
  emitted-exec (pushed block (return_statement v)) h m o = emit_single _ h m
  emitted-exec (pushed block break_statement) h m o = emit_single _ h m
  emitted-exec (pushed block continue_statement) h m o = emit_single _ h m

unchanged : {V W : Type 0} (r : Machine V W × Flow) → r ≡ andthen r (λ m. (m, falls))
unchanged (m, falls) = refl
unchanged (m, Flow.breaks) = refl
unchanged (m, Flow.continues) = refl
unchanged (m, Flow.endless) = refl
unchanged (m, Flow.returns v) = refl

-- The machine after an expression was appended.
abbrev pub appended :
    {V W : Type 0}
    → Gpu V W
    → List Expression
    → BlockContext
    → Expression
    → Machine V W
    → Machine V W
appended gpu arena ctx e m =
    if should_emit e then emit_one gpu arena (length ctx.expressions) m else m

-- An expression that is appended to a context is at the place of its handle, and running the block
-- does what it did before and then evaluates the expression, exactly if it is of a kind that is emitted,
-- also where the range of the last statement grows by it.
pub append_expr-exec :
    {V W : Type 0} (gpu : Gpu V W) (arena : List Expression) (fuel : ℕ) (ctx : BlockContext)
    (e : Expression) (m : Machine V W)
    → LastOrdered ctx.block
    → Within arena (append_expr ctx e).1.expressions
    → (get_elem? arena (append_expr ctx e).0 ≡ some e)
      × (exec_block gpu arena fuel (append_expr ctx e).1.block m
          ≡ andthen
              (exec_block gpu arena fuel ctx.block m)
              (λ m. (appended gpu arena ctx e m, falls)))
unfolding append_expr push_emit
append_expr-exec gpu arena fuel ctx e m o w = (
  w (length ctx.expressions) e (
      ap (λ l. get_elem? l (length ctx.expressions)) (append_expr-expressions ctx e)
      ∙ get_elem?-new ctx.expressions e),
  elim (Bool-cases (should_emit e)) [
    | inl b ↦ rw b (emitted-exec gpu arena fuel ctx.block (length ctx.expressions) m o)
    | inr b ↦ rw b (unchanged (exec_block gpu arena fuel ctx.block m))
  ],
)
