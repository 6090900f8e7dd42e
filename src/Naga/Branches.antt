-- ===== src/Naga/Branches.antt =====
-- naga-ext/src/block_context.rs (`Test::then`, `TestThen::otherwise`): a conditional with two arms.
use wasm_gpu.Prelude.{ℕ, ◌≡◌, refl, ==_refl, Outcome, ok, err, ◌>>=◌}
use wasm_gpu.Naga.{
  Statement, Block, BlockContext, if_statement, new_block, pushed, block_len, statement_at,
  set_statement, try_then, otherwise,
}

set_statement-last :
    (block : Block) (s t : Statement)
    → set_statement (pushed block s) (block_len block) t ≡ pushed block t
unfolding set_statement
set_statement-last block s t = rw (==_refl (block_len block)) refl

-- The second arm, once the first one is filled.
second_arm {κ} :
    {S : Type κ} (ctx : BlockContext) (condition : ℕ) (accept block : Block)
    (g : BlockContext → Outcome (S × BlockContext))
    → otherwise
        (block_len block)
        (record ctx { block = pushed block (if_statement condition accept new_block) })
        g
      ≡ (g (record ctx { block = new_block }) >>= λ (r : S × BlockContext).
          ok (
            r.0,
            record (r.1) { block = pushed block (if_statement condition accept (r.1.block)) },
          ))
unfolding otherwise statement_at
second_arm ctx condition accept block g =
    rw (==_refl (block_len block), otherwise) (simp set_statement-last)

-- A conditional whose first arm is filled by `f` and whose second arm is filled by `g`: `otherwise` finds
-- the conditional that `try_then` built, so that it never panics; the block of the context gets exactly
-- one statement, with what each function put into an empty block; and both functions share the
-- expressions and variables of the function, `g` those that `f` left.
pub try_then-otherwise {ℓ κ} :
    {R : Type ℓ} {S : Type κ} (ctx : BlockContext) (condition : ℕ)
    (f : BlockContext → Outcome (R × BlockContext)) (g : BlockContext → Outcome (S × BlockContext))
    → (do (r, index, ctx') ← try_then ctx condition f; otherwise index ctx' g) ≡ (do
      (r, accepted) ← f (record ctx { block = new_block })
      (s, rejected) ← g (record accepted { block = new_block })
      ok (
        s,
        record rejected {
          block = pushed ctx.block (if_statement condition accepted.block rejected.block);
        },
      ))
unfolding try_then
try_then-otherwise {R = R} ctx condition f g = go (f (record ctx { block = new_block }))
  where
    go :
        (accepted : Outcome (R × BlockContext))
        → ((accepted >>= λ (r : R × BlockContext). ok (
          r.0,
          block_len ctx.block,
          record (r.1) { block = pushed ctx.block (if_statement condition (r.1.block) new_block) },
        ))
            >>= λ (t : R × ℕ × BlockContext). otherwise t.1 t.2 g)
          ≡ (accepted >>= λ (r : R × BlockContext). g (record (r.1) { block = new_block }) >>= λ s.
              ok (
                s.0,
                record (s.1) {
                  block = pushed ctx.block (if_statement condition (r.1.block) (s.1.block));
                },
              ))
    go (err fault) = refl
    go (ok (r, accepted)) = second_arm accepted condition (accepted.block) ctx.block g
