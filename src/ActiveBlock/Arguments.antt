-- ===== src/ActiveBlock/Arguments.antt =====
-- active_block.rs (`ActiveBlock::new`, `assign_arguments`): what the stack of a block holds when it is entered.
use wasm_gpu.Prelude.{
  ℕ, ◌≡◌, refl, sym, ap, subst, ◌∙◌, List, [], ◌∷◌, map, length, get_elem?, Option, ok,
  ok-injective, >>=-eq-ok, assert, assertion_failed, ◌==◌,
}
use wasm_gpu.LinkedStack.{LinkedStack}
use wasm_gpu.ControlFlow.{BlockType}
use wasm_gpu.Naga.{BlockContext, store, push_statement}
use wasm_gpu.Naga.Machine.{Gpu, Machine, falls, value, exec_block}
use wasm_gpu.Naga.Emission.{Within, LastOrdered}
use wasm_gpu.ActiveBlock.{ActiveBlock, BodyData, BlockLabel}
use wasm_gpu.ActiveBlock.Blocks.{new, store_all, store_all_eq, assign_arguments, reverse_onto}
use wasm_gpu.ActiveBlock.Running.{Running, values-Knows}
use wasm_gpu.ActiveBlock.Entering.{Point, new-Running, store_all-Running}

store_all-expressions :
    (ctx : BlockContext) (values pointers : List ℕ)
    → (store_all ctx values pointers).expressions ≡ ctx.expressions
unfolding store_all store push_statement
store_all-expressions ctx [] ps = refl
store_all-expressions ctx (v ∷ vs) [] = refl
store_all-expressions ctx (v ∷ vs) (p ∷ ps) = store_all-expressions (store ctx p v) vs ps

assigned :
    (self inner : ActiveBlock) (values : List ℕ)
    → assign_arguments self values ≡ ok inner
    → record self { ctx = store_all self.ctx values self.arguments } ≡ inner
unfolding assign_arguments store_all_eq
assigned self inner values h =
    let (ctx, stored, done) = >>=-eq-ok (store_all_eq self.ctx values self.arguments) _ h in
    let (_, _, same) =
      >>=-eq-ok (assert (length values == length self.arguments) assertion_failed) _ stored in
    ap (λ c. record self { ctx = c }) (ok-injective same) ∙ ok-injective done

-- What a block sees of its arguments. The variables of the arguments are new ones of the function; the
-- block loads them onto its stack before they are assigned, so that its stack holds what they held
-- before the block was entered, the last one on top, whatever the values of the arguments are.
pub assign_arguments_unseen :
    {V W : Type 0} (gpu : Gpu V W) (fuel : ℕ) (start m : Machine V W) (ctx : BlockContext)
    (block_type : BlockType) (body : BodyData) (parents : Option (LinkedStack BlockLabel))
    (values : List ℕ) (inner : ActiveBlock)
    → LastOrdered ctx.block
    → exec_block gpu inner.ctx.expressions fuel ctx.block start ≡ (m, falls)
    → assign_arguments (new ctx block_type body parents) values ≡ ok inner
    → (xs : List ℕ) × Point inner.ctx.expressions (length ctx.locals) inner.arguments xs
      × (m' : Machine V W) × (exec_block gpu inner.ctx.expressions fuel inner.ctx.block start
          ≡ (m', falls))
      × (map (value gpu inner.ctx.expressions m') inner.stack
          ≡ map m.variables (reverse_onto xs []))
assign_arguments_unseen gpu fuel start m ctx block_type body parents values inner o ran h =
    let arena = inner.ctx.expressions in
    let entered = new ctx block_type body parents in
    let same = assigned entered inner values h in
    let within : Within arena entered.ctx.expressions = λ k e found.
      ap (λ (b : ActiveBlock). get_elem? b.ctx.expressions k) (sym same)
      ∙ ap (λ l. get_elem? l k) (store_all-expressions entered.ctx values entered.arguments)
      ∙ found in
    let r : Running gpu arena fuel start ctx [] m.variables m.world = record {
      machine = m;
      runs = ran;
      ordered = o;
      knows = tt;
      variables = refl;
      world = refl;
    } in
    let (xs, points, known, r1, handles, loaded) =
      new-Running gpu arena fuel start ctx block_type body parents [] m.variables m.world r
        within in
    let (vars', r2) =
      store_all-Running gpu arena fuel start (length ctx.locals) entered.ctx values
        entered.arguments xs known m.variables m.world points r1 in
    (
      xs,
      subst (λ (b : ActiveBlock). Point arena (length ctx.locals) b.arguments xs) same points,
      r2.machine,
      ap (λ (b : ActiveBlock). exec_block gpu arena fuel b.ctx.block start) (sym same) ∙ r2.runs,
      ap (λ (b : ActiveBlock). map (value gpu arena r2.machine) b.stack) (sym same)
          ∙ ap (map (value gpu arena r2.machine)) handles
          ∙ values-Knows gpu arena fuel start _ r2.machine known r2.knows
          ∙ loaded,
    )
