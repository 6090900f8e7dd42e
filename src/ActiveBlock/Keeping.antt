-- ===== src/ActiveBlock/Keeping.antt =====
-- active_block.rs: what holds of the result of a call if it has one, and the calls that keep the exit state
-- of a block.
use wasm_gpu.Prelude.{
  assert, ltb, u32_mod, out_of_range, ℕ, zero, suc, List, [], ◌∷◌, Option, none, some, Outcome, ok,
  err, ◌>>=◌, ◌≡◌, refl, ◌∙◌,
}
use wasm_gpu.Mvp.{
  Instruction, nop, drop, push_const_val, append_trap, local_get, local_set, local_tee, unary,
  binary, mem_load, mem_store,
}
use wasm_gpu.Naga.{append_expr, compose, result, void_return}
use wasm_gpu.ActiveBlock.{
  ActiveBlock, BodyData, peek, local_ptr, trap_value, push, pop_from, pop, perform, push_call,
  pop_one_push_call_mono, pop_two_push_call_bi, pop_one_push_call_mem_func, pop_two_call_mem_func,
}
use wasm_gpu.ActiveBlock.Blocks.{pop_args, push_return}
use wasm_gpu.ActiveBlock.Populate.{pop_condition}

-- What holds of the result of a call, if it has one.
abbrev pub Holds {ℓ} : {A : Type ℓ} → (A → Type 0) → Outcome A → Type 0
Holds P (ok a) = P a
Holds P (err fault) = Unit

pub Holds-bind {ℓ κ} :
    {A : Type ℓ} {B : Type κ} (P : A → Type 0) (Q : B → Type 0) (first : Outcome A)
    (rest : A → Outcome B)
    → Holds P first
    → ((a : A) → P a → Holds Q (rest a))
    → Holds Q (first >>= rest)
Holds-bind P Q (ok a) rest h k = k a h
Holds-bind P Q (err fault) rest h k = tt

pub Holds-after {ℓ κ} :
    {A : Type ℓ} {B : Type κ} (Q : B → Type 0) (first : Outcome A) (rest : A → Outcome B)
    → ((a : A) → Holds Q (rest a))
    → Holds Q (first >>= rest)
Holds-after Q (ok a) rest k = k a
Holds-after Q (err fault) rest k = tt

-- A state with the exit state of another, on its own, behind and in front of something else.
abbrev pub Same : ActiveBlock → ActiveBlock → Type 0
Same self self' = self'.exit_state ≡ self.exit_state

abbrev pub Same₁ {ℓ} : {A : Type ℓ} → ActiveBlock → A × ActiveBlock → Type 0
Same₁ self r = Same self r.1

pop-Same : (self : ActiveBlock) → Holds (Same₁ self) (pop self)
unfolding pop pop_from
pop-Same self = go (pop_from self.stack)
  where
    go :
        (popped : Outcome (ℕ × List ℕ))
        → Holds (Same₁ self) (popped >>= λ (r : ℕ × List ℕ). ok (r.0, record self { stack = r.1 }))
    go (ok r) = refl
    go (err fault) = tt

-- A pop and what comes behind it.
pub popping {ℓ} :
    {B : Type ℓ} (Q : B → Type 0) (self : ActiveBlock) (rest : ℕ × ActiveBlock → Outcome B)
    → ((r : ℕ × ActiveBlock) → Same self r.1 → Holds Q (rest r))
    → Holds Q (pop self >>= rest)
popping Q self rest k = Holds-bind (Same₁ self) Q (pop self) rest (pop-Same self) k

pub perform-Same :
    (body : BodyData) (self : ActiveBlock) (i : Instruction)
    → Holds (Same self) (perform body self i)
unfolding perform push push_call pop_one_push_call_mono pop_two_push_call_bi
    pop_one_push_call_mem_func pop_two_call_mem_func
perform-Same body self nop = refl
perform-Same body self (push_const_val v) = refl
perform-Same body self (append_trap t) = Holds-after _ (trap_value t) _ (λ code. refl)
perform-Same body self drop = popping _ self _ (λ r h. h)
perform-Same body self (local_get i) = Holds-after _ (local_ptr body i) _ (λ pointer. refl)
perform-Same body self (local_set i) =
    Holds-after _ (local_ptr body i) _ (λ pointer. popping _ self _ (λ r h. h))
perform-Same body self (local_tee i) =
    Holds-after _ (local_ptr body i) _ (λ pointer. Holds-after _ (peek self) _ (λ value. refl))
perform-Same body self (unary f) = popping _ self _ (λ r h. h)
perform-Same body self (binary f) = popping _ self _ (λ r h. popping _ r.1 _ (λ q h'. h' ∙ h))
perform-Same body self (mem_load memarg f) =
    Holds-after _ (assert (ltb memarg.offset u32_mod) out_of_range) _
      (λ _. popping _ _ _ (λ r h. h))
perform-Same body self (mem_store memarg f) =
    Holds-after _ (assert (ltb memarg.offset u32_mod) out_of_range) _
      (λ _. popping _ self _ (λ r h. popping _ _ _ (λ q h'. h' ∙ h)))
perform-Same body self Instruction.unimplemented = tt

pub Holds-weaken {ℓ} :
    {A : Type ℓ} (P Q : A → Type 0) (o : Outcome A) → ((a : A) → P a → Q a) → Holds P o → Holds Q o
Holds-weaken P Q (ok a) k h = k a h
Holds-weaken P Q (err fault) k h = tt

pub pop_args-Same :
    (n : ℕ) (args : List ℕ) (self : ActiveBlock) → Holds (Same₁ self) (pop_args n args self)
unfolding pop_args
pop_args-Same zero args self = refl
pop_args-Same (suc n) args self = popping _ self _ (λ r h.
    Holds-weaken _ _ (pop_args n (r.0 ∷ args) r.1) (λ q h'. h' ∙ h)
      (pop_args-Same n (r.0 ∷ args) r.1))

pub push_return-Same :
    (body : BodyData) (self : ActiveBlock) → Holds (Same self) (push_return body self)
unfolding push_return
push_return-Same body self = go body.return_type
  where
    go :
        (o : Option ℕ)
        → Holds (Same self) (elim o [
          | none ↦ ok (record self { ctx = void_return self.ctx })
          | some required_values ↦ do
            (results, self) ← pop_args required_values [] self
            let (struct_build, ctx) = append_expr self.ctx (compose results)
            ok (record self { ctx = result ctx struct_build })
        ])
    go none = refl
    go (some n) = Holds-bind _ _ (pop_args n [] self) _ (pop_args-Same n [] self) (λ q h. h)

pub pop_condition-Same : (self : ActiveBlock) → Holds (Same₁ self) (pop_condition self)
unfolding pop_condition
pop_condition-Same self = popping _ self _ (λ r h. h)
