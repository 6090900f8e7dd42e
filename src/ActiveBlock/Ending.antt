-- ===== src/ActiveBlock/Ending.antt =====
-- active_block.rs: calls that do not run out of fuel: those that read no operators and those that fill a
-- block.
use wasm_gpu.Prelude.{
  ℕ, zero, suc, ◌≢◌, Bool, true, false, List, [], ◌∷◌, length, Option, none, some, get_elem?,
  Outcome, Fault, ok, err, ◌>>=◌, assert, expect, malformed, assertion_failed, out_of_fuel,
  out_of_range, ltb, u32_mod, ◌==◌,
}
use wasm_gpu.Traps.{Trap}
use wasm_gpu.Functions.{FuncType}
use wasm_gpu.Mvp.{
  MemArg, Instruction, nop, drop, push_const_val, append_trap, local_get, local_set, local_tee,
  unary, binary, mem_load, mem_store,
}
use wasm_gpu.ControlFlow.{ParsedBlockType, empty, type, func_type, from_parsed}
use wasm_gpu.Locals
use wasm_gpu.Locals.{lookup}
use wasm_gpu.Naga.{
  append_expr, compose, void_return, result, BlockContext, cycle, try_then, otherwise, statement_at,
  Statement, emit, store_statement, if_statement, loop_statement, call_statement, return_statement,
  break_statement, continue_statement, set_statement,
}
use wasm_gpu.ActiveBlock.{
  ActiveBlock, BodyData, pop, pop_from, peek, local_ptr, trap_value, perform,
  pop_one_push_call_mono, pop_two_push_call_bi, pop_one_push_call_mem_func, pop_two_call_mem_func,
}
use wasm_gpu.ActiveBlock.Blocks.{pop_args, push_return, assign_arguments, store_all_eq}
use wasm_gpu.ActiveBlock.Populate.{do_br_if, pop_condition, do_return}

-- A call that does not run out of fuel, and what holds of its result.
abbrev pub Ends {ℓ} : {A : Type ℓ} → (A → Type 0) → Outcome A → Type 0
Ends P (ok a) = P a
Ends P (err fault) = fault ≢ out_of_fuel

abbrev pub Any {ℓ} : {A : Type ℓ} → A → Type 0
Any a = Unit

pub Ends-bind {ℓ κ} :
    {A : Type ℓ} {B : Type κ} (P : A → Type 0) (Q : B → Type 0) (first : Outcome A)
    (rest : A → Outcome B)
    → Ends P first
    → ((a : A) → P a → Ends Q (rest a))
    → Ends Q (first >>= rest)
Ends-bind P Q (ok a) rest h k = k a h
Ends-bind P Q (err fault) rest h k = h

pub weaker {ℓ} :
    {A : Type ℓ} (P Q : A → Type 0) (o : Outcome A) → ((a : A) → P a → Q a) → Ends P o → Ends Q o
weaker P Q (ok a) k h = k a h
weaker P Q (err fault) k h = h

pub assert-Ends : (b : Bool) (fault : Fault) → fault ≢ out_of_fuel → Ends Any (assert b fault)
assert-Ends true fault h = tt
assert-Ends false fault h = h

pub expect-Ends {ℓ} :
    {A : Type ℓ} (o : Option A) (fault : Fault) → fault ≢ out_of_fuel → Ends Any (expect o fault)
expect-Ends none fault h = h
expect-Ends (some a) fault h = tt

pub pop-Ends : (self : ActiveBlock) → Ends Any (pop self)
unfolding pop
pop-Ends self = Ends-bind Any Any (pop_from self.stack) _ (popped self.stack) (λ _ _. tt)
  where
    popped : (stack : List ℕ) → Ends Any (pop_from stack)
    popped [] = λ e. cc
    popped (h ∷ stack) = tt

pub peek-Ends : (self : ActiveBlock) → Ends Any (peek self)
unfolding peek
peek-Ends self = Ends-bind Any Any (pop_from self.stack) _ (popped self.stack) (λ _ _. tt)
  where
    popped : (stack : List ℕ) → Ends Any (pop_from stack)
    popped [] = λ e. cc
    popped (h ∷ stack) = tt

pub local_ptr-Ends : (body : BodyData) (i : ℕ) → Ends Any (local_ptr body i)
unfolding local_ptr Locals.get
local_ptr-Ends body i =
    Ends-bind Any Any (Locals.get body.locals i) _
      (expect-Ends (lookup body.locals i) malformed (λ e. cc)) (λ _ _. tt)

pub trap_value-Ends : (t : Trap) → Ends Any (trap_value t)
unfolding trap_value
trap_value-Ends Trap.stack_overflow = tt
trap_value-Ends Trap.memory_out_of_bounds = tt
trap_value-Ends Trap.heap_misaligned = tt
trap_value-Ends Trap.table_out_of_bounds = tt
trap_value-Ends Trap.indirect_call_to_null = tt
trap_value-Ends Trap.bad_signature = tt
trap_value-Ends Trap.integer_overflow = tt
trap_value-Ends Trap.integer_division_by_zero = tt
trap_value-Ends Trap.bad_conversion_to_integer = tt
trap_value-Ends Trap.unreachable_code_reached = tt
trap_value-Ends Trap.interrupt = tt
trap_value-Ends Trap.always_trap_adapter = tt
trap_value-Ends Trap.out_of_fuel = tt
trap_value-Ends Trap.atomic_wait_non_shared_memory = tt
trap_value-Ends Trap.other = λ e. cc

pub fits-Ends : (memarg : MemArg) → Ends Any (assert (ltb memarg.offset u32_mod) out_of_range)
fits-Ends memarg = assert-Ends (ltb memarg.offset u32_mod) out_of_range (λ e. cc)

pub perform-Ends :
    (body : BodyData) (self : ActiveBlock) (i : Instruction) → Ends Any (perform body self i)
unfolding perform pop_one_push_call_mono pop_two_push_call_bi pop_one_push_call_mem_func
    pop_two_call_mem_func
perform-Ends body self nop = tt
perform-Ends body self (push_const_val v) = tt
perform-Ends body self (append_trap t) =
    Ends-bind Any Any (trap_value t) _ (trap_value-Ends t) (λ _ _. tt)
perform-Ends body self drop = Ends-bind Any Any (pop self) _ (pop-Ends self) (λ _ _. tt)
perform-Ends body self (local_get i) =
    Ends-bind Any Any (local_ptr body i) _ (local_ptr-Ends body i) (λ _ _. tt)
perform-Ends body self (local_set i) =
    Ends-bind Any Any (local_ptr body i) _ (local_ptr-Ends body i)
      (λ _ _. Ends-bind Any Any (pop self) _ (pop-Ends self) (λ _ _. tt))
perform-Ends body self (local_tee i) =
    Ends-bind Any Any (local_ptr body i) _ (local_ptr-Ends body i)
      (λ _ _. Ends-bind Any Any (peek self) _ (peek-Ends self) (λ _ _. tt))
perform-Ends body self (unary f) = Ends-bind Any Any (pop self) _ (pop-Ends self) (λ _ _. tt)
perform-Ends body self (binary f) =
    Ends-bind Any Any (pop self) _ (pop-Ends self)
      (λ r _. Ends-bind Any Any (pop r.1) _ (pop-Ends r.1) (λ _ _. tt))
perform-Ends body self (mem_load memarg f) =
    Ends-bind Any Any (assert (ltb memarg.offset u32_mod) out_of_range) _ (fits-Ends memarg)
      (λ _ _. Ends-bind Any Any (pop _) _ (pop-Ends _) (λ _ _. tt))
perform-Ends body self (mem_store memarg f) =
    Ends-bind Any Any (assert (ltb memarg.offset u32_mod) out_of_range) _ (fits-Ends memarg) (λ _ _.
      Ends-bind Any Any (pop self) _ (pop-Ends self)
        (λ _ _. Ends-bind Any Any (pop _) _ (pop-Ends _) (λ _ _. tt)))
perform-Ends body self Instruction.unimplemented = λ e. cc

pub pop_args-Ends : (n : ℕ) (args : List ℕ) (self : ActiveBlock) → Ends Any (pop_args n args self)
unfolding pop_args
pop_args-Ends zero args self = tt
pop_args-Ends (suc n) args self =
    Ends-bind Any Any (pop self) _ (pop-Ends self) (λ r _. pop_args-Ends n (r.0 ∷ args) r.1)

pub from_parsed-Ends :
    (ty : ParsedBlockType) (types : List FuncType) → Ends Any (from_parsed ty types)
unfolding from_parsed
from_parsed-Ends empty types = tt
from_parsed-Ends (type t) types = tt
from_parsed-Ends (func_type i) types =
    Ends-bind Any Any (expect (get_elem? types i) malformed) _
      (expect-Ends (get_elem? types i) malformed (λ e. cc)) (λ _ _. tt)

pub store_all_eq-Ends : (ctx : BlockContext) (vs ps : List ℕ) → Ends Any (store_all_eq ctx vs ps)
unfolding store_all_eq
store_all_eq-Ends ctx vs ps =
    Ends-bind Any Any (assert (length vs == length ps) assertion_failed) _
      (assert-Ends (length vs == length ps) assertion_failed (λ e. cc)) (λ _ _. tt)

pub assign_arguments-Ends : (self : ActiveBlock) (vs : List ℕ) → Ends Any (assign_arguments self vs)
unfolding assign_arguments
assign_arguments-Ends self vs =
    Ends-bind Any Any (store_all_eq self.ctx vs self.arguments) _
      (store_all_eq-Ends self.ctx vs self.arguments) (λ _ _. tt)

pub pop_condition-Ends : (self : ActiveBlock) → Ends Any (pop_condition self)
unfolding pop_condition
pop_condition-Ends self = Ends-bind Any Any (pop self) _ (pop-Ends self) (λ _ _. tt)

pub do_return-Ends : (body : BodyData) (self : ActiveBlock) → Ends Any (do_return body self)
unfolding do_return push_return
do_return-Ends body self =
    Ends-bind Any Any (push_return body self) _ (returned body.return_type) (λ _ _. tt)
  where
    returned :
        (o : Option ℕ)
        → Ends Any (elim o [
          | none ↦ ok (record self { ctx = void_return self.ctx })
          | some required_values ↦ do
            (results, self) ← pop_args required_values [] self
            let (struct_build, ctx) = append_expr self.ctx (compose results)
            ok (record self { ctx = result ctx struct_build })
        ])
    returned none = tt
    returned (some n) =
        Ends-bind Any Any (pop_args n [] self) _ (pop_args-Ends n [] self) (λ _ _. tt)

-- The three ways to fill a block pass on what holds of what the function returns.
module _ {ℓ} {R : Type ℓ} (P : R → Type 0) where
  pub try_then-Ends :
      (ctx : BlockContext) (c : ℕ) (f : BlockContext → Outcome (R × BlockContext))
      → ((ctx' : BlockContext) → Ends (λ r. P r.0) (f ctx'))
      → Ends (λ r. P r.0) (try_then ctx c f)
  unfolding try_then
  try_then-Ends ctx c f h = Ends-bind (λ r. P r.0) (λ r. P r.0) (f _) _ (h _) (λ r p. p)

  pub cycle-Ends :
      (ctx : BlockContext) (f : BlockContext → Outcome (R × BlockContext))
      → ((ctx' : BlockContext) → Ends (λ r. P r.0) (f ctx'))
      → Ends (λ r. P r.0) (cycle ctx f)
  unfolding cycle
  cycle-Ends ctx f h = Ends-bind (λ r. P r.0) (λ r. P r.0) (f _) _ (h _) (λ r p. p)

  pub otherwise-Ends :
      (i : ℕ) (ctx : BlockContext) (f : BlockContext → Outcome (R × BlockContext))
      → ((ctx' : BlockContext) → Ends (λ r. P r.0) (f ctx'))
      → Ends (λ r. P r.0) (otherwise i ctx f)
  unfolding otherwise
  otherwise-Ends i ctx f h = go (statement_at ctx.block i)
    where
      go :
          (o : Option Statement)
          → Ends
              (λ (r : R × BlockContext). P r.0)
              (elim o [
                | some (if_statement condition accept reject) ↦ do
                  (res, ctx') ← f (record ctx { block = reject })
                  ok (
                    res,
                    record ctx' {
                      block = set_statement ctx.block i (if_statement condition accept ctx'.block);
                    },
                  )
                | _ ↦ err malformed
              ])
      go none = λ e. cc
      go (some (if_statement condition accept reject)) =
          Ends-bind (λ r. P r.0) (λ r. P r.0) (f _) _ (h _) (λ r p. p)
      go (some (emit a b)) = λ e. cc
      go (some (store_statement a b)) = λ e. cc
      go (some (loop_statement b)) = λ e. cc
      go (some (call_statement g a r)) = λ e. cc
      go (some (return_statement v)) = λ e. cc
      go (some break_statement) = λ e. cc
      go (some continue_statement) = λ e. cc

module _ {ℓ κ} {R : Type ℓ} {B : Type κ} (P : R → Type 0) (Q : B → Type 0) where
  pub try_then-bind :
      (ctx : BlockContext) (c : ℕ) (f : BlockContext → Outcome (R × BlockContext))
      (rest : R × ℕ × BlockContext → Outcome B)
      → ((ctx' : BlockContext) → Ends (λ r. P r.0) (f ctx'))
      → ((t : R × ℕ × BlockContext) → P t.0 → Ends Q (rest t))
      → Ends Q (try_then ctx c f >>= rest)
  try_then-bind ctx c f rest h k =
      Ends-bind (λ t. P t.0) Q (try_then ctx c f) rest (try_then-Ends P ctx c f h) k

  pub cycle-bind :
      (ctx : BlockContext) (f : BlockContext → Outcome (R × BlockContext))
      (rest : R × BlockContext → Outcome B)
      → ((ctx' : BlockContext) → Ends (λ r. P r.0) (f ctx'))
      → ((t : R × BlockContext) → P t.0 → Ends Q (rest t))
      → Ends Q (cycle ctx f >>= rest)
  cycle-bind ctx f rest h k = Ends-bind (λ t. P t.0) Q (cycle ctx f) rest (cycle-Ends P ctx f h) k

  pub otherwise-bind :
      (i : ℕ) (ctx : BlockContext) (f : BlockContext → Outcome (R × BlockContext))
      (rest : R × BlockContext → Outcome B)
      → ((ctx' : BlockContext) → Ends (λ r. P r.0) (f ctx'))
      → ((t : R × BlockContext) → P t.0 → Ends Q (rest t))
      → Ends Q (otherwise i ctx f >>= rest)
  otherwise-bind i ctx f rest h k =
      Ends-bind (λ t. P t.0) Q (otherwise i ctx f) rest (otherwise-Ends P i ctx f h) k

pub do_br_if-Ends : (self : ActiveBlock) (depth : ℕ) → Ends Any (do_br_if self depth)
unfolding do_br_if
do_br_if-Ends self depth =
    Ends-bind Any Any (pop_condition self) _ (pop_condition-Ends self)
      (λ r _. Ends-bind Any Any _ _ (try_then-Ends Any _ _ _ (λ _. tt)) (λ _ _. tt))
