-- ===== src/Naga/Machine.antt =====
-- What the statements of a shader function do, by the documented meaning of the shading language: an
-- emitted expression is evaluated where it is emitted, and keeps its value.
use wasm_gpu.Prelude.{
  ℕ, zero, suc, ◌+◌, ◌-◌, ◌==◌, Bool, if◌then◌else◌, List, map, get_elem?, Option, none, some,
}
use wasm_gpu.Std.{StdFunction}
use wasm_gpu.Naga.{
  Literal, Constant, BinaryOperator, Expression, literal, constant, load, binary, local_variable,
  global_variable, Statement, Block, emit, store_statement, if_statement, loop_statement,
  call_statement, return_statement, break_statement, continue_statement, new_block, pushed,
}

-- The operations of the shading language on values `V` and the memory of an invocation `W`. `compute`
-- gives the expressions that have no clause below, by the values of the handles.
pub record Gpu (V W : Type 0) : Type 0 where
  pub literal_value : Literal → V
  pub constant_value : Constant → V
  pub operate : BinaryOperator → V → V → V
  pub compute : Expression → (ℕ → V) → V
  pub truth : V → Bool
  pub read : ℕ → W → V
  pub write : ℕ → V → W → W
  pub call : StdFunction → List V → W → V × W

-- The values of the emitted expressions and the results of calls, by their handles, the variables of
-- the function, and the memory.
pub record Machine (V W : Type 0) : Type 0 where
  pub values : ℕ → V
  pub variables : ℕ → V
  pub world : W

-- How a statement ends.
pub data Flow : Type 0 where
  falls breaks continues endless : Flow
  returns : Option ℕ → Flow

-- A function with one value replaced.
abbrev pub update {ℓ} : {A : Type ℓ} → (ℕ → A) → ℕ → A → ℕ → A
update f i a j = if i == j then a else f j

-- What follows a statement runs where it falls through.
abbrev pub andthen {ℓ} : {M : Type ℓ} → M × Flow → (M → M × Flow) → M × Flow
andthen (m, falls) next = next m
andthen (m, flow) next = (m, flow)

-- What follows a round of a loop.
abbrev pub round_ended {ℓ} : {M : Type ℓ} → M × Flow → (M → M × Flow) → M × Flow
round_ended (m, falls) next = next m
round_ended (m, continues) next = next m
round_ended (m, breaks) next = (m, falls)
round_ended (m, flow) next = (m, flow)

abbrev pub value_or {ℓ} : {A : Type ℓ} → Option A → A → A
value_or (some a) b = a
value_or none b = b

module _ {V W : Type 0} (gpu : Gpu V W) (arena : List Expression) where
  -- Literals and constants are never emitted: their values are known without running anything.
  abbrev pub static_value : Option Expression → Option V
  static_value (some (literal l)) = some (gpu.literal_value l)
  static_value (some (constant c)) = some (gpu.constant_value c)
  static_value _ = none

  -- The value of a handle.
  unfoldable pub value : Machine V W → ℕ → V
  value m h = value_or (static_value (get_elem? arena h)) (m.values h)

  abbrev load_by : Option Expression → ℕ → Machine V W → V
  load_by (some (local_variable i)) h m = m.variables i
  load_by (some (global_variable g)) h m = gpu.read g m.world
  load_by _ h m = m.values h

  unfoldable pub evaluate : Machine V W → Option Expression → ℕ → V
  unfolding value
  evaluate m (some (load pointer)) h = load_by (get_elem? arena pointer) pointer m
  evaluate m (some (binary op left right)) h = gpu.operate op (value m left) (value m right)
  evaluate m (some e) h = gpu.compute e (value m)
  evaluate m none h = m.values h

  -- One expression is emitted.
  unfoldable pub emit_one : ℕ → Machine V W → Machine V W
  unfolding evaluate
  emit_one h m = record m { values = update m.values h (evaluate m (get_elem? arena h) h) }

  -- The expressions of a range, which has `n` handles behind its first.
  unfoldable pub emit_range : ℕ → ℕ → Machine V W → Machine V W
  unfolding emit_one
  emit_range start zero m = emit_one start m
  emit_range start (suc n) m = emit_one (start + suc n) (emit_range start n m)

  abbrev store_by : Option Expression → V → Machine V W → Machine V W
  store_by (some (local_variable i)) v m = record m { variables = update m.variables i v }
  store_by (some (global_variable g)) v m = record m { world = gpu.write g v m.world }
  store_by _ v m = m

  abbrev set_result : Option ℕ → V × W → Machine V W → Machine V W
  set_result none r m = record m { world = r.1 }
  set_result (some h) r m = record m { values = update m.values h r.0; world = r.1 }

  -- The rounds of a loop: it ends where its body breaks or returns, and with an empty `continuing`
  -- block the body starts again otherwise.
  abbrev rounds : ℕ → (Machine V W → Machine V W × Flow) → Machine V W → Machine V W × Flow
  rounds zero body m = (m, endless)
  rounds (suc fuel) body m = round_ended (body m) (rounds fuel body)

  unfoldable mutual
    unfolding value emit_range

    pub exec_statement : ℕ → Statement → Machine V W → Machine V W × Flow
    exec_statement fuel (emit start end) m = (emit_range start (end - start) m, falls)
    exec_statement fuel (store_statement pointer v) m =
        (store_by (get_elem? arena pointer) (value m v) m, falls)
    exec_statement fuel (if_statement condition accept reject) m =
        if gpu.truth (value m condition) then exec_block fuel accept m else exec_block fuel reject m
    exec_statement fuel (loop_statement body) m = rounds fuel (exec_block fuel body) m
    exec_statement fuel (call_statement function arguments result) m =
        (set_result result (gpu.call function (map (value m) arguments) m.world) m, falls)
    exec_statement fuel (return_statement v) m = (m, returns v)
    exec_statement fuel break_statement m = (m, breaks)
    exec_statement fuel continue_statement m = (m, continues)

    pub exec_block : ℕ → Block → Machine V W → Machine V W × Flow
    exec_block fuel new_block m = (m, falls)
    exec_block fuel (pushed block statement) m =
        andthen (exec_block fuel block m) (exec_statement fuel statement)
