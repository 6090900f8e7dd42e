-- ===== src/Tests/Order.antt =====
-- The theorems about the order of calls at concrete inputs.
use mathlib.Core.List.{Perm}
use wasm_gpu.Prelude.{ℕ, ◌≡◌, refl, ltb, List, [], ◌∷◌, get_elem?, some, ok, arith}
use wasm_gpu.Functions.{FuncUnit}
use wasm_gpu.CallOrder.{to_call_order}
use wasm_gpu.CallOrder.Calls.{
  CallOperator, call, return_call, not_a_call, called_function, funcrefs_from, calculate,
  to_call_order-calculate,
}
use wasm_gpu.CallOrder.Lookup.{new, get, can_f1_call_f2, new-inverse}
use wasm_gpu.CallOrder.Graphs.{list_graphs}
use wasm_gpu.CallOrder

abbrev calling : List CallOperator → FuncUnit CallOperator
calling operators = record {
  body = record {
    ty = record { params = []; results = [] };
    locals = [];
    operators = operators;
    types = [];
  };
  accessible = record {
    func_index_lookup = some 0 ∷ some 1 ∷ some 2 ∷ [];
    global_index_lookup = [];
    element_index_lookup = [];
    table_index_lookup = [];
    data_index_lookup = [];
    memory_index_lookup = [];
  };
}

-- The first two call one another, and the third calls the first.
abbrev three_functions : List (FuncUnit CallOperator)
three_functions =
    calling (call 1 ∷ []) ∷ calling (not_a_call ∷ return_call 0 ∷ []) ∷ calling (call 0 ∷ []) ∷ []

abbrev three_calls : CallOrder.DiGraphs.Graph (list_graphs {N = ℕ})
three_calls = (0 ∷ 1 ∷ 2 ∷ [], (0, 1) ∷ (1, 0) ∷ (2, 0) ∷ [])

to_call_order-calculate_example :
    (ptrs : List ℕ) × (funcrefs_from 0 three_functions ≡ ok ptrs)
    × (call_order : List ℕ) × (to_call_order (list_graphs {N = ℕ}) three_calls ≡ ok call_order)
    × Perm call_order ptrs
unfolding calculate called_function
to_call_order-calculate_example =
    to_call_order-calculate called_function list_graphs three_functions three_calls refl

three_calls_order : to_call_order (list_graphs {N = ℕ}) three_calls ≡ ok (2 ∷ 1 ∷ 0 ∷ [])
unfolding to_call_order CallOrder.swap_remove
three_calls_order = refl

new-inverse_example :
    ((i f : ℕ)
      → (get_elem? (2 ∷ 1 ∷ 0 ∷ []) i ≡ some f → get (new (2 ∷ 1 ∷ 0 ∷ [])).lookup f ≡ some i)
        × (get (new (2 ∷ 1 ∷ 0 ∷ [])).lookup f ≡ some i → get_elem? (2 ∷ 1 ∷ 0 ∷ []) i ≡ some f))
    × ((i j f1 f2 : ℕ)
        → get_elem? (2 ∷ 1 ∷ 0 ∷ []) i ≡ some f1
        → get_elem? (2 ∷ 1 ∷ 0 ∷ []) j ≡ some f2
        → can_f1_call_f2 (new (2 ∷ 1 ∷ 0 ∷ [])) f1 f2 ≡ ltb i j)
new-inverse_example =
    new-inverse (2 ∷ 1 ∷ 0 ∷ [])
      ((λ e. omega arith, (λ e. omega arith, tt)), ((λ e. omega arith, tt), (tt, tt)))
