-- ===== src/CallOrder/Calls.antt =====
-- call_graph.rs (`CallGraph::calculate`) and wasm_front.rs (`all_funcrefs`): the graph of the direct calls.
-- Function references are their numbers. The section is over any operators and the function that one calls
-- directly, by its index in the module; `called_function` is that of the source.
use mathlib.Core.List.{Perm}
use wasm_gpu.Prelude.{
  ℕ, suc, ◌-◌, ◌≡◌, sym, ap, subst, ◌∙◌, ltb, List, [], ◌∷◌, ◌++◌, append_assoc, append-nil,
  get_elem?, Option, none, some, Outcome, ok, ◌>>=◌, ◌>>◌, >>=-eq-ok, ok-injective, assert, expect,
  malformed, out_of_range, u32_mod,
}
use wasm_gpu.Functions.{FuncUnit}
use wasm_gpu.CallOrder.{DiGraphs, to_call_order}
use wasm_gpu.CallOrder.Lookup.{get}
use wasm_gpu.CallOrder.Terminates.{to_call_order-perm}

-- The references of the functions from a place on; the last u32 is no reference.
unfoldable pub funcrefs_from : {A : Type 0} → ℕ → List A → Outcome (List ℕ)
funcrefs_from i [] = ok []
funcrefs_from i (_ ∷ functions) =
    assert (ltb i (u32_mod - 1)) out_of_range
    >> (funcrefs_from (suc i) functions >>= λ refs. ok (i ∷ refs))

-- The operators that the match of `add_local_function` tells apart, and the index of the called function.
pub data CallOperator : Type 0 where
  call return_call : ℕ → CallOperator
  not_a_call : CallOperator

unfoldable pub called_function : CallOperator → Option ℕ
called_function (call function_index) = some function_index
called_function (return_call function_index) = some function_index
called_function not_a_call = none

module _ {O : Type 0} (called : O → Option ℕ) (P : DiGraphs ℕ) where
  open P use {
    Graph, weights, empty, add_node, add_edge, weights-empty, weights-add_node, edges-add_edge,
  }

  -- The edge of one operator: of a direct call, or none.
  unfoldable pub add_call : List (ℕ × ℕ) → ℕ → List (Option ℕ) → Graph → Option ℕ → Outcome Graph
  unfolding get
  add_call nodes src_node func_index_lookup calls none = ok calls
  add_call nodes src_node func_index_lookup calls (some function_index) = do
    entry ← expect (get_elem? func_index_lookup function_index) malformed
    dst_ref ← expect entry malformed
    dest_node ← expect (get nodes dst_ref) malformed
    add_edge calls src_node dest_node

  -- The loop over the operators.
  unfoldable pub add_calls : List (ℕ × ℕ) → ℕ → List (Option ℕ) → List O → Graph → Outcome Graph
  unfolding add_call
  add_calls nodes src_node func_index_lookup [] calls = ok calls
  add_calls nodes src_node func_index_lookup (operator ∷ operators) calls =
      add_call nodes src_node func_index_lookup calls (called operator)
      >>= add_calls nodes src_node func_index_lookup operators

  unfoldable pub add_local_function : Graph → List (ℕ × ℕ) → ℕ → FuncUnit O → Outcome Graph
  unfolding add_calls
  add_local_function calls nodes src_node function =
      add_calls nodes src_node function.accessible.func_index_lookup function.body.operators calls

  -- The loop that adds the nodes: the map from references to nodes, and the graph.
  unfoldable pub add_nodes : List ℕ → List (ℕ × ℕ) → Graph → List (ℕ × ℕ) × Graph
  add_nodes [] nodes calls = (nodes, calls)
  add_nodes (ptr ∷ ptrs) nodes calls =
      let (node, calls') = add_node calls ptr in add_nodes ptrs (nodes ++ (ptr, node) ∷ []) calls'

  -- The loop over the references, which looks each function up.
  unfoldable pub add_functions : List (FuncUnit O) → List (ℕ × ℕ) → List ℕ → Graph → Outcome Graph
  unfolding add_local_function get
  add_functions functions nodes [] calls = ok calls
  add_functions functions nodes (ptr ∷ ptrs) calls =
      expect (get nodes ptr) malformed >>= λ src_node.
      expect (get_elem? functions ptr) malformed >>= λ function.
      add_local_function calls nodes src_node function >>= add_functions functions nodes ptrs

  unfoldable pub calculate : List (FuncUnit O) → Outcome Graph
  unfolding funcrefs_from add_nodes add_functions
  calculate functions = funcrefs_from 0 functions >>= λ ptrs.
      (let (nodes, calls) = add_nodes ptrs [] empty in add_functions functions nodes ptrs calls)

  add_call-weights :
      (nodes : List (ℕ × ℕ)) (src_node : ℕ) (lookup : List (Option ℕ)) (calls calls' : Graph)
      (call : Option ℕ)
      → add_call nodes src_node lookup calls call ≡ ok calls'
      → weights calls' ≡ weights calls
  unfolding add_call
  add_call-weights nodes src_node lookup calls calls' none h = sym (ap weights (ok-injective h))
  add_call-weights nodes src_node lookup calls calls' (some i) h =
      let (entry, _, h1) = >>=-eq-ok (expect (get_elem? lookup i) malformed) _ h in
      let (dst_ref, _, h2) = >>=-eq-ok (expect entry malformed) _ h1 in
      let (dest_node, _, h3) = >>=-eq-ok (expect (get nodes dst_ref) malformed) _ h2 in
      (edges-add_edge calls src_node dest_node calls' h3).0

  add_calls-weights :
      (nodes : List (ℕ × ℕ)) (src_node : ℕ) (lookup : List (Option ℕ)) (operators : List O)
      (calls calls' : Graph)
      → add_calls nodes src_node lookup operators calls ≡ ok calls'
      → weights calls' ≡ weights calls
  unfolding add_calls
  add_calls-weights nodes src_node lookup [] calls calls' h = sym (ap weights (ok-injective h))
  add_calls-weights nodes src_node lookup (operator ∷ operators) calls calls' h =
      let (next, e, h1) = >>=-eq-ok (add_call nodes src_node lookup calls (called operator)) _ h in
      add_calls-weights nodes src_node lookup operators next calls' h1
      ∙ add_call-weights nodes src_node lookup calls next (called operator) e

  add_functions-weights :
      (functions : List (FuncUnit O)) (nodes : List (ℕ × ℕ)) (ptrs : List ℕ) (calls calls' : Graph)
      → add_functions functions nodes ptrs calls ≡ ok calls'
      → weights calls' ≡ weights calls
  unfolding add_functions add_local_function
  add_functions-weights functions nodes [] calls calls' h = sym (ap weights (ok-injective h))
  add_functions-weights functions nodes (ptr ∷ ptrs) calls calls' h =
      let (src_node, _, h1) = >>=-eq-ok (expect (get nodes ptr) malformed) _ h in
      let (function, _, h2) = >>=-eq-ok (expect (get_elem? functions ptr) malformed) _ h1 in
      let (next, e, h3) = >>=-eq-ok (add_local_function calls nodes src_node function) _ h2 in
      add_functions-weights functions nodes ptrs next calls' h3
      ∙ add_calls-weights nodes src_node function.accessible.func_index_lookup
          function.body.operators calls next e

  add_nodes-weights :
      (ptrs : List ℕ) (nodes : List (ℕ × ℕ)) (calls : Graph)
      → weights (add_nodes ptrs nodes calls).1 ≡ weights calls ++ ptrs
  unfolding add_nodes
  add_nodes-weights [] nodes calls = sym (append-nil (weights calls))
  add_nodes-weights (ptr ∷ ptrs) nodes calls =
      let (node, calls') = add_node calls ptr in
      add_nodes-weights ptrs (nodes ++ (ptr, node) ∷ []) calls'
      ∙ ap (λ l. l ++ ptrs) (weights-add_node calls ptr).1
      ∙ append_assoc (weights calls) (ptr ∷ []) ptrs

  -- The call order of the functions of a store set: where the graph of calls can be made, that is where
  -- every call leads to a function of the set, the order is found, whether or not functions call one
  -- another in a circle, and is a permutation of the references of all functions.
  pub to_call_order-calculate :
      (functions : List (FuncUnit O)) (calls : Graph)
      → calculate functions ≡ ok calls
      → (ptrs : List ℕ) × (funcrefs_from 0 functions ≡ ok ptrs)
        × (call_order : List ℕ) × (to_call_order P calls ≡ ok call_order)
        × Perm call_order ptrs
  unfolding calculate
  to_call_order-calculate functions calls h =
      let (ptrs, e, h1) = >>=-eq-ok (funcrefs_from 0 functions) _ h in
      let start = add_nodes ptrs [] empty in
      let same : weights calls ≡ ptrs =
        add_functions-weights functions start.0 ptrs start.1 calls h1
        ∙ add_nodes-weights ptrs [] empty
        ∙ ap (λ l. l ++ ptrs) weights-empty in
      let (call_order, found, perm) = to_call_order-perm P calls in
      (ptrs, e, call_order, found, subst (Perm call_order) same perm)
