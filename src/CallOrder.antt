-- ===== src/CallOrder.antt =====
-- wasm-gpu-transpiler/src/assembled_module/call_graph.rs: the graph of direct calls and the order in
-- which the functions are put into the shader. The graphs of the crate petgraph are an interface, with a
-- view of a graph as the list of its node weights, by index, and the list of its edges.
pub mod Terminates
pub mod Lookup
pub mod Calls
pub mod Graphs
use wasm_gpu.Prelude.{
  ℕ, zero, suc, ◌+◌, ◌<◌, ◌≡◌, Bool, true, false, ltb, leb, ◌==◌, List, [], ◌∷◌, ◌++◌, length,
  get_elem?, All, Option, none, some, Outcome, ok, err, ◌>>=◌, ◌>>◌, assert, expect, malformed,
  assertion_failed, out_of_fuel, if◌then◌else◌,
}
use wasm_gpu.Functions.{FuncUnit}

-- The last entry of a list takes the place of the removed one.
unfoldable pub put_at {ℓ} : {A : Type ℓ} → List A → ℕ → A → List A
put_at [] i a = []
put_at (x ∷ xs) zero a = a ∷ xs
put_at (x ∷ xs) (suc i) a = x ∷ put_at xs i a

unfoldable pub without_last {ℓ} : {A : Type ℓ} → List A → List A
without_last [] = []
without_last (x ∷ []) = []
without_last (x ∷ y ∷ xs) = x ∷ without_last (y ∷ xs)

unfoldable pub last_or {ℓ} : {A : Type ℓ} → A → List A → A
last_or a [] = a
last_or a (x ∷ xs) = last_or x xs

unfoldable pub swap_remove {ℓ} : {A : Type ℓ} → List A → ℕ → List A
unfolding put_at without_last last_or
swap_remove [] i = []
swap_remove (x ∷ xs) i = without_last (put_at (x ∷ xs) i (last_or x xs))

abbrev pub Distinct : List ℕ → Type 0
Distinct [] = Unit
Distinct (x ∷ xs) = All (λ y. x ≡ y → ⊥) xs × Distinct xs

-- `petgraph::Graph` with nodes of a type and edges that carry nothing.
pub record DiGraphs (N : Type 0) : Type 1 where
  pub Graph : Type 0
  pub weights : Graph → List N
  pub edges : Graph → List (ℕ × ℕ)
  pub empty : Graph
  pub add_node : Graph → N → ℕ × Graph
  pub add_edge : Graph → ℕ → ℕ → Outcome Graph
  pub remove_node : Graph → ℕ → Option (N × Graph)
  pub node_count : Graph → ℕ
  pub externals : Graph → List ℕ
  pub out_degree : Graph → ℕ → ℕ
  pub weights-empty : weights empty ≡ []
  pub weights-add_node :
      (g : Graph) (w : N)
      → ((add_node g w).0 ≡ length (weights g)) × (weights (add_node g w).1 ≡ weights g ++ w ∷ [])
  pub edges-add_edge :
      (g : Graph) (a b : ℕ) (g' : Graph)
      → add_edge g a b ≡ ok g'
      → (weights g' ≡ weights g) × (edges g' ≡ edges g ++ (a, b) ∷ [])
  pub remove_node-some :
      (g : Graph) (i : ℕ) (w : N)
      → get_elem? (weights g) i ≡ some w
      → (g' : Graph) × (remove_node g i ≡ some (w, g')) × (weights g' ≡ swap_remove (weights g) i)
  pub node_count-weights : (g : Graph) → node_count g ≡ length (weights g)
  pub externals-valid :
      (g : Graph) → All (λ i. i < length (weights g)) (externals g) × Distinct (externals g)

-- `sorted` and `rev` of the iterators.
unfoldable pub insert_sorted : ℕ → List ℕ → List ℕ
insert_sorted n [] = n ∷ []
insert_sorted n (m ∷ ms) = if leb n m then n ∷ m ∷ ms else m ∷ insert_sorted n ms

unfoldable pub sorted : List ℕ → List ℕ
unfolding insert_sorted
sorted [] = []
sorted (n ∷ ns) = insert_sorted n (sorted ns)

unfoldable pub rev : List ℕ → List ℕ
rev [] = []
rev (n ∷ ns) = rev ns ++ n ∷ []

module _ {N : Type 0} (P : DiGraphs N) where
  open P use {Graph, add_edge, remove_node, node_count, externals, out_degree}

  unfoldable pub get_externals : Graph → List ℕ
  unfolding sorted rev
  get_externals calls = rev (sorted (externals calls))

  -- The loop over the externals, which pushes each removed node on the order.
  unfoldable pub remove_all : List ℕ → Graph → List N → Outcome (List N × Graph)
  remove_all [] calls call_order = ok (call_order, calls)
  remove_all (external ∷ others) calls call_order =
      expect (remove_node calls external) malformed >>= λ removed.
      remove_all others removed.1 (call_order ++ removed.0 ∷ [])

  -- `while externals.len() != 0`, on fuel.
  unfoldable pub remove_rounds : ℕ → Graph → List N → Outcome (List N × Graph)
  unfolding get_externals remove_all
  remove_rounds zero calls call_order = elim (get_externals calls) [
    | [] ↦ ok (call_order, calls)
    | _ ∷ _ ↦ err out_of_fuel
  ]
  remove_rounds (suc fuel) calls call_order = elim (get_externals calls) [
    | [] ↦ ok (call_order, calls)
    | first ∷ others ↦
        remove_all (first ∷ others) calls call_order >>= λ r. remove_rounds fuel r.1 r.0
  ]

  -- `max_by_key` over the indices below a number: the last one with the most outgoing edges.
  unfoldable pub max_connected : Graph → ℕ → Option ℕ
  max_connected calls zero = none
  max_connected calls (suc n) = elim (max_connected calls n) [
    | none ↦ some n
    | some best ↦ if leb (out_degree calls best) (out_degree calls n) then some n else some best
  ]

  -- What follows the rounds: the most connected node is taken out, and the loop goes on.
  unfoldable pub take_max : (Graph → List N → Outcome (List N)) → List N × Graph → Outcome (List N)
  unfolding max_connected
  take_max continue r = elim (max_connected r.1 (node_count r.1)) [
    | some max_node ↦ expect (remove_node r.1 max_node) malformed >>= λ removed.
        continue removed.1 (r.0 ++ removed.0 ∷ [])
    | none ↦ assert (node_count r.1 == 0) assertion_failed >> continue r.1 r.0
  ]

  -- `while self.calls.node_count() != 0`, on fuel.
  unfoldable pub order_loop : ℕ → Graph → List N → Outcome (List N)
  unfolding remove_rounds take_max
  order_loop zero calls call_order =
      if node_count calls == 0 then ok call_order else err out_of_fuel
  order_loop (suc fuel) calls call_order =
      if node_count calls == 0
      then ok call_order
      else (remove_rounds (node_count calls) calls call_order
          >>= take_max (λ rest found. order_loop fuel rest found))

  -- With as much fuel as there are nodes.
  unfoldable pub to_call_order : Graph → Outcome (List N)
  unfolding order_loop
  to_call_order calls = order_loop (node_count calls) calls []
