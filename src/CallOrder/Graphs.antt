-- ===== src/CallOrder/Graphs.antt =====
-- An implementation of the interface of graphs on lists, which shows that it can be met.
use wasm_gpu.Prelude.{
  ℕ, zero, suc, ◌-◌, ◌<◌, ◌≡◌, refl, sym, ap, Bool, false, ◌||◌, ◌==◌, Bool-cases, inl, inr, List,
  [], ◌∷◌, ◌++◌, length, get_elem?, All, All-map_pred, Option, none, some, ok, if◌then◌else◌, arith,
  ok-injective,
}
use wasm_gpu.CallOrder.{DiGraphs, Distinct, swap_remove}

abbrev pub renamed : ℕ → ℕ → ℕ → ℕ
renamed i last j = if j == last then i else j

-- The edges that do not touch a removed node, the last index renamed to it.
abbrev pub edges_without : ℕ → ℕ → List (ℕ × ℕ) → List (ℕ × ℕ)
edges_without i last [] = []
edges_without i last (e ∷ es) =
    let rest = edges_without i last es in
    if e.0 == i || e.1 == i then rest else (renamed i last e.0, renamed i last e.1) ∷ rest

abbrev pub entered : ℕ → List (ℕ × ℕ) → Bool
entered i [] = false
entered i (e ∷ es) = e.1 == i || entered i es

abbrev pub leaving : ℕ → List (ℕ × ℕ) → ℕ
leaving i [] = 0
leaving i (e ∷ es) = let rest = leaving i es in if e.0 == i then suc rest else rest

-- The indices below a number that no edge enters, the greatest first.
abbrev pub external_below : ℕ → List (ℕ × ℕ) → List ℕ
external_below zero es = []
external_below (suc n) es =
    let rest = external_below n es in if entered n es then rest else n ∷ rest

pub external_below-valid : (n : ℕ) (es : List (ℕ × ℕ)) → All (λ i. i < n) (external_below n es)
external_below-valid zero es = tt
external_below-valid (suc n) es =
    let wider =
      All-map_pred (λ i. i < n) (λ i. i < suc n) (external_below n es) (λ i h. omega (arith, h))
        (external_below-valid n es) in
    elim (Bool-cases (entered n es)) [ inl e ↦ rw e wider | inr e ↦ rw e (omega arith, wider) ]

pub external_below-Distinct : (n : ℕ) (es : List (ℕ × ℕ)) → Distinct (external_below n es)
external_below-Distinct zero es = tt
external_below-Distinct (suc n) es = elim (Bool-cases (entered n es)) [
  | inl e ↦ rw e (external_below-Distinct n es)
  | inr e ↦ rw e (
    All-map_pred (λ i. i < n) (λ i. n ≡ i → ⊥) (external_below n es)
        (λ i h same. omega (arith, h, same)) (external_below-valid n es),
    external_below-Distinct n es,
  )
]

module _ {N : Type 0} where
  abbrev pub removed : List N × List (ℕ × ℕ) → ℕ → Option N → Option (N × (List N × List (ℕ × ℕ)))
  removed g i none = none
  removed g i (some w) = some (w, (swap_remove g.0 i, edges_without i (length g.0 - 1) g.1))

abbrev pub list_graphs : {N : Type 0} → DiGraphs N
list_graphs {N} = record {
  Graph = List N × List (ℕ × ℕ);
  weights = λ g. g.0;
  edges = λ g. g.1;
  empty = ([], []);
  add_node = λ g w. (length g.0, (g.0 ++ w ∷ [], g.1));
  add_edge = λ g a b. ok (g.0, g.1 ++ (a, b) ∷ []);
  remove_node = λ g i. removed g i (get_elem? g.0 i);
  node_count = λ g. length g.0;
  externals = λ g. external_below (length g.0) g.1;
  out_degree = λ g i. leaving i g.1;
  weights-empty = refl;
  weights-add_node = λ g w. (refl, refl);
  edges-add_edge = λ g a b g' h. (
    sym (ap (λ (x : List N × List (ℕ × ℕ)). x.0) (ok-injective h)),
    sym (ap (λ (x : List N × List (ℕ × ℕ)). x.1) (ok-injective h)),
  );
  remove_node-some = λ g i w h.
      ((swap_remove g.0 i, edges_without i (length g.0 - 1) g.1), ap (removed g i) h, refl);
  node_count-weights = λ g. refl;
  externals-valid =
      λ g. (external_below-valid (length g.0) g.1, external_below-Distinct (length g.0) g.1);
}
