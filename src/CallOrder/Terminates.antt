-- ===== src/CallOrder/Terminates.antt =====
-- wasm-gpu-transpiler/src/assembled_module/call_graph.rs (`to_call_order`): the loops end, and the order
-- has every node once.
use mathlib.Core.List.{Perm}
use mathlib.Core.List.Perm
use wasm_gpu.Prelude.{
  ℕ, zero, suc, ◌+◌, ◌-◌, ◌<◌, ◌≤◌, ◌≡◌, refl, sym, ap, subst, ◌∙◌, Bool-cases, leb→le,
  leb_false→lt, inl, inr, ◌⊎◌, true, false, leb, ◌==◌, List, [], ◌∷◌, ◌++◌, append_assoc,
  append-nil, length, get_elem?, All, All-append, All-map_pred, some, Outcome, ok, arith,
}
use wasm_gpu.CallOrder.{
  DiGraphs, Distinct, put_at, without_last, last_or, swap_remove, insert_sorted, sorted, rev,
  get_externals, remove_all, remove_rounds, max_connected, take_max, order_loop, to_call_order,
}

module _ {ℓ} {A : Type ℓ} where
  get_elem?-some : (xs : List A) (i : ℕ) → i < length xs → (a : A) × (get_elem? xs i ≡ some a)
  get_elem?-some [] i h = absurd (omega arith)
  get_elem?-some (x ∷ xs) zero h = (x, refl)
  get_elem?-some (x ∷ xs) (suc i) h = get_elem?-some xs i (omega arith)

  length-put_at : (xs : List A) (i : ℕ) (a : A) → length (put_at xs i a) ≡ length xs
  unfolding put_at
  length-put_at [] i a = refl
  length-put_at (x ∷ xs) zero a = refl
  length-put_at (x ∷ xs) (suc i) a = ap suc (length-put_at xs i a)

  length-without_last : (xs : List A) → length (without_last xs) ≡ length xs - 1
  unfolding without_last
  length-without_last [] = refl
  length-without_last (x ∷ []) = refl
  length-without_last (x ∷ y ∷ xs) = omega (arith, length-without_last (y ∷ xs))

  length-swap_remove : (xs : List A) (i : ℕ) → length (swap_remove xs i) ≡ length xs - 1
  unfolding swap_remove
  length-swap_remove [] i = refl
  length-swap_remove (x ∷ xs) i =
      length-without_last (put_at (x ∷ xs) i (last_or x xs))
      ∙ ap (λ n. n - 1) (length-put_at (x ∷ xs) i (last_or x xs))

  -- The last entry behind the others.
  without_last-perm : (x : A) (xs : List A) → Perm (last_or x xs ∷ without_last (x ∷ xs)) (x ∷ xs)
  unfolding without_last last_or
  without_last-perm x [] = Perm.refl (x ∷ [])
  without_last-perm x (y ∷ xs) =
      Perm.trans (Perm.swap x (last_or y xs) (without_last (y ∷ xs)))
        (Perm.cons x (without_last-perm y xs))

  last_or-same : (a : A) (xs : List A) (x : A) → last_or x xs ≡ a → last_or a xs ≡ a
  unfolding last_or
  last_or-same a [] x h = refl
  last_or-same a (y ∷ xs) x h = h

  last_or-put_at :
      (xs : List A) (i : ℕ) (d a : A) → last_or d xs ≡ a → last_or d (put_at xs i a) ≡ a
  unfolding last_or put_at
  last_or-put_at [] i d a h = h
  last_or-put_at (x ∷ xs) zero d a h = last_or-same a xs x h
  last_or-put_at (x ∷ xs) (suc i) d a h = last_or-put_at xs i x a h

  put_at-perm :
      (xs : List A) (i : ℕ) (a b : A) → get_elem? xs i ≡ some a → Perm (a ∷ put_at xs i b) (b ∷ xs)
  unfolding put_at
  put_at-perm [] i a b h = cc
  put_at-perm (x ∷ xs) zero a b h =
      subst (λ c. Perm (c ∷ b ∷ xs) (b ∷ x ∷ xs)) (some_lem h) (Perm.swap b x xs)
    where
      some_lem : {c d : A} → some c ≡ some d → c ≡ d
      some_lem e = cc
  put_at-perm (x ∷ xs) (suc i) a b h =
      Perm.trans (Perm.swap x a (put_at xs i b))
        (Perm.trans (Perm.cons x (put_at-perm xs i a b h)) (Perm.swap b x xs))

  -- The list in which the last entry was put, without its last entry.
  last-perm :
      (x : A) (xs : List A) (i : ℕ)
      → Perm
          (last_or x xs ∷ without_last (put_at (x ∷ xs) i (last_or x xs)))
          (put_at (x ∷ xs) i (last_or x xs))
  unfolding put_at
  last-perm x xs zero =
      let l = last_or x xs in
      subst (λ a. Perm (a ∷ without_last (l ∷ xs)) (l ∷ xs)) (last_or-same l xs x refl)
        (without_last-perm l xs)
  last-perm x xs (suc i) =
      let l = last_or x xs in
      subst (λ a. Perm (a ∷ without_last (x ∷ put_at xs i l)) (x ∷ put_at xs i l))
        (last_or-put_at xs i x l refl) (without_last-perm x (put_at xs i l))

  -- Taking out an entry and putting the last one in its place keeps the others.
  swap_remove-perm :
      (xs : List A) (i : ℕ) (a : A) → get_elem? xs i ≡ some a → Perm (a ∷ swap_remove xs i) xs
  unfolding swap_remove
  swap_remove-perm [] i a h = cc
  swap_remove-perm (x ∷ xs) i a h =
      let l = last_or x xs in
      let rest = without_last (put_at (x ∷ xs) i l) in
      Perm.cons_inv {a = l} (
        Perm.trans (Perm.swap a l rest)
          (Perm.trans (Perm.cons a (last-perm x xs i)) (put_at-perm (x ∷ xs) i a l h)))

-- Indices from the greatest to the least, and from the least to the greatest.
abbrev Falls : List ℕ → Type 0
Falls [] = Unit
Falls (i ∷ is) = All (λ j. j < i) is × Falls is

abbrev Rises : List ℕ → Type 0
Rises [] = Unit
Rises (i ∷ is) = All (λ j. i < j) is × Rises is

All-insert_sorted :
    (P : ℕ → Type 0) (n : ℕ) (ns : List ℕ) → P n → All P ns → All P (insert_sorted n ns)
unfolding insert_sorted
All-insert_sorted P n [] h hs = (h, tt)
All-insert_sorted P n (m ∷ ns) h hs = elim (Bool-cases (leb n m)) [
  | inl e ↦ rw e (h, hs)
  | inr e ↦ rw e (hs.0, All-insert_sorted P n ns h hs.1)
]

All-sorted : (P : ℕ → Type 0) (ns : List ℕ) → All P ns → All P (sorted ns)
unfolding sorted
All-sorted P [] hs = tt
All-sorted P (n ∷ ns) hs = All-insert_sorted P n (sorted ns) hs.0 (All-sorted P ns hs.1)

All-rev : (P : ℕ → Type 0) (ns : List ℕ) → All P ns → All P (rev ns)
unfolding rev
All-rev P [] hs = tt
All-rev P (n ∷ ns) hs = All-append P (rev ns) (n ∷ []) (All-rev P ns hs.1) (hs.0, tt)

All_trans : (n m : ℕ) (ns : List ℕ) → n < m → All (λ j. m < j) ns → All (λ j. n < j) ns
All_trans n m [] h hs = tt
All_trans n m (k ∷ ns) h hs = (omega (arith, hs.0), All_trans n m ns h hs.1)

Rises-insert_sorted :
    (n : ℕ) (ns : List ℕ) → All (λ m. n ≡ m → ⊥) ns → Rises ns → Rises (insert_sorted n ns)
unfolding insert_sorted
Rises-insert_sorted n [] h hs = (tt, tt)
Rises-insert_sorted n (m ∷ ns) h hs = elim (Bool-cases (leb n m)) [
  | inl e ↦ rw e ((less e, All_trans n m ns (less e) hs.0), hs)
  | inr e ↦
      rw e (All-insert_sorted (λ j. m < j) n ns (more e) hs.0, Rises-insert_sorted n ns h.1 hs.1)
]
  where
    less : leb n m ≡ true → n < m
    less e = ground (arith, leb→le n m e, h.0)

    more : leb n m ≡ false → m < n
    more e = leb_false→lt n m e

Rises-sorted : (ns : List ℕ) → Distinct ns → Rises (sorted ns)
unfolding sorted
Rises-sorted [] h = tt
Rises-sorted (n ∷ ns) h =
    Rises-insert_sorted n (sorted ns) (All-sorted (λ m. n ≡ m → ⊥) ns h.0) (Rises-sorted ns h.1)

Falls-snoc : (ns : List ℕ) (n : ℕ) → Falls ns → All (λ m. n < m) ns → Falls (ns ++ n ∷ [])
Falls-snoc [] n h hs = (tt, tt)
Falls-snoc (m ∷ ns) n h hs =
    (All-append (λ j. j < m) ns (n ∷ []) h.0 (hs.0, tt), Falls-snoc ns n h.1 hs.1)

Falls-rev : (ns : List ℕ) → Rises ns → Falls (rev ns)
unfolding rev
Falls-rev [] h = tt
Falls-rev (n ∷ ns) h = Falls-snoc (rev ns) n (Falls-rev ns h.1) (All-rev (λ m. n < m) ns h.0)

List-cases {ℓ} : {A : Type ℓ} (xs : List A) → (xs ≡ []) ⊎ ((y : A) × (ys : List A) × (xs ≡ y ∷ ys))
List-cases [] = inl refl
List-cases (x ∷ xs) = inr (x, xs, refl)

ℕ-cases : (n : ℕ) → (n ≡ 0) ⊎ ((m : ℕ) × (n ≡ suc m))
ℕ-cases zero = inl refl
ℕ-cases (suc n) = inr (n, refl)

length-zero {ℓ} : {A : Type ℓ} (xs : List A) → length xs ≡ 0 → xs ≡ []
length-zero [] h = refl
length-zero (x ∷ xs) h = absurd (omega arith)

module _ {N : Type 0} (P : DiGraphs N) where
  open P use {
    Graph, weights, remove_node, node_count, externals, out_degree, remove_node-some,
    node_count-weights, externals-valid,
  }

  -- A loop ends with the nodes that it removed behind the order, and the others left.
  abbrev Orders : Graph → List N → List N × Graph → Type 0
  Orders calls call_order r = Perm (r.0 ++ weights r.1) (call_order ++ weights calls)

  -- One removed node is behind the order and not among those that are left.
  removed-Orders :
      (calls calls' : Graph) (call_order : List N) (i : ℕ) (w : N)
      → get_elem? (weights calls) i ≡ some w
      → weights calls' ≡ swap_remove (weights calls) i
      → Orders calls call_order (call_order ++ w ∷ [], calls')
  removed-Orders calls calls' call_order i w h e =
      rw (e, append_assoc call_order (w ∷ []) (swap_remove (weights calls) i))
        (Perm.append_left call_order (swap_remove-perm (weights calls) i w h))

  remove_all_lem :
      (ids : List ℕ) (calls : Graph) (call_order : List N)
      → All (λ i. i < length (weights calls)) ids
      → Falls ids
      → (r : List N × Graph) × (remove_all P ids calls call_order ≡ ok r)
        × Orders calls call_order r
        × (length (weights r.1) + length ids ≡ length (weights calls))
  unfolding remove_all
  remove_all_lem [] calls call_order valid falls =
      ((call_order, calls), refl, Perm.refl _, omega arith)
  remove_all_lem (i ∷ ids) calls call_order valid falls =
      let (w, found) = get_elem?-some (weights calls) i valid.0 in
      let (calls', removed, left) = remove_node-some calls i w found in
      let fewer : length (weights calls') ≡ length (weights calls) - 1 =
        ap length left ∙ length-swap_remove (weights calls) i in
      let (r, e, orders, count) =
        remove_all_lem ids calls' (call_order ++ w ∷ [])
          (All-map_pred (λ j. j < i) (λ j. j < length (weights calls')) ids
            (λ j below. omega (arith, below, valid.0, fewer)) falls.0)
          falls.1 in
      (
        r,
        rw removed e,
        Perm.trans orders (removed-Orders calls calls' call_order i w found left),
        omega (arith, count, fewer, valid.0),
      )

  get_externals-Falls :
      (calls : Graph)
      → All (λ i. i < length (weights calls)) (get_externals P calls)
        × Falls (get_externals P calls)
  unfolding get_externals
  get_externals-Falls calls =
      let (valid, distinct) = externals-valid calls in
      (
        All-rev (λ i. i < length (weights calls)) (sorted (externals calls))
            (All-sorted (λ i. i < length (weights calls)) (externals calls) valid),
        Falls-rev (sorted (externals calls)) (Rises-sorted (externals calls) distinct),
      )

  remove_rounds_lem :
      (fuel : ℕ) (calls : Graph) (call_order : List N)
      → length (weights calls) ≤ fuel
      → (r : List N × Graph) × (remove_rounds P fuel calls call_order ≡ ok r)
        × Orders calls call_order r
        × (length (weights r.1) ≤ length (weights calls))
  unfolding remove_rounds
  remove_rounds_lem zero calls call_order room = elim (List-cases (get_externals P calls)) [
    | inl e ↦ ((call_order, calls), rw (e, remove_rounds) refl, Perm.refl _, omega arith)
    | inr (i, is, e) ↦
        let valid = subst (All (λ i. i < length (weights calls))) e (get_externals-Falls calls).0 in
        absurd (omega (arith, valid.0, room))
  ]
  remove_rounds_lem (suc fuel) calls call_order room = elim (List-cases (get_externals P calls)) [
    | inl e ↦ ((call_order, calls), rw (e, remove_rounds) refl, Perm.refl _, omega arith)
    | inr (i, is, e) ↦
        let (valid, falls) = get_externals-Falls calls in
        let (r, e1, orders, count) =
          remove_all_lem (i ∷ is) calls call_order
            (subst (All (λ i. i < length (weights calls))) e valid) (subst Falls e falls) in
        let (r', e2, orders', fewer) =
          remove_rounds_lem fuel r.1 r.0 (omega (arith, count, room)) in
        (r', rw (e, e1, remove_rounds) e2, Perm.trans orders' orders, omega (arith, fewer, count))
  ]

  max_connected_lem :
      (calls : Graph) (n : ℕ) → (i : ℕ) × (max_connected P calls (suc n) ≡ some i) × (i ≤ n)
  unfolding max_connected
  max_connected_lem calls zero = (0, refl, omega arith)
  max_connected_lem calls (suc n) =
      let (best, e, h) = max_connected_lem calls n in
      elim (Bool-cases (leb (out_degree calls best) (out_degree calls (suc n)))) [
        | inl more ↦ (suc n, rw (e, more) refl, omega arith)
        | inr less ↦ (best, rw (e, less) refl, omega (arith, h))
      ]

  -- What an order is at the end of the loop.
  abbrev Ordered : Graph → List N → List N → Type 0
  Ordered calls call_order result = Perm result (call_order ++ weights calls)

  Ordered-empty :
      (calls : Graph) (call_order : List N)
      → node_count calls ≡ 0
      → Ordered calls call_order call_order
  Ordered-empty calls call_order e =
      rw (length-zero (weights calls) (sym (node_count-weights calls) ∙ e), append-nil call_order)
        (Perm.refl call_order)

  order_loop-suc :
      (fuel n : ℕ) (calls : Graph) (call_order : List N) (r : List N × Graph)
      → node_count calls ≡ suc n
      → remove_rounds P (suc n) calls call_order ≡ ok r
      → order_loop P (suc fuel) calls call_order ≡ take_max P (order_loop P fuel) r
  unfolding order_loop
  order_loop-suc fuel n calls call_order r e e1 =
      let more : (node_count calls == 0) ≡ false = ground (arith, e) in
      rw (more, order_loop) (rw (e, order_loop) (rw e1 refl))

  -- What follows when the externals took everything, and when a node is taken out.
  take_max-last :
      (continue : Graph → List N → Outcome (List N)) (r : List N × Graph)
      → node_count r.1 ≡ 0
      → take_max P continue r ≡ continue r.1 r.0
  unfolding take_max max_connected
  take_max-last continue r e = rw (e, take_max) (rw e refl)

  take_max-more :
      (continue : Graph → List N → Outcome (List N)) (r : List N × Graph) (m i : ℕ) (w : N)
      (calls' : Graph)
      → node_count r.1 ≡ suc m
      → max_connected P r.1 (suc m) ≡ some i
      → remove_node r.1 i ≡ some (w, calls')
      → take_max P continue r ≡ continue calls' (r.0 ++ w ∷ [])
  unfolding take_max
  take_max-more continue r m i w calls' e e1 e2 = rw (e, take_max) (rw e1 (rw e2 refl))

  order_loop_lem :
      (fuel : ℕ) (calls : Graph) (call_order : List N)
      → length (weights calls) ≤ fuel
      → (result : List N) × (order_loop P fuel calls call_order ≡ ok result)
        × Ordered calls call_order result
  unfolding order_loop
  order_loop_lem zero calls call_order room =
      let e : node_count calls ≡ 0 = omega (arith, node_count-weights calls, room) in
      (call_order, rw e refl, Ordered-empty calls call_order e)
  order_loop_lem (suc fuel) calls call_order room = elim (ℕ-cases (node_count calls)) [
    | inl e ↦ (call_order, rw e refl, Ordered-empty calls call_order e)
    | inr (n, e) ↦
        let (r, e1, orders, fewer) =
          remove_rounds_lem (suc n) calls call_order (omega (arith, node_count-weights calls, e)) in
        elim (ℕ-cases (node_count r.1)) [
          | inl e2 ↦
              let (result, e3, ordered) =
                order_loop_lem fuel r.1 r.0 (omega (arith, node_count-weights r.1, e2)) in
              (
                result,
                order_loop-suc fuel n calls call_order r e e1
                    ∙ take_max-last (order_loop P fuel) r e2
                    ∙ e3,
                Perm.trans ordered orders,
              )
          | inr (m, e2) ↦
              let (i, e3, below) = max_connected_lem r.1 m in
              let (w, found) =
                get_elem?-some (weights r.1) i (omega (arith, below, e2, node_count-weights r.1)) in
              let (calls', removed, left) = remove_node-some r.1 i w found in
              let (result, e4, ordered) =
                order_loop_lem fuel calls' (r.0 ++ w ∷ []) (
                  omega
                    (arith, ap length left ∙ length-swap_remove (weights r.1) i, fewer, room)) in
              (
                result,
                order_loop-suc fuel n calls call_order r e e1
                    ∙ take_max-more (order_loop P fuel) r m i w calls' e2 e3 removed
                    ∙ e4,
                Perm.trans ordered
                    (Perm.trans (removed-Orders r.1 calls' r.0 i w found left) orders),
              )
        ]
  ]

  -- Whatever the calls are, corecursive or not, the loops end with as many rounds as there are nodes,
  -- each removed index is one of the graph when it is removed, and the order that they give has every
  -- function of the graph, each as often as the graph has it.
  pub to_call_order-perm :
      (calls : Graph)
      → (call_order : List N) × (to_call_order P calls ≡ ok call_order)
        × Perm call_order (weights calls)
  unfolding to_call_order
  to_call_order-perm calls =
      order_loop_lem (node_count calls) calls [] (omega (arith, node_count-weights calls))
