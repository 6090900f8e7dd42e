-- ===== src/ControlFlow/Labels.antt =====
-- active_block.rs (`push_store_break_top_n_parents`): which blocks a branch marks.
use wasm_gpu.Prelude.{
  ℕ, zero, suc, ◌≡◌, ◌≢◌, sym, subst, ◌∙◌, List, [], ◌∷◌, some, get_elem?, take, All, All-get_elem?,
  arith,
}
use wasm_gpu.LinkedStack.{LinkedStack, peek_nth}
use wasm_gpu.LinkedStack.Peeking.{values, peek_nth-values, collect-peek_n}
use wasm_gpu.ControlFlow.{break_labels}

abbrev pub Distinct : List ℕ → Type 0
Distinct [] = Unit
Distinct (x ∷ xs) = All (λ y. x ≢ y) xs × Distinct xs

take-Distinct :
    (xs : List ℕ) (n : ℕ) {x : ℕ}
    → Distinct xs
    → get_elem? xs n ≡ some x
    → All (λ y. y ≢ x) (take n xs)
take-Distinct xs zero h e = tt
take-Distinct [] (suc n) h e = tt
take-Distinct (x ∷ xs) (suc n) h e =
    (All-get_elem? (λ y. x ≢ y) xs n h.0 e, take-Distinct xs n h.1 e)

-- A branch to the block at a relative depth marks the blocks inside of it, the innermost first, and not
-- the block itself: when the labels of the blocks differ, the label of the target is not among those
-- that are set. A branch of depth 0 sets nothing.
pub break_labels_miss_target :
    (labels : LinkedStack ℕ) (relative_depth target : ℕ)
    → Distinct (values labels)
    → peek_nth labels relative_depth ≡ some target
    → (break_labels labels relative_depth ≡ take relative_depth (values labels))
      × All (λ label. label ≢ target) (break_labels labels relative_depth)
unfolding break_labels
break_labels_miss_target labels relative_depth target h e =
    let inside = collect-peek_n relative_depth relative_depth labels (omega arith) in
    let found = sym (peek_nth-values labels relative_depth target).0 ∙ e in
    (
      inside,
      subst (All (λ label. label ≢ target)) (sym inside)
          (take-Distinct (values labels) relative_depth h found),
    )
