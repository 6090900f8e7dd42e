-- ===== src/LinkedStack.antt =====
-- wasm-gpu-transpiler/src/linked_stack.rs: a stack whose nodes borrow the node below them. A node
-- that is borrowed cannot change, so a reference to it is the node.
pub mod Peeking
use wasm_gpu.Prelude.{ℕ, zero, suc, List, [], ◌∷◌, Option, none, some}

-- A node without a parent, and one above its parent.
pub data LinkedStack {ℓ} (A : Type ℓ) : Type ℓ where
  bottom : A → LinkedStack A
  above : A → LinkedStack A → LinkedStack A

pub record PeekedLinkedStack {ℓ} (A : Type ℓ) : Type ℓ where
  pub node : LinkedStack A
  pub remaining : ℕ

module _ {ℓ} {A : Type ℓ} where
  unfoldable pub new : A → LinkedStack A
  new value = bottom value

  unfoldable pub push : LinkedStack A → A → LinkedStack A
  push self value = above value self

  unfoldable pub peek : LinkedStack A → A
  peek (bottom value) = value
  peek (above value parent) = value

  -- The value of the top, which `self` gives up.
  unfoldable pub pop : LinkedStack A → A
  pop (bottom value) = value
  pop (above value below) = value

  unfoldable pub parent : LinkedStack A → Option (LinkedStack A)
  parent (bottom value) = none
  parent (above value below) = some below

  -- The loop of `peek_nth`, and what it ends in.
  unfoldable pub peek_nth : LinkedStack A → ℕ → Option A
  unfolding peek parent
  peek_nth self zero = some (peek self)
  peek_nth self (suc index) = elim (parent self) [ none ↦ none | some node ↦ peek_nth node index ]

  unfoldable pub peek_n : LinkedStack A → ℕ → PeekedLinkedStack A
  peek_n self len = record { node = self; remaining = len }

  -- `next` of the iterator: the item and the iterator that is left, or nothing.
  unfoldable pub next : PeekedLinkedStack A → Option (A × PeekedLinkedStack A)
  unfolding peek parent
  next self = elim (self.remaining) [
    | zero ↦ none
    | suc remaining ↦ some (
      peek self.node,
      elim (parent self.node) [
        | some node ↦ record { node = node; remaining = remaining }
        | none ↦ record { node = self.node; remaining = 0 }
      ],
    )
  ]

  -- The items that an iterator gives in at most `fuel` steps.
  unfoldable pub collect : ℕ → PeekedLinkedStack A → List A
  unfolding next
  collect zero it = []
  collect (suc fuel) it = elim (next it) [ none ↦ [] | some p ↦ p.0 ∷ collect fuel p.1 ]
