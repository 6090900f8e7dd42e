-- ===== src/Capability/Ids.antt =====
-- wasm-gpu/src/capabilities.rs: the ids and the recorded sizes of a store, and the loop of
-- `resize_ref` over them.
use wasm_gpu.Prelude.{
  ℕ, ◌<◌, ◌≤◌, ◌≡◌, refl, ◌∙◌, ap, Bool, true, false, ◌&&◌, ◌||◌, List, [], ◌∷◌, ◌++◌, All,
  All-append, arith, leb, ◌==◌, ==_iff, leb→le, if◌then◌else◌, inl, inr, Bool-cases,
}
use wasm_gpu.Capability.{contains, insert, resize_loop}

-- An id is recorded, with any size.
unfoldable pub has : List (ℕ × ℕ) → ℕ → Bool
has [] x = false
has ((size, id) ∷ rest) x = id == x || has rest x

-- An id is recorded with a size that fits.
pub keeps : ℕ → List (ℕ × ℕ) → ℕ → Bool
keeps n [] x = false
keeps n ((size, id) ∷ rest) x = (leb size n && id == x) || keeps n rest x

-- The size recorded last: the one that `new` or `resize_ref` was told.
unfoldable pub size : List (ℕ × ℕ) → ℕ
size [] = 0
size ((n, id) ∷ []) = n
size (p ∷ q ∷ rest) = size (q ∷ rest)

pub contains-insert :
    (id x : ℕ) (ids : List ℕ) → contains (insert id ids) x ≡ (id == x || contains ids x)
unfolding insert contains
contains-insert id x ids = elim (Bool-cases (contains ids id)) [
  | inl old ↦ rw old (elim (Bool-cases (id == x)) [
    | inl same ↦ rw same (rw ((==_iff id x).0 same) at old)
    | inr other ↦ rw other
  ])
  | inr fresh ↦ rw fresh
]

pub has-append : (xs ys : List (ℕ × ℕ)) (x : ℕ) → has (xs ++ ys) x ≡ (has xs x || has ys x)
unfolding has
has-append [] ys x = refl
has-append ((size, id) ∷ xs) ys x = ground (arith, has-append xs ys x)

contains_if_insert :
    (b : Bool) (id x : ℕ) (ids : List ℕ)
    → contains (if b then insert id ids else ids) x ≡ (contains ids x || (b && id == x))
contains_if_insert true id x ids = ground (arith, contains-insert id x ids)
contains_if_insert false id x ids = ground arith

has_if_append :
    (b : Bool) (size id x : ℕ) (l : List (ℕ × ℕ))
    → has (if b then l ++ (size, id) ∷ [] else l) x ≡ (has l x || (b && id == x))
unfolding has
has_if_append true size id x l = ground (arith, has-append l ((size, id) ∷ []) x)
has_if_append false size id x l = ground arith

-- The ids after the loop are those before it and the recorded ones whose size fits.
pub contains-resize_loop :
    (n : ℕ) (l : List (ℕ × ℕ)) (valid : List ℕ) (kept : List (ℕ × ℕ)) (x : ℕ)
    → contains (resize_loop n l valid kept).0 x ≡ (contains valid x || keeps n l x)
unfolding resize_loop keeps
contains-resize_loop n [] valid kept x = ground arith
contains-resize_loop n ((size, id) ∷ l) valid kept x =
    contains-resize_loop n l _ _ x ∙ ground (arith, contains_if_insert (leb size n) id x valid)

pub has-resize_loop :
    (n : ℕ) (l : List (ℕ × ℕ)) (valid : List ℕ) (kept : List (ℕ × ℕ)) (x : ℕ)
    → has (resize_loop n l valid kept).1 x ≡ (has kept x || keeps n l x)
unfolding resize_loop keeps
has-resize_loop n [] valid kept x = ground arith
has-resize_loop n ((size, id) ∷ l) valid kept x =
    has-resize_loop n l _ _ x ∙ ground (arith, has_if_append (leb size n) size id x kept)

All-if_append {κ} :
    (P : ℕ × ℕ → Type κ) (b : Bool) (p : ℕ × ℕ) (l : List (ℕ × ℕ))
    → (b ≡ true → P p)
    → All P l
    → All P (if b then l ++ p ∷ [] else l)
All-if_append P true p l hp hl = All-append P l _ hl (hp refl, tt)
All-if_append P false p l hp hl = hl

pub All-resize_loop {κ} :
    (P : ℕ × ℕ → Type κ) (n : ℕ) (l : List (ℕ × ℕ)) (valid : List ℕ) (kept : List (ℕ × ℕ))
    → All (λ p. p.0 ≤ n → P p) l
    → All P kept
    → All P (resize_loop n l valid kept).1
unfolding resize_loop
All-resize_loop P n [] valid kept hl hk = hk
All-resize_loop P n ((size, id) ∷ l) valid kept hl hk =
    All-resize_loop P n l _ _ hl.1
      (All-if_append P (leb size n) (size, id) kept (λ fits. hl.0 (leb→le size n fits)) hk)

-- Under the table of sizes, an id is kept if it is recorded and its size fits.
pub keeps-has :
    (reg : ℕ → ℕ) (n : ℕ) (l : List (ℕ × ℕ)) (x : ℕ)
    → All (λ p. reg p.1 ≡ p.0) l
    → keeps n l x ≡ (has l x && leb (reg x) n)
unfolding keeps has
keeps-has reg n [] x h = refl
keeps-has reg n ((size, id) ∷ l) x h = elim (Bool-cases (id == x)) [
  | inl same ↦ ground (arith, keeps-has reg n l x h.1, ap reg ((==_iff id x).0 same), h.0)
  | inr other ↦ ground (arith, keeps-has reg n l x h.1)
]

pub has-below :
    (counter : ℕ) (l : List (ℕ × ℕ)) (x : ℕ)
    → All (λ p. p.1 < counter) l
    → has l x ≡ true
    → x < counter
unfolding has
has-below counter [] x h e = cc
has-below counter ((size, id) ∷ l) x h e = elim (Bool-cases (id == x)) [
  | inl same ↦ omega (arith, (==_iff id x).0 same, h.0)
  | inr other ↦ has-below counter l x h.1 (rw other at e)
]

pub has_bounded :
    (reg : ℕ → ℕ) (n : ℕ) (l : List (ℕ × ℕ)) (x : ℕ)
    → All (λ p. (reg p.1 ≡ p.0) × (p.0 ≤ n)) l
    → has l x ≡ true
    → reg x ≤ n
unfolding has
has_bounded reg n [] x h e = cc
has_bounded reg n ((size, id) ∷ l) x h e = elim (Bool-cases (id == x)) [
  | inl same ↦ omega (arith, ap reg ((==_iff id x).0 same), h.0)
  | inr other ↦ has_bounded reg n l x h.1 (rw other at e)
]

pub size-append : (l : List (ℕ × ℕ)) (n id : ℕ) → size (l ++ (n, id) ∷ []) ≡ n
unfolding size
size-append [] n id = refl
size-append (p ∷ []) n id = refl
size-append (p ∷ q ∷ l) n id = size-append (q ∷ l) n id

pub size_one : (n id : ℕ) → size ((n, id) ∷ []) ≡ n
unfolding size
size_one n id = refl
