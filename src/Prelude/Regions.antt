-- ===== src/Prelude/Regions.antt =====
-- Regions of a buffer, given by their start and length, that lie on one another in the order in
-- which they were laid out. The newest comes first.
use Prim.Native.Nat.{ℕ, zero, suc, ◌+◌, ◌≤◌}
use mathlib.Core.Path.{◌≡◌, ap}
use mathlib.Core.Logic.{◌≢◌, ◌⊎◌, inl, inr}
use mathlib.Core.List.{List, [], ◌∷◌, map}
use mathlib.Core.Option.{some}
use native.Mathlib.Omega.{arith}
use wasm_gpu.Prelude.Lists.{get_elem?}

pub some_inj {ℓ} : {A : Type ℓ} {a b : A} → some a ≡ some b → a ≡ b
some_inj e = cc

-- All regions end at or below `top`, each at or below the start of the one laid out after it.
abbrev pub Stacked : ℕ → List (ℕ × ℕ) → Type 0
Stacked top [] = Unit
Stacked top (r ∷ rs) = (r.0 + r.1 ≤ top) × Stacked r.0 rs

-- Two regions have no byte in common.
abbrev pub Apart : ℕ × ℕ → ℕ × ℕ → Type 0
Apart r s = (r.0 + r.1 ≤ s.0) ⊎ (s.0 + s.1 ≤ r.0)

pub Stacked-mono : (m n : ℕ) (rs : List (ℕ × ℕ)) → m ≤ n → Stacked m rs → Stacked n rs
Stacked-mono m n [] h s = tt
Stacked-mono m n (r ∷ rs) h s = (omega arith, s.1)

pub Stacked-le :
    (top i : ℕ) (rs : List (ℕ × ℕ)) {r : ℕ × ℕ}
    → Stacked top rs
    → get_elem? rs i ≡ some r
    → r.0 + r.1 ≤ top
Stacked-le top i [] s e = cc
Stacked-le top zero (x ∷ rs) {r} s e =
    let same : x ≡ r = some_inj e in
    omega (arith, s.0, ap (λ (p : ℕ × ℕ). p.0) same, ap (λ (p : ℕ × ℕ). p.1) same)
Stacked-le top (suc i) (x ∷ rs) s e = omega (arith, Stacked-le x.0 i rs s.1 e, s.0)

pub Stacked-Apart :
    (top i j : ℕ) (rs : List (ℕ × ℕ)) {r s : ℕ × ℕ}
    → Stacked top rs
    → i ≢ j
    → get_elem? rs i ≡ some r
    → get_elem? rs j ≡ some s
    → Apart r s
Stacked-Apart top i j [] h ne er es = cc
Stacked-Apart top zero zero (x ∷ rs) h ne er es = absurd (omega arith)
Stacked-Apart top zero (suc j) (x ∷ rs) {r} h ne er es =
    let same : x ≡ r = some_inj er in
    inr (omega (arith, Stacked-le x.0 j rs h.1 es, ap (λ (p : ℕ × ℕ). p.0) same))
Stacked-Apart top (suc i) zero (x ∷ rs) {r} {s} h ne er es =
    let same : x ≡ s = some_inj es in
    inl (omega (arith, Stacked-le x.0 i rs h.1 er, ap (λ (p : ℕ × ℕ). p.0) same))
Stacked-Apart top (suc i) (suc j) (x ∷ rs) h ne er es =
    Stacked-Apart x.0 i j rs h.1 (λ e. ne (ap suc e)) er es

pub get_elem?-map {ℓ κ} :
    {A : Type ℓ} {B : Type κ} (f : A → B) (xs : List A) (i : ℕ) {a : A}
    → get_elem? xs i ≡ some a
    → get_elem? (map f xs) i ≡ some (f a)
get_elem?-map f [] i e = cc
get_elem?-map f (x ∷ xs) zero e = ap some (ap f (some_inj e))
get_elem?-map f (x ∷ xs) (suc i) e = get_elem?-map f xs i e
