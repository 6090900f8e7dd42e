-- ===== src/Prelude/Results.antt =====
-- What a fallible operation of the host returns: a value, the error of a GPU buffer transfer
-- (`wgpu::BufferAsyncError`), or a panic by one of the source's assertions.
use mathlib.Core.Path.{◌≡◌, refl, ap}
use mathlib.Core.Logic.{◌⊎◌, inl, inr}
use mathlib.Core.Bool.{Bool, true, false}
use mathlib.Core.List.{List, [], ◌∷◌}
use mathlib.Core.Option.{Option, none, some}

pub data Fault : Type 0 where
  buffer_async : Fault
  invalid_pointer index_out_of_bounds wrong_type unparsable unimplemented out_of_range : Fault
  missing_import wrong_import malformed assertion_failed out_of_capacity out_of_fuel unsupported :
      Fault

pub data Outcome {ℓ} (A : Type ℓ) : Type ℓ where
  ok : A → Outcome A
  err : Fault → Outcome A

pub Option-cases {ℓ} : {A : Type ℓ} (o : Option A) → (o ≡ none) ⊎ ((a : A) × (o ≡ some a))
Option-cases none = inl refl
Option-cases (some a) = inr (a, refl)

-- `assert!`
abbrev pub assert : Bool → Fault → Outcome (Unit {0})
assert false fault = err fault
assert true fault = ok tt

pub assert-eq-ok : (b : Bool) (fault : Fault) {u : Unit {0}} → assert b fault ≡ ok u → b ≡ true
assert-eq-ok false fault h = cc
assert-eq-ok true fault h = refl

pub ok-injective {ℓ} : {A : Type ℓ} {a b : A} → ok a ≡ ok b → a ≡ b
ok-injective h = cc

-- The rest of an operation after a step that may fail: `?` and `.await?`.
module _ {ℓ κ} {A : Type ℓ} {B : Type κ} where
  infixl 5 ◌>>=◌ ◌>>◌
  abbrev pub ◌>>=◌ : Outcome A → (A → Outcome B) → Outcome B
  err fault >>= rest = err fault
  ok a >>= rest = rest a

  abbrev pub ◌>>◌ : Outcome A → Outcome B → Outcome B
  first >> rest = first >>= λ _. rest

  -- A successful chain is a successful step and a successful rest.
  pub >>=-eq-ok :
      (first : Outcome A) (rest : A → Outcome B) {b : B}
      → first >>= rest ≡ ok b
      → (a : A) × (first ≡ ok a) × (rest a ≡ ok b)
  >>=-eq-ok (err fault) rest h = cc
  >>=-eq-ok (ok a) rest h = (a, refl, h)

  -- What holds of every result of a chain: each result of the rest has it.
  pub >>=_ensures {μ} :
      (P : B → Type μ) (first : Outcome A) (rest : A → Outcome B)
      → ((a : A) → first ≡ ok a → (b : B) → rest a ≡ ok b → P b)
      → (b : B) → first >>= rest ≡ ok b
      → P b
  >>=_ensures P (err fault) rest each b h = cc
  >>=_ensures P (ok a) rest each b h = each a refl b h

  -- A chain whose end gives the same value whatever it is given.
  pub >>=_const :
      (first : Outcome A) (rest : A → Outcome B) (b : B)
      → ((a : A) → first ≡ ok a → rest a ≡ ok b)
      → first >>= rest ≡ (first >>= λ _. ok b)
  >>=_const (err fault) rest b h = refl
  >>=_const (ok a) rest b h = h a refl

pub >>=_ok {ℓ} : {A : Type ℓ} (m : Outcome A) → (m >>= ok) ≡ m
>>=_ok (ok a) = refl
>>=_ok (err fault) = refl

-- `expect` and `ok_or` on an `Option`.
abbrev pub expect {ℓ} : {A : Type ℓ} → Option A → Fault → Outcome A
expect none fault = err fault
expect (some a) fault = ok a

pub expect-eq-ok {ℓ} :
    {A : Type ℓ} (o : Option A) (fault : Fault) {a : A} → expect o fault ≡ ok a → o ≡ some a
expect-eq-ok none fault h = cc
expect-eq-ok (some b) fault h = ap some (ok-injective h)

-- A `map` whose function may fail, collected.
unfoldable pub try_map {ℓ κ} :
    {A : Type ℓ} {B : Type κ} → (A → Outcome B) → List A → Outcome (List B)
try_map f [] = ok []
try_map f (x ∷ xs) = f x >>= λ y. try_map f xs >>= λ ys. ok (y ∷ ys)
