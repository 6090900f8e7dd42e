-- ===== src/Prelude/Slices.antt =====
-- Ranges of a list of bytes: reading one, and writing over one.
use Prim.Native.Nat.{ℕ, zero, suc, ◌+◌, ◌≤◌, ◌<◌}
use mathlib.Core.Logic.{◌≢◌}
use mathlib.Core.Option.{some}
use mathlib.Core.Path.{◌≡◌, refl, ap, ◌∙◌}
use mathlib.Core.List.{List, [], ◌∷◌, ◌++◌}
use native.Mathlib.Omega.{arith}
use wasm_gpu.Prelude.Lists.{length, get_elem?, take, drop, take-length_append, drop-length_append}

module _ {ℓ} {A : Type ℓ} where
  -- `n` entries from position `s` on.
  abbrev pub slice : ℕ → ℕ → List A → List A
  slice s n xs = take n (drop s xs)

  -- The entries from position `s` on are replaced; what falls behind the end is lost.
  abbrev pub overwrite : List A → ℕ → List A → List A
  overwrite [] s d = []
  overwrite (x ∷ xs) zero [] = x ∷ xs
  overwrite (x ∷ xs) zero (y ∷ d) = y ∷ overwrite xs zero d
  overwrite (x ∷ xs) (suc s) d = x ∷ overwrite xs s d

  pub length-overwrite : (xs : List A) (s : ℕ) (d : List A) → length (overwrite xs s d) ≡ length xs
  length-overwrite [] s d = refl
  length-overwrite (x ∷ xs) zero [] = refl
  length-overwrite (x ∷ xs) zero (y ∷ d) = ap suc (length-overwrite xs zero d)
  length-overwrite (x ∷ xs) (suc s) d = ap suc (length-overwrite xs s d)

  -- What is written is read back.
  pub slice-overwrite :
      (xs : List A) (s : ℕ) (d : List A)
      → s + length d ≤ length xs
      → slice s (length d) (overwrite xs s d) ≡ d
  slice-overwrite xs zero [] h = refl
  slice-overwrite [] zero (y ∷ d) h = absurd (omega arith)
  slice-overwrite (x ∷ xs) zero (y ∷ d) h = ap (◌∷◌ y) (slice-overwrite xs zero d (omega arith))
  slice-overwrite [] (suc s) d h = absurd (omega arith)
  slice-overwrite (x ∷ xs) (suc s) d h = slice-overwrite xs s d (omega arith)

  -- A range in front of the write is not touched, nor is one behind it.
  pub slice-overwrite_before :
      (xs : List A) (s t n : ℕ) (d : List A)
      → t + n ≤ s
      → slice t n (overwrite xs s d) ≡ slice t n xs
  slice-overwrite_before [] s t n d h = refl
  slice-overwrite_before (x ∷ xs) zero zero zero d h = refl
  slice-overwrite_before (x ∷ xs) zero zero (suc n) d h = absurd (omega arith)
  slice-overwrite_before (x ∷ xs) zero (suc t) n d h = absurd (omega arith)
  slice-overwrite_before (x ∷ xs) (suc s) zero zero d h = refl
  slice-overwrite_before (x ∷ xs) (suc s) zero (suc n) d h =
      ap (◌∷◌ x) (slice-overwrite_before xs s zero n d (omega arith))
  slice-overwrite_before (x ∷ xs) (suc s) (suc t) n d h =
      slice-overwrite_before xs s t n d (omega arith)

  pub slice-overwrite_after :
      (xs : List A) (s t n : ℕ) (d : List A)
      → s + length d ≤ t
      → slice t n (overwrite xs s d) ≡ slice t n xs
  slice-overwrite_after [] s t n d h = refl
  slice-overwrite_after (x ∷ xs) zero t n [] h = refl
  slice-overwrite_after (x ∷ xs) zero zero n (y ∷ d) h = absurd (omega arith)
  slice-overwrite_after (x ∷ xs) zero (suc t) n (y ∷ d) h =
      slice-overwrite_after xs zero t n d (omega arith)
  slice-overwrite_after (x ∷ xs) (suc s) zero n d h = absurd (omega arith)
  slice-overwrite_after (x ∷ xs) (suc s) (suc t) n d h =
      slice-overwrite_after xs s t n d (omega arith)

  -- Growth at the end leaves every range.
  pub slice-append :
      (xs ys : List A) (t n : ℕ) → t + n ≤ length xs → slice t n (xs ++ ys) ≡ slice t n xs
  slice-append xs ys zero zero h = refl
  slice-append [] ys zero (suc n) h = absurd (omega arith)
  slice-append (x ∷ xs) ys zero (suc n) h = ap (◌∷◌ x) (slice-append xs ys zero n (omega arith))
  slice-append [] ys (suc t) zero h = absurd (omega arith)
  slice-append [] ys (suc t) (suc n) h = absurd (omega arith)
  slice-append (x ∷ xs) ys (suc t) n h = slice-append xs ys t n (omega arith)

  -- The middle part of three.
  pub slice-append_middle :
      (pre xs post : List A) (s n : ℕ)
      → s ≡ length pre
      → n ≡ length xs
      → slice s n (pre ++ (xs ++ post)) ≡ xs
  slice-append_middle pre xs post s n hs hn =
      ap (take n) (drop-length_append pre (xs ++ post) s hs) ∙ take-length_append xs post n hn

-- Single entries of a list after one of them is written.
pub get_elem?-overwrite_self :
    (xs : List ℕ) (s y : ℕ) → s < length xs → get_elem? (overwrite xs s (y ∷ [])) s ≡ some y
get_elem?-overwrite_self [] s y h = absurd (omega arith)
get_elem?-overwrite_self (x ∷ xs) zero y h = refl
get_elem?-overwrite_self (x ∷ xs) (suc s) y h = get_elem?-overwrite_self xs s y (omega arith)

overwrite_nil : (xs : List ℕ) → overwrite xs 0 [] ≡ xs
overwrite_nil [] = refl
overwrite_nil (x ∷ xs) = refl

pub get_elem?-overwrite_other :
    (xs : List ℕ) (s y i : ℕ) → i ≢ s → get_elem? (overwrite xs s (y ∷ [])) i ≡ get_elem? xs i
get_elem?-overwrite_other [] s y i h = refl
get_elem?-overwrite_other (x ∷ xs) zero y zero h = absurd (h refl)
get_elem?-overwrite_other (x ∷ xs) zero y (suc i) h = ap (λ l. get_elem? l i) (overwrite_nil xs)
get_elem?-overwrite_other (x ∷ xs) (suc s) y zero h = refl
get_elem?-overwrite_other (x ∷ xs) (suc s) y (suc i) h =
    get_elem?-overwrite_other xs s y i (λ e. h (ap suc e))
