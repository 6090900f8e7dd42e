-- ===== src/Imports/Matching.antt =====
-- wasm-gpu/src/module.rs (`typecheck_imports`): what the look-up of a provided object and the match on its
-- type decide, in terms of the names, types and limits themselves.
use Prim.Native.String.{String}
use text.Mathlib.Text
use text.Mathlib.TextEquality.{eq_iff}
use wasm_gpu.Prelude.{
  ℕ, not, ◌≡◌, ◌≤◌, ◌↔◌, inl, inr, refl, sym, ap, ◌∙◌, Bool, true, false, ◌&&◌, Bool-cases, List,
  [], ◌∷◌, ◌++◌, get_elem?, Option, none, some, Option-cases, All, Outcome, ok, expect, malformed,
  arith, ok-injective, >>=-eq-ok, expect-eq-ok,
}
use mathlib.Core.Path.{ap₂}
use wasm_gpu.Typed.{ValType, RefType, ref, val_type_eq}
use wasm_gpu.Typed.Equality.{val_type_eq_iff}
use wasm_gpu.Functions.{FuncType, val_types_eq, func_type_eq}
use wasm_gpu.Globals
use wasm_gpu.Globals.{immutable, mutable}
use wasm_gpu.Table
use wasm_gpu.Memory
use wasm_gpu.Memory.{wasm_limits_match, maxima_match}
use wasm_gpu.Parsing.{ImportTypeRef}
use wasm_gpu.Imports.{
  Extern, func, global, table, memory, NamedExtern, import_by_name, import_matches,
}

-- The object is provided under the two names, and nothing behind it has both.
abbrev pub Provides : List NamedExtern → String → String → Extern → Type 0
Provides provided module_name name ext =
    (before : List NamedExtern) × (p : NamedExtern) × (behind : List NamedExtern) × (provided
      ≡ before ++ p ∷ behind)
    × (p.module_name ≡ module_name)
    × (p.name ≡ name)
    × (p.ext ≡ ext)
    × All (λ q. ¬ ((q.module_name ≡ module_name) × (q.name ≡ name))) behind

-- Limits as the source compares them: the provided minimum is at most the required one, and there is
-- neither maximum, or the provided one is at least the required one.
abbrev pub WithinLimits : ℕ → Option ℕ → ℕ → Option ℕ → Type 0
WithinLimits initial none required none = initial ≤ required
WithinLimits initial (some maximum) required (some required_maximum) =
    (initial ≤ required) × (required_maximum ≤ maximum)
WithinLimits initial _ required _ = ⊥

-- The object is of the kind that is required, and of its type.
abbrev pub HasType : List FuncType → ImportTypeRef → Extern → Type 0
HasType types (ImportTypeRef.func i) (func f) = get_elem? types i ≡ some f.ty
HasType types (ImportTypeRef.table t) (table p) =
    (p.ty.element_type ≡ t.element_type)
    × WithinLimits p.ty.initial p.ty.maximum t.initial t.maximum
HasType types (ImportTypeRef.memory t) (memory p) =
    WithinLimits p.ty.initial p.ty.maximum t.initial t.maximum
HasType types (ImportTypeRef.global t) (global (immutable p)) =
    (p.content_type ≡ t.content_type) × (t.mutable ≡ false)
HasType types (ImportTypeRef.global t) (global (mutable p)) =
    (p.content_type ≡ t.content_type) × (t.mutable ≡ true)
HasType types _ _ = ⊥

-- Whether an object has both names.
abbrev named : NamedExtern → String → String → Bool
named p module_name name = Text.◌==◌ p.module_name module_name && Text.◌==◌ p.name name

and_iff : (a b : Bool) → ((a && b) ≡ true) ↔ ((a ≡ true) × (b ≡ true))
and_iff a b = ground arith

named_iff :
    (p : NamedExtern) (module_name name : String)
    → (named p module_name name ≡ true) ↔ ((p.module_name ≡ module_name) × (p.name ≡ name))
named_iff p module_name name =
    let both = and_iff (Text.◌==◌ p.module_name module_name) (Text.◌==◌ p.name name) in
    (
      λ e.
          let (e1, e2) = both.0 e in
          ((eq_iff p.module_name module_name).0 e1, (eq_iff p.name name).0 e2),
      λ (e1, e2). both.1 ((eq_iff p.module_name module_name).1 e1, (eq_iff p.name name).1 e2),
    )

module _ (module_name name : String) where
  import_by_name-none :
      (provided : List NamedExtern)
      → import_by_name provided module_name name ≡ none
      → All (λ q. ¬ ((q.module_name ≡ module_name) × (q.name ≡ name))) provided
  unfolding import_by_name
  import_by_name-none [] h = tt
  import_by_name-none (p ∷ provided) h =
      elim (Option-cases (import_by_name provided module_name name)) [
        | inr (ext, e) ↦ cc (h, e)
        | inl e ↦ elim (Bool-cases (named p module_name name)) [
          | inl t ↦ cc (h, e, t)
          | inr f ↦ (
            λ both. cc (f, (named_iff p module_name name).1 both),
            import_by_name-none provided e,
          )
        ]
      ]

  none-import_by_name :
      (provided : List NamedExtern)
      → All (λ q. ¬ ((q.module_name ≡ module_name) × (q.name ≡ name))) provided
      → import_by_name provided module_name name ≡ none
  unfolding import_by_name
  none-import_by_name [] all = refl
  none-import_by_name (p ∷ provided) (differs, all) = elim (Bool-cases (named p module_name name)) [
    | inl t ↦ absurd (differs ((named_iff p module_name name).0 t))
    | inr f ↦ rw (none-import_by_name provided all, f) refl
  ]

  import_by_name-append :
      (before rest : List NamedExtern) (ext : Extern)
      → import_by_name rest module_name name ≡ some ext
      → import_by_name (before ++ rest) module_name name ≡ some ext
  unfolding import_by_name
  import_by_name-append [] rest ext h = h
  import_by_name-append (p ∷ before) rest ext h = rw (import_by_name-append before rest ext h) refl

  import_by_name-Provides :
      (provided : List NamedExtern) (ext : Extern)
      → import_by_name provided module_name name ≡ some ext
      → Provides provided module_name name ext
  unfolding import_by_name
  import_by_name-Provides [] ext h = cc h
  import_by_name-Provides (p ∷ provided) ext h =
      elim (Option-cases (import_by_name provided module_name name)) [
        | inr (found, e) ↦
            let r = import_by_name-Provides provided ext (e ∙ cc (h, e)) in
            (p ∷ r.0, r.1, r.2, ap (◌∷◌ p) r.3, r.4, r.5, r.6, r.7)
        | inl e ↦ elim (Bool-cases (named p module_name name)) [
          | inr f ↦ cc (h, e, f)
          | inl t ↦
              let (e1, e2) = (named_iff p module_name name).0 t in
              ([], p, provided, refl, e1, e2, cc (h, e, t), import_by_name-none provided e)
        ]
      ]

  -- The map of the provided objects gives the last one with the two names.
  pub import_by_name_iff :
      (provided : List NamedExtern) (ext : Extern)
      → (import_by_name provided module_name name ≡ some ext)
        ↔ Provides provided module_name name ext
  unfolding import_by_name
  import_by_name_iff provided ext = (
    import_by_name-Provides provided ext,
    λ (before, p, behind, same, e1, e2, e, all).
        ap (λ l. import_by_name l module_name name) same
        ∙ import_by_name-append before (p ∷ behind) ext (
            rw (none-import_by_name behind all, (named_iff p module_name name).1 (e1, e2))
              (ap some e)),
  )

limits_iff :
    (n1 : ℕ) (m1 : Option ℕ) (n2 : ℕ) (m2 : Option ℕ)
    → (wasm_limits_match n1 m1 n2 m2 ≡ true) ↔ WithinLimits n1 m1 n2 m2
unfolding wasm_limits_match maxima_match
limits_iff n1 none n2 none = ground arith
limits_iff n1 none n2 (some m2) = ground arith
limits_iff n1 (some m1) n2 none = ground arith
limits_iff n1 (some m1) n2 (some m2) = ground arith

val_types_eq_iff : (ss ts : List ValType) → (val_types_eq ss ts ≡ true) ↔ (ss ≡ ts)
unfolding val_types_eq
val_types_eq_iff [] [] = (λ e. refl, λ e. refl)
val_types_eq_iff [] (t ∷ ts) = (λ e. cc e, λ e. cc e)
val_types_eq_iff (s ∷ ss) [] = (λ e. cc e, λ e. cc e)
val_types_eq_iff (s ∷ ss) (t ∷ ts) =
    let both = and_iff (val_type_eq s t) (val_types_eq ss ts) in
    (
      λ e.
          let (e1, e2) = both.0 e in cc ((val_type_eq_iff s t).0 e1, (val_types_eq_iff ss ts).0 e2),
      λ e. both.1 ((val_type_eq_iff s t).1 (cc e), (val_types_eq_iff ss ts).1 (cc e)),
    )

func_type_eq_iff : (s t : FuncType) → (func_type_eq s t ≡ true) ↔ (s ≡ t)
unfolding func_type_eq
func_type_eq_iff s t =
    let both = and_iff (val_types_eq s.params t.params) (val_types_eq s.results t.results) in
    (
      λ e.
          let (e1, e2) = both.0 e in
          ap₂ (λ ps rs. record { params = ps; results = rs })
            ((val_types_eq_iff s.params t.params).0 e1)
            ((val_types_eq_iff s.results t.results).0 e2),
      λ e. both.1 (
        (val_types_eq_iff s.params t.params).1 (ap (λ (u : FuncType). u.params) e),
        (val_types_eq_iff s.results t.results).1 (ap (λ (u : FuncType). u.results) e),
      ),
    )

-- A Boolean test that the match returns, and what it decides.
decided {ℓ} :
    (b : Bool) {P : Type ℓ} → ((b ≡ true) ↔ P) → (◌≡◌ {A = Outcome Bool} (ok b) (ok true)) ↔ P
decided b (to, from) = (λ e. to (ok-injective e), λ p. ap ok (from p))

refused {ℓ} : {P : Type ℓ} → (P → ⊥) → (◌≡◌ {A = Outcome Bool} (ok false) (ok true)) ↔ P
refused never = (λ e. cc e, λ p. absurd (never p))

global_iff :
    (s t : ValType) (b expected : Bool) (flag : Bool)
    → ((flag ≡ true) ↔ (b ≡ expected))
    → ((val_type_eq s t && flag) ≡ true) ↔ ((s ≡ t) × (b ≡ expected))
global_iff s t b expected flag (to, from) =
    let both = and_iff (val_type_eq s t) flag in
    (
      λ e. let (e1, e2) = both.0 e in ((val_type_eq_iff s t).0 e1, to e2),
      λ (e1, e2). both.1 ((val_type_eq_iff s t).1 e1, from e2),
    )

-- The match accepts an object exactly if it is of the required kind and type.
pub import_matches_iff :
    (types : List FuncType) (required : ImportTypeRef) (ext : Extern)
    → (import_matches types required ext ≡ ok true) ↔ HasType types required ext
unfolding import_matches Table.is_type Memory.is_type Globals.is_type
import_matches_iff types (ImportTypeRef.func i) (func f) = (
  λ e.
      let (ty, found, same) = >>=-eq-ok (expect (get_elem? types i) malformed) _ e in
      expect-eq-ok (get_elem? types i) malformed found
      ∙ ap some (sym ((func_type_eq_iff f.ty ty).0 (ok-injective same))),
  λ e. rw e (ap ok ((func_type_eq_iff f.ty f.ty).1 refl)),
)
import_matches_iff types (ImportTypeRef.table t) (table p) = decided _ (
  λ e.
      let (e1, e2) = (and_iff _ _).0 e in
      (
        ref_inj ((val_type_eq_iff (ref p.ty.element_type) (ref t.element_type)).0 e1),
        (limits_iff p.ty.initial p.ty.maximum t.initial t.maximum).0 e2,
      ),
  λ (e1, e2). (and_iff _ _).1 (
    (val_type_eq_iff (ref p.ty.element_type) (ref t.element_type)).1 (ap ref e1),
    (limits_iff p.ty.initial p.ty.maximum t.initial t.maximum).1 e2,
  ),
)
  where
    ref_inj : {r s : RefType} → ref r ≡ ref s → r ≡ s
    ref_inj e = cc e
import_matches_iff types (ImportTypeRef.memory t) (memory p) =
    decided _ (limits_iff p.ty.initial p.ty.maximum t.initial t.maximum)
import_matches_iff types (ImportTypeRef.global t) (global (immutable p)) =
    decided _
      (global_iff p.content_type t.content_type t.mutable false (not t.mutable) (ground arith))
import_matches_iff types (ImportTypeRef.global t) (global (mutable p)) =
    decided _ (global_iff p.content_type t.content_type t.mutable true t.mutable (λ e. e, λ e. e))
import_matches_iff types (ImportTypeRef.func i) (table p) = refused (λ h. h)
import_matches_iff types (ImportTypeRef.func i) (memory p) = refused (λ h. h)
import_matches_iff types (ImportTypeRef.func i) (global p) = refused (λ h. h)
import_matches_iff types (ImportTypeRef.table t) (func p) = refused (λ h. h)
import_matches_iff types (ImportTypeRef.table t) (memory p) = refused (λ h. h)
import_matches_iff types (ImportTypeRef.table t) (global p) = refused (λ h. h)
import_matches_iff types (ImportTypeRef.memory t) (func p) = refused (λ h. h)
import_matches_iff types (ImportTypeRef.memory t) (table p) = refused (λ h. h)
import_matches_iff types (ImportTypeRef.memory t) (global p) = refused (λ h. h)
import_matches_iff types (ImportTypeRef.global t) (func p) = refused (λ h. h)
import_matches_iff types (ImportTypeRef.global t) (table p) = refused (λ h. h)
import_matches_iff types (ImportTypeRef.global t) (memory p) = refused (λ h. h)
