-- ===== src/Locals/Inserted.antt =====
-- wasm-gpu-transpiler/src/active_function/locals.rs: adding the declared locals one by one.
use wasm_gpu.Prelude.{
  get_elem?-old, get_elem?-new, ℕ, zero, suc, ◌+◌, ◌%◌, ◌<◌, ◌≤◌, ◌≡◌, refl, sym, ap, subst, ◌∙◌,
  ◌==◌, ==_iff, Bool, Bool-cases, inl, inr, ◌⊎◌, true, false, if◌then◌else◌, List, [], ◌∷◌, ◌++◌,
  length, length-append, length-replicate, replicate, get_elem?, Option, none, some, u32_mod, arith,
}
use wasm_gpu.Typed.{ValType}
use wasm_gpu.Locals.{FnLocal, BlockContext, append_wasm_to, lookup, add_count, add_declared}

-- A variable of a type, by the local that it stands for: the map sends the indices of some types to
-- variables of these types that the context declares, no two to one, and other indices to nothing.
pub record IsTyped (types : ℕ → Option ValType) (locals : List (ℕ × FnLocal)) (ctx : BlockContext)
    : Type 0 where
  pub absent : (i : ℕ) → types i ≡ none → lookup locals i ≡ none
  pub present :
      (i : ℕ) (ty : ValType)
      → types i ≡ some ty
      → (l : FnLocal) × (lookup locals i ≡ some l)
        × (l.ty ≡ ty)
        × (get_elem? ctx.locals l.expression ≡ some ty)
  pub below : (i : ℕ) (l : FnLocal) → lookup locals i ≡ some l → l.expression < length ctx.locals
  pub own :
      (i j : ℕ) (l k : FnLocal)
      → lookup locals i ≡ some l
      → lookup locals j ≡ some k
      → l.expression ≡ k.expression
      → i ≡ j

-- One more type at an index.
abbrev pub extended : ℕ → ValType → (ℕ → Option ValType) → ℕ → Option ValType
extended at_i ty types i = if at_i == i then some ty else types i

pub if-true : {A : Type 0} (b : Bool) (x y : A) → b ≡ true → (if b then x else y) ≡ x
if-true true x y h = refl
if-true false x y h = cc

pub if-false : {A : Type 0} (b : Bool) (x y : A) → b ≡ false → (if b then x else y) ≡ y
if-false false x y h = refl
if-false true x y h = cc

-- What was found is the first entry or behind it.
lookup-cons :
    (key : ℕ) (local : FnLocal) (locals : List (ℕ × FnLocal)) (i : ℕ) (l : FnLocal)
    → lookup ((key, local) ∷ locals) i ≡ some l
    → ((key ≡ i) × (local ≡ l)) ⊎ (lookup locals i ≡ some l)
unfolding lookup
lookup-cons key local locals i l h = elim (Bool-cases (key == i)) [
  | inl e ↦
      let found : some local ≡ some l =
        sym (if-true (key == i) (some local) (lookup locals i) e) ∙ h in
      inl ((==_iff key i).0 e, (cc))
  | inr e ↦ inr (sym (if-false (key == i) (some local) (lookup locals i) e) ∙ h)
]

pub insert-IsTyped :
    (types : ℕ → Option ValType) (locals : List (ℕ × FnLocal)) (ctx : BlockContext) (at_i : ℕ)
    (ty : ValType) (stores : List (ℕ × ℕ))
    → IsTyped types locals ctx
    → types at_i ≡ none
    → IsTyped
        (extended at_i ty types)
        ((at_i, record { ty = ty; expression = length ctx.locals }) ∷ locals)
        (record { locals = ctx.locals ++ ty ∷ []; stores = stores })
unfolding lookup
insert-IsTyped types locals ctx at_i ty stores typed free =
    let local : FnLocal = record { ty = ty; expression = length ctx.locals } in
    let longer : length (ctx.locals ++ ty ∷ []) ≡ suc (length ctx.locals) =
      omega (arith, length-append ctx.locals (ty ∷ [])) in
    record {
      absent = λ i h. elim (Bool-cases (at_i == i)) [
        | inl e ↦
            let found : some ty ≡ none = sym (if-true (at_i == i) (some ty) (types i) e) ∙ h in cc
        | inr e ↦
            if-false (at_i == i) (some local) (lookup locals i) e
            ∙ typed.absent i (sym (if-false (at_i == i) (some ty) (types i) e) ∙ h)
      ];
      present = λ i t h. elim (Bool-cases (at_i == i)) [
        | inl e ↦
            let found : some ty ≡ some t = sym (if-true (at_i == i) (some ty) (types i) e) ∙ h in
            (
              local,
              if-true (at_i == i) (some local) (lookup locals i) e,
              (cc),
              get_elem?-new ctx.locals ty ∙ found,
            )
        | inr e ↦
            let (l, found, same, declared) =
              typed.present i t (sym (if-false (at_i == i) (some ty) (types i) e) ∙ h) in
            (
              l,
              if-false (at_i == i) (some local) (lookup locals i) e ∙ found,
              same,
              get_elem?-old ctx.locals (ty ∷ []) l.expression declared,
            )
      ];
      below = λ i l h. elim (lookup-cons at_i local locals i l h) [
        | inl (_, e) ↦ omega (arith, longer, ap (λ (x : FnLocal). x.expression) e)
        | inr old ↦ omega (arith, longer, typed.below i l old)
      ];
      own = λ i j l k h1 h2 same. elim (lookup-cons at_i local locals i l h1) [
        | inl (here1, e1) ↦ elim (lookup-cons at_i local locals j k h2) [
          | inl (here2, e2) ↦ sym here1 ∙ here2
          | inr old2 ↦
              absurd
                (omega (arith, ap (λ (x : FnLocal). x.expression) e1, same, typed.below j k old2))
        ]
        | inr old1 ↦ elim (lookup-cons at_i local locals j k h2) [
          | inl (here2, e2) ↦
              absurd
                (omega (arith, ap (λ (x : FnLocal). x.expression) e2, same, typed.below i l old1))
          | inr old2 ↦ typed.own i j l k old1 old2 same
        ]
      ];
    }

-- The types that a list gives from an index on, beside others.
abbrev pub from_index : ℕ → List ValType → (ℕ → Option ValType) → ℕ → Option ValType
from_index at_i [] types = types
from_index at_i (ty ∷ tys) types = from_index (suc at_i) tys (extended at_i ty types)

-- A declaration's type as often as it is declared.
abbrev pub expand : List (ℕ × ValType) → List ValType
expand [] = []
expand (d ∷ ds) = replicate d.0 d.1 ++ expand ds

-- Nothing is at an index or behind it.
abbrev pub Free : ℕ → (ℕ → Option ValType) → Type 0
Free at_i types = (i : ℕ) → at_i ≤ i → types i ≡ none

extended-Free :
    (at_i : ℕ) (ty : ValType) (types : ℕ → Option ValType)
    → Free at_i types
    → Free (suc at_i) (extended at_i ty types)
extended-Free at_i ty types free i h =
    if-false (at_i == i) (some ty) (types i) (ground arith) ∙ free i (omega arith)

-- Adding the declared locals one by one: where the map was right, and free from the next index on, it
-- is right for the new types as well.
add_count-IsTyped :
    (count : ℕ) (ty : ValType) (at_i : ℕ) (types : ℕ → Option ValType) (locals : List (ℕ × FnLocal))
    (ctx : BlockContext)
    → IsTyped types locals ctx
    → Free at_i types
    → at_i + count < u32_mod
    → let (next, locals', ctx') = add_count count ty at_i locals ctx in
      (next ≡ at_i + count)
      × IsTyped (from_index at_i (replicate count ty) types) locals' ctx'
      × Free (at_i + count) (from_index at_i (replicate count ty) types)
unfolding add_count append_wasm_to
add_count-IsTyped zero ty at_i types locals ctx typed free room =
    (omega arith, typed, λ i h. free i (omega (arith, h)))
add_count-IsTyped (suc count) ty at_i types locals ctx typed free room =
    let next : (at_i + 1) % u32_mod ≡ suc at_i = ground (arith, room) in
    let (last, typed', free') =
      add_count-IsTyped count ty (suc at_i) (extended at_i ty types)
        ((at_i, record { ty = ty; expression = length ctx.locals }) ∷ locals)
        (record { locals = ctx.locals ++ ty ∷ []; stores = ctx.stores })
        (insert-IsTyped types locals ctx at_i ty ctx.stores typed (free at_i (omega arith)))
        (extended-Free at_i ty types free) (omega (arith, room)) in
    rw (next, add_count) (omega (arith, last), typed', λ i h. free' i (omega (arith, h)))

from_index-append :
    (at_i : ℕ) (xs ys : List ValType) (types : ℕ → Option ValType)
    → from_index at_i (xs ++ ys) types ≡ from_index (at_i + length xs) ys (from_index at_i xs types)
from_index-append at_i [] ys types = ap (λ n. from_index n ys types) (omega arith)
from_index-append at_i (x ∷ xs) ys types =
    from_index-append (suc at_i) xs ys (extended at_i x types)
    ∙ ap (λ n. from_index n ys (from_index (suc at_i) xs (extended at_i x types))) (omega arith)

pub add_declared-IsTyped :
    (parsed : List (ℕ × ValType)) (at_i : ℕ) (types : ℕ → Option ValType)
    (locals : List (ℕ × FnLocal)) (ctx : BlockContext)
    → IsTyped types locals ctx
    → Free at_i types
    → at_i + length (expand parsed) < u32_mod
    → let (locals', ctx') = add_declared parsed at_i locals ctx in
      IsTyped (from_index at_i (expand parsed) types) locals' ctx'
unfolding add_declared
add_declared-IsTyped [] at_i types locals ctx typed free room = typed
add_declared-IsTyped ((count, ty) ∷ parsed) at_i types locals ctx typed free room =
    let size = length-replicate count ty in
    let total = length-append (replicate count ty) (expand parsed) in
    let (next, typed', free') =
      add_count-IsTyped count ty at_i types locals ctx typed free
        (omega (arith, room, size, total)) in
    let r = add_count count ty at_i locals ctx in
    let rest =
      add_declared-IsTyped parsed (at_i + count) (from_index at_i (replicate count ty) types) r.1
        r.2 typed' free' (omega (arith, room, size, total)) in
    let shape : from_index (at_i + count) (expand parsed)
          (from_index at_i (replicate count ty) types)
        ≡ from_index at_i (expand ((count, ty) ∷ parsed)) types =
      ap (λ n. from_index (at_i + n) (expand parsed) (from_index at_i (replicate count ty) types))
        (sym size)
      ∙ sym (from_index-append at_i (replicate count ty) (expand parsed) types) in
    subst
      (λ f.
        IsTyped f (add_declared ((count, ty) ∷ parsed) at_i locals ctx).0
          (add_declared ((count, ty) ∷ parsed) at_i locals ctx).1)
      shape
      (subst
        (λ n.
          IsTyped
            (from_index (at_i + count) (expand parsed) (from_index at_i (replicate count ty) types))
            (add_declared parsed n r.1 r.2).0 (add_declared parsed n r.1 r.2).1)
        (sym next) rest)
