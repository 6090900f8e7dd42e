-- ===== src/Locals/Declared.antt =====
-- wasm-gpu-transpiler/src/active_function/locals.rs: every local has a variable of its own, of its type.
use wasm_gpu.Prelude.{
  ℕ, zero, suc, ◌+◌, ◌%◌, ◌<◌, ◌≤◌, ◌≡◌, refl, sym, ap, ◌∙◌, ◌==◌, inl, inr, ◌⊎◌, true, ltb, List,
  [], ◌∷◌, ◌++◌, length, length-append, get_elem?, Option, none, some, ok, err, expect, malformed,
  u32_mod, arith,
}
use wasm_gpu.Typed.{ValType}
use wasm_gpu.Locals.{
  FnLocal, BlockContext, WasmFnArg, append_wasm_to, lookup, add_declared, is_none, add_parameters,
  append_to, get,
}
use wasm_gpu.Locals.Inserted.{
  IsTyped, extended, from_index, expand, insert-IsTyped, add_declared-IsTyped, if-true, if-false,
}

-- The types of the parameters.
abbrev pub arg_types : List WasmFnArg → List ValType
arg_types [] = []
arg_types (p ∷ ps) = p.ty ∷ arg_types ps

length-arg_types : (ps : List WasmFnArg) → length (arg_types ps) ≡ length ps
length-arg_types [] = refl
length-arg_types (p ∷ ps) = ap suc (length-arg_types ps)

add_parameters-IsTyped :
    (i_param : ℕ) (parameters : List WasmFnArg) (types : ℕ → Option ValType)
    (locals : List (ℕ × FnLocal)) (ctx : BlockContext)
    → IsTyped types locals ctx
    → ((i : ℕ) → i_param ≤ i → i < i_param + length parameters → types i ≡ none)
    → i_param + length parameters < u32_mod
    → (r : List (ℕ × FnLocal) × BlockContext) × (add_parameters i_param parameters locals ctx
        ≡ ok r)
      × IsTyped (from_index i_param (arg_types parameters) types) r.0 r.1
unfolding add_parameters append_wasm_to is_none
add_parameters-IsTyped i_param [] types locals ctx typed free room = ((locals, ctx), refl, typed)
add_parameters-IsTyped i_param (parameter ∷ parameters) types locals ctx typed free room =
    let here : types i_param ≡ none = free i_param (omega arith) (omega arith) in
    let stores = ctx.stores ++ (length ctx.locals, parameter.expression_handle) ∷ [] in
    let (r, e, typed') =
      add_parameters-IsTyped (suc i_param) parameters (extended i_param parameter.ty types) _ _
        (insert-IsTyped types locals ctx i_param parameter.ty stores typed here)
        (λ i h k.
          if-false (i_param == i) (some parameter.ty) (types i) (ground (arith, h))
          ∙ free i (omega (arith, h)) (omega (arith, k)))
        (omega (arith, room)) in
    let fits : ltb i_param u32_mod ≡ true = ground (arith, room) in
    (r, rw (fits, typed.absent i_param here) e, typed')

from_index-below :
    (at_i : ℕ) (tys : List ValType) (types : ℕ → Option ValType) (i : ℕ)
    → i < at_i
    → from_index at_i tys types i ≡ types i
from_index-below at_i [] types i h = refl
from_index-below at_i (ty ∷ tys) types i h =
    from_index-below (suc at_i) tys (extended at_i ty types) i (omega (arith, h))
    ∙ if-false (at_i == i) (some ty) (types i) (ground (arith, h))

from_index-at :
    (at_i : ℕ) (tys : List ValType) (types : ℕ → Option ValType) (j : ℕ) {ty : ValType}
    → get_elem? tys j ≡ some ty
    → from_index at_i tys types (at_i + j) ≡ some ty
from_index-at at_i [] types j e = cc
from_index-at at_i (t ∷ tys) types zero e =
    ap (from_index (suc at_i) tys (extended at_i t types)) (omega arith)
    ∙ from_index-below (suc at_i) tys (extended at_i t types) at_i (omega arith)
    ∙ if-true (at_i == at_i) (some t) (types at_i) (ground arith)
    ∙ e
from_index-at at_i (t ∷ tys) types (suc j) e =
    ap (from_index (suc at_i) tys (extended at_i t types)) (omega arith)
    ∙ from_index-at (suc at_i) tys (extended at_i t types) j e

from_index-behind :
    (at_i : ℕ) (tys : List ValType) (types : ℕ → Option ValType) (i : ℕ)
    → at_i + length tys ≤ i
    → from_index at_i tys types i ≡ types i
from_index-behind at_i [] types i h = refl
from_index-behind at_i (ty ∷ tys) types i h =
    from_index-behind (suc at_i) tys (extended at_i ty types) i (omega (arith, h))
    ∙ if-false (at_i == i) (some ty) (types i) (ground (arith, h))

get_elem?-cases :
    (xs ys : List ValType) (i : ℕ) {a : ValType}
    → get_elem? (xs ++ ys) i ≡ some a
    → (get_elem? xs i ≡ some a) ⊎ ((j : ℕ) × (i ≡ length xs + j) × (get_elem? ys j ≡ some a))
get_elem?-cases [] ys i h = inr (i, omega arith, h)
get_elem?-cases (x ∷ xs) ys zero h = inl h
get_elem?-cases (x ∷ xs) ys (suc i) h = elim (get_elem?-cases xs ys i h) [
  | inl e ↦ inl e
  | inr (j, e, f) ↦ inr (j, omega (arith, e), f)
]

abbrev no_types : ℕ → Option ValType
no_types i = none

-- A context that has emitted nothing.
abbrev pub fresh : BlockContext
fresh = record { locals = []; stores = [] }

-- The types that the two loops leave at each index are those of the parameters and then of the locals.
all_types :
    (ptys tys : List ValType) (n i : ℕ) {ty : ValType}
    → n ≡ length ptys
    → get_elem? (ptys ++ tys) i ≡ some ty
    → from_index 0 ptys (from_index n tys no_types) i ≡ some ty
all_types ptys tys n i e h =
    let types = from_index n tys no_types in
    elim (get_elem?-cases ptys tys i h) [
      | inl found ↦ ap (from_index 0 ptys types) (omega arith) ∙ from_index-at 0 ptys types i found
      | inr (j, same, found) ↦
          from_index-behind 0 ptys types i (omega (arith, same))
          ∙ ap types (omega (arith, same, e))
          ∙ from_index-at n tys no_types j found
    ]

-- The locals of a function of fewer than 2 ^ 32 parameters and locals together: no assertion fails;
-- each parameter and each declared local, in this order, has a variable of its type that the shader
-- function declares; no two share a variable; and an index beyond them has none.
pub append_to-IsTyped :
    (parsed : List (ℕ × ValType)) (parameters : List WasmFnArg)
    → length (arg_types parameters ++ expand parsed) < u32_mod
    → let tys = arg_types parameters ++ expand parsed in
      (r : List (ℕ × FnLocal) × BlockContext) × (append_to fresh parsed parameters ≡ ok r)
      × ((i : ℕ) (ty : ValType)
          → get_elem? tys i ≡ some ty
          → (l : FnLocal) × (get r.0 i ≡ ok l)
            × (l.ty ≡ ty)
            × (get_elem? r.1.locals l.expression ≡ some ty))
      × ((i j : ℕ) (l k : FnLocal)
          → lookup r.0 i ≡ some l
          → lookup r.0 j ≡ some k
          → l.expression ≡ k.expression
          → i ≡ j)
      × ((i : ℕ) → length tys ≤ i → get r.0 i ≡ err malformed)
unfolding append_to get lookup
append_to-IsTyped parsed parameters room =
    let ptys = arg_types parameters in
    let n = length parameters in
    let sum = length-append ptys (expand parsed) in
    let same = length-arg_types parameters in
    let first : n % u32_mod ≡ n = ground (arith, room, sum, same) in
    let declared = add_declared parsed n [] fresh in
    let types = from_index n (expand parsed) no_types in
    let typed =
      add_declared-IsTyped parsed n no_types [] fresh nothing (λ i h. refl)
        (omega (arith, room, sum, same)) in
    let (r, e, all) =
      add_parameters-IsTyped 0 parameters types declared.0 declared.1 typed
        (λ i h k. from_index-below n (expand parsed) no_types i (omega (arith, k)))
        (omega (arith, room, sum, same)) in
    (
      r,
      ap
            (λ k.
              add_parameters 0 parameters (add_declared parsed k [] fresh).0
                (add_declared parsed k [] fresh).1)
            first
          ∙ e,
      λ i ty h.
          let (l, found, same_ty, at_l) =
            all.present i ty (all_types ptys (expand parsed) n i (sym same) h) in
          (l, ap (λ o. expect o malformed) found, same_ty, at_l),
      all.own,
      λ i h.
          ap (λ o. expect o malformed)
            (all.absent i (
              from_index-behind 0 ptys types i (omega (arith, h, sum))
              ∙ from_index-behind n (expand parsed) no_types i (omega (arith, h, sum, same)))),
    )
  where
    nothing : IsTyped no_types [] fresh
    nothing = record {
      absent = λ i h. refl;
      present = λ i ty h. cc;
      below = λ i l h. cc;
      own = λ i j l k h1 h2 same. cc;
    }
