-- ===== src/Initialization/Overlap.antt =====
-- wasm-gpu/src/module.rs (`try_initialize_datas`): where the data segments of one module end up.
use wasm_gpu.Prelude.{
  ℕ, suc, ◌≡◌, refl, sym, ap, subst, ◌∙◌, List, [], ◌∷◌, length, slice, ok, >>=-eq-ok, ok-injective,
  All,
}
use wasm_gpu.Buffers.{LazyBuffers}
use wasm_gpu.Data
use wasm_gpu.Data.{DataPtr, DataInstance, try_add_data}
use wasm_gpu.Data.Segments.{try_add_data-eq-ok, written}
use wasm_gpu.Parsing.{ParsedData}
use wasm_gpu.Initialization.Segments.{reserved_size, add_datas, try_initialize_datas}

-- The bytes of the last segment, if there is one.
abbrev pub last_bytes : List ParsedData → List ℕ
last_bytes [] = []
last_bytes (d ∷ []) = d.bytes
last_bytes (d ∷ e ∷ ds) = last_bytes (e ∷ ds)

module _ (B : LazyBuffers) where
  open B use {contents}

  add_datas-cons :
      (d : ParsedData) (ds : List ParsedData) (datas datas' : DataInstance B) (ptrs : List DataPtr)
      → add_datas B (d ∷ ds) datas ≡ ok (ptrs, datas')
      → (p : DataPtr) × (ps : List DataPtr) × (datas1 : DataInstance B) × (try_add_data B datas
            d.bytes
          ≡ ok (p, datas1))
        × (add_datas B ds datas1 ≡ ok (ps, datas'))
        × (ptrs ≡ p ∷ ps)
  unfolding add_datas
  add_datas-cons d ds datas datas' ptrs h =
      let (added, e1, h1) = >>=-eq-ok (try_add_data B datas d.bytes) _ h in
      let (more, e2, h2) = >>=-eq-ok (add_datas B ds added.1) _ h1 in
      let same = ok-injective h2 in
      (
        added.0,
        more.0,
        added.1,
        e1,
        e2 ∙ ap (λ (x : List DataPtr × DataInstance B). ok (more.0, x.1)) same,
        sym (ap (λ (x : List DataPtr × DataInstance B). x.0) same),
      )

  add_datas_ptrs :
      (ds : List ParsedData) (datas datas' : DataInstance B) (ptrs : List DataPtr)
      → add_datas B ds datas ≡ ok (ptrs, datas')
      → All (λ p. p.ptr ≡ datas.head) ptrs × (length ptrs ≡ length ds)
  unfolding add_datas
  add_datas_ptrs [] datas datas' ptrs h =
      let none_left = ap (λ (x : List DataPtr × DataInstance B). x.0) (ok-injective h) in
      subst (λ l. All (λ (p : DataPtr). p.ptr ≡ datas.head) l × (length l ≡ 0)) none_left (tt, refl)
  add_datas_ptrs (d ∷ ds) datas datas' ptrs h =
      let (p, ps, datas1, e1, e2, e3) = add_datas-cons d ds datas datas' ptrs h in
      let (_, _, head, _, handed) = try_add_data-eq-ok B datas d.bytes e1 in
      let (all, len) = add_datas_ptrs ds datas1 datas' ps e2 in
      subst (λ l. All (λ (p : DataPtr). p.ptr ≡ datas.head) l × (length l ≡ suc (length ds)))
        (sym e3)
        (
          (
            ap (λ (q : DataPtr). q.ptr) handed,
            subst (λ n. All (λ (q : DataPtr). q.ptr ≡ n) ps) head all,
          ),
          ap suc len,
        )

  add_datas_last :
      (d : ParsedData) (ds : List ParsedData) (datas datas' : DataInstance B) (ptrs : List DataPtr)
      → add_datas B (d ∷ ds) datas ≡ ok (ptrs, datas')
      → slice datas.head (length (last_bytes (d ∷ ds))) (contents datas'.datas)
        ≡ last_bytes (d ∷ ds)
  unfolding add_datas
  add_datas_last d [] datas datas' ptrs h =
      let (p, ps, datas1, e1, e2, e3) = add_datas-cons d [] datas datas' ptrs h in
      let same = ap (λ (x : List DataPtr × DataInstance B). x.1) (ok-injective e2) in
      subst (λ x. slice datas.head (length d.bytes) (contents x.datas) ≡ d.bytes) same
        (written B datas d.bytes e1)
  add_datas_last d (e ∷ ds) datas datas' ptrs h =
      let (p, ps, datas1, e1, e2, e3) = add_datas-cons d (e ∷ ds) datas datas' ptrs h in
      let (_, _, head, _, handed) = try_add_data-eq-ok B datas d.bytes e1 in
      subst
        (λ n. slice n (length (last_bytes (e ∷ ds))) (contents datas'.datas) ≡ last_bytes (e ∷ ds))
        head (add_datas_last e ds datas1 datas' ps e2)

  -- All data segments of a module are put at one place: after `try_initialize_datas`, there is a
  -- pointer for each, every pointer starts at the head that the instance had, and from there on the
  -- buffer holds the bytes of the last segment.
  pub try_initialize_datas_overlaps :
      (d : ParsedData) (ds : List ParsedData) (datas datas' : DataInstance B) (ptrs : List DataPtr)
      (counter counter' : ℕ)
      → try_initialize_datas B (d ∷ ds) datas counter ≡ ok (ptrs, datas', counter')
      → All (λ p. p.ptr ≡ datas.head) ptrs
        × (length ptrs ≡ suc (length ds))
        × (slice datas.head (length (last_bytes (d ∷ ds))) (contents datas'.datas)
            ≡ last_bytes (d ∷ ds))
  unfolding try_initialize_datas Data.reserve
  try_initialize_datas_overlaps d ds datas datas' ptrs counter counter' h =
      let reserved = (Data.reserve B datas (reserved_size (d ∷ ds)) counter).0 in
      let (r, e, h1) = >>=-eq-ok (add_datas B (d ∷ ds) reserved) _ h in
      let same = ok-injective h1 in
      let added = e ∙ ap (λ (x : List DataPtr × DataInstance B × ℕ). ok (x.0, x.1)) same in
      let (all, len) = add_datas_ptrs (d ∷ ds) reserved datas' ptrs added in
      (all, len, add_datas_last d ds reserved datas' ptrs added)
