-- ===== src/Elements/Segments.antt =====
-- wasm-gpu/src/instance/element.rs: what an element segment reads as after another was added.
use wasm_gpu.Prelude.{
  ℕ, ◌+◌, ◌*◌, ◌≤◌, ◌≡◌, refl, sym, ap, ◌∙◌, subst, List, [], ◌∷◌, length, length-append,
  out_of_range, Option, none, some, leb, leb→le, ok, err, ◌>>=◌, assert, >>=-eq-ok, >>=_const,
  >>=_ok, assert-eq-ok, ok-injective, arith,
}
use mathlib.Core.Path.{ap₂}
use mathlib.Core.Bool.{true}
use wasm_gpu.Buffers.{LazyBuffers}
use wasm_gpu.Arena.{Holds, Holds-new, Holds-write, len-write, read-Holds}
use wasm_gpu.Capability
use wasm_gpu.Capability.{CapabilityStore, check}
use wasm_gpu.Capability.Tracks.{Tracks, check-get_cap}
use wasm_gpu.Typed.{RefType, byte_count, ref_try_from, ref_to_le_bytes}
use wasm_gpu.Typed.Bytes.{length-ref_to_le_bytes}
use wasm_gpu.Elements.{
  ElementPtr, ElementInstance, entry_bytes, element_bytes, try_add_element, try_get,
}

length-entry_bytes : (v : Option ℕ) {bytes : List ℕ} → entry_bytes v ≡ ok bytes → length bytes ≡ 4
unfolding entry_bytes
length-entry_bytes v e = from_ref (ref_try_from v) e
  where
    from_ref :
        (o : Option (Option ℕ)) {bytes : List ℕ}
        → elim o [ none ↦ err out_of_range | some r ↦ ok (ref_to_le_bytes r) ] ≡ ok bytes
        → length bytes ≡ 4
    from_ref none e = cc
    from_ref (some r) e = ap (length {A = ℕ}) (sym (ok-injective e)) ∙ length-ref_to_le_bytes r

length-element_bytes :
    (element : List (Option ℕ)) {bytes : List ℕ}
    → element_bytes element ≡ ok bytes
    → length bytes ≡ length element * 4
unfolding element_bytes
length-element_bytes [] e = ap (length {A = ℕ}) (sym (ok-injective e))
length-element_bytes (v ∷ element) e =
    let (first, e1, h) = >>=-eq-ok (entry_bytes v) _ e in
    let (rest, e2, joined) = >>=-eq-ok (element_bytes element) _ h in
    omega (
      arith,
      length-entry_bytes v e1,
      length-element_bytes element e2,
      length-append first rest,
      ap (length {A = ℕ}) (sym (ok-injective joined)),
    )

module _ (B : LazyBuffers) where
  open B use {
    contents, len, len-contents, write-overwrite, try_read_slice_locking, try_write_slice_locking,
  }

  -- A successful addition made one write at the head, of the bytes of the segment, and moved the
  -- head behind them.
  try_add_element-eq-ok :
      (b : ElementInstance B) (ty : RefType) (element : List (Option ℕ)) {p : ElementPtr}
      {b' : ElementInstance B}
      → try_add_element B b ty element ≡ ok (p, b')
      → (bytes : List ℕ) × (element_bytes element ≡ ok bytes)
        × (b.head + length bytes ≤ len b.references)
        × (try_write_slice_locking b.references b.head (b.head + length bytes) bytes
            ≡ ok b'.references)
        × (b'.head ≡ b.head + length bytes)
        × (b'.cap_set ≡ b.cap_set)
        × (p ≡ record {
          ptr = b.head;
          cap = Capability.get_cap b.cap_set;
          ty = ty;
          len = length element;
        })
  unfolding try_add_element byte_count
  try_add_element-eq-ok b ty element {p} {b'} h =
      let stop = b.head + length element * 4 in
      let (u, fits, h1) = >>=-eq-ok (assert (leb stop (len b.references)) _) _ h in
      let (bytes, made, h2) = >>=-eq-ok (element_bytes element) _ h1 in
      let (m, wrote, done) = >>=-eq-ok (try_write_slice_locking b.references _ _ bytes) _ h2 in
      let same = ok-injective done in
      let size : stop ≡ b.head + length bytes = omega (arith, length-element_bytes element made) in
      (
        bytes,
        made,
        omega (arith, size, leb→le _ _ (assert-eq-ok _ _ fits)),
        subst (λ k. try_write_slice_locking b.references b.head k bytes ≡ ok b'.references) size
            (wrote ∙ ap (λ (x : ElementPtr × ElementInstance B). ok x.1.references) same),
        sym (ap (λ (x : ElementPtr × ElementInstance B). x.1.head) same) ∙ size,
        sym (ap (λ (x : ElementPtr × ElementInstance B). x.1.cap_set) same),
        sym (ap (λ (x : ElementPtr × ElementInstance B). x.0) same),
      )

  -- A segment reads as its bytes also after another one was added: `try_get` passes its assertion, reads
  -- once, and gives the bytes of the references of the first segment unless the transfer fails.
  pub try_get-try_add_element :
      (b b1 b2 : ElementInstance B) (ty1 ty2 : RefType) (element1 element2 : List (Option ℕ))
      (p1 p2 : ElementPtr) (counter : ℕ)
      → Tracks counter b.cap_set (len b.references)
      → try_add_element B b ty1 element1 ≡ ok (p1, b1)
      → try_add_element B b1 ty2 element2 ≡ ok (p2, b2)
      → (bytes : List ℕ) × (element_bytes element1 ≡ ok bytes)
        × (try_get B b2 p1
            ≡ (try_read_slice_locking b2.references p1.ptr (p1.ptr + p1.len * 4) >>= λ _. ok bytes))
  unfolding try_get
  try_get-try_add_element b b1 b2 ty1 ty2 element1 element2 p1 p2 counter tracks h1 h2 =
      let (bytes1, made1, fits1, wrote1, head1, same1, handed1) =
        try_add_element-eq-ok b ty1 element1 h1 in
      let (bytes2, made2, fits2, wrote2, head2, same2, handed2) =
        try_add_element-eq-ok b1 ty2 element2 h2 in
      let written1 = write-overwrite b.references b.head _ bytes1 refl fits1 wrote1 in
      let written2 = write-overwrite b1.references b1.head _ bytes2 refl fits2 wrote2 in
      let entry : ℕ × List ℕ = (b.head, bytes1) in
      let held1 : Holds (contents b1.references) b1.head entry =
        subst (λ k. Holds (contents b1.references) k entry) (sym head1)
          (subst (λ xs. Holds xs (b.head + length bytes1) entry) (sym written1)
            (Holds-new (contents b.references) bytes1 b.head
              (omega (arith, len-contents b.references)))) in
      let held2 : Holds (contents b2.references) (b1.head + length bytes2) entry =
        subst (λ xs. Holds xs (b1.head + length bytes2) entry) (sym written2)
          (Holds-write (contents b1.references) bytes2 b1.head entry held1) in
      let kept : len b2.references ≡ len b1.references =
        len-write B b1.references b2.references b1.head bytes2 fits2 wrote2 in
      let accepted : check b2.cap_set p1.cap ≡ true =
        ap₂ check (same2 ∙ same1) (ap (λ (x : ElementPtr). x.cap) handed1) ∙ check-get_cap tracks in
      let ptr : p1.ptr ≡ b.head = ap (λ (x : ElementPtr). x.ptr) handed1 in
      let size : p1.len ≡ length element1 = ap (λ (x : ElementPtr). x.len) handed1 in
      let stop = b.head + length element1 * 4 in
      let read = >>=_const (try_read_slice_locking b2.references b.head stop) ok bytes1 (λ d e.
        ap ok (
          read-Holds B b2.references (b1.head + length bytes2) entry stop d held2
            (omega (arith, kept, fits2)) (omega (arith, length-element_bytes element1 made1)) e)) in
      (bytes1, made1, rw (accepted, ptr, size) (sym (>>=_ok _) ∙ read))
