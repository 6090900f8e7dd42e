-- ===== src/Data/Segments.antt =====
-- wasm-gpu/src/instance/data.rs: what a segment that was added reads as, and what becomes of it.
use wasm_gpu.Prelude.{
  ℕ, ◌+◌, ◌-◌, ◌<◌, ◌≤◌, ◌≡◌, refl, sym, ap, ◌∙◌, List, length, length-append, length-take, slice,
  slice-overwrite, take, leb, leb→le, ok, ◌>>=◌, assert, >>=-eq-ok, >>=_const, >>=_ok, Bool-cases,
  inl, inr, leb_false→lt, assert-eq-ok, ok-injective, arith,
}
use wasm_gpu.Buffers.{LazyBuffers}
use wasm_gpu.Arena.{len-write}
use wasm_gpu.Capability
use wasm_gpu.Capability.{CapabilityStore, check}
use wasm_gpu.Capability.Tracks.{Tracks, check-get_cap}
use wasm_gpu.Data.{DataPtr, DataInstance, reserve, try_add_data, try_get}

module _ (B : LazyBuffers) where
  open B use {
    Buffer, contents, len, resize_lazy, fresh, length-fresh, len-contents, contents-resize_lazy_up,
    contents-resize_lazy_down, read-slice, write-overwrite, try_read_slice_locking,
    try_write_slice_locking,
  }

  -- A successful addition made one write at the head.
  pub try_add_data-eq-ok :
      (b : DataInstance B) (bytes : List ℕ) {p : DataPtr} {b' : DataInstance B}
      → try_add_data B b bytes ≡ ok (p, b')
      → (b.head + length bytes ≤ len b.datas)
        × (try_write_slice_locking b.datas b.head (b.head + length bytes) bytes ≡ ok b'.datas)
        × (b'.head ≡ b.head)
        × (b'.cap_set ≡ b.cap_set)
        × (p ≡ record { ptr = b.head; cap = Capability.get_cap b.cap_set; len = length bytes })
  unfolding try_add_data
  try_add_data-eq-ok b bytes {p} {b'} h =
      let (u, fits, h1) = >>=-eq-ok (assert (leb (b.head + length bytes) (len b.datas)) _) _ h in
      let (m, wrote, done) = >>=-eq-ok (try_write_slice_locking b.datas _ _ bytes) _ h1 in
      let same = ok-injective done in
      (
        leb→le _ _ (assert-eq-ok _ _ fits),
        wrote ∙ ap (λ (x : DataPtr × DataInstance B). ok x.1.datas) same,
        sym (ap (λ (x : DataPtr × DataInstance B). x.1.head) same),
        sym (ap (λ (x : DataPtr × DataInstance B). x.1.cap_set) same),
        sym (ap (λ (x : DataPtr × DataInstance B). x.0) same),
      )

  pub written :
      (b : DataInstance B) (bytes : List ℕ) {p : DataPtr} {b' : DataInstance B}
      → try_add_data B b bytes ≡ ok (p, b')
      → slice b.head (length bytes) (contents b'.datas) ≡ bytes
  written b bytes {b' = b'} h =
      let (fits, wrote, _, _, _) = try_add_data-eq-ok b bytes h in
      rw (write-overwrite b.datas b.head (b.head + length bytes) bytes refl fits wrote)
        (slice-overwrite (contents b.datas) b.head bytes (omega (arith, len-contents b.datas)))

  -- The segment that was added last reads as its data: `try_get` passes its assertion, reads once,
  -- and gives the data unless the transfer fails.
  try_get-try_add_data :
      (b b' : DataInstance B) (bytes : List ℕ) (p : DataPtr) (counter : ℕ)
      → Tracks counter b.cap_set (len b.datas)
      → try_add_data B b bytes ≡ ok (p, b')
      → try_get B b' p ≡ (try_read_slice_locking b'.datas p.ptr (p.ptr + p.len) >>= λ _. ok bytes)
  unfolding try_get
  try_get-try_add_data b b' bytes p counter tracks h =
      let (fits, wrote, _, same, handed) = try_add_data-eq-ok b bytes h in
      let stop = b.head + length bytes in
      let kept : len b'.datas ≡ len b.datas =
        len-write B b.datas b'.datas b.head bytes fits wrote in
      let read = >>=_const (try_read_slice_locking b'.datas b.head stop) ok bytes (λ d e. ap ok (
        read-slice b'.datas b.head stop (omega arith) (omega (arith, kept, fits)) e
        ∙ ap (λ n. slice b.head n (contents b'.datas)) (omega arith)
        ∙ written b bytes h)) in
      rw (handed, same, check-get_cap tracks) (sym (>>=_ok _) ∙ read)

  -- A reservation sets the size of the buffer, and does not add to it: a smaller one cuts off
  -- what lies behind it.
  reserve_sets :
      (b : DataInstance B) (values_size counter : ℕ)
      → (len (reserve B b values_size counter).0.datas ≡ values_size)
        × (values_size ≤ len b.datas
            → contents (reserve B b values_size counter).0.datas
              ≡ take values_size (contents b.datas))
  unfolding reserve
  reserve_sets b n counter = (
    elim (Bool-cases (leb n (len b.datas))) [
      | inl down ↦ cut (leb→le _ _ down)
      | inr up ↦ filled (leb_false→lt _ _ up)
    ],
    contents-resize_lazy_down b.datas n,
  )
    where
      cut : n ≤ len b.datas → len (resize_lazy b.datas n) ≡ n
      cut h = omega (
        arith,
        len-contents (resize_lazy b.datas n),
        ap (length {A = ℕ}) (contents-resize_lazy_down b.datas n h),
        length-take n (contents b.datas) (omega (arith, len-contents b.datas)),
      )

      filled : len b.datas < n → len (resize_lazy b.datas n) ≡ n
      filled h = omega (
        arith,
        len-contents (resize_lazy b.datas n),
        ap (length {A = ℕ}) (contents-resize_lazy_up b.datas n (omega arith)),
        length-append (contents b.datas) (fresh b.datas (n - len b.datas)),
        length-fresh b.datas (n - len b.datas),
        len-contents b.datas,
      )
