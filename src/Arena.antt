-- ===== src/Arena.antt =====
-- A buffer that is filled from the front: what every append-only instance buffer relies on
-- (globals, elements). An entry is the position and the bytes of something written.
use wasm_gpu.Prelude.{
  ℕ, ◌+◌, ◌≤◌, ◌≡◌, refl, ◌∙◌, ap, List, ◌++◌, length, length-append, slice, overwrite,
  slice-overwrite, slice-overwrite_before, slice-append, length-overwrite, ok, arith,
}
use wasm_gpu.Buffers.{LazyBuffers}

-- Each entry lies below the head, and is read back from where it was written.
abbrev pub Holds : List ℕ → ℕ → ℕ × List ℕ → Type 0
Holds xs head e = (e.0 + length e.1 ≤ head) × (slice e.0 (length e.1) xs ≡ e.1)

pub Holds-grow :
    (xs ys : List ℕ) (head : ℕ) (e : ℕ × List ℕ)
    → head ≤ length xs
    → Holds xs head e
    → Holds (xs ++ ys) head e
Holds-grow xs ys head e h k = (k.0, slice-append xs ys e.0 (length e.1) (omega (arith, k.0)) ∙ k.1)

pub Holds-write :
    (xs d : List ℕ) (head : ℕ) (e : ℕ × List ℕ)
    → Holds xs head e
    → Holds (overwrite xs head d) (head + length d) e
Holds-write xs d head e k =
    (omega (arith, k.0), slice-overwrite_before xs head e.0 (length e.1) d k.0 ∙ k.1)

pub Holds-new :
    (xs d : List ℕ) (head : ℕ)
    → head + length d ≤ length xs
    → Holds (overwrite xs head d) (head + length d) (head, d)
Holds-new xs d head h = (omega arith, slice-overwrite xs head d h)

-- Lengths of buffers, from the documented behaviour of the operations.
module _ (B : LazyBuffers) where
  open B use {
    Buffer, contents, len, create_and_map_empty, extend_lazy, fresh, length-fresh, len-contents,
    contents-create, contents-extend_lazy, write-overwrite, read-slice, try_write_slice_locking,
    try_read_slice_locking,
  }

  pub len-extend_lazy : (b : Buffer) (n : ℕ) → len (extend_lazy b n) ≡ len b + n
  len-extend_lazy b n = omega (
    arith,
    len-contents (extend_lazy b n),
    ap (length {A = ℕ}) (contents-extend_lazy b n),
    length-append (contents b) (fresh b n),
    length-fresh b n,
    len-contents b,
  )

  pub len-create : len create_and_map_empty ≡ 0
  len-create = omega (arith, len-contents create_and_map_empty, ap (length {A = ℕ}) contents-create)

  pub len-write :
      (b b' : Buffer) (s : ℕ) (d : List ℕ)
      → s + length d ≤ len b
      → try_write_slice_locking b s (s + length d) d ≡ ok b'
      → len b' ≡ len b
  len-write b b' s d h e = omega (
    arith,
    len-contents b,
    len-contents b',
    ap (length {A = ℕ}) (write-overwrite b s (s + length d) d refl h e),
    length-overwrite (contents b) s d,
  )

  -- Reading an entry that is held gives its bytes, or fails in the transfer.
  pub read-Holds :
      (b : Buffer) (head : ℕ) (e : ℕ × List ℕ) (stop : ℕ) (d : List ℕ)
      → Holds (contents b) head e
      → head ≤ len b
      → stop ≡ e.0 + length e.1
      → try_read_slice_locking b e.0 stop ≡ ok d
      → d ≡ e.1
  read-Holds b head e stop d h k s r =
      read-slice b e.0 stop (omega arith) (omega (arith, h.0)) r
      ∙ ap (λ n. slice e.0 n (contents b)) (omega arith)
      ∙ h.1
