-- ===== src/Buffers.antt =====
-- The buffers of the crate `wgpu_lazybuffers`, which is not part of the repository: an interface
-- of the operations that the instance builders call, with the documented behaviour that they rely
-- on. A transfer may fail with `BufferAsyncError`; what is stated of it holds where it succeeds.
use wasm_gpu.Prelude.{
  ℕ, zero, suc, ◌+◌, ◌-◌, ◌≤◌, ◌≡◌, refl, ap, arith, List, [], ◌∷◌, append-nil, ◌++◌, Outcome, ok,
  length, length-replicate, take, replicate, slice, overwrite, ok-injective, sym,
}

pub record LazyBuffers : Type 1 where
  -- `MappedLazyBuffer`, and the bytes that it holds.
  pub Buffer : Type 0
  pub contents : Buffer → List ℕ
  pub create_and_map_empty : Buffer
  pub len : Buffer → ℕ
  pub extend_lazy : Buffer → ℕ → Buffer
  pub resize_lazy : Buffer → ℕ → Buffer
  -- A range is given by its two ends, as in `start..end`.
  pub try_read_slice_locking : Buffer → ℕ → ℕ → Outcome (List ℕ)
  pub try_write_slice_locking : Buffer → ℕ → ℕ → List ℕ → Outcome Buffer
  -- The bytes that a growth adds.
  pub fresh : Buffer → ℕ → List ℕ
  pub length-fresh : (b : Buffer) (n : ℕ) → length (fresh b n) ≡ n
  pub len-contents : (b : Buffer) → len b ≡ length (contents b)
  pub contents-create : contents create_and_map_empty ≡ []
  pub contents-extend_lazy :
      (b : Buffer) (n : ℕ) → contents (extend_lazy b n) ≡ contents b ++ fresh b n
  pub contents-resize_lazy_up :
      (b : Buffer) (n : ℕ)
      → len b ≤ n
      → contents (resize_lazy b n) ≡ contents b ++ fresh b (n - len b)
  pub contents-resize_lazy_down :
      (b : Buffer) (n : ℕ) → n ≤ len b → contents (resize_lazy b n) ≡ take n (contents b)
  pub read-slice :
      (b : Buffer) (s e : ℕ) {d : List ℕ}
      → s ≤ e
      → e ≤ len b
      → try_read_slice_locking b s e ≡ ok d
      → d ≡ slice s (e - s) (contents b)
  pub write-overwrite :
      (b : Buffer) (s e : ℕ) (d : List ℕ) {b' : Buffer}
      → s + length d ≡ e
      → e ≤ len b
      → try_write_slice_locking b s e d ≡ ok b'
      → contents b' ≡ overwrite (contents b) s d

take_all : (n : ℕ) (b : List ℕ) → length b ≤ n → take n b ≡ b
take_all zero [] h = refl
take_all zero (x ∷ b) h = absurd (omega arith)
take_all (suc n) [] h = refl
take_all (suc n) (x ∷ b) h = ap (◌∷◌ x) (take_all n b (omega arith))

pub host_resize_up :
    (b : List ℕ) (n : ℕ)
    → length b ≤ n
    → take n b ++ replicate (n - length b) 0 ≡ b ++ replicate (n - length b) 0
host_resize_up b n h = rw (take_all n b h)

pub host_resize_down :
    (b : List ℕ) (n : ℕ) → n ≤ length b → take n b ++ replicate (n - length b) 0 ≡ take n b
host_resize_down b n h =
    let none_left : n - length b ≡ 0 = omega arith in rw (none_left, append-nil)

-- Buffers in host memory, which never fail: the interface can be met.
abbrev pub host_buffers : LazyBuffers
host_buffers = record {
  Buffer = List ℕ;
  contents = λ b. b;
  create_and_map_empty = [];
  len = length;
  extend_lazy = λ b n. b ++ replicate n 0;
  resize_lazy = λ b n. take n b ++ replicate (n - length b) 0;
  try_read_slice_locking = λ b s e. ok (slice s (e - s) b);
  try_write_slice_locking = λ b s e d. ok (overwrite b s d);
  fresh = λ b n. replicate n 0;
  length-fresh = λ b n. length-replicate n 0;
  len-contents = λ b. refl;
  contents-create = refl;
  contents-extend_lazy = λ b n. refl;
  contents-resize_lazy_up = host_resize_up;
  contents-resize_lazy_down = host_resize_down;
  read-slice = λ b s e h k p. sym (ok-injective p);
  write-overwrite = λ b s e d h k p. sym (ok-injective p);
}
