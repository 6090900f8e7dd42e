-- ===== src/Memory/Isolation.antt =====
-- wasm-gpu/src/instance/memory/builder.rs: a memory builder over its life. It lays out memories,
-- initialises them, and other parts of the program draw ids in between.
use wasm_gpu.Prelude.{
  ℕ, ◌+◌, ◌*◌, ◌%◌, ◌<◌, ◌≤◌, ◌≡◌, ◌≢◌, refl, sym, ap, ◌∙◌, true, List, [], ◌∷◌, map, some, length,
  All, All-get_elem?, All-map_pred, get_elem?, get_elem?-map, slice, overwrite, slice-overwrite,
  slice-overwrite_before, slice-overwrite_after, Stacked, Stacked-mono, Stacked-le, Stacked-Apart,
  Apart, leb, le→leb, leb→le, ok, ◌>>=◌, assert, >>=-eq-ok, assert-eq-ok, ok-injective, inl, inr,
  arith, u64_mod, subst,
}
use wasm_gpu.Buffers.{LazyBuffers}
use wasm_gpu.Arena.{len-extend_lazy, len-create, len-write}
use wasm_gpu.Capability
use wasm_gpu.Capability.{CapabilityStore, resize_ref, check}
use wasm_gpu.Capability.Tracks.{
  Tracks, Tracks-new, Tracks-resize_ref, Tracks-later, check_keeps, check-get_cap,
}
use wasm_gpu.Memory.{
  AbstractMemoryPtr, MemoryType, MemoryInstanceSetBuilder, new, add_memory, try_initialize,
}

-- The bytes that belong to a memory.
abbrev pub region : AbstractMemoryPtr → ℕ × ℕ
region p = (p.ptr, p.len)

-- A write into a part of one region keeps a region apart from it.
Apart-kept :
    (xs : List ℕ) (s t n : ℕ) (d : List ℕ)
    → Apart (s, length d) (t, n)
    → slice t n (overwrite xs s d) ≡ slice t n xs
Apart-kept xs s t n d (inl h) = slice-overwrite_after xs s t n d h
Apart-kept xs s t n d (inr h) = slice-overwrite_before xs s t n d h

within :
    (p q : AbstractMemoryPtr) (offset : ℕ) (bytes : List ℕ)
    → offset + length bytes ≤ p.len
    → Apart (region p) (region q)
    → Apart (p.ptr + offset, length bytes) (region q)
within p q offset bytes fits (inl h) = inl (omega arith)
within p q offset bytes fits (inr h) = inr (omega arith)

module _ (B : LazyBuffers) where
  open B use {
    Buffer, contents, len, extend_lazy, fresh, length-fresh, len-contents, contents-create,
    contents-extend_lazy, write-overwrite, try_write_slice_locking,
  }

  -- The builder, the id counter of the program, and the pointers handed out, newest first.
  pub record Run : Type 0 where
    pub builder : MemoryInstanceSetBuilder B
    pub counter : ℕ
    pub issued : List AbstractMemoryPtr

  abbrev pub begin : ℕ → Run
  begin counter =
      let (builder, counter') = new B counter in
      record { builder = builder; counter = counter'; issued = [] }

  abbrev pub added : Run → AbstractMemoryPtr × MemoryInstanceSetBuilder B × ℕ → Run
  added r (p, builder, counter) = record {
    builder = builder;
    counter = counter;
    issued = p ∷ r.issued;
  }

  pub data Step (r : Run) : Run → Type 0 where
    adds :
        (plan : MemoryType)
        → r.counter + 1 < u64_mod
        → Step r (added r (add_memory B r.builder plan r.counter))
    initializes :
        (i offset : ℕ) (bytes : List ℕ) {p : AbstractMemoryPtr} {b : MemoryInstanceSetBuilder B}
        → get_elem? r.issued i ≡ some p
        → try_initialize B r.builder p bytes offset ≡ ok b
        → Step r (record r { builder = b })
    elsewhere : (counter : ℕ) → r.counter ≤ counter → Step r (record r { counter = counter })

  pub data Reach : Run → Type 0 where
    start : (counter : ℕ) → counter + 1 < u64_mod → Reach (begin counter)
    after : {r s : Run} → Reach r → Step r s → Reach s

  -- The capability store describes the buffer, the memories lie one on another in it, and the
  -- store accepts every pointer handed out.
  pub record RunInv (r : Run) : Type 0 where
    pub tracks : Tracks r.counter r.builder.cap_set (len r.builder.memory)
    pub stacked : Stacked (len r.builder.memory) (map region r.issued)
    pub accepted : All (λ p. check r.builder.cap_set p.cap ≡ true) r.issued

  -- A successful initialisation passed both assertions, and made one write.
  try_initialize-eq-ok :
      (b : MemoryInstanceSetBuilder B) (p : AbstractMemoryPtr) (bytes : List ℕ) (offset : ℕ)
      {b' : MemoryInstanceSetBuilder B}
      → try_initialize B b p bytes offset ≡ ok b'
      → (offset + length bytes ≤ p.len)
        × (try_write_slice_locking b.memory (p.ptr + offset) (p.ptr + offset + length bytes) bytes
            ≡ ok b'.memory)
        × (b'.cap_set ≡ b.cap_set)
  unfolding try_initialize
  try_initialize-eq-ok b p bytes offset h =
      let (u, _, h1) = >>=-eq-ok (assert (Capability.check b.cap_set p.cap) _) _ h in
      let (v, fits, h2) = >>=-eq-ok (assert (leb (offset + length bytes) p.len) _) _ h1 in
      let (m, wrote, done) = >>=-eq-ok (try_write_slice_locking b.memory _ _ bytes) _ h2 in
      (
        leb→le _ _ (assert-eq-ok _ _ fits),
        wrote ∙ ap (λ (x : MemoryInstanceSetBuilder B). ok x.memory) (ok-injective done),
        ap (λ (x : MemoryInstanceSetBuilder B). x.cap_set) (sym (ok-injective done)),
      )

  -- The range of a pointer that was handed out lies in the buffer.
  region_fits :
      (r : Run) (i : ℕ) (p : AbstractMemoryPtr)
      → RunInv r
      → get_elem? r.issued i ≡ some p
      → p.ptr + p.len ≤ len r.builder.memory
  region_fits r i p v e =
      Stacked-le (len r.builder.memory) i (map region r.issued) v.stacked
        (get_elem?-map region r.issued i e)

  begin-RunInv : (counter : ℕ) → counter + 1 < u64_mod → RunInv (begin counter)
  unfolding new
  begin-RunInv counter h = record {
    tracks = subst (Tracks _ _) (sym (len-create B)) (Tracks-new counter 0 h);
    stacked = tt;
    accepted = tt;
  }

  add_memory-RunInv :
      (r : Run) (plan : MemoryType)
      → r.counter + 1 < u64_mod
      → RunInv r
      → RunInv (added r (add_memory B r.builder plan r.counter))
  unfolding add_memory
  add_memory-RunInv r plan h v =
      let n = len (extend_lazy r.builder.memory (plan.initial * 65536 % u64_mod)) in
      let grown : n ≡ len r.builder.memory + plan.initial * 65536 % u64_mod =
        len-extend_lazy B r.builder.memory (plan.initial * 65536 % u64_mod) in
      let tracks' = Tracks-resize_ref r.counter n r.builder.cap_set _ h v.tracks in
      record {
        tracks = tracks';
        stacked = (omega arith, v.stacked);
        accepted = (
          check-get_cap tracks',
          All-map_pred _ _ r.issued
              (λ p a. check_keeps r.counter n r.builder.cap_set _ p.cap v.tracks (omega arith) a)
              v.accepted,
        );
      }

  try_initialize-RunInv :
      (r : Run) (i offset : ℕ) (bytes : List ℕ) (p : AbstractMemoryPtr)
      (b : MemoryInstanceSetBuilder B)
      → RunInv r
      → get_elem? r.issued i ≡ some p
      → try_initialize B r.builder p bytes offset ≡ ok b
      → RunInv (record r { builder = b })
  try_initialize-RunInv r i offset bytes p b v e h =
      let (fits, wrote, same) = try_initialize-eq-ok r.builder p bytes offset h in
      let kept : len b.memory ≡ len r.builder.memory =
        len-write B r.builder.memory b.memory (p.ptr + offset) bytes
          (omega (arith, region_fits r i p v e)) wrote in
      record {
        tracks =
            subst (λ (c : CapabilityStore). Tracks r.counter c (len b.memory)) (sym same)
              (subst (Tracks r.counter r.builder.cap_set) (sym kept) v.tracks);
        stacked =
            Stacked-mono (len r.builder.memory) (len b.memory) (map region r.issued) (omega arith)
              v.stacked;
        accepted =
            subst (λ (c : CapabilityStore). All (λ p. check c p.cap ≡ true) r.issued) (sym same)
              v.accepted;
      }

  Step-RunInv : {r s : Run} → Step r s → RunInv r → RunInv s
  Step-RunInv {r} (adds plan h) v = add_memory-RunInv r plan h v
  Step-RunInv {r} (initializes i offset bytes {p = p} {b = b} e h) v =
      try_initialize-RunInv r i offset bytes p b v e h
  Step-RunInv {r} (elsewhere counter h) v = record {
    tracks = Tracks-later h v.tracks;
    stacked = v.stacked;
    accepted = v.accepted;
  }

  pub Reach-RunInv : {r : Run} → Reach r → RunInv r
  Reach-RunInv (start counter h) = begin-RunInv counter h
  Reach-RunInv (after r st) = Step-RunInv st (Reach-RunInv r)

  -- In any run of a memory builder, a pointer that it handed out stays valid: data that fits in
  -- the memory passes both assertions of `try_initialize`, whose outcome is then that of one
  -- buffer write, and that write lies inside the buffer.
  pub try_initialize_issued :
      (r : Run) (i offset : ℕ) (bytes : List ℕ) (p : AbstractMemoryPtr)
      → Reach r
      → get_elem? r.issued i ≡ some p
      → offset + length bytes ≤ p.len
      → (try_initialize B r.builder p bytes offset ≡ (
          try_write_slice_locking r.builder.memory
            (p.ptr + offset)
            (p.ptr + offset + length bytes)
            bytes
          >>= λ m. ok (record (r.builder) { memory = m })))
        × (p.ptr + offset + length bytes ≤ len r.builder.memory)
  unfolding try_initialize
  try_initialize_issued r i offset bytes p reached e fits =
      let v = Reach-RunInv reached in
      (
        rw (All-get_elem? _ r.issued i v.accepted e, le→leb _ _ fits) refl,
        omega (arith, region_fits r i p v e),
      )

  -- In any run, a successful initialisation through one pointer leaves exactly the given bytes at
  -- the given offset of its memory, and leaves every other memory handed out as it was.
  pub try_initialize_isolated :
      (r : Run) (i j offset : ℕ) (bytes : List ℕ) (p q : AbstractMemoryPtr)
      (b : MemoryInstanceSetBuilder B)
      → Reach r
      → get_elem? r.issued i ≡ some p
      → get_elem? r.issued j ≡ some q
      → i ≢ j
      → try_initialize B r.builder p bytes offset ≡ ok b
      → (slice (p.ptr + offset) (length bytes) (contents b.memory) ≡ bytes)
        × (slice q.ptr q.len (contents b.memory) ≡ slice q.ptr q.len (contents r.builder.memory))
  try_initialize_isolated r i j offset bytes p q b reached ep eq ne h =
      let v = Reach-RunInv reached in
      let (fits, wrote, same) = try_initialize-eq-ok r.builder p bytes offset h in
      let inside : p.ptr + offset + length bytes ≤ len r.builder.memory =
        omega (arith, region_fits r i p v ep) in
      let written =
        write-overwrite r.builder.memory (p.ptr + offset) (p.ptr + offset + length bytes) bytes refl
          inside wrote in
      (
        rw written (
            slice-overwrite (contents r.builder.memory) (p.ptr + offset) bytes
              (omega (arith, len-contents r.builder.memory))),
        rw written (
            Apart-kept (contents r.builder.memory) (p.ptr + offset) q.ptr q.len bytes (
              within p q offset bytes fits (
                Stacked-Apart (len r.builder.memory) i j (map region r.issued) v.stacked ne
                  (get_elem?-map region r.issued i ep) (get_elem?-map region r.issued j eq)))),
      )
