-- ===== src/Globals/Values.antt =====
-- wasm-gpu/src/instance/global: a buffer of globals over its life. Space is reserved, values are
-- pushed, and other parts of the program draw ids in between.
use wasm_gpu.Prelude.{
  ℕ, ◌+◌, ◌<◌, ◌≤◌, ◌≡◌, refl, sym, ap, ◌∙◌, subst, true, List, [], ◌∷◌, some, length, All,
  All-get_elem?, All-map_pred, get_elem?, overwrite, leb, le→leb, leb→le, ok, ◌>>=◌, assert,
  >>=-eq-ok, >>=_const, assert-eq-ok, ok-injective, u64_mod, arith,
}
use wasm_gpu.Buffers.{LazyBuffers}
use wasm_gpu.Arena.{
  Holds, Holds-grow, Holds-write, Holds-new, len-extend_lazy, len-create, len-write, read-Holds,
}
use wasm_gpu.Capability
use wasm_gpu.Capability.{CapabilityStore, check}
use wasm_gpu.Capability.Tracks.{
  Tracks, Tracks-new, Tracks-resize_ref, Tracks-later, check_keeps, check-get_cap,
}
use wasm_gpu.Typed.{Val, byte_count, get_type, to_bytes, try_from_bytes}
use wasm_gpu.Typed.Bytes.{IsVal, length-to_bytes, try_from_bytes-to_bytes, val_type_eq_refl}
use wasm_gpu.Globals.{
  GlobalPtr, GlobalsBuilder, new, reserve, try_push, read_typed, read_target, try_get_mutable,
  try_get_immutable,
}

-- Globals are read at the type that they were written at.
read_target-get_type : (v : Val) → read_target (get_type v) ≡ get_type v
unfolding read_target get_type
read_target-get_type (Val.i32 v) = refl
read_target-get_type v = refl

module _ (B : LazyBuffers) where
  open B use {
    Buffer, contents, len, extend_lazy, fresh, len-contents, contents-extend_lazy, write-overwrite,
    try_read_slice_locking, try_write_slice_locking,
  }

  -- The builder, the id counter of the program, and the globals pushed, newest first.
  pub record Run : Type 0 where
    pub builder : GlobalsBuilder B
    pub counter : ℕ
    pub issued : List (GlobalPtr × Val)

  abbrev pub begin : ℕ → Run
  begin counter =
      let (builder, counter') = new B counter in
      record { builder = builder; counter = counter'; issued = [] }

  abbrev pub reserved : Run → GlobalsBuilder B × ℕ → Run
  reserved r (builder, counter) = record r { builder = builder; counter = counter }

  pub data Step (r : Run) : Run → Type 0 where
    reserves :
        (values_size : ℕ)
        → r.counter + 1 < u64_mod
        → Step r (reserved r (reserve B r.builder values_size r.counter))
    pushes :
        (v : Val) {p : GlobalPtr} {b : GlobalsBuilder B}
        → IsVal v
        → try_push B r.builder v ≡ ok (p, b)
        → Step r (record r { builder = b; issued = (p, v) ∷ r.issued })
    elsewhere : (counter : ℕ) → r.counter ≤ counter → Step r (record r { counter = counter })

  pub data Reach : Run → Type 0 where
    start : (counter : ℕ) → counter + 1 < u64_mod → Reach (begin counter)
    after : {r s : Run} → Reach r → Step r s → Reach s

  -- What a pointer that was handed out for a value says, and that the store accepts it.
  abbrev pub Issued : CapabilityStore → GlobalPtr × Val → Type 0
  Issued store e = (check store e.0.cap ≡ true) × (e.0.content_type ≡ get_type e.1) × IsVal e.1

  abbrev pub entry : GlobalPtr × Val → ℕ × List ℕ
  entry e = (e.0.ptr, to_bytes e.1)

  pub record RunInv (r : Run) : Type 0 where
    pub tracks : Tracks r.counter r.builder.cap_set (len r.builder.values)
    pub bounded : r.builder.head ≤ len r.builder.values
    pub held : All (λ e. Holds (contents r.builder.values) r.builder.head (entry e)) r.issued
    pub accepted : All (Issued r.builder.cap_set) r.issued

  -- A successful push made one write, at the head, and moved the head behind it.
  try_push-eq-ok :
      (b : GlobalsBuilder B) (v : Val) {p : GlobalPtr} {b' : GlobalsBuilder B}
      → try_push B b v ≡ ok (p, b')
      → (b.head + length (to_bytes v) ≤ len b.values)
        × (try_write_slice_locking b.values b.head (b.head + length (to_bytes v)) (to_bytes v)
            ≡ ok b'.values)
        × (b'.head ≡ b.head + length (to_bytes v))
        × (b'.cap_set ≡ b.cap_set)
        × (p ≡ record {
          ptr = b.head;
          cap = Capability.get_cap b.cap_set;
          content_type = get_type v;
        })
  unfolding try_push
  try_push-eq-ok b v {p} {b'} h =
      let (u, fits, h1) =
        >>=-eq-ok (assert (leb (b.head + length (to_bytes v)) (len b.values)) _) _ h in
      let (m, wrote, done) = >>=-eq-ok (try_write_slice_locking b.values _ _ (to_bytes v)) _ h1 in
      let same = ok-injective done in
      (
        leb→le _ _ (assert-eq-ok _ _ fits),
        wrote ∙ ap (λ (x : GlobalPtr × GlobalsBuilder B). ok x.1.values) same,
        sym (ap (λ (x : GlobalPtr × GlobalsBuilder B). x.1.head) same),
        sym (ap (λ (x : GlobalPtr × GlobalsBuilder B). x.1.cap_set) same),
        sym (ap (λ (x : GlobalPtr × GlobalsBuilder B). x.0) same),
      )

  begin-RunInv : (counter : ℕ) → counter + 1 < u64_mod → RunInv (begin counter)
  unfolding new
  begin-RunInv counter h = record {
    tracks = subst (Tracks _ _) (sym (len-create B)) (Tracks-new counter 0 h);
    bounded = omega arith;
    held = tt;
    accepted = tt;
  }

  reserve-RunInv :
      (r : Run) (values_size : ℕ)
      → r.counter + 1 < u64_mod
      → RunInv r
      → RunInv (reserved r (reserve B r.builder values_size r.counter))
  unfolding reserve
  reserve-RunInv r values_size h v =
      let b = r.builder in
      let n = len (extend_lazy b.values values_size) in
      let grown : n ≡ len b.values + values_size = len-extend_lazy B b.values values_size in
      record {
        tracks = Tracks-resize_ref r.counter n b.cap_set _ h v.tracks;
        bounded = omega (arith, v.bounded);
        held =
            subst (λ xs. All (λ e. Holds xs b.head (entry e)) r.issued)
              (sym (contents-extend_lazy b.values values_size))
              (All-map_pred _ _ r.issued
                (λ e.
                  Holds-grow (contents b.values) (fresh b.values values_size) b.head (entry e)
                    (omega (arith, v.bounded, len-contents b.values)))
                v.held);
        accepted =
            All-map_pred _ _ r.issued
              (λ e k.
                (check_keeps r.counter n b.cap_set _ e.0.cap v.tracks (omega arith) k.0, k.1, k.2))
              v.accepted;
      }

  try_push-RunInv :
      (r : Run) (v : Val) (p : GlobalPtr) (b : GlobalsBuilder B)
      → IsVal v
      → RunInv r
      → try_push B r.builder v ≡ ok (p, b)
      → RunInv (record r { builder = b; issued = (p, v) ∷ r.issued })
  try_push-RunInv r v p b hv inv h =
      let d = to_bytes v in
      let old = r.builder in
      let filled = overwrite (contents old.values) old.head d in
      let (fits, wrote, head, same, handed) = try_push-eq-ok old v h in
      let kept : len b.values ≡ len old.values =
        len-write B old.values b.values old.head d fits wrote in
      let written = write-overwrite old.values old.head (old.head + length d) d refl fits wrote in
      let ptr : p.ptr ≡ old.head = ap (λ (x : GlobalPtr). x.ptr) handed in
      let room : old.head + length d ≤ length (contents old.values) =
        omega (arith, len-contents old.values) in
      let held' : All (λ e. Holds filled (old.head + length d) (entry e)) ((p, v) ∷ r.issued) = (
        subst (λ k. Holds filled (old.head + length d) (k, d)) (sym ptr)
            (Holds-new (contents old.values) d old.head room),
        All-map_pred _ _ r.issued (λ e. Holds-write (contents old.values) d old.head (entry e))
            inv.held,
      ) in
      let accepted' : All (Issued old.cap_set) ((p, v) ∷ r.issued) = (
        (
          subst (λ (x : GlobalPtr). check old.cap_set x.cap ≡ true) (sym handed)
              (check-get_cap inv.tracks),
          ap (λ (x : GlobalPtr). x.content_type) handed,
          hv,
        ),
        inv.accepted,
      ) in
      record {
        tracks =
            subst (λ (c : CapabilityStore). Tracks r.counter c (len b.values)) (sym same)
              (subst (Tracks r.counter old.cap_set) (sym kept) inv.tracks);
        bounded = omega (arith, head, kept, fits);
        held =
            subst (λ xs. All (λ e. Holds xs b.head (entry e)) ((p, v) ∷ r.issued)) (sym written)
              (subst (λ k. All (λ e. Holds filled k (entry e)) ((p, v) ∷ r.issued)) (sym head)
                held');
        accepted = subst (λ c. All (Issued c) ((p, v) ∷ r.issued)) (sym same) accepted';
      }

  Step-RunInv : {r s : Run} → Step r s → RunInv r → RunInv s
  Step-RunInv {r} (reserves n h) v = reserve-RunInv r n h v
  Step-RunInv {r} (pushes v {p = p} {b = b} hv e) inv = try_push-RunInv r v p b hv inv e
  Step-RunInv {r} (elsewhere counter h) v = record {
    tracks = Tracks-later h v.tracks;
    bounded = v.bounded;
    held = v.held;
    accepted = v.accepted;
  }

  pub Reach-RunInv : {r : Run} → Reach r → RunInv r
  Reach-RunInv (start counter h) = begin-RunInv counter h
  Reach-RunInv (after r st) = Step-RunInv st (Reach-RunInv r)

  read_typed_pushed :
      (r : Run) (i : ℕ) (p : GlobalPtr) (v : Val)
      → RunInv r
      → get_elem? r.issued i ≡ some (p, v)
      → read_typed B r.builder (get_type v) p ≡ (
          try_read_slice_locking r.builder.values p.ptr (p.ptr + byte_count (get_type v)) >>= λ _.
          ok v)
  unfolding read_typed
  read_typed_pushed r i p v inv e =
      let stop = p.ptr + byte_count (get_type v) in
      let held = All-get_elem? _ r.issued i inv.held e in
      let (_, _, valid) = All-get_elem? _ r.issued i inv.accepted e in
      let fits : stop ≤ len r.builder.values =
        omega (arith, held.0, inv.bounded, length-to_bytes v) in
      rw (le→leb stop (len r.builder.values) fits) (
        >>=_const (try_read_slice_locking r.builder.values p.ptr stop)
          (λ d. try_from_bytes (get_type v) d) v
          (λ d read.
            ap (try_from_bytes (get_type v)) (
              read-Holds B r.builder.values r.builder.head (entry (p, v)) stop d held inv.bounded
                (omega (arith, length-to_bytes v)) read)
            ∙ try_from_bytes-to_bytes v valid))

  -- In any run of a buffer of globals, a global that was pushed reads as the value that was pushed,
  -- whatever was reserved and pushed since: both kinds of `try_get` pass every assertion, read once,
  -- and give that value unless the transfer fails.
  pub try_get_pushed :
      (r : Run) (i : ℕ) (p : GlobalPtr) (v : Val)
      → Reach r
      → get_elem? r.issued i ≡ some (p, v)
      → (try_get_mutable B r.builder p ≡ (
          try_read_slice_locking r.builder.values p.ptr (p.ptr + byte_count (get_type v)) >>= λ _.
          ok v))
        × (try_get_immutable B r.builder p ≡ (
            try_read_slice_locking r.builder.values p.ptr (p.ptr + byte_count (get_type v)) >>= λ _.
            ok v))
  unfolding try_get_mutable try_get_immutable
  try_get_pushed r i p v reached e =
      let inv = Reach-RunInv reached in
      let (good, typed, _) = All-get_elem? _ r.issued i inv.accepted e in
      let target : read_target p.content_type ≡ get_type v =
        ap read_target typed ∙ read_target-get_type v in
      (
        rw (good, target, typed, val_type_eq_refl v) (read_typed_pushed r i p v inv e),
        rw (good, target) (read_typed_pushed r i p v inv e),
      )
