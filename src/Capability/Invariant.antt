-- ===== src/Capability/Invariant.antt =====
-- wasm-gpu/src/capabilities.rs: what a capability store holds. `reg` gives each id the size that
-- its buffer had when the id was drawn; the program does not keep this table as a whole.
use wasm_gpu.Prelude.{
  ℕ, suc, ◌+◌, ◌<◌, ◌≤◌, ◌≡◌, refl, sym, ◌∙◌, true, false, ◌&&◌, ◌||◌, [], ◌∷◌, All, All-append,
  All-map_pred, u64_mod, arith, leb, ◌==◌, ==_refl, if◌then◌else◌, inl, inr, Bool-cases,
}
use wasm_gpu.Capability.{
  CapabilityStore, contains, new, resize_loop, resize_ref, next, get_cap, check,
}
use wasm_gpu.Capability.Ids.{
  has, size, contains-insert, has-append, contains-resize_loop, has-resize_loop, All-resize_loop,
  keeps-has, has-below, has_bounded, size-append,
}

pub record Inv (reg : ℕ → ℕ) (counter : ℕ) (store : CapabilityStore) : Type 0 where
  pub agree : (x : ℕ) → contains store.valid_ids x ≡ has store.id_sizes x
  pub sizes :
      All (λ p. (reg p.1 ≡ p.0) × (p.1 < counter) × (p.0 ≤ reg store.current_id)) store.id_sizes
  pub current : contains store.valid_ids store.current_id ≡ true
  pub last : size store.id_sizes ≡ reg store.current_id

pub new-Inv :
    (reg : ℕ → ℕ) (n counter : ℕ) → reg counter ≡ n → Inv reg (suc counter) (new n counter).0
unfolding new has size
new-Inv reg n counter h = record {
  agree = λ x. refl;
  sizes = ((h, omega arith, omega arith), tt);
  current = ground arith;
  last = sym h;
}

-- A table that agrees on the ids drawn so far serves as well.
pub Inv-mono :
    (reg reg' : ℕ → ℕ) (counter counter' : ℕ) (store : CapabilityStore)
    → ((x : ℕ) → x < counter → reg x ≡ reg' x)
    → counter ≤ counter'
    → Inv reg counter store
    → Inv reg' counter' store
Inv-mono reg reg' counter counter' store same le v =
    let cur : store.current_id < counter =
      has-below counter store.id_sizes store.current_id
        (All-map_pred _ (λ p. p.1 < counter) store.id_sizes (λ p h. h.1) v.sizes)
        (sym (v.agree store.current_id) ∙ v.current) in
    record {
      agree = v.agree;
      sizes =
          All-map_pred _ _ store.id_sizes
            (λ p h. (
              sym (same p.1 h.1) ∙ h.0,
              omega arith,
              omega (arith, h.2, same store.current_id cur),
            ))
            v.sizes;
      current = v.current;
      last = v.last ∙ same store.current_id cur;
    }

-- A resize keeps exactly the capabilities whose buffer size still fits, and adds the new one.
pub contains-resize_ref :
    (reg : ℕ → ℕ) (store : CapabilityStore) (n counter x : ℕ)
    → Inv reg counter store
    → contains (resize_ref store n counter).0.valid_ids x
      ≡ (counter == x || (contains store.valid_ids x && leb (reg x) n))
unfolding resize_ref
contains-resize_ref reg store n counter x v =
    contains-insert counter x (resize_loop n store.id_sizes [] []).0
    ∙ ground (
      arith,
      contains-resize_loop n store.id_sizes [] [] x,
      keeps-has reg n store.id_sizes x
          (All-map_pred _ (λ p. reg p.1 ≡ p.0) store.id_sizes (λ p h. h.0) v.sizes),
      v.agree x,
    )

pub resize_ref-Inv :
    (reg : ℕ → ℕ) (store : CapabilityStore) (n counter : ℕ)
    → Inv reg counter store
    → reg counter ≡ n
    → Inv reg (suc counter) (resize_ref store n counter).0
unfolding resize_ref has
resize_ref-Inv reg store n counter v h = record {
  agree = λ x.
      contains-insert counter x _
      ∙ ground (
        arith,
        contains-resize_loop n store.id_sizes [] [] x,
        has-resize_loop n store.id_sizes [] [] x,
        has-append (resize_loop n store.id_sizes [] []).1 ((n, counter) ∷ []) x,
      );
  sizes =
      All-append _ (resize_loop n store.id_sizes [] []).1 ((n, counter) ∷ [])
        (All-resize_loop _ n store.id_sizes [] []
          (All-map_pred _ _ store.id_sizes (λ p f le. (f.0, omega (arith, f.1), omega arith))
            v.sizes)
          tt)
        ((h, omega arith, omega arith), tt);
  current =
      contains-insert counter counter (resize_loop n store.id_sizes [] []).0
      ∙ ground (arith, ==_refl counter);
  last = size-append (resize_loop n store.id_sizes [] []).1 n counter ∙ sym h;
}

-- Two stores under one table: a capability of the first is accepted by the second only if the
-- second is at least as large.
pub check-size_le :
    (reg : ℕ → ℕ) (counter : ℕ) (a b : CapabilityStore)
    → Inv reg counter a
    → Inv reg counter b
    → check b (get_cap a) ≡ true
    → size a.id_sizes ≤ size b.id_sizes
unfolding check get_cap
check-size_le reg counter a b va vb h = omega (
  arith,
  va.last,
  vb.last,
  has_bounded reg (reg b.current_id) b.id_sizes a.current_id
      (All-map_pred _ (λ p. (reg p.1 ≡ p.0) × (p.0 ≤ reg b.current_id)) b.id_sizes
        (λ p f. (f.0, f.2)) vb.sizes)
      (sym (vb.agree a.current_id) ∙ h),
)

-- An id that is not drawn yet is not accepted.
pub contains-fresh :
    (reg : ℕ → ℕ) (counter : ℕ) (store : CapabilityStore)
    → Inv reg counter store
    → contains store.valid_ids counter ≡ false
contains-fresh reg counter store v = elim (Bool-cases (contains store.valid_ids counter)) [
  | inr f ↦ f
  | inl t ↦ absurd (
      omega (
        arith,
        has-below counter store.id_sizes counter
            (All-map_pred _ (λ p. p.1 < counter) store.id_sizes (λ p h. h.1) v.sizes)
            (sym (v.agree counter) ∙ t),
      ))
]

-- An accepted id was drawn when the buffer was no larger than it is now.
valid_bounded :
    (reg : ℕ → ℕ) (counter : ℕ) (store : CapabilityStore) (x : ℕ)
    → Inv reg counter store
    → contains store.valid_ids x ≡ true
    → (reg x ≤ size store.id_sizes) × (x < counter)
valid_bounded reg counter store x v h = (
  omega (
    arith,
    v.last,
    has_bounded reg (reg store.current_id) store.id_sizes x
        (All-map_pred _ (λ p. (reg p.1 ≡ p.0) × (p.0 ≤ reg store.current_id)) store.id_sizes
          (λ p f. (f.0, f.2)) v.sizes)
        (sym (v.agree x) ∙ h),
  ),
  has-below counter store.id_sizes x
      (All-map_pred _ (λ p. p.1 < counter) store.id_sizes (λ p f. f.1) v.sizes)
      (sym (v.agree x) ∙ h),
)

-- The store of a growing buffer: what it accepted it accepts after a resize to a size that is no
-- smaller, and the new capability too.
pub resize_ref-keeps :
    (reg : ℕ → ℕ) (store : CapabilityStore) (n counter x : ℕ)
    → Inv reg counter store
    → size store.id_sizes ≤ n
    → contains store.valid_ids x ≡ true
    → contains (resize_ref store n counter).0.valid_ids x ≡ true
resize_ref-keeps reg store n counter x v grows h =
    contains-resize_ref reg store n counter x v
    ∙ ground (arith, h, (valid_bounded reg counter store x v h).0)

-- The table of sizes with one more entry, and the counter after a draw.
pub record_at : ℕ → ℕ → (ℕ → ℕ) → ℕ → ℕ
record_at id n reg x = if id == x then n else reg x

pub record_at_self : (id n : ℕ) (reg : ℕ → ℕ) → record_at id n reg id ≡ n
unfolding record_at
record_at_self id n reg = ground (arith, ==_refl id)

pub record_at_below : (id n : ℕ) (reg : ℕ → ℕ) (x : ℕ) → x < id → reg x ≡ record_at id n reg x
unfolding record_at
record_at_below id n reg x h = ground arith

pub counter_next : (c : ℕ) → c + 1 < u64_mod → (next c).1 ≡ suc c
unfolding next
counter_next c h = omega arith
