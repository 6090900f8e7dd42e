-- ===== src/Capability/World.antt =====
-- wasm-gpu/src/capabilities.rs: all capability stores of a run. They share one counter, old stores
-- stay in use beside those that a resize makes (snapshots, `Arc`), and any may be resized again.
use wasm_gpu.Prelude.{
  ℕ, suc, ◌+◌, ◌<◌, ◌≤◌, ◌≡◌, sym, true, false, List, [], ◌∷◌, some, get_elem?, All, All-get_elem?,
  All-map_pred, subst, u64_mod, arith, leb, ==_iff,
}
use wasm_gpu.Capability.{CapabilityStore, new, resize_ref, get_cap, check}
use wasm_gpu.Capability.Ids.{size}
use wasm_gpu.Capability.Invariant.{
  Inv, new-Inv, resize_ref-Inv, Inv-mono, check-size_le, contains-resize_ref, contains-fresh,
  record_at, record_at_self, record_at_below, counter_next,
}

pub record World : Type 0 where
  pub counter : ℕ
  pub stores : List CapabilityStore

abbrev pub initial : World
initial = record { counter = 0; stores = [] }

abbrev pub add : World → CapabilityStore × ℕ → World
add w (store, counter) = record { counter = counter; stores = store ∷ w.stores }

-- The counter does not wrap: a run draws fewer than 2 ^ 64 ids.
pub data Step (w : World) : World → Type 0 where
  creates : (n : ℕ) → w.counter + 1 < u64_mod → Step w (add w (new n w.counter))
  resizes :
      (i n : ℕ) {store : CapabilityStore}
      → w.counter + 1 < u64_mod
      → get_elem? w.stores i ≡ some store
      → Step w (add w (resize_ref store n w.counter))

pub data Reach : World → Type 0 where
  start : Reach initial
  after : {w u : World} → Reach w → Step w u → Reach u

abbrev Sound : World → Type 0
Sound w = (reg : ℕ → ℕ) × All (Inv reg w.counter) w.stores

-- A new store, valid under the table that also records the new id, joins the others.
add-Sound :
    (w : World) (n c : ℕ) (store : CapabilityStore) (reg : ℕ → ℕ)
    → c ≡ suc w.counter
    → All (Inv reg w.counter) w.stores
    → Inv (record_at w.counter n reg) (suc w.counter) store
    → Sound (add w (store, c))
add-Sound w n c store reg e v new_store = (
  record_at w.counter n reg,
  (
    subst (λ k. Inv (record_at w.counter n reg) k store) (sym e) new_store,
    All-map_pred _ _ w.stores
        (λ s. Inv-mono reg _ w.counter c s (record_at_below w.counter n reg) (omega arith)) v,
  ),
)

Step-Sound : {w u : World} → Step w u → Sound w → Sound u
unfolding new resize_ref
Step-Sound {w} (creates n h) (reg, v) =
    add-Sound w n _ _ reg (counter_next w.counter h) v
      (new-Inv _ n w.counter (record_at_self w.counter n reg))
Step-Sound {w} (resizes i n {store = store} h e) (reg, v) =
    add-Sound w n _ _ reg (counter_next w.counter h) v (
      resize_ref-Inv _ store n w.counter
        (Inv-mono reg _ w.counter w.counter store (record_at_below w.counter n reg) (omega arith)
          (All-get_elem? _ w.stores i v e))
        (record_at_self w.counter n reg))

pub Reach-Sound : {w : World} → Reach w → Sound w
Reach-Sound start = (λ x. 0, tt)
Reach-Sound (after r st) = Step-Sound st (Reach-Sound r)

-- In any run, a store accepts the capability of another store only if its buffer is at least as
-- large as the other's: a pointer never gains access beyond the range that it was made for.
pub check-size_le-Reach :
    (w : World) (i j : ℕ) (a b : CapabilityStore)
    → Reach w
    → get_elem? w.stores i ≡ some a
    → get_elem? w.stores j ≡ some b
    → check b (get_cap a) ≡ true
    → size a.id_sizes ≤ size b.id_sizes
check-size_le-Reach w i j a b r ea eb h =
    let (reg, v) = Reach-Sound r in
    check-size_le reg w.counter a b (All-get_elem? _ w.stores i v ea)
      (All-get_elem? _ w.stores j v eb) h

-- In any run, the store that a resize makes accepts the capability of the store that it was made
-- from exactly if the buffer did not shrink, and no store that was there before accepts the
-- capability of the new one.
pub check-resize_ref :
    (w : World) (i j n : ℕ) (a b : CapabilityStore)
    → Reach w
    → get_elem? w.stores i ≡ some a
    → get_elem? w.stores j ≡ some b
    → (check (resize_ref a n w.counter).0 (get_cap a) ≡ leb (size a.id_sizes) n)
      × (check b (get_cap (resize_ref a n w.counter).0) ≡ false)
unfolding check get_cap resize_ref
check-resize_ref w i j n a b r ea eb =
    let (reg, v) = Reach-Sound r in
    let va : Inv reg w.counter a = All-get_elem? _ w.stores i v ea in
    let vb : Inv reg w.counter b = All-get_elem? _ w.stores j v eb in
    (
      ground (
        arith,
        contains-resize_ref reg a n w.counter a.current_id va,
        va.current,
        va.last,
        contains-fresh reg w.counter a va,
        ==_iff w.counter a.current_id,
      ),
      contains-fresh reg w.counter b vb,
    )
