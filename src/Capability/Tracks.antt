-- ===== src/Capability/Tracks.antt =====
-- wasm-gpu/src/capabilities.rs, as the owners of buffers use it: what a store promises when it is
-- told of each growth.
use wasm_gpu.Prelude.{ℕ, suc, ◌+◌, ◌<◌, ◌≤◌, ◌≡◌, refl, sym, ◌∙◌, subst, true, u64_mod, arith}
use wasm_gpu.Capability.{CapabilityStore, Capability, new, resize_ref, get_cap, check}
use wasm_gpu.Capability.Ids.{size, size_one}
use wasm_gpu.Capability.Invariant.{
  Inv, new-Inv, resize_ref-Inv, Inv-mono, resize_ref-keeps, record_at, record_at_self,
  record_at_below, counter_next,
}

-- The store describes a buffer of `n` bytes, in a program whose counter is at `counter`.
pub record Tracks (counter : ℕ) (store : CapabilityStore) (n : ℕ) : Type 0 where
  reg : ℕ → ℕ
  caps : Inv reg counter store
  sized : size store.id_sizes ≡ n

module _ (counter n : ℕ) where
  pub Tracks-new : counter + 1 < u64_mod → Tracks (new n counter).1 (new n counter).0 n
  unfolding new
  Tracks-new h = record {
    reg = λ x. n;
    caps =
        subst (λ k. Inv (λ x. n) k (new n counter).0) (sym (counter_next counter h))
          (new-Inv (λ x. n) n counter refl);
    sized = size_one n counter;
  }

  pub Tracks-resize_ref :
      (store : CapabilityStore) (m : ℕ)
      → counter + 1 < u64_mod
      → Tracks counter store m
      → Tracks (resize_ref store n counter).1 (resize_ref store n counter).0 n
  unfolding resize_ref
  Tracks-resize_ref store m h t =
      let reg' : ℕ → ℕ = record_at counter n t.reg in
      let caps' : Inv reg' (suc counter) (resize_ref store n counter).0 =
        resize_ref-Inv reg' store n counter
          (Inv-mono t.reg reg' counter counter store (record_at_below counter n t.reg) (omega arith)
            t.caps)
          (record_at_self counter n t.reg) in
      record {
        reg = reg';
        caps =
            subst (λ k. Inv reg' k (resize_ref store n counter).0) (sym (counter_next counter h))
              caps';
        sized = caps'.last ∙ record_at_self counter n t.reg;
      }

  pub check_keeps :
      (store : CapabilityStore) (m : ℕ) (cap : Capability)
      → Tracks counter store m
      → m ≤ n
      → check store cap ≡ true
      → check (resize_ref store n counter).0 cap ≡ true
  unfolding check
  check_keeps store m cap t grows h =
      resize_ref-keeps t.reg store n counter cap.id t.caps (omega (arith, t.sized)) h

pub check-get_cap :
    {counter n : ℕ} {store : CapabilityStore}
    → Tracks counter store n
    → check store (get_cap store) ≡ true
unfolding check get_cap
check-get_cap t = t.caps.current

-- Ids drawn by other parts of the program change nothing.
pub Tracks-later :
    {counter counter' n : ℕ} {store : CapabilityStore}
    → counter ≤ counter'
    → Tracks counter store n
    → Tracks counter' store n
Tracks-later {counter} {counter'} {store = store} h t = record {
  reg = t.reg;
  caps = Inv-mono t.reg t.reg counter counter' store (λ x _. refl) h t.caps;
  sized = t.sized;
}
