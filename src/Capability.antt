-- ===== src/Capability.antt =====
-- wasm-gpu/src/capabilities.rs and wasm-gpu/src/atomic_counter.rs: the capability store of a
-- buffer and the counter that its ids come from. The counter is a static of the program, so every
-- operation that draws an id takes its value and returns the next one.
pub mod Ids
pub mod Invariant
pub mod World
pub mod Tracks
use wasm_gpu.Prelude.{
  ℕ, ◌+◌, ◌%◌, Bool, false, ◌||◌, List, [], ◌∷◌, ◌++◌, u64_mod, leb, ◌==◌, if◌then◌else◌,
}

-- `fetch_add(1)`: the value before, and the counter after.
unfoldable pub next : ℕ → ℕ × ℕ
next counter = (counter, (counter + 1) % u64_mod)

-- The `HashSet<usize>` of valid ids.
unfoldable pub contains : List ℕ → ℕ → Bool
contains [] id = false
contains (x ∷ xs) id = x == id || contains xs id

unfoldable pub insert : ℕ → List ℕ → List ℕ
unfolding contains
insert id ids = if contains ids id then ids else id ∷ ids

pub record CapabilityStore : Type 0 where
  pub valid_ids : List ℕ
  pub id_sizes : List (ℕ × ℕ)
  pub current_id : ℕ

pub record Capability : Type 0 where
  pub id : ℕ

unfoldable pub new : ℕ → ℕ → CapabilityStore × ℕ
unfolding next insert
new initial_size counter =
    let (new_id, counter') = next counter in
    (
      record {
        valid_ids = insert new_id [];
        id_sizes = (initial_size, new_id) ∷ [];
        current_id = new_id;
      },
      counter',
    )

-- The loop of `resize_ref` over the old sizes, with its two accumulators.
unfoldable pub resize_loop : ℕ → List (ℕ × ℕ) → List ℕ → List (ℕ × ℕ) → List ℕ × List (ℕ × ℕ)
unfolding insert
resize_loop new_size [] valid_ids id_sizes = (valid_ids, id_sizes)
resize_loop new_size ((size, id) ∷ rest) valid_ids id_sizes =
    resize_loop new_size rest (if leb size new_size then insert id valid_ids else valid_ids)
      (if leb size new_size then id_sizes ++ (size, id) ∷ [] else id_sizes)

unfoldable pub resize_ref : CapabilityStore → ℕ → ℕ → CapabilityStore × ℕ
unfolding next insert resize_loop
resize_ref store new_size counter =
    let (valid_ids, id_sizes) = resize_loop new_size store.id_sizes [] [] in
    let (new_id, counter') = next counter in
    (
      record {
        valid_ids = insert new_id valid_ids;
        id_sizes = id_sizes ++ (new_size, new_id) ∷ [];
        current_id = new_id;
      },
      counter',
    )

unfoldable pub get_cap : CapabilityStore → Capability
get_cap store = record { id = store.current_id }

unfoldable pub check : CapabilityStore → Capability → Bool
unfolding contains
check store cap = contains store.valid_ids cap.id
