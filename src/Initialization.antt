-- ===== src/Initialization.antt =====
-- wasm-gpu/src/module.rs: what a module adds to the buffers of a store set when it is instantiated.
-- Each step takes the buffers that it changes and the id counter, and returns them.
pub mod Globals
pub mod Segments
pub mod Tables
pub mod Functions
pub mod Panics
pub mod Overlap
pub mod Linked
use wasm_gpu.Prelude.{
  ℕ, ◌+◌, ◌-◌, Bool, true, false, List, [], ◌∷◌, ltb, if◌then◌else◌, Outcome, ok, err, malformed,
  u32_mod, u64_mod,
}
use wasm_gpu.Typed.{Val}

-- `v as usize` of an offset: an `i32` is sign-extended.
unfoldable pub offset_of : Val → Outcome ℕ
offset_of (Val.i32 v) = ok (if ltb (v + v) u32_mod then v else v + (u64_mod - u32_mod))
offset_of (Val.i64 v) = ok v
offset_of _ = err malformed

abbrev pub sum : List ℕ → ℕ
sum [] = 0
sum (n ∷ ns) = n + sum ns
