-- ===== src/Constexpr/Reading.antt =====
-- wasm-gpu/src/store_set/builder.rs (`interpret_constexpr`) with wasm-gpu/src/instance/global: constant
-- expressions that read globals.
use wasm_gpu.Prelude.{ℕ, ◌+◌, ◌≡◌, refl, [], ◌∷◌, some, get_elem?, Outcome, ok, err, ◌>>=◌}
use wasm_gpu.Buffers.{LazyBuffers}
use wasm_gpu.Typed.{Val, byte_count, get_type}
use wasm_gpu.Globals.{GlobalPtr, immutable, mutable}
use wasm_gpu.Globals.Values.{Run, Reach, try_get_pushed}
use wasm_gpu.Constexpr.{
  global_get, end, Environment, global_value, pushed, interpret_loop, top, interpret_constexpr,
}

>>=_const_top :
    {A : Type 0} (m : Outcome A) (v : Val)
    → (((m >>= λ _. ok v) >>= λ w. ok (w ∷ [])) >>= top) ≡ (m >>= λ _. ok v)
unfolding top
>>=_const_top (ok a) v = refl
>>=_const_top (err e) v = refl

module _ (B : LazyBuffers) where
  open B use {try_read_slice_locking}

  -- Where the two buffers of globals are those of runs of the program, the expression that reads
  -- a global, mutable or not, evaluates to the value that was pushed for it, after one read of its
  -- range in the buffer, unless the transfer fails.
  pub interpret_constexpr-global_get :
      (env : Environment B) (muts imms : Run B) (i j : ℕ) (p : GlobalPtr) (v : Val)
      → Reach B muts
      → Reach B imms
      → env.mutable_globals ≡ muts.builder
      → env.immutable_globals ≡ imms.builder
      → (get_elem? env.global_ptrs i ≡ some (mutable p)
          → get_elem? muts.issued j ≡ some (p, v)
          → interpret_constexpr B env (global_get i ∷ end ∷ []) ≡ (
              try_read_slice_locking muts.builder.values p.ptr (p.ptr + byte_count (get_type v))
              >>= λ _. ok v))
        × (get_elem? env.global_ptrs i ≡ some (immutable p)
            → get_elem? imms.issued j ≡ some (p, v)
            → interpret_constexpr B env (global_get i ∷ end ∷ []) ≡ (
                try_read_slice_locking imms.builder.values p.ptr (p.ptr + byte_count (get_type v))
                >>= λ _. ok v))
  unfolding interpret_constexpr interpret_loop pushed global_value
  interpret_constexpr-global_get env muts imms i j p v rm ri em ei = (
    λ found issued. rw (found, em, (try_get_pushed B muts j p v rm issued).0) (>>=_const_top _ v),
    λ found issued. rw (found, ei, (try_get_pushed B imms j p v ri issued).1) (>>=_const_top _ v),
  )
