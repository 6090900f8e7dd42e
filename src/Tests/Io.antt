-- ===== src/Tests/Io.antt =====
-- The theorems about values, traps and the buffers of a dispatch at concrete inputs.
use wasm_gpu.Prelude.{
  none, ◌↔◌, ◌⊎◌, ℕ, zero, suc, ◌+◌, ◌-◌, ◌*◌, ◌/◌, ◌≡◌, refl, List, [], ◌∷◌, map, some, ok, length,
  length-replicate, All, get_elem?, replicate, slice, to_le_bytes, some_inj, subst, arith,
}
use wasm_gpu.Layout.{entry_locations, word_alignment}
use wasm_gpu.Session.{
  Reader, Invoked, trapped, returned, Dispatch, dispatches, make_inputs, extract_output,
}
use wasm_gpu.Session.Inputs.{make_inputs-entry_locations}
use wasm_gpu.Session.Outputs.{Left, Stores, extract_output-entry_locations}
use wasm_gpu.Session.{make_output_size, make_flags_size}
use wasm_gpu.Prelude.{◌≤◌}
use wasm_gpu.Session.Sizes.{entry_locations-make_output_size}
use wasm_gpu.Layout.{words}
use wasm_gpu.Session.Dispatches.{all_args, IsFilled, dispatches_cover}
use wasm_gpu.Traps.{integer_overflow, trap_to_u32}
use wasm_gpu.Typed
use wasm_gpu.Typed.{
  ValType, Val, func_ref, byte_count, get_type, to_bytes, try_from_bytes, bitwise_eq,
}
use wasm_gpu.Typed.Bytes.{IsVal, to_bytes-try_from_bytes}
use wasm_gpu.Typed.Tuples.{
  vec_byte_count, vec_to_bytes, vec_try_from_bytes, vec_try_from_bytes-vec_to_bytes,
}

to_bytes-try_from_bytes_example :
    (to_bytes (Val.i32 513) ≡ 1 ∷ 2 ∷ 0 ∷ 0 ∷ []) × IsVal (Val.i32 513)
unfolding Typed.try_from_bytes
to_bytes-try_from_bytes_example =
    to_bytes-try_from_bytes ValType.i32 (1 ∷ 2 ∷ 0 ∷ 0 ∷ []) (Val.i32 513)
      (omega arith, (omega arith, (omega arith, (omega arith, tt)))) refl

vec_try_from_bytes-vec_to_bytes_example :
    (vec_try_from_bytes
        (map get_type (Val.i32 1 ∷ Val.i64 2 ∷ []))
        (vec_to_bytes (Val.i32 1 ∷ Val.i64 2 ∷ []))
      ≡ ok (Val.i32 1 ∷ Val.i64 2 ∷ []))
    × (length (vec_to_bytes (Val.i32 1 ∷ Val.i64 2 ∷ []))
        ≡ vec_byte_count (map get_type (Val.i32 1 ∷ Val.i64 2 ∷ [])))
vec_try_from_bytes-vec_to_bytes_example =
    vec_try_from_bytes-vec_to_bytes (Val.i32 1 ∷ Val.i64 2 ∷ []) (omega arith, (omega arith, tt))

-- Two invocations of a function of an i32 and an i64.
abbrev two_types : List ValType
two_types = ValType.i32 ∷ ValType.i64 ∷ []

abbrev two_arguments : List (List Val)
two_arguments = (Val.i32 1 ∷ Val.i64 2 ∷ []) ∷ (Val.i32 3 ∷ Val.i64 4 ∷ []) ∷ []

make_inputs-entry_locations_example :
    slice (4 * 4) (byte_count (get_type (Val.i64 4))) (make_inputs two_arguments)
    ≡ to_bytes (Val.i64 4)
unfolding Typed.get_type entry_locations
make_inputs-entry_locations_example =
    make_inputs-entry_locations two_types two_arguments 1 1 4 (Val.i32 3 ∷ Val.i64 4 ∷ [])
      (Val.i64 4) (refl, (refl, tt)) refl refl refl (omega arith)

-- The flags and the output of two invocations, of which the second trapped.
abbrev two_flags : Reader
two_flags = λ s e. ok (slice s (e - s) (0 ∷ 0 ∷ 0 ∷ 0 ∷ 7 ∷ 0 ∷ 0 ∷ 0 ∷ []))

abbrev two_outputs : Reader
two_outputs = λ s e. ok (slice s (e - s) (9 ∷ 0 ∷ 0 ∷ 0 ∷ 0 ∷ 0 ∷ 0 ∷ 0 ∷ []))

abbrev two_invoked : List Invoked
two_invoked = returned (Val.i32 9 ∷ []) ∷ trapped integer_overflow ∷ []

nine_stored : Stores two_outputs (entry_locations (ValType.i32 ∷ []) 0) (Val.i32 9 ∷ [])
unfolding to_le_bytes Typed.get_type Typed.byte_count Typed.to_bytes entry_locations
nine_stored zero w v ev ew =
    subst (λ k. two_outputs (4 * k) (4 * k + byte_count (get_type v)) ≡ ok (to_bytes v))
      (some_inj ew)
      (subst (λ x. two_outputs 0 (0 + byte_count (get_type x)) ≡ ok (to_bytes x)) (some_inj ev)
        refl)
nine_stored (suc j) w v ev ew = cc

two-Left :
    (i : ℕ) (r : Invoked)
    → get_elem? two_invoked i ≡ some r
    → Left (ValType.i32 ∷ []) two_flags two_outputs i r
unfolding trap_to_u32 to_le_bytes Typed.get_type Typed.byte_count Typed.to_bytes entry_locations
two-Left zero r e = subst (Left (ValType.i32 ∷ []) two_flags two_outputs 0) (some_inj e) (record {
  code = 0;
  encoded = refl;
  small = omega arith;
  flag = refl;
  results = (refl, (omega arith, tt), nine_stored);
})
two-Left (suc zero) r e =
    subst (Left (ValType.i32 ∷ []) two_flags two_outputs 1) (some_inj e)
      (record { code = 7; encoded = refl; small = omega arith; flag = refl; results = tt })
two-Left (suc (suc i)) r e = cc

extract_output-entry_locations_example :
    extract_output (ValType.i32 ∷ []) 2 two_flags two_outputs ≡ ok two_invoked
unfolding word_alignment
extract_output-entry_locations_example =
    extract_output-entry_locations (ValType.i32 ∷ []) two_flags two_outputs two_invoked
      (omega arith) two-Left

-- Six hundred invocations, of which a dispatch serves one workgroup.
abbrev many_arguments : List ℕ
many_arguments = replicate 600 7

dispatches_cover_example :
    ((dispatches (λ n. (n + 255) / 256) 1 many_arguments ≡ none) ↔ (◌≡◌ {A = ℕ} 1 0))
    × ((◌≡◌ {A = ℕ} 1 0)
        ⊎ ((ds : List (Dispatch ℕ)) × (dispatches (λ n. (n + 255) / 256) 1 many_arguments ≡ some ds)
            × (all_args ds ≡ many_arguments)
            × All (IsFilled 1) ds))
dispatches_cover_example =
    dispatches_cover (λ n. (n + 255) / 256) 1 many_arguments (λ n h. refl)
      (omega (arith, length-replicate {A = ℕ} 600 7))

-- The second result of the second invocation.
entry_locations-make_output_size_example :
    (word_alignment two_types * 1 ≤ 4)
    × (4 + words ValType.i64 ≤ word_alignment two_types * (1 + 1))
    × (4 * 4 + byte_count ValType.i64 ≤ make_output_size 2 two_types)
    × (4 * 1 + 4 ≤ make_flags_size 2)
unfolding entry_locations
entry_locations-make_output_size_example =
    entry_locations-make_output_size two_types 2 1 1 4 ValType.i64 (omega arith) (omega arith) refl
      refl
