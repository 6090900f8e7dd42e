-- ===== src/Session.antt =====
-- wasm-gpu/src/session.rs: the input buffer of a dispatch, the sizes of its output and flags, the
-- split of the arguments into dispatches, and the results that are read back.
pub mod Inputs
pub mod Dispatches
pub mod Outputs
pub mod Sizes
use wasm_gpu.Prelude.{
  ℕ, zero, suc, ◌+◌, ◌-◌, ◌*◌, ◌/◌, ◌%◌, min, max, List, [], ◌∷◌, ◌++◌, length, take, drop, ltb,
  ◌==◌, if◌then◌else◌, Bool, true, false, Option, none, some, Outcome, ok, err, ◌>>=◌,
  from_le_bytes,
}
use wasm_gpu.Typed.{ValType, Val, byte_count, to_bytes, try_from_bytes}
use wasm_gpu.Traps.{Trap, u32_to_trap}
use wasm_gpu.Layout.{
  io_argument_alignment_words, io_invocation_alignment_words, flags_len_bytes, trap_flag_index,
  workgroup_size, next_multiple_of,
}

-- `while data.len() % m != 0 { data.push(0u8) }`; at most `m` rounds are needed.
unfoldable pub pad_multiple : ℕ → ℕ → List ℕ → List ℕ
pad_multiple zero m bytes = bytes
pad_multiple (suc fuel) m bytes =
    let rest = pad_multiple fuel m (bytes ++ 0 ∷ []) in
    if length bytes % m == 0 then bytes else rest

-- `while data.len() < n { data.push(0u8) }`; at most `n` rounds are needed.
unfoldable pub pad_up_to : ℕ → ℕ → List ℕ → List ℕ
pad_up_to zero n bytes = bytes
pad_up_to (suc fuel) n bytes =
    let rest = pad_up_to fuel n (bytes ++ 0 ∷ []) in if ltb (length bytes) n then rest else bytes

-- The inner loop of `make_inputs`, over the arguments of one invocation.
unfoldable pub push_input_set : List ℕ → List Val → List ℕ
unfolding pad_multiple to_bytes
push_input_set bytes [] = bytes
push_input_set bytes (input ∷ inputs) =
    push_input_set
      (pad_multiple (io_argument_alignment_words * 4) (io_argument_alignment_words * 4)
        (bytes ++ to_bytes input))
      inputs

-- The outer loop, over the invocations.
unfoldable pub push_input_sets : List ℕ → List (List Val) → List ℕ
unfolding push_input_set
push_input_sets bytes [] = bytes
push_input_sets bytes (set ∷ sets) =
    push_input_sets
      (pad_multiple (io_invocation_alignment_words * 4) (io_invocation_alignment_words * 4)
        (push_input_set bytes set))
      sets

-- The bytes of the input buffer.
unfoldable pub make_inputs : List (List Val) → List ℕ
unfolding push_input_sets pad_up_to
make_inputs args = pad_up_to 128 128 (push_input_sets [] args)

unfoldable pub output_length : List ValType → ℕ
unfolding next_multiple_of byte_count
output_length [] = 0
output_length (t ∷ ts) =
    next_multiple_of (byte_count t) (io_argument_alignment_words * 4) + output_length ts

unfoldable pub output_instance_len : List ValType → ℕ
unfolding output_length
output_instance_len tys = next_multiple_of (output_length tys) (io_invocation_alignment_words * 4)

-- The sizes of the output and the flags buffer.
unfoldable pub make_output_size : ℕ → List ValType → ℕ
unfolding output_instance_len
make_output_size instances_count tys = max (instances_count * output_instance_len tys) 128

unfoldable pub make_flags_size : ℕ → ℕ
make_flags_size instances_count = instances_count * flags_len_bytes

-- What one invocation came to.
pub data Invoked : Type 0 where
  trapped : Trap → Invoked
  returned : List Val → Invoked

-- Reading a range of the mapped output or flags buffer, `start..end`.
abbrev pub Reader : Type 0
Reader = ℕ → ℕ → Outcome (List ℕ)

unfoldable pub extract_values : Reader → List ValType → ℕ → Outcome (List Val)
unfolding byte_count try_from_bytes next_multiple_of
extract_values output [] offset = ok []
extract_values output (t ∷ ts) offset = do
  result_bytes ← output offset (offset + byte_count t)
  ret ← try_from_bytes t result_bytes
  rets ←
      extract_values output ts
        (offset + next_multiple_of (byte_count t) (io_argument_alignment_words * 4))
  ok (ret ∷ rets)

-- The body of the loop of `extract_output`, for instance `i`.
unfoldable pub extract_instance : List ValType → Reader → Reader → ℕ → Outcome Invoked
unfolding extract_values output_instance_len from_le_bytes u32_to_trap
extract_instance ret_ty flags output i = do
  let flags_offset = flags_len_bytes * i
  let output_offset = output_instance_len ret_ty * i
  let trap_flag_offset = trap_flag_index + flags_offset
  trap_bytes ← flags trap_flag_offset (trap_flag_offset + 4)
  trap ← u32_to_trap (from_le_bytes trap_bytes)
  elim trap [
    | some t ↦ ok (trapped t)
    | none ↦ extract_values output ret_ty output_offset >>= λ vs. ok (returned vs)
  ]

-- `for i in 0..len`, from `i` on.
unfoldable pub extract_from : List ValType → Reader → Reader → ℕ → ℕ → Outcome (List Invoked)
unfolding extract_instance
extract_from ret_ty flags output i zero = ok []
extract_from ret_ty flags output i (suc left) = do
  r ← extract_instance ret_ty flags output i
  rs ← extract_from ret_ty flags output (suc i) left
  ok (r ∷ rs)

unfoldable pub extract_output : List ValType → ℕ → Reader → Reader → Outcome (List Invoked)
unfolding extract_from
extract_output ret_ty count flags output = extract_from ret_ty flags output 0 count

-- One dispatch of `run`: its workgroups, and the arguments that it serves. Slicing out of bounds
-- would panic; `none` stands for that.
pub record Dispatch (A : Type 0) : Type 0 where
  pub dispatch_count : ℕ
  pub args : List A

unfoldable pub dispatch_at : {A : Type 0} → List A → ℕ → ℕ → ℕ → Option (Dispatch A)
dispatch_at all total max_invocations i_invocation =
    let dispatch_count = min (total - i_invocation) max_invocations in
    let args_start = i_invocation * workgroup_size in
    let args_end = min (args_start + dispatch_count * workgroup_size) (length all) in
    if ltb args_end args_start
    then none
    else some (record {
      dispatch_count = dispatch_count;
      args = take (args_end - args_start) (drop args_start all);
    })

-- `for i_invocation in (0..total).step_by(max_invocations)`
unfoldable pub dispatches_from : {A : Type 0} → ℕ → List A → ℕ → ℕ → ℕ → Option (List (Dispatch A))
unfolding dispatch_at
dispatches_from zero all total max_invocations i = some []
dispatches_from (suc fuel) all total max_invocations i =
    let rest = dispatches_from fuel all total max_invocations (i + max_invocations) in
    if ltb i total
    then (elim (dispatch_at all total max_invocations i) [
      | none ↦ none
      | some d ↦ elim rest [ none ↦ none | some ds ↦ some (d ∷ ds) ]
    ])
    else some []

-- The number of workgroups comes from a division of 32-bit floats, which is a parameter here, and
-- `max_invocations` is what the device allows as `max_compute_invocations_per_workgroup`; the assertion on
-- it comes first.
unfoldable pub dispatches : {A : Type 0} → (ℕ → ℕ) → ℕ → List A → Option (List (Dispatch A))
unfolding dispatches_from
dispatches f32_ceil_div max_invocations all =
    let total = f32_ceil_div (length all) in
    if ltb 0 max_invocations then dispatches_from (suc total) all total max_invocations 0 else none
