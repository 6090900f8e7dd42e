-- ===== src/Layout.antt =====
-- wasm-gpu-transpiler/src/lib.rs, active_function/arguments.rs and active_function/results.rs: where
-- an invocation finds its arguments in the input buffer and leaves its results in the output
-- buffer. Locations are counted in words of four bytes; a GPU word has 32 bits and wraps.
pub mod Words
use wasm_gpu.Prelude.{ℕ, ◌+◌, ◌-◌, ◌*◌, ◌/◌, ◌%◌, List, [], ◌∷◌, ◌==◌, if◌then◌else◌, u32_mod}
use wasm_gpu.Typed.{ValType, byte_count}

abbrev pub io_argument_alignment_words : ℕ
io_argument_alignment_words = 1

abbrev pub io_invocation_alignment_words : ℕ
io_invocation_alignment_words = 1

-- `FLAGS_LEN_BYTES` and `TRAP_FLAG_INDEX`
abbrev pub flags_len_bytes : ℕ
flags_len_bytes = 4

abbrev pub trap_flag_index : ℕ
trap_flag_index = 0

abbrev pub workgroup_size : ℕ
workgroup_size = 256

-- `next_multiple_of` of the standard library's integers.
unfoldable pub next_multiple_of : ℕ → ℕ → ℕ
next_multiple_of n m = if n % m == 0 then n else n + (m - n % m)

-- The words that a value of the type takes.
unfoldable pub words : ValType → ℕ
unfolding next_multiple_of byte_count
words t = next_multiple_of (byte_count t) (io_argument_alignment_words * 4) / 4

unfoldable pub word_offset : ℕ → List ValType → ℕ
unfolding words
word_offset acc [] = acc
word_offset acc (t ∷ ts) = word_offset (acc + words t) ts

-- `word_alignment`, the same of `WasmFnArgs` and of `WasmFnResTy`.
unfoldable pub word_alignment : List ValType → ℕ
unfolding word_offset
word_alignment ts = next_multiple_of (word_offset 0 ts) io_invocation_alignment_words

-- The location of each argument or result, as `append_read_at` and `append_store_at` compute it.
unfoldable pub locations : ℕ → ℕ → List ValType → List ℕ
unfolding words
locations base offset [] = []
locations base offset (t ∷ ts) = (base + offset) % u32_mod ∷ locations base (offset + words t) ts

-- `io_base_index`
unfoldable pub io_base_index : ℕ → ℕ → ℕ
io_base_index io_word_alignment instance_index = io_word_alignment * instance_index % u32_mod

-- `read_entry_inputs` and `store_output`: the locations of one instance.
unfoldable pub entry_locations : List ValType → ℕ → List ℕ
unfolding word_alignment locations io_base_index
entry_locations ts instance_index =
    locations (io_base_index (word_alignment ts) instance_index) 0 ts
