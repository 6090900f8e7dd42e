-- ===== src/Mvp.antt =====
-- wasm-gpu-transpiler/src/active_function/active_block/mvp.rs and sign_extension.rs: what is done for each
-- operator that is no control flow. The right-hand sides of the two matches are the constructors of
-- `Instruction`: a call of one of the macros, with the function of the standard objects that it names.
use wasm_gpu.Prelude.{ℕ}
use wasm_gpu.Typed.{Val}
use wasm_gpu.Traps.{Trap, unreachable_code_reached}
use wasm_gpu.Std
use wasm_gpu.Std.{StdFunction}

-- `wasmparser::MemArg`, without the alignment, which has no meaning.
pub record MemArg : Type 0 where
  pub offset : ℕ
  pub memory : ℕ

pub data Instruction : Type 0 where
  nop drop unimplemented : Instruction
  push_const_val : Val → Instruction
  append_trap : Trap → Instruction
  local_get local_set local_tee : ℕ → Instruction
  unary binary : StdFunction → Instruction
  mem_load mem_store : MemArg → StdFunction → Instruction

-- `wasm_opcodes::proposals::MVPOperator`, less control flow.
pub data MvpOperator : Type 0 where
  op_nop op_unreachable op_drop op_select i32_eqz i32_eq i32_ne i32_lt_s : MvpOperator
  i32_lt_u i32_gt_s i32_gt_u i32_le_s i32_le_u i32_ge_s i32_ge_u i64_eqz : MvpOperator
  i64_eq i64_ne i64_lt_s i64_lt_u i64_gt_s i64_gt_u i64_le_s i64_le_u : MvpOperator
  i64_ge_s i64_ge_u f32_eq f32_ne f32_lt f32_gt f32_le f32_ge f64_eq : MvpOperator
  f64_ne f64_lt f64_gt f64_le f64_ge i32_clz i32_ctz i32_popcnt i32_add : MvpOperator
  i32_sub i32_mul i32_div_s i32_div_u i32_rem_s i32_rem_u i32_and i32_or : MvpOperator
  i32_xor i32_shl i32_shr_s i32_shr_u i32_rotl i32_rotr i64_clz i64_ctz : MvpOperator
  i64_popcnt i64_add i64_sub i64_mul i64_div_s i64_div_u i64_rem_s : MvpOperator
  i64_rem_u i64_and i64_or i64_xor i64_shl i64_shr_s i64_shr_u i64_rotl : MvpOperator
  i64_rotr f32_abs f32_neg f32_ceil f32_floor f32_trunc f32_nearest : MvpOperator
  f32_sqrt f32_add f32_sub f32_mul f32_div f32_min f32_max f32_copysign : MvpOperator
  f64_abs f64_neg f64_ceil f64_floor f64_trunc f64_nearest f64_sqrt : MvpOperator
  f64_add f64_sub f64_mul f64_div f64_min f64_max f64_copysign : MvpOperator
  i32_wrap_i64 i32_trunc_f32_s i32_trunc_f32_u i32_trunc_f64_s : MvpOperator
  i32_trunc_f64_u i64_extend_i32_s i64_extend_i32_u i64_trunc_f32_s : MvpOperator
  i64_trunc_f32_u i64_trunc_f64_s i64_trunc_f64_u f32_convert_i32_s : MvpOperator
  f32_convert_i32_u f32_convert_i64_s f32_convert_i64_u f32_demote_f64 : MvpOperator
  f64_convert_i32_s f64_convert_i32_u f64_convert_i64_s : MvpOperator
  f64_convert_i64_u f64_promote_f32 i32_reinterpret_f32 : MvpOperator
  i64_reinterpret_f64 f32_reinterpret_i32 f64_reinterpret_i64 : MvpOperator
  i32_const i64_const f32_const f64_const op_local_get op_local_set : ℕ → MvpOperator
  op_local_tee global_get global_set memory_size memory_grow : ℕ → MvpOperator
  i32_load i64_load f32_load f64_load i32_load8_s i32_load8_u : MemArg → MvpOperator
  i32_load16_s i32_load16_u i64_load8_s i64_load8_u i64_load16_s : MemArg → MvpOperator
  i64_load16_u i64_load32_s i64_load32_u i32_store i64_store f32_store : MemArg → MvpOperator
  f64_store i32_store8 i32_store16 i64_store8 i64_store16 i64_store32 : MemArg → MvpOperator

pub data SignExtensionOperator : Type 0 where
  i32_extend8_s i32_extend16_s i64_extend8_s i64_extend16_s : SignExtensionOperator
  i64_extend32_s : SignExtensionOperator

unfoldable pub mvp_instruction : MvpOperator → Instruction
mvp_instruction op_nop = nop
mvp_instruction (i32_const value) = push_const_val (Val.i32 value)
mvp_instruction (i64_const value) = push_const_val (Val.i64 value)
mvp_instruction (f32_const value) = push_const_val (Val.f32 value)
mvp_instruction (f64_const value) = push_const_val (Val.f64 value)
mvp_instruction op_unreachable = append_trap unreachable_code_reached
mvp_instruction op_drop = drop
mvp_instruction (op_local_get local_index) = local_get local_index
mvp_instruction (op_local_set local_index) = local_set local_index
mvp_instruction (op_local_tee local_index) = local_tee local_index
mvp_instruction op_select = unimplemented
mvp_instruction (global_get global_index) = unimplemented
mvp_instruction (global_set global_index) = unimplemented
mvp_instruction (i32_load memarg) = mem_load memarg Std.i32_load
mvp_instruction (i64_load memarg) = mem_load memarg Std.i64_load
mvp_instruction (f32_load memarg) = mem_load memarg Std.f32_load
mvp_instruction (f64_load memarg) = mem_load memarg Std.f64_load
mvp_instruction (i32_load8_s memarg) = mem_load memarg Std.i32_load_8_s
mvp_instruction (i32_load8_u memarg) = mem_load memarg Std.i32_load_8_u
mvp_instruction (i32_load16_s memarg) = mem_load memarg Std.i32_load_16_s
mvp_instruction (i32_load16_u memarg) = mem_load memarg Std.i32_load_16_u
mvp_instruction (i64_load8_s memarg) = mem_load memarg Std.i64_load_8_s
mvp_instruction (i64_load8_u memarg) = mem_load memarg Std.i64_load_8_u
mvp_instruction (i64_load16_s memarg) = mem_load memarg Std.i64_load_16_s
mvp_instruction (i64_load16_u memarg) = mem_load memarg Std.i64_load_16_u
mvp_instruction (i64_load32_s memarg) = mem_load memarg Std.i64_load_32_s
mvp_instruction (i64_load32_u memarg) = mem_load memarg Std.i64_load_32_u
mvp_instruction (i32_store memarg) = mem_store memarg Std.i32_store
mvp_instruction (i64_store memarg) = mem_store memarg Std.i64_store
mvp_instruction (f32_store memarg) = mem_store memarg Std.f32_store
mvp_instruction (f64_store memarg) = mem_store memarg Std.f64_store
mvp_instruction (i32_store8 memarg) = mem_store memarg Std.i32_store_8
mvp_instruction (i32_store16 memarg) = mem_store memarg Std.i32_store_16
mvp_instruction (i64_store8 memarg) = mem_store memarg Std.i64_store_8
mvp_instruction (i64_store16 memarg) = mem_store memarg Std.i64_store_16
mvp_instruction (i64_store32 memarg) = mem_store memarg Std.i64_store_32
mvp_instruction (memory_size mem) = unimplemented
mvp_instruction (memory_grow mem) = unimplemented
mvp_instruction i32_eqz = unary Std.i32_eqz
mvp_instruction i32_eq = binary Std.i32_eq
mvp_instruction i32_ne = binary Std.i32_ne
mvp_instruction i32_lt_s = binary Std.i32_lt_s
mvp_instruction i32_lt_u = binary Std.i32_lt_u
mvp_instruction i32_gt_s = binary Std.i32_gt_s
mvp_instruction i32_gt_u = binary Std.i32_gt_u
mvp_instruction i32_le_s = binary Std.i32_le_s
mvp_instruction i32_le_u = binary Std.i32_le_u
mvp_instruction i32_ge_s = binary Std.i32_ge_s
mvp_instruction i32_ge_u = binary Std.i32_ge_u
mvp_instruction i64_eqz = unary Std.i64_eqz
mvp_instruction i64_eq = binary Std.i64_eq
mvp_instruction i64_ne = binary Std.i64_ne
mvp_instruction i64_lt_s = binary Std.i64_lt_s
mvp_instruction i64_lt_u = binary Std.i64_lt_u
mvp_instruction i64_gt_s = binary Std.i64_gt_s
mvp_instruction i64_gt_u = binary Std.i64_gt_u
mvp_instruction i64_le_s = binary Std.i64_le_s
mvp_instruction i64_le_u = binary Std.i64_le_u
mvp_instruction i64_ge_s = binary Std.i64_ge_s
mvp_instruction i64_ge_u = binary Std.i64_ge_u
mvp_instruction f32_eq = binary Std.f32_eq
mvp_instruction f32_ne = binary Std.f32_ne
mvp_instruction f32_lt = binary Std.f32_lt
mvp_instruction f32_gt = binary Std.f32_gt
mvp_instruction f32_le = binary Std.f32_le
mvp_instruction f32_ge = binary Std.f32_ge
mvp_instruction f64_eq = binary Std.f64_eq
mvp_instruction f64_ne = binary Std.f64_ne
mvp_instruction f64_lt = binary Std.f64_lt
mvp_instruction f64_gt = binary Std.f64_gt
mvp_instruction f64_le = binary Std.f64_le
mvp_instruction f64_ge = binary Std.f64_ge
mvp_instruction i32_clz = unary Std.i32_clz
mvp_instruction i32_ctz = unary Std.i32_ctz
mvp_instruction i32_popcnt = unary Std.i32_popcnt
mvp_instruction i32_add = binary Std.i32_add
mvp_instruction i32_sub = binary Std.i32_sub
mvp_instruction i32_mul = binary Std.i32_mul
mvp_instruction i32_div_s = binary Std.i32_div_s
mvp_instruction i32_div_u = binary Std.i32_div_u
mvp_instruction i32_rem_s = binary Std.i32_rem_s
mvp_instruction i32_rem_u = binary Std.i32_rem_u
mvp_instruction i32_and = binary Std.i32_and
mvp_instruction i32_or = binary Std.i32_or
mvp_instruction i32_xor = binary Std.i32_xor
mvp_instruction i32_shl = binary Std.i32_shl
mvp_instruction i32_shr_s = binary Std.i32_shr_s
mvp_instruction i32_shr_u = binary Std.i32_shr_u
mvp_instruction i32_rotl = binary Std.i32_rotl
mvp_instruction i32_rotr = binary Std.i32_rotr
mvp_instruction i64_clz = unary Std.i64_clz
mvp_instruction i64_ctz = unary Std.i64_ctz
mvp_instruction i64_popcnt = unary Std.i64_popcnt
mvp_instruction i64_add = binary Std.i64_add
mvp_instruction i64_sub = binary Std.i64_sub
mvp_instruction i64_mul = binary Std.i64_mul
mvp_instruction i64_div_s = binary Std.i64_div_s
mvp_instruction i64_div_u = binary Std.i64_div_u
mvp_instruction i64_rem_s = binary Std.i64_rem_s
mvp_instruction i64_rem_u = binary Std.i64_rem_u
mvp_instruction i64_and = binary Std.i64_and
mvp_instruction i64_or = binary Std.i64_or
mvp_instruction i64_xor = binary Std.i64_xor
mvp_instruction i64_shl = binary Std.i64_shl
mvp_instruction i64_shr_s = binary Std.i64_shr_s
mvp_instruction i64_shr_u = binary Std.i64_shr_u
mvp_instruction i64_rotl = binary Std.i64_rotl
mvp_instruction i64_rotr = binary Std.i64_rotr
mvp_instruction f32_abs = unary Std.f32_abs
mvp_instruction f32_neg = unary Std.f32_neg
mvp_instruction f32_ceil = unary Std.f32_ceil
mvp_instruction f32_floor = unary Std.f32_floor
mvp_instruction f32_trunc = unary Std.f32_trunc
mvp_instruction f32_nearest = unary Std.f32_nearest
mvp_instruction f32_sqrt = unary Std.f32_sqrt
mvp_instruction f32_add = binary Std.f32_add
mvp_instruction f32_sub = binary Std.f32_sub
mvp_instruction f32_mul = binary Std.f32_mul
mvp_instruction f32_div = binary Std.f32_div
mvp_instruction f32_min = binary Std.f32_min
mvp_instruction f32_max = binary Std.f32_max
mvp_instruction f32_copysign = binary Std.f32_copy_sign
mvp_instruction f64_abs = unary Std.f64_abs
mvp_instruction f64_neg = unary Std.f64_neg
mvp_instruction f64_ceil = unary Std.f64_ceil
mvp_instruction f64_floor = unary Std.f64_floor
mvp_instruction f64_trunc = unary Std.f64_trunc
mvp_instruction f64_nearest = unary Std.f64_nearest
mvp_instruction f64_sqrt = unary Std.f64_sqrt
mvp_instruction f64_add = binary Std.f64_add
mvp_instruction f64_sub = binary Std.f64_sub
mvp_instruction f64_mul = binary Std.f64_mul
mvp_instruction f64_div = binary Std.f64_div
mvp_instruction f64_min = binary Std.f64_min
mvp_instruction f64_max = binary Std.f64_max
mvp_instruction f64_copysign = binary Std.f64_copy_sign
mvp_instruction i32_wrap_i64 = unimplemented
mvp_instruction i32_trunc_f32_s = unimplemented
mvp_instruction i32_trunc_f32_u = unimplemented
mvp_instruction i32_trunc_f64_s = unimplemented
mvp_instruction i32_trunc_f64_u = unimplemented
mvp_instruction i64_extend_i32_s = unimplemented
mvp_instruction i64_extend_i32_u = unimplemented
mvp_instruction i64_trunc_f32_s = unimplemented
mvp_instruction i64_trunc_f32_u = unimplemented
mvp_instruction i64_trunc_f64_s = unimplemented
mvp_instruction i64_trunc_f64_u = unimplemented
mvp_instruction f32_convert_i32_s = unary Std.f32_convert_i32_s
mvp_instruction f32_convert_i32_u = unary Std.f32_convert_i32_u
mvp_instruction f32_convert_i64_s = unimplemented
mvp_instruction f32_convert_i64_u = unimplemented
mvp_instruction f32_demote_f64 = unimplemented
mvp_instruction f64_convert_i32_s = unimplemented
mvp_instruction f64_convert_i32_u = unimplemented
mvp_instruction f64_convert_i64_s = unimplemented
mvp_instruction f64_convert_i64_u = unimplemented
mvp_instruction f64_promote_f32 = unimplemented
mvp_instruction i32_reinterpret_f32 = unimplemented
mvp_instruction i64_reinterpret_f64 = unimplemented
mvp_instruction f32_reinterpret_i32 = unimplemented
mvp_instruction f64_reinterpret_i64 = unimplemented

unfoldable pub sign_extension_instruction : SignExtensionOperator → Instruction
sign_extension_instruction i32_extend8_s = unary Std.i32_extend_8_s
sign_extension_instruction i32_extend16_s = unary Std.i32_extend_16_s
sign_extension_instruction i64_extend8_s = unary Std.i64_extend_8_s
sign_extension_instruction i64_extend16_s = unary Std.i64_extend_16_s
sign_extension_instruction i64_extend32_s = unary Std.i64_extend_32_s
