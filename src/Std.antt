-- ===== src/Std.antt =====
-- wasm-gpu-transpiler/src/std_objects: the functions of the shader that stand for the operators of
-- WebAssembly, by their names in `std_objects`.
pub data StdFunction : Type 0 where
  i32_load i32_load_8_s i32_load_8_u i32_load_16_s i32_load_16_u i32_store : StdFunction
  i32_store_8 i32_store_16 i32_eqz i32_eq i32_ne i32_lt_s i32_lt_u i32_gt_s : StdFunction
  i32_gt_u i32_le_s i32_le_u i32_ge_s i32_ge_u i32_clz i32_ctz i32_popcnt : StdFunction
  i32_add i32_sub i32_mul i32_div_s i32_div_u i32_rem_s i32_rem_u i32_and i32_or : StdFunction
  i32_xor i32_shl i32_shr_s i32_shr_u i32_rotl i32_rotr i32_extend_8_s : StdFunction
  i32_extend_16_s : StdFunction
  i64_load i64_load_8_s i64_load_8_u i64_load_16_s i64_load_16_u i64_load_32_s : StdFunction
  i64_load_32_u i64_store i64_store_8 i64_store_16 i64_store_32 i64_eqz i64_eq : StdFunction
  i64_ne i64_lt_s i64_lt_u i64_gt_s i64_gt_u i64_le_s i64_le_u i64_ge_s i64_ge_u : StdFunction
  i64_clz i64_ctz i64_popcnt i64_add i64_sub i64_mul i64_div_s i64_div_u : StdFunction
  i64_rem_s i64_rem_u i64_and i64_or i64_xor i64_shl i64_shr_s i64_shr_u : StdFunction
  i64_rotl i64_rotr i64_extend_8_s i64_extend_16_s i64_extend_32_s : StdFunction
  f32_load f32_store f32_eq f32_ne f32_lt f32_gt f32_le f32_ge f32_abs f32_neg : StdFunction
  f32_ceil f32_floor f32_trunc f32_nearest f32_sqrt f32_add f32_sub f32_mul : StdFunction
  f32_div f32_min f32_max f32_copy_sign f32_convert_i32_s f32_convert_i32_u : StdFunction
  f64_load f64_store f64_eq f64_ne f64_lt f64_gt f64_le f64_ge f64_abs f64_neg : StdFunction
  f64_ceil f64_floor f64_trunc f64_nearest f64_sqrt f64_add f64_sub f64_mul : StdFunction
  f64_div f64_min f64_max f64_copy_sign : StdFunction
