-- ===== src/Wasm/Ops.antt =====
-- wasm/emit.go: the methods that emit one fixed line.
use asmgen.Base.Text.{codes}
use asmgen.Wasm.{Function, raw}

abbrev pub v128_and : Function → Function
v128_and f = raw f (codes "(v128.and)")

abbrev pub v128_or : Function → Function
v128_or f = raw f (codes "(v128.or)")

abbrev pub v128_xor : Function → Function
v128_xor f = raw f (codes "(v128.xor)")

abbrev pub i8x16_eq : Function → Function
i8x16_eq f = raw f (codes "(i8x16.eq)")

abbrev pub i8x16_ge_s : Function → Function
i8x16_ge_s f = raw f (codes "(i8x16.ge_s)")

abbrev pub i8x16_le_s : Function → Function
i8x16_le_s f = raw f (codes "(i8x16.le_s)")

abbrev pub i8x16_sub : Function → Function
i8x16_sub f = raw f (codes "(i8x16.sub)")

abbrev pub i8x16_splat : Function → Function
i8x16_splat f = raw f (codes "(i8x16.splat)")

abbrev pub i8x16_bitmask : Function → Function
i8x16_bitmask f = raw f (codes "(i8x16.bitmask)")

abbrev pub i32_ctz : Function → Function
i32_ctz f = raw f (codes "(i32.ctz)")

abbrev pub i32_sub : Function → Function
i32_sub f = raw f (codes "(i32.sub)")

abbrev pub i32_popcnt : Function → Function
i32_popcnt f = raw f (codes "(i32.popcnt)")

abbrev pub i8x16_all_true : Function → Function
i8x16_all_true f = raw f (codes "(i8x16.all_true)")

abbrev pub i8x16_swizzle : Function → Function
i8x16_swizzle f = raw f (codes "(i8x16.swizzle)")

abbrev pub i8x16_shr_u : Function → Function
i8x16_shr_u f = raw f (codes "(i8x16.shr_u)")

abbrev pub i8x16_shl : Function → Function
i8x16_shl f = raw f (codes "(i8x16.shl)")

abbrev pub i8x16_popcnt : Function → Function
i8x16_popcnt f = raw f (codes "(i8x16.popcnt)")

abbrev pub i16x8_extadd_pairwise_i8x16_u : Function → Function
i16x8_extadd_pairwise_i8x16_u f = raw f (codes "(i16x8.extadd_pairwise_i8x16_u)")

abbrev pub i32x4_extadd_pairwise_i16x8_u : Function → Function
i32x4_extadd_pairwise_i16x8_u f = raw f (codes "(i32x4.extadd_pairwise_i16x8_u)")

abbrev pub i16x8_extmul_low_i8x16_u : Function → Function
i16x8_extmul_low_i8x16_u f = raw f (codes "(i16x8.extmul_low_i8x16_u)")

abbrev pub i16x8_extmul_high_i8x16_u : Function → Function
i16x8_extmul_high_i8x16_u f = raw f (codes "(i16x8.extmul_high_i8x16_u)")

abbrev pub i16x8_mul : Function → Function
i16x8_mul f = raw f (codes "(i16x8.mul)")

abbrev pub i32x4_extmul_low_i16x8_u : Function → Function
i32x4_extmul_low_i16x8_u f = raw f (codes "(i32x4.extmul_low_i16x8_u)")

abbrev pub i32x4_extmul_high_i16x8_u : Function → Function
i32x4_extmul_high_i16x8_u f = raw f (codes "(i32x4.extmul_high_i16x8_u)")

abbrev pub i32x4_shr_u : Function → Function
i32x4_shr_u f = raw f (codes "(i32x4.shr_u)")

abbrev pub i16x8_narrow_i32x4_u : Function → Function
i16x8_narrow_i32x4_u f = raw f (codes "(i16x8.narrow_i32x4_u)")

abbrev pub i8x16_gt_u : Function → Function
i8x16_gt_u f = raw f (codes "(i8x16.gt_u)")

abbrev pub i8x16_lt_u : Function → Function
i8x16_lt_u f = raw f (codes "(i8x16.lt_u)")

abbrev pub i8x16_add : Function → Function
i8x16_add f = raw f (codes "(i8x16.add)")

abbrev pub i32x4_add : Function → Function
i32x4_add f = raw f (codes "(i32x4.add)")

abbrev pub v128_zero : Function → Function
v128_zero f = raw f (codes "(v128.const i32x4 0 0 0 0)")

abbrev pub i32_eqz : Function → Function
i32_eqz f = raw f (codes "(i32.eqz)")

abbrev pub i32_add : Function → Function
i32_add f = raw f (codes "(i32.add)")

abbrev pub i32_mul : Function → Function
i32_mul f = raw f (codes "(i32.mul)")

abbrev pub i32_load8_u : Function → Function
i32_load8_u f = raw f (codes "(i32.load8_u)")

abbrev pub i32_gt_s : Function → Function
i32_gt_s f = raw f (codes "(i32.gt_s)")

abbrev pub i32_ge_s : Function → Function
i32_ge_s f = raw f (codes "(i32.ge_s)")

abbrev pub i32_ne : Function → Function
i32_ne f = raw f (codes "(i32.ne)")

abbrev pub return_values : Function → Function
return_values f = raw f (codes "(return)")
