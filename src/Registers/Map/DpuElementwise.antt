-- ===== src/Registers/Map/DpuElementwise.antt =====
-- The registers DPU_* of npu/driver/rocket_registers.h: the elementwise stage and output conversion.
use rk3588_npu_gpu.Base.{List, [], ◌∷◌}
use rk3588_npu_gpu.Registers.{Register, register, bits}

abbrev pub dpu_ew_cfg : Register
dpu_ew_cfg = register 0x4070 (
    bits "EW_CVT_TYPE" 0x80000000 31
    ∷ bits "EW_CVT_ROUND" 0x40000000 30
    ∷ bits "EW_DATA_MODE" 0x30000000 28
    ∷ bits "RESERVED_0" 0x0f000000 24
    ∷ bits "EDATA_SIZE" 0x00c00000 22
    ∷ bits "EW_EQUAL_EN" 0x00200000 21
    ∷ bits "EW_BINARY_EN" 0x00100000 20
    ∷ bits "EW_ALU_ALGO" 0x000f0000 16
    ∷ bits "RESERVED_1" 0x0000f800 11
    ∷ bits "EW_RELUX_EN" 0x00000400 10
    ∷ bits "EW_RELU_BYPASS" 0x00000200 9
    ∷ bits "EW_OP_CVT_BYPASS" 0x00000100 8
    ∷ bits "EW_LUT_BYPASS" 0x00000080 7
    ∷ bits "EW_OP_SRC" 0x00000040 6
    ∷ bits "EW_MUL_PRELU" 0x00000020 5
    ∷ bits "RESERVED_2" 0x00000018 3
    ∷ bits "EW_OP_TYPE" 0x00000004 2
    ∷ bits "EW_OP_BYPASS" 0x00000002 1
    ∷ bits "EW_BYPASS" 0x00000001 0
    ∷ [])

abbrev pub dpu_ew_cvt_offset_value : Register
dpu_ew_cvt_offset_value = register 0x4074 (bits "EW_OP_CVT_OFFSET" 0xffffffff 0 ∷ [])

abbrev pub dpu_ew_cvt_scale_value : Register
dpu_ew_cvt_scale_value = register 0x4078 (
    bits "EW_TRUNCATE" 0xffc00000 22
    ∷ bits "EW_OP_CVT_SHIFT" 0x003f0000 16
    ∷ bits "EW_OP_CVT_SCALE" 0x0000ffff 0
    ∷ [])

abbrev pub dpu_ew_relux_cmp_value : Register
dpu_ew_relux_cmp_value = register 0x407c (bits "EW_RELUX_CMP_DAT" 0xffffffff 0 ∷ [])

abbrev pub dpu_out_cvt_offset : Register
dpu_out_cvt_offset = register 0x4080 (bits "OUT_CVT_OFFSET" 0xffffffff 0 ∷ [])

abbrev pub dpu_out_cvt_scale : Register
dpu_out_cvt_scale = register 0x4084 (
    bits "RESERVED_0" 0xfffe0000 17
    ∷ bits "FP32TOFP16_EN" 0x00010000 16
    ∷ bits "OUT_CVT_SCALE" 0x0000ffff 0
    ∷ [])

abbrev pub dpu_out_cvt_shift : Register
dpu_out_cvt_shift = register 0x4088 (
    bits "CVT_TYPE" 0x80000000 31
    ∷ bits "CVT_ROUND" 0x40000000 30
    ∷ bits "RESERVED_0" 0x3ff00000 20
    ∷ bits "MINUS_EXP" 0x000ff000 12
    ∷ bits "OUT_CVT_SHIFT" 0x00000fff 0
    ∷ [])

abbrev pub dpu_ew_op_value_0 : Register
dpu_ew_op_value_0 = register 0x4090 (bits "EW_OPERAND_0" 0xffffffff 0 ∷ [])

abbrev pub dpu_ew_op_value_1 : Register
dpu_ew_op_value_1 = register 0x4094 (bits "EW_OPERAND_1" 0xffffffff 0 ∷ [])

abbrev pub dpu_ew_op_value_2 : Register
dpu_ew_op_value_2 = register 0x4098 (bits "EW_OPERAND_2" 0xffffffff 0 ∷ [])

abbrev pub dpu_ew_op_value_3 : Register
dpu_ew_op_value_3 = register 0x409c (bits "EW_OPERAND_3" 0xffffffff 0 ∷ [])

abbrev pub dpu_ew_op_value_4 : Register
dpu_ew_op_value_4 = register 0x40a0 (bits "EW_OPERAND_4" 0xffffffff 0 ∷ [])

abbrev pub dpu_ew_op_value_5 : Register
dpu_ew_op_value_5 = register 0x40a4 (bits "EW_OPERAND_5" 0xffffffff 0 ∷ [])

abbrev pub dpu_ew_op_value_6 : Register
dpu_ew_op_value_6 = register 0x40a8 (bits "EW_OPERAND_6" 0xffffffff 0 ∷ [])

abbrev pub dpu_ew_op_value_7 : Register
dpu_ew_op_value_7 = register 0x40ac (bits "EW_OPERAND_7" 0xffffffff 0 ∷ [])

abbrev pub dpu_surface_add : Register
dpu_surface_add =
    register 0x40c0 (bits "SURF_ADD" 0xfffffff0 4 ∷ bits "RESERVED_0" 0x0000000f 0 ∷ [])

abbrev pub dpu_elementwise_registers : List Register
dpu_elementwise_registers =
    dpu_ew_cfg ∷ dpu_ew_cvt_offset_value ∷ dpu_ew_cvt_scale_value ∷ dpu_ew_relux_cmp_value
    ∷ dpu_out_cvt_offset ∷ dpu_out_cvt_scale ∷ dpu_out_cvt_shift ∷ dpu_ew_op_value_0
    ∷ dpu_ew_op_value_1 ∷ dpu_ew_op_value_2 ∷ dpu_ew_op_value_3 ∷ dpu_ew_op_value_4
    ∷ dpu_ew_op_value_5 ∷ dpu_ew_op_value_6 ∷ dpu_ew_op_value_7 ∷ dpu_surface_add ∷ []
