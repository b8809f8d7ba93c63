-- ===== src/Registers/Map/DpuOutput.antt =====
-- The registers DPU_* of npu/driver/rocket_registers.h: set-up and output.
use rk3588_npu_gpu.Base.{List, [], ◌∷◌}
use rk3588_npu_gpu.Registers.{Register, register, bits}

abbrev pub dpu_s_status : Register
dpu_s_status = register 0x4000 (
    bits "RESERVED_0" 0xfffc0000 18
    ∷ bits "STATUS_1" 0x00030000 16
    ∷ bits "RESERVED_1" 0x0000fffc 2
    ∷ bits "STATUS_0" 0x00000003 0
    ∷ [])

abbrev pub dpu_s_pointer : Register
dpu_s_pointer = register 0x4004 (
    bits "RESERVED_0" 0xfffe0000 17
    ∷ bits "EXECUTER" 0x00010000 16
    ∷ bits "RESERVED_1" 0x0000ffc0 6
    ∷ bits "EXECUTER_PP_CLEAR" 0x00000020 5
    ∷ bits "POINTER_PP_CLEAR" 0x00000010 4
    ∷ bits "POINTER_PP_MODE" 0x00000008 3
    ∷ bits "EXECUTER_PP_EN" 0x00000004 2
    ∷ bits "POINTER_PP_EN" 0x00000002 1
    ∷ bits "POINTER" 0x00000001 0
    ∷ [])

abbrev pub dpu_operation_enable : Register
dpu_operation_enable =
    register 0x4008 (bits "RESERVED_0" 0xfffffffe 1 ∷ bits "OP_EN" 0x00000001 0 ∷ [])

abbrev pub dpu_feature_mode_cfg : Register
dpu_feature_mode_cfg = register 0x400c (
    bits "COMB_USE" 0x80000000 31
    ∷ bits "TP_EN" 0x40000000 30
    ∷ bits "RGP_TYPE" 0x3c000000 26
    ∷ bits "NONALIGN" 0x02000000 25
    ∷ bits "SURF_LEN" 0x01fffe00 9
    ∷ bits "BURST_LEN" 0x000001e0 5
    ∷ bits "CONV_MODE" 0x00000018 3
    ∷ bits "OUTPUT_MODE" 0x00000006 1
    ∷ bits "FLYING_MODE" 0x00000001 0
    ∷ [])

abbrev pub dpu_data_format : Register
dpu_data_format = register 0x4010 (
    bits "OUT_PRECISION" 0xe0000000 29
    ∷ bits "IN_PRECISION" 0x1c000000 26
    ∷ bits "EW_TRUNCATE_NEG" 0x03ff0000 16
    ∷ bits "BN_MUL_SHIFT_VALUE_NEG" 0x0000fc00 10
    ∷ bits "BS_MUL_SHIFT_VALUE_NEG" 0x000003f0 4
    ∷ bits "MC_SURF_OUT" 0x00000008 3
    ∷ bits "PROC_PRECISION" 0x00000007 0
    ∷ [])

abbrev pub dpu_offset_pend : Register
dpu_offset_pend =
    register 0x4014 (bits "RESERVED_0" 0xffff0000 16 ∷ bits "OFFSET_PEND" 0x0000ffff 0 ∷ [])

abbrev pub dpu_dst_base_addr : Register
dpu_dst_base_addr = register 0x4020 (bits "DST_BASE_ADDR" 0xffffffff 0 ∷ [])

abbrev pub dpu_dst_surf_stride : Register
dpu_dst_surf_stride =
    register 0x4024 (bits "DST_SURF_STRIDE" 0xfffffff0 4 ∷ bits "RESERVED_0" 0x0000000f 0 ∷ [])

abbrev pub dpu_data_cube_width : Register
dpu_data_cube_width =
    register 0x4030 (bits "RESERVED_0" 0xffffe000 13 ∷ bits "WIDTH" 0x00001fff 0 ∷ [])

abbrev pub dpu_data_cube_height : Register
dpu_data_cube_height = register 0x4034 (
    bits "RESERVED_0" 0xfe000000 25
    ∷ bits "MINMAX_CTL" 0x01c00000 22
    ∷ bits "RESERVED_1" 0x003fe000 13
    ∷ bits "HEIGHT" 0x00001fff 0
    ∷ [])

abbrev pub dpu_data_cube_notch_addr : Register
dpu_data_cube_notch_addr = register 0x4038 (
    bits "RESERVED_0" 0xe0000000 29
    ∷ bits "NOTCH_ADDR_1" 0x1fff0000 16
    ∷ bits "RESERVED_1" 0x0000e000 13
    ∷ bits "NOTCH_ADDR_0" 0x00001fff 0
    ∷ [])

abbrev pub dpu_data_cube_channel : Register
dpu_data_cube_channel = register 0x403c (
    bits "RESERVED_0" 0xe0000000 29
    ∷ bits "ORIG_CHANNEL" 0x1fff0000 16
    ∷ bits "RESERVED_1" 0x0000e000 13
    ∷ bits "CHANNEL" 0x00001fff 0
    ∷ [])

abbrev pub dpu_output_registers : List Register
dpu_output_registers =
    dpu_s_status ∷ dpu_s_pointer ∷ dpu_operation_enable ∷ dpu_feature_mode_cfg ∷ dpu_data_format
    ∷ dpu_offset_pend ∷ dpu_dst_base_addr ∷ dpu_dst_surf_stride ∷ dpu_data_cube_width
    ∷ dpu_data_cube_height ∷ dpu_data_cube_notch_addr ∷ dpu_data_cube_channel ∷ []
