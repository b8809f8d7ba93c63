-- ===== src/Registers/Map/Ppu.antt =====
-- The registers PPU_* of npu/driver/rocket_registers.h: the pooling unit.
use rk3588_npu_gpu.Base.{List, [], ◌∷◌}
use rk3588_npu_gpu.Registers.{Register, register, bits}

abbrev pub ppu_s_status : Register
ppu_s_status = register 0x6000 (
    bits "RESERVED_0" 0xfffc0000 18
    ∷ bits "STATUS_1" 0x00030000 16
    ∷ bits "RESERVED_1" 0x0000fffc 2
    ∷ bits "STATUS_0" 0x00000003 0
    ∷ [])

abbrev pub ppu_s_pointer : Register
ppu_s_pointer = register 0x6004 (
    bits "RESERVED_0" 0xfffe0000 17
    ∷ bits "EXECUTER" 0x00010000 16
    ∷ bits "RESERVED_1" 0x0000ffc0 6
    ∷ bits "EXECUTER_PP_CLEAR" 0x00000020 5
    ∷ bits "POINTER_PP_CLEAR" 0x00000010 4
    ∷ bits "POINTER_PP_MODE" 0x00000008 3
    ∷ bits "EXECUTER_PP_EN" 0x00000004 2
    ∷ bits "POINTER_PP_EN" 0x00000002 1
    ∷ bits "POINTER" 0x00000001 0
    ∷ [])

abbrev pub ppu_operation_enable : Register
ppu_operation_enable =
    register 0x6008 (bits "RESERVED_0" 0xfffffffe 1 ∷ bits "OP_EN" 0x00000001 0 ∷ [])

abbrev pub ppu_data_cube_in_width : Register
ppu_data_cube_in_width =
    register 0x600c (bits "RESERVED_0" 0xffffe000 13 ∷ bits "CUBE_IN_WIDTH" 0x00001fff 0 ∷ [])

abbrev pub ppu_data_cube_in_height : Register
ppu_data_cube_in_height =
    register 0x6010 (bits "RESERVED_0" 0xffffe000 13 ∷ bits "CUBE_IN_HEIGHT" 0x00001fff 0 ∷ [])

abbrev pub ppu_data_cube_in_channel : Register
ppu_data_cube_in_channel =
    register 0x6014 (bits "RESERVED_0" 0xffffe000 13 ∷ bits "CUBE_IN_CHANNEL" 0x00001fff 0 ∷ [])

abbrev pub ppu_data_cube_out_width : Register
ppu_data_cube_out_width =
    register 0x6018 (bits "RESERVED_0" 0xffffe000 13 ∷ bits "CUBE_OUT_WIDTH" 0x00001fff 0 ∷ [])

abbrev pub ppu_data_cube_out_height : Register
ppu_data_cube_out_height =
    register 0x601c (bits "RESERVED_0" 0xffffe000 13 ∷ bits "CUBE_OUT_HEIGHT" 0x00001fff 0 ∷ [])

abbrev pub ppu_data_cube_out_channel : Register
ppu_data_cube_out_channel =
    register 0x6020 (bits "RESERVED_0" 0xffffe000 13 ∷ bits "CUBE_OUT_CHANNEL" 0x00001fff 0 ∷ [])

abbrev pub ppu_operation_mode_cfg : Register
ppu_operation_mode_cfg = register 0x6024 (
    bits "RESERVED_0" 0x80000000 31
    ∷ bits "INDEX_EN" 0x40000000 30
    ∷ bits "RESERVED_1" 0x20000000 29
    ∷ bits "NOTCH_ADDR" 0x1fff0000 16
    ∷ bits "RESERVED_2" 0x0000ff00 8
    ∷ bits "USE_CNT" 0x000000e0 5
    ∷ bits "FLYING_MODE" 0x00000010 4
    ∷ bits "RESERVED_3" 0x0000000c 2
    ∷ bits "POOLING_METHOD" 0x00000003 0
    ∷ [])

abbrev pub ppu_pooling_kernel_cfg : Register
ppu_pooling_kernel_cfg = register 0x6034 (
    bits "RESERVED_0" 0xff000000 24
    ∷ bits "KERNEL_STRIDE_HEIGHT" 0x00f00000 20
    ∷ bits "KERNEL_STRIDE_WIDTH" 0x000f0000 16
    ∷ bits "RESERVED_1" 0x0000f000 12
    ∷ bits "KERNEL_HEIGHT" 0x00000f00 8
    ∷ bits "RESERVED_2" 0x000000f0 4
    ∷ bits "KERNEL_WIDTH" 0x0000000f 0
    ∷ [])

abbrev pub ppu_recip_kernel_width : Register
ppu_recip_kernel_width =
    register 0x6038 (bits "RESERVED_0" 0xfffe0000 17 ∷ bits "RECIP_KERNEL_WIDTH" 0x0001ffff 0 ∷ [])

abbrev pub ppu_recip_kernel_height : Register
ppu_recip_kernel_height =
    register 0x603c (bits "RESERVED_0" 0xfffe0000 17 ∷ bits "RECIP_KERNEL_HEIGHT" 0x0001ffff 0 ∷ [])

abbrev pub ppu_pooling_padding_cfg : Register
ppu_pooling_padding_cfg = register 0x6040 (
    bits "RESERVED_0" 0xffff8000 15
    ∷ bits "PAD_BOTTOM" 0x00007000 12
    ∷ bits "RESERVED_1" 0x00000800 11
    ∷ bits "PAD_RIGHT" 0x00000700 8
    ∷ bits "RESERVED_2" 0x00000080 7
    ∷ bits "PAD_TOP" 0x00000070 4
    ∷ bits "RESERVED_3" 0x00000008 3
    ∷ bits "PAD_LEFT" 0x00000007 0
    ∷ [])

abbrev pub ppu_padding_value_1_cfg : Register
ppu_padding_value_1_cfg = register 0x6044 (bits "PAD_VALUE_0" 0xffffffff 0 ∷ [])

abbrev pub ppu_padding_value_2_cfg : Register
ppu_padding_value_2_cfg =
    register 0x6048 (bits "RESERVED_0" 0xfffffff8 3 ∷ bits "PAD_VALUE_1" 0x00000007 0 ∷ [])

abbrev pub ppu_dst_base_addr : Register
ppu_dst_base_addr =
    register 0x6070 (bits "DST_BASE_ADDR" 0xfffffff0 4 ∷ bits "RESERVED_0" 0x0000000f 0 ∷ [])

abbrev pub ppu_dst_surf_stride : Register
ppu_dst_surf_stride =
    register 0x607c (bits "DST_SURF_STRIDE" 0xfffffff0 4 ∷ bits "RESERVED_0" 0x0000000f 0 ∷ [])

abbrev pub ppu_data_format : Register
ppu_data_format = register 0x6084 (
    bits "INDEX_ADD" 0xfffffff0 4
    ∷ bits "DPU_FLYIN" 0x00000008 3
    ∷ bits "PROC_PRECISION" 0x00000007 0
    ∷ [])

abbrev pub ppu_misc_ctrl : Register
ppu_misc_ctrl = register 0x60dc (
    bits "SURF_LEN" 0xffff0000 16
    ∷ bits "RESERVED_0" 0x0000fe00 9
    ∷ bits "MC_SURF_OUT" 0x00000100 8
    ∷ bits "NONALIGN" 0x00000080 7
    ∷ bits "RESERVED_1" 0x00000070 4
    ∷ bits "BURST_LEN" 0x0000000f 0
    ∷ [])

abbrev pub ppu_registers : List Register
ppu_registers =
    ppu_s_status ∷ ppu_s_pointer ∷ ppu_operation_enable ∷ ppu_data_cube_in_width
    ∷ ppu_data_cube_in_height ∷ ppu_data_cube_in_channel ∷ ppu_data_cube_out_width
    ∷ ppu_data_cube_out_height ∷ ppu_data_cube_out_channel ∷ ppu_operation_mode_cfg
    ∷ ppu_pooling_kernel_cfg ∷ ppu_recip_kernel_width ∷ ppu_recip_kernel_height
    ∷ ppu_pooling_padding_cfg ∷ ppu_padding_value_1_cfg ∷ ppu_padding_value_2_cfg
    ∷ ppu_dst_base_addr ∷ ppu_dst_surf_stride ∷ ppu_data_format ∷ ppu_misc_ctrl ∷ []
