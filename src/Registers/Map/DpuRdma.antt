-- ===== src/Registers/Map/DpuRdma.antt =====
-- The registers DPU_RDMA_* of npu/driver/rocket_registers.h: the DPU's read DMA.
use rk3588_npu_gpu.Base.{List, [], ◌∷◌}
use rk3588_npu_gpu.Registers.{Register, register, bits}

abbrev pub dpu_rdma_rdma_s_status : Register
dpu_rdma_rdma_s_status = register 0x5000 (
    bits "RESERVED_0" 0xfffc0000 18
    ∷ bits "STATUS_1" 0x00030000 16
    ∷ bits "RESERVED_1" 0x0000fffc 2
    ∷ bits "STATUS_0" 0x00000003 0
    ∷ [])

abbrev pub dpu_rdma_rdma_s_pointer : Register
dpu_rdma_rdma_s_pointer = register 0x5004 (
    bits "RESERVED_0" 0xfffe0000 17
    ∷ bits "EXECUTER" 0x00010000 16
    ∷ bits "RESERVED_1" 0x0000ffc0 6
    ∷ bits "EXECUTER_PP_CLEAR" 0x00000020 5
    ∷ bits "POINTER_PP_CLEAR" 0x00000010 4
    ∷ bits "POINTER_PP_MODE" 0x00000008 3
    ∷ bits "EXECUTER_PP_EN" 0x00000004 2
    ∷ bits "POINTER_PP_EN" 0x00000002 1
    ∷ bits "POINTER" 0x00000001 0
    ∷ [])

abbrev pub dpu_rdma_rdma_operation_enable : Register
dpu_rdma_rdma_operation_enable =
    register 0x5008 (bits "RESERVED_0" 0xfffffffe 1 ∷ bits "OP_EN" 0x00000001 0 ∷ [])

abbrev pub dpu_rdma_rdma_data_cube_width : Register
dpu_rdma_rdma_data_cube_width =
    register 0x500c (bits "RESERVED_0" 0xffffe000 13 ∷ bits "WIDTH" 0x00001fff 0 ∷ [])

abbrev pub dpu_rdma_rdma_data_cube_height : Register
dpu_rdma_rdma_data_cube_height = register 0x5010 (
    bits "RESERVED_0" 0xe0000000 29
    ∷ bits "EW_LINE_NOTCH_ADDR" 0x1fff0000 16
    ∷ bits "RESERVED_1" 0x0000e000 13
    ∷ bits "HEIGHT" 0x00001fff 0
    ∷ [])

abbrev pub dpu_rdma_rdma_data_cube_channel : Register
dpu_rdma_rdma_data_cube_channel =
    register 0x5014 (bits "RESERVED_0" 0xffffe000 13 ∷ bits "CHANNEL" 0x00001fff 0 ∷ [])

abbrev pub dpu_rdma_rdma_src_base_addr : Register
dpu_rdma_rdma_src_base_addr = register 0x5018 (bits "SRC_BASE_ADDR" 0xffffffff 0 ∷ [])

abbrev pub dpu_rdma_rdma_brdma_cfg : Register
dpu_rdma_rdma_brdma_cfg = register 0x501c (
    bits "RESERVED_0" 0xffffffe0 5
    ∷ bits "BRDMA_DATA_USE" 0x0000001e 1
    ∷ bits "RESERVED_1" 0x00000001 0
    ∷ [])

abbrev pub dpu_rdma_rdma_bs_base_addr : Register
dpu_rdma_rdma_bs_base_addr = register 0x5020 (bits "BS_BASE_ADDR" 0xffffffff 0 ∷ [])

abbrev pub dpu_rdma_rdma_nrdma_cfg : Register
dpu_rdma_rdma_nrdma_cfg = register 0x5028 (
    bits "RESERVED_0" 0xffffffe0 5
    ∷ bits "NRDMA_DATA_USE" 0x0000001e 1
    ∷ bits "RESERVED_1" 0x00000001 0
    ∷ [])

abbrev pub dpu_rdma_rdma_bn_base_addr : Register
dpu_rdma_rdma_bn_base_addr = register 0x502c (bits "BN_BASE_ADDR" 0xffffffff 0 ∷ [])

abbrev pub dpu_rdma_rdma_erdma_cfg : Register
dpu_rdma_rdma_erdma_cfg = register 0x5034 (
    bits "ERDMA_DATA_MODE" 0xc0000000 30
    ∷ bits "ERDMA_SURF_MODE" 0x20000000 29
    ∷ bits "ERDMA_NONALIGN" 0x10000000 28
    ∷ bits "RESERVED_0" 0x0ffffff0 4
    ∷ bits "ERDMA_DATA_SIZE" 0x0000000c 2
    ∷ bits "OV4K_BYPASS" 0x00000002 1
    ∷ bits "ERDMA_DISABLE" 0x00000001 0
    ∷ [])

abbrev pub dpu_rdma_rdma_ew_base_addr : Register
dpu_rdma_rdma_ew_base_addr = register 0x5038 (bits "EW_BASE_ADDR" 0xffffffff 0 ∷ [])

abbrev pub dpu_rdma_rdma_ew_surf_stride : Register
dpu_rdma_rdma_ew_surf_stride =
    register 0x5040 (bits "EW_SURF_STRIDE" 0xfffffff0 4 ∷ bits "RESERVED_0" 0x0000000f 0 ∷ [])

abbrev pub dpu_rdma_rdma_feature_mode_cfg : Register
dpu_rdma_rdma_feature_mode_cfg = register 0x5044 (
    bits "RESERVED_0" 0xfffc0000 18
    ∷ bits "IN_PRECISION" 0x00038000 15
    ∷ bits "BURST_LEN" 0x00007800 11
    ∷ bits "COMB_USE" 0x00000700 8
    ∷ bits "PROC_PRECISION" 0x000000e0 5
    ∷ bits "MRDMA_DISABLE" 0x00000010 4
    ∷ bits "MRDMA_FP16TOFP32_EN" 0x00000008 3
    ∷ bits "CONV_MODE" 0x00000006 1
    ∷ bits "FLYING_MODE" 0x00000001 0
    ∷ [])

abbrev pub dpu_rdma_rdma_src_dma_cfg : Register
dpu_rdma_rdma_src_dma_cfg = register 0x5048 (
    bits "LINE_NOTCH_ADDR" 0xfff80000 19
    ∷ bits "RESERVED_0" 0x0007c000 14
    ∷ bits "POOLING_METHOD" 0x00002000 13
    ∷ bits "UNPOOLING_EN" 0x00001000 12
    ∷ bits "KERNEL_STRIDE_HEIGHT" 0x00000e00 9
    ∷ bits "KERNEL_STRIDE_WIDTH" 0x000001c0 6
    ∷ bits "KERNEL_HEIGHT" 0x00000038 3
    ∷ bits "KERNEL_WIDTH" 0x00000007 0
    ∷ [])

abbrev pub dpu_rdma_rdma_surf_notch : Register
dpu_rdma_rdma_surf_notch =
    register 0x504c (bits "SURF_NOTCH_ADDR" 0xfffffff0 4 ∷ bits "RESERVED_0" 0x0000000f 0 ∷ [])

abbrev pub dpu_rdma_rdma_pad_cfg : Register
dpu_rdma_rdma_pad_cfg = register 0x5064 (
    bits "PAD_VALUE" 0xffff0000 16
    ∷ bits "RESERVED_0" 0x0000ff80 7
    ∷ bits "PAD_TOP" 0x00000070 4
    ∷ bits "RESERVED_1" 0x00000008 3
    ∷ bits "PAD_LEFT" 0x00000007 0
    ∷ [])

abbrev pub dpu_rdma_rdma_weight : Register
dpu_rdma_rdma_weight = register 0x5068 (
    bits "E_WEIGHT" 0xff000000 24
    ∷ bits "N_WEIGHT" 0x00ff0000 16
    ∷ bits "B_WEIGHT" 0x0000ff00 8
    ∷ bits "M_WEIGHT" 0x000000ff 0
    ∷ [])

abbrev pub dpu_rdma_rdma_ew_surf_notch : Register
dpu_rdma_rdma_ew_surf_notch =
    register 0x506c (bits "EW_SURF_NOTCH" 0xfffffff0 4 ∷ bits "RESERVED_0" 0x0000000f 0 ∷ [])

abbrev pub dpu_rdma_registers : List Register
dpu_rdma_registers =
    dpu_rdma_rdma_s_status ∷ dpu_rdma_rdma_s_pointer ∷ dpu_rdma_rdma_operation_enable
    ∷ dpu_rdma_rdma_data_cube_width ∷ dpu_rdma_rdma_data_cube_height
    ∷ dpu_rdma_rdma_data_cube_channel ∷ dpu_rdma_rdma_src_base_addr ∷ dpu_rdma_rdma_brdma_cfg
    ∷ dpu_rdma_rdma_bs_base_addr ∷ dpu_rdma_rdma_nrdma_cfg ∷ dpu_rdma_rdma_bn_base_addr
    ∷ dpu_rdma_rdma_erdma_cfg ∷ dpu_rdma_rdma_ew_base_addr ∷ dpu_rdma_rdma_ew_surf_stride
    ∷ dpu_rdma_rdma_feature_mode_cfg ∷ dpu_rdma_rdma_src_dma_cfg ∷ dpu_rdma_rdma_surf_notch
    ∷ dpu_rdma_rdma_pad_cfg ∷ dpu_rdma_rdma_weight ∷ dpu_rdma_rdma_ew_surf_notch ∷ []
