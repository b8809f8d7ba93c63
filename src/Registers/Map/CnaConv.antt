-- ===== src/Registers/Map/CnaConv.antt =====
-- The registers CNA_* of npu/driver/rocket_registers.h: convolution set-up and sizes.
use rk3588_npu_gpu.Base.{List, [], ◌∷◌}
use rk3588_npu_gpu.Registers.{Register, register, bits}

abbrev pub cna_s_status : Register
cna_s_status = register 0x1000 (
    bits "RESERVED_0" 0xfffc0000 18
    ∷ bits "STATUS_1" 0x00030000 16
    ∷ bits "RESERVED_1" 0x0000fffc 2
    ∷ bits "STATUS_0" 0x00000003 0
    ∷ [])

abbrev pub cna_s_pointer : Register
cna_s_pointer = register 0x1004 (
    bits "RESERVED_0" 0xfffe0000 17
    ∷ bits "EXECUTER" 0x00010000 16
    ∷ bits "RESERVED_1" 0x0000ffc0 6
    ∷ bits "EXECUTER_PP_CLEAR" 0x00000020 5
    ∷ bits "POINTER_PP_CLEAR" 0x00000010 4
    ∷ bits "POINTER_PP_MODE" 0x00000008 3
    ∷ bits "EXECUTER_PP_EN" 0x00000004 2
    ∷ bits "POINTER_PP_EN" 0x00000002 1
    ∷ bits "POINTER" 0x00000001 0
    ∷ [])

abbrev pub cna_operation_enable : Register
cna_operation_enable =
    register 0x1008 (bits "RESERVED_0" 0xfffffffe 1 ∷ bits "OP_EN" 0x00000001 0 ∷ [])

abbrev pub cna_conv_con1 : Register
cna_conv_con1 = register 0x100c (
    bits "RESERVED_0" 0x80000000 31
    ∷ bits "NONALIGN_DMA" 0x40000000 30
    ∷ bits "GROUP_LINE_OFF" 0x20000000 29
    ∷ bits "RESERVED_1" 0x1ffe0000 17
    ∷ bits "DECONV" 0x00010000 16
    ∷ bits "ARGB_IN" 0x0000f000 12
    ∷ bits "RESERVED_2" 0x00000c00 10
    ∷ bits "PROC_PRECISION" 0x00000380 7
    ∷ bits "IN_PRECISION" 0x00000070 4
    ∷ bits "CONV_MODE" 0x0000000f 0
    ∷ [])

abbrev pub cna_conv_con2 : Register
cna_conv_con2 = register 0x1010 (
    bits "RESERVED_0" 0xff000000 24
    ∷ bits "KERNEL_GROUP" 0x00ff0000 16
    ∷ bits "RESERVED_1" 0x0000c000 14
    ∷ bits "FEATURE_GRAINS" 0x00003ff0 4
    ∷ bits "RESERVED_2" 0x00000008 3
    ∷ bits "CSC_WO_EN" 0x00000004 2
    ∷ bits "CSC_DO_EN" 0x00000002 1
    ∷ bits "CMD_FIFO_SRST" 0x00000001 0
    ∷ [])

abbrev pub cna_conv_con3 : Register
cna_conv_con3 = register 0x1014 (
    bits "RESERVED_0" 0x80000000 31
    ∷ bits "NN_MODE" 0x70000000 28
    ∷ bits "RESERVED_1" 0x0c000000 26
    ∷ bits "ATROUS_Y_DILATION" 0x03e00000 21
    ∷ bits "ATROUS_X_DILATION" 0x001f0000 16
    ∷ bits "RESERVED_2" 0x0000c000 14
    ∷ bits "DECONV_Y_STRIDE" 0x00003800 11
    ∷ bits "DECONV_X_STRIDE" 0x00000700 8
    ∷ bits "RESERVED_3" 0x000000c0 6
    ∷ bits "CONV_Y_STRIDE" 0x00000038 3
    ∷ bits "CONV_X_STRIDE" 0x00000007 0
    ∷ [])

abbrev pub cna_data_size0 : Register
cna_data_size0 = register 0x1020 (
    bits "RESERVED_0" 0xf8000000 27
    ∷ bits "DATAIN_WIDTH" 0x07ff0000 16
    ∷ bits "RESERVED_1" 0x0000f800 11
    ∷ bits "DATAIN_HEIGHT" 0x000007ff 0
    ∷ [])

abbrev pub cna_data_size1 : Register
cna_data_size1 = register 0x1024 (
    bits "RESERVED_0" 0xc0000000 30
    ∷ bits "DATAIN_CHANNEL_REAL" 0x3fff0000 16
    ∷ bits "DATAIN_CHANNEL" 0x0000ffff 0
    ∷ [])

abbrev pub cna_data_size2 : Register
cna_data_size2 =
    register 0x1028 (bits "RESERVED_0" 0xfffff800 11 ∷ bits "DATAOUT_WIDTH" 0x000007ff 0 ∷ [])

abbrev pub cna_data_size3 : Register
cna_data_size3 = register 0x102c (
    bits "RESERVED_0" 0xff000000 24
    ∷ bits "SURF_MODE" 0x00c00000 22
    ∷ bits "DATAOUT_ATOMICS" 0x003fffff 0
    ∷ [])

abbrev pub cna_weight_size0 : Register
cna_weight_size0 = register 0x1030 (bits "WEIGHT_BYTES" 0xffffffff 0 ∷ [])

abbrev pub cna_weight_size1 : Register
cna_weight_size1 =
    register 0x1034
      (bits "RESERVED_0" 0xfff80000 19 ∷ bits "WEIGHT_BYTES_PER_KERNEL" 0x0007ffff 0 ∷ [])

abbrev pub cna_weight_size2 : Register
cna_weight_size2 = register 0x1038 (
    bits "RESERVED_0" 0xe0000000 29
    ∷ bits "WEIGHT_WIDTH" 0x1f000000 24
    ∷ bits "RESERVED_1" 0x00e00000 21
    ∷ bits "WEIGHT_HEIGHT" 0x001f0000 16
    ∷ bits "RESERVED_2" 0x0000c000 14
    ∷ bits "WEIGHT_KERNELS" 0x00003fff 0
    ∷ [])

abbrev pub cna_conv_registers : List Register
cna_conv_registers =
    cna_s_status ∷ cna_s_pointer ∷ cna_operation_enable ∷ cna_conv_con1 ∷ cna_conv_con2
    ∷ cna_conv_con3 ∷ cna_data_size0 ∷ cna_data_size1 ∷ cna_data_size2 ∷ cna_data_size3
    ∷ cna_weight_size0 ∷ cna_weight_size1 ∷ cna_weight_size2 ∷ []
