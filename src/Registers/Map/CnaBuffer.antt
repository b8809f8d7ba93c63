-- ===== src/Registers/Map/CnaBuffer.antt =====
-- The registers CNA_* of npu/driver/rocket_registers.h: buffer, conversion, padding and DMA.
use rk3588_npu_gpu.Base.{List, [], ◌∷◌}
use rk3588_npu_gpu.Registers.{Register, register, bits}

abbrev pub cna_cbuf_con0 : Register
cna_cbuf_con0 = register 0x1040 (
    bits "RESERVED_0" 0xffffc000 14
    ∷ bits "WEIGHT_REUSE" 0x00002000 13
    ∷ bits "DATA_REUSE" 0x00001000 12
    ∷ bits "RESERVED_1" 0x00000800 11
    ∷ bits "FC_DATA_BANK" 0x00000700 8
    ∷ bits "WEIGHT_BANK" 0x000000f0 4
    ∷ bits "DATA_BANK" 0x0000000f 0
    ∷ [])

abbrev pub cna_cbuf_con1 : Register
cna_cbuf_con1 =
    register 0x1044 (bits "RESERVED_0" 0xffffc000 14 ∷ bits "DATA_ENTRIES" 0x00003fff 0 ∷ [])

abbrev pub cna_cvt_con0 : Register
cna_cvt_con0 = register 0x104c (
    bits "RESERVED_0" 0xf0000000 28
    ∷ bits "CVT_TRUNCATE_3" 0x0fc00000 22
    ∷ bits "CVT_TRUNCATE_2" 0x003f0000 16
    ∷ bits "CVT_TRUNCATE_1" 0x0000fc00 10
    ∷ bits "CVT_TRUNCATE_0" 0x000003f0 4
    ∷ bits "DATA_SIGN" 0x00000008 3
    ∷ bits "ROUND_TYPE" 0x00000004 2
    ∷ bits "CVT_TYPE" 0x00000002 1
    ∷ bits "CVT_BYPASS" 0x00000001 0
    ∷ [])

abbrev pub cna_cvt_con1 : Register
cna_cvt_con1 =
    register 0x1050 (bits "CVT_SCALE0" 0xffff0000 16 ∷ bits "CVT_OFFSET0" 0x0000ffff 0 ∷ [])

abbrev pub cna_cvt_con2 : Register
cna_cvt_con2 =
    register 0x1054 (bits "CVT_SCALE1" 0xffff0000 16 ∷ bits "CVT_OFFSET1" 0x0000ffff 0 ∷ [])

abbrev pub cna_cvt_con3 : Register
cna_cvt_con3 =
    register 0x1058 (bits "CVT_SCALE2" 0xffff0000 16 ∷ bits "CVT_OFFSET2" 0x0000ffff 0 ∷ [])

abbrev pub cna_cvt_con4 : Register
cna_cvt_con4 =
    register 0x105c (bits "CVT_SCALE3" 0xffff0000 16 ∷ bits "CVT_OFFSET3" 0x0000ffff 0 ∷ [])

abbrev pub cna_fc_con0 : Register
cna_fc_con0 = register 0x1060 (
    bits "FC_SKIP_DATA" 0xffff0000 16
    ∷ bits "RESERVED_0" 0x0000fffe 1
    ∷ bits "FC_SKIP_EN" 0x00000001 0
    ∷ [])

abbrev pub cna_fc_con1 : Register
cna_fc_con1 =
    register 0x1064 (bits "RESERVED_0" 0xfffe0000 17 ∷ bits "DATA_OFFSET" 0x0001ffff 0 ∷ [])

abbrev pub cna_pad_con0 : Register
cna_pad_con0 = register 0x1068 (
    bits "RESERVED_0" 0xffffff00 8
    ∷ bits "PAD_LEFT" 0x000000f0 4
    ∷ bits "PAD_TOP" 0x0000000f 0
    ∷ [])

abbrev pub cna_feature_data_addr : Register
cna_feature_data_addr = register 0x1070 (bits "FEATURE_BASE_ADDR" 0xffffffff 0 ∷ [])

abbrev pub cna_fc_con2 : Register
cna_fc_con2 =
    register 0x1074 (bits "RESERVED_0" 0xfffe0000 17 ∷ bits "WEIGHT_OFFSET" 0x0001ffff 0 ∷ [])

abbrev pub cna_dma_con0 : Register
cna_dma_con0 = register 0x1078 (
    bits "OV4K_BYPASS" 0x80000000 31
    ∷ bits "RESERVED_0" 0x7ff00000 20
    ∷ bits "WEIGHT_BURST_LEN" 0x000f0000 16
    ∷ bits "RESERVED_1" 0x0000fff0 4
    ∷ bits "DATA_BURST_LEN" 0x0000000f 0
    ∷ [])

abbrev pub cna_dma_con1 : Register
cna_dma_con1 =
    register 0x107c (bits "RESERVED_0" 0xf0000000 28 ∷ bits "LINE_STRIDE" 0x0fffffff 0 ∷ [])

abbrev pub cna_dma_con2 : Register
cna_dma_con2 =
    register 0x1080 (bits "RESERVED_0" 0xf0000000 28 ∷ bits "SURF_STRIDE" 0x0fffffff 0 ∷ [])

abbrev pub cna_fc_data_size0 : Register
cna_fc_data_size0 = register 0x1084 (
    bits "RESERVED_0" 0xc0000000 30
    ∷ bits "DMA_WIDTH" 0x3fff0000 16
    ∷ bits "RESERVED_1" 0x0000f800 11
    ∷ bits "DMA_HEIGHT" 0x000007ff 0
    ∷ [])

abbrev pub cna_fc_data_size1 : Register
cna_fc_data_size1 =
    register 0x1088 (bits "RESERVED_0" 0xffff0000 16 ∷ bits "DMA_CHANNEL" 0x0000ffff 0 ∷ [])

abbrev pub cna_buffer_registers : List Register
cna_buffer_registers =
    cna_cbuf_con0 ∷ cna_cbuf_con1 ∷ cna_cvt_con0 ∷ cna_cvt_con1 ∷ cna_cvt_con2 ∷ cna_cvt_con3
    ∷ cna_cvt_con4 ∷ cna_fc_con0 ∷ cna_fc_con1 ∷ cna_pad_con0 ∷ cna_feature_data_addr ∷ cna_fc_con2
    ∷ cna_dma_con0 ∷ cna_dma_con1 ∷ cna_dma_con2 ∷ cna_fc_data_size0 ∷ cna_fc_data_size1 ∷ []
