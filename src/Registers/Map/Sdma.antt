-- ===== src/Registers/Map/Sdma.antt =====
-- The registers SDMA_* of npu/driver/rocket_registers.h: the DMA from the buffer.
use rk3588_npu_gpu.Base.{List, [], ◌∷◌}
use rk3588_npu_gpu.Registers.{Register, register, bits}

abbrev pub sdma_cfg_outstanding : Register
sdma_cfg_outstanding = register 0x9000 (
    bits "RESERVED_0" 0xffff0000 16
    ∷ bits "WR_OS_CNT" 0x0000ff00 8
    ∷ bits "RD_OS_CNT" 0x000000ff 0
    ∷ [])

abbrev pub sdma_rd_weight_0 : Register
sdma_rd_weight_0 = register 0x9004 (
    bits "RD_WEIGHT_PDP" 0xff000000 24
    ∷ bits "RD_WEIGHT_DPU" 0x00ff0000 16
    ∷ bits "RD_WEIGHT_KERNEL" 0x0000ff00 8
    ∷ bits "RD_WEIGHT_FEATURE" 0x000000ff 0
    ∷ [])

abbrev pub sdma_wr_weight_0 : Register
sdma_wr_weight_0 = register 0x9008 (
    bits "RESERVED_0" 0xffff0000 16
    ∷ bits "WR_WEIGHT_PDP" 0x0000ff00 8
    ∷ bits "WR_WEIGHT_DPU" 0x000000ff 0
    ∷ [])

abbrev pub sdma_cfg_id_error : Register
sdma_cfg_id_error = register 0x900c (
    bits "RESERVED_0" 0xfffffc00 10
    ∷ bits "WR_RESP_ID" 0x000003c0 6
    ∷ bits "RESERVED_1" 0x00000020 5
    ∷ bits "RD_RESP_ID" 0x0000001f 0
    ∷ [])

abbrev pub sdma_rd_weight_1 : Register
sdma_rd_weight_1 =
    register 0x9010 (bits "RESERVED_0" 0xffffff00 8 ∷ bits "RD_WEIGHT_PC" 0x000000ff 0 ∷ [])

abbrev pub sdma_cfg_dma_fifo_clr : Register
sdma_cfg_dma_fifo_clr =
    register 0x9014 (bits "RESERVED_0" 0xfffffffe 1 ∷ bits "DMA_FIFO_CLR" 0x00000001 0 ∷ [])

abbrev pub sdma_cfg_dma_arb : Register
sdma_cfg_dma_arb = register 0x9018 (
    bits "RESERVED_0" 0xfffffc00 10
    ∷ bits "WR_ARBIT_MODEL" 0x00000200 9
    ∷ bits "RD_ARBIT_MODEL" 0x00000100 8
    ∷ bits "RESERVED_1" 0x00000080 7
    ∷ bits "WR_FIX_ARB" 0x00000070 4
    ∷ bits "RESERVED_2" 0x00000008 3
    ∷ bits "RD_FIX_ARB" 0x00000007 0
    ∷ [])

abbrev pub sdma_cfg_dma_rd_qos : Register
sdma_cfg_dma_rd_qos = register 0x9020 (
    bits "RESERVED_0" 0xfffffc00 10
    ∷ bits "RD_PC_QOS" 0x00000300 8
    ∷ bits "RD_PPU_QOS" 0x000000c0 6
    ∷ bits "RD_DPU_QOS" 0x00000030 4
    ∷ bits "RD_KERNEL_QOS" 0x0000000c 2
    ∷ bits "RD_FEATURE_QOS" 0x00000003 0
    ∷ [])

abbrev pub sdma_cfg_dma_rd_cfg : Register
sdma_cfg_dma_rd_cfg = register 0x9024 (
    bits "RESERVED_0" 0xffffe000 13
    ∷ bits "RD_ARLOCK" 0x00001000 12
    ∷ bits "RD_ARCACHE" 0x00000f00 8
    ∷ bits "RD_ARPROT" 0x000000e0 5
    ∷ bits "RD_ARBURST" 0x00000018 3
    ∷ bits "RD_ARSIZE" 0x00000007 0
    ∷ [])

abbrev pub sdma_cfg_dma_wr_cfg : Register
sdma_cfg_dma_wr_cfg = register 0x9028 (
    bits "RESERVED_0" 0xffffe000 13
    ∷ bits "WR_AWLOCK" 0x00001000 12
    ∷ bits "WR_AWCACHE" 0x00000f00 8
    ∷ bits "WR_AWPROT" 0x000000e0 5
    ∷ bits "WR_AWBURST" 0x00000018 3
    ∷ bits "WR_AWSIZE" 0x00000007 0
    ∷ [])

abbrev pub sdma_cfg_dma_wstrb : Register
sdma_cfg_dma_wstrb = register 0x902c (bits "WR_WSTRB" 0xffffffff 0 ∷ [])

abbrev pub sdma_cfg_status : Register
sdma_cfg_status = register 0x9030 (
    bits "RESERVED_0" 0xfffffe00 9 ∷ bits "IDEL" 0x00000100 8 ∷ bits "RESERVED_1" 0x000000ff 0 ∷ [])

abbrev pub sdma_registers : List Register
sdma_registers =
    sdma_cfg_outstanding ∷ sdma_rd_weight_0 ∷ sdma_wr_weight_0 ∷ sdma_cfg_id_error
    ∷ sdma_rd_weight_1 ∷ sdma_cfg_dma_fifo_clr ∷ sdma_cfg_dma_arb ∷ sdma_cfg_dma_rd_qos
    ∷ sdma_cfg_dma_rd_cfg ∷ sdma_cfg_dma_wr_cfg ∷ sdma_cfg_dma_wstrb ∷ sdma_cfg_status ∷ []
