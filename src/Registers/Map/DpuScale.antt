-- ===== src/Registers/Map/DpuScale.antt =====
-- The registers DPU_* of npu/driver/rocket_registers.h: the BS and BN stages and the write DMA.
use rk3588_npu_gpu.Base.{List, [], ◌∷◌}
use rk3588_npu_gpu.Registers.{Register, register, bits}

abbrev pub dpu_bs_cfg : Register
dpu_bs_cfg = register 0x4040 (
    bits "RESERVED_0" 0xfff00000 20
    ∷ bits "BS_ALU_ALGO" 0x000f0000 16
    ∷ bits "RESERVED_1" 0x0000fe00 9
    ∷ bits "BS_ALU_SRC" 0x00000100 8
    ∷ bits "BS_RELUX_EN" 0x00000080 7
    ∷ bits "BS_RELU_BYPASS" 0x00000040 6
    ∷ bits "BS_MUL_PRELU" 0x00000020 5
    ∷ bits "BS_MUL_BYPASS" 0x00000010 4
    ∷ bits "RESERVED_2" 0x0000000c 2
    ∷ bits "BS_ALU_BYPASS" 0x00000002 1
    ∷ bits "BS_BYPASS" 0x00000001 0
    ∷ [])

abbrev pub dpu_bs_alu_cfg : Register
dpu_bs_alu_cfg = register 0x4044 (bits "BS_ALU_OPERAND" 0xffffffff 0 ∷ [])

abbrev pub dpu_bs_mul_cfg : Register
dpu_bs_mul_cfg = register 0x4048 (
    bits "BS_MUL_OPERAND" 0xffff0000 16
    ∷ bits "RESERVED_0" 0x0000c000 14
    ∷ bits "BS_MUL_SHIFT_VALUE" 0x00003f00 8
    ∷ bits "RESERVED_1" 0x000000fc 2
    ∷ bits "BS_TRUNCATE_SRC" 0x00000002 1
    ∷ bits "BS_MUL_SRC" 0x00000001 0
    ∷ [])

abbrev pub dpu_bs_relux_cmp_value : Register
dpu_bs_relux_cmp_value = register 0x404c (bits "BS_RELUX_CMP_DAT" 0xffffffff 0 ∷ [])

abbrev pub dpu_bs_ow_cfg : Register
dpu_bs_ow_cfg = register 0x4050 (
    bits "RGP_CNTER" 0xf0000000 28
    ∷ bits "TP_ORG_EN" 0x08000000 27
    ∷ bits "RESERVED_0" 0x07fff800 11
    ∷ bits "SIZE_E_2" 0x00000700 8
    ∷ bits "SIZE_E_1" 0x000000e0 5
    ∷ bits "SIZE_E_0" 0x0000001c 2
    ∷ bits "OD_BYPASS" 0x00000002 1
    ∷ bits "OW_SRC" 0x00000001 0
    ∷ [])

abbrev pub dpu_bs_ow_op : Register
dpu_bs_ow_op = register 0x4054 (bits "RESERVED_0" 0xffff0000 16 ∷ bits "OW_OP" 0x0000ffff 0 ∷ [])

abbrev pub dpu_wdma_size_0 : Register
dpu_wdma_size_0 = register 0x4058 (
    bits "RESERVED_0" 0xf0000000 28
    ∷ bits "TP_PRECISION" 0x08000000 27
    ∷ bits "SIZE_C_WDMA" 0x07ff0000 16
    ∷ bits "RESERVED_1" 0x0000e000 13
    ∷ bits "CHANNEL_WDMA" 0x00001fff 0
    ∷ [])

abbrev pub dpu_wdma_size_1 : Register
dpu_wdma_size_1 = register 0x405c (
    bits "RESERVED_0" 0xe0000000 29
    ∷ bits "HEIGHT_WDMA" 0x1fff0000 16
    ∷ bits "RESERVED_1" 0x0000e000 13
    ∷ bits "WIDTH_WDMA" 0x00001fff 0
    ∷ [])

abbrev pub dpu_bn_cfg : Register
dpu_bn_cfg = register 0x4060 (
    bits "RESERVED_0" 0xfff00000 20
    ∷ bits "BN_ALU_ALGO" 0x000f0000 16
    ∷ bits "RESERVED_1" 0x0000fe00 9
    ∷ bits "BN_ALU_SRC" 0x00000100 8
    ∷ bits "BN_RELUX_EN" 0x00000080 7
    ∷ bits "BN_RELU_BYPASS" 0x00000040 6
    ∷ bits "BN_MUL_PRELU" 0x00000020 5
    ∷ bits "BN_MUL_BYPASS" 0x00000010 4
    ∷ bits "RESERVED_2" 0x0000000c 2
    ∷ bits "BN_ALU_BYPASS" 0x00000002 1
    ∷ bits "BN_BYPASS" 0x00000001 0
    ∷ [])

abbrev pub dpu_bn_alu_cfg : Register
dpu_bn_alu_cfg = register 0x4064 (bits "BN_ALU_OPERAND" 0xffffffff 0 ∷ [])

abbrev pub dpu_bn_mul_cfg : Register
dpu_bn_mul_cfg = register 0x4068 (
    bits "BN_MUL_OPERAND" 0xffff0000 16
    ∷ bits "RESERVED_0" 0x0000c000 14
    ∷ bits "BN_MUL_SHIFT_VALUE" 0x00003f00 8
    ∷ bits "RESERVED_1" 0x000000fc 2
    ∷ bits "BN_TRUNCATE_SRC" 0x00000002 1
    ∷ bits "BN_MUL_SRC" 0x00000001 0
    ∷ [])

abbrev pub dpu_bn_relux_cmp_value : Register
dpu_bn_relux_cmp_value = register 0x406c (bits "BN_RELUX_CMP_DAT" 0xffffffff 0 ∷ [])

abbrev pub dpu_scale_registers : List Register
dpu_scale_registers =
    dpu_bs_cfg ∷ dpu_bs_alu_cfg ∷ dpu_bs_mul_cfg ∷ dpu_bs_relux_cmp_value ∷ dpu_bs_ow_cfg
    ∷ dpu_bs_ow_op ∷ dpu_wdma_size_0 ∷ dpu_wdma_size_1 ∷ dpu_bn_cfg ∷ dpu_bn_alu_cfg
    ∷ dpu_bn_mul_cfg ∷ dpu_bn_relux_cmp_value ∷ []
