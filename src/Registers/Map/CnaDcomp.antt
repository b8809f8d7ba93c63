-- ===== src/Registers/Map/CnaDcomp.antt =====
-- The registers CNA_* of npu/driver/rocket_registers.h: clock gating and weight decompression.
use rk3588_npu_gpu.Base.{List, [], ◌∷◌}
use rk3588_npu_gpu.Registers.{Register, register, bits}

abbrev pub cna_clk_gate : Register
cna_clk_gate = register 0x1090 (
    bits "RESERVED_0" 0xffffffe0 5
    ∷ bits "CBUF_CS_DISABLE_CLKGATE" 0x00000010 4
    ∷ bits "RESERVED_1" 0x00000008 3
    ∷ bits "CSC_DISABLE_CLKGATE" 0x00000004 2
    ∷ bits "CNA_WEIGHT_DISABLE_CLKGATE" 0x00000002 1
    ∷ bits "CNA_FEATURE_DISABLE_CLKGATE" 0x00000001 0
    ∷ [])

abbrev pub cna_dcomp_ctrl : Register
cna_dcomp_ctrl = register 0x1100 (
    bits "RESERVED_0" 0xfffffff0 4
    ∷ bits "WT_DEC_BYPASS" 0x00000008 3
    ∷ bits "DECOMP_CONTROL" 0x00000007 0
    ∷ [])

abbrev pub cna_dcomp_regnum : Register
cna_dcomp_regnum = register 0x1104 (bits "DCOMP_REGNUM" 0xffffffff 0 ∷ [])

abbrev pub cna_dcomp_addr0 : Register
cna_dcomp_addr0 = register 0x1110 (bits "DECOMPRESS_ADDR0" 0xffffffff 0 ∷ [])

abbrev pub cna_dcomp_amount0 : Register
cna_dcomp_amount0 = register 0x1140 (bits "DCOMP_AMOUNT0" 0xffffffff 0 ∷ [])

abbrev pub cna_dcomp_amount1 : Register
cna_dcomp_amount1 = register 0x1144 (bits "DCOMP_AMOUNT1" 0xffffffff 0 ∷ [])

abbrev pub cna_dcomp_amount2 : Register
cna_dcomp_amount2 = register 0x1148 (bits "DCOMP_AMOUNT2" 0xffffffff 0 ∷ [])

abbrev pub cna_dcomp_amount3 : Register
cna_dcomp_amount3 = register 0x114c (bits "DCOMP_AMOUNT3" 0xffffffff 0 ∷ [])

abbrev pub cna_dcomp_amount4 : Register
cna_dcomp_amount4 = register 0x1150 (bits "DCOMP_AMOUNT4" 0xffffffff 0 ∷ [])

abbrev pub cna_dcomp_amount5 : Register
cna_dcomp_amount5 = register 0x1154 (bits "DCOMP_AMOUNT5" 0xffffffff 0 ∷ [])

abbrev pub cna_dcomp_amount6 : Register
cna_dcomp_amount6 = register 0x1158 (bits "DCOMP_AMOUNT6" 0xffffffff 0 ∷ [])

abbrev pub cna_dcomp_amount7 : Register
cna_dcomp_amount7 = register 0x115c (bits "DCOMP_AMOUNT7" 0xffffffff 0 ∷ [])

abbrev pub cna_dcomp_amount8 : Register
cna_dcomp_amount8 = register 0x1160 (bits "DCOMP_AMOUNT8" 0xffffffff 0 ∷ [])

abbrev pub cna_dcomp_amount9 : Register
cna_dcomp_amount9 = register 0x1164 (bits "DCOMP_AMOUNT9" 0xffffffff 0 ∷ [])

abbrev pub cna_dcomp_amount10 : Register
cna_dcomp_amount10 = register 0x1168 (bits "DCOMP_AMOUNT10" 0xffffffff 0 ∷ [])

abbrev pub cna_dcomp_amount11 : Register
cna_dcomp_amount11 = register 0x116c (bits "DCOMP_AMOUNT11" 0xffffffff 0 ∷ [])

abbrev pub cna_dcomp_amount12 : Register
cna_dcomp_amount12 = register 0x1170 (bits "DCOMP_AMOUNT12" 0xffffffff 0 ∷ [])

abbrev pub cna_dcomp_amount13 : Register
cna_dcomp_amount13 = register 0x1174 (bits "DCOMP_AMOUNT13" 0xffffffff 0 ∷ [])

abbrev pub cna_dcomp_amount14 : Register
cna_dcomp_amount14 = register 0x1178 (bits "DCOMP_AMOUNT14" 0xffffffff 0 ∷ [])

abbrev pub cna_dcomp_amount15 : Register
cna_dcomp_amount15 = register 0x117c (bits "DCOMP_AMOUNT15" 0xffffffff 0 ∷ [])

abbrev pub cna_cvt_con5 : Register
cna_cvt_con5 = register 0x1180 (bits "PER_CHANNEL_CVT_EN" 0xffffffff 0 ∷ [])

abbrev pub cna_pad_con1 : Register
cna_pad_con1 = register 0x1184 (bits "PAD_VALUE" 0xffffffff 0 ∷ [])

abbrev pub cna_dcomp_registers : List Register
cna_dcomp_registers =
    cna_clk_gate ∷ cna_dcomp_ctrl ∷ cna_dcomp_regnum ∷ cna_dcomp_addr0 ∷ cna_dcomp_amount0
    ∷ cna_dcomp_amount1 ∷ cna_dcomp_amount2 ∷ cna_dcomp_amount3 ∷ cna_dcomp_amount4
    ∷ cna_dcomp_amount5 ∷ cna_dcomp_amount6 ∷ cna_dcomp_amount7 ∷ cna_dcomp_amount8
    ∷ cna_dcomp_amount9 ∷ cna_dcomp_amount10 ∷ cna_dcomp_amount11 ∷ cna_dcomp_amount12
    ∷ cna_dcomp_amount13 ∷ cna_dcomp_amount14 ∷ cna_dcomp_amount15 ∷ cna_cvt_con5 ∷ cna_pad_con1
    ∷ []
