-- ===== src/Registers/Map/DpuLut.antt =====
-- The registers DPU_* of npu/driver/rocket_registers.h: the look-up tables.
use rk3588_npu_gpu.Base.{List, [], ◌∷◌}
use rk3588_npu_gpu.Registers.{Register, register, bits}

abbrev pub dpu_lut_access_cfg : Register
dpu_lut_access_cfg = register 0x4100 (
    bits "RESERVED_0" 0xfffc0000 18
    ∷ bits "LUT_ACCESS_TYPE" 0x00020000 17
    ∷ bits "LUT_TABLE_ID" 0x00010000 16
    ∷ bits "RESERVED_1" 0x0000fc00 10
    ∷ bits "LUT_ADDR" 0x000003ff 0
    ∷ [])

abbrev pub dpu_lut_access_data : Register
dpu_lut_access_data =
    register 0x4104 (bits "RESERVED_0" 0xffff0000 16 ∷ bits "LUT_ACCESS_DATA" 0x0000ffff 0 ∷ [])

abbrev pub dpu_lut_cfg : Register
dpu_lut_cfg = register 0x4108 (
    bits "RESERVED_0" 0xffffff00 8
    ∷ bits "LUT_CAL_SEL" 0x00000080 7
    ∷ bits "LUT_HYBRID_PRIORITY" 0x00000040 6
    ∷ bits "LUT_OFLOW_PRIORITY" 0x00000020 5
    ∷ bits "LUT_UFLOW_PRIORITY" 0x00000010 4
    ∷ bits "LUT_LO_LE_MUX" 0x0000000c 2
    ∷ bits "LUT_EXPAND_EN" 0x00000002 1
    ∷ bits "LUT_ROAD_SEL" 0x00000001 0
    ∷ [])

abbrev pub dpu_lut_info : Register
dpu_lut_info = register 0x410c (
    bits "RESERVED_0" 0xff000000 24
    ∷ bits "LUT_LO_INDEX_SELECT" 0x00ff0000 16
    ∷ bits "LUT_LE_INDEX_SELECT" 0x0000ff00 8
    ∷ bits "RESERVED_1" 0x000000ff 0
    ∷ [])

abbrev pub dpu_lut_le_start : Register
dpu_lut_le_start = register 0x4110 (bits "LUT_LE_START" 0xffffffff 0 ∷ [])

abbrev pub dpu_lut_le_end : Register
dpu_lut_le_end = register 0x4114 (bits "LUT_LE_END" 0xffffffff 0 ∷ [])

abbrev pub dpu_lut_lo_start : Register
dpu_lut_lo_start = register 0x4118 (bits "LUT_LO_START" 0xffffffff 0 ∷ [])

abbrev pub dpu_lut_lo_end : Register
dpu_lut_lo_end = register 0x411c (bits "LUT_LO_END" 0xffffffff 0 ∷ [])

abbrev pub dpu_lut_le_slope_scale : Register
dpu_lut_le_slope_scale = register 0x4120 (
    bits "LUT_LE_SLOPE_OFLOW_SCALE" 0xffff0000 16
    ∷ bits "LUT_LE_SLOPE_UFLOW_SCALE" 0x0000ffff 0
    ∷ [])

abbrev pub dpu_lut_le_slope_shift : Register
dpu_lut_le_slope_shift = register 0x4124 (
    bits "RESERVED_0" 0xfffffc00 10
    ∷ bits "LUT_LE_SLOPE_OFLOW_SHIFT" 0x000003e0 5
    ∷ bits "LUT_LE_SLOPE_UFLOW_SHIFT" 0x0000001f 0
    ∷ [])

abbrev pub dpu_lut_lo_slope_scale : Register
dpu_lut_lo_slope_scale = register 0x4128 (
    bits "LUT_LO_SLOPE_OFLOW_SCALE" 0xffff0000 16
    ∷ bits "LUT_LO_SLOPE_UFLOW_SCALE" 0x0000ffff 0
    ∷ [])

abbrev pub dpu_lut_lo_slope_shift : Register
dpu_lut_lo_slope_shift = register 0x412c (
    bits "RESERVED_0" 0xfffffc00 10
    ∷ bits "LUT_LO_SLOPE_OFLOW_SHIFT" 0x000003e0 5
    ∷ bits "LUT_LO_SLOPE_UFLOW_SHIFT" 0x0000001f 0
    ∷ [])

abbrev pub dpu_lut_registers : List Register
dpu_lut_registers =
    dpu_lut_access_cfg ∷ dpu_lut_access_data ∷ dpu_lut_cfg ∷ dpu_lut_info ∷ dpu_lut_le_start
    ∷ dpu_lut_le_end ∷ dpu_lut_lo_start ∷ dpu_lut_lo_end ∷ dpu_lut_le_slope_scale
    ∷ dpu_lut_le_slope_shift ∷ dpu_lut_lo_slope_scale ∷ dpu_lut_lo_slope_shift ∷ []
