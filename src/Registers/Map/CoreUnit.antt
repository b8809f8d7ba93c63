-- ===== src/Registers/Map/CoreUnit.antt =====
-- The registers CORE_* of npu/driver/rocket_registers.h: the MAC core.
use rk3588_npu_gpu.Base.{List, [], ◌∷◌}
use rk3588_npu_gpu.Registers.{Register, register, bits}

abbrev pub core_s_status : Register
core_s_status = register 0x3000 (
    bits "RESERVED_0" 0xfffc0000 18
    ∷ bits "STATUS_1" 0x00030000 16
    ∷ bits "RESERVED_1" 0x0000fffc 2
    ∷ bits "STATUS_0" 0x00000003 0
    ∷ [])

abbrev pub core_s_pointer : Register
core_s_pointer = register 0x3004 (
    bits "RESERVED_0" 0xfffe0000 17
    ∷ bits "EXECUTER" 0x00010000 16
    ∷ bits "RESERVED_1" 0x0000ffc0 6
    ∷ bits "EXECUTER_PP_CLEAR" 0x00000020 5
    ∷ bits "POINTER_PP_CLEAR" 0x00000010 4
    ∷ bits "POINTER_PP_MODE" 0x00000008 3
    ∷ bits "EXECUTER_PP_EN" 0x00000004 2
    ∷ bits "POINTER_PP_EN" 0x00000002 1
    ∷ bits "POINTER" 0x00000001 0
    ∷ [])

abbrev pub core_operation_enable : Register
core_operation_enable =
    register 0x3008 (bits "RESERVED_0" 0xfffffffe 1 ∷ bits "OP_EN" 0x00000001 0 ∷ [])

abbrev pub core_mac_gating : Register
core_mac_gating =
    register 0x300c (bits "RESERVED_0" 0xf8000000 27 ∷ bits "SLCG_OP_EN" 0x07ffffff 0 ∷ [])

abbrev pub core_misc_cfg : Register
core_misc_cfg = register 0x3010 (
    bits "RESERVED_0" 0xfff00000 20
    ∷ bits "SOFT_GATING" 0x000fc000 14
    ∷ bits "RESERVED_1" 0x00003800 11
    ∷ bits "PROC_PRECISION" 0x00000700 8
    ∷ bits "RESERVED_2" 0x000000fc 2
    ∷ bits "DW_EN" 0x00000002 1
    ∷ bits "QD_EN" 0x00000001 0
    ∷ [])

abbrev pub core_dataout_size_0 : Register
core_dataout_size_0 =
    register 0x3014 (bits "DATAOUT_HEIGHT" 0xffff0000 16 ∷ bits "DATAOUT_WIDTH" 0x0000ffff 0 ∷ [])

abbrev pub core_dataout_size_1 : Register
core_dataout_size_1 =
    register 0x3018 (bits "RESERVED_0" 0xffff0000 16 ∷ bits "DATAOUT_CHANNEL" 0x0000ffff 0 ∷ [])

abbrev pub core_clip_truncate : Register
core_clip_truncate = register 0x301c (
    bits "RESERVED_0" 0xffffff80 7
    ∷ bits "ROUND_TYPE" 0x00000040 6
    ∷ bits "RESERVED_1" 0x00000020 5
    ∷ bits "CLIP_TRUNCATE" 0x0000001f 0
    ∷ [])

abbrev pub core_unit_registers : List Register
core_unit_registers =
    core_s_status ∷ core_s_pointer ∷ core_operation_enable ∷ core_mac_gating ∷ core_misc_cfg
    ∷ core_dataout_size_0 ∷ core_dataout_size_1 ∷ core_clip_truncate ∷ []
