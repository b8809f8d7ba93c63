-- ===== src/Registers/Map/Pc.antt =====
-- The registers PC_* of npu/driver/rocket_registers.h: the program counter unit.
use rk3588_npu_gpu.Base.{List, [], ◌∷◌}
use rk3588_npu_gpu.Registers.{Register, register, bits, flag}

abbrev pub pc_version : Register
pc_version = register 0x0000 (bits "VERSION" 0xffffffff 0 ∷ [])

abbrev pub pc_version_num : Register
pc_version_num = register 0x0004 (bits "VERSION_NUM" 0xffffffff 0 ∷ [])

abbrev pub pc_operation_enable : Register
pc_operation_enable =
    register 0x0008 (bits "RESERVED_0" 0xfffffffe 1 ∷ bits "OP_EN" 0x00000001 0 ∷ [])

abbrev pub pc_base_address : Register
pc_base_address = register 0x0010 (
    bits "PC_SOURCE_ADDR" 0xfffffff0 4
    ∷ bits "RESERVED_0" 0x0000000e 1
    ∷ bits "PC_SEL" 0x00000001 0
    ∷ [])

abbrev pub pc_register_amounts : Register
pc_register_amounts =
    register 0x0014 (bits "RESERVED_0" 0xffff0000 16 ∷ bits "PC_DATA_AMOUNT" 0x0000ffff 0 ∷ [])

abbrev pub pc_interrupt_mask : Register
pc_interrupt_mask = register 0x0020 (
    bits "RESERVED_0" 0xffffc000 14
    ∷ flag "DMA_WRITE_ERROR" 0x00002000
    ∷ flag "DMA_READ_ERROR" 0x00001000
    ∷ flag "PPU_1" 0x00000800
    ∷ flag "PPU_0" 0x00000400
    ∷ flag "DPU_1" 0x00000200
    ∷ flag "DPU_0" 0x00000100
    ∷ flag "CORE_1" 0x00000080
    ∷ flag "CORE_0" 0x00000040
    ∷ flag "CNA_CSC_1" 0x00000020
    ∷ flag "CNA_CSC_0" 0x00000010
    ∷ flag "CNA_WEIGHT_1" 0x00000008
    ∷ flag "CNA_WEIGHT_0" 0x00000004
    ∷ flag "CNA_FEATURE_1" 0x00000002
    ∷ flag "CNA_FEATURE_0" 0x00000001
    ∷ [])

abbrev pub pc_interrupt_clear : Register
pc_interrupt_clear = register 0x0024 (
    bits "RESERVED_0" 0xffffc000 14
    ∷ flag "DMA_WRITE_ERROR" 0x00002000
    ∷ flag "DMA_READ_ERROR" 0x00001000
    ∷ flag "PPU_1" 0x00000800
    ∷ flag "PPU_0" 0x00000400
    ∷ flag "DPU_1" 0x00000200
    ∷ flag "DPU_0" 0x00000100
    ∷ flag "CORE_1" 0x00000080
    ∷ flag "CORE_0" 0x00000040
    ∷ flag "CNA_CSC_1" 0x00000020
    ∷ flag "CNA_CSC_0" 0x00000010
    ∷ flag "CNA_WEIGHT_1" 0x00000008
    ∷ flag "CNA_WEIGHT_0" 0x00000004
    ∷ flag "CNA_FEATURE_1" 0x00000002
    ∷ flag "CNA_FEATURE_0" 0x00000001
    ∷ [])

abbrev pub pc_interrupt_status : Register
pc_interrupt_status = register 0x0028 (
    bits "RESERVED_0" 0xffffc000 14
    ∷ flag "DMA_WRITE_ERROR" 0x00002000
    ∷ flag "DMA_READ_ERROR" 0x00001000
    ∷ flag "PPU_1" 0x00000800
    ∷ flag "PPU_0" 0x00000400
    ∷ flag "DPU_1" 0x00000200
    ∷ flag "DPU_0" 0x00000100
    ∷ flag "CORE_1" 0x00000080
    ∷ flag "CORE_0" 0x00000040
    ∷ flag "CNA_CSC_1" 0x00000020
    ∷ flag "CNA_CSC_0" 0x00000010
    ∷ flag "CNA_WEIGHT_1" 0x00000008
    ∷ flag "CNA_WEIGHT_0" 0x00000004
    ∷ flag "CNA_FEATURE_1" 0x00000002
    ∷ flag "CNA_FEATURE_0" 0x00000001
    ∷ [])

abbrev pub pc_interrupt_raw_status : Register
pc_interrupt_raw_status = register 0x002c (
    bits "RESERVED_0" 0xffffc000 14
    ∷ flag "DMA_WRITE_ERROR" 0x00002000
    ∷ flag "DMA_READ_ERROR" 0x00001000
    ∷ flag "PPU_1" 0x00000800
    ∷ flag "PPU_0" 0x00000400
    ∷ flag "DPU_1" 0x00000200
    ∷ flag "DPU_0" 0x00000100
    ∷ flag "CORE_1" 0x00000080
    ∷ flag "CORE_0" 0x00000040
    ∷ flag "CNA_CSC_1" 0x00000020
    ∷ flag "CNA_CSC_0" 0x00000010
    ∷ flag "CNA_WEIGHT_1" 0x00000008
    ∷ flag "CNA_WEIGHT_0" 0x00000004
    ∷ flag "CNA_FEATURE_1" 0x00000002
    ∷ flag "CNA_FEATURE_0" 0x00000001
    ∷ [])

abbrev pub pc_task_con : Register
pc_task_con = register 0x0030 (
    bits "RESERVED_0" 0xffffc000 14
    ∷ bits "TASK_COUNT_CLEAR" 0x00002000 13
    ∷ bits "TASK_PP_EN" 0x00001000 12
    ∷ bits "TASK_NUMBER" 0x00000fff 0
    ∷ [])

abbrev pub pc_task_dma_base_addr : Register
pc_task_dma_base_addr =
    register 0x0034 (bits "DMA_BASE_ADDR" 0xfffffff0 4 ∷ bits "RESERVED_0" 0x0000000f 0 ∷ [])

abbrev pub pc_task_status : Register
pc_task_status =
    register 0x003c (bits "RESERVED_0" 0xf0000000 28 ∷ bits "TASK_STATUS" 0x0fffffff 0 ∷ [])

abbrev pub pc_registers : List Register
pc_registers =
    pc_version ∷ pc_version_num ∷ pc_operation_enable ∷ pc_base_address ∷ pc_register_amounts
    ∷ pc_interrupt_mask ∷ pc_interrupt_clear ∷ pc_interrupt_status ∷ pc_interrupt_raw_status
    ∷ pc_task_con ∷ pc_task_dma_base_addr ∷ pc_task_status ∷ []
