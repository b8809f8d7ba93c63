-- ===== src/Registers/Map/Global.antt =====
-- The registers GLOBAL_* of npu/driver/rocket_registers.h: the enable mask of all units.
use rk3588_npu_gpu.Base.{List, [], ◌∷◌}
use rk3588_npu_gpu.Registers.{Register, register, bits}

abbrev pub global_operation_enable : Register
global_operation_enable = register 0xf008 (
    bits "RESERVED_0" 0xffffff80 7
    ∷ bits "PPU_RDMA_OP_EN" 0x00000040 6
    ∷ bits "PPU_OP_EN" 0x00000020 5
    ∷ bits "DPU_RDMA_OP_EN" 0x00000010 4
    ∷ bits "DPU_OP_EN" 0x00000008 3
    ∷ bits "CORE_OP_EN" 0x00000004 2
    ∷ bits "RESERVED_1" 0x00000002 1
    ∷ bits "CNA_OP_EN" 0x00000001 0
    ∷ [])

abbrev pub global_registers : List Register
global_registers = global_operation_enable ∷ []
