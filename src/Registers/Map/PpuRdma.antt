-- ===== src/Registers/Map/PpuRdma.antt =====
-- The registers PPU_RDMA_* of npu/driver/rocket_registers.h: the pooling unit's read DMA.
use rk3588_npu_gpu.Base.{List, [], ◌∷◌}
use rk3588_npu_gpu.Registers.{Register, register, bits}

abbrev pub ppu_rdma_rdma_s_status : Register
ppu_rdma_rdma_s_status = register 0x7000 (
    bits "RESERVED_0" 0xfffc0000 18
    ∷ bits "STATUS_1" 0x00030000 16
    ∷ bits "RESERVED_1" 0x0000fffc 2
    ∷ bits "STATUS_0" 0x00000003 0
    ∷ [])

abbrev pub ppu_rdma_rdma_s_pointer : Register
ppu_rdma_rdma_s_pointer = register 0x7004 (
    bits "RESERVED_0" 0xfffe0000 17
    ∷ bits "EXECUTER" 0x00010000 16
    ∷ bits "RESERVED_1" 0x0000ffc0 6
    ∷ bits "EXECUTER_PP_CLEAR" 0x00000020 5
    ∷ bits "POINTER_PP_CLEAR" 0x00000010 4
    ∷ bits "POINTER_PP_MODE" 0x00000008 3
    ∷ bits "EXECUTER_PP_EN" 0x00000004 2
    ∷ bits "POINTER_PP_EN" 0x00000002 1
    ∷ bits "POINTER" 0x00000001 0
    ∷ [])

abbrev pub ppu_rdma_rdma_operation_enable : Register
ppu_rdma_rdma_operation_enable =
    register 0x7008 (bits "RESERVED_0" 0xfffffffe 1 ∷ bits "OP_EN" 0x00000001 0 ∷ [])

abbrev pub ppu_rdma_rdma_cube_in_width : Register
ppu_rdma_rdma_cube_in_width =
    register 0x700c (bits "RESERVED_0" 0xffffe000 13 ∷ bits "CUBE_IN_WIDTH" 0x00001fff 0 ∷ [])

abbrev pub ppu_rdma_rdma_cube_in_height : Register
ppu_rdma_rdma_cube_in_height =
    register 0x7010 (bits "RESERVED_0" 0xffffe000 13 ∷ bits "CUBE_IN_HEIGHT" 0x00001fff 0 ∷ [])

abbrev pub ppu_rdma_rdma_cube_in_channel : Register
ppu_rdma_rdma_cube_in_channel =
    register 0x7014 (bits "RESERVED_0" 0xffffe000 13 ∷ bits "CUBE_IN_CHANNEL" 0x00001fff 0 ∷ [])

abbrev pub ppu_rdma_rdma_src_base_addr : Register
ppu_rdma_rdma_src_base_addr = register 0x701c (bits "SRC_BASE_ADDR" 0xffffffff 0 ∷ [])

abbrev pub ppu_rdma_rdma_src_line_stride : Register
ppu_rdma_rdma_src_line_stride =
    register 0x7024 (bits "SRC_LINE_STRIDE" 0xfffffff0 4 ∷ bits "RESERVED_0" 0x0000000f 0 ∷ [])

abbrev pub ppu_rdma_rdma_src_surf_stride : Register
ppu_rdma_rdma_src_surf_stride =
    register 0x7028 (bits "SRC_SURF_STRIDE" 0xfffffff0 4 ∷ bits "RESERVED_0" 0x0000000f 0 ∷ [])

abbrev pub ppu_rdma_rdma_data_format : Register
ppu_rdma_rdma_data_format =
    register 0x7030 (bits "RESERVED_0" 0xfffffffc 2 ∷ bits "IN_PRECISION" 0x00000003 0 ∷ [])

abbrev pub ppu_rdma_registers : List Register
ppu_rdma_registers =
    ppu_rdma_rdma_s_status ∷ ppu_rdma_rdma_s_pointer ∷ ppu_rdma_rdma_operation_enable
    ∷ ppu_rdma_rdma_cube_in_width ∷ ppu_rdma_rdma_cube_in_height ∷ ppu_rdma_rdma_cube_in_channel
    ∷ ppu_rdma_rdma_src_base_addr ∷ ppu_rdma_rdma_src_line_stride ∷ ppu_rdma_rdma_src_surf_stride
    ∷ ppu_rdma_rdma_data_format ∷ []
