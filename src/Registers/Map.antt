-- ===== src/Registers/Map.antt =====
-- All registers of npu/driver/rocket_registers.h, in the order of the header.
pub mod Pc
pub mod CnaConv
pub mod CnaBuffer
pub mod CnaDcomp
pub mod CoreUnit
pub mod DpuOutput
pub mod DpuScale
pub mod DpuElementwise
pub mod DpuLut
pub mod DpuRdma
pub mod Ppu
pub mod PpuRdma
pub mod Ddma
pub mod Sdma
pub mod Global
use rk3588_npu_gpu.Base.{List, ◌++◌}
use rk3588_npu_gpu.Registers.{Register}
use Pc.{pc_registers}
use CnaConv.{cna_conv_registers}
use CnaBuffer.{cna_buffer_registers}
use CnaDcomp.{cna_dcomp_registers}
use CoreUnit.{core_unit_registers}
use DpuOutput.{dpu_output_registers}
use DpuScale.{dpu_scale_registers}
use DpuElementwise.{dpu_elementwise_registers}
use DpuLut.{dpu_lut_registers}
use DpuRdma.{dpu_rdma_registers}
use Ppu.{ppu_registers}
use PpuRdma.{ppu_rdma_registers}
use Ddma.{ddma_registers}
use Sdma.{sdma_registers}
use Global.{global_registers}

abbrev pub registers : List Register
registers =
    pc_registers
    ++ (cna_conv_registers
        ++ (cna_buffer_registers
            ++ (cna_dcomp_registers
                ++ (core_unit_registers
                    ++ (dpu_output_registers
                        ++ (dpu_scale_registers
                            ++ (dpu_elementwise_registers
                                ++ (dpu_lut_registers
                                    ++ (dpu_rdma_registers
                                        ++ (ppu_registers
                                            ++ (ppu_rdma_registers
                                                ++ (ddma_registers
                                                    ++ (sdma_registers
                                                        ++ (global_registers))))))))))))))
