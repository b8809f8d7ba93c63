-- ===== src/Job/Words.antt =====
-- The words that `rocket_job_hw_submit` writes, against the register map.
use rk3588_npu_gpu.Base.{◌≡◌, refl, [], ◌∷◌}
use rk3588_npu_gpu.Registers.{decode}
use rk3588_npu_gpu.Registers.Map.Pc.{pc_task_con}
use rk3588_npu_gpu.Job.{task_con}

task_con_fields : decode pc_task_con.fields task_con ≡ 1 ∷ 1 ∷ 1 ∷ 1 ∷ []
task_con_fields = refl
