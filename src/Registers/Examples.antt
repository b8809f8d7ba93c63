-- ===== src/Registers/Examples.antt =====
-- The round trips at PC_TASK_CON, the word that starts a task.
use rk3588_npu_gpu.Base.{◌≡◌, ◌<◌, ◌^◌, refl, ℕ, List, [], ◌∷◌, arith}
use rk3588_npu_gpu.Registers.{compose, decode}
use rk3588_npu_gpu.Registers.Map.Pc.{pc_task_con}
use rk3588_npu_gpu.Registers.RoundTrip.{register_encodes-decodes, register_decodes-encodes}

register_encodes-decodes_example :
    compose pc_task_con.fields (decode pc_task_con.fields 0x7001) ≡ 0x7001
register_encodes-decodes_example = register_encodes-decodes 9 0x7001 pc_task_con refl (omega arith)

-- RESERVED_0, TASK_COUNT_CLEAR, TASK_PP_EN, TASK_NUMBER.
abbrev values : List ℕ
values = 1 ∷ 1 ∷ 1 ∷ 1 ∷ []

register_decodes-encodes_example :
    (compose pc_task_con.fields values < 2 ^ 32)
    × (decode pc_task_con.fields (compose pc_task_con.fields values) ≡ values)
register_decodes-encodes_example = register_decodes-encodes 9 pc_task_con values refl (omega arith)
