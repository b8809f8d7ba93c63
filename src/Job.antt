-- ===== src/Job.antt =====
-- npu/driver/rocket_job.c from the scheduler's side: one NPU core that runs jobs, the registers
-- that it writes, its interrupt, and its reset. Jobs are shared between the scheduler and the core,
-- so they live in a store and a pointer to a job is its number there. The kernel's answers are an
-- `Env`, a function of the calls so far; the calls, register writes included, are the log, newest
-- first.
pub mod Busy
pub mod Progress
pub mod Words
pub mod Bounds
pub mod Examples
use Prim.Native.Nat.{bit_or, bit_and}
use rk3588_npu_gpu.Base.{
  ℕ, zero, suc, ◌+◌, ◌-◌, ◌*◌, ◌/◌, ◌%◌, ◌^◌, Bool, true, false, ◌&&◌, ◌||◌, not, Option, none,
  some, List, [], ◌∷◌, ℤ, pos, ltb, ◌==◌, is_neg, if◌then◌else◌, get_elem?, modify, enomem,
}
use rk3588_npu_gpu.Registers.{field, encode, u32}

-- The three register windows of a core; the address in a write is the offset in the window.
pub data Window : Type 0 where
  pc cna core : Window

-- The scheduler's and the interrupt's calls of the kernel, and the writes to the registers. A fence
-- is known by its sequence number.
pub data Event : Type 0 where
  write : (window : Window) (offset value : ℕ) → Event
  submitted : (regcmd index : ℕ) → Event
  bad_task : Event
  fence_create : (seqno : ℕ) → Event
  fence_put : (seqno : ℕ) → Event
  fence_signal : (fence : Option ℕ) → Event
  pm_get : (ret : ℤ) → Event
  pm_put_autosuspend : Event
  pm_put_noidle : Event
  pm_mark_last_busy : Event
  iommu_attach : (ret : ℤ) → Event
  iommu_detach : Event
  group_get : Event
  record_busy : Event
  record_idle : Event
  sched_stop : Event
  sched_start : Event
  reset_assert : Event
  reset_deassert : Event

abbrev pub Log : Type 0
Log = List Event

pub record Env : Type 0 where
  pub fence_alloc : Log → Bool
  pub pm_ret : Log → ℤ
  pub attach_ret : Log → ℤ

-- `struct rocket_task` and the fields of `struct rocket_job` that matter here; `error` is that of
-- the scheduler's finished fence.
pub record Task : Type 0 where
  pub regcmd : ℕ
  pub regcmd_count : ℕ

pub record Job : Type 0 where
  pub tasks : List Task
  pub task_count : ℕ
  pub next_task_idx : ℕ
  pub done_fence : Option ℕ
  pub error : Bool

-- `struct rocket_core`, with the store of jobs.
pub record Core : Type 0 where
  pub index : ℕ
  pub reset_pending : Bool
  pub in_flight_job : Option ℕ
  pub emit_seqno : ℕ
  pub jobs : List Job
  pub log : Log

abbrev pub emit : Event → Core → Core
emit v c = record c { log = v ∷ c.log }

-- `writel` takes the low 32 bits.
abbrev pub pc_writel : ℕ → ℕ → Core → Core
pc_writel offset value = emit (write pc offset (u32 value))

-- The three encoders of S_POINTER that are used, the same in CNA and in CORE, and the bits on top.
abbrev pub s_pointer : ℕ → ℕ
s_pointer index =
    bit_or
      (bit_or (bit_or (encode (field 0x00000002 1) 1) (encode (field 0x00000004 2) 1))
        (encode (field 0x00000008 3) 1))
      (u32 (0x10000000 * index))

-- PC_REGISTER_AMOUNTS_PC_DATA_AMOUNT ((regcmd_count + 1) / 2 - 1), on u32.
abbrev pub data_amount : ℕ → ℕ
data_amount count = encode (field 0x0000ffff 0) (u32 (u32 (count + 1) / 2 + 2 ^ 32 - 1))

-- RESERVED_0 (1), TASK_COUNT_CLEAR (1), TASK_NUMBER (1) and TASK_PP_EN (1) of PC_TASK_CON.
abbrev pub task_con : ℕ
task_con =
    bit_or
      (bit_or (bit_or (encode (field 0xffffc000 14) 1) (encode (field 0x00002000 13) 1))
        (encode (field 0x00000fff 0) 1))
      (encode (field 0x00001000 12) 1)

-- The register writes for one task, from `rocket_pc_writel (core, BASE_ADDRESS, 0x1)` on.
pub start_task : Task → Core → Core
start_task t c =
    let c = pc_writel 0x10 0x1 c in
    let c = emit (write cna (0x1004 - 0x1000) (s_pointer c.index)) c in
    let c = emit (write core (0x3004 - 0x3000) (s_pointer c.index)) c in
    let c = pc_writel 0x10 t.regcmd c in
    let c = pc_writel 0x14 (data_amount t.regcmd_count) c in
    let c = pc_writel 0x20 (bit_or 0x100 0x200) c in
    let c = pc_writel 0x24 (bit_or 0x100 0x200) c in
    let c = pc_writel 0x30 task_con c in
    let c = pc_writel 0x34 (encode (field 0xfffffff0 4) 0x0) c in
    let c = pc_writel 0x08 (encode (field 0x00000001 0) 1) c in emit (submitted t.regcmd c.index) c

abbrev pub next_task : Job → Option Task
next_task j = get_elem? j.tasks j.next_task_idx

abbrev pub advance : Job → Job
advance j = record j { next_task_idx = suc j.next_task_idx }

-- A task outside the array is the event `bad_task`.
pub start_next : Option Task → Core → Core
start_next none c = emit bad_task c
start_next (some t) c = start_task t c

-- `rocket_job_hw_submit` for job `i`, whose content is `j`.
pub rocket_job_hw_submit : ℕ → Job → Core → Core
rocket_job_hw_submit i j c =
    if c.reset_pending
    then c
    else start_next (next_task j) (record c { jobs = modify advance i c.jobs })

-- What `rocket_job_run` returns to the scheduler: NULL, an error pointer, or the fence.
pub data RunResult : Type 0 where
  null : RunResult
  err : ℤ → RunResult
  fence : ℕ → RunResult

abbrev pub with_fence : ℕ → Job → Job
with_fence f j = record j { done_fence = some f }

abbrev pub put_old_fence : Option ℕ → Core → Core
put_old_fence none c = c
put_old_fence (some f) c = emit (fence_put f) c

-- `rocket_fence_create` with the sequence number `f`, and the fence put in place of an older one in
-- job `i`, whose content is `j`.
pub attach_fence : ℕ → ℕ → Job → Core → Core
attach_fence f i j c =
    let c' = put_old_fence j.done_fence (record (emit (fence_create f) c) { emit_seqno = f }) in
    record c' { jobs = modify (with_fence f) i c'.jobs }

module _ (e : Env) where
  -- From the runtime PM on, with the fence `f` made for job `i`.
  pub power_and_submit : ℕ → ℕ → Job → Core → RunResult × Core
  power_and_submit f i j c =
      let ret = e.pm_ret c.log in
      let c = emit (pm_get ret) c in
      if is_neg ret
      then (fence f, c)
      else let ret = e.attach_ret c.log in
        let c = emit (iommu_attach ret) c in
        if is_neg ret then (fence f, c) else (
          fence f,
          rocket_job_hw_submit i j (emit record_busy (record c { in_flight_job = some i })),
        )

  pub run_with_fence : ℕ → Job → Core → RunResult × Core
  run_with_fence i j c =
      if not (e.fence_alloc c.log)
      then (err enomem, c)
      else let f = suc c.emit_seqno in power_and_submit f i (with_fence f j) (attach_fence f i j c)

  pub run_job : ℕ → Job → Core → RunResult × Core
  run_job i j c =
      if j.error || j.next_task_idx == j.task_count then (null, c) else run_with_fence i j c

abbrev pub run_found : Env → ℕ → Option Job → Core → RunResult × Core
run_found e i none c = (null, c)
run_found e i (some j) c = run_job e i j c

-- `rocket_job_run`; the scheduler passes a job that exists.
pub rocket_job_run : Env → ℕ → Core → RunResult × Core
rocket_job_run e i c = run_found e i (get_elem? c.jobs i) c

-- `rocket_job_handle_irq` for the job in flight. Here the group to detach is looked up, which takes a
-- reference on it.
pub finish_or_continue : ℕ → Job → Core → Core
finish_or_continue i j c =
    if ltb j.next_task_idx j.task_count
    then rocket_job_hw_submit i j c
    else emit record_idle
        (record (emit pm_put_autosuspend
          (emit (fence_signal j.done_fence) (emit iommu_detach (emit group_get c)))) {
            in_flight_job = none;
          })

abbrev pub irq_found : ℕ → Option Job → Core → Core
irq_found i none c = c
irq_found i (some j) c = finish_or_continue i j c

abbrev pub irq_in_flight : Option ℕ → Core → Core
irq_in_flight none c = c
irq_in_flight (some i) c = irq_found i (get_elem? c.jobs i) c

-- The device is marked busy and the interrupt acknowledged.
abbrev pub acknowledge : Core → Core
acknowledge c = pc_writel 0x24 0x1ffff (pc_writel 0x08 0x0 (emit pm_mark_last_busy c))

pub rocket_job_handle_irq : Core → Core
rocket_job_handle_irq c = irq_in_flight c.in_flight_job (acknowledge c)

abbrev pub is_busy : Option ℕ → Bool
is_busy none = false
is_busy (some i) = true

-- `rocket_core_reset` of rocket_core.c.
pub rocket_core_reset : Core → Core
rocket_core_reset c = emit reset_deassert (emit reset_assert c)

pub rocket_reset : Core → Core
unfolding rocket_core_reset
rocket_reset c =
    if not c.reset_pending
    then c
    else let c = emit sched_stop c in
      let c = if is_busy c.in_flight_job then emit pm_put_noidle c else c in
      let c = emit record_idle (record (emit iommu_detach c) { in_flight_job = none }) in
      let c = rocket_core_reset c in emit sched_start (record c { reset_pending = false })

pub rocket_job_timedout : Core → Core
unfolding rocket_reset
rocket_job_timedout c = rocket_reset (record c { reset_pending = true })

-- `rocket_job_irq_handler`: whether the thread is woken; `status` is INTERRUPT_RAW_STATUS.
pub rocket_job_irq_handler : ℕ → Core → Bool × Core
rocket_job_irq_handler status c =
    if bit_and status 0x100 == 0 && bit_and status 0x200 == 0
    then (false, c)
    else (true, pc_writel 0x20 0x0 c)
