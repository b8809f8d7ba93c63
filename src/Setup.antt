-- ===== src/Setup.antt =====
-- The set-up of a core and of the device, and its undoing: npu/driver/rocket_core.c,
-- npu/driver/rocket_device.c, and rocket_job_init and rocket_job_fini of npu/driver/rocket_job.c.
-- What is taken of the kernel and given back by hand is the log, newest first; what a `devm_` call
-- takes, the kernel gives back itself.
pub mod Cores
pub mod Devices
pub mod Examples
use rk3588_npu_gpu.Base.{
  ℕ, suc, Bool, true, false, not, List, [], ◌∷◌, ℤ, pos, is_neg, is_zero, if◌then◌else◌, enomem,
}

-- `group` is the IOMMU group, `pm_ref` the runtime PM reference, `drm_device` the registration.
pub data Thing : Type 0 where
  workqueue scheduler group autosuspend runtime_pm pm_ref drm_device : Thing

pub data Event : Type 0 where
  take : Thing → Event
  give : Thing → Event

abbrev pub Log : Type 0
Log = List Event

-- The kernel's answers while a core is set up; a call that returns a pointer answers 0 or the error
-- of an error pointer.
pub record Env : Type 0 where
  pub resets_ret : ℤ
  pub clks_ret : ℤ
  pub pc_iomem : ℤ
  pub cna_iomem : ℤ
  pub core_iomem : ℤ
  pub mask_ret : ℤ
  pub irq : ℤ
  pub irq_ret : ℤ
  pub wq_alloc : Bool
  pub sched_ret : ℤ
  pub resume_ret : ℤ

-- At `err_sched` the scheduler that could not be made is finished.
pub rocket_job_init : Env → Log → ℤ × Log
rocket_job_init e l =
    if is_neg e.irq
    then (e.irq, l)
    else if not (is_zero e.irq_ret)
    then (e.irq_ret, l)
    else if not e.wq_alloc
    then (enomem, l)
    else if not (is_zero e.sched_ret)
    then (e.sched_ret, give workqueue ∷ give scheduler ∷ take workqueue ∷ l)
    else (pos 0, take scheduler ∷ take workqueue ∷ l)

pub rocket_job_fini : Log → Log
rocket_job_fini l = give workqueue ∷ give scheduler ∷ l

pub rocket_core_fini : Log → Log
rocket_core_fini l = rocket_job_fini (give group ∷ give runtime_pm ∷ give autosuspend ∷ l)

-- `rocket_core_init` from the enabling of runtime PM on.
pub power_core : Env → Log → ℤ × Log
power_core e l =
    let l = take runtime_pm ∷ take autosuspend ∷ l in
    if not (is_zero e.resume_ret)
    then (e.resume_ret, rocket_core_fini l)
    else (pos 0, give pm_ref ∷ take pm_ref ∷ l)

-- From the lookup of the IOMMU group on.
pub attach_core : Env → Log → ℤ × Log
attach_core e l =
    let (ret, l) = rocket_job_init e (take group ∷ l) in
    if not (is_zero ret) then (ret, give group ∷ l) else power_core e l

pub rocket_core_init : Env → Log → ℤ × Log
rocket_core_init e l =
    if not (is_zero e.resets_ret)
    then (e.resets_ret, l)
    else if not (is_zero e.clks_ret)
    then (e.clks_ret, l)
    else if is_neg e.pc_iomem
    then (e.pc_iomem, l)
    else if is_neg e.cna_iomem
    then (e.cna_iomem, l)
    else if is_neg e.core_iomem
    then (e.core_iomem, l)
    else if not (is_zero e.mask_ret)
    then (e.mask_ret, l)
    else attach_core e l

-- The kernel's answers while the device is set up.
pub record DeviceEnv : Type 0 where
  pub alloc_ret : ℤ
  pub cores_alloc : Bool
  pub mask_ret : ℤ
  pub mutex_ret : ℤ
  pub register_ret : ℤ

-- `of_device_is_available` for each compatible node of the device tree.
pub count_available : List Bool → ℕ
count_available [] = 0
count_available (available ∷ nodes) =
    let rest = count_available nodes in if available then suc rest else rest

-- A pointer to a device with its `max_cores`, or an error pointer.
pub data Made : Type 0 where
  made : (max_cores : ℕ) (log : Log) → Made
  failed : (err : ℤ) (log : Log) → Made

pub rocket_device_init : DeviceEnv → List Bool → Log → Made
rocket_device_init e nodes l =
    if is_neg e.alloc_ret
    then failed e.alloc_ret l
    else if not e.cores_alloc
    then failed enomem l
    else if not (is_zero e.mask_ret)
    then failed e.mask_ret l
    else if not (is_zero e.mutex_ret)
    then failed enomem l
    else if not (is_zero e.register_ret)
    then failed e.register_ret l
    else made (count_available nodes) (take drm_device ∷ l)

pub rocket_device_fini : Log → Log
rocket_device_fini l = give drm_device ∷ l
