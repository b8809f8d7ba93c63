-- ===== src/System.antt =====
-- The driver from probe to removal: npu/driver/rocket_drv.c with the set-up of the device and of a
-- core (rocket_device.c, rocket_core.c), over the state of rocket_devfreq.c. The platform bus runs
-- probes and removals one after another, so each of them is one step.
pub mod Counts
pub mod Whole
pub mod Probe
pub mod Undo
pub mod Run
pub mod Fast
pub mod Moments
pub mod Volts
pub mod Power
pub mod Examples
use rk3588_npu_gpu.Base.{
  ℕ, zero, suc, ◌-◌, Bool, true, false, not, none, some, List, [], ◌∷◌, map, replicate, ℤ, pos,
  length, is_neg, is_zero, ◌==◌, if◌then◌else◌, enomem, enxio, ebusy, enodev,
}
use rk3588_npu_gpu.Devfreq.Kernel.{Env, put_autosuspend, mark_last_busy}
use rk3588_npu_gpu.Devfreq.{
  rocket_safe_rate, Action, Slot, State, dev_of, emit, resume_and_get, rocket_df_notify,
}
use rk3588_npu_gpu.Devfreq.Bound.{bind_from, unbind_from, first_free}
use rk3588_npu_gpu.Devfreq.Target.{rocket_devfreq_target}
use rk3588_npu_gpu.Busy.{cleared}
use rk3588_npu_gpu.Devfreq.Lifecycle.{
  disarmed, rocket_devfreq_suspend, rocket_devfreq_core_removed, rocket_devfreq_core_added,
  rocket_devfreq_fini, rocket_devfreq_shutdown,
}
use rk3588_npu_gpu.Devfreq.Init.{rocket_devfreq_init}

-- What is called for the clocks of a core, all of them at once.
pub data ClockCall : Type 0 where
  prepare_enable : (core : ℕ) (ret : ℤ) → ClockCall
  disable_unprepare : (core : ℕ) → ClockCall

-- `device` says whether `rdev` points to a device, `num_cores` is its field, and its `cores` are the
-- slots of `df`. Without a device the slots stand for the nodes of the device tree. `clocks` are the
-- calls for the clocks, newest first.
pub record Driver : Type 0 where
  pub device : Bool
  pub num_cores : ℕ
  pub df : State
  pub clocks : List ClockCall

-- What the rest of the kernel answers while a core is probed: whether the group of resources is
-- opened, the return of `rocket_device_init`, and that of `rocket_core_init` up to its resume; `now`
-- is the time.
pub record Answers : Type 0 where
  pub group : Bool
  pub device_ret : ℤ
  pub ready_ret : ℤ
  pub now : ℕ

-- The state of the module when it is loaded, for a device tree with `n` cores: all zero, as static
-- data is, but for the rate on record. `rocket_df_nb` has room for four blocks.
abbrev pub loaded : ℕ → Driver
loaded n = record {
  device = false;
  num_cores = 0;
  df = record {
    core = none;
    req_rate = rocket_safe_rate;
    refs_held = false;
    unsafe = false;
    reg = false;
    cdev = false;
    notifiers = replicate 4 disarmed;
    slots = replicate n (record { dev = false; rdev = 0 });
    busy = cleared;
    log = [];
  };
  clocks = [];
}

abbrev pub with_slots : List Slot → Driver → Driver
with_slots cs s = record s { df = record s.df { slots = cs } }

abbrev pub with_df : State → Driver → Driver
with_df d s = record s { df = d }

abbrev pub empty_slot : Slot → Slot
empty_slot c = record { dev = false; rdev = 0 }

-- The first part of `rocket_probe`. A new device has `max_cores` empty slots.
pub open_device : Answers → Driver → ℤ × Driver
open_device a s =
    if s.device
    then (pos 0, s)
    else if not a.group
    then (enomem, s)
    else if is_neg a.device_ret
    then (a.device_ret, s)
    else (pos 0, with_slots (map empty_slot s.df.slots) (record s { device = true; num_cores = 0 }))

-- What `rocket_remove` and a failed `rocket_probe` do at their end.
pub release_slot : ℕ → Driver → Driver
release_slot i s =
    let s = with_slots (unbind_from i 0 s.df.slots) (record s { num_cores = s.num_cores - 1 }) in
    if s.num_cores == 0 then record s { device = false } else s

pub claim_slot : ℕ → Driver → Driver
claim_slot i s = with_slots (bind_from i 0 s.df.slots) (record s { num_cores = suc s.num_cores })

abbrev pub rocket_job_is_idle : ℕ → Bool
rocket_job_is_idle credits = if not (credits == 0) then false else true

module _ (e : Env) where
  -- `rocket_core_init` from its resume on. Where that fails, `rocket_core_fini` touches nothing of
  -- this state, and neither does it in `rocket_remove`.
  pub wake_core : ℕ → ℤ → State → ℤ × State
  wake_core i ready_ret d =
      if not (is_zero ready_ret)
      then (ready_ret, d)
      else let (ret, d) = resume_and_get e i d in
        if not (is_zero ret)
        then (ret, d)
        else (pos 0, emit (put_autosuspend i) (emit (mark_last_busy i) d))

  -- `rocket_probe` once slot `i` is claimed.
  pub start_core : ℕ → Answers → Driver → ℤ × Driver
  start_core i a s =
      let (ret, d) = wake_core i a.ready_ret s.df in
      if is_zero ret
      then (
        pos 0,
        with_df
            (if i == 0
              then rocket_devfreq_init e i a.now d
              else rocket_devfreq_core_added e (some i) d)
            s,
      )
      else (ret, release_slot i (with_df d s))

  pub rocket_probe : Answers → Driver → ℤ × Driver
  rocket_probe a s =
      let (ret, s) = open_device a s in
      if is_neg ret
      then (ret, s)
      else let i = first_free s.df.slots in
        if i == length s.df.slots then (enxio, s) else start_core i a (claim_slot i s)

  -- The calls for the core that `find_core_for_dev` finds; without one they do nothing, or fail.
  pub rocket_remove : ℕ → Driver → Driver
  rocket_remove i s =
      let d = rocket_devfreq_core_removed e (some i) s.df in
      let d = rocket_devfreq_fini e (some i) d in
      if dev_of s.df.slots i then release_slot i (with_df d s) else s

  pub rocket_platform_shutdown : ℕ → Driver → Driver
  rocket_platform_shutdown i s =
      if dev_of s.df.slots i then with_df (rocket_devfreq_shutdown e (some i) s.df) s else s

  -- `credits` is the scheduler's `credit_count`.
  pub rocket_device_runtime_suspend : ℕ → ℕ → Driver → ℤ × Driver
  rocket_device_runtime_suspend i credits s =
      let (ret, d) = rocket_devfreq_suspend e (some i) s.df in
      if not (dev_of s.df.slots i)
      then (enodev, s)
      else if not (rocket_job_is_idle credits)
      then (ebusy, s)
      else if not (is_zero ret)
      then (ret, with_df d s)
      else (pos 0, record (with_df d s) { clocks = disable_unprepare i ∷ s.clocks })

-- `enable_ret` is what `clk_bulk_prepare_enable` returns.
pub rocket_device_runtime_resume : ℕ → ℤ → Driver → ℤ × Driver
rocket_device_runtime_resume i enable_ret s = if not (dev_of s.df.slots i) then (enodev, s) else (
  if is_zero enable_ret then pos 0 else enable_ret,
  record s { clocks = prepare_enable i enable_ret ∷ s.clocks },
)

-- The calls that the kernel makes of the driver.
pub data Step : Type 0 where
  probe : Answers → Step
  remove : ℕ → Step
  shutdown : ℕ → Step
  runtime_suspend : (core credits : ℕ) → Step
  runtime_resume : (core : ℕ) (enable_ret : ℤ) → Step
  notify : ℕ → Action → Step
  target : ℕ → Step

module _ (e : Env) where
  pub step : Step → Driver → Driver
  step (probe a) s = (rocket_probe e a s).1
  step (remove i) s = rocket_remove e i s
  step (shutdown i) s = rocket_platform_shutdown e i s
  step (runtime_suspend i credits) s = (rocket_device_runtime_suspend e i credits s).1
  step (runtime_resume i enable_ret) s = (rocket_device_runtime_resume i enable_ret s).1
  step (notify k action) s = with_df (rocket_df_notify e k action s.df).1 s
  step (target freq) s = with_df (rocket_devfreq_target e freq s.df).state s

  pub run : List Step → Driver → Driver
  run [] s = s
  run (x ∷ xs) s = run xs (step x s)
