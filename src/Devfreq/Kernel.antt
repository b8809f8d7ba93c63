-- ===== src/Devfreq/Kernel.antt =====
-- What npu/driver/rocket_devfreq.c calls of the kernel: clk, runtime PM, genpd, OPP, regulator,
-- devfreq and thermal. None of it is part of the driver, so its answers are parameters.
use rk3588_npu_gpu.Base.{ℕ, Bool, List, ℤ}

-- A call with its arguments and its answer. A core is a slot number; the calls on a clock go
-- through `clks[2]` of that core, the calls on a device through its `dev`.
pub data Event : Type 0 where
  get_rate : (core rate : ℕ) → Event
  set_rate : (core rate : ℕ) (ret : ℤ) → Event
  resume : (core : ℕ) (ret : ℤ) → Event
  put : (core : ℕ) → Event
  mark_last_busy : (core : ℕ) → Event
  put_autosuspend : (core : ℕ) → Event
  get_voltage : (uv : ℤ) → Event
  recommended_opp : (freq : ℕ) (ret : ℤ) (found : ℕ) → Event
  add_notifier : (core : ℕ) (ret : ℤ) → Event
  remove_notifier : (core : ℕ) (ret : ℤ) → Event
  get_regulator : (ret : ℤ) → Event
  opp_remove_all : Event
  opp_set_config : (ret : ℤ) → Event
  opp_add : (rate : ℕ) (ret : ℤ) → Event
  add_device : (ret : ℤ) → Event
  cooling_register : (ret : ℤ) → Event
  cooling_unregister : Event

abbrev pub Log : Type 0
Log = List Event

-- The answers, as functions of all the calls before. `powers_on` says whether a resume finds the
-- power domain off; `opp_ret` and `opp_freq` are what `devfreq_recommended_opp` returns and leaves
-- in its argument; a call that returns a pointer answers 0 or the error of an error pointer.
pub record Env : Type 0 where
  pub rate : Log → ℕ → ℕ
  pub set_ret : Log → ℕ → ℕ → ℤ
  pub powers_on : Log → ℕ → Bool
  pub resume_ret : Log → ℕ → ℤ
  pub suspended : Log → ℕ → Bool
  pub voltage : Log → ℤ
  pub opp_ret : Log → ℕ → ℤ
  pub opp_freq : Log → ℕ → ℕ
  pub add_ret : Log → ℕ → ℤ
  pub remove_ret : Log → ℕ → ℤ
  pub regulator_ret : Log → ℤ
  pub config_ret : Log → ℤ
  pub opp_add_ret : Log → ℕ → ℤ
  pub device_ret : Log → ℤ
  pub cooling_ret : Log → ℤ
