-- ===== src/Devfreq/Init.antt =====
-- `rocket_devfreq_init` of npu/driver/rocket_devfreq.c: registration with devfreq by core `i`.
pub mod Guards
pub mod Sound
pub mod Covered
pub mod Moments
pub mod Volts
pub mod Slots
use rk3588_npu_gpu.Base.{
  ℕ, false, not, none, some, is_some, List, [], ◌∷◌, ℤ, ◌==◌, is_neg, is_zero, if◌then◌else◌,
}
use rk3588_npu_gpu.Busy.{start_first_window}
use rk3588_npu_gpu.Devfreq.Kernel.{
  Env, put_autosuspend, mark_last_busy, get_regulator, opp_remove_all, opp_set_config, opp_add,
  add_device, cooling_register,
}
use rk3588_npu_gpu.Devfreq.{State, emit, read_rate, rocket_safe_rate, resume_and_get}
use rk3588_npu_gpu.Devfreq.Lifecycle.{rocket_df_arm_notifiers}

abbrev pub steps : List ℕ
steps =
    300_000_000 ∷ 400_000_000 ∷ 500_000_000 ∷ 600_000_000 ∷ 700_000_000 ∷ 800_000_000 ∷ 900_000_000
    ∷ 1_000_000_000 ∷ []

module _ (e : Env) where
  -- `dev_pm_opp_add`, which is given no voltage.
  abbrev pub add_opp : ℕ → State → ℤ × State
  add_opp rate s = let ret = e.opp_add_ret s.log rate in (ret, emit (opp_add rate ret) s)

  -- The loop over `steps`, whose errors are only reported.
  unfoldable pub add_opps : List ℕ → State → State
  add_opps [] s = s
  add_opps (r ∷ rs) s = add_opps rs (add_opp r s).1

  -- From the registration with devfreq on.
  unfoldable pub add_devfreq : State → State
  add_devfreq s =
      let ret = e.device_ret s.log in
      let s = emit (add_device ret) s in
      if is_neg ret
      then record s { core = none }
      else let s = rocket_df_arm_notifiers e s in
        let ret = e.cooling_ret s.log in
        record (emit (cooling_register ret) s) { cdev = not (is_neg ret) }

  -- From the choice of the owner on; `now` is the time.
  unfoldable pub take_ownership : ℕ → ℕ → State → State
  take_ownership i now s = add_devfreq (record s {
    busy = start_first_window now s.busy;
    core = some i;
    req_rate = rocket_safe_rate;
    refs_held = false;
  })

  -- From the regulator on, where the clock has been read at the safe rate.
  unfoldable pub set_up_opps : ℕ → ℕ → State → State
  set_up_opps i now s =
      let reg = e.regulator_ret s.log in
      let s = record (emit (get_regulator reg) s) { reg = not (is_neg reg) } in
      let s = emit opp_remove_all s in
      let config = e.config_ret s.log in
      let s = emit (opp_set_config config) s in
      if not (is_zero config)
      then s
      else let (ret, s) = add_opp rocket_safe_rate s in
        if not (is_zero ret) then s else take_ownership i now (add_opps steps s)

  unfoldable pub rocket_devfreq_init : ℕ → ℕ → State → State
  rocket_devfreq_init i now s =
      if is_some s.core
      then s
      else let (ret, s) = resume_and_get e i s in
        if is_neg ret
        then s
        else let (cur, s) = read_rate e i s in
          let s = emit (put_autosuspend i) (emit (mark_last_busy i) s) in
          if not (cur == rocket_safe_rate) then s else set_up_opps i now s
