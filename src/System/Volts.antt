-- ===== src/System/Volts.antt =====
-- Over any run of the driver a high rate is asked for only on a rail that was read as high enough.
use rk3588_npu_gpu.Base.{
  ℕ, ◌<◌, ◌≡◌, refl, ap, ◌∙◌, sym, true, ◌||◌, not, some, List, [], ◌∷◌, ◌++◌, ℤ, ltb, arith,
}
use rk3588_npu_gpu.Devfreq.Kernel.{Env, Log, set_rate}
use rk3588_npu_gpu.Devfreq.{State, rocket_high_rate}
use rk3588_npu_gpu.Devfreq.Volts.{
  enough, checked, Unread, resume_and_get-Unread, rocket_df_notify-Unread,
}
use rk3588_npu_gpu.Devfreq.Target.Volts.{rocket_devfreq_target-checked}
use rk3588_npu_gpu.Devfreq.Lifecycle.{rocket_devfreq_core_removed}
use rk3588_npu_gpu.Devfreq.Lifecycle.Volts.{
  core_added-Unread, suspend-Unread, shutdown-Unread, core_removed-Unread, fini-Unread,
}
use rk3588_npu_gpu.Devfreq.Init.Volts.{rocket_devfreq_init-Unread}
use rk3588_npu_gpu.Devfreq.Bound.{first_free}
use rk3588_npu_gpu.System.{
  Driver, Answers, Step, probe, remove, shutdown, runtime_suspend, runtime_resume, notify, target,
  loaded, open_device, claim_slot, release_slot, wake_core, start_core, rocket_probe, rocket_remove,
  rocket_platform_shutdown, rocket_device_runtime_suspend, rocket_device_runtime_resume, step, run,
}

module _ (e : Env) where
  wake_core-Unread : (i : ℕ) (ready : ℤ) (d : State) → Unread d.log (wake_core e i ready d).1.log
  unfolding wake_core
  wake_core-Unread i ready d = ground (arith, resume_and_get-Unread e i d)

  start_core-Unread :
      (i : ℕ) (a : Answers) (s : Driver) → Unread s.df.log (start_core e i a s).1.df.log
  unfolding start_core release_slot
  start_core-Unread i a s =
      let d = (wake_core e i a.ready_ret s.df).1 in
      ground (
        arith,
        wake_core-Unread i a.ready_ret s.df,
        rocket_devfreq_init-Unread e i a.now d,
        core_added-Unread e (some i) d,
      )

  rocket_probe-Unread : (a : Answers) (s : Driver) → Unread s.df.log (rocket_probe e a s).1.df.log
  unfolding rocket_probe open_device claim_slot
  rocket_probe-Unread a s =
      let t = (open_device a s).1 in
      let i = first_free t.df.slots in ground (arith, start_core-Unread i a (claim_slot i t))

  rocket_remove-Unread : (i : ℕ) (s : Driver) → Unread s.df.log (rocket_remove e i s).df.log
  unfolding rocket_remove release_slot
  rocket_remove-Unread i s =
      let d = rocket_devfreq_core_removed e (some i) s.df in
      ground (arith, core_removed-Unread e (some i) s.df, fini-Unread e (some i) d)

  step-checked :
      (x : Step) (s : Driver) → checked s.df.log ≡ true → checked (step e x s).df.log ≡ true
  unfolding step rocket_platform_shutdown rocket_device_runtime_suspend rocket_device_runtime_resume
  step-checked (probe a) s h = (rocket_probe-Unread a s).requests ∙ h
  step-checked (remove i) s h = (rocket_remove-Unread i s).requests ∙ h
  step-checked (shutdown i) s h = ground (arith, shutdown-Unread e (some i) s.df)
  step-checked (runtime_suspend i credits) s h = ground (arith, suspend-Unread e (some i) s.df)
  step-checked (runtime_resume i ret) s h = ground arith
  step-checked (notify n a) s h = (rocket_df_notify-Unread e n a s.df).requests ∙ h
  step-checked (target freq) s h = rocket_devfreq_target-checked e freq s.df h

  run-checked :
      (xs : List Step) (s : Driver) → checked s.df.log ≡ true → checked (run e xs s).df.log ≡ true
  unfolding run
  run-checked [] s h = h
  run-checked (x ∷ xs) s h = run-checked xs (step e x s) (step-checked x s h)

-- An earlier request in a checked history.
checked-before :
    (l₂ l : Log) (i r : ℕ) (ret : ℤ)
    → checked (l₂ ++ set_rate i r ret ∷ l) ≡ true
    → (not (ltb rocket_high_rate r) || enough l) ≡ true
checked-before [] l i r ret h = ground arith
checked-before (v ∷ l₂) l i r ret h = ground (arith, checked-before l₂ l i r ret)

-- From the load of the module on, whatever is called in any order and whatever the kernel answers:
-- before each request to the clock for a rate above 700 MHz, the rail was read in the same change of
-- the rate, and the last of its readings was at least 850000.
pub high_rate_needs_reading :
    (e : Env) (n : ℕ) (xs : List Step) (l₂ l : Log) (i r : ℕ) (ret : ℤ)
    → (run e xs (loaded n)).df.log ≡ l₂ ++ set_rate i r ret ∷ l
    → rocket_high_rate < r
    → enough l ≡ true
high_rate_needs_reading e n xs l₂ l i r ret at p =
    let h = run-checked e xs (loaded n) refl in
    ground (arith, checked-before l₂ l i r ret (ap checked (sym at) ∙ h))
