-- ===== src/System/Fast.antt =====
-- Over any run of the driver a clock that it has raised means that all cores are held, and that the
-- rate reported is as high.
use rk3588_npu_gpu.Base.{
  ℕ, ◌+◌, ◌≤◌, ◌<◌, max, ◌≡◌, refl, ◌∙◌, true, false, some, is_some, List, [], ◌∷◌, ℤ, if_intro,
  arith,
}
use rk3588_npu_gpu.Devfreq.Kernel.{Env}
use rk3588_npu_gpu.Devfreq.{State, dev_of, rocket_safe_rate}
use rk3588_npu_gpu.Devfreq.Refs.{taken, dropped, owed}
use rk3588_npu_gpu.Devfreq.Bound.{Sound, all_bound, first_free}
use rk3588_npu_gpu.Devfreq.Covered.{
  raised, refused, covered, rocket_df_notify-covered, resume_and_get-covered,
}
use rk3588_npu_gpu.Devfreq.Target.{rocket_devfreq_get_cur_freq}
use rk3588_npu_gpu.Devfreq.Target.Covered.{rocket_devfreq_target-covered}
use rk3588_npu_gpu.Devfreq.Lifecycle.{rocket_devfreq_core_removed}
use rk3588_npu_gpu.Devfreq.Lifecycle.Calls.{rocket_devfreq_core_removed-Leaving}
use rk3588_npu_gpu.Devfreq.Lifecycle.Covered.{
  core_added-covered, suspend-covered, shutdown-covered, core_removed-covered, fini-covered,
}
use rk3588_npu_gpu.Devfreq.Init.Covered.{rocket_devfreq_init-covered}
use rk3588_npu_gpu.System.{
  Driver, Answers, Step, probe, remove, shutdown, runtime_suspend, runtime_resume, notify, target,
  loaded, with_df, open_device, claim_slot, release_slot, wake_core, start_core, rocket_probe,
  rocket_remove, rocket_platform_shutdown, rocket_device_runtime_suspend,
  rocket_device_runtime_resume, step, run,
}
use rk3588_npu_gpu.System.Whole.{Resumes, Whole, loaded-Whole}
use rk3588_npu_gpu.System.Run.{step-Whole, run-Whole}

module _ (e : Env) where
  wake_core-covered :
      (i : ℕ) (ready : ℤ) (d : State) → covered d ≡ true → covered (wake_core e i ready d).1 ≡ true
  unfolding wake_core
  wake_core-covered i ready d h = ground (arith, resume_and_get-covered e i d)

  release_slot-covered : (i : ℕ) (s : Driver) → covered (release_slot i s).df ≡ covered s.df
  unfolding release_slot
  release_slot-covered i s = ground arith

  start_core-covered :
      (i : ℕ) (a : Answers) (s : Driver)
      → covered s.df ≡ true
      → covered (start_core e i a s).1.df ≡ true
  unfolding start_core
  start_core-covered i a s h =
      let d = (wake_core e i a.ready_ret s.df).1 in
      ground (
        arith,
        wake_core-covered i a.ready_ret s.df,
        rocket_devfreq_init-covered e i a.now d,
        core_added-covered e (some i) d,
        release_slot-covered i (with_df d s),
      )

  open_device-covered : (a : Answers) (s : Driver) → covered (open_device a s).1.df ≡ covered s.df
  unfolding open_device
  open_device-covered a s = ground arith

  claim_slot-covered : (i : ℕ) (s : Driver) → covered (claim_slot i s).df ≡ covered s.df
  unfolding claim_slot
  claim_slot-covered i s = refl

  rocket_probe-covered :
      (a : Answers) (s : Driver) → covered s.df ≡ true → covered (rocket_probe e a s).1.df ≡ true
  unfolding rocket_probe
  rocket_probe-covered a s h =
      let t = (open_device a s).1 in
      let i = first_free t.df.slots in
      ground (
        arith,
        open_device-covered a s,
        claim_slot-covered i t,
        start_core-covered i a (claim_slot i t),
      )

  rocket_remove-covered :
      (i : ℕ) (s : Driver)
      → Sound s.df
      → covered s.df ≡ true
      → covered (rocket_remove e i s).df ≡ true
  unfolding rocket_remove
  rocket_remove-covered i s w h =
      let d = rocket_devfreq_core_removed e (some i) s.df in
      if_intro (λ (t : Driver). covered t.df ≡ true) (dev_of s.df.slots i)
        (λ b.
          let l = rocket_devfreq_core_removed-Leaving e i s.df b w in
          release_slot-covered i _
          ∙ fini-covered e (some i) d (ground (arith, l.awake))
              (core_removed-covered e (some i) s.df h))
        (λ b. h)

  pub step-covered :
      (x : Step) (s : Driver) → Whole s → covered s.df ≡ true → covered (step e x s).df ≡ true
  unfolding step rocket_platform_shutdown rocket_device_runtime_suspend rocket_device_runtime_resume
  step-covered (probe a) s w h = rocket_probe-covered a s h
  step-covered (remove i) s w h = rocket_remove-covered i s w.sound h
  step-covered (shutdown i) s w h = ground (arith, shutdown-covered e (some i) s.df)
  step-covered (runtime_suspend i credits) s w h = ground (arith, suspend-covered e (some i) s.df)
  step-covered (runtime_resume i ret) s w h = ground arith
  step-covered (notify n a) s w h = rocket_df_notify-covered e n a s.df h
  step-covered (target freq) s w h = rocket_devfreq_target-covered e freq s.df h

  run-covered :
      Resumes e
      → (xs : List Step) (s : Driver) → Whole s
      → covered s.df ≡ true
      → covered (run e xs s).df ≡ true
  unfolding run
  run-covered r [] s w h = h
  run-covered r (x ∷ xs) s w h =
      run-covered r xs (step e x s) (step-Whole e x s r w) (step-covered x s w h)

-- From the load of the module on, whatever is called in any order, if no resume returns a positive
-- number and no request for the safe rate has failed: while the last request for a rate that was met
-- was for more than the safe rate, and the clock has not been read at the safe rate or below since,
-- the driver has an owner, every slot is bound, and of each bound core exactly one reference is held.
pub fast_clock_holds_all :
    (e : Env)
    → Resumes e
    → (n : ℕ) → 0 < n
    → (xs : List Step) (j : ℕ)
    → let d = (run e xs (loaded n)).df in
      refused d.log ≡ false
      → rocket_safe_rate < raised d.log
      → (is_some d.core ≡ true)
        × (all_bound d.slots ≡ true)
        × (taken j d.log ≡ dropped j d.log + owed d.slots 0 j)
fast_clock_holds_all e r n p xs j f h =
    let d = (run e xs (loaded n)).df in
    let w = loaded-Whole n p in
    let s = (run-Whole e r xs (loaded n) w).sound in
    ground (arith, run-covered e r xs (loaded n) w refl, s.awake, s.owned, s.full, s.balanced j)

-- After any sequence of calls from the load on, if no resume returns a positive number and no request
-- for the safe rate has failed: the rate of the last request that was met is no higher than the rate
-- reported to devfreq, or than the safe rate, unless the clock has been read at the safe rate or
-- below since.
pub reported_rate_covers :
    (e : Env)
    → Resumes e
    → (n : ℕ) → 0 < n
    → (xs : List Step)
    → let d = (run e xs (loaded n)).df in
      refused d.log ≡ false → raised d.log ≤ max (rocket_devfreq_get_cur_freq d).1 rocket_safe_rate
unfolding rocket_devfreq_get_cur_freq
reported_rate_covers e r n p xs f =
    let d = (run e xs (loaded n)).df in
    ground (arith, run-covered e r xs (loaded n) (loaded-Whole n p) refl)
