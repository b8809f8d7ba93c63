-- ===== src/System/Run.antt =====
-- Every step of the driver keeps what holds between the steps, and so does every run.
use rk3588_npu_gpu.Base.{
  ◌<◌, ℕ, ◌≡◌, sym, ◌∙◌, ap, not, is_zero, some, List, [], ◌∷◌, ℤ, if_intro, if_both, length, arith,
}
use rk3588_npu_gpu.Devfreq.Kernel.{Env}
use rk3588_npu_gpu.Devfreq.{State, dev_of, rocket_df_notify}
use rk3588_npu_gpu.Devfreq.Refs.{rocket_df_notify-Still}
use rk3588_npu_gpu.Devfreq.Bound.{Sound}
use rk3588_npu_gpu.Devfreq.Target.{rocket_devfreq_target}
use rk3588_npu_gpu.Devfreq.Target.Sound.{rocket_devfreq_target-Sound, target-Kept}
use rk3588_npu_gpu.Devfreq.Lifecycle.{
  rocket_devfreq_suspend, rocket_devfreq_core_removed, rocket_devfreq_fini, rocket_devfreq_shutdown,
}
use rk3588_npu_gpu.Devfreq.Lifecycle.Calls.{
  rocket_devfreq_core_removed-Leaving, rocket_devfreq_fini-Leaving, rocket_devfreq_suspend-Sound,
  rocket_devfreq_shutdown-Sound, unbind-Sound,
}
use rk3588_npu_gpu.Devfreq.Lifecycle.Slots.{
  core_removed-slots, fini-slots, suspend-slots, shutdown-slots,
}
use rk3588_npu_gpu.Devfreq.Init.Sound.{rocket_df_notify-Sound}
use rk3588_npu_gpu.System.{
  loaded, Driver, Step, probe, remove, shutdown, runtime_suspend, runtime_resume, ClockCall, notify,
  target, with_df, rocket_remove, rocket_platform_shutdown, rocket_device_runtime_suspend,
  rocket_device_runtime_resume, rocket_job_is_idle, step, run,
}
use rk3588_npu_gpu.System.Counts.{bound_count, count-unbind_from}
use rk3588_npu_gpu.System.Whole.{Resumes, Whole, loaded-Whole, release_slot-Whole}
use rk3588_npu_gpu.System.Probe.{rocket_probe-Whole}

-- A call that leaves the slots alone.
with_df-Whole :
    (d : State) (s : Driver) → Whole s → Sound d → d.slots ≡ s.df.slots → Whole (with_df d s)
with_df-Whole d s h k same = record {
  sound = k;
  counted = h.counted ∙ ap bound_count (sym same);
  live = h.live;
  room = omega (arith, h.room, ap length same);
}

clocks-Whole : (cs : List ClockCall) (s : Driver) → Whole s → Whole (record s { clocks = cs })
clocks-Whole cs s h = record { sound = h.sound; counted = h.counted; live = h.live; room = h.room }

module _ (e : Env) (i : ℕ) (s : Driver) where
  rocket_remove-Whole : Whole s → Whole (rocket_remove e i s)
  unfolding rocket_remove
  rocket_remove-Whole h =
      let d₁ = rocket_devfreq_core_removed e (some i) s.df in
      let d = rocket_devfreq_fini e (some i) d₁ in
      let same = fini-slots e d₁ (some i) ∙ core_removed-slots e s.df (some i) in
      if_intro Whole (dev_of s.df.slots i)
        (λ b.
          release_slot-Whole i (with_df d s)
            (unbind-Sound i d (
              rocket_devfreq_fini-Leaving e i (some i) d₁
                (rocket_devfreq_core_removed-Leaving e i s.df b h.sound)))
            (rw same b) (h.counted ∙ ap bound_count (sym same))
            (ground (arith, h.live, h.counted, count-unbind_from i i 0 s.df.slots (omega arith) b))
            (omega (arith, h.room, ap length same)))
        (λ b. h)

  rocket_platform_shutdown-Whole : Whole s → Whole (rocket_platform_shutdown e i s)
  unfolding rocket_platform_shutdown
  rocket_platform_shutdown-Whole h =
      if_both Whole (dev_of s.df.slots i)
        (with_df-Whole (rocket_devfreq_shutdown e (some i) s.df) s h
          (rocket_devfreq_shutdown-Sound e (some i) s.df h.sound) (shutdown-slots e s.df (some i)))
        h

  runtime_suspend-Whole :
      (credits : ℕ) → Whole s → Whole (rocket_device_runtime_suspend e i credits s).1
  unfolding rocket_device_runtime_suspend
  runtime_suspend-Whole credits h =
      let P : ℤ × Driver → Type 0 = λ x. Whole x.1 in
      let (ret, d) = rocket_devfreq_suspend e (some i) s.df in
      let w =
        with_df-Whole d s h (rocket_devfreq_suspend-Sound e (some i) s.df h.sound)
          (suspend-slots e s.df (some i)) in
      if_both P (not (dev_of s.df.slots i)) h (
        if_both P (not (rocket_job_is_idle credits)) h
          (if_both P (not (is_zero ret)) w (clocks-Whole _ (with_df d s) w)))

runtime_resume-Whole :
    (i : ℕ) (ret : ℤ) (s : Driver) → Whole s → Whole (rocket_device_runtime_resume i ret s).1
unfolding rocket_device_runtime_resume
runtime_resume-Whole i ret s h =
    let P : ℤ × Driver → Type 0 = λ x. Whole x.1 in
    if_both P (not (dev_of s.df.slots i)) h (clocks-Whole _ s h)

pub step-Whole : (e : Env) (x : Step) (s : Driver) → Resumes e → Whole s → Whole (step e x s)
unfolding step
step-Whole e (probe a) s r h = rocket_probe-Whole e a s r h
step-Whole e (remove i) s r h = rocket_remove-Whole e i s h
step-Whole e (shutdown i) s r h = rocket_platform_shutdown-Whole e i s h
step-Whole e (runtime_suspend i credits) s r h = runtime_suspend-Whole e i s credits h
step-Whole e (runtime_resume i ret) s r h = runtime_resume-Whole i ret s h
step-Whole e (notify k a) s r h =
    with_df-Whole (rocket_df_notify e k a s.df).1 s h (rocket_df_notify-Sound e k a s.df h.sound)
      (rocket_df_notify-Still e 0 k a s.df).frame.slots
step-Whole e (target freq) s r h =
    with_df-Whole (rocket_devfreq_target e freq s.df).state s h
      (rocket_devfreq_target-Sound e freq s.df h.sound) (target-Kept e freq s.df h.sound).0.slots

-- Whatever probes, removals, shutdowns, suspends, resumes, transitions of power domains and requests for
-- a rate follow each other, in any order and with any answers of the kernel but a positive return
-- of a resume, the driver stays whole: `num_cores` counts the bound cores and there is a device as
-- long as one is bound; every core's references are balanced; a rate on record above the safe one
-- means that the cores are held, under an owner and with every slot bound; and unless the driver is
-- marked unsafe, each armed block stands for its own bound core.
pub run-Whole : (e : Env) → Resumes e → (xs : List Step) (s : Driver) → Whole s → Whole (run e xs s)
unfolding run
run-Whole e r [] s h = h
run-Whole e r (x ∷ xs) s h = run-Whole e r xs (step e x s) (step-Whole e x s r h)

-- So does every run from the load of the module on, for a device tree with at least one core.
reachable-Whole :
    (e : Env) → Resumes e → (n : ℕ) → 0 < n → (xs : List Step) → Whole (run e xs (loaded n))
reachable-Whole e r n p xs = run-Whole e r xs (loaded n) (loaded-Whole n p)
