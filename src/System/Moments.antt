-- ===== src/System/Moments.antt =====
-- At every moment of a run of the driver, also inside a call, a clock raised by the driver means that
-- the cores are held.
use rk3588_npu_gpu.Base.{
  ℕ, ◌<◌, ◌≡◌, refl, ap, subst, true, false, ◌||◌, some, List, [], ◌∷◌, ◌++◌, ℤ, is_neg, is_zero,
  length, arith,
}
use rk3588_npu_gpu.Devfreq.Kernel.{Env, Log}
use rk3588_npu_gpu.Devfreq.{State, rocket_safe_rate}
use rk3588_npu_gpu.Devfreq.Refs.{taken, dropped, rocket_df_notify-Still, resume_and_get-answer}
use rk3588_npu_gpu.Devfreq.Bound.{first_free}
use rk3588_npu_gpu.Devfreq.Covered.{raised, refused, covered}
use rk3588_npu_gpu.Devfreq.Moments.{
  awake_at, always_awake, always-now, resume_and_get-Eased, rocket_df_notify-Eased,
}
use rk3588_npu_gpu.Devfreq.Target.Sound.{target-Kept}
use rk3588_npu_gpu.Devfreq.Target.Moments.{rocket_devfreq_target-always}
use rk3588_npu_gpu.Devfreq.Lifecycle.{rocket_devfreq_core_removed, rocket_devfreq_fini}
use rk3588_npu_gpu.Devfreq.Lifecycle.Slots.{
  core_added-slots, core_removed-slots, fini-slots, suspend-slots, shutdown-slots,
}
use rk3588_npu_gpu.Devfreq.Lifecycle.Moments.{
  core_added-always, suspend-always, shutdown-always, core_removed-always, fini-always,
}
use rk3588_npu_gpu.Devfreq.Init.Slots.{rocket_devfreq_init-slots}
use rk3588_npu_gpu.Devfreq.Init.Moments.{resume_once-always, rocket_devfreq_init-always}
use rk3588_npu_gpu.System.{
  Driver, Answers, Step, probe, remove, shutdown, runtime_suspend, runtime_resume, notify, target,
  loaded, open_device, claim_slot, release_slot, wake_core, start_core, rocket_probe, rocket_remove,
  rocket_platform_shutdown, rocket_device_runtime_suspend, rocket_device_runtime_resume, step, run,
}
use rk3588_npu_gpu.System.Counts.{length-bind_from, length-unbind_from, length-map_empty}
use rk3588_npu_gpu.System.Whole.{
  Resumes, Whole, loaded-Whole, wake_core-Started, length-replicate_slots,
}
use rk3588_npu_gpu.System.Run.{step-Whole}
use rk3588_npu_gpu.System.Fast.{step-covered}

-- The number of slots never changes.
module _ (e : Env) where
  start_core-length :
      (i : ℕ) (a : Answers) (s : Driver)
      → length (start_core e i a s).1.df.slots ≡ length s.df.slots
  unfolding start_core release_slot
  start_core-length i a s =
      let d = (wake_core e i a.ready_ret s.df).1 in
      ground (
        arith,
        wake_core-Started e i a.ready_ret s.df,
        rocket_devfreq_init-slots e i a.now d,
        core_added-slots e d (some i),
        length-unbind_from i 0 d.slots,
      )

  rocket_probe-length :
      (a : Answers) (s : Driver) → length (rocket_probe e a s).1.df.slots ≡ length s.df.slots
  unfolding rocket_probe open_device claim_slot
  rocket_probe-length a s =
      let t = (open_device a s).1 in
      let i = first_free t.df.slots in
      ground (
        arith,
        length-map_empty s.df.slots,
        length-bind_from i 0 t.df.slots,
        start_core-length i a (claim_slot i t),
      )

  step-length : (x : Step) (s : Driver) → Whole s → length (step e x s).df.slots ≡ length s.df.slots
  unfolding step rocket_remove rocket_platform_shutdown rocket_device_runtime_suspend
      rocket_device_runtime_resume release_slot
  step-length (probe a) s w = rocket_probe-length a s
  step-length (remove i) s w =
      let d₁ = rocket_devfreq_core_removed e (some i) s.df in
      let d = rocket_devfreq_fini e (some i) d₁ in
      ground (
        arith,
        fini-slots e d₁ (some i),
        core_removed-slots e s.df (some i),
        length-unbind_from i 0 d.slots,
      )
  step-length (shutdown i) s w = ground (arith, shutdown-slots e s.df (some i))
  step-length (runtime_suspend i credits) s w = ground (arith, suspend-slots e s.df (some i))
  step-length (runtime_resume i ret) s w = ground arith
  step-length (notify k a) s w = ap length (rocket_df_notify-Still e 0 k a s.df).frame.slots
  step-length (target freq) s w = ap length (target-Kept e freq s.df w.sound).0.slots

module _ (e : Env) (i : ℕ) where
  wake_core-always :
      (j : ℕ) (ready : ℤ) (d : State)
      → always_awake i d.log ≡ true
      → ((l : Log) (j : ℕ) → (is_neg (e.resume_ret l j) || is_zero (e.resume_ret l j)) ≡ true)
      → always_awake i (wake_core e j ready d).1.log ≡ true
  unfolding wake_core
  wake_core-always j ready d h r =
      let (l, a) = resume_and_get-answer e j d in
      ground (arith, r l j, resume_and_get-Eased e i j d, resume_once-always e i j d)

  start_core-always :
      (j : ℕ) (a : Answers) (s : Driver)
      → Resumes e
      → always_awake i s.df.log ≡ true
      → always_awake i (start_core e j a s).1.df.log ≡ true
  unfolding start_core release_slot
  start_core-always j a s r h =
      let d = (wake_core e j a.ready_ret s.df).1 in
      ground (
        arith,
        wake_core-always j a.ready_ret s.df h r,
        rocket_devfreq_init-always e i j a.now d,
        core_added-always e i (some j) d,
      )

  rocket_probe-always :
      (a : Answers) (s : Driver)
      → Resumes e
      → always_awake i s.df.log ≡ true
      → always_awake i (rocket_probe e a s).1.df.log ≡ true
  unfolding rocket_probe open_device claim_slot
  rocket_probe-always a s r h =
      let t = (open_device a s).1 in
      let j = first_free t.df.slots in ground (arith, start_core-always j a (claim_slot j t) r)

  step-always :
      (x : Step) (s : Driver)
      → Resumes e
      → Whole s
      → i < length s.df.slots
      → covered s.df ≡ true
      → always_awake i s.df.log ≡ true
      → always_awake i (step e x s).df.log ≡ true
  unfolding step rocket_remove rocket_platform_shutdown rocket_device_runtime_suspend
      rocket_device_runtime_resume release_slot
  step-always (probe a) s r w p c h = rocket_probe-always a s r h
  step-always (remove j) s r w p c h = ground (
    arith,
    core_removed-always e i (some j) s.df,
    fini-always e i (some j) (rocket_devfreq_core_removed e (some j) s.df),
  )
  step-always (shutdown j) s r w p c h = ground (arith, shutdown-always e i (some j) s.df)
  step-always (runtime_suspend j credits) s r w p c h =
      ground (arith, suspend-always e i (some j) s.df)
  step-always (runtime_resume j ret) s r w p c h = ground arith
  step-always (notify n a) s r w p c h = (rocket_df_notify-Eased e i n a s.df h).always
  step-always (target freq) s r w p c h = rocket_devfreq_target-always e i freq s.df w.sound p c h

  run-always :
      Resumes e
      → (xs : List Step) (s : Driver) → Whole s
      → i < length s.df.slots
      → covered s.df ≡ true
      → always_awake i s.df.log ≡ true
      → always_awake i (run e xs s).df.log ≡ true
  unfolding run
  run-always r [] s w p c h = h
  run-always r (x ∷ xs) s w p c h =
      run-always r xs (step e x s) (step-Whole e x s r w) (omega (arith, p, step-length e x s w))
        (step-covered e x s w c) (step-always x s r w p c h)

-- An earlier part of the history.
always-before : (i : ℕ) (l₂ l : Log) → always_awake i (l₂ ++ l) ≡ true → awake_at i l ≡ true
always-before i [] l h = always-now i l h
always-before i (v ∷ l₂) l h = ground (arith, always-before i l₂ l)

-- From the load of the module on, whatever is called in any order, at every moment of the history,
-- also inside a call, if no resume returns a positive number and no request for the safe rate has
-- failed by then: while the last request for a rate that was met was for more than the safe rate, and
-- the clock has not been read at the safe rate or below since, more references on every core have
-- been taken than given back.
pub fast_clock_holds_always :
    (e : Env)
    → Resumes e
    → (n : ℕ) → 0 < n
    → (xs : List Step) (l₂ l : Log) (i : ℕ) → (run e xs (loaded n)).df.log ≡ l₂ ++ l
    → i < n
    → refused l ≡ false
    → rocket_safe_rate < raised l
    → dropped i l < taken i l
fast_clock_holds_always e r n p xs l₂ l i at q f h =
    let w = loaded-Whole n p in
    let a =
      run-always e i r xs (loaded n) w (omega (arith, q, length-replicate_slots n)) refl refl in
    ground (arith, always-before i l₂ l (subst (λ m. always_awake i m ≡ true) at a))
