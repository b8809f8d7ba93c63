-- ===== src/System/Power.antt =====
-- The clocks of a core at runtime suspend and resume in npu/driver/rocket_drv.c.
use rk3588_npu_gpu.Base.{
  ℕ, suc, ◌+◌, ◌≡◌, Bool, true, false, ◌||◌, ◌&&◌, not, List, [], ◌∷◌, ◌==◌, is_zero, if◌then◌else◌,
  arith,
}
use rk3588_npu_gpu.Devfreq.Kernel.{Env}
use rk3588_npu_gpu.Devfreq.Bound.{first_free}
use rk3588_npu_gpu.System.{
  Answers, Driver, Step, ClockCall, prepare_enable, disable_unprepare, probe, remove, shutdown,
  runtime_suspend, runtime_resume, notify, target, open_device, claim_slot, release_slot,
  start_core, rocket_probe, rocket_remove, rocket_platform_shutdown, rocket_device_runtime_suspend,
  rocket_device_runtime_resume, step, run,
}

-- How often the clocks of core `i` were switched on and off.
abbrev pub switched_on : ℕ → List ClockCall → ℕ
switched_on i [] = 0
switched_on i (prepare_enable j ret ∷ cs) =
    if i == j && is_zero ret then suc (switched_on i cs) else switched_on i cs
switched_on i (_ ∷ cs) = switched_on i cs

abbrev pub switched_off : ℕ → List ClockCall → ℕ
switched_off i [] = 0
switched_off i (disable_unprepare j ∷ cs) =
    if i == j then suc (switched_off i cs) else switched_off i cs
switched_off i (_ ∷ cs) = switched_off i cs

abbrev pub bit : Bool → ℕ
bit a = if a then 1 else 0

module _ (e : Env) (i : ℕ) where
  -- Whether core `i` is active for runtime PM after a call, from whether it was before: the return of
  -- a callback decides.
  abbrev pub active_after : Step → Bool → Driver → Bool
  active_after (runtime_suspend j credits) a s =
      if i == j && is_zero (rocket_device_runtime_suspend e j credits s).0 then false else a
  active_after (runtime_resume j ret) a s =
      if i == j && is_zero (rocket_device_runtime_resume j ret s).0 then true else a
  active_after _ a s = a

  -- Runtime PM suspends a core only while it is active, and resumes it only while it is not.
  abbrev pub in_turn : Step → Bool → Bool
  in_turn (runtime_suspend j credits) a = not (i == j) || a
  in_turn (runtime_resume j ret) a = not (i == j) || not a
  in_turn _ a = true

  abbrev pub all_in_turn : List Step → Bool → Driver → Bool
  all_in_turn [] a s = true
  all_in_turn (x ∷ xs) a s = in_turn x a && all_in_turn xs (active_after x a s) (step e x s)

  abbrev pub is_active : List Step → Bool → Driver → Bool
  is_active [] a s = a
  is_active (x ∷ xs) a s = is_active xs (active_after x a s) (step e x s)

-- The other calls leave the clocks alone.
module _ (e : Env) where
  start_core-clocks : (i : ℕ) (a : Answers) (s : Driver) → (start_core e i a s).1.clocks ≡ s.clocks
  unfolding start_core release_slot
  start_core-clocks i a s = ground arith

  rocket_probe-clocks : (a : Answers) (s : Driver) → (rocket_probe e a s).1.clocks ≡ s.clocks
  unfolding rocket_probe open_device claim_slot
  rocket_probe-clocks a s =
      let t = (open_device a s).1 in
      let i = first_free t.df.slots in ground (arith, start_core-clocks i a (claim_slot i t))

module _ (e : Env) (i : ℕ) where
  step-clocks :
      (x : Step) (a : Bool) (s : Driver)
      → in_turn e i x a ≡ true
      → switched_on i s.clocks ≡ switched_off i s.clocks + bit a
      → let cs = (step e x s).clocks in
        switched_on i cs ≡ switched_off i cs + bit (active_after e i x a s)
  unfolding step rocket_device_runtime_suspend rocket_device_runtime_resume rocket_remove
      release_slot rocket_platform_shutdown
  step-clocks (probe b) a s t h = rw (rocket_probe-clocks e b s) h
  step-clocks (remove j) a s t h = ground arith
  step-clocks (shutdown j) a s t h = ground arith
  step-clocks (runtime_suspend j credits) a s t h = ground arith
  step-clocks (runtime_resume j ret) a s t h = ground arith
  step-clocks (notify k v) a s t h = h
  step-clocks (target freq) a s t h = h

  -- Whatever is called of the driver, if runtime PM suspends a core only while it is active and resumes
  -- it only while it is not: the clocks of the core have been switched on as often as off, and once more
  -- exactly while the core is active.
  pub clocks_follow_power :
      (xs : List Step) (a : Bool) (s : Driver)
      → all_in_turn e i xs a s ≡ true
      → switched_on i s.clocks ≡ switched_off i s.clocks + bit a
      → let cs = (run e xs s).clocks in
        switched_on i cs ≡ switched_off i cs + bit (is_active e i xs a s)
  unfolding run
  clocks_follow_power [] a s t h = h
  clocks_follow_power (x ∷ xs) a s t h =
      clocks_follow_power xs (active_after e i x a s) (step e x s) (ground arith)
        (step-clocks x a s (ground arith) h)
