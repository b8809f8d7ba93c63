-- ===== src/Setup/Cores.antt =====
-- What a core owns after its set-up, and after its end.
use rk3588_npu_gpu.Base.{
  ℕ, suc, ◌+◌, ◌≡◌, Bool, true, false, ◌&&◌, [], ◌∷◌, is_neg, is_zero, if◌then◌else◌, arith,
}
use rk3588_npu_gpu.Setup.{
  Thing, workqueue, scheduler, group, autosuspend, runtime_pm, pm_ref, drm_device, take, give, Log,
  Env, rocket_job_init, rocket_job_fini, rocket_core_fini, power_core, attach_core,
  rocket_core_init,
}

abbrev same_thing : Thing → Thing → Bool
same_thing workqueue workqueue = true
same_thing scheduler scheduler = true
same_thing group group = true
same_thing autosuspend autosuspend = true
same_thing runtime_pm runtime_pm = true
same_thing pm_ref pm_ref = true
same_thing drm_device drm_device = true
same_thing _ _ = false

-- How often a thing was taken, and given back.
abbrev pub taken : Thing → Log → ℕ
taken x [] = 0
taken x (take y ∷ l) = if same_thing x y then suc (taken x l) else taken x l
taken x (give y ∷ l) = taken x l

abbrev pub given : Thing → Log → ℕ
given x [] = 0
given x (take y ∷ l) = given x l
given x (give y ∷ l) = if same_thing x y then suc (given x l) else given x l

-- What a core in use owns one of.
abbrev pub core_thing : Thing → Bool
core_thing pm_ref = false
core_thing drm_device = false
core_thing _ = true

-- If the scheduler can be made, then the set-up of a core on every path owns one of each thing of a
-- core after a return of 0 and none otherwise, and has given back every runtime PM reference.
pub rocket_core_init_owns :
    (e : Env) (x : Thing)
    → is_zero e.sched_ret ≡ true
    → let (ret, l) = rocket_core_init e [] in
      taken x l ≡ given x l + (if is_zero ret && core_thing x then 1 else 0)
unfolding rocket_core_init attach_core power_core rocket_job_init rocket_core_fini rocket_job_fini
rocket_core_init_owns e workqueue s = ground arith
rocket_core_init_owns e scheduler s = ground arith
rocket_core_init_owns e group s = ground arith
rocket_core_init_owns e autosuspend s = ground arith
rocket_core_init_owns e runtime_pm s = ground arith
rocket_core_init_owns e pm_ref s = ground arith
rocket_core_init_owns e drm_device s = ground arith

-- A core whose set-up returns 0 and that is then ended has given back each thing as often as it was
-- taken.
pub set_up_then_end :
    (e : Env) (x : Thing)
    → let (ret, l) = rocket_core_init e [] in
      is_zero ret ≡ true → taken x (rocket_core_fini l) ≡ given x (rocket_core_fini l)
unfolding rocket_core_init attach_core power_core rocket_job_init rocket_core_fini rocket_job_fini
set_up_then_end e workqueue z = ground arith
set_up_then_end e scheduler z = ground arith
set_up_then_end e group z = ground arith
set_up_then_end e autosuspend z = ground arith
set_up_then_end e runtime_pm z = ground arith
set_up_then_end e pm_ref z = ground arith
set_up_then_end e drm_device z = ground arith

-- If all that comes before succeeds and the scheduler cannot be made, the scheduler is finished all
-- the same, although nothing was made; the rest is given back.
pub unmade_scheduler_finished :
    (e : Env)
    → is_neg e.irq ≡ false
    → is_zero e.irq_ret ≡ true
    → e.wq_alloc ≡ true
    → is_zero e.sched_ret ≡ false
    → let (ret, l) = rocket_job_init e [] in
      (ret ≡ e.sched_ret)
      × (taken scheduler l ≡ 0)
      × (given scheduler l ≡ 1)
      × (taken workqueue l ≡ given workqueue l)
unfolding rocket_job_init
unmade_scheduler_finished e i q w s = ground arith
