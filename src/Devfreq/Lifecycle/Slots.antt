-- ===== src/Devfreq/Lifecycle/Slots.antt =====
-- The calls of rocket_devfreq.c from probe to shutdown do not write the slots of the device.
use rk3588_npu_gpu.Base.{ℕ, ◌≡◌, refl, Option, none, some, arith}
use rk3588_npu_gpu.Devfreq.Kernel.{Env}
use rk3588_npu_gpu.Devfreq.{State, make_safe, rocket_devfreq_release_all}
use rk3588_npu_gpu.Devfreq.Lifecycle.{
  rocket_df_arm_notifiers, rocket_df_disarm_notifiers, suspend_live, rocket_devfreq_suspend,
  drop_boost, remove_live, rocket_devfreq_core_removed, rocket_devfreq_core_added, fini_owner,
  rocket_devfreq_fini, rocket_devfreq_shutdown,
}

module _ (e : Env) (s : State) where
  pub arm_notifiers-slots : (rocket_df_arm_notifiers e s).slots ≡ s.slots
  unfolding rocket_df_arm_notifiers
  arm_notifiers-slots = refl

  pub core_added-slots : (core : Option ℕ) → (rocket_devfreq_core_added e core s).slots ≡ s.slots
  unfolding rocket_devfreq_core_added rocket_df_arm_notifiers
  core_added-slots core = ground arith

  pub suspend-slots : (core : Option ℕ) → (rocket_devfreq_suspend e core s).1.slots ≡ s.slots
  unfolding rocket_devfreq_suspend suspend_live
  suspend-slots none = refl
  suspend-slots (some i) = ground arith

  pub shutdown-slots : (core : Option ℕ) → (rocket_devfreq_shutdown e core s).slots ≡ s.slots
  unfolding rocket_devfreq_shutdown
  shutdown-slots none = refl
  shutdown-slots (some i) = ground arith

  pub core_removed-slots :
      (core : Option ℕ) → (rocket_devfreq_core_removed e core s).slots ≡ s.slots
  unfolding rocket_devfreq_core_removed remove_live drop_boost make_safe rocket_devfreq_release_all
  core_removed-slots none = refl
  core_removed-slots (some i) = ground arith

  pub fini-slots : (core : Option ℕ) → (rocket_devfreq_fini e core s).slots ≡ s.slots
  unfolding rocket_devfreq_fini fini_owner rocket_df_disarm_notifiers rocket_devfreq_release_all
  fini-slots none = refl
  fini-slots (some i) = ground arith
