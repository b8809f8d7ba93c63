-- ===== src/Devfreq/Lifecycle/Moments.antt =====
-- At every moment of the calls of rocket_devfreq.c from suspend to removal a clock raised by the driver
-- means that the cores are held: the clock is slowed down before the references are given back.
use rk3588_npu_gpu.Base.{
  ℕ, suc, ◌≡◌, Bool, true, false, ◌||◌, not, Option, none, some, is_some, List, [], ◌∷◌, is_zero,
  if◌then◌else◌, arith,
}
use rk3588_npu_gpu.Devfreq.Kernel.{Env, Log, add_notifier, remove_notifier, cooling_unregister}
use rk3588_npu_gpu.Devfreq.{
  State, Slot, Notifier, emit, write_rate, make_safe, rocket_safe_rate, rocket_devfreq_release_all,
}
use rk3588_npu_gpu.Devfreq.Moments.{
  always_awake, always-now, write_safe-always, make_safe-always, release_all-always,
}
use rk3588_npu_gpu.Devfreq.Lifecycle.{
  arm_from, rocket_df_arm_notifiers, rocket_df_disarm_notifiers, disarm_from, suspend_live,
  rocket_devfreq_suspend, remove_block, drop_boost, remove_live, rocket_devfreq_core_removed,
  rocket_devfreq_core_added, fini_owner, rocket_devfreq_fini, rocket_devfreq_shutdown,
}

-- The loops over the notifiers.
module _ (e : Env) (i : ℕ) where
  arm_from-always :
      (j : ℕ) (cs : List Slot) (ns : List Notifier) (u : Bool) (l : Log)
      → always_awake i l ≡ true
      → always_awake i (arm_from e j cs ns u l).log ≡ true
  unfolding arm_from
  arm_from-always j [] ns u l h = h
  arm_from-always j (c ∷ cs) [] u l h = h
  arm_from-always j (c ∷ cs) (n ∷ ns) u l h =
      let v = add_notifier j (e.add_ret l j) in
      ground (
        arith,
        always-now i l h,
        arm_from-always (suc j) cs ns u l,
        arm_from-always (suc j) cs ns u (v ∷ l),
        arm_from-always (suc j) cs ns true (v ∷ l),
      )

  disarm_from-always :
      (slots : List Slot) (ns : List Notifier) (u : Bool) (l : Log)
      → always_awake i l ≡ true
      → always_awake i (disarm_from e slots ns u l).log ≡ true
  unfolding disarm_from
  disarm_from-always slots [] u l h = h
  disarm_from-always slots (n ∷ ns) u l h =
      let j : ℕ = elim n.core [ none ↦ 0 | some j ↦ j ] in
      let v = remove_notifier j (e.remove_ret l j) in
      ground (
        arith,
        always-now i l h,
        disarm_from-always slots ns u l,
        disarm_from-always slots ns u (v ∷ l),
      )

  remove_block-always :
      (j : ℕ) (ns : List Notifier) (u : Bool) (l : Log)
      → always_awake i l ≡ true
      → always_awake i (remove_block e j ns u l).log ≡ true
  unfolding remove_block
  remove_block-always j [] u l h = h
  remove_block-always j (n ∷ ns) u l h =
      ground (arith, always-now i l h, remove_block-always j ns u l)

module _ (e : Env) (i : ℕ) where
  pub arm_notifiers-always :
      (s : State)
      → always_awake i s.log ≡ true
      → always_awake i (rocket_df_arm_notifiers e s).log ≡ true
  unfolding rocket_df_arm_notifiers
  arm_notifiers-always s h = arm_from-always e i 0 s.slots s.notifiers s.unsafe s.log h

  disarm_notifiers-always :
      (s : State)
      → always_awake i s.log ≡ true
      → always_awake i (rocket_df_disarm_notifiers e s).log ≡ true
  unfolding rocket_df_disarm_notifiers
  disarm_notifiers-always s h = disarm_from-always e i s.slots s.notifiers s.unsafe s.log h

  pub core_added-always :
      (core : Option ℕ) (s : State)
      → always_awake i s.log ≡ true
      → always_awake i (rocket_devfreq_core_added e core s).log ≡ true
  unfolding rocket_devfreq_core_added
  core_added-always core s h = ground (arith, arm_notifiers-always s)

  pub suspend-always :
      (core : Option ℕ) (s : State)
      → always_awake i s.log ≡ true
      → always_awake i (rocket_devfreq_suspend e core s).1.log ≡ true
  unfolding rocket_devfreq_suspend suspend_live
  suspend-always none s h = h
  suspend-always (some j) s h = ground (arith, write_safe-always e i j s)

  pub shutdown-always :
      (core : Option ℕ) (s : State)
      → always_awake i s.log ≡ true
      → always_awake i (rocket_devfreq_shutdown e core s).log ≡ true
  unfolding rocket_devfreq_shutdown
  shutdown-always none s h = h
  shutdown-always (some j) s h = ground (arith, write_safe-always e i j s)

  drop_boost-always :
      (j : ℕ) (s : State)
      → always_awake i s.log ≡ true
      → always_awake i (drop_boost e j s).log ≡ true
  unfolding drop_boost
  drop_boost-always j s h =
      let s₁ = record s { req_rate = rocket_safe_rate } in
      let m = (make_safe e j s₁).1 in
      let m = record m { unsafe = s.unsafe || not (is_zero (make_safe e j s₁).0) } in
      ground
        (arith, make_safe-always e i j s₁, release_all-always i (record m { refs_held = false }))

  remove_live-always :
      (j : ℕ) (s : State)
      → always_awake i s.log ≡ true
      → always_awake i (remove_live e j s).log ≡ true
  unfolding remove_live
  remove_live-always j s h =
      let m = if is_some s.core then drop_boost e j s else s in
      ground (arith, drop_boost-always j s, remove_block-always e i j m.notifiers m.unsafe m.log)

  pub core_removed-always :
      (core : Option ℕ) (s : State)
      → always_awake i s.log ≡ true
      → always_awake i (rocket_devfreq_core_removed e core s).log ≡ true
  unfolding rocket_devfreq_core_removed
  core_removed-always none s h = h
  core_removed-always (some j) s h = ground (arith, remove_live-always j s)

  fini_owner-always :
      (j : ℕ) (s : State)
      → always_awake i s.log ≡ true
      → always_awake i (fini_owner e j s).log ≡ true
  unfolding fini_owner
  fini_owner-always j s h =
      let c = if s.cdev then record (emit cooling_unregister s) { cdev = false } else s in
      let c = record c { req_rate = rocket_safe_rate } in
      let w = (write_rate e j rocket_safe_rate (record c { refs_held = false })).1 in
      let x = (write_rate e j rocket_safe_rate c).1 in
      ground (
        arith,
        always-now i s.log h,
        write_safe-always e i j c,
        write_safe-always e i j (record c { refs_held = false }),
        release_all-always i w,
        disarm_notifiers-always (record (rocket_devfreq_release_all w) { core = none }),
        disarm_notifiers-always (record c { core = none }),
        disarm_notifiers-always (record x { core = none }),
      )

  pub fini-always :
      (core : Option ℕ) (s : State)
      → always_awake i s.log ≡ true
      → always_awake i (rocket_devfreq_fini e core s).log ≡ true
  unfolding rocket_devfreq_fini
  fini-always none s h = h
  fini-always (some j) s h = ground (arith, fini_owner-always j s)
