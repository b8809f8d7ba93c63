-- ===== src/Devfreq/Lifecycle/Volts.antt =====
-- The calls of rocket_devfreq.c from suspend to removal neither read the rail nor ask for a high rate.
use rk3588_npu_gpu.Base.{
  ℕ, suc, refl, Bool, true, false, ◌||◌, not, Option, none, some, is_some, List, [], ◌∷◌, is_zero,
  if◌then◌else◌, arith,
}
use rk3588_npu_gpu.Devfreq.Kernel.{Env, Log, add_notifier, remove_notifier, cooling_unregister}
use rk3588_npu_gpu.Devfreq.{
  State, Slot, Notifier, emit, write_rate, make_safe, rocket_safe_rate, rocket_devfreq_release_all,
}
use rk3588_npu_gpu.Devfreq.Volts.{Unread, make_safe-Unread, release_all-Unread}
use rk3588_npu_gpu.Devfreq.Lifecycle.{
  arm_from, rocket_df_arm_notifiers, rocket_df_disarm_notifiers, disarm_from, suspend_live,
  rocket_devfreq_suspend, remove_block, drop_boost, remove_live, rocket_devfreq_core_removed,
  rocket_devfreq_core_added, fini_owner, rocket_devfreq_fini, rocket_devfreq_shutdown,
}

module _ (e : Env) where
  arm_from-Unread :
      (j : ℕ) (cs : List Slot) (ns : List Notifier) (u : Bool) (l : Log)
      → Unread l (arm_from e j cs ns u l).log
  unfolding arm_from
  arm_from-Unread j [] ns u l = record { reading = refl; requests = refl }
  arm_from-Unread j (c ∷ cs) [] u l = record { reading = refl; requests = refl }
  arm_from-Unread j (c ∷ cs) (n ∷ ns) u l =
      let v = add_notifier j (e.add_ret l j) in
      ground (
        arith,
        arm_from-Unread (suc j) cs ns u l,
        arm_from-Unread (suc j) cs ns u (v ∷ l),
        arm_from-Unread (suc j) cs ns true (v ∷ l),
      )

  disarm_from-Unread :
      (slots : List Slot) (ns : List Notifier) (u : Bool) (l : Log)
      → Unread l (disarm_from e slots ns u l).log
  unfolding disarm_from
  disarm_from-Unread slots [] u l = record { reading = refl; requests = refl }
  disarm_from-Unread slots (n ∷ ns) u l =
      let i : ℕ = elim n.core [ none ↦ 0 | some i ↦ i ] in
      let v = remove_notifier i (e.remove_ret l i) in
      ground (arith, disarm_from-Unread slots ns u l, disarm_from-Unread slots ns u (v ∷ l))

  remove_block-Unread :
      (i : ℕ) (ns : List Notifier) (u : Bool) (l : Log) → Unread l (remove_block e i ns u l).log
  unfolding remove_block
  remove_block-Unread i [] u l = record { reading = refl; requests = refl }
  remove_block-Unread i (n ∷ ns) u l = ground (arith, remove_block-Unread i ns u l)

  pub arm_notifiers-Unread : (s : State) → Unread s.log (rocket_df_arm_notifiers e s).log
  unfolding rocket_df_arm_notifiers
  arm_notifiers-Unread s = arm_from-Unread 0 s.slots s.notifiers s.unsafe s.log

  disarm_notifiers-Unread : (s : State) → Unread s.log (rocket_df_disarm_notifiers e s).log
  unfolding rocket_df_disarm_notifiers
  disarm_notifiers-Unread s = disarm_from-Unread s.slots s.notifiers s.unsafe s.log

  pub core_added-Unread :
      (core : Option ℕ) (s : State) → Unread s.log (rocket_devfreq_core_added e core s).log
  unfolding rocket_devfreq_core_added
  core_added-Unread core s = ground (arith, arm_notifiers-Unread s)

  pub suspend-Unread :
      (core : Option ℕ) (s : State) → Unread s.log (rocket_devfreq_suspend e core s).1.log
  unfolding rocket_devfreq_suspend suspend_live
  suspend-Unread none s = record { reading = refl; requests = refl }
  suspend-Unread (some i) s = ground arith

  pub shutdown-Unread :
      (core : Option ℕ) (s : State) → Unread s.log (rocket_devfreq_shutdown e core s).log
  unfolding rocket_devfreq_shutdown
  shutdown-Unread none s = record { reading = refl; requests = refl }
  shutdown-Unread (some i) s = ground arith

  drop_boost-Unread : (i : ℕ) (s : State) → Unread s.log (drop_boost e i s).log
  unfolding drop_boost
  drop_boost-Unread i s =
      let s₁ = record s { req_rate = rocket_safe_rate } in
      let (ret, m) = make_safe e i s₁ in
      let m = record m { unsafe = s.unsafe || not (is_zero ret) } in
      ground (arith, make_safe-Unread e i s₁, release_all-Unread (record m { refs_held = false }))

  remove_live-Unread : (i : ℕ) (s : State) → Unread s.log (remove_live e i s).log
  unfolding remove_live
  remove_live-Unread i s =
      let m = if is_some s.core then drop_boost e i s else s in
      ground (arith, drop_boost-Unread i s, remove_block-Unread i m.notifiers m.unsafe m.log)

  pub core_removed-Unread :
      (core : Option ℕ) (s : State) → Unread s.log (rocket_devfreq_core_removed e core s).log
  unfolding rocket_devfreq_core_removed
  core_removed-Unread none s = record { reading = refl; requests = refl }
  core_removed-Unread (some i) s = ground (arith, remove_live-Unread i s)

  fini_owner-Unread : (i : ℕ) (s : State) → Unread s.log (fini_owner e i s).log
  unfolding fini_owner
  fini_owner-Unread i s =
      let c = if s.cdev then record (emit cooling_unregister s) { cdev = false } else s in
      let c = record c { req_rate = rocket_safe_rate } in
      let w = (write_rate e i rocket_safe_rate (record c { refs_held = false })).1 in
      let x = (write_rate e i rocket_safe_rate c).1 in
      ground (
        arith,
        release_all-Unread w,
        disarm_notifiers-Unread (record (rocket_devfreq_release_all w) { core = none }),
        disarm_notifiers-Unread (record c { core = none }),
        disarm_notifiers-Unread (record x { core = none }),
      )

  pub fini-Unread : (core : Option ℕ) (s : State) → Unread s.log (rocket_devfreq_fini e core s).log
  unfolding rocket_devfreq_fini
  fini-Unread none s = record { reading = refl; requests = refl }
  fini-Unread (some i) s = ground (arith, fini_owner-Unread i s)
