-- ===== src/Devfreq/Lifecycle/Covered.antt =====
-- The calls of rocket_devfreq.c from suspend to removal keep the clock covered by the rate on record.
use rk3588_npu_gpu.Base.{
  ℕ, suc, ◌≡◌, refl, Bool, true, false, ◌||◌, not, Option, none, some, is_some, List, [], ◌∷◌, ltb,
  is_zero, if◌then◌else◌, arith,
}
use rk3588_npu_gpu.Devfreq.Kernel.{Env, Log, add_notifier, remove_notifier, cooling_unregister}
use rk3588_npu_gpu.Devfreq.{
  State, Slot, Notifier, emit, write_rate, make_safe, rocket_safe_rate, rocket_devfreq_release_all,
}
use rk3588_npu_gpu.Devfreq.Covered.{
  raised, covered, Unheard, write_safe-lem, make_safe-lem, release_all-covered,
}
use rk3588_npu_gpu.Devfreq.Lifecycle.{
  arm_from, rocket_df_arm_notifiers, rocket_df_disarm_notifiers, disarm_from, suspend_live,
  rocket_devfreq_suspend, remove_block, drop_boost, remove_live, rocket_devfreq_core_removed,
  rocket_devfreq_core_added, fini_owner, rocket_devfreq_fini, rocket_devfreq_shutdown,
}

module _ (e : Env) where
  arm_from-Unheard :
      (j : ℕ) (cs : List Slot) (ns : List Notifier) (u : Bool) (l : Log)
      → Unheard l (arm_from e j cs ns u l).log
  unfolding arm_from
  arm_from-Unheard j [] ns u l = record { rate = refl; refusals = refl }
  arm_from-Unheard j (c ∷ cs) [] u l = record { rate = refl; refusals = refl }
  arm_from-Unheard j (c ∷ cs) (n ∷ ns) u l =
      let v = add_notifier j (e.add_ret l j) in
      ground (
        arith,
        arm_from-Unheard (suc j) cs ns u l,
        arm_from-Unheard (suc j) cs ns u (v ∷ l),
        arm_from-Unheard (suc j) cs ns true (v ∷ l),
      )

  remove_block-Unheard :
      (i : ℕ) (ns : List Notifier) (u : Bool) (l : Log) → Unheard l (remove_block e i ns u l).log
  unfolding remove_block
  remove_block-Unheard i [] u l = record { rate = refl; refusals = refl }
  remove_block-Unheard i (n ∷ ns) u l = ground (arith, remove_block-Unheard i ns u l)

  pub arm_notifiers-covered : (s : State) → covered (rocket_df_arm_notifiers e s) ≡ covered s
  unfolding rocket_df_arm_notifiers
  arm_notifiers-covered s = ground (arith, arm_from-Unheard 0 s.slots s.notifiers s.unsafe s.log)

  pub arm_notifiers-rate : (s : State) → raised (rocket_df_arm_notifiers e s).log ≡ raised s.log
  unfolding rocket_df_arm_notifiers
  arm_notifiers-rate s = (arm_from-Unheard 0 s.slots s.notifiers s.unsafe s.log).rate

  pub core_added-covered :
      (core : Option ℕ) (s : State)
      → covered s ≡ true
      → covered (rocket_devfreq_core_added e core s) ≡ true
  unfolding rocket_devfreq_core_added
  core_added-covered core s h = ground (arith, arm_notifiers-covered s)

  pub suspend-covered :
      (core : Option ℕ) (s : State)
      → covered s ≡ true
      → covered (rocket_devfreq_suspend e core s).1 ≡ true
  unfolding rocket_devfreq_suspend suspend_live
  suspend-covered none s h = h
  suspend-covered (some i) s h = ground (arith, write_safe-lem e i s)

  pub shutdown-covered :
      (core : Option ℕ) (s : State)
      → covered s ≡ true
      → covered (rocket_devfreq_shutdown e core s) ≡ true
  unfolding rocket_devfreq_shutdown
  shutdown-covered none s h = h
  shutdown-covered (some i) s h = ground (arith, write_safe-lem e i s)

  drop_boost-covered : (i : ℕ) (s : State) → covered (drop_boost e i s) ≡ true
  unfolding drop_boost
  drop_boost-covered i s =
      let s₁ = record s { req_rate = rocket_safe_rate } in
      let m = (make_safe e i s₁).1 in
      let m = record m { unsafe = s.unsafe || not (is_zero (make_safe e i s₁).0) } in
      ground (arith, make_safe-lem e i s₁, release_all-covered (record m { refs_held = false }))

  remove_live-covered : (i : ℕ) (s : State) → covered s ≡ true → covered (remove_live e i s) ≡ true
  unfolding remove_live
  remove_live-covered i s h =
      let m = if is_some s.core then drop_boost e i s else s in
      ground (arith, drop_boost-covered i s, remove_block-Unheard i m.notifiers m.unsafe m.log)

  pub core_removed-covered :
      (core : Option ℕ) (s : State)
      → covered s ≡ true
      → covered (rocket_devfreq_core_removed e core s) ≡ true
  unfolding rocket_devfreq_core_removed
  core_removed-covered none s h = h
  core_removed-covered (some i) s h = ground (arith, remove_live-covered i s)

  disarm_from-Unheard :
      (slots : List Slot) (ns : List Notifier) (u : Bool) (l : Log)
      → Unheard l (disarm_from e slots ns u l).log
  unfolding disarm_from
  disarm_from-Unheard slots [] u l = record { rate = refl; refusals = refl }
  disarm_from-Unheard slots (n ∷ ns) u l =
      let i : ℕ = elim n.core [ none ↦ 0 | some i ↦ i ] in
      let v = remove_notifier i (e.remove_ret l i) in
      ground (arith, disarm_from-Unheard slots ns u l, disarm_from-Unheard slots ns u (v ∷ l))

  disarm_notifiers-covered : (s : State) → covered (rocket_df_disarm_notifiers e s) ≡ covered s
  unfolding rocket_df_disarm_notifiers
  disarm_notifiers-covered s =
      ground (arith, disarm_from-Unheard s.slots s.notifiers s.unsafe s.log)

  -- Without the boost, what is covered stays so when the rate on record becomes the safe one.
  fini_owner-covered :
      (i : ℕ) (s : State)
      → (not (ltb rocket_safe_rate s.req_rate) || s.refs_held) ≡ true
      → covered s ≡ true
      → covered (fini_owner e i s) ≡ true
  unfolding fini_owner
  fini_owner-covered i s a h =
      let c = if s.cdev then record (emit cooling_unregister s) { cdev = false } else s in
      let c = record c { req_rate = rocket_safe_rate } in
      let w = (write_rate e i rocket_safe_rate (record c { refs_held = false })).1 in
      let x = (write_rate e i rocket_safe_rate c).1 in
      ground (
        arith,
        write_safe-lem e i c,
        write_safe-lem e i (record c { refs_held = false }),
        release_all-covered w,
        disarm_notifiers-covered (record (rocket_devfreq_release_all w) { core = none }),
        disarm_notifiers-covered (record c { core = none }),
        disarm_notifiers-covered (record x { core = none }),
      )

  pub fini-covered :
      (core : Option ℕ) (s : State)
      → (not (ltb rocket_safe_rate s.req_rate) || s.refs_held) ≡ true
      → covered s ≡ true
      → covered (rocket_devfreq_fini e core s) ≡ true
  unfolding rocket_devfreq_fini
  fini-covered none s a h = h
  fini-covered (some i) s a h = ground (arith, fini_owner-covered i s)
