-- ===== src/Devfreq/Lifecycle/Calls.antt =====
-- The calls of rocket_devfreq.c from probe to shutdown keep what holds between the calls.
use rk3588_npu_gpu.Base.{
  ℕ, ◌≡◌, refl, Bool, true, false, ◌&&◌, Option, none, some, ℤ, if◌then◌else◌, if_both, arith,
}
use rk3588_npu_gpu.Devfreq.Kernel.{Env, cooling_unregister}
use rk3588_npu_gpu.Devfreq.{
  State, emit, dev_of, rocket_safe_rate, rocket_devfreq_release_all, rocket_devfreq_owns,
  write_rate,
}
use rk3588_npu_gpu.Devfreq.Bound.{Sound, unbind_from}
use rk3588_npu_gpu.Devfreq.Lifecycle.{
  same_core, rocket_df_arm_notifiers, rocket_df_disarm_notifiers, suspend_live,
  rocket_devfreq_suspend, rocket_devfreq_core_removed, rocket_devfreq_core_added, fini_owner,
  rocket_devfreq_fini, rocket_devfreq_shutdown,
}
use rk3588_npu_gpu.Devfreq.Lifecycle.Fini.{disarm_from-refs}
use rk3588_npu_gpu.Devfreq.Lifecycle.Sound.{
  Leaving, remove_live-Leaving, arm_from-refs, arm_from-bound, disarm_from-bound,
  disarm_from-unsafe,
}

pub rocket_devfreq_core_removed-Leaving :
    (e : Env) (i : ℕ) (s : State)
    → dev_of s.slots i ≡ true
    → Sound s
    → Leaving i (rocket_devfreq_core_removed e (some i) s)
unfolding rocket_devfreq_core_removed
rocket_devfreq_core_removed-Leaving e i s d h = rw d (remove_live-Leaving e i s h)

module _ (e : Env) (s : State) where
  pub arm_notifiers-refs_held : (rocket_df_arm_notifiers e s).refs_held ≡ s.refs_held
  unfolding rocket_df_arm_notifiers
  arm_notifiers-refs_held = refl

  pub arm_notifiers-Sound : Sound s → Sound (rocket_df_arm_notifiers e s)
  unfolding rocket_df_arm_notifiers
  arm_notifiers-Sound h =
      let c = arm_from-refs e 0 0 s.slots s.notifiers s.unsafe s.log in
      record {
        balanced = λ j.
            ground (arith, h.balanced j, arm_from-refs e j 0 s.slots s.notifiers s.unsafe s.log);
        awake = h.awake;
        owned = h.owned;
        full = h.full;
        kept = ground (
          arith,
          h.kept,
          arm_from-refs e 0 0 s.slots s.notifiers s.unsafe s.log,
          arm_from-bound e 0 s.slots s.notifiers s.unsafe s.log,
        );
      }

module _ (e : Env) (s : State) where
  pub rocket_devfreq_core_added-Sound :
      (core : Option ℕ) → Sound s → Sound (rocket_devfreq_core_added e core s)
  unfolding rocket_devfreq_core_added
  rocket_devfreq_core_added-Sound core h =
      if_both Sound (rocket_devfreq_owns s core) (arm_notifiers-Sound e s h) h

-- A request for a rate changes nothing but the log, and neither takes nor gives back a reference.
write_rate-Sound : (e : Env) (i r : ℕ) (s : State) → Sound s → Sound (write_rate e i r s).1
write_rate-Sound e i r s h = record {
  balanced = λ j. ground (arith, h.balanced j);
  awake = h.awake;
  owned = h.owned;
  full = h.full;
  kept = h.kept;
}

pub rocket_devfreq_suspend-Sound :
    (e : Env) (core : Option ℕ) (s : State) → Sound s → Sound (rocket_devfreq_suspend e core s).1
unfolding rocket_devfreq_suspend suspend_live
rocket_devfreq_suspend-Sound e none s h = h
rocket_devfreq_suspend-Sound e (some i) s h =
    if_both {A = ℤ × State} (λ r. Sound r.1) (rocket_devfreq_owns s (some i))
      (write_rate-Sound e i rocket_safe_rate s h) h

pub rocket_devfreq_shutdown-Sound :
    (e : Env) (core : Option ℕ) (s : State) → Sound s → Sound (rocket_devfreq_shutdown e core s)
unfolding rocket_devfreq_shutdown
rocket_devfreq_shutdown-Sound e none s h = h
rocket_devfreq_shutdown-Sound e (some i) s h =
    if_both Sound (rocket_devfreq_owns s (some i) && same_core (some i) s.core)
      (if_both Sound (e.suspended s.log i) h (write_rate-Sound e i rocket_safe_rate s h)) h

-- The end of the ownership keeps what holds while a core is being removed.
module _ (e : Env) (i : ℕ) (s : State) where
  disarm_notifiers-Leaving : Leaving i s → Leaving i (rocket_df_disarm_notifiers e s)
  unfolding rocket_df_disarm_notifiers
  disarm_notifiers-Leaving h = record {
    balanced =
        λ j. ground (arith, h.balanced j, disarm_from-refs e j s.slots s.notifiers s.unsafe s.log);
    awake = h.awake;
    idle = h.idle;
    kept = ground (
      arith,
      h.kept,
      disarm_from-unsafe e s.slots s.notifiers s.unsafe s.log,
      disarm_from-bound e s.slots 0 s.notifiers s.unsafe s.log (unbind_from i 0 s.slots),
    );
  }

write_rate-Leaving :
    (e : Env) (k i r : ℕ) (s : State) → Leaving k s → Leaving k (write_rate e i r s).1
write_rate-Leaving e k i r s h = record {
  balanced = λ j. ground (arith, h.balanced j);
  awake = h.awake;
  idle = h.idle;
  kept = h.kept;
}

module _ (e : Env) (i : ℕ) (s : State) where
  cooling-Leaving :
      Leaving i s
      → Leaving i
          (record (if s.cdev then record (emit cooling_unregister s) { cdev = false } else s) {
            req_rate = rocket_safe_rate;
          })
  cooling-Leaving h =
      if_both (λ x. Leaving i (record x { req_rate = rocket_safe_rate })) s.cdev
        (record {
          balanced = λ j. ground (arith, h.balanced j);
          awake = refl;
          idle = h.idle;
          kept = h.kept;
        })
        (record { balanced = h.balanced; awake = refl; idle = h.idle; kept = h.kept })

ownerless-Leaving : (k : ℕ) (s : State) → Leaving k s → Leaving k (record s { core = none })
ownerless-Leaving k s h = record {
  balanced = h.balanced;
  awake = h.awake;
  idle = h.idle;
  kept = h.kept;
}

-- The call for the rate of an owner whose references have been given back.
fini_rate-Leaving :
    (e : Env) (i k : ℕ) (held : Bool) (s : State)
    → held ≡ false
    → Leaving k s
    → Leaving k (
        if held
        then rocket_devfreq_release_all
            (write_rate e i rocket_safe_rate (record s { refs_held = false })).1
        else if e.suspended s.log i
        then s
        else (write_rate e i rocket_safe_rate s).1)
fini_rate-Leaving e i k true s o h = cc
fini_rate-Leaving e i k false s o h =
    if_both (Leaving k) (e.suspended s.log i) h (write_rate-Leaving e k i rocket_safe_rate s h)

module _ (e : Env) (i k : ℕ) (s : State) where
  fini_owner-Leaving : Leaving k s → Leaving k (fini_owner e i s)
  unfolding fini_owner
  fini_owner-Leaving h =
      let c = record (if s.cdev then record (emit cooling_unregister s) { cdev = false } else s) {
        req_rate = rocket_safe_rate;
      } in
      let d = cooling-Leaving e k s h in
      disarm_notifiers-Leaving e k _
        (ownerless-Leaving k _ (fini_rate-Leaving e i k c.refs_held c d.idle d))

pub rocket_devfreq_fini-Leaving :
    (e : Env) (k : ℕ) (core : Option ℕ) (s : State)
    → Leaving k s
    → Leaving k (rocket_devfreq_fini e core s)
unfolding rocket_devfreq_fini
rocket_devfreq_fini-Leaving e k none s h = h
rocket_devfreq_fini-Leaving e k (some i) s h =
    if_both (Leaving k) (rocket_devfreq_owns s (some i) && same_core (some i) s.core)
      (fini_owner-Leaving e i k s h) h

-- Once the slot is empty, what holds between the calls holds again.
pub unbind-Sound :
    (i : ℕ) (s : State) → Leaving i s → Sound (record s { slots = unbind_from i 0 s.slots })
unbind-Sound i s h = record {
  balanced = λ j. ground (arith, h.balanced j, h.idle);
  awake = ground (arith, h.awake);
  owned = ground (arith, h.idle);
  full = ground (arith, h.idle);
  kept = h.kept;
}
