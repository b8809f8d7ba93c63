-- ===== src/Devfreq/Target/Moments.antt =====
-- At every moment of a change of the rate a clock raised by the driver means that the cores are held.
use rk3588_npu_gpu.Base.{
  ℕ, ◌+◌, ◌<◌, ◌≡◌, refl, true, false, ◌||◌, ◌&&◌, not, Option, none, some, ltb, ◌==◌,
  if◌then◌else◌, length, arith,
}
use rk3588_npu_gpu.Devfreq.Kernel.{Env, recommended_opp}
use rk3588_npu_gpu.Devfreq.{
  State, emit, read_rate, write_rate, rocket_safe_rate, rocket_devfreq_hold_all,
  rocket_devfreq_release_all, rocket_df_all_guarded,
}
use rk3588_npu_gpu.Devfreq.Refs.{taken, dropped, owed, hold_all-HeldAll}
use rk3588_npu_gpu.Devfreq.Bound.{Sound, armed_bound, guarded-all_bound, owed-all_bound}
use rk3588_npu_gpu.Devfreq.Covered.{covered, hold_all-covered}
use rk3588_npu_gpu.Devfreq.Moments.{
  excused, always_awake, always-now, hold_all-Eased, release_all-always,
}
use rk3588_npu_gpu.Devfreq.Target.{
  settle_refs, change_rate, power_up, rail_voltage, check_voltage, check_guards, skip_or_change,
  target_locked, rocket_devfreq_target,
}

module _ (i : ℕ) where
  settle_refs-always :
      (s : State)
      → covered s ≡ true
      → always_awake i s.log ≡ true
      → (not (ltb rocket_safe_rate s.req_rate && s.refs_held)
          || excused s.log
          || ltb (dropped i s.log + owed s.slots 0 i) (taken i s.log))
        ≡ true
      → always_awake i (settle_refs s).log ≡ true
  unfolding settle_refs
  settle_refs-always s c h p =
      let s₁ = record s { refs_held = false } in
      ground (
        arith,
        release_all-always i s,
        release_all-always i s₁,
        release_all-always i (rocket_devfreq_release_all s₁),
      )

-- The references on core `i` once all cores have been woken: a set of this call, and the boost's; and
-- they are there where a raised clock is asked for or on record.
record Ready (i freq : ℕ) (s : State) : Type 0 where
  sets :
      taken i s.log
      ≡ dropped i s.log + owed s.slots 0 i + (if s.refs_held then owed s.slots 0 i else 0)
  wanted : (not (ltb rocket_safe_rate freq) || owed s.slots 0 i == 1) ≡ true
  boosted : (not s.refs_held || owed s.slots 0 i == 1) ≡ true

module _ (e : Env) (i owner freq : ℕ) where
  change_rate-always :
      (s : State)
      → Ready i freq s
      → covered s ≡ true
      → always_awake i s.log ≡ true
      → always_awake i (change_rate e owner freq s).state.log ≡ true
  unfolding change_rate
  change_rate-always s r c h =
      let s₀ = record s { req_rate = freq } in
      let (ret, s₁) = write_rate e owner freq s₀ in
      let (got, s₂) = read_rate e owner s₁ in
      let s₃ = record s₁ { req_rate = s.req_rate } in
      ground (arith, r, always-now i s.log, settle_refs-always i s₂, settle_refs-always i s₃)

-- Before the cores are woken: a fast clock may be asked for only where the core is bound.
record Start (i freq : ℕ) (s : State) : Type 0 where
  balanced : taken i s.log ≡ dropped i s.log + (if s.refs_held then owed s.slots 0 i else 0)
  wanted : (not (ltb rocket_safe_rate freq) || owed s.slots 0 i == 1) ≡ true
  boosted : (not s.refs_held || owed s.slots 0 i == 1) ≡ true

module _ (e : Env) (i owner freq : ℕ) where
  power_up-always :
      (s : State)
      → Start i freq s
      → covered s ≡ true
      → always_awake i s.log ≡ true
      → always_awake i (power_up e owner freq s).state.log ≡ true
  unfolding power_up
  power_up-always s r c h =
      let t = (rocket_devfreq_hold_all e s).1 in
      ground (
        arith,
        r,
        hold_all-Eased e i s,
        hold_all-HeldAll e i s,
        hold_all-covered e s,
        change_rate-always e i owner freq t,
      )

  check_voltage-always :
      (s : State)
      → Start i freq s
      → covered s ≡ true
      → always_awake i s.log ≡ true
      → always_awake i (check_voltage e owner freq s).state.log ≡ true
  unfolding check_voltage rail_voltage
  check_voltage-always s r c h = ground (
    arith,
    r,
    always-now i s.log,
    power_up-always s,
    power_up-always (rail_voltage e owner freq s).1,
  )

-- What holds between the calls, of core `i`.
record Between (i : ℕ) (s : State) : Type 0 where
  balanced : taken i s.log ≡ dropped i s.log + (if s.refs_held then owed s.slots 0 i else 0)
  boosted : (not s.refs_held || owed s.slots 0 i == 1) ≡ true
  kept : (s.unsafe || armed_bound 0 s.notifiers s.slots) ≡ true
  inside : i < length s.slots

module _ (e : Env) (i owner freq : ℕ) where
  check_guards-always :
      (s : State)
      → Between i s
      → covered s ≡ true
      → always_awake i s.log ≡ true
      → always_awake i (check_guards e owner freq s).state.log ≡ true
  unfolding check_guards rocket_df_all_guarded
  check_guards-always s b c h = ground (
    arith,
    b,
    guarded-all_bound 0 s.notifiers s.slots,
    owed-all_bound s.slots 0 i,
    check_voltage-always e i owner freq s,
  )

  skip_or_change-always :
      (s : State)
      → Between i s
      → covered s ≡ true
      → always_awake i s.log ≡ true
      → always_awake i (skip_or_change e owner freq s).state.log ≡ true
  unfolding skip_or_change
  skip_or_change-always s b c h = ground (
    arith,
    b,
    always-now i s.log,
    check_guards-always s,
    check_guards-always (read_rate e owner s).1,
  )

module _ (e : Env) (i freq : ℕ) where
  locked-always :
      (o : Option ℕ) (s : State)
      → s.core ≡ o
      → Between i s
      → covered s ≡ true
      → always_awake i s.log ≡ true
      → always_awake i (target_locked e freq s).state.log ≡ true
  unfolding target_locked
  locked-always none s o b c h = ground arith
  locked-always (some owner) s o b c h = ground (arith, skip_or_change-always e i owner freq s)

pub rocket_devfreq_target-always :
    (e : Env)
    → (i freq : ℕ) (s : State) → Sound s
    → i < length s.slots
    → covered s ≡ true
    → always_awake i s.log ≡ true
    → always_awake i (rocket_devfreq_target e freq s).state.log ≡ true
unfolding rocket_devfreq_target
rocket_devfreq_target-always e i freq s w p c h =
    let v = recommended_opp freq (e.opp_ret s.log freq) (e.opp_freq s.log freq) in
    ground (
      arith,
      w.balanced i,
      w.full,
      w.kept,
      owed-all_bound s.slots 0 i,
      always-now i s.log,
      locked-always e i (e.opp_freq s.log freq) s.core (emit v s) refl,
    )
