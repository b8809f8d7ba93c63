-- ===== src/Devfreq/Target/Volts.antt =====
-- A change of the rate asks for a high rate only after it has read the rail as high enough.
use rk3588_npu_gpu.Base.{ℕ, ◌≡◌, refl, true, false, ◌||◌, not, Option, none, some, ltb, arith}
use rk3588_npu_gpu.Devfreq.Kernel.{Env, recommended_opp}
use rk3588_npu_gpu.Devfreq.{
  State, emit, read_rate, write_rate, rocket_high_rate, rocket_devfreq_hold_all,
  rocket_devfreq_release_all,
}
use rk3588_npu_gpu.Devfreq.Volts.{enough, checked, Unread, release_all-Unread, hold_all-Unread}
use rk3588_npu_gpu.Devfreq.Target.{
  settle_refs, change_rate, power_up, rail_voltage, check_voltage, check_guards, skip_or_change,
  target_locked, rocket_devfreq_target,
}

settle_refs-Unread : (s : State) → Unread s.log (settle_refs s).log
unfolding settle_refs
settle_refs-Unread s =
    let s₁ = record s { refs_held = false } in
    ground (
      arith,
      release_all-Unread s,
      release_all-Unread s₁,
      release_all-Unread (rocket_devfreq_release_all s₁),
    )

module _ (e : Env) (owner freq : ℕ) where
  change_rate-checked :
      (s : State)
      → (not (ltb rocket_high_rate freq) || enough s.log) ≡ true
      → checked s.log ≡ true
      → checked (change_rate e owner freq s).state.log ≡ true
  unfolding change_rate
  change_rate-checked s v h =
      let s₁ = (write_rate e owner freq (record s { req_rate = freq })).1 in
      ground (
        arith,
        settle_refs-Unread (read_rate e owner s₁).1,
        settle_refs-Unread (record s₁ { req_rate = s.req_rate }),
      )

  power_up-checked :
      (s : State)
      → (not (ltb rocket_high_rate freq) || enough s.log) ≡ true
      → checked s.log ≡ true
      → checked (power_up e owner freq s).state.log ≡ true
  unfolding power_up
  power_up-checked s v h =
      ground (arith, hold_all-Unread e s, change_rate-checked (rocket_devfreq_hold_all e s).1)

  check_voltage-checked :
      (s : State) → checked s.log ≡ true → checked (check_voltage e owner freq s).state.log ≡ true
  unfolding check_voltage rail_voltage
  check_voltage-checked s h =
      ground (arith, power_up-checked s, power_up-checked (rail_voltage e owner freq s).1)

  check_guards-checked :
      (s : State) → checked s.log ≡ true → checked (check_guards e owner freq s).state.log ≡ true
  unfolding check_guards
  check_guards-checked s h = ground (arith, check_voltage-checked s)

  skip_or_change-checked :
      (s : State) → checked s.log ≡ true → checked (skip_or_change e owner freq s).state.log ≡ true
  unfolding skip_or_change
  skip_or_change-checked s h =
      ground (arith, check_guards-checked s, check_guards-checked (read_rate e owner s).1)

module _ (e : Env) (freq : ℕ) where
  locked-checked :
      (o : Option ℕ) (s : State)
      → s.core ≡ o
      → checked s.log ≡ true
      → checked (target_locked e freq s).state.log ≡ true
  unfolding target_locked
  locked-checked none s c h = ground arith
  locked-checked (some owner) s c h = ground (arith, skip_or_change-checked e owner freq s)

pub rocket_devfreq_target-checked :
    (e : Env) (freq : ℕ) (s : State)
    → checked s.log ≡ true
    → checked (rocket_devfreq_target e freq s).state.log ≡ true
unfolding rocket_devfreq_target
rocket_devfreq_target-checked e freq s h =
    let found = e.opp_freq s.log freq in
    let v = recommended_opp freq (e.opp_ret s.log freq) found in
    ground (arith, locked-checked e found s.core (emit v s) refl)
