-- ===== src/Devfreq/Target/Covered.antt =====
-- A change of the rate keeps the clock covered by the rate on record.
use rk3588_npu_gpu.Base.{ℕ, ◌≡◌, refl, true, false, Option, none, some, arith}
use rk3588_npu_gpu.Devfreq.Kernel.{Env, recommended_opp}
use rk3588_npu_gpu.Devfreq.{
  State, emit, read_rate, write_rate, rocket_devfreq_hold_all, rocket_devfreq_release_all,
}
use rk3588_npu_gpu.Devfreq.Covered.{covered, release_all-covered, hold_all-covered}
use rk3588_npu_gpu.Devfreq.Target.{
  settle_refs, change_rate, power_up, rail_voltage, check_voltage, check_guards, skip_or_change,
  target_locked, rocket_devfreq_target,
}

settle_refs-covered : (s : State) → covered (settle_refs s) ≡ covered s
unfolding settle_refs
settle_refs-covered s =
    let s₁ = record s { refs_held = false } in
    ground (
      arith,
      release_all-covered s,
      release_all-covered s₁,
      release_all-covered (rocket_devfreq_release_all s₁),
    )

module _ (e : Env) (owner freq : ℕ) where
  change_rate-covered :
      (s : State) → covered s ≡ true → covered (change_rate e owner freq s).state ≡ true
  unfolding change_rate
  change_rate-covered s h =
      let s₀ = record s { req_rate = freq } in
      let (ret, s₁) = write_rate e owner freq s₀ in
      let (got, s₂) = read_rate e owner s₁ in
      let s₃ = record s₁ { req_rate = s.req_rate } in
      ground (arith, settle_refs-covered s₂, settle_refs-covered s₃)

  power_up-covered : (s : State) → covered s ≡ true → covered (power_up e owner freq s).state ≡ true
  unfolding power_up
  power_up-covered s h =
      ground (arith, hold_all-covered e s, change_rate-covered (rocket_devfreq_hold_all e s).1)

  check_voltage-covered :
      (s : State) → covered s ≡ true → covered (check_voltage e owner freq s).state ≡ true
  unfolding check_voltage rail_voltage
  check_voltage-covered s h =
      ground (arith, power_up-covered s, power_up-covered (rail_voltage e owner freq s).1)

  check_guards-covered :
      (s : State) → covered s ≡ true → covered (check_guards e owner freq s).state ≡ true
  unfolding check_guards
  check_guards-covered s h = ground (arith, check_voltage-covered s)

  skip_or_change-covered :
      (s : State) → covered s ≡ true → covered (skip_or_change e owner freq s).state ≡ true
  unfolding skip_or_change
  skip_or_change-covered s h =
      ground (arith, check_guards-covered s, check_guards-covered (read_rate e owner s).1)

module _ (e : Env) (freq : ℕ) where
  locked-covered :
      (o : Option ℕ) (s : State)
      → s.core ≡ o
      → covered s ≡ true
      → covered (target_locked e freq s).state ≡ true
  unfolding target_locked
  locked-covered none s c h = ground arith
  locked-covered (some owner) s c h = ground (arith, skip_or_change-covered e owner freq s)

pub rocket_devfreq_target-covered :
    (e : Env) (freq : ℕ) (s : State)
    → covered s ≡ true
    → covered (rocket_devfreq_target e freq s).state ≡ true
unfolding rocket_devfreq_target
rocket_devfreq_target-covered e freq s h =
    let found = e.opp_freq s.log freq in
    let v = recommended_opp freq (e.opp_ret s.log freq) found in
    ground (arith, locked-covered e found s.core (emit v s) refl)
