-- ===== src/Devfreq/Target/Guards.antt =====
-- What `rocket_devfreq_target` demands before it raises the clock, and what it reports.
use rk3588_npu_gpu.Base.{
  ℕ, ◌≤◌, ◌≡◌, refl, ◌⊎◌, inl, inr, true, false, not, ◌||◌, Option, none, some, ltb_ℤ, max, arith,
}
use rk3588_npu_gpu.Devfreq.Kernel.{Env, Log, recommended_opp}
use rk3588_npu_gpu.Devfreq.{
  State, emit, rocket_safe_rate, rocket_high_rate, rocket_volt_for_high, rocket_df_all_guarded,
  rocket_devfreq_hold_all, rocket_devfreq_release_all, read_rate, write_rate,
}
use rk3588_npu_gpu.Devfreq.Rates.{highest, hold_all-Calm, highest-release_all}
use rk3588_npu_gpu.Devfreq.Target.{
  settle_refs, change_rate, power_up, rail_voltage, check_voltage, check_guards, skip_or_change,
  target_locked, rocket_devfreq_target,
}

settle_refs-highest : (s : State) → highest (settle_refs s).log ≡ highest s.log
unfolding settle_refs
settle_refs-highest s = ground (
  arith,
  highest-release_all s,
  highest-release_all (record s { refs_held = false }),
  highest-release_all (rocket_devfreq_release_all (record s { refs_held = false })),
)

module _ (e : Env) (owner freq : ℕ) (s : State) where
  change_rate-highest : highest (change_rate e owner freq s).state.log ≡ max freq (highest s.log)
  unfolding change_rate
  change_rate-highest =
      let (ret, s') = write_rate e owner freq (record s { req_rate = freq }) in
      ground (
        arith,
        settle_refs-highest (read_rate e owner s').1,
        settle_refs-highest (record s' { req_rate = s.req_rate }),
      )

-- No rate above the limit is asked for, or none above those asked for before.
abbrev Within : ℕ → State → State → Type 0
Within limit s s' = highest s'.log ≤ max limit (highest s.log)

module _ (e : Env) (owner freq : ℕ) (s : State) where
  power_up-Within : (limit : ℕ) → freq ≤ limit → Within limit s (power_up e owner freq s).state
  unfolding power_up
  power_up-Within limit le =
      ground
        (arith, hold_all-Calm e s, change_rate-highest e owner freq (rocket_devfreq_hold_all e s).1)

-- The rail is read as too low, or there is no regulator to read it from.
abbrev pub LowRail : Env → State → Type 0
LowRail e s = (s.reg ≡ false) ⊎ ((l : Log) → ltb_ℤ (e.voltage l) rocket_volt_for_high ≡ true)

module _ (e : Env) (owner freq : ℕ) (s : State) where
  check_voltage-Within :
      LowRail e s → Within rocket_high_rate s (check_voltage e owner freq s).state
  unfolding check_voltage rail_voltage
  check_voltage-Within (inl none_found) =
      ground (arith, power_up-Within e owner freq s rocket_high_rate)
  check_voltage-Within (inr low) =
      ground (arith, low s.log, power_up-Within e owner freq s rocket_high_rate)

  check_guards-Within :
      (s.unsafe || not (rocket_df_all_guarded s)) ≡ true
      → Within rocket_safe_rate s (check_guards e owner freq s).state
  unfolding check_guards check_voltage
  check_guards-Within open_domain = ground (arith, power_up-Within e owner freq s rocket_safe_rate)

module _ (e : Env) (owner freq : ℕ) (s : State) where
  skip_or_change-low : LowRail e s → Within rocket_high_rate s (skip_or_change e owner freq s).state
  unfolding skip_or_change check_guards
  skip_or_change-low low = ground (
    arith,
    check_voltage-Within e owner freq s low,
    check_voltage-Within e owner freq (read_rate e owner s).1 low,
  )

  skip_or_change-open :
      (s.unsafe || not (rocket_df_all_guarded s)) ≡ true
      → Within rocket_safe_rate s (skip_or_change e owner freq s).state
  unfolding skip_or_change rocket_df_all_guarded
  skip_or_change-open open_domain = ground (
    arith,
    check_guards-Within e owner freq s,
    check_guards-Within e owner freq (read_rate e owner s).1,
  )

module _ (e : Env) (freq : ℕ) where
  locked-low :
      (owner : Option ℕ) (s : State)
      → s.core ≡ owner
      → LowRail e s
      → Within rocket_high_rate s (target_locked e freq s).state
  unfolding target_locked
  locked-low none s c low = ground arith
  locked-low (some owner) s c low = ground (arith, skip_or_change-low e owner freq s low)

  locked-open :
      (owner : Option ℕ) (s : State)
      → s.core ≡ owner
      → (s.unsafe || not (rocket_df_all_guarded s)) ≡ true
      → Within rocket_safe_rate s (target_locked e freq s).state
  unfolding target_locked
  locked-open none s c o = ground arith
  locked-open (some owner) s c o = ground (arith, skip_or_change-open e owner freq s o)

abbrev asked_opp : Env → ℕ → State → State
asked_opp e freq s = emit (recommended_opp freq (e.opp_ret s.log freq) (e.opp_freq s.log freq)) s

-- The voltage guard: while the rail is read below 850000, or there is no regulator, a change of the
-- rate asks the clock for no rate above 700 MHz, nor above any asked for before.
pub target_needs_voltage :
    (e : Env) (freq : ℕ) (s : State)
    → LowRail e s
    → highest (rocket_devfreq_target e freq s).state.log ≤ max rocket_high_rate (highest s.log)
unfolding rocket_devfreq_target
target_needs_voltage e freq s low =
    ground (arith, locked-low e (e.opp_freq s.log freq) s.core (asked_opp e freq s) refl low)

-- The domain guard: while the driver is marked unsafe, or some core's notifier is not armed, a
-- change of the rate asks the clock for no rate above the safe one, nor above any asked for before.
pub target_needs_guards :
    (e : Env) (freq : ℕ) (s : State)
    → (s.unsafe || not (rocket_df_all_guarded s)) ≡ true
    → highest (rocket_devfreq_target e freq s).state.log ≤ max rocket_safe_rate (highest s.log)
unfolding rocket_devfreq_target rocket_df_all_guarded
target_needs_guards e freq s o =
    ground (arith, locked-open e (e.opp_freq s.log freq) s.core (asked_opp e freq s) refl o)
