-- ===== src/Devfreq/Target.antt =====
-- `rocket_devfreq_target` of npu/driver/rocket_devfreq.c, which the governor calls to change the
-- rate, and `rocket_devfreq_get_cur_freq`.
pub mod Refs
pub mod Guards
pub mod Report
pub mod Sound
pub mod Covered
pub mod Moments
pub mod Volts
use rk3588_npu_gpu.Base.{
  ℕ, Bool, true, false, ◌&&◌, ◌||◌, not, Option, none, some, ℤ, pos, ltb, ◌==◌, ltb_ℤ, is_neg,
  is_zero, if◌then◌else◌, enodev, eagain, eperm,
}
use rk3588_npu_gpu.Devfreq.Kernel.{Env, get_voltage, recommended_opp}
use rk3588_npu_gpu.Devfreq.{
  State, Outcome, returns, emit, read_rate, write_rate, rocket_safe_rate, rocket_high_rate,
  rocket_volt_for_high, rocket_df_all_guarded, rocket_devfreq_hold_all, rocket_devfreq_release_all,
}

-- The references after the rate has been written: those taken by this call are kept as the boost
-- set above the safe rate, and given back otherwise; an older boost set is given back either way.
unfoldable pub settle_refs : State → State
settle_refs s =
    if ltb rocket_safe_rate s.req_rate
    then record (if s.refs_held then rocket_devfreq_release_all s else s) { refs_held = true }
    else rocket_devfreq_release_all
        (if s.refs_held then rocket_devfreq_release_all (record s { refs_held = false }) else s)

module _ (e : Env) (owner freq : ℕ) where
  -- From `old = rocket_df.req_rate` on.
  unfoldable pub change_rate : State → Outcome
  change_rate s =
      let (ret, s') = write_rate e owner freq (record s { req_rate = freq }) in
      if is_zero ret
      then (let (got, s') = read_rate e owner s' in returns ret got (settle_refs s'))
      else returns ret freq (settle_refs (record s' { req_rate = s.req_rate }))

  unfoldable pub power_up : State → Outcome
  power_up s =
      let (ret, s') = rocket_devfreq_hold_all e s in
      if is_neg ret then returns ret freq s' else change_rate s'

  -- The reading of the rail: -ENODEV without a regulator.
  unfoldable pub rail_voltage : State → ℤ × State
  rail_voltage s =
      if s.reg then (let uv = e.voltage s.log in (uv, emit (get_voltage uv) s)) else (enodev, s)

  unfoldable pub check_voltage : State → Outcome
  check_voltage s =
      if ltb rocket_high_rate freq
      then (let (uv, s') = rail_voltage s in
          if ltb_ℤ uv rocket_volt_for_high then returns eperm freq s' else power_up s')
      else power_up s

  unfoldable pub check_guards : State → Outcome
  check_guards s =
      if ltb rocket_safe_rate freq && (s.unsafe || not (rocket_df_all_guarded s))
      then returns eagain freq s
      else check_voltage s

  -- The early exit, which asks the clock before it trusts the rate on record.
  unfoldable pub skip_or_change : State → Outcome
  skip_or_change s =
      if freq == s.req_rate && (freq == rocket_safe_rate || not s.unsafe)
      then (let (r, s') = read_rate e owner s in
          if r == freq then returns (pos 0) freq s' else check_guards s')
      else check_guards s

unfoldable pub target_locked : Env → ℕ → State → Outcome
target_locked e freq s = elim s.core [
  | none ↦ returns enodev freq s
  | some owner ↦ skip_or_change e owner freq s
]

unfoldable pub rocket_devfreq_target : Env → ℕ → State → Outcome
rocket_devfreq_target e freq s =
    let ret = e.opp_ret s.log freq in
    let found = e.opp_freq s.log freq in
    let s' = emit (recommended_opp freq ret found) s in
    if is_neg ret then returns ret found s' else target_locked e found s'

-- The rate reported to devfreq: the one on record, without a question to the clock.
unfoldable pub rocket_devfreq_get_cur_freq : State → ℤ × ℕ
rocket_devfreq_get_cur_freq s = (pos 0, s.req_rate)
