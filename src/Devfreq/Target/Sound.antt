-- ===== src/Devfreq/Target/Sound.antt =====
-- A change of the rate keeps what holds between the calls of rocket_devfreq.c.
use rk3588_npu_gpu.Base.{ℕ, ◌≡◌, refl, true, ◌||◌, not, Option, none, some, is_some, ltb, arith}
use rk3588_npu_gpu.Devfreq.Kernel.{Env}
use rk3588_npu_gpu.Devfreq.{
  State, rocket_safe_rate, rocket_df_all_guarded, rocket_devfreq_hold_all,
  rocket_devfreq_release_all, read_rate, write_rate,
}
use rk3588_npu_gpu.Devfreq.Refs.{hold_all-HeldAll}
use rk3588_npu_gpu.Devfreq.Rates.{hold_all-Calm}
use rk3588_npu_gpu.Devfreq.Bound.{Sound, all_bound, armed_bound, guarded-all_bound}
use rk3588_npu_gpu.Devfreq.Target.{
  settle_refs, change_rate, power_up, rail_voltage, check_voltage, check_guards, skip_or_change,
  target_locked, rocket_devfreq_target,
}
use rk3588_npu_gpu.Devfreq.Target.Refs.{rocket_devfreq_target-Balanced}
use rk3588_npu_gpu.Devfreq.Target.Report.{target_keeps_cores_awake, asked_opp}

-- What a change of the rate leaves alone, and what it means if it leaves the cores held.
pub record Kept (s s' : State) : Type 0 where
  core : s'.core ≡ s.core
  unsafe : s'.unsafe ≡ s.unsafe
  notifiers : s'.notifiers ≡ s.notifiers
  pub slots : s'.slots ≡ s.slots
  full : (not s'.refs_held || all_bound s.slots) ≡ true

settle_refs-Kept :
    (s : State)
    → (not (ltb rocket_safe_rate s.req_rate) || all_bound s.slots) ≡ true
    → Kept s (settle_refs s)
unfolding settle_refs rocket_devfreq_release_all
settle_refs-Kept s h = ground arith

-- A rate above the safe one, asked for or on record, is there only with all cores bound.
abbrev Backed : ℕ → State → Type 0
Backed freq s =
    ((not (ltb rocket_safe_rate freq) || all_bound s.slots) ≡ true)
    × ((not (ltb rocket_safe_rate s.req_rate) || all_bound s.slots) ≡ true)

module _ (e : Env) (owner freq : ℕ) (s : State) where
  change_rate-Kept : Backed freq s → Kept s (change_rate e owner freq s).state
  unfolding change_rate
  change_rate-Kept h =
      let (ret, s') = write_rate e owner freq (record s { req_rate = freq }) in
      ground (
        arith,
        settle_refs-Kept (read_rate e owner s').1,
        settle_refs-Kept (record s' { req_rate = s.req_rate }),
      )

module _ (e : Env) (owner freq : ℕ) (s : State) where
  power_up-Kept :
      Backed freq s
      → (not s.refs_held || all_bound s.slots) ≡ true
      → Kept s (power_up e owner freq s).state
  unfolding power_up
  power_up-Kept h k = ground (
    arith,
    hold_all-Calm e s,
    hold_all-HeldAll e 0 s,
    change_rate-Kept e owner freq (rocket_devfreq_hold_all e s).1,
  )

module _ (e : Env) (owner freq : ℕ) (s : State) where
  check_voltage-Kept :
      Backed freq s
      → (not s.refs_held || all_bound s.slots) ≡ true
      → Kept s (check_voltage e owner freq s).state
  unfolding check_voltage rail_voltage
  check_voltage-Kept h k = ground (
    arith,
    power_up-Kept e owner freq s,
    power_up-Kept e owner freq (rail_voltage e owner freq s).1,
  )

module _ (e : Env) (owner freq : ℕ) (s : State) where
  check_guards-Kept :
      (not s.refs_held || all_bound s.slots) ≡ true
      → (not (ltb rocket_safe_rate s.req_rate) || s.refs_held) ≡ true
      → (s.unsafe || armed_bound 0 s.notifiers s.slots) ≡ true
      → Kept s (check_guards e owner freq s).state
  unfolding check_guards rocket_df_all_guarded
  check_guards-Kept k a m =
      ground (arith, guarded-all_bound 0 s.notifiers s.slots, check_voltage-Kept e owner freq s)

module _ (e : Env) (owner freq : ℕ) (s : State) where
  skip_or_change-Kept :
      (not s.refs_held || all_bound s.slots) ≡ true
      → (not (ltb rocket_safe_rate s.req_rate) || s.refs_held) ≡ true
      → (s.unsafe || armed_bound 0 s.notifiers s.slots) ≡ true
      → Kept s (skip_or_change e owner freq s).state
  unfolding skip_or_change
  skip_or_change-Kept k a m = ground (
    arith,
    check_guards-Kept e owner freq s,
    check_guards-Kept e owner freq (read_rate e owner s).1,
  )

module _ (e : Env) (freq : ℕ) where
  locked-Kept :
      (owner : Option ℕ) (s : State)
      → s.core ≡ owner
      → (not s.refs_held || all_bound s.slots) ≡ true
      → (not (ltb rocket_safe_rate s.req_rate) || s.refs_held) ≡ true
      → (s.unsafe || armed_bound 0 s.notifiers s.slots) ≡ true
      → (not s.refs_held || is_some s.core) ≡ true
      → Kept s (target_locked e freq s).state
        × ((not (target_locked e freq s).state.refs_held || is_some s.core) ≡ true)
  unfolding target_locked
  locked-Kept none s c k a m o = ground arith
  locked-Kept (some owner) s c k a m o = ground (arith, skip_or_change-Kept e owner freq s)

pub target-Kept :
    (e : Env) (freq : ℕ) (s : State)
    → Sound s
    → let s' = (rocket_devfreq_target e freq s).state in
      Kept s s' × ((not s'.refs_held || is_some s.core) ≡ true)
unfolding rocket_devfreq_target
target-Kept e freq s h =
    ground (arith, locked-Kept e (e.opp_freq s.log freq) s.core (asked_opp e freq s) refl)

pub rocket_devfreq_target-Sound :
    (e : Env) (freq : ℕ) (s : State) → Sound s → Sound (rocket_devfreq_target e freq s).state
rocket_devfreq_target-Sound e freq s h =
    let k = target-Kept e freq s h in
    record {
      balanced = rocket_devfreq_target-Balanced e freq s h.balanced;
      awake = target_keeps_cores_awake e freq s h.awake;
      owned = ground (arith, k);
      full = ground (arith, k);
      kept = ground (arith, k);
    }
