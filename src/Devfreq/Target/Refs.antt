-- ===== src/Devfreq/Target/Refs.antt =====
-- `rocket_devfreq_target` gives back every reference that it does not keep.
use rk3588_npu_gpu.Base.{false, refl, Option, ℕ, ◌+◌, ◌≡◌, none, some, if◌then◌else◌, arith}
use rk3588_npu_gpu.Devfreq.Kernel.{Env, recommended_opp}
use rk3588_npu_gpu.Devfreq.{
  State, rocket_devfreq_hold_all, rocket_devfreq_release_all, read_rate, write_rate, emit,
}
use rk3588_npu_gpu.Devfreq.Refs.{
  taken, dropped, owed, Balanced, hold_all-HeldAll, release_all-dropped,
}
use rk3588_npu_gpu.Devfreq.Target.{
  settle_refs, change_rate, power_up, rail_voltage, check_voltage, check_guards, skip_or_change,
  target_locked, rocket_devfreq_target,
}

-- The balance for one core.
abbrev Fair : ℕ → State → Type 0
Fair i s = taken i s.log ≡ dropped i s.log + (if s.refs_held then owed s.slots 0 i else 0)

module _ (i : ℕ) (s : State) where
  settle_refs-Fair :
      taken i s.log
        ≡ dropped i s.log + (if s.refs_held then owed s.slots 0 i else 0) + owed s.slots 0 i
      → Fair i (settle_refs s)
  unfolding settle_refs rocket_devfreq_release_all
  settle_refs-Fair h = ground (
    arith,
    release_all-dropped i s,
    release_all-dropped i (record s { refs_held = false }),
    release_all-dropped i (rocket_devfreq_release_all (record s { refs_held = false })),
  )

module _ (e : Env) (i owner freq : ℕ) (s : State) where
  change_rate-Fair :
      taken i s.log
        ≡ dropped i s.log + (if s.refs_held then owed s.slots 0 i else 0) + owed s.slots 0 i
      → Fair i (change_rate e owner freq s).state
  unfolding change_rate
  change_rate-Fair h =
      let (ret, s') = write_rate e owner freq (record s { req_rate = freq }) in
      ground (
        arith,
        settle_refs-Fair i (read_rate e owner s').1,
        settle_refs-Fair i (record s' { req_rate = s.req_rate }),
      )

module _ (e : Env) (i owner freq : ℕ) (s : State) where
  power_up-Fair : Fair i s → Fair i (power_up e owner freq s).state
  unfolding power_up
  power_up-Fair h = ground (
    arith,
    hold_all-HeldAll e i s,
    change_rate-Fair e i owner freq (rocket_devfreq_hold_all e s).1,
  )

module _ (e : Env) (i owner freq : ℕ) (s : State) where
  check_voltage-Fair : Fair i s → Fair i (check_voltage e owner freq s).state
  unfolding check_voltage rail_voltage
  check_voltage-Fair h = ground (
    arith,
    power_up-Fair e i owner freq s,
    power_up-Fair e i owner freq (rail_voltage e owner freq s).1,
  )

module _ (e : Env) (i owner freq : ℕ) (s : State) where
  skip_or_change-Fair : Fair i s → Fair i (skip_or_change e owner freq s).state
  unfolding skip_or_change check_guards
  skip_or_change-Fair h = ground (
    arith,
    check_voltage-Fair e i owner freq s,
    check_voltage-Fair e i owner freq (read_rate e owner s).1,
  )

module _ (e : Env) (i freq : ℕ) where
  target_locked-Fair :
      (owner : Option ℕ) (s : State)
      → s.core ≡ owner
      → Fair i s
      → Fair i (target_locked e freq s).state
  unfolding target_locked
  target_locked-Fair none s c h = ground arith
  target_locked-Fair (some owner) s c h = ground (arith, skip_or_change-Fair e i owner freq s)

-- Whatever the kernel answers, on every path a change of the rate leaves the references balanced:
-- if, for each core, those taken were those given back and, while the boost was on record, one for
-- each bound slot, then they are so again when it returns.
pub rocket_devfreq_target-Balanced :
    (e : Env) (freq : ℕ) (s : State) → Balanced s → Balanced (rocket_devfreq_target e freq s).state
unfolding rocket_devfreq_target
rocket_devfreq_target-Balanced e freq s h i =
    let found = e.opp_freq s.log freq in
    let s' = emit (recommended_opp freq (e.opp_ret s.log freq) found) s in
    ground (arith, h i, target_locked-Fair e i found s.core s' refl)
