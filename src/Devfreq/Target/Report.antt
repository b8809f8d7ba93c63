-- ===== src/Devfreq/Target/Report.antt =====
-- What `rocket_devfreq_target` says of the rate, and what it leaves in `rocket_df`.
use rk3588_npu_gpu.Base.{
  ℕ, suc, ◌≡◌, refl, true, false, not, ◌||◌, Option, none, some, List, [], ◌∷◌, pos, ltb, is_neg,
  arith,
}
use rk3588_npu_gpu.Devfreq.Kernel.{
  Env, Log, get_rate, recommended_opp, put_autosuspend, mark_last_busy,
}
use rk3588_npu_gpu.Devfreq.{
  State, Slot, Outcome, returns, emit, rocket_safe_rate, release_from, rocket_devfreq_hold_all,
  rocket_devfreq_release_all, read_rate, write_rate,
}
use rk3588_npu_gpu.Devfreq.Refs.{hold_all-HeldAll}
use rk3588_npu_gpu.Devfreq.Rates.{hold_all-Calm}
use rk3588_npu_gpu.Devfreq.Target.{
  settle_refs, change_rate, power_up, rail_voltage, check_voltage, check_guards, skip_or_change,
  target_locked, rocket_devfreq_target,
}

-- The last rate that the clock was read at.
abbrev pub last_rate : Log → Option ℕ
last_rate [] = none
last_rate (get_rate j r ∷ l) = some r
last_rate (_ ∷ l) = last_rate l

last_rate-release_from :
    (cs : List Slot) (j : ℕ) (l : Log) → last_rate (release_from cs j l) ≡ last_rate l
unfolding release_from
last_rate-release_from [] j l = refl
last_rate-release_from (c ∷ cs) j l = ground (
  arith,
  last_rate-release_from cs (suc j) l,
  last_rate-release_from cs (suc j) (put_autosuspend j ∷ mark_last_busy j ∷ l),
)

last_rate-release_all : (s : State) → last_rate (rocket_devfreq_release_all s).log ≡ last_rate s.log
unfolding rocket_devfreq_release_all
last_rate-release_all s = last_rate-release_from s.slots 0 s.log

settle_refs-last_rate : (s : State) → last_rate (settle_refs s).log ≡ last_rate s.log
unfolding settle_refs
settle_refs-last_rate s = ground (
  arith,
  last_rate-release_all s,
  last_rate-release_all (record s { refs_held = false }),
  last_rate-release_all (rocket_devfreq_release_all (record s { refs_held = false })),
)

-- A success reports the rate that was read last.
abbrev Honest : Outcome → Type 0
Honest o = o.ret ≡ pos 0 → last_rate o.state.log ≡ some o.freq

module _ (e : Env) (owner freq : ℕ) (s : State) where
  change_rate-Honest : Honest (change_rate e owner freq s)
  unfolding change_rate
  change_rate-Honest h =
      let (ret, s') = write_rate e owner freq (record s { req_rate = freq }) in
      ground (
        arith,
        settle_refs-last_rate (read_rate e owner s').1,
        settle_refs-last_rate (record s' { req_rate = s.req_rate }),
      )

  change_rate-held :
      let s' = (change_rate e owner freq s).state in
      (not (ltb rocket_safe_rate s'.req_rate) || s'.refs_held) ≡ true
  unfolding change_rate settle_refs rocket_devfreq_release_all
  change_rate-held = ground arith

module _ (e : Env) (owner freq : ℕ) (s : State) where
  power_up-Honest : Honest (power_up e owner freq s)
  unfolding power_up
  power_up-Honest h =
      ground (arith, change_rate-Honest e owner freq (rocket_devfreq_hold_all e s).1)

  power_up-held :
      (not (ltb rocket_safe_rate s.req_rate) || s.refs_held) ≡ true
      → let s' = (power_up e owner freq s).state in
        (not (ltb rocket_safe_rate s'.req_rate) || s'.refs_held) ≡ true
  unfolding power_up
  power_up-held h = ground (
    arith,
    hold_all-Calm e s,
    hold_all-HeldAll e 0 s,
    change_rate-held e owner freq (rocket_devfreq_hold_all e s).1,
  )

module _ (e : Env) (owner freq : ℕ) (s : State) where
  skip_or_change-Honest : Honest (skip_or_change e owner freq s)
  unfolding skip_or_change check_guards check_voltage rail_voltage
  skip_or_change-Honest h =
      let s' = (read_rate e owner s).1 in
      ground (
        arith,
        power_up-Honest e owner freq s,
        power_up-Honest e owner freq s',
        power_up-Honest e owner freq (rail_voltage e owner freq s).1,
        power_up-Honest e owner freq (rail_voltage e owner freq s').1,
      )

  skip_or_change-held :
      (not (ltb rocket_safe_rate s.req_rate) || s.refs_held) ≡ true
      → let s' = (skip_or_change e owner freq s).state in
        (not (ltb rocket_safe_rate s'.req_rate) || s'.refs_held) ≡ true
  unfolding skip_or_change check_guards check_voltage rail_voltage
  skip_or_change-held h =
      let s' = (read_rate e owner s).1 in
      ground (
        arith,
        power_up-held e owner freq s,
        power_up-held e owner freq s',
        power_up-held e owner freq (rail_voltage e owner freq s).1,
        power_up-held e owner freq (rail_voltage e owner freq s').1,
      )

module _ (e : Env) (freq : ℕ) where
  locked-Honest : (owner : Option ℕ) (s : State) → s.core ≡ owner → Honest (target_locked e freq s)
  unfolding target_locked
  locked-Honest none s c h = ground arith
  locked-Honest (some owner) s c h = ground (arith, skip_or_change-Honest e owner freq s)

  locked-held :
      (owner : Option ℕ) (s : State)
      → s.core ≡ owner
      → (not (ltb rocket_safe_rate s.req_rate) || s.refs_held) ≡ true
      → let s' = (target_locked e freq s).state in
        (not (ltb rocket_safe_rate s'.req_rate) || s'.refs_held) ≡ true
  unfolding target_locked
  locked-held none s c h = ground arith
  locked-held (some owner) s c h = ground (arith, skip_or_change-held e owner freq s)

abbrev pub asked_opp : Env → ℕ → State → State
asked_opp e freq s = emit (recommended_opp freq (e.opp_ret s.log freq) (e.opp_freq s.log freq)) s

-- A change of the rate that returns 0 leaves in `*freq` the rate that the clock was last read at,
-- after the write if there was one.
pub target_reports_reading :
    (e : Env) (freq : ℕ) (s : State)
    → (rocket_devfreq_target e freq s).ret ≡ pos 0
    → let o = rocket_devfreq_target e freq s in last_rate o.state.log ≡ some o.freq
unfolding rocket_devfreq_target
target_reports_reading e freq s h =
    ground (arith, locked-Honest e (e.opp_freq s.log freq) s.core (asked_opp e freq s) refl)

-- If the cores are held awake whenever the rate on record is above the safe one, that is so again
-- after a change of the rate, on every path.
pub target_keeps_cores_awake :
    (e : Env) (freq : ℕ) (s : State)
    → (not (ltb rocket_safe_rate s.req_rate) || s.refs_held) ≡ true
    → let s' = (rocket_devfreq_target e freq s).state in
      (not (ltb rocket_safe_rate s'.req_rate) || s'.refs_held) ≡ true
unfolding rocket_devfreq_target
target_keeps_cores_awake e freq s h =
    ground (arith, locked-held e (e.opp_freq s.log freq) s.core (asked_opp e freq s) refl)

-- A tick of the governor that asks again for the safe rate, on record and on the clock, asks the
-- kernel for two things only, the OPP and the rate: it wakes no core and writes no clock.
pub idle_tick :
    (e : Env) (owner : ℕ) (s : State)
    → s.core ≡ some owner
    → s.req_rate ≡ rocket_safe_rate
    → let freq = rocket_safe_rate in
      let s' = asked_opp e freq s in
      is_neg (e.opp_ret s.log freq) ≡ false
      → e.opp_freq s.log freq ≡ freq
      → e.rate s'.log owner ≡ freq
      → rocket_devfreq_target e freq s ≡ returns (pos 0) freq (emit (get_rate owner freq) s')
unfolding rocket_devfreq_target target_locked skip_or_change
idle_tick e owner s c r ok f k = ground arith
