-- ===== src/System/Examples.antt =====
-- The driver for a device tree with three cores, and a kernel in which every call succeeds.
use rk3588_npu_gpu.Base.{
  ℕ, ◌+◌, ◌≤◌, ◌<◌, ◌≡◌, refl, true, false, List, [], ◌∷◌, ◌++◌, pos, negsuc, is_zero,
  if◌then◌else◌, max, is_some, arith,
}
use rk3588_npu_gpu.Devfreq.Kernel.{Env, Log, set_rate, get_rate}
use rk3588_npu_gpu.Devfreq.{
  rocket_safe_rate, rocket_high_rate, pre_off, armed_count, rocket_df_all_guarded,
  rocket_devfreq_owns, release_from, rocket_devfreq_release_all, make_safe, notify_core,
  notify_block, rocket_df_notify, resume_and_get, hold_from, rocket_devfreq_hold_all, give_back,
}
use rk3588_npu_gpu.Devfreq.Target.{
  settle_refs, change_rate, power_up, check_voltage, rail_voltage, rocket_devfreq_get_cur_freq,
  check_guards, skip_or_change, target_locked, rocket_devfreq_target,
}
use rk3588_npu_gpu.Devfreq.Init.{
  add_opps, add_devfreq, take_ownership, set_up_opps, rocket_devfreq_init,
}
use rk3588_npu_gpu.Devfreq.Lifecycle.{
  arm_from, rocket_df_arm_notifiers, rocket_devfreq_core_added, rocket_devfreq_suspend,
  suspend_live,
}
use rk3588_npu_gpu.Devfreq.Refs.{taken, dropped, owed}
use rk3588_npu_gpu.Devfreq.Covered.{raised, refused}
use rk3588_npu_gpu.System.Fast.{fast_clock_holds_all, reported_rate_covers}
use rk3588_npu_gpu.System.Power.{
  all_in_turn, is_active, switched_on, switched_off, bit, clocks_follow_power,
}
use rk3588_npu_gpu.Devfreq.Volts.{enough}
use rk3588_npu_gpu.System.Volts.{high_rate_needs_reading}
use rk3588_npu_gpu.System.Moments.{fast_clock_holds_always}
use rk3588_npu_gpu.Devfreq.Bound.{first_free, bind_from, all_bound}
use rk3588_npu_gpu.System.{
  Answers, Step, probe, remove, shutdown, runtime_suspend, runtime_resume,
  rocket_device_runtime_suspend, rocket_device_runtime_resume, notify, target, loaded, rocket_probe,
  open_device, start_core, wake_core, claim_slot, step, run,
}
use rk3588_npu_gpu.System.Whole.{loaded-Whole, Resumes, Whole}
use rk3588_npu_gpu.System.Run.{run-Whole}
use rk3588_npu_gpu.System.Undo.{Undone, rocket_probe_fails}

-- A clock that starts at the safe rate and then runs at the rate that was last set with success.
abbrev clock_rate : Log → ℕ
clock_rate [] = rocket_safe_rate
clock_rate (set_rate i r ret ∷ l) = if is_zero ret then r else clock_rate l
clock_rate (_ ∷ l) = clock_rate l

abbrev kernel : Env
kernel = record {
  rate = λ l i. clock_rate l;
  set_ret = λ l i r. pos 0;
  powers_on = λ l i. true;
  resume_ret = λ l i. pos 0;
  suspended = λ l i. false;
  voltage = λ l. pos 850_000;
  opp_ret = λ l f. pos 0;
  opp_freq = λ l f. f;
  add_ret = λ l i. pos 0;
  remove_ret = λ l i. pos 0;
  regulator_ret = λ l. pos 0;
  config_ret = λ l. pos 0;
  opp_add_ret = λ l r. pos 0;
  device_ret = λ l. pos 0;
  cooling_ret = λ l. pos 0;
}

kernel-Resumes : Resumes kernel
kernel-Resumes l i = refl

abbrev fine : Answers
fine = record { group = true; device_ret = pos 0; ready_ret = pos 0; now = 5 }

abbrev three_cores : List Step
three_cores = probe fine ∷ probe fine ∷ probe fine ∷ []

abbrev life : List Step
life =
    three_cores
    ++ target rocket_high_rate
      ∷ notify 1 pre_off
      ∷ target rocket_high_rate
      ∷ remove 2
      ∷ runtime_suspend 1 0
      ∷ shutdown 0
      ∷ []

run-Whole_example : Whole (run kernel life (loaded 3))
run-Whole_example = run-Whole kernel kernel-Resumes life (loaded 3) (loaded-Whole 3 (omega arith))

abbrev broken : Answers
broken = record { group = true; device_ret = pos 0; ready_ret = negsuc 11; now = 5 }

rocket_probe_fails_example : Undone (loaded 3) (rocket_probe kernel broken (loaded 3)).1
unfolding rocket_probe open_device first_free start_core wake_core
rocket_probe_fails_example =
    rocket_probe_fails kernel broken (loaded 3) (loaded-Whole 3 (omega arith)) refl

-- The clock is raised once all three cores are up.
abbrev boost : List Step
boost = three_cores ++ target rocket_high_rate ∷ []

abbrev boosted_log : Log
boosted_log = (run kernel boost (loaded 3)).df.log

-- A power domain is then switched: the log of the boost is a moment of that run, before its last two
-- calls.
abbrev switched : List Step
switched = boost ++ notify 1 pre_off ∷ []

abbrev last_calls : Log
last_calls = set_rate 1 rocket_safe_rate (pos 0) ∷ get_rate 1 rocket_high_rate ∷ []

-- The clock is raised to 1 GHz; the last call reads it back, and the one before it set it.
abbrev fastest : List Step
fastest = three_cores ++ target 1_000_000_000 ∷ []

abbrev fastest_log : Log
fastest_log = (run kernel fastest (loaded 3)).df.log

abbrev without_newest : Log → Log
without_newest [] = []
without_newest (v ∷ l) = l

-- Core 0 is resumed and suspended twice, the first time with a job queued.
abbrev naps : List Step
naps = probe fine ∷ runtime_resume 0 (pos 0) ∷ runtime_suspend 0 1 ∷ runtime_suspend 0 0 ∷ []

-- What these runs compute to.
record Computed : Type 0 where
  accepted : refused boosted_log ≡ false
  fast : raised boosted_log ≡ rocket_high_rate
  slowed : (run kernel switched (loaded 3)).df.log ≡ last_calls ++ boosted_log
  requested :
      fastest_log
      ≡ (get_rate 0 1_000_000_000 ∷ [])
        ++ set_rate 0 1_000_000_000 (pos 0) ∷ without_newest (without_newest fastest_log)
  in_turn : all_in_turn kernel 0 naps false (loaded 3) ≡ true

runs : Computed
unfolding rocket_devfreq_target start_core wake_core open_device claim_slot rocket_probe step run
    first_free bind_from armed_count rocket_df_all_guarded rocket_devfreq_owns release_from
    rocket_devfreq_release_all make_safe notify_core notify_block rocket_df_notify resume_and_get
    hold_from rocket_devfreq_hold_all give_back settle_refs change_rate power_up check_voltage
    check_guards skip_or_change target_locked add_opps add_devfreq take_ownership set_up_opps
    rocket_devfreq_init arm_from rocket_df_arm_notifiers rocket_devfreq_core_added rail_voltage
    rocket_device_runtime_suspend rocket_device_runtime_resume rocket_devfreq_suspend suspend_live
runs = record { accepted = refl; fast = refl; slowed = refl; requested = refl; in_turn = refl }

boosted-fast : rocket_safe_rate < raised boosted_log
boosted-fast = ground (arith, runs.fast)

fast_clock_holds_all_example :
    let d = (run kernel boost (loaded 3)).df in
    (is_some d.core ≡ true)
    × (all_bound d.slots ≡ true)
    × (taken 1 d.log ≡ dropped 1 d.log + owed d.slots 0 1)
fast_clock_holds_all_example =
    fast_clock_holds_all kernel kernel-Resumes 3 (omega arith) boost 1 runs.accepted boosted-fast

reported_rate_covers_example :
    let d = (run kernel boost (loaded 3)).df in
    raised d.log ≤ max (rocket_devfreq_get_cur_freq d).1 rocket_safe_rate
reported_rate_covers_example =
    reported_rate_covers kernel kernel-Resumes 3 (omega arith) boost runs.accepted

fast_clock_holds_always_example : dropped 1 boosted_log < taken 1 boosted_log
fast_clock_holds_always_example =
    fast_clock_holds_always kernel kernel-Resumes 3 (omega arith) switched last_calls boosted_log 1
      runs.slowed (omega arith) runs.accepted boosted-fast

clocks_follow_power_example :
    let cs = (run kernel naps (loaded 3)).clocks in
    switched_on 0 cs ≡ switched_off 0 cs + bit (is_active kernel 0 naps false (loaded 3))
clocks_follow_power_example = clocks_follow_power kernel 0 naps false (loaded 3) runs.in_turn refl

high_rate_needs_reading_example : enough (without_newest (without_newest fastest_log)) ≡ true
high_rate_needs_reading_example =
    high_rate_needs_reading kernel 3 fastest (get_rate 0 1_000_000_000 ∷ [])
      (without_newest (without_newest fastest_log)) 0 1_000_000_000 (pos 0) runs.requested
      (omega arith)
