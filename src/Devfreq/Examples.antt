-- ===== src/Devfreq/Examples.antt =====
-- The theorems on npu/driver/rocket_devfreq.c on a device with three bound cores.
use rk3588_npu_gpu.Base.{
  none, ◌+◌, ℕ, ◌≤◌, ◌≡◌, refl, ap, ◌⊎◌, true, false, some, [], ◌∷◌, ℤ, pos, max, ebusy,
}
use rk3588_npu_gpu.Busy.{cleared}
use rk3588_npu_gpu.Devfreq.Kernel.{resume, Env, Event, Log, set_rate, remove_notifier}
use rk3588_npu_gpu.Devfreq.{
  State, Slot, Notifier, rocket_safe_rate, rocket_devfreq_owns, pre_on, notify_ok, notify_core,
  notify_block, make_safe, rocket_df_notify,
}
use rk3588_npu_gpu.Devfreq.Refs.{Balanced}
use rk3588_npu_gpu.Devfreq.Rates.{highest}
use rk3588_npu_gpu.Devfreq.Target.{rocket_devfreq_target}
use rk3588_npu_gpu.Devfreq.Target.Refs.{rocket_devfreq_target-Balanced}
use rk3588_npu_gpu.Devfreq.Target.Guards.{target_needs_guards}
use rk3588_npu_gpu.Devfreq.Target.Report.{idle_tick}
use rk3588_npu_gpu.Devfreq.Lifecycle.{
  rocket_devfreq_suspend, rocket_devfreq_core_removed, drop_boost,
}
use rk3588_npu_gpu.Devfreq.Lifecycle.Safety.{
  Clock, is_set, rocket_df_notify_safe, rocket_devfreq_suspend_safe, core_removed_safe,
}
use rk3588_npu_gpu.Devfreq.Refs.{taken, dropped}
use rk3588_npu_gpu.Devfreq.Init.{rocket_devfreq_init}
use rk3588_npu_gpu.Devfreq.Init.Guards.{init_needs_safe_rate}

-- A clock that starts at the safe rate and then runs at the rate set last.
abbrev clock_rate : Log → ℕ
clock_rate [] = rocket_safe_rate
clock_rate (set_rate i r ret ∷ l) = r
clock_rate (_ ∷ l) = clock_rate l

-- Every call succeeds, and the rail is at the voltage `uv`.
abbrev answers : ℤ → Env
answers uv = record {
  rate = λ l i. clock_rate l;
  set_ret = λ l i r. pos 0;
  powers_on = λ l i. true;
  resume_ret = λ l i. pos 0;
  suspended = λ l i. false;
  voltage = λ l. uv;
  opp_ret = λ l f. pos 0;
  opp_freq = λ l f. f;
  add_ret = λ l i. pos 0;
  remove_ret = λ l i. pos 0;
  regulator_ret = λ l. pos 0;
  config_ret = λ l. pos 0;
  opp_add_ret = λ l r. pos 0;
  device_ret = λ l. pos 0;
  cooling_ret = λ l. pos 0;
}

abbrev high_rail : Env
high_rail = answers (pos 850_000)

abbrev bound : Slot
bound = record { dev = true; rdev = 0 }

abbrev block : ℕ → Notifier
block i = record { core = some i; armed = true }

-- Core 0 owns the frequency; nothing has been called yet.
abbrev ready : State
ready = record {
  core = some 0;
  req_rate = rocket_safe_rate;
  refs_held = false;
  unsafe = false;
  reg = true;
  cdev = true;
  notifiers = block 0 ∷ block 1 ∷ block 2 ∷ [];
  slots = bound ∷ bound ∷ bound ∷ [];
  busy = cleared;
  log = [];
}

-- The same, marked unsafe.
abbrev doubtful : State
doubtful = record ready { unsafe = true }

answers-Clock : (uv : ℤ) → Clock (answers uv)
answers-Clock uv = record { shared = λ l i j. refl; exact = λ l i j. refl; stays = keeps }
  where
    keeps :
        (v : Event) (l : Log) (j : ℕ)
        → is_set v ≡ false
        → clock_rate l ≡ rocket_safe_rate
        → clock_rate (v ∷ l) ≡ rocket_safe_rate
    keeps (set_rate i r ret) l j n h = cc
    keeps _ l j n h = h

ready-Balanced : Balanced ready
ready-Balanced i = refl

rocket_devfreq_target-Balanced_example :
    Balanced (rocket_devfreq_target high_rail 1_000_000_000 ready).state
rocket_devfreq_target-Balanced_example =
    rocket_devfreq_target-Balanced high_rail 1_000_000_000 ready ready-Balanced

target_needs_guards_example :
    highest (rocket_devfreq_target high_rail 1_000_000_000 doubtful).state.log
    ≤ max rocket_safe_rate (highest doubtful.log)
target_needs_guards_example = target_needs_guards high_rail 1_000_000_000 doubtful refl

-- The governor asks for the rate that is on record and on the clock.
ticks : (rocket_devfreq_target high_rail rocket_safe_rate ready).ret ≡ pos 0
ticks = ap (λ o. o.ret) (idle_tick high_rail 0 ready refl refl refl refl refl)

-- The owner's core 2 is about to be powered on.
ready-allows : (rocket_df_notify high_rail 2 pre_on ready).0 ≡ notify_ok
unfolding rocket_df_notify notify_block notify_core make_safe
ready-allows = refl

rocket_df_notify_safe_example :
    let s' = (rocket_df_notify high_rail 2 pre_on ready).1 in
    (high_rail.rate s'.log 0 ≡ rocket_safe_rate) × (s'.req_rate ≡ rocket_safe_rate)
rocket_df_notify_safe_example =
    rocket_df_notify_safe high_rail (answers-Clock (pos 850_000)) 2 2 0 pre_on ready refl refl refl
      refl ready-allows

ready-owns : rocket_devfreq_owns ready (some 1) ≡ true
unfolding rocket_devfreq_owns
ready-owns = refl

rocket_devfreq_suspend_safe_example :
    let (ret, s') = rocket_devfreq_suspend high_rail (some 1) ready in
    ((ret ≡ pos 0) × (high_rail.rate s'.log 0 ≡ rocket_safe_rate)) ⊎ (ret ≡ ebusy)
rocket_devfreq_suspend_safe_example =
    rocket_devfreq_suspend_safe high_rail (answers-Clock (pos 850_000)) 1 0 ready ready-owns

-- The owner with the boost on record: each core has been woken once.
abbrev boosted : State
boosted = record ready {
  req_rate = 600_000_000;
  refs_held = true;
  log = resume 2 (pos 0) ∷ resume 1 (pos 0) ∷ resume 0 (pos 0) ∷ [];
}

core_removed_safe_example :
    let m = drop_boost high_rail 1 boosted in
    let s' = rocket_devfreq_core_removed high_rail (some 1) boosted in
    ((m.unsafe ≡ true) ⊎ (high_rail.rate m.log 0 ≡ rocket_safe_rate))
    × ((s'.log ≡ m.log) ⊎ (s'.log ≡ remove_notifier 1 (high_rail.remove_ret m.log 1) ∷ m.log))
    × ((s'.unsafe ≡ true) ⊎ (high_rail.rate s'.log 0 ≡ rocket_safe_rate))
    × (s'.req_rate ≡ rocket_safe_rate)
    × (s'.refs_held ≡ false)
    × (taken 2 s'.log ≡ taken 2 boosted.log)
    × (dropped 2 s'.log ≡ dropped 2 boosted.log + 1)
core_removed_safe_example =
    core_removed_safe high_rail (answers-Clock (pos 850_000)) 1 0 2 boosted refl refl

-- A clock that the boot loader left at 400 MHz, and no owner.
abbrev fast_clock : Env
fast_clock = record high_rail { rate = λ l i. 400_000_000 }

abbrev unowned : State
unowned = record ready { core = none }

init_needs_safe_rate_example :
    let s' = rocket_devfreq_init fast_clock 0 50 unowned in
    (s'.core ≡ none)
    × (taken 1 s'.log + dropped 1 unowned.log ≡ dropped 1 s'.log + taken 1 unowned.log)
init_needs_safe_rate_example = init_needs_safe_rate fast_clock 0 1 50 unowned refl (λ l. refl)
