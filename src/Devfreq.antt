-- ===== src/Devfreq.antt =====
-- npu/driver/rocket_devfreq.c without the busy-time counters (see Busy): the state `rocket_df`, the
-- genpd notifiers, and the calls that change the rate of the NPU clock. A pointer to a core is its
-- slot in the `cores` array of the device. What the kernel answers is an `Env`, a function of all
-- the calls made so far; the calls made, with their answers, are the log, newest first.
pub mod Kernel
pub mod Refs
pub mod Rates
pub mod Bound
pub mod Covered
pub mod Moments
pub mod Volts
pub mod Target
pub mod Lifecycle
pub mod Init
pub mod Examples
use rk3588_npu_gpu.Base.{
  ℕ, zero, suc, ◌+◌, Bool, true, false, ◌&&◌, ◌||◌, not, Option, none, some, List, [], ◌∷◌, ℤ, pos,
  ltb, ◌==◌, ltb_ℤ, is_neg, is_zero, if◌then◌else◌, get_elem?, is_some, set, length, replicate,
  enodev, eagain, eperm, ebusy,
}
use rk3588_npu_gpu.Busy.{Counters}
use Kernel.{
  Env, Log, Event, get_rate, set_rate, resume, put, mark_last_busy, put_autosuspend, get_voltage,
  recommended_opp, add_notifier, remove_notifier,
}

abbrev pub rocket_safe_rate : ℕ
rocket_safe_rate = 200_000_000

abbrev pub rocket_high_rate : ℕ
rocket_high_rate = 700_000_000

abbrev pub rocket_volt_for_high : ℤ
rocket_volt_for_high = pos 850_000

-- The fields of `struct rocket_core` that are read here: `dev` is `true` for a bound core, and
-- `rdev` names the device.
pub record Slot : Type 0 where
  pub dev : Bool
  pub rdev : ℕ

-- One entry of `rocket_df_nb`.
pub record Notifier : Type 0 where
  pub core : Option ℕ
  pub armed : Bool

-- `rocket_df`, `rocket_df_nb`, the cores of the device, `rocket_df_busy` with the time of its last
-- read, and the calls of the kernel so far.
pub record State : Type 0 where
  pub core : Option ℕ
  pub req_rate : ℕ
  pub refs_held : Bool
  pub unsafe : Bool
  pub reg : Bool
  pub cdev : Bool
  pub notifiers : List Notifier
  pub slots : List Slot
  pub busy : Counters
  pub log : Log

abbrev pub emit : Event → State → State
emit v s = record s { log = v ∷ s.log }

abbrev pub dev_of : List Slot → ℕ → Bool
dev_of slots i = elim (get_elem? slots i) [ none ↦ false | some c ↦ c.dev ]

abbrev pub rdev_of : List Slot → ℕ → ℕ
rdev_of slots i = elim (get_elem? slots i) [ none ↦ 0 | some c ↦ c.rdev ]

abbrev pub notifier_core : List Notifier → ℕ → Option ℕ
notifier_core ns k = elim (get_elem? ns k) [ none ↦ none | some n ↦ n.core ]

abbrev pub is_armed : List Notifier → ℕ → Bool
is_armed ns k = elim (get_elem? ns k) [ none ↦ false | some n ↦ n.armed ]

-- What a notifier returns: NOTIFY_OK, or the veto of `notifier_from_errno`.
pub data Verdict : Type 0 where
  notify_ok : Verdict
  notify_errno : ℤ → Verdict

pub data Action : Type 0 where
  pre_off off pre_on on : Action

abbrev is_pre : Action → Bool
is_pre pre_off = true
is_pre pre_on = true
is_pre _ = false

unfoldable pub armed_count : List Notifier → ℕ
armed_count [] = 0
armed_count (n ∷ ns) = if n.armed then suc (armed_count ns) else armed_count ns

-- `rdev->max_cores` is the length of the array.
unfoldable pub rocket_df_all_guarded : State → Bool
rocket_df_all_guarded s = armed_count s.notifiers == length s.slots

-- A core, or the null pointer.
unfoldable pub rocket_devfreq_owns : State → Option ℕ → Bool
rocket_devfreq_owns s none = false
rocket_devfreq_owns s (some i) = elim s.core [
  | none ↦ false
  | some owner ↦ dev_of s.slots i && rdev_of s.slots i == rdev_of s.slots owner
]

-- The loop `while (i--)` of `rocket_devfreq_hold_all`, which gives back what has been taken.
unfoldable pub give_back : List Slot → ℕ → Log → Log
give_back slots zero l = l
give_back slots (suc i) l = give_back slots i (if dev_of slots i then put i ∷ l else l)

-- The loop of `rocket_devfreq_release_all` from slot `i` on.
unfoldable pub release_from : List Slot → ℕ → Log → Log
release_from [] i l = l
release_from (c ∷ cs) i l =
    release_from cs (suc i) (if c.dev then put_autosuspend i ∷ mark_last_busy i ∷ l else l)

unfoldable pub rocket_devfreq_release_all : State → State
rocket_devfreq_release_all s = record s { log = release_from s.slots 0 s.log }

module _ (e : Env) where
  -- `clk_get_rate` and `clk_set_rate` on `clks[2]` of core `i`.
  abbrev pub read_rate : ℕ → State → ℕ × State
  read_rate i s = let r = e.rate s.log i in (r, emit (get_rate i r) s)

  abbrev pub write_rate : ℕ → ℕ → State → ℤ × State
  write_rate i r s = let ret = e.set_ret s.log i r in (ret, emit (set_rate i r ret) s)

  -- The clock is written only if it is not at the safe rate: the return code, and the state.
  unfoldable pub make_safe : ℕ → State → ℤ × State
  make_safe i s =
      let (r, s') = read_rate i s in
      if r == rocket_safe_rate then (pos 0, s') else write_rate i rocket_safe_rate s'

  -- The case of `rocket_df_notify` for PRE_ON and PRE_OFF, for a live core `i`.
  unfoldable pub notify_core : ℕ → State → Verdict × State
  notify_core i s =
      let (ret, s') = make_safe i s in
      (
        if is_zero ret then notify_ok else notify_errno ret,
        record s' { req_rate = rocket_safe_rate },
      )

  -- The notifier of a block whose `core` field is given.
  unfoldable pub notify_block : Option ℕ → Action → State → Verdict × State
  notify_block none action s = (notify_ok, s)
  notify_block (some i) action s =
      if not (dev_of s.slots i) || not (is_some s.core)
      then (notify_ok, s)
      else if is_pre action
      then notify_core i s
      else (notify_ok, s)

  -- `k` is the place of the block in `rocket_df_nb`.
  unfoldable pub rocket_df_notify : ℕ → Action → State → Verdict × State
  unfolding notify_block
  rocket_df_notify k action s = notify_block (notifier_core s.notifiers k) action s

  -- `pm_runtime_resume_and_get`: where the domain of core `i` is off, genpd first calls the block
  -- that is armed for the core.
  unfoldable pub resume_and_get : ℕ → State → ℤ × State
  resume_and_get i s =
      let s' =
        if e.powers_on s.log i && is_armed s.notifiers i
        then (rocket_df_notify i pre_on s).1
        else s in
      let ret = e.resume_ret s'.log i in (ret, emit (resume i ret) s')

  -- `rocket_devfreq_hold_all` from slot `i` on.
  unfoldable pub hold_from : List Slot → ℕ → State → ℤ × State
  hold_from [] i s = (pos 0, s)
  hold_from (c ∷ cs) i s =
      let skipped = hold_from cs (suc i) s in
      let (ret, s') = resume_and_get i s in
      let next = hold_from cs (suc i) s' in
      if not c.dev
      then skipped
      else if is_neg ret
      then (ret, record s' { log = give_back s.slots i s'.log })
      else next

  unfoldable pub rocket_devfreq_hold_all : State → ℤ × State
  rocket_devfreq_hold_all s = hold_from s.slots 0 s

-- What a function that takes `unsigned long *freq` returns, with the value left in `*freq`.
pub record Outcome : Type 0 where
  pub ret : ℤ
  pub freq : ℕ
  pub state : State

abbrev pub returns : ℤ → ℕ → State → Outcome
returns ret freq s = record { ret = ret; freq = freq; state = s }
