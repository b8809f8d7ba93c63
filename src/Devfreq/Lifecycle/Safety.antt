-- ===== src/Devfreq/Lifecycle/Safety.antt =====
-- The clock at the moments when a power domain may change: in the notifiers, at suspend and when a
-- core is removed. `Clock` is what the driver relies on of the clock framework.
use rk3588_npu_gpu.Base.{
  ℕ, suc, ◌+◌, ◌||◌, not, if◌then◌else◌, ◌≡◌, refl, ◌⊎◌, Bool, true, false, Option, none, some,
  is_some, List, [], ◌∷◌, ℤ, pos, is_zero, arith, ebusy,
}
use rk3588_npu_gpu.Devfreq.Kernel.{
  Env, Event, Log, get_rate, set_rate, put_autosuspend, mark_last_busy, remove_notifier,
}
use rk3588_npu_gpu.Devfreq.{
  State, Slot, Notifier, Action, notify_ok, is_pre, notifier_core, dev_of, make_safe, notify_core,
  notify_block, rocket_df_notify, read_rate, release_from, rocket_safe_rate, rocket_devfreq_owns,
  rocket_devfreq_release_all,
}
use rk3588_npu_gpu.Devfreq.Refs.{taken, dropped, owed, release_all-dropped}
use rk3588_npu_gpu.Devfreq.Lifecycle.{
  Chain, suspend_live, rocket_devfreq_suspend, remove_block, drop_boost, remove_live,
  rocket_devfreq_core_removed,
}

abbrev pub is_set : Event → Bool
is_set (set_rate i r ret) = true
is_set _ = false

-- All cores hold handles of one clock; a request for the safe rate that succeeds is met exactly;
-- no call but a request for a rate takes the clock off the safe rate.
pub record Clock (e : Env) : Type 0 where
  pub shared : (l : Log) (i j : ℕ) → e.rate l i ≡ e.rate l j
  pub exact :
      (l : Log) (i j : ℕ) → e.rate (set_rate i rocket_safe_rate (pos 0) ∷ l) j ≡ rocket_safe_rate
  pub stays :
      (v : Event) (l : Log) (j : ℕ)
      → is_set v ≡ false
      → e.rate l j ≡ rocket_safe_rate
      → e.rate (v ∷ l) j ≡ rocket_safe_rate

is_zero_iff : (a : ℤ) → is_zero a ≡ true → a ≡ pos 0
is_zero_iff a h = ground arith

module _ (e : Env) (k : Clock e) (i j : ℕ) (s : State) where
  make_safe-rate :
      is_zero (make_safe e i s).0 ≡ true → e.rate (make_safe e i s).1.log j ≡ rocket_safe_rate
  unfolding make_safe
  make_safe-rate h =
      let l = (read_rate e i s).1.log in
      ground (
        arith,
        k.shared s.log i j,
        k.stays (get_rate i (e.rate s.log i)) s.log j refl,
        k.exact l i j,
        is_zero_iff (e.set_ret l i rocket_safe_rate),
      )

module _ (e : Env) (i : ℕ) (s : State) where
  make_safe-frame :
      let s' = (make_safe e i s).1 in
      (s'.req_rate ≡ s.req_rate)
      × (s'.refs_held ≡ s.refs_held)
      × (s'.notifiers ≡ s.notifiers)
      × (s'.slots ≡ s.slots)
  unfolding make_safe
  make_safe-frame = ground arith

module _ (e : Env) (k : Clock e) (i j : ℕ) (a : Action) (s : State) where
  notify_core-rate :
      (notify_core e i s).0 ≡ notify_ok
      → let s' = (notify_core e i s).1 in
        (e.rate s'.log j ≡ rocket_safe_rate) × (s'.req_rate ≡ rocket_safe_rate)
  unfolding notify_core
  notify_core-rate ok = ground (arith, make_safe-rate e k i j s)

module _ (e : Env) (k : Clock e) (i j : ℕ) (a : Action) (s : State) where
  notify_block-rate :
      (b : Option ℕ)
      → b ≡ some i
      → dev_of s.slots i ≡ true
      → is_some s.core ≡ true
      → is_pre a ≡ true
      → (notify_block e b a s).0 ≡ notify_ok
      → let s' = (notify_block e b a s).1 in
        (e.rate s'.log j ≡ rocket_safe_rate) × (s'.req_rate ≡ rocket_safe_rate)
  unfolding notify_block
  notify_block-rate none b d o p ok = cc
  notify_block-rate (some i') b d o p ok = ground (arith, notify_core-rate e k i' j a s)

-- The ramp: where the notifier of a live core lets a power domain go on or off while the driver has
-- an owner, the clock stands at the safe rate, read through any core's handle, and so does the rate
-- on record.
pub rocket_df_notify_safe :
    (e : Env)
    → Clock e
    → (n i j : ℕ) (a : Action) (s : State) → notifier_core s.notifiers n ≡ some i
    → dev_of s.slots i ≡ true
    → is_some s.core ≡ true
    → is_pre a ≡ true
    → (rocket_df_notify e n a s).0 ≡ notify_ok
    → let s' = (rocket_df_notify e n a s).1 in
      (e.rate s'.log j ≡ rocket_safe_rate) × (s'.req_rate ≡ rocket_safe_rate)
unfolding rocket_df_notify
rocket_df_notify_safe e k n i j a s = notify_block-rate e k i j a s (notifier_core s.notifiers n)

-- A suspend of a core of the owner's device either returns 0 with the clock at the safe rate, read
-- through any core's handle, or refuses with -EBUSY.
pub rocket_devfreq_suspend_safe :
    (e : Env)
    → Clock e
    → (i j : ℕ) (s : State) → rocket_devfreq_owns s (some i) ≡ true
    → let (ret, s') = rocket_devfreq_suspend e (some i) s in
      ((ret ≡ pos 0) × (e.rate s'.log j ≡ rocket_safe_rate)) ⊎ (ret ≡ ebusy)
unfolding rocket_devfreq_suspend suspend_live
rocket_devfreq_suspend_safe e k i j s o =
    ground (arith, k.exact s.log i j, is_zero_iff (e.set_ret s.log i rocket_safe_rate))

release_from-rate :
    (e : Env)
    → Clock e
    → (j i : ℕ) (cs : List Slot) (l : Log) → e.rate l j ≡ rocket_safe_rate
    → e.rate (release_from cs i l) j ≡ rocket_safe_rate
unfolding release_from
release_from-rate e k j i [] l h = h
release_from-rate e k j i (c ∷ cs) l h =
    let l₁ = mark_last_busy i ∷ l in
    let l₂ = put_autosuspend i ∷ l₁ in
    ground (
      arith,
      k.stays (mark_last_busy i) l j refl h,
      k.stays (put_autosuspend i) l₁ j refl,
      release_from-rate e k j (suc i) cs l h,
      release_from-rate e k j (suc i) cs l₂,
    )

-- What a removal leaves: no boost, and a clock that is safe unless the driver is marked unsafe.
record Dropped (e : Env) (j : ℕ) (s s' : State) : Type 0 where
  safe : (s'.unsafe ≡ true) ⊎ (e.rate s'.log j ≡ rocket_safe_rate)
  rate : s'.req_rate ≡ rocket_safe_rate
  refs : s'.refs_held ≡ false
  blocks : s'.notifiers ≡ s.notifiers

module _ (e : Env) (k : Clock e) (i j : ℕ) (s : State) where
  drop_boost-Dropped : Dropped e j s (drop_boost e i s)
  unfolding drop_boost rocket_devfreq_release_all
  drop_boost-Dropped =
      let s₁ = record s { req_rate = rocket_safe_rate } in
      ground (
        arith,
        make_safe-rate e k i j s₁,
        make_safe-frame e i s₁,
        release_from-rate e k j 0 (make_safe e i s₁).1.slots (make_safe e i s₁).1.log,
      )

-- One reference on each bound core is given back if the boost is on record, and none is taken.
record Released (x : ℕ) (s s' : State) : Type 0 where
  none_taken : taken x s'.log ≡ taken x s.log
  given_back : dropped x s'.log ≡ dropped x s.log + (if s.refs_held then owed s.slots 0 x else 0)

make_safe-refs :
    (e : Env) (i x : ℕ) (s : State)
    → let m = (make_safe e i s).1 in
      (taken x m.log ≡ taken x s.log) × (dropped x m.log ≡ dropped x s.log) × (m.slots ≡ s.slots)
unfolding make_safe
make_safe-refs e i x s = ground arith

drop_boost-Released : (e : Env) (i x : ℕ) (s : State) → Released x s (drop_boost e i s)
unfolding drop_boost
drop_boost-Released e i x s =
    let s₁ = record s { req_rate = rocket_safe_rate } in
    let (ret, m) = make_safe e i s₁ in
    let m = record m { unsafe = s.unsafe || not (is_zero ret); refs_held = false } in
    ground (arith, make_safe-refs e i x s₁, release_all-dropped x m)

-- The loop asks the kernel at most once, to take the core's block out of its chain.
record Detached (e : Env) (i : ℕ) (unsafe : Bool) (l : Log) (c : Chain) : Type 0 where
  calls : (c.log ≡ l) ⊎ (c.log ≡ remove_notifier i (e.remove_ret l i) ∷ l)
  latched : (c.unsafe ≡ true) ⊎ (c.unsafe ≡ unsafe)

remove_block-Detached :
    (e : Env) (i : ℕ) (ns : List Notifier) (u : Bool) (l : Log)
    → Detached e i u l (remove_block e i ns u l)
unfolding remove_block
remove_block-Detached e i [] u l = ground arith
remove_block-Detached e i (n ∷ ns) u l = ground (arith, remove_block-Detached e i ns u l)

-- When a bound core is removed while the driver has an owner, first the boost is given up and the
-- clock is at the safe rate, unless the driver has been marked unsafe; only then, and at most once,
-- is the core's notifier taken out of its chain; and so it stands when the function returns, with the
-- safe rate on record. Of the boost's references, one on each bound core, each has been given back if
-- they were held, and no other reference is taken or given back.
pub core_removed_safe :
    (e : Env)
    → Clock e
    → (i j x : ℕ) (s : State) → dev_of s.slots i ≡ true
    → is_some s.core ≡ true
    → let m = drop_boost e i s in
      let s' = rocket_devfreq_core_removed e (some i) s in
      ((m.unsafe ≡ true) ⊎ (e.rate m.log j ≡ rocket_safe_rate))
      × ((s'.log ≡ m.log) ⊎ (s'.log ≡ remove_notifier i (e.remove_ret m.log i) ∷ m.log))
      × ((s'.unsafe ≡ true) ⊎ (e.rate s'.log j ≡ rocket_safe_rate))
      × (s'.req_rate ≡ rocket_safe_rate)
      × (s'.refs_held ≡ false)
      × (taken x s'.log ≡ taken x s.log)
      × (dropped x s'.log ≡ dropped x s.log + (if s.refs_held then owed s.slots 0 x else 0))
unfolding rocket_devfreq_core_removed remove_live
core_removed_safe e k i j x s d o =
    let m = drop_boost e i s in
    let r = remove_notifier i (e.remove_ret m.log i) in
    ground (
      arith,
      drop_boost-Dropped e k i j s,
      drop_boost-Released e i x s,
      remove_block-Detached e i m.notifiers m.unsafe m.log,
      k.stays r m.log j refl,
    )
