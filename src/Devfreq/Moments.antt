-- ===== src/Devfreq/Moments.antt =====
-- Every moment of a history of rocket_devfreq.c, also those inside a call: a clock raised
-- by the driver and the references of a core.
use rk3588_npu_gpu.Base.{
  ℕ, zero, suc, ◌+◌, ◌≡◌, Bool, true, false, ◌||◌, ◌&&◌, not, Option, none, some, List, [], ◌∷◌,
  ltb, is_neg, if◌then◌else◌, arith,
}
use rk3588_npu_gpu.Devfreq.Kernel.{Env, Log, get_rate, put, put_autosuspend, mark_last_busy}
use rk3588_npu_gpu.Devfreq.{
  State, Slot, Action, write_rate, make_safe, notify_core, notify_block, rocket_df_notify, pre_on,
  is_armed, notifier_core, resume_and_get, give_back, hold_from, rocket_devfreq_hold_all,
  release_from, rocket_devfreq_release_all, rocket_safe_rate,
}
use rk3588_npu_gpu.Devfreq.Refs.{
  taken, dropped, owed, given, From, From-zero, resume_and_get-Resumed,
}
use rk3588_npu_gpu.Devfreq.Covered.{raised, refused}

-- A moment at which nothing is asked of the cores: a request for the safe rate has failed, or the
-- clock was not raised above it.
abbrev pub excused : Log → Bool
excused l = refused l || not (ltb rocket_safe_rate (raised l))

-- Otherwise more references on core `i` have been taken than given back.
abbrev pub awake_at : ℕ → Log → Bool
awake_at i l = excused l || ltb (dropped i l) (taken i l)

-- At every moment of the history.
abbrev pub always_awake : ℕ → Log → Bool
always_awake i [] = awake_at i []
always_awake i (v ∷ l) = awake_at i (v ∷ l) && always_awake i l

pub always-now : (i : ℕ) (l : Log) → always_awake i l ≡ true → awake_at i l ≡ true
always-now i [] h = h
always-now i (v ∷ l) h = ground arith

-- The loops that give references back may run where enough are left over, or the moment is excused.
module _ (i : ℕ) where
  pub release_from-always :
      (cs : List Slot) (j : ℕ) (l : Log)
      → (excused l || ltb (dropped i l + owed cs j i) (taken i l)) ≡ true
      → always_awake i l ≡ true
      → (always_awake i (release_from cs j l) ≡ true)
        × ((not (excused l) || excused (release_from cs j l)) ≡ true)
  unfolding release_from
  release_from-always [] j l p h = ground arith
  release_from-always (c ∷ cs) j l p h =
      let l₁ = mark_last_busy j ∷ l in
      let l₂ = put_autosuspend j ∷ l₁ in
      ground (arith, release_from-always cs (suc j) l, release_from-always cs (suc j) l₂)

  give_back-always :
      (slots : List Slot) (n : ℕ) (l : Log)
      → (excused l || ltb (dropped i l + given slots n i) (taken i l)) ≡ true
      → always_awake i l ≡ true
      → always_awake i (give_back slots n l) ≡ true
  unfolding give_back
  give_back-always slots zero l p h = h
  give_back-always slots (suc n) l p h =
      let l₁ = put n ∷ l in ground (arith, give_back-always slots n l, give_back-always slots n l₁)

-- A call after which the moment is excused if it was before, and that gives back no reference.
pub record Eased (i : ℕ) (l l' : Log) : Type 0 where
  pub always : always_awake i l' ≡ true
  pub excuse : (not (excused l) || excused l') ≡ true

-- A request for the safe rate, after which the moment is excused.
module _ (e : Env) (i j : ℕ) (s : State) where
  pub write_safe-always :
      always_awake i s.log ≡ true
      → let s' = (write_rate e j rocket_safe_rate s).1 in
        (always_awake i s'.log ≡ true) × (excused s'.log ≡ true)
  write_safe-always h = ground arith

  pub make_safe-always :
      always_awake i s.log ≡ true
      → let s' = (make_safe e j s).1 in (always_awake i s'.log ≡ true) × (excused s'.log ≡ true)
  unfolding make_safe
  make_safe-always h = let v = get_rate j (e.rate s.log j) in ground (arith, always-now i s.log)

module _ (e : Env) (i : ℕ) where
  notify_core-Eased :
      (j : ℕ) (s : State) → always_awake i s.log ≡ true → Eased i s.log (notify_core e j s).1.log
  unfolding notify_core
  notify_core-Eased j s h = ground (arith, make_safe-always e i j s)

  notify_block-Eased :
      (b : Option ℕ) (a : Action) (s : State)
      → always_awake i s.log ≡ true
      → Eased i s.log (notify_block e b a s).1.log
  unfolding notify_block
  notify_block-Eased none a s h = ground arith
  notify_block-Eased (some j) a s h = ground (arith, notify_core-Eased j s)

  pub rocket_df_notify-Eased :
      (n : ℕ) (a : Action) (s : State)
      → always_awake i s.log ≡ true
      → Eased i s.log (rocket_df_notify e n a s).1.log
  unfolding rocket_df_notify
  rocket_df_notify-Eased n a s h = notify_block-Eased (notifier_core s.notifiers n) a s h

  pub resume_and_get-Eased :
      (j : ℕ) (s : State) → always_awake i s.log ≡ true → Eased i s.log (resume_and_get e j s).1.log
  unfolding resume_and_get
  resume_and_get-Eased j s h =
      let s' =
        if e.powers_on s.log j && is_armed s.notifiers j
        then (rocket_df_notify e j pre_on s).1
        else s in
      ground (arith, rocket_df_notify-Eased j pre_on s, always-now i s'.log)

  -- What has been taken so far may be given back again on an error.
  hold_from-Eased :
      (j : ℕ) (cs : List Slot) (s : State)
      → From s.slots j cs
      → (excused s.log || ltb (dropped i s.log + given s.slots j i) (taken i s.log)) ≡ true
      → always_awake i s.log ≡ true
      → let r = hold_from e cs j s in
        (always_awake i r.1.log ≡ true)
        × (is_neg r.0 ≡ false → (not (excused s.log) || excused r.1.log) ≡ true)
  unfolding hold_from
  hold_from-Eased j [] s f p h = ground arith
  hold_from-Eased j (c ∷ cs) s f p h =
      let r = resume_and_get e j s in
      let one = resume_and_get-Resumed e i j s in
      let f' : From r.1.slots (suc j) cs = rw one.frame.slots f.1 in
      ground (
        arith,
        one,
        resume_and_get-Eased j s h,
        give_back-always i s.slots j r.1.log,
        hold_from-Eased (suc j) cs s f.1,
        hold_from-Eased (suc j) cs r.1 f',
      )

  pub hold_all-Eased :
      (s : State)
      → always_awake i s.log ≡ true
      → let r = rocket_devfreq_hold_all e s in
        (always_awake i r.1.log ≡ true)
        × (is_neg r.0 ≡ false → (not (excused s.log) || excused r.1.log) ≡ true)
  unfolding rocket_devfreq_hold_all
  hold_all-Eased s h =
      let now = always-now i s.log h in
      hold_from-Eased 0 s.slots s (From-zero s.slots) (ground arith) h

module _ (i : ℕ) where
  pub release_all-always :
      (s : State)
      → (excused s.log || ltb (dropped i s.log + owed s.slots 0 i) (taken i s.log)) ≡ true
      → always_awake i s.log ≡ true
      → let s' = rocket_devfreq_release_all s in
        (always_awake i s'.log ≡ true) × ((not (excused s.log) || excused s'.log) ≡ true)
  unfolding rocket_devfreq_release_all
  release_all-always s = release_from-always i s.slots 0 s.log
