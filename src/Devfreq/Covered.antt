-- ===== src/Devfreq/Covered.antt =====
-- The clock against the rate on record in rocket_devfreq.c, for the calls that keep cores awake.
use rk3588_npu_gpu.Base.{
  ℕ, zero, suc, ◌≡◌, refl, Bool, true, false, ◌||◌, ◌&&◌, not, Option, none, some, List, [], ◌∷◌,
  ltb, leb, ◌==◌, is_zero, if◌then◌else◌, max, arith,
}
use rk3588_npu_gpu.Devfreq.Kernel.{
  Env, Log, set_rate, get_rate, put, put_autosuspend, mark_last_busy,
}
use rk3588_npu_gpu.Devfreq.{
  State, Slot, Action, write_rate, make_safe, notify_core, notify_block, rocket_df_notify, pre_on,
  is_armed, notifier_core, resume_and_get, give_back, hold_from, rocket_devfreq_hold_all,
  release_from, rocket_devfreq_release_all, rocket_safe_rate,
}

-- The rate that the driver last raised or lowered the clock to: that of its last request that was
-- met, or 0 if it has read the clock at the safe rate or below since.
abbrev pub raised : Log → ℕ
raised [] = 0
raised (set_rate i r ret ∷ l) = if is_zero ret then r else raised l
raised (get_rate i r ∷ l) = if ltb rocket_safe_rate r then raised l else 0
raised (_ ∷ l) = raised l

-- Whether a request for the safe rate has failed.
abbrev pub refused : Log → Bool
refused [] = false
refused (set_rate i r ret ∷ l) = (r == rocket_safe_rate && not (is_zero ret)) || refused l
refused (_ ∷ l) = refused l

-- Unless a request for the safe rate has failed, the clock was raised to no more than the rate on
-- record, or than the safe rate.
abbrev pub covered : State → Bool
covered s = refused s.log || leb (raised s.log) (max s.req_rate rocket_safe_rate)

-- Calls that neither ask for a rate nor read one.
pub record Unheard (l l' : Log) : Type 0 where
  pub rate : raised l' ≡ raised l
  pub refusals : refused l' ≡ refused l

pub release_from-Unheard : (cs : List Slot) (i : ℕ) (l : Log) → Unheard l (release_from cs i l)
unfolding release_from
release_from-Unheard [] i l = record { rate = refl; refusals = refl }
release_from-Unheard (c ∷ cs) i l =
    let l₁ = mark_last_busy i ∷ l in
    let l₂ = put_autosuspend i ∷ l₁ in
    ground (arith, release_from-Unheard cs (suc i) l, release_from-Unheard cs (suc i) l₂)

give_back-Unheard : (slots : List Slot) (n : ℕ) (l : Log) → Unheard l (give_back slots n l)
unfolding give_back
give_back-Unheard slots zero l = record { rate = refl; refusals = refl }
give_back-Unheard slots (suc n) l =
    ground (arith, give_back-Unheard slots n l, give_back-Unheard slots n (put n ∷ l))

pub release_all-Unheard : (s : State) → Unheard s.log (rocket_devfreq_release_all s).log
unfolding rocket_devfreq_release_all
release_all-Unheard s = release_from-Unheard s.slots 0 s.log

pub release_all-covered : (s : State) → covered (rocket_devfreq_release_all s) ≡ covered s
unfolding rocket_devfreq_release_all
release_all-covered s = ground (arith, release_from-Unheard s.slots 0 s.log)

-- A request for the safe rate.
module _ (e : Env) (i : ℕ) (s : State) where
  pub write_safe-lem :
      let (ret, s') = write_rate e i rocket_safe_rate s in
      ((refused s'.log || not (ltb rocket_safe_rate (raised s'.log))) ≡ true)
      × ((not (refused s.log) || refused s'.log) ≡ true)
  write_safe-lem = ground arith

  pub make_safe-lem :
      let s' = (make_safe e i s).1 in
      ((refused s'.log || not (ltb rocket_safe_rate (raised s'.log))) ≡ true)
      × ((not (refused s.log) || refused s'.log) ≡ true)
      × (s'.req_rate ≡ s.req_rate)
  unfolding make_safe
  make_safe-lem =
      let v = get_rate i (e.rate s.log i) in
      let ret = e.set_ret (v ∷ s.log) i rocket_safe_rate in ground arith

module _ (e : Env) where
  notify_core-covered :
      (i : ℕ) (s : State) → covered s ≡ true → covered (notify_core e i s).1 ≡ true
  unfolding notify_core
  notify_core-covered i s h = ground (arith, make_safe-lem e i s)

  notify_block-covered :
      (b : Option ℕ) (a : Action) (s : State)
      → covered s ≡ true
      → covered (notify_block e b a s).1 ≡ true
  unfolding notify_block
  notify_block-covered none a s h = h
  notify_block-covered (some i) a s h = ground (arith, notify_core-covered i s)

  pub rocket_df_notify-covered :
      (n : ℕ) (a : Action) (s : State)
      → covered s ≡ true
      → covered (rocket_df_notify e n a s).1 ≡ true
  unfolding rocket_df_notify
  rocket_df_notify-covered n a s h = notify_block-covered (notifier_core s.notifiers n) a s h

  pub resume_and_get-covered :
      (i : ℕ) (s : State) → covered s ≡ true → covered (resume_and_get e i s).1 ≡ true
  unfolding resume_and_get
  resume_and_get-covered i s h =
      let s' =
        if e.powers_on s.log i && is_armed s.notifiers i
        then (rocket_df_notify e i pre_on s).1
        else s in
      ground (arith, rocket_df_notify-covered i pre_on s)

  hold_from-covered :
      (cs : List Slot) (i : ℕ) (s : State)
      → covered s ≡ true
      → covered (hold_from e cs i s).1 ≡ true
  unfolding hold_from
  hold_from-covered [] i s h = h
  hold_from-covered (c ∷ cs) i s h =
      let r = (resume_and_get e i s).1 in
      ground (
        arith,
        resume_and_get-covered i s,
        hold_from-covered cs (suc i) s,
        hold_from-covered cs (suc i) r,
        give_back-Unheard s.slots i r.log,
      )

  pub hold_all-covered :
      (s : State) → covered s ≡ true → covered (rocket_devfreq_hold_all e s).1 ≡ true
  unfolding rocket_devfreq_hold_all
  hold_all-covered s = hold_from-covered s.slots 0 s
