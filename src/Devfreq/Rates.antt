-- ===== src/Devfreq/Rates.antt =====
-- What the parts of npu/driver/rocket_devfreq.c that only keep cores awake do to the clock: they
-- set no rate but the safe one.
use rk3588_npu_gpu.Base.{
  ℕ, zero, suc, ◌≤◌, ◌≡◌, refl, ◌⊎◌, Option, none, some, List, [], ◌∷◌, max, arith,
}
use rk3588_npu_gpu.Devfreq.Kernel.{
  Env, Log, get_rate, set_rate, resume, put, put_autosuspend, mark_last_busy,
}
use rk3588_npu_gpu.Devfreq.{
  State, Slot, Action, make_safe, notify_core, notify_block, rocket_df_notify, pre_on,
  notifier_core, resume_and_get, give_back, hold_from, rocket_devfreq_hold_all, release_from,
  rocket_devfreq_release_all, rocket_safe_rate,
}

-- The highest rate that the clock was asked for, and at least the safe one.
abbrev pub highest : Log → ℕ
highest [] = rocket_safe_rate
highest (set_rate j r ret ∷ l) = max r (highest l)
highest (_ ∷ l) = highest l

-- No higher rate was asked for, and the rate on record stays or becomes the safe one.
pub record Calm (s s' : State) : Type 0 where
  pub asked : highest s'.log ≡ highest s.log
  pub recorded : (s'.req_rate ≡ s.req_rate) ⊎ (s'.req_rate ≡ rocket_safe_rate)

pub highest_ge : (l : Log) → rocket_safe_rate ≤ highest l
highest_ge [] = omega arith
highest_ge (set_rate j r ret ∷ l) = omega (arith, highest_ge l)
highest_ge (get_rate j r ∷ l) = highest_ge l
highest_ge (resume j r ∷ l) = highest_ge l
highest_ge (put j ∷ l) = highest_ge l
highest_ge (put_autosuspend j ∷ l) = highest_ge l
highest_ge (mark_last_busy j ∷ l) = highest_ge l
highest_ge (_ ∷ l) = highest_ge l

pub highest-release_from :
    (cs : List Slot) (j : ℕ) (l : Log) → highest (release_from cs j l) ≡ highest l
unfolding release_from
highest-release_from [] j l = refl
highest-release_from (c ∷ cs) j l = ground (
  arith,
  highest-release_from cs (suc j) l,
  highest-release_from cs (suc j) (put_autosuspend j ∷ mark_last_busy j ∷ l),
)

highest-give_back :
    (slots : List Slot) (n : ℕ) (l : Log) → highest (give_back slots n l) ≡ highest l
unfolding give_back
highest-give_back slots zero l = refl
highest-give_back slots (suc n) l =
    ground (arith, highest-give_back slots n l, highest-give_back slots n (put n ∷ l))

module _ (e : Env) where
  pub make_safe-highest : (j : ℕ) (s : State) → highest (make_safe e j s).1.log ≡ highest s.log
  unfolding make_safe
  make_safe-highest j s = ground (arith, highest_ge s.log)

module _ (e : Env) where
  notify_core-Calm : (j : ℕ) (s : State) → Calm s (notify_core e j s).1
  unfolding notify_core
  notify_core-Calm j s = ground (arith, make_safe-highest e j s)

module _ (e : Env) where
  notify_block-Calm : (b : Option ℕ) (a : Action) (s : State) → Calm s (notify_block e b a s).1
  unfolding notify_block
  notify_block-Calm none a s = ground arith
  notify_block-Calm (some j) a s = ground (arith, notify_core-Calm e j s)

-- A notifier asks for no rate but the safe one.
pub rocket_df_notify-Calm :
    (e : Env) (k : ℕ) (a : Action) (s : State) → Calm s (rocket_df_notify e k a s).1
unfolding rocket_df_notify
rocket_df_notify-Calm e k a s = notify_block-Calm e (notifier_core s.notifiers k) a s

pub resume_and_get-Calm : (e : Env) (j : ℕ) (s : State) → Calm s (resume_and_get e j s).1
unfolding resume_and_get
resume_and_get-Calm e j s = ground (arith, rocket_df_notify-Calm e j pre_on s)

hold_from-Calm : (e : Env) (j : ℕ) (cs : List Slot) (s : State) → Calm s (hold_from e cs j s).1
unfolding hold_from
hold_from-Calm e j [] s = ground arith
hold_from-Calm e j (c ∷ cs) s =
    let r = resume_and_get e j s in
    ground (
      arith,
      resume_and_get-Calm e j s,
      hold_from-Calm e (suc j) cs s,
      hold_from-Calm e (suc j) cs r.1,
      highest-give_back s.slots j r.1.log,
    )

pub hold_all-Calm : (e : Env) (s : State) → Calm s (rocket_devfreq_hold_all e s).1
unfolding rocket_devfreq_hold_all
hold_all-Calm e s = hold_from-Calm e 0 s.slots s

pub highest-release_all : (s : State) → highest (rocket_devfreq_release_all s).log ≡ highest s.log
unfolding rocket_devfreq_release_all
highest-release_all s = highest-release_from s.slots 0 s.log
