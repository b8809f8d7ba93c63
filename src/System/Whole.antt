-- ===== src/System/Whole.antt =====
-- What holds between the steps of the driver.
use rk3588_npu_gpu.Base.{
  zero, suc, refl, false, ◌∷◌, replicate, ap, [], ℕ, ◌-◌, ◌<◌, ◌≡◌, sym, true, ◌||◌, not, List, map,
  ℤ, ◌==◌, is_neg, is_zero, if_intro, if_both, length, arith,
}
use rk3588_npu_gpu.Devfreq.Lifecycle.{disarmed}
use rk3588_npu_gpu.System.{loaded}
use rk3588_npu_gpu.Devfreq.Kernel.{Env, Log}
use rk3588_npu_gpu.Devfreq.{State, Slot, dev_of, resume_and_get}
use rk3588_npu_gpu.Devfreq.Refs.{resume_and_get-Resumed, resume_and_get-answer}
use rk3588_npu_gpu.Devfreq.Bound.{
  Sound, bind_from, unbind_from, first_free, armed_bound, all_bound-first_free,
  armed_bound-bind_from,
}
use rk3588_npu_gpu.Devfreq.Init.Sound.{resume_fails-Sound, resume_once-Sound}
use rk3588_npu_gpu.System.{Driver, empty_slot, release_slot, claim_slot, wake_core}
use rk3588_npu_gpu.System.Counts.{
  bound_count, armed_bound-map_empty, all_bound-count, count-bind_from, count-unbind_from,
  length-bind_from, length-unbind_from,
}

-- `pm_runtime_resume_and_get` returns 0 or an error.
abbrev pub Resumes : Env → Type 0
Resumes e = (l : Log) (i : ℕ) → (is_neg (e.resume_ret l i) || is_zero (e.resume_ret l i)) ≡ true

-- Beside what holds of the clock: `num_cores` counts the bound cores, there is a device as long as
-- one is bound, and the device tree has a core.
pub record Whole (s : Driver) : Type 0 where
  pub sound : Sound s.df
  pub counted : s.num_cores ≡ bound_count s.df.slots
  pub live : s.device ≡ not (s.num_cores == 0)
  pub room : 0 < length s.df.slots

-- A boost is there only with every slot taken.
pub no_boost-free :
    (d : State) → Sound d → first_free d.slots < length d.slots → d.refs_held ≡ false
no_boost-free d h p = ground (arith, h.full, all_bound-first_free d.slots)

no_boost-empty :
    (d : State) → Sound d → bound_count d.slots ≡ 0 → 0 < length d.slots → d.refs_held ≡ false
no_boost-empty d h z p = ground (arith, h.full, all_bound-count d.slots)

-- Without the boost the slots may be written, as long as the armed blocks stay bound.
pub set_slots-Sound :
    (d : State) (cs : List Slot)
    → Sound d
    → d.refs_held ≡ false
    → (d.unsafe || armed_bound 0 d.notifiers cs) ≡ true
    → Sound (record d { slots = cs })
set_slots-Sound d cs h o k = record {
  balanced = λ j. ground (arith, h.balanced j, o);
  awake = h.awake;
  owned = h.owned;
  full = ground (arith, o);
  kept = k;
}

pub empty-Sound :
    (d : State)
    → Sound d
    → bound_count d.slots ≡ 0
    → 0 < length d.slots
    → Sound (record d { slots = map empty_slot d.slots })
empty-Sound d h z p =
    set_slots-Sound d (map empty_slot d.slots) h (no_boost-empty d h z p)
      (ground (arith, h.kept, armed_bound-map_empty 0 d.notifiers d.slots z))

claim-Sound :
    (d : State)
    → Sound d
    → first_free d.slots < length d.slots
    → Sound (record d { slots = bind_from (first_free d.slots) 0 d.slots })
claim-Sound d h p =
    set_slots-Sound d (bind_from (first_free d.slots) 0 d.slots) h (no_boost-free d h p)
      (ground (arith, h.kept, armed_bound-bind_from (first_free d.slots) 0 d.notifiers d.slots))

-- What the set-up of a core leaves alone.
pub record Started (d d' : State) : Type 0 where
  pub slots : d'.slots ≡ d.slots
  pub notifiers : d'.notifiers ≡ d.notifiers
  pub refs_held : d'.refs_held ≡ d.refs_held
  pub unsafe : d'.unsafe ≡ d.unsafe

module _ (e : Env) (i : ℕ) (ready : ℤ) (d : State) where
  pub wake_core-Started : Started d (wake_core e i ready d).1
  unfolding wake_core
  wake_core-Started = ground (arith, resume_and_get-Resumed e 0 i d)

  pub wake_core-Sound : Resumes e → Sound d → Sound (wake_core e i ready d).1
  unfolding wake_core
  wake_core-Sound r h =
      let (ret, d') = resume_and_get e i d in
      let (l, a) = resume_and_get-answer e i d in
      let P : ℤ × State → Type 0 = λ r. Sound r.1 in
      if_both P (not (is_zero ready)) h (
        if_intro P (not (is_zero ret)) (λ z. resume_fails-Sound e i d h (ground (arith, r l i)))
          (λ z. resume_once-Sound e i d h (ground arith)))

-- A driver with a device, in the middle of a step: as between the steps but for the flag.
pub record Ready (s : Driver) : Type 0 where
  pub sound : Sound s.df
  pub counted : s.num_cores ≡ bound_count s.df.slots
  pub present : s.device ≡ true
  pub room : 0 < length s.df.slots

module _ (i : ℕ) (s : Driver) where
  pub release_slot-Whole :
      Sound (record s.df { slots = unbind_from i 0 s.df.slots })
      → dev_of s.df.slots i ≡ true
      → s.num_cores ≡ bound_count s.df.slots
      → s.device ≡ true
      → 0 < length s.df.slots
      → Whole (release_slot i s)
  unfolding release_slot
  release_slot-Whole h d n p q =
      let less = count-unbind_from i i 0 s.df.slots (omega arith) d in
      let long = length-unbind_from i 0 s.df.slots in
      if_intro Whole (s.num_cores - 1 == 0)
        (λ z. record {
          sound = h;
          counted = omega (arith, less, n);
          live = ground arith;
          room = omega (arith, long, q);
        })
        (λ z. record {
          sound = h;
          counted = omega (arith, less, n);
          live = ground arith;
          room = omega (arith, long, q);
        })

module _ (i : ℕ) (s : Driver) where
  pub claim_slot-Ready :
      Ready s → first_free s.df.slots ≡ i → i < length s.df.slots → Ready (claim_slot i s)
  unfolding claim_slot
  claim_slot-Ready h f p =
      let q : first_free s.df.slots < length s.df.slots = omega arith in
      let k : Sound (record s.df { slots = bind_from i 0 s.df.slots }) =
        rw (sym f) (claim-Sound s.df h.sound q) in
      record {
        sound = k;
        counted = omega (arith, h.counted, count-bind_from i 0 s.df.slots (omega arith) q);
        present = h.present;
        room = omega (arith, p, length-bind_from i 0 s.df.slots);
      }

-- The state at load, where no block is armed and no slot bound.
armed_bound-disarmed : (k j : ℕ) (cs : List Slot) → armed_bound j (replicate k disarmed) cs ≡ true
unfolding armed_bound
armed_bound-disarmed zero j cs = refl
armed_bound-disarmed (suc k) j [] = armed_bound-disarmed k (suc j) []
armed_bound-disarmed (suc k) j (c ∷ cs) = armed_bound-disarmed k (suc j) cs

count-replicate : (n : ℕ) → bound_count (replicate n (record { dev = false; rdev = 0 })) ≡ 0
count-replicate zero = refl
count-replicate (suc n) = omega (arith, count-replicate n)

pub length-replicate_slots :
    (n : ℕ) → length {A = Slot} (replicate n (record { dev = false; rdev = 0 })) ≡ n
length-replicate_slots zero = refl
length-replicate_slots (suc n) = ap suc (length-replicate_slots n)

pub loaded-Whole : (n : ℕ) → 0 < n → Whole (loaded n)
loaded-Whole n p = record {
  sound = record {
    balanced = λ i. refl;
    awake = refl;
    owned = refl;
    full = refl;
    kept = armed_bound-disarmed 4 0 (loaded n).df.slots;
  };
  counted = sym (count-replicate n);
  live = refl;
  room = omega (arith, p, length-replicate_slots n);
}
