-- ===== src/Devfreq/Init/Sound.antt =====
-- Registration, the notifiers and the resume of a core keep what holds between the calls of
-- rocket_devfreq.c.
use rk3588_npu_gpu.Base.{
  ℕ, ◌≡◌, refl, ◌∙◌, Bool, true, false, not, Option, none, some, is_some, List, [], ◌∷◌, ◌==◌,
  is_neg, is_zero, if_intro, if_both, arith,
}
use rk3588_npu_gpu.Devfreq.Kernel.{
  Env, Event, put_autosuspend, mark_last_busy, get_regulator, opp_remove_all, opp_set_config,
  opp_add, add_device, cooling_register, get_rate,
}
use rk3588_npu_gpu.Devfreq.{State, Action, emit, rocket_safe_rate, rocket_df_notify, resume_and_get}
use rk3588_npu_gpu.Devfreq.Refs.{taken, dropped, rocket_df_notify-Still, resume_and_get-Resumed}
use rk3588_npu_gpu.Devfreq.Rates.{rocket_df_notify-Calm, resume_and_get-Calm}
use rk3588_npu_gpu.Devfreq.Bound.{Sound}
use rk3588_npu_gpu.Devfreq.Lifecycle.{rocket_df_arm_notifiers}
use rk3588_npu_gpu.Devfreq.Lifecycle.Calls.{arm_notifiers-Sound, arm_notifiers-refs_held}
use rk3588_npu_gpu.Devfreq.Init.{
  steps, add_opps, add_devfreq, take_ownership, set_up_opps, rocket_devfreq_init,
}

pub rocket_df_notify-Sound :
    (e : Env) (k : ℕ) (a : Action) (s : State) → Sound s → Sound (rocket_df_notify e k a s).1
rocket_df_notify-Sound e k a s h =
    let f = rocket_df_notify-Still e 0 k a s in
    let c = rocket_df_notify-Calm e k a s in
    record {
      balanced = λ i. ground (arith, h.balanced i, rocket_df_notify-Still e i k a s);
      awake = ground (arith, h.awake, f, c);
      owned = ground (arith, h.owned, f);
      full = ground (arith, h.full, f);
      kept = ground (arith, h.kept, f);
    }

-- A resume that fails, and one whose reference is given back at once.
module _ (e : Env) (i : ℕ) (s : State) (h : Sound s) where
  pub resume_fails-Sound : let (ret, s') = resume_and_get e i s in is_neg ret ≡ true → Sound s'
  resume_fails-Sound n =
      let c = resume_and_get-Calm e i s in
      let f = (resume_and_get-Resumed e 0 i s).frame in
      record {
        balanced = λ j. ground (arith, h.balanced j, resume_and_get-Resumed e j i s);
        awake = ground (arith, h.awake, f, c);
        owned = ground (arith, h.owned, f);
        full = ground (arith, h.full, f);
        kept = ground (arith, h.kept, f);
      }

  pub resume_once-Sound :
      let (ret, s') = resume_and_get e i s in
      is_neg ret ≡ false → Sound (emit (put_autosuspend i) (emit (mark_last_busy i) s'))
  resume_once-Sound n =
      let c = resume_and_get-Calm e i s in
      let f = (resume_and_get-Resumed e 0 i s).frame in
      record {
        balanced = λ j. ground (arith, h.balanced j, resume_and_get-Resumed e j i s);
        awake = ground (arith, h.awake, f, c);
        owned = ground (arith, h.owned, f);
        full = ground (arith, h.full, f);
        kept = ground (arith, h.kept, f);
      }

-- What holds between the calls, without the boost.
abbrev Idle : State → Type 0
Idle s = Sound s × (s.refs_held ≡ false)

-- A call that neither takes nor gives back a reference.
emit-Idle :
    (v : Event) (s : State)
    → ((i : ℕ) → (taken i (v ∷ s.log) ≡ taken i s.log) × (dropped i (v ∷ s.log) ≡ dropped i s.log))
    → Idle s
    → Idle (emit v s)
emit-Idle v s q (h, o) = (
  record {
    balanced = λ i. ground (arith, h.balanced i, q i);
    awake = h.awake;
    owned = h.owned;
    full = h.full;
    kept = h.kept;
  },
  o,
)

-- What the calls set besides: the owner and the flags for the regulator and the cooling device.
set_owner-Idle : (core : Option ℕ) (s : State) → Idle s → Idle (record s { core = core })
set_owner-Idle core s (h, o) = (
  record {
    balanced = h.balanced;
    awake = h.awake;
    owned = ground (arith, o);
    full = h.full;
    kept = h.kept;
  },
  o,
)

set_reg-Idle : (b : Bool) (s : State) → Idle s → Idle (record s { reg = b })
set_reg-Idle b s (h, o) = (
  record { balanced = h.balanced; awake = h.awake; owned = h.owned; full = h.full; kept = h.kept },
  o,
)

set_cdev-Idle : (b : Bool) (s : State) → Idle s → Idle (record s { cdev = b })
set_cdev-Idle b s (h, o) = (
  record { balanced = h.balanced; awake = h.awake; owned = h.owned; full = h.full; kept = h.kept },
  o,
)

add_opps-Idle : (e : Env) (rs : List ℕ) (s : State) → Idle s → Idle (add_opps e rs s)
unfolding add_opps
add_opps-Idle e [] s h = h
add_opps-Idle e (r ∷ rs) s h =
    let v = opp_add r (e.opp_add_ret s.log r) in
    add_opps-Idle e rs (emit v s) (emit-Idle v s (λ i. (refl, refl)) h)

module _ (e : Env) (s : State) where
  arm_notifiers-Idle : Idle s → Idle (rocket_df_arm_notifiers e s)
  arm_notifiers-Idle h = (arm_notifiers-Sound e s h.0, arm_notifiers-refs_held e s ∙ h.1)

module _ (e : Env) (s : State) where
  add_devfreq-Idle : Idle s → Idle (add_devfreq e s)
  unfolding add_devfreq
  add_devfreq-Idle h =
      let v = add_device (e.device_ret s.log) in
      let h₁ = emit-Idle v s (λ i. (refl, refl)) h in
      let s₂ = rocket_df_arm_notifiers e (emit v s) in
      let w = cooling_register (e.cooling_ret s₂.log) in
      if_both Idle (is_neg (e.device_ret s.log)) (set_owner-Idle none (emit v s) h₁) (
        set_cdev-Idle (not (is_neg (e.cooling_ret s₂.log))) (emit w s₂)
          (emit-Idle w s₂ (λ i. (refl, refl)) (arm_notifiers-Idle e (emit v s) h₁)))

module _ (e : Env) (i now : ℕ) (s : State) where
  take_ownership-Idle : Idle s → Idle (take_ownership e i now s)
  unfolding take_ownership
  take_ownership-Idle (h, o) =
      let s₁ = record s {
        busy = record (s.busy) { last_read = now };
        core = some i;
        req_rate = rocket_safe_rate;
        refs_held = false;
      } in
      add_devfreq-Idle e s₁ (
        record {
          balanced = λ j. ground (arith, h.balanced j, o);
          awake = refl;
          owned = refl;
          full = refl;
          kept = h.kept;
        },
        refl,
      )

module _ (e : Env) (i now : ℕ) (s : State) where
  set_up_opps-Idle : Idle s → Idle (set_up_opps e i now s)
  unfolding set_up_opps
  set_up_opps-Idle h =
      let reg = e.regulator_ret s.log in
      let s₁ = record (emit (get_regulator reg) s) { reg = not (is_neg reg) } in
      let s₂ = emit opp_remove_all s₁ in
      let v = opp_set_config (e.config_ret s₂.log) in
      let s₃ = emit v s₂ in
      let w = opp_add rocket_safe_rate (e.opp_add_ret s₃.log rocket_safe_rate) in
      let h₁ =
        set_reg-Idle (not (is_neg reg)) (emit (get_regulator reg) s)
          (emit-Idle (get_regulator reg) s (λ i. (refl, refl)) h) in
      let h₃ =
        emit-Idle v s₂ (λ i. (refl, refl)) (emit-Idle opp_remove_all s₁ (λ i. (refl, refl)) h₁) in
      let h₄ = emit-Idle w s₃ (λ i. (refl, refl)) h₃ in
      if_both Idle (not (is_zero (e.config_ret s₂.log))) h₃ (
        if_both Idle (not (is_zero (e.opp_add_ret s₃.log rocket_safe_rate))) h₄
          (take_ownership-Idle e i now _ (add_opps-Idle e steps (emit w s₃) h₄)))

module _ (e : Env) (i now : ℕ) (s : State) (h : Sound s) where
  pub rocket_devfreq_init-Sound : Sound (rocket_devfreq_init e i now s)
  unfolding rocket_devfreq_init
  rocket_devfreq_init-Sound =
      let (ret, s₁) = resume_and_get e i s in
      let f = (resume_and_get-Resumed e 0 i s).frame in
      let v = get_rate i (e.rate s₁.log i) in
      let s₂ = emit (put_autosuspend i) (emit (mark_last_busy i) (emit v s₁)) in
      if_intro Sound (is_some s.core) (λ c. h)
        (λ c.
          if_intro Sound (is_neg ret) (λ n. resume_fails-Sound e i s h n)
            (λ n.
              let k = resume_once-Sound e i s h n in
              let k : Idle s₂ = (
                record {
                  balanced = k.balanced;
                  awake = k.awake;
                  owned = k.owned;
                  full = k.full;
                  kept = k.kept;
                },
                ground (arith, f, h.owned),
              ) in
              if_both Sound (not (e.rate s₁.log i == rocket_safe_rate)) k.0
                (set_up_opps-Idle e i now s₂ k).0))
