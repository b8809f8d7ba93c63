-- ===== src/Devfreq/Init/Moments.antt =====
-- At every moment of the registration in rocket_devfreq.c a clock raised by the driver means
-- that the cores are held.
use rk3588_npu_gpu.Base.{ℕ, ◌≡◌, Bool, true, false, not, List, [], ◌∷◌, ltb, is_neg, arith}
use rk3588_npu_gpu.Devfreq.Kernel.{
  Env, Log, get_rate, put_autosuspend, mark_last_busy, get_regulator, opp_remove_all,
  opp_set_config, opp_add, add_device,
}
use rk3588_npu_gpu.Devfreq.{State, emit, rocket_safe_rate, resume_and_get}
use rk3588_npu_gpu.Devfreq.Refs.{resume_and_get-Resumed}
use rk3588_npu_gpu.Devfreq.Covered.{raised}
use rk3588_npu_gpu.Devfreq.Moments.{always_awake, always-now, resume_and_get-Eased}
use rk3588_npu_gpu.Devfreq.Lifecycle.Covered.{arm_notifiers-rate}
use rk3588_npu_gpu.Devfreq.Lifecycle.Moments.{arm_notifiers-always}
use rk3588_npu_gpu.Devfreq.Init.{
  steps, add_opp, add_opps, add_devfreq, take_ownership, set_up_opps, rocket_devfreq_init,
}
use rk3588_npu_gpu.Devfreq.Init.Covered.{add_opps-rate}

-- The clock stays slow from its reading on.
abbrev slow : Log → Bool
slow l = not (ltb rocket_safe_rate (raised l))

module _ (e : Env) (i : ℕ) where
  add_opps-always :
      (rs : List ℕ) (s : State)
      → slow s.log ≡ true
      → always_awake i s.log ≡ true
      → always_awake i (add_opps e rs s).log ≡ true
  unfolding add_opps
  add_opps-always [] s z h = h
  add_opps-always (r ∷ rs) s z h = ground (arith, add_opps-always rs (add_opp e r s).1)

  add_devfreq-always :
      (s : State)
      → slow s.log ≡ true
      → always_awake i s.log ≡ true
      → always_awake i (add_devfreq e s).log ≡ true
  unfolding add_devfreq
  add_devfreq-always s z h =
      let v = add_device (e.device_ret s.log) in
      ground (arith, arm_notifiers-rate e (emit v s), arm_notifiers-always e i (emit v s))

  take_ownership-always :
      (j now : ℕ) (s : State)
      → slow s.log ≡ true
      → always_awake i s.log ≡ true
      → always_awake i (take_ownership e j now s).log ≡ true
  unfolding take_ownership
  take_ownership-always j now s z h = add_devfreq-always _ z h

  set_up_opps-always :
      (j now : ℕ) (s : State)
      → slow s.log ≡ true
      → always_awake i s.log ≡ true
      → always_awake i (set_up_opps e j now s).log ≡ true
  unfolding set_up_opps
  set_up_opps-always j now s z h =
      let reg = e.regulator_ret s.log in
      let s₁ = record (emit (get_regulator reg) s) { reg = not (is_neg reg) } in
      let s₂ = emit opp_remove_all s₁ in
      let v = opp_set_config (e.config_ret s₂.log) in
      let s₃ = emit v s₂ in
      let w = opp_add rocket_safe_rate (e.opp_add_ret s₃.log rocket_safe_rate) in
      let s₄ = emit w s₃ in
      ground (
        arith,
        add_opps-rate e steps s₄,
        add_opps-always steps s₄,
        take_ownership-always j now (add_opps e steps s₄),
      )

  -- A reference that is taken and given back leaves those that were there.
  pub resume_once-always :
      (j : ℕ) (s : State)
      → always_awake i s.log ≡ true
      → let (ret, s') = resume_and_get e j s in
        is_neg ret ≡ false
        → always_awake i (emit (put_autosuspend j) (emit (mark_last_busy j) s')).log ≡ true
  resume_once-always j s h n =
      let s₁ = (resume_and_get e j s).1 in
      let s₂ = emit (mark_last_busy j) s₁ in
      ground (
        arith,
        always-now i s.log h,
        always-now i s₁.log,
        resume_and_get-Eased e i j s,
        resume_and_get-Resumed e i j s,
      )

  pub rocket_devfreq_init-always :
      (j now : ℕ) (s : State)
      → always_awake i s.log ≡ true
      → always_awake i (rocket_devfreq_init e j now s).log ≡ true
  unfolding rocket_devfreq_init
  rocket_devfreq_init-always j now s h =
      let s₁ = (resume_and_get e j s).1 in
      let v = get_rate j (e.rate s₁.log j) in
      let s₂ = emit v s₁ in
      let s₃ = emit (mark_last_busy j) s₂ in
      let s₄ = emit (put_autosuspend j) s₃ in
      ground (
        arith,
        always-now i s.log h,
        always-now i s₁.log,
        resume_and_get-Eased e i j s,
        resume_and_get-Resumed e i j s,
        set_up_opps-always j now s₄,
      )
