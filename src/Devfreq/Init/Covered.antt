-- ===== src/Devfreq/Init/Covered.antt =====
-- Registration in rocket_devfreq.c takes the ownership only of a clock that is read at the safe rate.
use rk3588_npu_gpu.Base.{ℕ, ◌≡◌, refl, true, false, not, List, [], ◌∷◌, ltb, is_neg, arith}
use rk3588_npu_gpu.Devfreq.Kernel.{
  Env, get_rate, put_autosuspend, mark_last_busy, get_regulator, opp_remove_all, opp_set_config,
  opp_add, add_device,
}
use rk3588_npu_gpu.Devfreq.{State, emit, rocket_safe_rate, resume_and_get}
use rk3588_npu_gpu.Devfreq.Covered.{raised, covered, resume_and_get-covered}
use rk3588_npu_gpu.Devfreq.Lifecycle.Covered.{arm_notifiers-rate}
use rk3588_npu_gpu.Devfreq.Init.{
  steps, add_opp, add_opps, add_devfreq, take_ownership, set_up_opps, rocket_devfreq_init,
}

module _ (e : Env) where
  pub add_opps-rate : (rs : List ℕ) (s : State) → raised (add_opps e rs s).log ≡ raised s.log
  unfolding add_opps
  add_opps-rate [] s = refl
  add_opps-rate (r ∷ rs) s = add_opps-rate rs (add_opp e r s).1

  add_devfreq-rate : (s : State) → raised (add_devfreq e s).log ≡ raised s.log
  unfolding add_devfreq
  add_devfreq-rate s =
      let v = add_device (e.device_ret s.log) in ground (arith, arm_notifiers-rate e (emit v s))

  take_ownership-rate :
      (i now : ℕ) (s : State) → raised (take_ownership e i now s).log ≡ raised s.log
  unfolding take_ownership
  take_ownership-rate i now s = add_devfreq-rate _

  set_up_opps-rate : (i now : ℕ) (s : State) → raised (set_up_opps e i now s).log ≡ raised s.log
  unfolding set_up_opps
  set_up_opps-rate i now s =
      let reg = e.regulator_ret s.log in
      let s₁ = record (emit (get_regulator reg) s) { reg = not (is_neg reg) } in
      let s₂ = emit opp_remove_all s₁ in
      let v = opp_set_config (e.config_ret s₂.log) in
      let s₃ = emit v s₂ in
      let w = opp_add rocket_safe_rate (e.opp_add_ret s₃.log rocket_safe_rate) in
      let s₄ = emit w s₃ in
      ground (arith, add_opps-rate steps s₄, take_ownership-rate i now (add_opps e steps s₄))

-- A slow clock is covered by any rate.
slow-covered : (s : State) → ltb rocket_safe_rate (raised s.log) ≡ false → covered s ≡ true
slow-covered s h = ground arith

module _ (e : Env) (i now : ℕ) where
  pub rocket_devfreq_init-covered :
      (s : State) → covered s ≡ true → covered (rocket_devfreq_init e i now s) ≡ true
  unfolding rocket_devfreq_init
  rocket_devfreq_init-covered s h =
      let s₁ = (resume_and_get e i s).1 in
      let v = get_rate i (e.rate s₁.log i) in
      let s₂ = emit v s₁ in
      let s₃ = emit (mark_last_busy i) s₂ in
      let s₄ = emit (put_autosuspend i) s₃ in
      ground (
        arith,
        resume_and_get-covered e i s,
        set_up_opps-rate e i now s₄,
        slow-covered (set_up_opps e i now s₄),
      )
