-- ===== src/Devfreq/Init/Slots.antt =====
-- Registration does not write the slots of the device.
use rk3588_npu_gpu.Base.{ℕ, ◌≡◌, refl, List, [], ◌∷◌, not, is_neg, arith}
use rk3588_npu_gpu.Devfreq.Kernel.{
  Env, add_device, get_rate, put_autosuspend, mark_last_busy, get_regulator, opp_remove_all,
  opp_set_config,
}
use rk3588_npu_gpu.Devfreq.{State, emit, resume_and_get, rocket_safe_rate}
use rk3588_npu_gpu.Devfreq.Refs.{resume_and_get-Resumed}
use rk3588_npu_gpu.Devfreq.Lifecycle.Slots.{arm_notifiers-slots}
use rk3588_npu_gpu.Devfreq.Init.{
  steps, add_opp, add_opps, add_devfreq, take_ownership, set_up_opps, rocket_devfreq_init,
}

module _ (e : Env) where
  add_opps-slots : (rs : List ℕ) (s : State) → (add_opps e rs s).slots ≡ s.slots
  unfolding add_opps
  add_opps-slots [] s = refl
  add_opps-slots (r ∷ rs) s = add_opps-slots rs (add_opp e r s).1

  add_devfreq-slots : (s : State) → (add_devfreq e s).slots ≡ s.slots
  unfolding add_devfreq
  add_devfreq-slots s =
      ground (arith, arm_notifiers-slots e (emit (add_device (e.device_ret s.log)) s))

  take_ownership-slots : (i now : ℕ) (s : State) → (take_ownership e i now s).slots ≡ s.slots
  unfolding take_ownership
  take_ownership-slots i now s = add_devfreq-slots _

  set_up_opps-slots : (i now : ℕ) (s : State) → (set_up_opps e i now s).slots ≡ s.slots
  unfolding set_up_opps
  set_up_opps-slots i now s =
      let reg = e.regulator_ret s.log in
      let s₁ = record (emit (get_regulator reg) s) { reg = not (is_neg reg) } in
      let s₂ = emit opp_remove_all s₁ in
      let s₃ = emit (opp_set_config (e.config_ret s₂.log)) s₂ in
      let s₄ = (add_opp e rocket_safe_rate s₃).1 in
      ground (arith, take_ownership-slots i now (add_opps e steps s₄), add_opps-slots steps s₄)

  pub rocket_devfreq_init-slots :
      (i now : ℕ) (s : State) → (rocket_devfreq_init e i now s).slots ≡ s.slots
  unfolding rocket_devfreq_init
  rocket_devfreq_init-slots i now s =
      let r = (resume_and_get e i s).1 in
      let r' = emit (get_rate i (e.rate r.log i)) r in
      ground (
        arith,
        resume_and_get-Resumed e 0 i s,
        set_up_opps-slots i now (emit (put_autosuspend i) (emit (mark_last_busy i) r')),
      )
