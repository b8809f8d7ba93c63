-- ===== src/Devfreq/Init/Volts.antt =====
-- Registration in rocket_devfreq.c neither reads the rail nor asks for a high rate.
use rk3588_npu_gpu.Base.{ℕ, refl, not, List, [], ◌∷◌, is_neg, arith}
use rk3588_npu_gpu.Devfreq.Kernel.{
  Env, get_rate, put_autosuspend, mark_last_busy, get_regulator, opp_remove_all, opp_set_config,
  opp_add, add_device,
}
use rk3588_npu_gpu.Devfreq.{State, emit, rocket_safe_rate, resume_and_get}
use rk3588_npu_gpu.Devfreq.Volts.{Unread, resume_and_get-Unread}
use rk3588_npu_gpu.Devfreq.Lifecycle.Volts.{arm_notifiers-Unread}
use rk3588_npu_gpu.Devfreq.Init.{
  steps, add_opp, add_opps, add_devfreq, take_ownership, set_up_opps, rocket_devfreq_init,
}

module _ (e : Env) where
  add_opps-Unread : (rs : List ℕ) (s : State) → Unread s.log (add_opps e rs s).log
  unfolding add_opps
  add_opps-Unread [] s = record { reading = refl; requests = refl }
  add_opps-Unread (r ∷ rs) s = ground (arith, add_opps-Unread rs (add_opp e r s).1)

  add_devfreq-Unread : (s : State) → Unread s.log (add_devfreq e s).log
  unfolding add_devfreq
  add_devfreq-Unread s =
      ground (arith, arm_notifiers-Unread e (emit (add_device (e.device_ret s.log)) s))

  take_ownership-Unread : (i now : ℕ) (s : State) → Unread s.log (take_ownership e i now s).log
  unfolding take_ownership
  take_ownership-Unread i now s = add_devfreq-Unread _

  set_up_opps-Unread : (i now : ℕ) (s : State) → Unread s.log (set_up_opps e i now s).log
  unfolding set_up_opps
  set_up_opps-Unread i now s =
      let reg = e.regulator_ret s.log in
      let s₁ = record (emit (get_regulator reg) s) { reg = not (is_neg reg) } in
      let s₂ = emit opp_remove_all s₁ in
      let s₃ = emit (opp_set_config (e.config_ret s₂.log)) s₂ in
      let s₄ = emit (opp_add rocket_safe_rate (e.opp_add_ret s₃.log rocket_safe_rate)) s₃ in
      ground (arith, add_opps-Unread steps s₄, take_ownership-Unread i now (add_opps e steps s₄))

  pub rocket_devfreq_init-Unread :
      (i now : ℕ) (s : State) → Unread s.log (rocket_devfreq_init e i now s).log
  unfolding rocket_devfreq_init
  rocket_devfreq_init-Unread i now s =
      let s₁ = (resume_and_get e i s).1 in
      let s₂ = emit (get_rate i (e.rate s₁.log i)) s₁ in
      ground (
        arith,
        resume_and_get-Unread e i s,
        set_up_opps-Unread i now (emit (put_autosuspend i) (emit (mark_last_busy i) s₂)),
      )
