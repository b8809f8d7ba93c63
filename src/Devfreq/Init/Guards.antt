-- ===== src/Devfreq/Init/Guards.antt =====
-- What must hold before `rocket_devfreq_init` takes the ownership of the clock.
use rk3588_npu_gpu.Base.{ℕ, ◌+◌, ◌≡◌, false, none, ◌==◌, arith}
use rk3588_npu_gpu.Devfreq.Kernel.{Env, Log}
use rk3588_npu_gpu.Devfreq.{State, rocket_safe_rate, resume_and_get}
use rk3588_npu_gpu.Devfreq.Refs.{taken, dropped, resume_and_get-Resumed}
use rk3588_npu_gpu.Devfreq.Init.{rocket_devfreq_init}

-- The baseline: where the clock is never read at the safe rate, a core that registers while there
-- is no owner does not become the owner, and for every core it has given back as many references as
-- it has taken.
pub init_needs_safe_rate :
    (e : Env) (i j now : ℕ) (s : State)
    → s.core ≡ none
    → ((l : Log) → (e.rate l i == rocket_safe_rate) ≡ false)
    → let s' = rocket_devfreq_init e i now s in
      (s'.core ≡ none) × (taken j s'.log + dropped j s.log ≡ dropped j s'.log + taken j s.log)
unfolding rocket_devfreq_init
init_needs_safe_rate e i j now s c fast =
    let r = resume_and_get e i s in ground (arith, resume_and_get-Resumed e j i s, fast r.1.log)
