-- ===== src/Volt/Examples.antt =====
-- The theorems on npu_volt_probe.c at concrete loads.
use rk3588_npu_gpu.Base.{◌≡◌, ◌≢◌, refl, true, [], ◌∷◌, ℤ, pos, ltb_ℤ, ◌≤ℤ◌, some, arith}
use rk3588_npu_gpu.Volt.{
  Log, Env, set_voltage, npu_volt_probe_init, npu_volt_probe_exit, unloaded, with_device,
  with_regulator, raise, check_readback, err_restore, err_reg, err_pdev, volt_floor, volt_cap,
}
use rk3588_npu_gpu.Volt.Bounds.{requests, readable, last_reading, npu_volt_probe_init_ok}
use rk3588_npu_gpu.Volt.Cleanup.{
  Settled, last_request, npu_volt_probe_init-Settled, load_then_exit_restores,
}
use rk3588_npu_gpu.Volt.Rollback.{set_ok, npu_volt_probe_init_restores}

-- The rail reads 800000 before the first request, and a fixed voltage after it.
abbrev reading : ℤ → Log → ℤ
reading after (set_voltage lo hi ret ∷ l) = after
reading after _ = pos 800000

abbrev rail : ℤ → Env
rail after = record {
  node_found = λ l. true;
  device_found = λ l. true;
  regulator = λ l. pos 0;
  voltage = reading after;
  set_ret = λ l lo hi. pos 0;
}

abbrev asked : ℤ
asked = pos 825000

asked_nonzero : asked ≢ pos 0
asked_nonzero h = ground arith

loads : (npu_volt_probe_init (rail asked) asked unloaded).0 ≡ pos 0
unfolding npu_volt_probe_init with_device with_regulator raise check_readback
loads = refl

npu_volt_probe_init_ok_example :
    let s = (npu_volt_probe_init (rail asked) asked unloaded).1 in
    (volt_floor ≤ℤ asked)
    × (asked ≤ℤ volt_cap)
    × (s.orig_uv ≤ℤ asked)
    × (requests s.log ≡ (asked, asked, pos 0) ∷ [])
    × (readable (last_reading s.log) ≡ true)
npu_volt_probe_init_ok_example = npu_volt_probe_init_ok (rail asked) asked loads asked_nonzero

npu_volt_probe_init-Settled_example : Settled (npu_volt_probe_init (rail asked) asked unloaded)
npu_volt_probe_init-Settled_example = npu_volt_probe_init-Settled (rail asked) asked

first_reading_above_0 :
    ltb_ℤ (pos 0) (npu_volt_probe_init (rail asked) asked unloaded).1.orig_uv ≡ true
unfolding npu_volt_probe_init with_device with_regulator raise check_readback
first_reading_above_0 = refl

load_then_exit_restores_example :
    let s = (npu_volt_probe_init (rail asked) asked unloaded).1 in
    last_request (npu_volt_probe_exit (rail asked) asked s).log ≡ some (s.orig_uv, s.orig_uv)
load_then_exit_restores_example =
    load_then_exit_restores (rail asked) asked loads asked_nonzero first_reading_above_0

-- A rail that settles above the cap, so that the load fails after its request.
overshoot_fails : (npu_volt_probe_init (rail (pos 960000)) asked unloaded).0 ≢ pos 0
unfolding npu_volt_probe_init with_device with_regulator raise check_readback err_restore err_reg
    err_pdev
overshoot_fails h = ground arith

overshoot_was_set : set_ok (npu_volt_probe_init (rail (pos 960000)) asked unloaded).1.log ≡ true
unfolding npu_volt_probe_init with_device with_regulator raise check_readback err_restore err_reg
    err_pdev
overshoot_was_set = refl

npu_volt_probe_init_restores_example :
    let s = (npu_volt_probe_init (rail (pos 960000)) asked unloaded).1 in
    last_request s.log ≡ some (s.orig_uv, s.orig_uv)
npu_volt_probe_init_restores_example =
    npu_volt_probe_init_restores (rail (pos 960000)) asked overshoot_fails overshoot_was_set
