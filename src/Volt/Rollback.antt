-- ===== src/Volt/Rollback.antt =====
-- The error paths of npu_volt_probe.c after the voltage has been changed.
use rk3588_npu_gpu.Base.{◌≡◌, ◌≢◌, Bool, false, true, ◌||◌, some, [], ◌∷◌, ℤ, pos, is_zero, arith}
use rk3588_npu_gpu.Volt.{
  Log, Env, Probe, Outcome, set_voltage, request, err_pdev, err_reg, err_restore, check_readback,
  raise, with_regulator, with_device, npu_volt_probe_init, unloaded, supplied, read_once, warned,
}
use rk3588_npu_gpu.Volt.Cleanup.{last_request}

-- Some request has succeeded.
abbrev pub set_ok : Log → Bool
set_ok [] = false
set_ok (set_voltage lo hi ret ∷ l) = is_zero ret || set_ok l
set_ok (_ ∷ l) = set_ok l

abbrev Restores : Outcome → Type 0
Restores r = last_request r.1.log ≡ some (r.1.orig_uv, r.1.orig_uv)

module _ (e : Env) (uv : ℤ) (s : Probe) where
  check_readback-Restores : (check_readback e uv s).0 ≢ pos 0 → Restores (check_readback e uv s)
  unfolding check_readback err_restore
  check_readback-Restores h = ground arith

module _ (e : Env) (uv : ℤ) (s : Probe) where
  raise-Restores :
      set_ok s.log ≡ false
      → (raise e uv s).0 ≢ pos 0
      → set_ok (raise e uv s).1.log ≡ true
      → Restores (raise e uv s)
  unfolding raise err_reg
  raise-Restores n h k = ground (arith, check_readback-Restores e uv (request e uv uv s).1)

module _ (e : Env) (uv : ℤ) (s : Probe) where
  with_regulator-Restores :
      set_ok s.log ≡ false
      → (with_regulator e uv s).0 ≢ pos 0
      → set_ok (with_regulator e uv s).1.log ≡ true
      → Restores (with_regulator e uv s)
  unfolding with_regulator err_reg
  with_regulator-Restores n h k =
      ground (arith, raise-Restores e uv (read_once e s), raise-Restores e uv (warned e uv s))

-- If a load fails although the kernel accepted a voltage, its last request is for the voltage that
-- the rail had when the load began.
pub npu_volt_probe_init_restores :
    (e : Env) (uv : ℤ)
    → (npu_volt_probe_init e uv unloaded).0 ≢ pos 0
    → let s = (npu_volt_probe_init e uv unloaded).1 in
      set_ok s.log ≡ true → last_request s.log ≡ some (s.orig_uv, s.orig_uv)
unfolding npu_volt_probe_init with_device err_pdev
npu_volt_probe_init_restores e uv h k = ground (arith, with_regulator-Restores e uv (supplied e))
