-- ===== src/Volt/Cleanup.antt =====
-- What npu_volt_probe.c holds of the kernel, and how it gives it back: references on the device
-- tree node, the platform device and the regulator, and the rail's voltage.
use rk3588_npu_gpu.Base.{
  ℕ, suc, ◌+◌, ◌≡◌, ◌≢◌, is_zero, Bool, true, Option, none, some, [], ◌∷◌, ℤ, pos, ltb_ℤ,
  if◌then◌else◌, arith,
}
use rk3588_npu_gpu.Volt.{
  read_once, warned, Event, Log, Env, Probe, Outcome, find_node, put_node, find_device, put_device,
  regulator_get, regulator_put, set_voltage, request, err_pdev, err_reg, err_restore,
  check_readback, raise, with_regulator, with_device, restore, npu_volt_probe_init,
  npu_volt_probe_exit, unloaded, supplied,
}

-- References taken and given back.
pub record Refs : Type 0 where
  pub nodes_taken : ℕ
  pub nodes_put : ℕ
  pub devices_taken : ℕ
  pub devices_put : ℕ
  pub regulators_taken : ℕ
  pub regulators_put : ℕ

abbrev pub count : Event → Refs → Refs
count (find_node true) r = record r { nodes_taken = suc r.nodes_taken }
count put_node r = record r { nodes_put = suc r.nodes_put }
count (find_device true) r = record r { devices_taken = suc r.devices_taken }
count put_device r = record r { devices_put = suc r.devices_put }
count (regulator_get (pos _)) r = record r { regulators_taken = suc r.regulators_taken }
count regulator_put r = record r { regulators_put = suc r.regulators_put }
count _ r = r

abbrev pub refs : Log → Refs
refs [] = record {
  nodes_taken = 0;
  nodes_put = 0;
  devices_taken = 0;
  devices_put = 0;
  regulators_taken = 0;
  regulators_put = 0;
}
refs (v ∷ l) = count v (refs l)

abbrev pub bit : Bool → ℕ
bit b = if b then 1 else 0

-- The module owns exactly the references that its two pointers stand for.
pub record Owns (s : Probe) : Type 0 where
  pub nodes : (refs s.log).nodes_taken ≡ (refs s.log).nodes_put
  pub devices : (refs s.log).devices_taken ≡ (refs s.log).devices_put + bit s.npu_pdev
  pub regulators : (refs s.log).regulators_taken ≡ (refs s.log).regulators_put + bit s.npu_reg

-- A load that succeeds keeps both pointers, one that fails none.
pub record Settled (r : Outcome) : Type 0 where
  pub owned : Owns r.1
  pub reg : r.1.npu_reg ≡ is_zero r.0
  pub pdev : r.1.npu_pdev ≡ is_zero r.0

module _ (e : Env) (uv : ℤ) (s : Probe) where
  check_readback-Settled :
      Owns s → s.npu_reg ≡ true → s.npu_pdev ≡ true → Settled (check_readback e uv s)
  unfolding check_readback err_restore
  check_readback-Settled o r d = ground arith

module _ (e : Env) (uv : ℤ) (s : Probe) where
  raise-Settled : Owns s → s.npu_reg ≡ true → s.npu_pdev ≡ true → Settled (raise e uv s)
  unfolding raise err_reg
  raise-Settled o r d = ground (arith, check_readback-Settled e uv (request e uv uv s).1)

module _ (e : Env) (uv : ℤ) (s : Probe) where
  with_regulator-Settled :
      Owns s → s.npu_reg ≡ true → s.npu_pdev ≡ true → Settled (with_regulator e uv s)
  unfolding with_regulator err_reg
  with_regulator-Settled o r d =
      ground (arith, raise-Settled e uv (read_once e s), raise-Settled e uv (warned e uv s))

module _ (e : Env) (uv : ℤ) where
  -- Whatever the kernel answers, when the load returns, the module owns exactly the references on
  -- the platform device and the regulator that its two pointers stand for, and none on the node;
  -- after a return of 0 both pointers are set, after any other return neither is.
  pub npu_volt_probe_init-Settled : Settled (npu_volt_probe_init e uv unloaded)
  unfolding npu_volt_probe_init with_device err_pdev
  npu_volt_probe_init-Settled = ground (arith, with_regulator-Settled e uv (supplied e))

-- Everything that was taken has been given back.
pub record Released (l : Log) : Type 0 where
  pub nodes : (refs l).nodes_taken ≡ (refs l).nodes_put
  pub devices : (refs l).devices_taken ≡ (refs l).devices_put
  pub regulators : (refs l).regulators_taken ≡ (refs l).regulators_put

exit-Released : (e : Env) (uv : ℤ) (s : Probe) → Owns s → Released (npu_volt_probe_exit e uv s).log
unfolding npu_volt_probe_exit
exit-Released e uv s o = ground arith

-- Unloading after any load gives back every reference that the module has taken.
pub load_then_exit-Released :
    (e : Env) (uv : ℤ)
    → Released (npu_volt_probe_exit e uv (npu_volt_probe_init e uv unloaded).1).log
load_then_exit-Released e uv =
    exit-Released e uv (npu_volt_probe_init e uv unloaded).1
      (npu_volt_probe_init-Settled e uv).owned

abbrev pub last_request : Log → Option (ℤ × ℤ)
last_request [] = none
last_request (set_voltage lo hi ret ∷ l) = some (lo, hi)
last_request (_ ∷ l) = last_request l

-- Unloading after a load that succeeded with a nonzero parameter and a first reading above 0 makes
-- its last request for exactly that first reading.
pub load_then_exit_restores :
    (e : Env) (uv : ℤ)
    → (npu_volt_probe_init e uv unloaded).0 ≡ pos 0
    → uv ≢ pos 0
    → let s = (npu_volt_probe_init e uv unloaded).1 in
      ltb_ℤ (pos 0) s.orig_uv ≡ true
      → last_request (npu_volt_probe_exit e uv s).log ≡ some (s.orig_uv, s.orig_uv)
unfolding npu_volt_probe_exit restore
load_then_exit_restores e uv h nz above = ground (arith, npu_volt_probe_init-Settled e uv)
