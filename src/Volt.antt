-- ===== src/Volt.antt =====
-- npu/volt/npu_volt_probe.c: the module that raises the voltage of the NPU rail, its state and
-- its two entry points. The kernel's answers are an `Env`; what the module asks of the kernel is
-- its log, newest call first.
pub mod Bounds
pub mod Cleanup
pub mod Rollback
pub mod Examples
use rk3588_npu_gpu.Base.{
  [], Bool, true, false, ◌&&◌, ◌||◌, not, List, ◌∷◌, if◌then◌else◌, ℤ, pos, ltb_ℤ, is_neg, is_zero,
  enodev, einval, erange,
}

abbrev pub volt_floor : ℤ
volt_floor = pos 800000

abbrev pub volt_vendor_max : ℤ
volt_vendor_max = pos 850000

abbrev pub volt_cap : ℤ
volt_cap = pos 950000

-- A call of the kernel, with its arguments and its answer. An answer of a call that returns a
-- pointer is `true` for a non-null one; `regulator_get` is 0 or the error of an error pointer.
pub data Event : Type 0 where
  find_node : (found : Bool) → Event
  put_node : Event
  find_device : (found : Bool) → Event
  put_device : Event
  regulator_get : (ret : ℤ) → Event
  regulator_put : Event
  get_voltage : (ret : ℤ) → Event
  set_voltage : (lo hi ret : ℤ) → Event
  warn_above_vendor_max : (uv : ℤ) → Event
  warn_settled : (got uv : ℤ) → Event

abbrev pub Log : Type 0
Log = List Event

-- What the kernel answers, as a function of all the calls before.
pub record Env : Type 0 where
  pub node_found : Log → Bool
  pub device_found : Log → Bool
  pub regulator : Log → ℤ
  pub voltage : Log → ℤ
  pub set_ret : Log → ℤ → ℤ → ℤ

-- The static variables of the module. A pointer is `true` if it is not null.
pub record Probe : Type 0 where
  pub npu_reg : Bool
  pub npu_pdev : Bool
  pub orig_uv : ℤ
  pub log : Log

abbrev pub Outcome : Type 0
Outcome = ℤ × Probe

abbrev pub emit : Event → Probe → Probe
emit v s = record s { log = v ∷ s.log }

-- The labels at the end of `npu_volt_probe_init`, each falling through to the next.
pub err_pdev : ℤ → Probe → Outcome
err_pdev ret s = (ret, record (emit put_device s) { npu_pdev = false })

pub err_reg : ℤ → Probe → Outcome
unfolding err_pdev
err_reg ret s = err_pdev ret (record (emit regulator_put s) { npu_reg = false })

module _ (e : Env) where
  -- `regulator_set_voltage` and `regulator_get_voltage` on `npu_reg`.
  abbrev pub request : ℤ → ℤ → Probe → Outcome
  request lo hi s = let ret = e.set_ret s.log lo hi in (ret, emit (set_voltage lo hi ret) s)

  abbrev pub readback : Probe → Outcome
  readback s = let got = e.voltage s.log in (got, emit (get_voltage got) s)

  pub err_restore : ℤ → Probe → Outcome
  unfolding err_reg
  err_restore ret s = err_reg ret (request s.orig_uv s.orig_uv s).1

  -- From the readback after a successful `regulator_set_voltage` on.
  pub check_readback : ℤ → Probe → Outcome
  unfolding err_restore
  check_readback uv s =
      let (got, s') = readback s in
      if is_neg got
      then err_restore got s'
      else if ltb_ℤ volt_cap got
      then err_restore erange s'
      else if ltb_ℤ got uv || ltb_ℤ uv got
      then (pos 0, emit (warn_settled got uv) s')
      else (pos 0, s')

  -- From the comparison with the first reading on.
  pub raise : ℤ → Probe → Outcome
  raise uv s =
      if ltb_ℤ uv s.orig_uv
      then err_reg einval s
      else let (ret, s') = request uv uv s in
        if is_zero ret then check_readback uv s' else err_reg ret s'

  -- From the first reading of the rail on.
  pub with_regulator : ℤ → Probe → Outcome
  with_regulator uv s =
      let (orig, s') = readback s in
      let s = record s' { orig_uv = orig } in
      if is_neg orig
      then err_reg orig s
      else if is_zero uv
      then (pos 0, s)
      else if ltb_ℤ uv volt_floor || ltb_ℤ volt_cap uv
      then err_reg einval s
      else raise uv (if ltb_ℤ volt_vendor_max uv then emit (warn_above_vendor_max uv) s else s)

  pub with_device : ℤ → Probe → Outcome
  with_device uv s =
      let ret = e.regulator s.log in
      let s = emit (regulator_get ret) s in
      if is_neg ret
      then err_pdev ret (record s { npu_reg = false })
      else with_regulator uv (record s { npu_reg = true })

  unfoldable pub npu_volt_probe_init : ℤ → Probe → Outcome
  npu_volt_probe_init uv s =
      let node = e.node_found s.log in
      let s = emit (find_node node) s in
      if not node
      then (enodev, s)
      else let device = e.device_found s.log in
        let s = record (emit put_node (emit (find_device device) s)) { npu_pdev = device } in
        if not device then (enodev, s) else with_device uv s

  -- The restore at unload: `uv && orig_uv > 0`.
  pub restore : ℤ → Probe → Probe
  restore uv s =
      if not (is_zero uv) && ltb_ℤ (pos 0) s.orig_uv
      then (readback (request s.orig_uv s.orig_uv s).1).1
      else s

  unfoldable pub npu_volt_probe_exit : ℤ → Probe → Probe
  unfolding restore
  npu_volt_probe_exit uv s =
      let s = if s.npu_reg then emit regulator_put (restore uv s) else s in
      if s.npu_pdev then emit put_device s else s

-- The module as the loader finds it, and its state where the regulator has been found.
abbrev pub unloaded : Probe
unloaded = record { npu_reg = false; npu_pdev = false; orig_uv = pos 0; log = [] }

abbrev device_log : Log
device_log = put_node ∷ find_device true ∷ find_node true ∷ []

abbrev pub supplied : Env → Probe
supplied e = record {
  npu_reg = true;
  npu_pdev = true;
  orig_uv = pos 0;
  log = regulator_get (e.regulator device_log) ∷ device_log;
}

-- The state after the first reading, and the same with the warning in the log.
abbrev pub read_once : Env → Probe → Probe
read_once e s = record (readback e s).1 { orig_uv = (readback e s).0 }

abbrev pub warned : Env → ℤ → Probe → Probe
warned e uv s = emit (warn_above_vendor_max uv) (read_once e s)
