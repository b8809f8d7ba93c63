-- ===== src/Volt/Bounds.antt =====
-- What npu_volt_probe.c asks of the rail: the voltages that it may request, and what it has read
-- back when it loads.
use rk3588_npu_gpu.Base.{
  false, eqb_ℤ, leb_ℤ, ◌&&◌, ◌||◌, Bool, true, all, refl, ◌≡◌, ◌≢◌, false, Option, none, some, List,
  [], ◌∷◌, ℤ, pos, ◌≤ℤ◌, arith,
}
use rk3588_npu_gpu.Volt.{
  read_once, warned, unloaded, supplied, request, raise, with_regulator, with_device, err_reg,
  err_pdev, err_restore, Event, Log, Env, Probe, err_pdev, err_reg, check_readback, raise,
  with_regulator, with_device, volt_floor, volt_cap, find_node, put_node, find_device, put_device,
  regulator_get, regulator_put, get_voltage, set_voltage, warn_above_vendor_max, warn_settled,
  npu_volt_probe_init,
}

-- The window [uv, uv] of the parameter inside the limits and not below the reading `orig`, or the
-- window [orig, orig] of the restore.
abbrev pub permitted : ℤ → ℤ → Event → Bool
permitted uv orig (set_voltage lo hi ret) =
    eqb_ℤ lo hi
    && (eqb_ℤ lo orig || (eqb_ℤ lo uv && leb_ℤ volt_floor uv && leb_ℤ uv volt_cap && leb_ℤ orig uv))
permitted uv orig _ = true

abbrev pub requests : Log → List (ℤ × ℤ × ℤ)
requests [] = []
requests (set_voltage lo hi ret ∷ l) = (lo, hi, ret) ∷ requests l
requests (_ ∷ l) = requests l

abbrev pub last_reading : Log → Option ℤ
last_reading [] = none
last_reading (get_voltage got ∷ l) = some got
last_reading (_ ∷ l) = last_reading l

-- There was a reading, it is a voltage and within the cap.
abbrev pub readable : Option ℤ → Bool
readable none = false
readable (some got) = leb_ℤ (pos 0) got && leb_ℤ got volt_cap

eqb_self : (a : ℤ) → eqb_ℤ a a ≡ true
eqb_self a = ground arith

module _ (e : Env) (uv : ℤ) (s : Probe) where
  check_readback-permitted :
      all (permitted uv s.orig_uv) s.log ≡ true
      → let s' = (check_readback e uv s).1 in all (permitted uv s'.orig_uv) s'.log ≡ true
  unfolding check_readback err_restore
  check_readback-permitted h = ground (arith, eqb_self s.orig_uv)

  check_readback_ok :
      (check_readback e uv s).0 ≡ pos 0
      → let s' = (check_readback e uv s).1 in
        (requests s'.log ≡ requests s.log)
        × (s'.orig_uv ≡ s.orig_uv)
        × (readable (last_reading s'.log) ≡ true)
  unfolding check_readback err_restore
  check_readback_ok h = ground arith

module _ (e : Env) (uv : ℤ) (s : Probe) where
  raise-permitted :
      all (permitted uv s.orig_uv) s.log ≡ true
      → (volt_floor ≤ℤ uv)
      → (uv ≤ℤ volt_cap)
      → let s' = (raise e uv s).1 in all (permitted uv s'.orig_uv) s'.log ≡ true
  unfolding raise err_reg
  raise-permitted h lo hi =
      ground (arith, eqb_self uv, check_readback-permitted e uv (request e uv uv s).1)

  raise_ok :
      (raise e uv s).0 ≡ pos 0
      → let s' = (raise e uv s).1 in
        (s.orig_uv ≤ℤ uv)
        × (requests s'.log ≡ (uv, uv, pos 0) ∷ requests s.log)
        × (s'.orig_uv ≡ s.orig_uv)
        × (readable (last_reading s'.log) ≡ true)
  unfolding raise err_reg
  raise_ok h = ground (arith, check_readback_ok e uv (request e uv uv s).1)

permitted_of_none : (uv orig : ℤ) (l : Log) → requests l ≡ [] → all (permitted uv orig) l ≡ true
permitted_of_none uv orig [] h = refl
permitted_of_none uv orig (set_voltage lo hi ret ∷ l) h = cc
permitted_of_none uv orig (find_node b ∷ l) h = permitted_of_none uv orig l h
permitted_of_none uv orig (put_node ∷ l) h = permitted_of_none uv orig l h
permitted_of_none uv orig (find_device b ∷ l) h = permitted_of_none uv orig l h
permitted_of_none uv orig (put_device ∷ l) h = permitted_of_none uv orig l h
permitted_of_none uv orig (regulator_get b ∷ l) h = permitted_of_none uv orig l h
permitted_of_none uv orig (regulator_put ∷ l) h = permitted_of_none uv orig l h
permitted_of_none uv orig (get_voltage b ∷ l) h = permitted_of_none uv orig l h
permitted_of_none uv orig (warn_above_vendor_max b ∷ l) h = permitted_of_none uv orig l h
permitted_of_none uv orig (warn_settled b c ∷ l) h = permitted_of_none uv orig l h

module _ (e : Env) (uv : ℤ) (s : Probe) where
  with_regulator-permitted :
      requests s.log ≡ []
      → let s' = (with_regulator e uv s).1 in all (permitted uv s'.orig_uv) s'.log ≡ true
  unfolding with_regulator err_reg
  with_regulator-permitted h = ground (
    arith,
    permitted_of_none uv (e.voltage s.log) s.log,
    raise-permitted e uv (read_once e s),
    raise-permitted e uv (warned e uv s),
  )

  with_regulator_ok :
      (with_regulator e uv s).0 ≡ pos 0
      → uv ≢ pos 0
      → let s' = (with_regulator e uv s).1 in
        (volt_floor ≤ℤ uv)
        × (uv ≤ℤ volt_cap)
        × (s'.orig_uv ≤ℤ uv)
        × (requests s'.log ≡ (uv, uv, pos 0) ∷ requests s.log)
        × (readable (last_reading s'.log) ≡ true)
  unfolding with_regulator err_reg
  with_regulator_ok h nz =
      ground (arith, raise_ok e uv (read_once e s), raise_ok e uv (warned e uv s))

module _ (e : Env) (uv : ℤ) where
  -- Loading the module, with any parameter and any answers of the kernel, asks only for the
  -- parameter's voltage, inside [800000, 950000] and not below the first reading, or for the first
  -- reading again; the two ends of the window that it asks for are always the same.
  pub npu_volt_probe_init-permitted :
      let s = (npu_volt_probe_init e uv unloaded).1 in all (permitted uv s.orig_uv) s.log ≡ true
  unfolding npu_volt_probe_init with_device err_pdev
  npu_volt_probe_init-permitted = ground (arith, with_regulator-permitted e uv (supplied e))

  -- If the module loads with a nonzero parameter, the parameter lies in [800000, 950000] and not
  -- below the first reading, exactly one request was made, for exactly that voltage, it succeeded,
  -- and the last reading of the rail is neither an error nor above 950000.
  pub npu_volt_probe_init_ok :
      (npu_volt_probe_init e uv unloaded).0 ≡ pos 0
      → uv ≢ pos 0
      → let s = (npu_volt_probe_init e uv unloaded).1 in
        (volt_floor ≤ℤ uv)
        × (uv ≤ℤ volt_cap)
        × (s.orig_uv ≤ℤ uv)
        × (requests s.log ≡ (uv, uv, pos 0) ∷ [])
        × (readable (last_reading s.log) ≡ true)
  unfolding npu_volt_probe_init with_device err_pdev
  npu_volt_probe_init_ok h nz = ground (arith, with_regulator_ok e uv (supplied e))
