-- ===== src/Drv/Registration.antt =====
-- Loading and unloading the driver's module: rocket_register and rocket_unregister of
-- npu/driver/rocket_drv.c. The calls are the log, newest first.
use rk3588_npu_gpu.Base.{
  ℕ, suc, ◌≡◌, Bool, true, false, ◌&&◌, List, [], ◌∷◌, ℤ, ◌==◌, is_neg, is_zero, if◌then◌else◌,
  arith,
}

pub data Event : Type 0 where
  device_register_simple : (ret : ℤ) → Event
  device_unregister : Event
  driver_register : (ret : ℤ) → Event
  driver_unregister : Event

abbrev pub Log : Type 0
Log = List Event

-- `device_ret` is 0, or the error of the pointer that is returned.
pub rocket_register : (device_ret driver_ret : ℤ) → Log → ℤ × Log
rocket_register device_ret driver_ret l =
    let l = device_register_simple device_ret ∷ l in
    if is_neg device_ret then (device_ret, l) else (driver_ret, driver_register driver_ret ∷ l)

pub rocket_unregister : Log → Log
rocket_unregister l = device_unregister ∷ driver_unregister ∷ l

-- How often the device was registered with success, and unregistered; and the driver.
abbrev pub devices : Log → ℕ × ℕ
devices [] = (0, 0)
devices (device_register_simple ret ∷ l) =
    let (n, m) = devices l in if is_neg ret then (n, m) else (suc n, m)
devices (device_unregister ∷ l) = let (n, m) = devices l in (n, suc m)
devices (_ ∷ l) = devices l

abbrev pub drivers : Log → ℕ × ℕ
drivers [] = (0, 0)
drivers (driver_register ret ∷ l) =
    let (n, m) = drivers l in if is_zero ret then (suc n, m) else (n, m)
drivers (driver_unregister ∷ l) = let (n, m) = drivers l in (n, suc m)
drivers (_ ∷ l) = drivers l

abbrev even : ℕ × ℕ → Bool
even p = p.0 == p.1

-- After a load that returns 0 and an unload, both are unregistered as often as registered.
load_then_unload :
    (device_ret driver_ret : ℤ)
    → let (ret, l) = rocket_register device_ret driver_ret [] in
      is_zero ret ≡ true
      → (even (devices (rocket_unregister l)) && even (drivers (rocket_unregister l))) ≡ true
unfolding rocket_register rocket_unregister
load_then_unload device_ret driver_ret h = ground arith

-- A load that fails because the driver cannot be registered leaves the device registered.
failed_load_leaks :
    (device_ret driver_ret : ℤ)
    → is_neg device_ret ≡ false
    → is_zero driver_ret ≡ false
    → let (ret, l) = rocket_register device_ret driver_ret [] in
      (ret ≡ driver_ret) × (devices l ≡ (1, 0)) × (drivers l ≡ (0, 0))
unfolding rocket_register
failed_load_leaks device_ret driver_ret p q = ground arith
