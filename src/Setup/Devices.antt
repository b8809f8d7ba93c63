-- ===== src/Setup/Devices.antt =====
-- The device: its slots and its registration.
use rk3588_npu_gpu.Base.{
  ◌≤◌, ◌≡◌, refl, Bool, true, false, not, List, [], ◌∷◌, length, is_neg, is_zero, if_both, arith,
}
use rk3588_npu_gpu.Setup.{
  drm_device, DeviceEnv, Made, made, failed, count_available, rocket_device_init,
  rocket_device_fini,
}
use rk3588_npu_gpu.Setup.Cores.{taken, given}

pub count_available-le : (nodes : List Bool) → count_available nodes ≤ length nodes
unfolding count_available
count_available-le [] = omega arith
count_available-le (true ∷ nodes) = ground (arith, count_available-le nodes)
count_available-le (false ∷ nodes) = ground (arith, count_available-le nodes)

-- What each result says: a device has at most a slot for each node and is registered once until its
-- end, and a failed set-up has registered nothing.
abbrev pub Registered : List Bool → Made → Type 0
Registered nodes (made max_cores l) =
    (max_cores ≤ length nodes)
    × (taken drm_device l ≡ 1)
    × (given drm_device l ≡ 0)
    × (given drm_device (rocket_device_fini l) ≡ 1)
Registered nodes (failed err l) = l ≡ []

pub rocket_device_init-Registered :
    (e : DeviceEnv) (nodes : List Bool) → Registered nodes (rocket_device_init e nodes [])
unfolding rocket_device_init rocket_device_fini
rocket_device_init-Registered e nodes =
    let P : Made → Type 0 = Registered nodes in
    if_both P (is_neg e.alloc_ret) refl (
      if_both P (not e.cores_alloc) refl (
        if_both P (not (is_zero e.mask_ret)) refl (
          if_both P (not (is_zero e.mutex_ret)) refl (
            if_both P (not (is_zero e.register_ret)) refl
              (count_available-le nodes, refl, refl, refl)))))
