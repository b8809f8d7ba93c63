-- ===== src/Gem/Create.antt =====
-- How `rocket_ioctl_create_bo` ends: what it has when it succeeds, and what its error paths free.
use rk3588_npu_gpu.Base.{ℕ, suc, ◌≡◌, ◌≢◌, ◌≤◌, true, false, [], ◌∷◌, pos, is_neg, is_zero, arith}
use rk3588_npu_gpu.Gem.{
  Log, Env, shmem_free, take_domain, put_domain, rocket_gem_bo_free, object_put, err,
  err_remove_node, map_bo, with_object, rocket_ioctl_create_bo,
}

-- How often the memory was freed, and the domain taken and put.
abbrev pub frees : Log → ℕ
frees [] = 0
frees (shmem_free ∷ l) = suc (frees l)
frees (_ ∷ l) = frees l

abbrev pub domains_taken : Log → ℕ
domains_taken [] = 0
domains_taken (take_domain ∷ l) = suc (domains_taken l)
domains_taken (_ ∷ l) = domains_taken l

abbrev pub domains_put : Log → ℕ
domains_put [] = 0
domains_put (put_domain ∷ l) = suc (domains_put l)
domains_put (_ ∷ l) = domains_put l

module _ (e : Env) (size : ℕ) where
  -- If creating a buffer returns 0, the handle holds the only reference, the object has not been
  -- freed, it holds one reference on the domain, the mapping covers at least the size asked for,
  -- and the address reported is the node's.
  pub create_bo_ok :
      (rocket_ioctl_create_bo e size).0 ≡ pos 0
      → let b = (rocket_ioctl_create_bo e size).1 in
        (b.refcount ≡ 1)
        × (frees b.log ≡ 0)
        × (domains_taken b.log ≡ 1)
        × (domains_put b.log ≡ 0)
        × (size ≤ b.size)
        × (b.dma_address ≡ e.start)
  unfolding rocket_ioctl_create_bo with_object map_bo object_put err err_remove_node
  create_bo_ok h = ground arith

  -- If the handle cannot be made, the memory of the object is freed twice: once with its last
  -- reference, and once more at the label `err`.
  pub create_bo_frees_twice :
      is_neg e.create_ret ≡ false
      → is_zero e.handle_ret ≡ false
      → let b = (rocket_ioctl_create_bo e size).1 in
        (b.refcount ≡ 0) × (frees b.log ≡ 2) × (domains_put b.log ≡ domains_taken b.log)
  unfolding rocket_ioctl_create_bo with_object object_put rocket_gem_bo_free err
  create_bo_frees_twice c h = ground arith

  -- If creating a buffer fails after its handle was made, the memory is freed although the handle
  -- still holds a reference, and the reference on the domain is not given back.
  pub create_bo_dangles :
      is_neg e.create_ret ≡ false
      → is_zero e.handle_ret ≡ true
      → (rocket_ioctl_create_bo e size).0 ≢ pos 0
      → let b = (rocket_ioctl_create_bo e size).1 in
        (b.refcount ≡ 1) × (frees b.log ≡ 1) × (domains_taken b.log ≡ 1) × (domains_put b.log ≡ 0)
  unfolding rocket_ioctl_create_bo with_object map_bo object_put err err_remove_node
  create_bo_dangles c h f = ground arith
