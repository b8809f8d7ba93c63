-- ===== src/Gem/Access.antt =====
-- The ioctls before and after the CPU's access to a buffer.
use rk3588_npu_gpu.Base.{ℕ, suc, ◌%◌, ◌^◌, ◌≤◌, ◌≡◌, true, [], ◌∷◌, pos, is_neg, arith}
use rk3588_npu_gpu.Gem.{Log, Env, lookup, put_object, rocket_ioctl_prep_bo, rocket_ioctl_fini_bo}

-- References on the object that were found and put.
abbrev pub lookups : Log → ℕ
lookups [] = 0
lookups (lookup true ∷ l) = suc (lookups l)
lookups (_ ∷ l) = lookups l

abbrev pub object_puts : Log → ℕ
object_puts [] = 0
object_puts (put_object ∷ l) = suc (object_puts l)
object_puts (_ ∷ l) = object_puts l

module _ (e : Env) (reserved : ℕ) where
  -- Both ioctls give back the reference that they look up, on every path.
  pub access-Balanced :
      (lookups (rocket_ioctl_prep_bo e reserved).1
        ≡ object_puts (rocket_ioctl_prep_bo e reserved).1)
      × (lookups (rocket_ioctl_fini_bo e reserved).1
          ≡ object_puts (rocket_ioctl_fini_bo e reserved).1)
  unfolding rocket_ioctl_prep_bo rocket_ioctl_fini_bo
  access-Balanced = ground arith

  -- If the wait succeeds with a remaining time whose low 32 bits have the top bit set, the prepare
  -- ioctl returns a negative number, that is an error, although the buffer is ready.
  pub prep_bo_truncates :
      (left : ℕ)
      → reserved ≡ 0
      → e.found ≡ true
      → e.wait_ret ≡ pos left
      → 2 ^ 31 ≤ left % 2 ^ 32
      → is_neg (rocket_ioctl_prep_bo e reserved).0 ≡ true
  unfolding rocket_ioctl_prep_bo
  prep_bo_truncates left r f w big = ground arith
