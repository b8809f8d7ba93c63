-- ===== src/Gem.antt =====
-- npu/driver/rocket_gem.c: the ioctls on buffer objects. A buffer object is its reference count and
-- whether its memory has been freed; the kernel's answers are an `Env`; its calls are the log,
-- newest first.
pub mod Create
pub mod Access
pub mod Examples
use rk3588_npu_gpu.Base.{
  ℕ, zero, suc, ◌-◌, ◌%◌, ◌^◌, Bool, true, false, ◌||◌, not, List, [], ◌∷◌, ℤ, pos, negsuc, ltb,
  ltb_ℤ, ◌==◌, is_neg, is_zero, if◌then◌else◌, einval, enoent, enomem, etimedout, ebusy,
}

pub data Event : Type 0 where
  shmem_create : (ret : ℤ) → Event
  shmem_free : Event
  take_domain : Event
  put_domain : Event
  handle_create : (ret : ℤ) → Event
  get_pages : (ret : ℤ) → Event
  insert_node : (ret : ℤ) → Event
  remove_node : Event
  iommu_map : (ret : ℤ) → Event
  iommu_unmap : Event
  lookup : (found : Bool) → Event
  put_object : Event
  wait : (ret : ℤ) → Event
  sync_for_cpu : Event
  sync_for_device : Event

abbrev pub Log : Type 0
Log = List Event

-- A call that returns a pointer answers 0 or the error of an error pointer; `start` is the address
-- in the node, which is 0 unless a node was inserted; `timeout` is that of
-- `drm_timeout_abs_to_jiffies`.
pub record Env : Type 0 where
  pub create_ret : ℤ
  pub handle_ret : ℤ
  pub pages_ret : ℤ
  pub insert_ret : ℤ
  pub start : ℕ
  pub map_ret : ℤ
  pub found : Bool
  pub timeout : ℕ
  pub wait_ret : ℤ

-- A buffer object: references, `rkt_obj->size`, and the address reported in `args->dma_address`.
pub record Bo : Type 0 where
  pub refcount : ℕ
  pub size : ℕ
  pub dma_address : ℕ
  pub log : Log

abbrev pub emit : Event → Bo → Bo
emit v b = record b { log = v ∷ b.log }

-- Before a call: no object.
abbrev pub no_bo : Bo
no_bo = record { refcount = 0; size = 0; dma_address = 0; log = [] }

abbrev pub magnitude : ℤ → ℕ
magnitude (pos n) = n
magnitude (negsuc n) = suc n

-- A long as an int: its low 32 bits, as a signed number.
abbrev pub to_int : ℤ → ℤ
to_int (pos n) =
    let low = n % 2 ^ 32 in if ltb low (2 ^ 31) then pos low else negsuc (2 ^ 32 - 1 - low)
to_int (negsuc n) =
    let low = n % 2 ^ 32 in if ltb low (2 ^ 31) then negsuc low else pos (2 ^ 32 - 1 - low)

-- `rocket_gem_bo_free` is the object's `free`.
pub rocket_gem_bo_free : Bo → Bo
rocket_gem_bo_free b = emit shmem_free (emit put_domain (emit remove_node (emit iommu_unmap b)))

-- `drm_gem_object_put`, which calls the object's `free` with the last reference.
pub object_put : Bo → Bo
object_put b =
    let b' = emit put_object (record b { refcount = b.refcount - 1 }) in
    if b'.refcount == 0 then rocket_gem_bo_free b' else b'

-- The labels at the end of `rocket_ioctl_create_bo`.
pub err : ℤ → Bo → ℤ × Bo
err ret b = (ret, emit shmem_free b)

pub err_remove_node : ℤ → Bo → ℤ × Bo
unfolding err
err_remove_node ret b = err ret (emit remove_node b)

module _ (e : Env) (size : ℕ) where
  -- From the insertion of the node on, whose return code is overwritten by that of the mapping.
  pub map_bo : Bo → ℤ × Bo
  map_bo b =
      let b = emit (iommu_map e.map_ret) (emit (insert_node e.insert_ret) b) in
      if ltb_ℤ e.map_ret (pos 0) || ltb_ℤ e.map_ret (pos size)
      then err_remove_node enomem b
      else (pos 0, record b { size = magnitude e.map_ret; dma_address = e.start })

  -- From the handle on.
  pub with_object : Bo → ℤ × Bo
  with_object b =
      let b = emit (handle_create e.handle_ret) b in
      let b = if is_zero e.handle_ret then record b { refcount = suc b.refcount } else b in
      let b = object_put b in
      if not (is_zero e.handle_ret)
      then err e.handle_ret b
      else let b = emit (get_pages e.pages_ret) b in
        if is_neg e.pages_ret then err e.pages_ret b else map_bo b

  pub rocket_ioctl_create_bo : ℤ × Bo
  rocket_ioctl_create_bo =
      let b = emit (shmem_create e.create_ret) no_bo in
      if is_neg e.create_ret
      then (e.create_ret, b)
      else with_object (emit take_domain (record b { refcount = 1; size = size }))

module _ (e : Env) where
  -- `ret` is a long; the function returns an int.
  pub rocket_ioctl_prep_bo : (reserved : ℕ) → ℤ × Log
  rocket_ioctl_prep_bo reserved =
      if not (reserved == 0)
      then (einval, [])
      else if not e.found
      then (enoent, lookup false ∷ [])
      else let ret =
          if is_zero e.wait_ret
          then (if e.timeout == 0 then ebusy else etimedout)
          else e.wait_ret in
        (to_int ret, put_object ∷ sync_for_cpu ∷ wait e.wait_ret ∷ lookup true ∷ [])

  pub rocket_ioctl_fini_bo : (reserved : ℕ) → ℤ × Log
  rocket_ioctl_fini_bo reserved =
      if not (reserved == 0)
      then (einval, [])
      else if not e.found
      then (enoent, lookup false ∷ [])
      else (pos 0, put_object ∷ sync_for_device ∷ lookup true ∷ [])
