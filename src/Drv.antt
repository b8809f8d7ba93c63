-- ===== src/Drv.antt =====
-- Opening and closing a file: npu/driver/rocket_drv.c with rocket_job_open and rocket_job_close of
-- npu/driver/rocket_job.c, and how a core is found. What a file takes of the kernel and gives back is its log, newest first.
pub mod Files
pub mod Lookup
pub mod Registration
pub mod Examples
use rk3588_npu_gpu.Base.{
  ℕ, suc, ◌-◌, Bool, true, false, not, Option, none, some, List, [], ◌∷◌, ℤ, pos, ◌==◌, is_neg,
  is_zero, if◌then◌else◌, einval, enomem, enodev,
}

-- `driver_module` is the reference on the module, `priv` the `struct rocket_file_priv`, `domain` the
-- `struct rocket_iommu_domain`, `paging` the IOMMU domain in it, `scheds` the array of schedulers.
pub data Thing : Type 0 where
  driver_module priv domain paging mm mm_lock scheds entity : Thing

pub data Event : Type 0 where
  take : Thing → Event
  give : Thing → Event

abbrev pub Log : Type 0
Log = List Event

-- The kernel's answers while a file is opened. `keeps_list` says whether the entity keeps the array
-- that it is given.
pub record Env : Type 0 where
  pub module_get : Bool
  pub priv_alloc : Bool
  pub domain_alloc : Bool
  pub paging_ret : ℤ
  pub scheds_alloc : Bool
  pub entity_ret : ℤ
  pub keeps_list : Bool

-- An open file: the references on its domain, and the log.
pub record File : Type 0 where
  pub domain_refs : ℕ
  pub log : Log

abbrev pub emit : Event → File → File
emit v f = record f { log = v ∷ f.log }

-- What `rocket_open` ends with; it crashes if it writes to an array that was not allocated.
pub data Opened : Type 0 where
  returns : ℤ → File → Opened
  crashes : Opened

abbrev pub next : Option ℕ → Option ℕ
next none = none
next (some i) = some (suc i)

-- `cores` says which slots have a device.
pub rocket_first_live_core : List Bool → Option ℕ
rocket_first_live_core [] = none
rocket_first_live_core (true ∷ cores) = some 0
rocket_first_live_core (false ∷ cores) = next (rocket_first_live_core cores)

pub rocket_iommu_domain_destroy : File → File
rocket_iommu_domain_destroy f = emit (give domain) (emit (give paging) f)

pub rocket_iommu_domain_get : File → File
rocket_iommu_domain_get f = record f { domain_refs = suc f.domain_refs }

pub rocket_iommu_domain_put : File → File
unfolding rocket_iommu_domain_destroy
rocket_iommu_domain_put f =
    let f' = record f { domain_refs = f.domain_refs - 1 } in
    if f'.domain_refs == 0 then rocket_iommu_domain_destroy f' else f'

-- The labels at the end of `rocket_open`.
pub err_put_mod : ℤ → File → Opened
err_put_mod ret f = returns ret (emit (give driver_module) f)

pub err_free : ℤ → File → Opened
unfolding err_put_mod
err_free ret f = err_put_mod ret (emit (give priv) f)

pub err_mm_takedown : ℤ → File → Opened
unfolding err_free
err_mm_takedown ret f =
    err_free ret (rocket_iommu_domain_put (emit (give mm) (emit (give mm_lock) f)))

module _ (e : Env) where
  pub rocket_iommu_domain_create : File → ℤ × File
  rocket_iommu_domain_create f =
      if not e.domain_alloc
      then (enomem, f)
      else let f = emit (take domain) f in
        if is_neg e.paging_ret
        then (e.paging_ret, emit (give domain) f)
        else (pos 0, record (emit (take paging) f) { domain_refs = 1 })

  -- `rocket_job_open`, once the array is there.
  pub rocket_job_open : File → ℤ × File
  rocket_job_open f =
      let f = emit (take scheds) f in
      if is_zero e.entity_ret then (pos 0, emit (take entity) f) else (e.entity_ret, f)

  -- From the address space on.
  pub open_mm : File → Opened
  open_mm f =
      let f = emit (take mm_lock) (emit (take mm) f) in
      if not e.scheds_alloc
      then crashes
      else let (ret, f') = rocket_job_open f in
        if is_zero ret then returns (pos 0) f' else err_mm_takedown ret f'

  -- From the choice of a core on.
  pub open_domain : Option ℕ → File → Opened
  open_domain none f = err_free enodev f
  open_domain (some core) f =
      let (ret, f') = rocket_iommu_domain_create f in
      if is_neg ret then err_free ret f' else open_mm f'

  pub rocket_open : List Bool → Opened
  rocket_open cores =
      let f : File = record { domain_refs = 0; log = [] } in
      if not e.module_get
      then returns einval f
      else let f = emit (take driver_module) f in
        if not e.priv_alloc
        then err_put_mod enomem f
        else open_domain (rocket_first_live_core cores) (emit (take priv) f)

  -- The array goes with the entity's pointer to it, which is null if it was not kept.
  pub rocket_job_close : File → File
  rocket_job_close f = emit (give entity) (if e.keeps_list then emit (give scheds) f else f)

  pub rocket_postclose : File → File
  rocket_postclose f =
      let f = emit (give mm) (emit (give mm_lock) (rocket_job_close f)) in
      emit (give driver_module) (emit (give priv) (rocket_iommu_domain_put f))
