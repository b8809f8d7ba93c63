-- ===== src/Drv/Files.antt =====
-- What a file owns after `rocket_open`, on every path, and after `rocket_postclose`.
use rk3588_npu_gpu.Base.{
  ℕ, suc, ◌+◌, ◌≡◌, refl, Bool, true, false, ◌&&◌, Option, none, some, List, [], ◌∷◌, is_neg,
  is_zero, ◌==◌, if◌then◌else◌, arith,
}
use rk3588_npu_gpu.Drv.{
  Thing, driver_module, priv, domain, paging, mm, mm_lock, scheds, entity, take, give, Log, Env,
  Opened, returns, crashes, rocket_first_live_core, rocket_iommu_domain_destroy,
  rocket_iommu_domain_put, err_put_mod, err_free, err_mm_takedown, rocket_iommu_domain_create,
  rocket_job_open, open_mm, open_domain, rocket_open, rocket_job_close, rocket_postclose,
}

abbrev pub same : Thing → Thing → Bool
same driver_module driver_module = true
same priv priv = true
same domain domain = true
same paging paging = true
same mm mm = true
same mm_lock mm_lock = true
same scheds scheds = true
same entity entity = true
same _ _ = false

-- How often a thing was taken and given back.
abbrev pub taken : Thing → Log → ℕ
taken x [] = 0
taken x (take y ∷ l) = if same x y then suc (taken x l) else taken x l
taken x (give y ∷ l) = taken x l

abbrev pub given : Thing → Log → ℕ
given x [] = 0
given x (take y ∷ l) = given x l
given x (give y ∷ l) = if same x y then suc (given x l) else given x l

-- A file that is open owns one of the thing, and a file that could not be opened none.
abbrev pub owns_one : Thing → Opened → Bool
owns_one x (returns ret f) = taken x f.log == given x f.log + (if is_zero ret then 1 else 0)
owns_one x crashes = false

-- All that a file owns but the array of schedulers.
abbrev pub owns_all : Opened → Bool
owns_all o =
    owns_one driver_module o
    && owns_one priv o
    && owns_one domain o
    && owns_one paging o
    && owns_one mm o
    && owns_one mm_lock o
    && owns_one entity o

abbrev pub even : Thing → Log → Bool
even x l = taken x l == given x l

-- Nothing at all is left.
abbrev pub even_all : Log → Bool
even_all l =
    even driver_module l
    && even priv l
    && even domain l
    && even paging l
    && even mm l
    && even mm_lock l
    && even scheds l
    && even entity l

-- The log when the file has been closed, if it could be opened.
abbrev pub after_close : Env → Opened → Log
after_close e (returns ret f) = if is_zero ret then (rocket_postclose e f).log else f.log
after_close e crashes = take scheds ∷ []

abbrev pub leaks_scheds : Opened → Bool
leaks_scheds (returns ret f) = taken scheds f.log == 1 && given scheds f.log == 0
leaks_scheds crashes = false

module _ (e : Env) (cores : List Bool) where
  open_all :
      (core : Option ℕ)
      → e.scheds_alloc ≡ true
      → rocket_first_live_core cores ≡ core
      → owns_all (rocket_open e cores) ≡ true
  unfolding rocket_open open_domain open_mm rocket_job_open rocket_iommu_domain_create err_put_mod
      err_free err_mm_takedown rocket_iommu_domain_put rocket_iommu_domain_destroy
  open_all none a h = rw h (ground arith)
  open_all (some i) a h = rw h (ground arith)

  -- If the array of schedulers can be allocated, opening a file returns on every path, and then it
  -- owns one of each thing if it returned 0, and none otherwise; the array itself is left out.
  pub rocket_open_owns : e.scheds_alloc ≡ true → owns_all (rocket_open e cores) ≡ true
  rocket_open_owns a = open_all (rocket_first_live_core cores) a refl

  close_all :
      (core : Option ℕ)
      → e.scheds_alloc ≡ true
      → e.keeps_list ≡ true
      → is_zero e.entity_ret ≡ true
      → rocket_first_live_core cores ≡ core
      → even_all (after_close e (rocket_open e cores)) ≡ true
  unfolding rocket_open open_domain open_mm rocket_job_open rocket_iommu_domain_create err_put_mod
      err_free rocket_iommu_domain_put rocket_iommu_domain_destroy rocket_postclose rocket_job_close
  close_all none a k z h = rw h (ground arith)
  close_all (some i) a k z h = rw h (ground arith)

  -- Opening a file and then closing it, if it could be opened, gives back each thing as often as it
  -- was taken, if the array of schedulers is allocated, and the entity is made and keeps the array.
  pub open_then_close :
      e.scheds_alloc ≡ true
      → e.keeps_list ≡ true
      → is_zero e.entity_ret ≡ true
      → even_all (after_close e (rocket_open e cores)) ≡ true
  open_then_close a k z = close_all (rocket_first_live_core cores) a k z refl

  -- If there is a live core and only the entity cannot be made, the file is not opened, and the
  -- array of schedulers is never freed.
  pub open_leaks :
      (core : ℕ)
      → rocket_first_live_core cores ≡ some core
      → e.module_get ≡ true
      → e.priv_alloc ≡ true
      → e.domain_alloc ≡ true
      → is_neg e.paging_ret ≡ false
      → e.scheds_alloc ≡ true
      → is_zero e.entity_ret ≡ false
      → leaks_scheds (rocket_open e cores) ≡ true
  unfolding rocket_open open_domain open_mm rocket_job_open rocket_iommu_domain_create err_put_mod
      err_free err_mm_takedown rocket_iommu_domain_put rocket_iommu_domain_destroy
  open_leaks core h m p d g a z = rw h (ground arith)
