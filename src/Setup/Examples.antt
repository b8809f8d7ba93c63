-- ===== src/Setup/Examples.antt =====
-- The theorems on the set-up of a core, for a kernel in which every call succeeds.
use rk3588_npu_gpu.Base.{◌+◌, ◌≡◌, refl, true, [], pos, is_zero, ◌&&◌, if◌then◌else◌}
use rk3588_npu_gpu.Setup.{
  Env, scheduler, group, rocket_core_init, rocket_core_fini, attach_core, power_core,
  rocket_job_init,
}
use rk3588_npu_gpu.Setup.Cores.{taken, given, core_thing, rocket_core_init_owns, set_up_then_end}

abbrev fine : Env
fine = record {
  resets_ret = pos 0;
  clks_ret = pos 0;
  pc_iomem = pos 0;
  cna_iomem = pos 0;
  core_iomem = pos 0;
  mask_ret = pos 0;
  irq = pos 33;
  irq_ret = pos 0;
  wq_alloc = true;
  sched_ret = pos 0;
  resume_ret = pos 0;
}

rocket_core_init_owns_example :
    let (ret, l) = rocket_core_init fine [] in
    taken group l ≡ given group l + (if is_zero ret && core_thing group then 1 else 0)
rocket_core_init_owns_example = rocket_core_init_owns fine group refl

set_up_then_end_example :
    let l = (rocket_core_init fine []).1 in
    taken scheduler (rocket_core_fini l) ≡ given scheduler (rocket_core_fini l)
unfolding rocket_core_init attach_core power_core rocket_job_init
set_up_then_end_example = set_up_then_end fine scheduler refl
