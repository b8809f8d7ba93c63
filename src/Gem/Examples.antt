-- ===== src/Gem/Examples.antt =====
-- The theorems on rocket_gem.c for a buffer of one page.
use rk3588_npu_gpu.Base.{◌≡◌, ◌≢◌, ◌≤◌, refl, true, pos, arith, enomem}
use rk3588_npu_gpu.Gem.{
  Env, rocket_ioctl_create_bo, with_object, map_bo, object_put, err, err_remove_node,
}
use rk3588_npu_gpu.Gem.Create.{
  frees, domains_taken, domains_put, create_bo_ok, create_bo_frees_twice, create_bo_dangles,
}

-- Every call succeeds; the mapping covers one page.
abbrev willing : Env
willing = record {
  create_ret = pos 0;
  handle_ret = pos 0;
  pages_ret = pos 0;
  insert_ret = pos 0;
  start = 0x10000;
  map_ret = pos 4096;
  found = true;
  timeout = 100;
  wait_ret = pos 0x3ffffffffffffffe;
}

abbrev no_handle : Env
no_handle = record willing { handle_ret = enomem }

abbrev no_mapping : Env
no_mapping = record willing { map_ret = enomem }

created : (rocket_ioctl_create_bo willing 4096).0 ≡ pos 0
unfolding rocket_ioctl_create_bo with_object map_bo object_put
created = refl

create_bo_ok_example :
    let b = (rocket_ioctl_create_bo willing 4096).1 in
    (b.refcount ≡ 1)
    × (frees b.log ≡ 0)
    × (domains_taken b.log ≡ 1)
    × (domains_put b.log ≡ 0)
    × (4096 ≤ b.size)
    × (b.dma_address ≡ 0x10000)
create_bo_ok_example = create_bo_ok willing 4096 created

create_bo_frees_twice_example :
    let b = (rocket_ioctl_create_bo no_handle 4096).1 in
    (b.refcount ≡ 0) × (frees b.log ≡ 2) × (domains_put b.log ≡ domains_taken b.log)
create_bo_frees_twice_example = create_bo_frees_twice no_handle 4096 refl refl

not_mapped : (rocket_ioctl_create_bo no_mapping 4096).0 ≢ pos 0
unfolding rocket_ioctl_create_bo with_object map_bo object_put err err_remove_node
not_mapped h = ground arith

create_bo_dangles_example :
    let b = (rocket_ioctl_create_bo no_mapping 4096).1 in
    (b.refcount ≡ 1) × (frees b.log ≡ 1) × (domains_taken b.log ≡ 1) × (domains_put b.log ≡ 0)
create_bo_dangles_example = create_bo_dangles no_mapping 4096 refl refl not_mapped
