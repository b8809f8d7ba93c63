-- ===== src/Drv/Examples.antt =====
-- The theorems on opening a file, on a device whose first slot is empty.
use rk3588_npu_gpu.Base.{◌≡◌, refl, Bool, true, false, none, some, List, [], ◌∷◌, ℤ, pos, negsuc}
use rk3588_npu_gpu.Drv.{Env, rocket_open}
use rk3588_npu_gpu.Drv.Lookup.{
  Table, find_core_for_dev, find_from, set_dev, clear_dev, claimed_core_found,
}
use rk3588_npu_gpu.Drv.Files.{owns_all, even_all, after_close, rocket_open_owns, open_then_close}

abbrev answers : ℤ → Env
answers entity_ret = record {
  module_get = true;
  priv_alloc = true;
  domain_alloc = true;
  paging_ret = pos 0;
  scheds_alloc = true;
  entity_ret = entity_ret;
  keeps_list = true;
}

abbrev slots : List Bool
slots = false ∷ true ∷ true ∷ []

rocket_open_owns_example : owns_all (rocket_open (answers (pos 0)) slots) ≡ true
rocket_open_owns_example = rocket_open_owns (answers (pos 0)) slots refl

open_then_close_example :
    even_all (after_close (answers (pos 0)) (rocket_open (answers (pos 0)) slots)) ≡ true
open_then_close_example = open_then_close (answers (pos 0)) slots refl refl refl

-- Devices 7 and 9 are bound, in the second and the third slot.
abbrev table : Table
table = none ∷ some 7 ∷ some 9 ∷ []

table-absent : find_core_for_dev 5 table ≡ negsuc 0
unfolding find_core_for_dev find_from
table-absent = refl

claimed_core_found_example :
    (find_core_for_dev 5 (set_dev 5 0 table) ≡ pos 0)
    × (find_core_for_dev 9 (set_dev 5 0 table) ≡ find_core_for_dev 9 table)
    × (find_core_for_dev 5 (clear_dev 0 (set_dev 5 0 table)) ≡ negsuc 0)
claimed_core_found_example = claimed_core_found 5 9 0 table table-absent refl refl
