-- ===== src/Drv/Lookup.antt =====
-- How npu/driver/rocket_drv.c and npu/driver/rocket_job.c find a core: by its device, and by its
-- scheduler. The table of cores has the device of each slot, which is none in a free slot.
use rk3588_npu_gpu.Base.{
  ℕ, zero, suc, ◌+◌, ◌≡◌, refl, Bool, false, ◌&&◌, Option, none, some, is_some, List, [], ◌∷◌, ℤ,
  pos, negsuc, ◌==◌, if◌then◌else◌, get_elem?, modify, arith,
}

abbrev pub Table : Type 0
Table = List (Option ℕ)

abbrev pub is_dev : ℕ → Option ℕ → Bool
is_dev d none = false
is_dev d (some k) = d == k

-- The loop of `find_core_for_dev` from slot `j` on.
unfoldable pub find_from : ℕ → ℕ → Table → ℤ
find_from d j [] = negsuc 0
find_from d j (c ∷ cs) = let rest = find_from d (suc j) cs in if is_dev d c then pos j else rest

unfoldable pub find_core_for_dev : ℕ → Table → ℤ
find_core_for_dev d cs = find_from d 0 cs

-- The loop of `sched_to_core` from slot `j` on. A scheduler is part of its core, so a pointer to it is
-- the number of the slot; the result is the core, or null.
pub sched_from : ℕ → ℕ → Table → Option ℕ
sched_from i j [] = none
sched_from i j (c ∷ cs) =
    let rest = sched_from i (suc j) cs in if is_some c && j == i then some j else rest

pub sched_to_core : ℕ → Table → Option ℕ
sched_to_core i cs = sched_from i 0 cs

-- `rdev->cores[core].dev = &pdev->dev`, and `= NULL`.
pub set_dev : ℕ → ℕ → Table → Table
set_dev d i cs = modify (λ c. some d) i cs

pub clear_dev : ℕ → Table → Table
clear_dev i cs = modify (λ c. none) i cs

module _ (d : ℕ) where
  find_from-set :
      (i j : ℕ) (cs : Table)
      → find_from d j cs ≡ negsuc 0
      → get_elem? cs i ≡ some none
      → find_from d j (set_dev d i cs) ≡ pos (j + i)
  unfolding find_from set_dev
  find_from-set i j [] a f = ground arith
  find_from-set zero j (c ∷ cs) a f = ground arith
  find_from-set (suc i) j (none ∷ cs) a f = ground (arith, find_from-set i (suc j) cs)
  find_from-set (suc i) j (some k ∷ cs) a f = ground (arith, find_from-set i (suc j) cs)

  find_from-clear :
      (i j : ℕ) (cs : Table)
      → find_from d j cs ≡ negsuc 0
      → get_elem? cs i ≡ some none
      → find_from d j (clear_dev i (set_dev d i cs)) ≡ negsuc 0
  unfolding find_from set_dev clear_dev
  find_from-clear i j [] a f = ground arith
  find_from-clear zero j (c ∷ cs) a f = ground arith
  find_from-clear (suc i) j (c ∷ cs) a f = ground (arith, find_from-clear i (suc j) cs)

  find_from-other :
      (d' i j : ℕ) (cs : Table)
      → (d == d') ≡ false
      → get_elem? cs i ≡ some none
      → find_from d j (set_dev d' i cs) ≡ find_from d j cs
  unfolding find_from set_dev
  find_from-other d' i j [] n f = ground arith
  find_from-other d' zero j (c ∷ cs) n f = ground arith
  find_from-other d' (suc i) j (c ∷ cs) n f = ground (arith, find_from-other d' i (suc j) cs)

-- If a device is in no slot and is put into a free one, it is found there, every other device is
-- found where it was, and once the slot is cleared the device is found nowhere.
pub claimed_core_found :
    (d d' i : ℕ) (cs : Table)
    → find_core_for_dev d cs ≡ negsuc 0
    → get_elem? cs i ≡ some none
    → (d' == d) ≡ false
    → (find_core_for_dev d (set_dev d i cs) ≡ pos i)
      × (find_core_for_dev d' (set_dev d i cs) ≡ find_core_for_dev d' cs)
      × (find_core_for_dev d (clear_dev i (set_dev d i cs)) ≡ negsuc 0)
unfolding find_core_for_dev
claimed_core_found d d' i cs a f n = (
  ground (arith, find_from-set d i 0 cs),
  find_from-other d' d i 0 cs n f,
  find_from-clear d i 0 cs a f,
)

-- Whether slot `i` has a device.
abbrev pub is_live : Table → ℕ → Bool
is_live cs i = elim (get_elem? cs i) [ none ↦ false | some c ↦ is_some c ]

sched_from-past : (i k j : ℕ) (cs : Table) → j ≡ suc (i + k) → sched_from i j cs ≡ none
unfolding sched_from
sched_from-past i k j [] p = refl
sched_from-past i k j (c ∷ cs) p = ground (arith, sched_from-past i (suc k) (suc j) cs)

sched_from-lem :
    (i j : ℕ) (cs : Table) → sched_from (j + i) j cs ≡ (if is_live cs i then some (j + i) else none)
unfolding sched_from
sched_from-lem i j [] = ground arith
sched_from-lem zero j (none ∷ cs) = ground (arith, sched_from-past (j + 0) 0 (suc j) cs)
sched_from-lem zero j (some k ∷ cs) = ground arith
sched_from-lem (suc i) j (none ∷ cs) = ground (arith, sched_from-lem i (suc j) cs)
sched_from-lem (suc i) j (some k ∷ cs) = ground (arith, sched_from-lem i (suc j) cs)

-- The scheduler of a slot leads to that slot while it has a device, and to null otherwise.
sched_to_core_lem :
    (i : ℕ) (cs : Table) → sched_to_core i cs ≡ (if is_live cs i then some i else none)
unfolding sched_to_core
sched_to_core_lem i cs = ground (arith, sched_from-lem i 0 cs)
