-- ===== src/System/Counts.antt =====
-- How many slots are bound.
use rk3588_npu_gpu.Base.{
  ℕ, zero, suc, ◌+◌, ◌≤◌, ◌<◌, ◌≡◌, refl, true, List, [], ◌∷◌, map, if◌then◌else◌, length, arith,
}
use rk3588_npu_gpu.Devfreq.{Slot, Notifier, dev_of}
use rk3588_npu_gpu.Devfreq.Bound.{bind_from, unbind_from, first_free, armed_bound, all_bound}
use rk3588_npu_gpu.System.{empty_slot}

abbrev pub bound_count : List Slot → ℕ
bound_count [] = 0
bound_count (c ∷ cs) = (if c.dev then 1 else 0) + bound_count cs

-- Beyond its number, a slot is not counted when it is bound or unbound.
count-bind_past :
    (i j : ℕ) (cs : List Slot) → i < j → bound_count (bind_from i j cs) ≡ bound_count cs
unfolding bind_from
count-bind_past i j [] p = refl
count-bind_past i j (c ∷ cs) p =
    let step : i < suc j = omega arith in ground (arith, count-bind_past i (suc j) cs step)

count-unbind_past :
    (i j : ℕ) (cs : List Slot) → i < j → bound_count (unbind_from i j cs) ≡ bound_count cs
unfolding unbind_from
count-unbind_past i j [] p = refl
count-unbind_past i j (c ∷ cs) p =
    let step : i < suc j = omega arith in ground (arith, count-unbind_past i (suc j) cs step)

pub count-bind_from :
    (i j : ℕ) (cs : List Slot)
    → j + first_free cs ≡ i
    → first_free cs < length cs
    → bound_count (bind_from i j cs) ≡ suc (bound_count cs)
unfolding bind_from first_free
count-bind_from i j [] p q = absurd (omega arith)
count-bind_from i j (c ∷ cs) p q =
    let past : j < suc j = omega arith in
    ground (arith, count-bind_past j (suc j) cs past, count-bind_from i (suc j) cs)

pub count-unbind_from :
    (i k j : ℕ) (cs : List Slot)
    → j + k ≡ i
    → dev_of cs k ≡ true
    → suc (bound_count (unbind_from i j cs)) ≡ bound_count cs
unfolding unbind_from
count-unbind_from i k j [] p d = cc
count-unbind_from i zero j (c ∷ cs) p d =
    let past : j < suc j = omega arith in ground (arith, count-unbind_past i (suc j) cs)
count-unbind_from i (suc k) j (c ∷ cs) p d = ground (arith, count-unbind_from i k (suc j) cs)

-- The slot that is claimed holds a core.
pub dev_of-bind_from :
    (i k j : ℕ) (cs : List Slot) → j + k ≡ i → k < length cs → dev_of (bind_from i j cs) k ≡ true
unfolding bind_from
dev_of-bind_from i k j [] p q = absurd (omega arith)
dev_of-bind_from i zero j (c ∷ cs) p q = ground arith
dev_of-bind_from i (suc k) j (c ∷ cs) p q = ground (arith, dev_of-bind_from i k (suc j) cs)

pub first_free-le : (cs : List Slot) → first_free cs ≤ length cs
unfolding first_free
first_free-le [] = omega arith
first_free-le (c ∷ cs) = ground (arith, first_free-le cs)

pub length-bind_from : (i j : ℕ) (cs : List Slot) → length (bind_from i j cs) ≡ length cs
unfolding bind_from
length-bind_from i j [] = refl
length-bind_from i j (c ∷ cs) = ground (arith, length-bind_from i (suc j) cs)

pub length-unbind_from : (i j : ℕ) (cs : List Slot) → length (unbind_from i j cs) ≡ length cs
unfolding unbind_from
length-unbind_from i j [] = refl
length-unbind_from i j (c ∷ cs) = ground (arith, length-unbind_from i (suc j) cs)

-- A new device: as many slots, none bound.
pub length-map_empty : (cs : List Slot) → length (map empty_slot cs) ≡ length cs
length-map_empty [] = refl
length-map_empty (c ∷ cs) = ground (arith, length-map_empty cs)

pub count-map_empty : (cs : List Slot) → bound_count (map empty_slot cs) ≡ 0
count-map_empty [] = refl
count-map_empty (c ∷ cs) = omega (arith, count-map_empty cs)

-- With no core bound, no block is armed for one.
pub armed_bound-map_empty :
    (j : ℕ) (ns : List Notifier) (cs : List Slot)
    → bound_count cs ≡ 0
    → armed_bound j ns cs ≡ true
    → armed_bound j ns (map empty_slot cs) ≡ true
unfolding armed_bound
armed_bound-map_empty j [] cs z h = refl
armed_bound-map_empty j (n ∷ ns) [] z h = h
armed_bound-map_empty j (n ∷ ns) (c ∷ cs) z h = ground (arith, armed_bound-map_empty (suc j) ns cs)

pub all_bound-count : (cs : List Slot) → all_bound cs ≡ true → bound_count cs ≡ length cs
all_bound-count [] h = refl
all_bound-count (c ∷ cs) h = ground (arith, all_bound-count cs)

pub first_free-none : (cs : List Slot) → bound_count cs ≡ 0 → first_free cs ≡ 0
unfolding first_free
first_free-none [] z = refl
first_free-none (c ∷ cs) z = ground arith

-- Which slots are bound, once a core is bound in the free slot and unbound again.
dev_of-unbind_past :
    (i j k : ℕ) (cs : List Slot) → i < j → dev_of (unbind_from i j cs) k ≡ dev_of cs k
unfolding unbind_from
dev_of-unbind_past i j k [] p = refl
dev_of-unbind_past i j zero (c ∷ cs) p = ground arith
dev_of-unbind_past i j (suc k) (c ∷ cs) p =
    let step : i < suc j = omega arith in dev_of-unbind_past i (suc j) k cs step

dev_of-bind_past : (i j k : ℕ) (cs : List Slot) → i < j → dev_of (bind_from i j cs) k ≡ dev_of cs k
unfolding bind_from
dev_of-bind_past i j k [] p = refl
dev_of-bind_past i j zero (c ∷ cs) p = ground arith
dev_of-bind_past i j (suc k) (c ∷ cs) p =
    let step : i < suc j = omega arith in dev_of-bind_past i (suc j) k cs step

pub dev_of-rebind :
    (i j k : ℕ) (cs : List Slot)
    → j + first_free cs ≡ i
    → dev_of (unbind_from i j (bind_from i j cs)) k ≡ dev_of cs k
unfolding bind_from unbind_from first_free
dev_of-rebind i j k [] p = refl
dev_of-rebind i j zero (c ∷ cs) p = ground arith
dev_of-rebind i j (suc k) (c ∷ cs) p =
    let past : j < suc j = omega arith in
    ground (
      arith,
      dev_of-rebind i (suc j) k cs,
      dev_of-bind_past j (suc j) k cs past,
      dev_of-unbind_past j (suc j) k (bind_from j (suc j) cs) past,
    )

pub dev_of-map_empty :
    (k : ℕ) (cs : List Slot) → bound_count cs ≡ 0 → dev_of (map empty_slot cs) k ≡ dev_of cs k
dev_of-map_empty k [] z = refl
dev_of-map_empty zero (c ∷ cs) z = ground arith
dev_of-map_empty (suc k) (c ∷ cs) z = ground (arith, dev_of-map_empty k cs)
