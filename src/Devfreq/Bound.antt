-- ===== src/Devfreq/Bound.antt =====
-- The slots of the device as rocket_drv.c binds and unbinds them, and what ties the notifiers of
-- rocket_devfreq.c to them.
use rk3588_npu_gpu.Base.{
  ℕ, suc, ◌+◌, ◌≤◌, ◌<◌, ◌≡◌, refl, Bool, true, false, ◌&&◌, ◌||◌, not, Option, none, some, List,
  [], ◌∷◌, ◌==◌, ltb, is_some, if◌then◌else◌, length, all, arith,
}
use rk3588_npu_gpu.Devfreq.{Slot, Notifier, State, armed_count, rocket_safe_rate}
use rk3588_npu_gpu.Devfreq.Refs.{taken, dropped, owed}

-- `cores[i].dev` and `cores[i].rdev` are set at probe; `cores[i].dev` is cleared at remove. The slots
-- given are those from `j` on.
unfoldable pub bind_from : ℕ → ℕ → List Slot → List Slot
bind_from i j [] = []
bind_from i j (c ∷ cs) =
    (if j == i then record { dev = true; rdev = 0 } else c) ∷ bind_from i (suc j) cs

unfoldable pub unbind_from : ℕ → ℕ → List Slot → List Slot
unbind_from i j [] = []
unbind_from i j (c ∷ cs) =
    (if j == i then record c { dev = false } else c) ∷ unbind_from i (suc j) cs

-- The scan of `rocket_probe` for a free slot, which ends at `max_cores` if there is none.
unfoldable pub first_free : List Slot → ℕ
first_free [] = 0
first_free (c ∷ cs) = let rest = first_free cs in if not c.dev then 0 else suc rest

abbrev pub same_slot : Option ℕ → ℕ → Bool
same_slot none i = false
same_slot (some k) i = k == i

abbrev pub all_bound : List Slot → Bool
all_bound cs = all (λ c. c.dev) cs

-- Each armed block, from number `j` on, stands for the core with its number, which is bound.
unfoldable pub armed_bound : ℕ → List Notifier → List Slot → Bool
armed_bound j [] cs = true
armed_bound j (n ∷ ns) [] = not n.armed && armed_bound (suc j) ns []
armed_bound j (n ∷ ns) (c ∷ cs) =
    (not n.armed || (c.dev && same_slot n.core j)) && armed_bound (suc j) ns cs

-- There are never more armed blocks than bound cores; with one for each core, all are bound.
armed_none : (j : ℕ) (ns : List Notifier) → armed_bound j ns [] ≡ true → armed_count ns ≡ 0
unfolding armed_bound armed_count
armed_none j [] h = refl
armed_none j (n ∷ ns) h = ground (arith, armed_none (suc j) ns)

armed-le :
    (j : ℕ) (ns : List Notifier) (cs : List Slot)
    → armed_bound j ns cs ≡ true
    → armed_count ns ≤ length cs
unfolding armed_bound armed_count
armed-le j [] cs h = omega arith
armed-le j (n ∷ ns) [] h = ground (arith, armed_none (suc j) ns)
armed-le j (n ∷ ns) (c ∷ cs) h = ground (arith, armed-le (suc j) ns cs)

pub guarded-all_bound :
    (j : ℕ) (ns : List Notifier) (cs : List Slot)
    → armed_bound j ns cs ≡ true
    → armed_count ns ≡ length cs
    → all_bound cs ≡ true
unfolding armed_bound armed_count
guarded-all_bound j [] [] h e = refl
guarded-all_bound j [] (c ∷ cs) h e = absurd (omega arith)
guarded-all_bound j (n ∷ ns) [] h e = refl
guarded-all_bound j (n ∷ ns) (c ∷ cs) h e =
    ground (arith, guarded-all_bound (suc j) ns cs, armed-le (suc j) ns cs)

pub armed_bound-bind_from :
    (i j : ℕ) (ns : List Notifier) (cs : List Slot)
    → armed_bound j ns cs ≡ true
    → armed_bound j ns (bind_from i j cs) ≡ true
unfolding armed_bound bind_from
armed_bound-bind_from i j [] cs h = refl
armed_bound-bind_from i j (n ∷ ns) [] h = h
armed_bound-bind_from i j (n ∷ ns) (c ∷ cs) h =
    ground (arith, armed_bound-bind_from i (suc j) ns cs)

-- A device whose cores are all bound has no free slot.
pub all_bound-first_free : (cs : List Slot) → all_bound cs ≡ true → first_free cs ≡ length cs
unfolding first_free
all_bound-first_free [] h = refl
all_bound-first_free (c ∷ cs) h = ground (arith, all_bound-first_free cs)

-- Past its own number, a slot that is unbound is not looked at.
pub armed_bound-unbind_from :
    (i j : ℕ) (ns : List Notifier) (cs : List Slot)
    → i < j
    → armed_bound j ns cs ≡ true
    → armed_bound j ns (unbind_from i j cs) ≡ true
unfolding armed_bound unbind_from
armed_bound-unbind_from i j [] cs p h = refl
armed_bound-unbind_from i j (n ∷ ns) [] p h = h
armed_bound-unbind_from i j (n ∷ ns) (c ∷ cs) p h =
    let step : i < suc j = omega arith in
    ground (arith, armed_bound-unbind_from i (suc j) ns cs step)

-- No block stands for a free slot, so a core that is bound there and unbound again leaves none.
pub armed_bound-rebind :
    (i j : ℕ) (ns : List Notifier) (cs : List Slot)
    → j + first_free cs ≡ i
    → armed_bound j ns cs ≡ true
    → armed_bound j ns (unbind_from i j (bind_from i j cs)) ≡ true
unfolding armed_bound unbind_from bind_from first_free
armed_bound-rebind i j [] cs p h = refl
armed_bound-rebind i j (n ∷ ns) [] p h = h
armed_bound-rebind i j (n ∷ ns) (c ∷ cs) p h =
    let past : j < suc j = omega arith in
    ground (
      arith,
      armed_bound-bind_from j (suc j) ns cs,
      armed_bound-unbind_from j (suc j) ns (bind_from j (suc j) cs) past,
      armed_bound-rebind i (suc j) ns cs,
    )

-- What holds between the calls: the references are balanced; a rate above the safe one means that
-- the cores are held; they are held only under an owner, and only with all cores bound; and unless
-- the driver is marked unsafe, each armed block stands for its own bound core.
pub record Sound (s : State) : Type 0 where
  pub balanced :
      (i : ℕ) → taken i s.log ≡ dropped i s.log + (if s.refs_held then owed s.slots 0 i else 0)
  pub awake : (not (ltb rocket_safe_rate s.req_rate) || s.refs_held) ≡ true
  pub owned : (not s.refs_held || is_some s.core) ≡ true
  pub full : (not s.refs_held || all_bound s.slots) ≡ true
  pub kept : (s.unsafe || armed_bound 0 s.notifiers s.slots) ≡ true

-- With every slot bound, each core is owed one reference.
owed_past : (cs : List Slot) (j i : ℕ) → i < j → owed cs j i ≡ 0
owed_past [] j i p = refl
owed_past (c ∷ cs) j i p =
    let step : i < suc j = omega arith in ground (arith, owed_past cs (suc j) i step)

pub owed-all_bound :
    (cs : List Slot) (j i : ℕ) → all_bound cs ≡ true → j ≤ i → i < j + length cs → owed cs j i ≡ 1
owed-all_bound [] j i h p q = absurd (omega arith)
owed-all_bound (c ∷ cs) j i h p q =
    let past : j < suc j = omega arith in
    ground (arith, owed_past cs (suc j) j past, owed-all_bound cs (suc j) i)
