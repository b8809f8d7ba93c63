-- ===== src/Devfreq/Lifecycle/Sound.antt =====
-- The loops over the notifiers of rocket_devfreq.c, and the removal of a core, with what holds
-- between the calls.
use rk3588_npu_gpu.Base.{
  ℕ, suc, ◌<◌, ◌≡◌, refl, Bool, true, false, ◌||◌, not, none, some, is_some, List, [], ◌∷◌, ltb,
  if◌then◌else◌, arith,
}
use rk3588_npu_gpu.Devfreq.Kernel.{Env, Log, add_notifier, remove_notifier}
use rk3588_npu_gpu.Devfreq.{
  State, Slot, Notifier, make_safe, rocket_safe_rate, rocket_devfreq_release_all,
}
use rk3588_npu_gpu.Devfreq.Refs.{taken, dropped, release_all-dropped, Still, Balanced}
use rk3588_npu_gpu.Devfreq.Bound.{armed_bound-unbind_from, Sound, armed_bound, unbind_from}
use rk3588_npu_gpu.Devfreq.Lifecycle.{arm_from, disarm_from, remove_block, drop_boost, remove_live}

pub arm_from-refs :
    (e : Env) (i j : ℕ) (cs : List Slot) (ns : List Notifier) (u : Bool) (l : Log)
    → let c = arm_from e j cs ns u l in
      (taken i c.log ≡ taken i l) × (dropped i c.log ≡ dropped i l) × ((not u || c.unsafe) ≡ true)
unfolding arm_from
arm_from-refs e i j [] ns u l = ground arith
arm_from-refs e i j (c ∷ cs) [] u l = ground arith
arm_from-refs e i j (c ∷ cs) (n ∷ ns) u l =
    let l' = add_notifier j (e.add_ret l j) ∷ l in
    ground (
      arith,
      arm_from-refs e i (suc j) cs ns u l,
      arm_from-refs e i (suc j) cs ns u l',
      arm_from-refs e i (suc j) cs ns true l',
    )

pub arm_from-bound :
    (e : Env) (j : ℕ) (cs : List Slot) (ns : List Notifier) (u : Bool) (l : Log)
    → armed_bound j ns cs ≡ true
    → armed_bound j (arm_from e j cs ns u l).blocks cs ≡ true
unfolding arm_from armed_bound
arm_from-bound e j [] ns u l h = h
arm_from-bound e j (c ∷ cs) [] u l h = h
arm_from-bound e j (c ∷ cs) (n ∷ ns) u l h =
    let l' = add_notifier j (e.add_ret l j) ∷ l in
    ground (
      arith,
      arm_from-bound e (suc j) cs ns u l,
      arm_from-bound e (suc j) cs ns u l',
      arm_from-bound e (suc j) cs ns true l',
    )

-- What holds while core `i` is being removed: no references, a safe rate on record, and no armed
-- block for the core unless the driver is marked unsafe.
pub record Leaving (i : ℕ) (s : State) : Type 0 where
  pub balanced : (j : ℕ) → taken j s.log ≡ dropped j s.log
  pub awake : ltb rocket_safe_rate s.req_rate ≡ false
  pub idle : s.refs_held ≡ false
  pub kept : (s.unsafe || armed_bound 0 s.notifiers (unbind_from i 0 s.slots)) ≡ true

-- A block that is put out of use stands for no core.
pub disarm_from-bound :
    (e : Env) (slots : List Slot) (j : ℕ) (ns : List Notifier) (u : Bool) (l : Log) (cs : List Slot)
    → armed_bound j ns cs ≡ true
    → armed_bound j (disarm_from e slots ns u l).blocks cs ≡ true
unfolding disarm_from armed_bound
disarm_from-bound e slots j [] u l cs h = h
disarm_from-bound e slots j (n ∷ ns) u l [] h =
    let i : ℕ = elim n.core [ none ↦ 0 | some i ↦ i ] in
    ground (
      arith,
      disarm_from-bound e slots (suc j) ns u l [],
      disarm_from-bound e slots (suc j) ns u (remove_notifier i (e.remove_ret l i) ∷ l) [],
    )
disarm_from-bound e slots j (n ∷ ns) u l (c ∷ cs) h =
    let i : ℕ = elim n.core [ none ↦ 0 | some i ↦ i ] in
    ground (
      arith,
      disarm_from-bound e slots (suc j) ns u l cs,
      disarm_from-bound e slots (suc j) ns u (remove_notifier i (e.remove_ret l i) ∷ l) cs,
    )

pub disarm_from-unsafe :
    (e : Env) (slots : List Slot) (ns : List Notifier) (u : Bool) (l : Log)
    → (disarm_from e slots ns u l).unsafe ≡ u
unfolding disarm_from
disarm_from-unsafe e slots [] u l = refl
disarm_from-unsafe e slots (n ∷ ns) u l =
    let i : ℕ = elim n.core [ none ↦ 0 | some i ↦ i ] in
    ground (
      arith,
      disarm_from-unsafe e slots ns u l,
      disarm_from-unsafe e slots ns u (remove_notifier i (e.remove_ret l i) ∷ l),
    )

remove_block-unsafe :
    (e : Env) (i : ℕ) (ns : List Notifier) (l : Log) → (remove_block e i ns true l).unsafe ≡ true
unfolding remove_block
remove_block-unsafe e i [] l = refl
remove_block-unsafe e i (n ∷ ns) l = ground (arith, remove_block-unsafe e i ns l)

remove_block-bound :
    (e : Env) (i j : ℕ) (ns : List Notifier) (u : Bool) (l : Log) (cs : List Slot)
    → armed_bound j ns cs ≡ true
    → let c = remove_block e i ns u l in
      (c.unsafe || armed_bound j c.blocks (unbind_from i j cs)) ≡ true
unfolding remove_block armed_bound unbind_from
remove_block-bound e i j [] u l cs h = ground arith
remove_block-bound e i j (n ∷ ns) u l [] h =
    ground (arith, remove_block-bound e i (suc j) ns u l [])
remove_block-bound e i j (n ∷ ns) u l (c ∷ cs) h =
    let past : j < suc j = omega arith in
    ground (
      arith,
      remove_block-bound e i (suc j) ns u l cs,
      armed_bound-unbind_from j (suc j) ns cs past,
    )

remove_block-kept :
    (e : Env) (i : ℕ) (ns : List Notifier) (u : Bool) (l : Log) (cs : List Slot)
    → (u || armed_bound 0 ns cs) ≡ true
    → let c = remove_block e i ns u l in
      (c.unsafe || armed_bound 0 c.blocks (unbind_from i 0 cs)) ≡ true
remove_block-kept e i ns true l cs h = rw (remove_block-unsafe e i ns l) refl
remove_block-kept e i ns false l cs h = remove_block-bound e i 0 ns false l cs h

remove_block-refs :
    (e : Env) (i j : ℕ) (ns : List Notifier) (u : Bool) (l : Log)
    → let c = remove_block e i ns u l in
      (taken j c.log ≡ taken j l) × (dropped j c.log ≡ dropped j l)
unfolding remove_block
remove_block-refs e i j [] u l = (refl, refl)
remove_block-refs e i j (n ∷ ns) u l = ground (arith, remove_block-refs e i j ns u l)

module _ (e : Env) (i : ℕ) (s : State) where
  make_safe-Still : (j : ℕ) → Still j s (make_safe e i s).1
  unfolding make_safe
  make_safe-Still j = ground arith

  make_safe-req_rate : (make_safe e i s).1.req_rate ≡ s.req_rate
  unfolding make_safe
  make_safe-req_rate = ground arith

-- What giving up the boost leaves.
record Unboosted (s s' : State) : Type 0 where
  balanced : (j : ℕ) → taken j s'.log ≡ dropped j s'.log
  awake : s'.req_rate ≡ rocket_safe_rate
  idle : s'.refs_held ≡ false
  notifiers : s'.notifiers ≡ s.notifiers
  slots : s'.slots ≡ s.slots
  unsafe : (not s.unsafe || s'.unsafe) ≡ true

module _ (e : Env) (i : ℕ) (s : State) (b : Balanced s) where
  drop_boost-balanced : (j : ℕ) → let s' = drop_boost e i s in taken j s'.log ≡ dropped j s'.log
  unfolding drop_boost rocket_devfreq_release_all
  drop_boost-balanced j =
      let s₁ = record s { req_rate = rocket_safe_rate } in
      let m = (make_safe e i s₁).1 in
      ground (
        arith,
        b j,
        make_safe-Still e i s₁ j,
        release_all-dropped j (record m { refs_held = false }),
      )

  drop_boost-Unboosted : Unboosted s (drop_boost e i s)
  unfolding drop_boost rocket_devfreq_release_all
  drop_boost-Unboosted =
      let s₁ = record s { req_rate = rocket_safe_rate } in
      record {
        balanced = drop_boost-balanced;
        awake = ground (arith, make_safe-req_rate e i s₁);
        idle = ground (arith, make_safe-Still e i s₁ 0);
        notifiers = ground (arith, make_safe-Still e i s₁ 0);
        slots = ground (arith, make_safe-Still e i s₁ 0);
        unsafe = ground arith;
      }

module _ (e : Env) (i : ℕ) (s : State) where
  pub remove_live-Leaving : Sound s → Leaving i (remove_live e i s)
  unfolding remove_live
  remove_live-Leaving h =
      let m = if is_some s.core then drop_boost e i s else s in
      let d = drop_boost-Unboosted e i s h.balanced in
      record {
        balanced = λ j. ground (
          arith,
          h.balanced j,
          h.owned,
          d.balanced j,
          remove_block-refs e i j m.notifiers m.unsafe m.log,
        );
        awake = ground (arith, h.owned, h.awake, d.awake);
        idle = ground (arith, h.owned, d.idle);
        kept = ground (
          arith,
          h.kept,
          d.notifiers,
          d.slots,
          d.unsafe,
          remove_block-kept e i m.notifiers m.unsafe m.log m.slots,
        );
      }
