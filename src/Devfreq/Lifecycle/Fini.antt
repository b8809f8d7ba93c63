-- ===== src/Devfreq/Lifecycle/Fini.antt =====
-- The end of the ownership: `rocket_devfreq_fini`.
use rk3588_npu_gpu.Base.{
  ℕ, ◌+◌, ◌≡◌, refl, Bool, true, false, none, some, List, [], ◌∷◌, if◌then◌else◌, arith,
}
use rk3588_npu_gpu.Devfreq.Kernel.{Env, Log, remove_notifier, cooling_unregister}
use rk3588_npu_gpu.Devfreq.{
  State, Slot, Notifier, emit, write_rate, rocket_safe_rate, rocket_devfreq_owns,
  rocket_devfreq_release_all,
}
use rk3588_npu_gpu.Devfreq.Refs.{taken, dropped, owed, Balanced, release_all-dropped}
use rk3588_npu_gpu.Devfreq.Lifecycle.{
  same_core, disarm_from, rocket_df_disarm_notifiers, fini_owner, rocket_devfreq_fini,
}

module _ (e : Env) (j : ℕ) where
  pub disarm_from-refs :
      (slots : List Slot) (ns : List Notifier) (u : Bool) (l : Log)
      → (taken j (disarm_from e slots ns u l).log ≡ taken j l)
        × (dropped j (disarm_from e slots ns u l).log ≡ dropped j l)
  unfolding disarm_from
  disarm_from-refs slots [] u l = (refl, refl)
  disarm_from-refs slots (n ∷ ns) u l =
      let i : ℕ = elim n.core [ none ↦ 0 | some i ↦ i ] in
      ground (
        arith,
        disarm_from-refs slots ns u l,
        disarm_from-refs slots ns u (remove_notifier i (e.remove_ret l i) ∷ l),
      )

module _ (e : Env) (i j : ℕ) (s : State) where
  disarm-refs :
      let s' = rocket_df_disarm_notifiers e s in
      (taken j s'.log ≡ taken j s.log)
      × (dropped j s'.log ≡ dropped j s.log)
      × (s'.core ≡ s.core)
      × (s'.refs_held ≡ s.refs_held)
      × (s'.req_rate ≡ s.req_rate)
  unfolding rocket_df_disarm_notifiers
  disarm-refs =
      let r = disarm_from-refs e j s.slots s.notifiers s.unsafe s.log in
      (r.0, r.1, refl, refl, refl)

module _ (e : Env) (i j : ℕ) (s : State) where
  fini_owner-ends :
      taken j s.log ≡ dropped j s.log + (if s.refs_held then owed s.slots 0 j else 0)
      → let s' = fini_owner e i s in
        (s'.core ≡ none)
        × (s'.refs_held ≡ false)
        × (s'.req_rate ≡ rocket_safe_rate)
        × (taken j s'.log ≡ dropped j s'.log)
  unfolding fini_owner rocket_devfreq_release_all
  fini_owner-ends h =
      let c = if s.cdev then record (emit cooling_unregister s) { cdev = false } else s in
      let a = record c { req_rate = rocket_safe_rate } in
      let w = (write_rate e i rocket_safe_rate (record a { refs_held = false })).1 in
      let x = (write_rate e i rocket_safe_rate a).1 in
      ground (
        arith,
        release_all-dropped j w,
        disarm-refs e i j (record (rocket_devfreq_release_all w) { core = none }),
        disarm-refs e i j (record a { core = none }),
        disarm-refs e i j (record x { core = none }),
      )

-- When the owner is removed while the references are balanced, nobody owns the clock any more, the
-- boost is off, the rate on record is the safe one, and for each core every reference that was
-- taken has been given back.
pub rocket_devfreq_fini_ends :
    (e : Env) (i j : ℕ) (s : State)
    → s.core ≡ some i
    → rocket_devfreq_owns s (some i) ≡ true
    → Balanced s
    → let s' = rocket_devfreq_fini e (some i) s in
      (s'.core ≡ none)
      × (s'.refs_held ≡ false)
      × (s'.req_rate ≡ rocket_safe_rate)
      × (taken j s'.log ≡ dropped j s'.log)
unfolding rocket_devfreq_fini
rocket_devfreq_fini_ends e i j s c o h =
    let same : same_core (some i) s.core ≡ true = rw c (ground arith) in
    rw (o, same) (fini_owner-ends e i j s (h j))
