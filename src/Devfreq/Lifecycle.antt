-- ===== src/Devfreq/Lifecycle.antt =====
-- The calls of npu/driver/rocket_devfreq.c from probe to shutdown: arming and disarming the genpd
-- notifiers, suspend, removal of a core, registration and its end. A core is `none` for the null
-- pointer.
pub mod Safety
pub mod Fini
pub mod Sound
pub mod Covered
pub mod Moments
pub mod Volts
pub mod Calls
pub mod Slots
use rk3588_npu_gpu.Base.{
  ℕ, suc, Bool, true, false, ◌&&◌, ◌||◌, not, Option, none, some, is_some, List, [], ◌∷◌, ℤ, pos,
  ◌==◌, is_neg, is_zero, if◌then◌else◌, ebusy,
}
use rk3588_npu_gpu.Devfreq.Kernel.{
  Env, Log, resume, put_autosuspend, mark_last_busy, add_notifier, remove_notifier, get_regulator,
  opp_remove_all, opp_set_config, opp_add, add_device, cooling_register, cooling_unregister,
}
use rk3588_npu_gpu.Devfreq.{
  State, Slot, Notifier, emit, dev_of, read_rate, write_rate, make_safe, rocket_safe_rate,
  rocket_devfreq_owns, rocket_devfreq_release_all, resume_and_get,
}

abbrev pub same_core : Option ℕ → Option ℕ → Bool
same_core none none = true
same_core (some i) (some j) = i == j
same_core _ _ = false

abbrev pub live_core : List Slot → Option ℕ → Bool
live_core slots none = false
live_core slots (some i) = dev_of slots i

-- What a loop over the notifiers changes.
pub record Chain : Type 0 where
  pub blocks : List Notifier
  pub unsafe : Bool
  pub log : Log

abbrev pub with_chain : State → Chain → State
with_chain s c = record s { notifiers = c.blocks; unsafe = c.unsafe; log = c.log }

abbrev pub cons_block : Notifier → Chain → Chain
cons_block n c = record c { blocks = n ∷ c.blocks }

abbrev pub disarmed : Notifier
disarmed = record { core = none; armed = false }

module _ (e : Env) where
  -- The loop of `rocket_df_arm_notifiers` from slot `i` on, with the blocks from there on.
  unfoldable pub arm_from : ℕ → List Slot → List Notifier → Bool → Log → Chain
  arm_from i [] ns unsafe l = record { blocks = ns; unsafe = unsafe; log = l }
  arm_from i (c ∷ cs) [] unsafe l = record { blocks = []; unsafe = unsafe; log = l }
  arm_from i (c ∷ cs) (n ∷ ns) unsafe l =
      let ret = e.add_ret l i in
      let l' = add_notifier i ret ∷ l in
      let skipped = arm_from (suc i) cs ns unsafe l in
      let armed = arm_from (suc i) cs ns unsafe l' in
      let failed = arm_from (suc i) cs ns true l' in
      if not c.dev || n.armed
      then cons_block n skipped
      else if is_zero ret
      then cons_block (record { core = some i; armed = true }) armed
      else cons_block (record n { core = none }) failed

  unfoldable pub rocket_df_arm_notifiers : State → State
  rocket_df_arm_notifiers s = with_chain s (arm_from 0 s.slots s.notifiers s.unsafe s.log)

  -- The body of the loop of `rocket_df_disarm_notifiers` for a block with a live core `i`.
  pub disarm_from : List Slot → List Notifier → Bool → Log → Chain
  disarm_from slots [] unsafe l = record { blocks = []; unsafe = unsafe; log = l }
  disarm_from slots (n ∷ ns) unsafe l =
      let i : ℕ = elim n.core [ none ↦ 0 | some i ↦ i ] in
      let ret = e.remove_ret l i in
      let l' = remove_notifier i ret ∷ l in
      let skipped = disarm_from slots ns unsafe l in
      let tried = disarm_from slots ns unsafe l' in
      if not n.armed || not (live_core slots n.core)
      then cons_block n skipped
      else cons_block (if is_zero ret then disarmed else n) tried

  pub rocket_df_disarm_notifiers : State → State
  rocket_df_disarm_notifiers s = with_chain s (disarm_from s.slots s.notifiers s.unsafe s.log)

  unfoldable pub suspend_live : ℕ → State → ℤ × State
  suspend_live i s =
      let (ret, s') = write_rate e i rocket_safe_rate s in
      (if is_zero ret then pos 0 else ebusy, s')

  unfoldable pub rocket_devfreq_suspend : Option ℕ → State → ℤ × State
  rocket_devfreq_suspend none s = (pos 0, s)
  rocket_devfreq_suspend (some i) s =
      if rocket_devfreq_owns s (some i) then suspend_live i s else (pos 0, s)

  -- The first loop step of `rocket_devfreq_core_removed` that finds the core's block.
  pub remove_block : ℕ → List Notifier → Bool → Log → Chain
  remove_block i [] unsafe l = record { blocks = []; unsafe = unsafe; log = l }
  remove_block i (n ∷ ns) unsafe l =
      let ret = e.remove_ret l i in
      let l' = remove_notifier i ret ∷ l in
      let later = remove_block i ns unsafe l in
      if not n.armed || not (same_core n.core (some i))
      then cons_block n later
      else if is_zero ret
      then record { blocks = disarmed ∷ ns; unsafe = unsafe; log = l' }
      else record { blocks = n ∷ ns; unsafe = true; log = l' }

  -- What `rocket_devfreq_core_removed` does under the lock while there is an owner.
  pub drop_boost : ℕ → State → State
  drop_boost i s =
      let (ret, s') = make_safe e i (record s { req_rate = rocket_safe_rate }) in
      let s' = record s' { unsafe = s.unsafe || not (is_zero ret) } in
      if s.refs_held then rocket_devfreq_release_all (record s' { refs_held = false }) else s'

  pub remove_live : ℕ → State → State
  remove_live i s =
      let s' = if is_some s.core then drop_boost i s else s in
      with_chain s' (remove_block i s'.notifiers s'.unsafe s'.log)

  pub rocket_devfreq_core_removed : Option ℕ → State → State
  rocket_devfreq_core_removed none s = s
  rocket_devfreq_core_removed (some i) s = if dev_of s.slots i then remove_live i s else s

  unfoldable pub rocket_devfreq_core_added : Option ℕ → State → State
  rocket_devfreq_core_added core s =
      if rocket_devfreq_owns s core then rocket_df_arm_notifiers s else s

  -- `rocket_devfreq_fini` for the owner `i`.
  pub fini_owner : ℕ → State → State
  fini_owner i s =
      let s = if s.cdev then record (emit cooling_unregister s) { cdev = false } else s in
      let s = record s { req_rate = rocket_safe_rate } in
      let s =
        if s.refs_held
        then rocket_devfreq_release_all
            (write_rate e i rocket_safe_rate (record s { refs_held = false })).1
        else if e.suspended s.log i
        then s
        else (write_rate e i rocket_safe_rate s).1 in
      rocket_df_disarm_notifiers (record s { core = none })

  pub rocket_devfreq_fini : Option ℕ → State → State
  rocket_devfreq_fini none s = s
  rocket_devfreq_fini (some i) s =
      if rocket_devfreq_owns s (some i) && same_core (some i) s.core then fini_owner i s else s

  pub rocket_devfreq_shutdown : Option ℕ → State → State
  rocket_devfreq_shutdown none s = s
  rocket_devfreq_shutdown (some i) s =
      if rocket_devfreq_owns s (some i) && same_core (some i) s.core
      then (if e.suspended s.log i then s else (write_rate e i rocket_safe_rate s).1)
      else s
