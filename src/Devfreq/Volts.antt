-- ===== src/Devfreq/Volts.antt =====
-- The rail of the NPU and the clock in rocket_devfreq.c: which readings a request for a high rate
-- rests on, and the calls that neither read the rail nor ask for a high rate.
use rk3588_npu_gpu.Base.{
  ℕ, zero, suc, ◌≡◌, refl, Bool, true, false, ◌||◌, ◌&&◌, not, Option, none, some, List, [], ◌∷◌,
  ltb, ltb_ℤ, arith,
}
use rk3588_npu_gpu.Devfreq.Kernel.{
  Env, Log, set_rate, get_voltage, recommended_opp, put, put_autosuspend, mark_last_busy,
}
use rk3588_npu_gpu.Devfreq.{
  State, Slot, Action, make_safe, notify_core, notify_block, rocket_df_notify, pre_on,
  notifier_core, resume_and_get, give_back, hold_from, rocket_devfreq_hold_all, release_from,
  rocket_devfreq_release_all, rocket_high_rate, rocket_volt_for_high,
}

-- Whether the rail was read in the rate change that is running, which begins by asking for an
-- operating point, and read high enough when it was last read.
abbrev pub enough : Log → Bool
enough [] = false
enough (get_voltage uv ∷ l) = not (ltb_ℤ uv rocket_volt_for_high)
enough (recommended_opp freq ret found ∷ l) = false
enough (_ ∷ l) = enough l

-- Every request for a high rate followed such a reading.
abbrev pub checked : Log → Bool
checked [] = true
checked (set_rate i r ret ∷ l) = (not (ltb rocket_high_rate r) || enough l) && checked l
checked (_ ∷ l) = checked l

pub record Unread (l l' : Log) : Type 0 where
  pub reading : enough l' ≡ enough l
  pub requests : checked l' ≡ checked l

pub release_from-Unread : (cs : List Slot) (i : ℕ) (l : Log) → Unread l (release_from cs i l)
unfolding release_from
release_from-Unread [] i l = record { reading = refl; requests = refl }
release_from-Unread (c ∷ cs) i l = ground (
  arith,
  release_from-Unread cs (suc i) l,
  release_from-Unread cs (suc i) (put_autosuspend i ∷ mark_last_busy i ∷ l),
)

give_back-Unread : (slots : List Slot) (n : ℕ) (l : Log) → Unread l (give_back slots n l)
unfolding give_back
give_back-Unread slots zero l = record { reading = refl; requests = refl }
give_back-Unread slots (suc n) l =
    ground (arith, give_back-Unread slots n l, give_back-Unread slots n (put n ∷ l))

pub release_all-Unread : (s : State) → Unread s.log (rocket_devfreq_release_all s).log
unfolding rocket_devfreq_release_all
release_all-Unread s = release_from-Unread s.slots 0 s.log

module _ (e : Env) where
  pub make_safe-Unread : (i : ℕ) (s : State) → Unread s.log (make_safe e i s).1.log
  unfolding make_safe
  make_safe-Unread i s = ground arith

  notify_core-Unread : (i : ℕ) (s : State) → Unread s.log (notify_core e i s).1.log
  unfolding notify_core
  notify_core-Unread i s = ground (arith, make_safe-Unread i s)

  notify_block-Unread :
      (b : Option ℕ) (a : Action) (s : State) → Unread s.log (notify_block e b a s).1.log
  unfolding notify_block
  notify_block-Unread none a s = record { reading = refl; requests = refl }
  notify_block-Unread (some i) a s = ground (arith, notify_core-Unread i s)

  pub rocket_df_notify-Unread :
      (n : ℕ) (a : Action) (s : State) → Unread s.log (rocket_df_notify e n a s).1.log
  unfolding rocket_df_notify
  rocket_df_notify-Unread n a s = notify_block-Unread (notifier_core s.notifiers n) a s

  pub resume_and_get-Unread : (i : ℕ) (s : State) → Unread s.log (resume_and_get e i s).1.log
  unfolding resume_and_get
  resume_and_get-Unread i s = ground (arith, rocket_df_notify-Unread i pre_on s)

  hold_from-Unread : (cs : List Slot) (i : ℕ) (s : State) → Unread s.log (hold_from e cs i s).1.log
  unfolding hold_from
  hold_from-Unread [] i s = record { reading = refl; requests = refl }
  hold_from-Unread (c ∷ cs) i s =
      let r = (resume_and_get e i s).1 in
      ground (
        arith,
        resume_and_get-Unread i s,
        hold_from-Unread cs (suc i) s,
        hold_from-Unread cs (suc i) r,
        give_back-Unread s.slots i r.log,
      )

  pub hold_all-Unread : (s : State) → Unread s.log (rocket_devfreq_hold_all e s).1.log
  unfolding rocket_devfreq_hold_all
  hold_all-Unread s = hold_from-Unread s.slots 0 s
