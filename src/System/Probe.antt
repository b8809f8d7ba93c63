-- ===== src/System/Probe.antt =====
-- The probe of a core keeps what holds between the steps, also where it fails.
use rk3588_npu_gpu.Base.{
  ℕ, ◌<◌, ◌≡◌, refl, sym, ◌∙◌, ap, true, false, not, some, ℤ, ◌==◌, is_neg, is_zero, if◌then◌else◌,
  if_intro, if_both, length, arith,
}
use rk3588_npu_gpu.Devfreq.Kernel.{Env}
use rk3588_npu_gpu.Devfreq.{State}
use rk3588_npu_gpu.Devfreq.Bound.{Sound, unbind_from, first_free, armed_bound-rebind}
use rk3588_npu_gpu.Devfreq.Lifecycle.{rocket_devfreq_core_added}
use rk3588_npu_gpu.Devfreq.Lifecycle.Calls.{rocket_devfreq_core_added-Sound}
use rk3588_npu_gpu.Devfreq.Lifecycle.Slots.{core_added-slots}
use rk3588_npu_gpu.Devfreq.Init.{rocket_devfreq_init}
use rk3588_npu_gpu.Devfreq.Init.Sound.{rocket_devfreq_init-Sound}
use rk3588_npu_gpu.Devfreq.Init.Slots.{rocket_devfreq_init-slots}
use rk3588_npu_gpu.System.{
  Driver, Answers, with_df, open_device, release_slot, claim_slot, wake_core, start_core,
  rocket_probe,
}
use rk3588_npu_gpu.System.Counts.{
  bound_count, count-map_empty, length-map_empty, dev_of-bind_from, first_free-le, first_free-none,
}
use rk3588_npu_gpu.System.Whole.{
  Resumes, Whole, Ready, no_boost-free, set_slots-Sound, empty-Sound, wake_core-Started,
  wake_core-Sound, claim_slot-Ready, release_slot-Whole,
}

-- The device that a probe opens, or finds.
module _ (a : Answers) (s : Driver) where
  open_device-fails : Whole s → is_neg (open_device a s).0 ≡ true → (open_device a s).1 ≡ s
  unfolding open_device
  open_device-fails h = ground arith

  open_device-Ready : Whole s → is_neg (open_device a s).0 ≡ false → Ready (open_device a s).1
  unfolding open_device
  open_device-Ready h n =
      let P : ℤ × Driver → Type 0 = λ r. is_neg r.0 ≡ false → Ready r.1 in
      if_intro P s.device
        (λ d n. record { sound = h.sound; counted = h.counted; present = d; room = h.room })
        (λ d.
          if_both P (not a.group) (λ n. cc)
            (if_intro P (is_neg a.device_ret) (λ g n. cc)
              (λ g n.
                let z : bound_count s.df.slots ≡ 0 = ground (arith, h.live, h.counted) in
                record {
                  sound = empty-Sound s.df h.sound z h.room;
                  counted = sym (count-map_empty s.df.slots);
                  present = refl;
                  room = omega (arith, h.room, length-map_empty s.df.slots);
                })))
        n

-- The set-up in the slot that was free.
module _ (e : Env) (r : Resumes e) (a : Answers) (i : ℕ) (s : Driver) (h : Ready s) where
  start_core-ok :
      first_free s.df.slots ≡ i
      → i < length s.df.slots
      → let d = (wake_core e i a.ready_ret (claim_slot i s).df).1 in
        Whole (
          with_df
            (if i == 0
              then rocket_devfreq_init e i a.now d
              else rocket_devfreq_core_added e (some i) d)
            (claim_slot i s))
  unfolding claim_slot
  start_core-ok f p =
      let c = claim_slot i s in
      let k = claim_slot-Ready i s h f p in
      let d = (wake_core e i a.ready_ret c.df).1 in
      let t = wake_core-Started e i a.ready_ret c.df in
      let sound = wake_core-Sound e i a.ready_ret c.df r k.sound in
      let d' =
        if i == 0
        then rocket_devfreq_init e i a.now d
        else rocket_devfreq_core_added e (some i) d in
      let same : d'.slots ≡ c.df.slots =
        if_both {A = State} (λ x. x.slots ≡ c.df.slots) (i == 0)
          (rocket_devfreq_init-slots e i a.now d ∙ t.slots)
          (core_added-slots e d (some i) ∙ t.slots) in
      record {
        sound =
            if_both Sound (i == 0) (rocket_devfreq_init-Sound e i a.now d sound)
              (rocket_devfreq_core_added-Sound e d (some i) sound);
        counted = k.counted ∙ ap bound_count (sym same);
        live = ground (arith, h.present);
        room = omega (arith, k.room, ap length same);
      }

  start_core-fails :
      first_free s.df.slots ≡ i
      → i < length s.df.slots
      → Whole (
          release_slot i
            (with_df (wake_core e i a.ready_ret (claim_slot i s).df).1 (claim_slot i s)))
  unfolding claim_slot
  start_core-fails f p =
      let c = claim_slot i s in
      let k = claim_slot-Ready i s h f p in
      let d = (wake_core e i a.ready_ret c.df).1 in
      let t = wake_core-Started e i a.ready_ret c.df in
      let q : first_free s.df.slots < length s.df.slots = omega arith in
      release_slot-Whole i (with_df d c)
        (set_slots-Sound d (unbind_from i 0 d.slots)
          (wake_core-Sound e i a.ready_ret c.df r k.sound)
          (t.refs_held ∙ no_boost-free s.df h.sound q)
          (rw (t.slots, t.notifiers, t.unsafe)
            (ground (arith, h.sound.kept, armed_bound-rebind i 0 s.df.notifiers s.df.slots))))
        (rw t.slots (dev_of-bind_from i i 0 s.df.slots (omega arith) p))
        (k.counted ∙ ap bound_count (sym t.slots)) k.present
        (omega (arith, k.room, ap length t.slots))

  start_core-Whole :
      first_free s.df.slots ≡ i
      → i < length s.df.slots
      → Whole (start_core e i a (claim_slot i s)).1
  unfolding start_core
  start_core-Whole f p =
      let P : ℤ × Driver → Type 0 = λ x. Whole x.1 in
      if_both P (is_zero (wake_core e i a.ready_ret (claim_slot i s).df).0) (start_core-ok f p)
        (start_core-fails f p)

-- With every slot taken the driver stays as it is.
full-Whole : (s : Driver) → Ready s → (first_free s.df.slots == length s.df.slots) ≡ true → Whole s
full-Whole s h f = record {
  sound = h.sound;
  counted = h.counted;
  live = ground (arith, h.present, h.counted, h.room, first_free-none s.df.slots);
  room = h.room;
}

module _ (e : Env) (a : Answers) (s : Driver) where
  pub rocket_probe-Whole : Resumes e → Whole s → Whole (rocket_probe e a s).1
  unfolding rocket_probe
  rocket_probe-Whole r h =
      let P : ℤ × Driver → Type 0 = λ x. Whole x.1 in
      let (ret, t) = open_device a s in
      let i = first_free t.df.slots in
      if_intro P (is_neg ret) (λ n. rw (open_device-fails a s h n) h)
        (λ n.
          let k = open_device-Ready a s h n in
          if_intro P (i == length t.df.slots) (λ f. full-Whole t k f)
            (λ f. start_core-Whole e r a i t k refl (ground (arith, first_free-le t.df.slots))))
