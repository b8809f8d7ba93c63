-- ===== src/System/Undo.antt =====
-- What a probe that fails leaves of the device and its slots.
use rk3588_npu_gpu.Base.{
  ℕ, ◌<◌, ◌≡◌, refl, ◌∙◌, true, false, ◌||◌, not, map, ℤ, ◌==◌, is_neg, is_zero, if_intro, if_both,
  length, arith,
}
use rk3588_npu_gpu.Devfreq.Kernel.{Env}
use rk3588_npu_gpu.Devfreq.{dev_of}
use rk3588_npu_gpu.Devfreq.Bound.{bind_from, unbind_from, first_free}
use rk3588_npu_gpu.System.{
  Driver, Answers, empty_slot, open_device, release_slot, claim_slot, wake_core, start_core,
  rocket_probe,
}
use rk3588_npu_gpu.System.Counts.{
  bound_count, dev_of-rebind, dev_of-map_empty, length-map_empty, count-map_empty, first_free-none,
}
use rk3588_npu_gpu.System.Whole.{Whole, wake_core-Started}

-- The same device, with the same cores bound.
pub record Undone (s s' : Driver) : Type 0 where
  pub device : s'.device ≡ s.device
  pub num_cores : s'.num_cores ≡ s.num_cores
  pub slots : (k : ℕ) → dev_of s'.df.slots k ≡ dev_of s.df.slots k

-- A device that was there before, or a new one with no core bound.
record Found (s t : Driver) : Type 0 where
  num_cores : t.num_cores ≡ s.num_cores
  device : t.device ≡ true
  same : (s.device || (first_free t.df.slots == 0)) ≡ true
  room : 0 < length t.df.slots
  slots : (k : ℕ) → dev_of t.df.slots k ≡ dev_of s.df.slots k

module _ (a : Answers) (s : Driver) where
  open_device-Found :
      Whole s
      → let (ret, t) = open_device a s in
        (is_neg ret ≡ false → Found s t) × (is_neg ret ≡ true → t ≡ s)
  unfolding open_device
  open_device-Found h =
      let P : ℤ × Driver → Type 0 =
        λ r. (is_neg r.0 ≡ false → Found s r.1) × (is_neg r.0 ≡ true → r.1 ≡ s) in
      if_intro P s.device
        (λ d. (
          λ n. record {
            num_cores = refl;
            device = d;
            same = ground arith;
            room = h.room;
            slots = λ k. refl;
          },
          λ n. refl,
        ))
        (λ d.
          if_both P (not a.group) (λ n. cc, λ n. refl)
            (if_intro P (is_neg a.device_ret) (λ g. (λ n. cc, λ n. refl))
              (λ g.
                let z : bound_count s.df.slots ≡ 0 = ground (arith, h.live, h.counted) in
                (
                  λ n. record {
                    num_cores = ground (arith, h.live);
                    device = refl;
                    same = ground (
                      arith,
                      first_free-none (map empty_slot s.df.slots) (count-map_empty s.df.slots),
                    );
                    room = omega (arith, h.room, length-map_empty s.df.slots);
                    slots = λ k. dev_of-map_empty k s.df.slots z;
                  },
                  λ n. cc,
                ))))

-- A core that is bound in the free slot and released again.
module _ (e : Env) (a : Answers) (s t : Driver) (h : Whole s) (f : Found s t) where
  start_core-Undone :
      let i = first_free t.df.slots in
      let (ret, s') = start_core e i a (claim_slot i t) in is_zero ret ≡ false → Undone s s'
  unfolding start_core claim_slot release_slot
  start_core-Undone z =
      let i = first_free t.df.slots in
      let c = claim_slot i t in
      let d = (wake_core e i a.ready_ret c.df).1 in
      let st = wake_core-Started e i a.ready_ret c.df in
      let gone : (start_core e i a c).1.df.slots ≡ unbind_from i 0 (bind_from i 0 t.df.slots) =
        ground (arith, z, st) in
      record {
        device = ground (arith, z, h.live, f.num_cores, f.device);
        num_cores = ground (arith, z, f.num_cores);
        slots = λ k. rw gone (dev_of-rebind i 0 k t.df.slots (omega arith) ∙ f.slots k);
      }

module _ (e : Env) (a : Answers) (s : Driver) where
  -- If the driver is whole, a probe that returns anything but 0 leaves the device, the number of
  -- cores and the bound slots as they were.
  pub rocket_probe_fails :
      Whole s → let (ret, s') = rocket_probe e a s in is_zero ret ≡ false → Undone s s'
  unfolding rocket_probe
  rocket_probe_fails h =
      let P : ℤ × Driver → Type 0 = λ x. is_zero x.0 ≡ false → Undone s x.1 in
      let (ret, t) = open_device a s in
      let o = open_device-Found a s h in
      let i = first_free t.df.slots in
      if_intro P (is_neg ret)
        (λ n z. rw (o.1 n) (record { device = refl; num_cores = refl; slots = λ k. refl }))
        (λ n.
          let f = o.0 n in
          if_intro P (i == length t.df.slots)
            (λ p z. record {
              device = ground (arith, f, p);
              num_cores = f.num_cores;
              slots = f.slots;
            })
            (λ p z. start_core-Undone e a s t h f z))
