-- ===== src/Busy/Races.antt =====
-- Two calls of one recorder in a row, and calls whose times were read before the lock was taken,
-- so that they reach the counters in the wrong order.
use rk3588_npu_gpu.Base.{
  ℕ, zero, suc, ◌^◌, ◌≤◌, ◌<◌, ◌≡◌, refl, Option, none, some, List, [], ◌∷◌, arith, get_elem?, ap,
  modify,
}
use rk3588_npu_gpu.Busy.{
  Counter, Counters, open_window, close_window, at_core, core_busy, scan, cores_read,
  rocket_devfreq_record_busy, rocket_devfreq_record_idle, rocket_devfreq_get_dev_status,
}

module _ (f g h : Counter → Counter) (e : (c : Counter) → f (g c) ≡ h c) where
  modify-modify : (i : ℕ) (cs : List Counter) → modify f i (modify g i cs) ≡ modify h i cs
  modify-modify i [] = refl
  modify-modify zero (c ∷ cs) = rw (e c)
  modify-modify (suc i) (c ∷ cs) = ap (◌∷◌ c) (modify-modify i cs)

  at_core-at_core :
      (core : Option ℕ) (s : Counters) → at_core f core (at_core g core s) ≡ at_core h core s
  unfolding at_core
  at_core-at_core none s = refl
  at_core-at_core (some i) s = ground (arith, modify-modify i s.cores)

-- After a report at a time above 0 that a core is busy, a second such report, with no report of idleness between, changes nothing: the
-- time of the first stays.
pub record_busy_twice :
    (t u : ℕ) (core : Option ℕ) (s : Counters)
    → 0 < t
    → rocket_devfreq_record_busy u core (rocket_devfreq_record_busy t core s)
      ≡ rocket_devfreq_record_busy t core s
unfolding rocket_devfreq_record_busy open_window
record_busy_twice t u core s p =
    at_core-at_core (open_window u) (open_window t) (open_window t) (λ c. ground arith) core s

-- A second report that a core is idle, as the reset path may make it, changes nothing.
pub record_idle_twice :
    (t u : ℕ) (core : Option ℕ) (s : Counters)
    → rocket_devfreq_record_idle u core (rocket_devfreq_record_idle t core s)
      ≡ rocket_devfreq_record_idle t core s
unfolding rocket_devfreq_record_idle close_window
record_idle_twice t u core s =
    at_core-at_core (close_window u) (close_window t) (close_window t) (λ c. ground arith) core s

scan-grows : (now n acc : ℕ) (cs : List Counter) → acc ≤ (scan now n acc cs).0
unfolding scan
scan-grows now zero acc cs = omega arith
scan-grows now (suc n) acc [] = omega arith
scan-grows now (suc n) acc (c ∷ cs) =
    ground (arith, scan-grows now n acc cs, scan-grows now n (core_busy now c) cs)

scan-ge :
    (now n acc i : ℕ) (cs : List Counter) (c : Counter)
    → i < n
    → get_elem? cs i ≡ some c
    → core_busy now c ≤ (scan now n acc cs).0
unfolding scan
scan-ge now zero acc i cs c lt h = absurd (omega arith)
scan-ge now (suc n) acc i [] c lt h = cc
scan-ge now (suc n) acc zero (d ∷ cs) c lt h =
    ground (arith, scan-grows now n acc cs, scan-grows now n (core_busy now d) cs)
scan-ge now (suc n) acc (suc i) (d ∷ cs) c lt h =
    ground (arith, scan-ge now n acc i cs c, scan-ge now n (core_busy now d) i cs c)

-- A core among those that are read, with nothing added up, which became busy after the governor's
-- time was read, but before the governor had the lock, makes that report say that the NPU was busy
-- for the whole window since the last read, if the core's time is below 2 ^ 63 and the last read is
-- not after the governor's time: the difference of the times wraps below 0.
pub late_reader_reports_full :
    (max_cores req_rate now i : ℕ) (s : Counters) (c : Counter)
    → i < cores_read (some max_cores)
    → get_elem? s.cores i ≡ some c
    → c.busy_ns ≡ 0
    → now < c.start
    → c.start < 2 ^ 63
    → s.last_read ≤ now
    → let status = (rocket_devfreq_get_dev_status (some max_cores) req_rate now s).0 in
      status.busy_time ≡ status.total_time
unfolding rocket_devfreq_get_dev_status core_busy
late_reader_reports_full max_cores req_rate now i s c lt h z late small past =
    ground (arith, scan-ge now (cores_read (some max_cores)) 0 i s.cores c lt h)
