-- ===== src/Busy/Report.antt =====
-- What the governor is told: the busy time of the busiest core since the last read.
use rk3588_npu_gpu.Base.{
  Bool-cases, ap, ◌∙◌, inl, inr, ℕ, ◌-◌, ◌^◌, ◌≤◌, ◌<◌, ◌≡◌, refl, Bool, true, false, Option, none,
  some, List, [], ◌∷◌, arith, if◌then◌else◌, modify, leb, max, min, replicate,
}
use rk3588_npu_gpu.Busy.{
  Counter, Counters, cleared, start_first_window, open_window, close_window, at_core, cores_read,
  rocket_df_max_nb, rocket_devfreq_record_busy, rocket_devfreq_record_idle,
  rocket_devfreq_get_dev_status,
}
use rk3588_npu_gpu.Busy.Meters.{
  Meter, Agrees, switch, AgreeAll, AgreeAll-modify, AgreeAll-later, open_window-Agrees,
  close_window-Agrees, peak, reset_first, scan-peak, scan-AgreeAll,
}

-- The report is a ratio in (0, 1], whatever the counters hold and whatever the time: the window is
-- never 0, and the busy time is never above it.
pub rocket_devfreq_get_dev_status_bounds :
    (max_cores : Option ℕ) (req_rate now : ℕ) (s : Counters)
    → let status = (rocket_devfreq_get_dev_status max_cores req_rate now s).0 in
      (0 < status.total_time) × (status.busy_time ≤ status.total_time)
unfolding rocket_devfreq_get_dev_status
rocket_devfreq_get_dev_status_bounds max_cores req_rate now s = ground arith

-- A call of one of the three functions, of which `reads` has the device's number of cores, or a
-- registration by `rocket_devfreq_init`, which may come again after a removal.
pub data Call : Type 0 where
  goes_busy goes_idle reads : Option ℕ → Call
  registers : Call

pub run : List (ℕ × Call) → Counters → Counters
run [] s = s
run ((now, goes_busy core) ∷ h) s = run h (rocket_devfreq_record_busy now core s)
run ((now, goes_idle core) ∷ h) s = run h (rocket_devfreq_record_idle now core s)
run ((now, reads n) ∷ h) s = run h (rocket_devfreq_get_dev_status n 0 now s).1
run ((now, registers) ∷ h) s = run h (start_first_window now s)

-- The same calls on the meters, which only a read resets.
abbrev pub switch_core : Bool → ℕ → Option ℕ → List Meter → List Meter
switch_core b now none ms = ms
switch_core b now (some i) ms = if leb rocket_df_max_nb i then ms else modify (switch b now) i ms

abbrev pub track : List (ℕ × Call) → List Meter → List Meter
track [] ms = ms
track ((now, goes_busy core) ∷ h) ms = track h (switch_core true now core ms)
track ((now, goes_idle core) ∷ h) ms = track h (switch_core false now core ms)
track ((now, reads n) ∷ h) ms = track h (reset_first now (cores_read n) ms)
track ((now, registers) ∷ h) ms = track h ms

-- The start of the window: the last read or registration.
abbrev pub window_start : List (ℕ × Call) → ℕ → ℕ
window_start [] t = t
window_start ((now, goes_busy core) ∷ h) t = window_start h t
window_start ((now, goes_idle core) ∷ h) t = window_start h t
window_start ((now, reads n) ∷ h) t = window_start h now
window_start ((now, registers) ∷ h) t = window_start h now

-- The times do not fall, and end at `now`, a positive `ktime_t`.
abbrev pub Timed : ℕ → List (ℕ × Call) → ℕ → Type 0
Timed t [] now = (t ≤ now) × (0 < now) × (now < 2 ^ 63)
Timed t ((u, c) ∷ h) now = (t ≤ u) × (0 < u) × (u < 2 ^ 63) × Timed u h now

abbrev pub all_off : List Meter
all_off = replicate rocket_df_max_nb (record { on = false; total = 0; at = 0 })

module _ (t now : ℕ) where
  switch_core-AgreeAll :
      (b : Bool) (f : ℕ → Counter → Counter)
      → ((c : Counter) (m : Meter) → Agrees t c m → Agrees now (f now c) (switch b now m))
      → (core : Option ℕ) (s : Counters) (ms : List Meter) → AgreeAll t s.cores ms
      → t ≤ now
      → now < 2 ^ 63
      → AgreeAll now (at_core (f now) core s).cores (switch_core b now core ms)
  unfolding at_core
  switch_core-AgreeAll b f keep none s ms a le lt = AgreeAll-later s.cores ms a le lt
  switch_core-AgreeAll b f keep (some i) s ms a le lt = elim (Bool-cases (leb rocket_df_max_nb i)) [
    | inl out ↦ rw out (AgreeAll-later s.cores ms a le lt)
    | inr within ↦ rw within (AgreeAll-modify (f now) (switch b now) keep le lt i s.cores ms a)
  ]

run-AgreeAll :
    (t now : ℕ) (h : List (ℕ × Call)) (s : Counters) (ms : List Meter)
    → Timed t h now
    → t < 2 ^ 63
    → AgreeAll t s.cores ms
    → AgreeAll now (run h s).cores (track h ms)
unfolding run
run-AgreeAll t now [] s ms w lt a = AgreeAll-later s.cores ms a w.0 w.2
run-AgreeAll t now ((u, goes_busy core) ∷ h) s ms w lt a =
    run-AgreeAll u now h (rocket_devfreq_record_busy u core s) _ w.3 w.2 (
      unfold rocket_devfreq_record_busy in
      switch_core-AgreeAll t u true open_window (λ c m g. open_window-Agrees t u c m g w.0 w.1 w.2)
        core s ms a w.0 w.2)
run-AgreeAll t now ((u, goes_idle core) ∷ h) s ms w lt a =
    run-AgreeAll u now h (rocket_devfreq_record_idle u core s) _ w.3 w.2 (
      unfold rocket_devfreq_record_idle in
      switch_core-AgreeAll t u false close_window (λ c m g. close_window-Agrees t u c m g w.0 w.2)
        core s ms a w.0 w.2)
run-AgreeAll t now ((u, reads n) ∷ h) s ms w lt a =
    run-AgreeAll u now h (rocket_devfreq_get_dev_status n 0 u s).1 _ w.3 w.2 (
      unfold rocket_devfreq_get_dev_status in
      scan-AgreeAll t u (cores_read n) 0 s.cores ms a w.0 w.1 w.2)
run-AgreeAll t now ((u, registers) ∷ h) s ms w lt a =
    run-AgreeAll u now h (start_first_window u s) ms w.3 w.2 (AgreeAll-later s.cores ms a w.0 w.2)

at_core-last_read :
    (f : Counter → Counter) (core : Option ℕ) (s : Counters)
    → (at_core f core s).last_read ≡ s.last_read
unfolding at_core
at_core-last_read f none s = refl
at_core-last_read f (some i) s = ground arith

run-last_read :
    (h : List (ℕ × Call)) (s : Counters) → (run h s).last_read ≡ window_start h s.last_read
unfolding run rocket_devfreq_record_busy rocket_devfreq_record_idle rocket_devfreq_get_dev_status
run-last_read [] s = refl
run-last_read ((u, goes_busy core) ∷ h) s =
    run-last_read h (at_core (open_window u) core s)
    ∙ ap (window_start h) (at_core-last_read (open_window u) core s)
run-last_read ((u, goes_idle core) ∷ h) s =
    run-last_read h (at_core (close_window u) core s)
    ∙ ap (window_start h) (at_core-last_read (close_window u) core s)
run-last_read ((u, reads n) ∷ h) s = run-last_read h (rocket_devfreq_get_dev_status n 0 u s).1
run-last_read ((u, registers) ∷ h) s = run-last_read h (start_first_window u s)

-- The last time of a history is positive and fits in a `ktime_t`.
Timed-now : (t now : ℕ) (h : List (ℕ × Call)) → Timed t h now → (0 < now) × (now < 2 ^ 63)
Timed-now t now [] w = (w.1, w.2)
Timed-now t now ((u, c) ∷ h) w = Timed-now u now h w.3

window_start-le :
    (t now : ℕ) (h : List (ℕ × Call)) (r : ℕ) → r ≤ t → Timed t h now → window_start h r ≤ now
window_start-le t now [] r le w = omega arith
window_start-le t now ((u, goes_busy core) ∷ h) r le w = window_start-le u now h r (omega arith) w.3
window_start-le t now ((u, goes_idle core) ∷ h) r le w = window_start-le u now h r (omega arith) w.3
window_start-le t now ((u, reads n) ∷ h) r le w = window_start-le u now h u (omega arith) w.3
window_start-le t now ((u, registers) ∷ h) r le w = window_start-le u now h u (omega arith) w.3

cleared-AgreeAll : AgreeAll 0 cleared.cores all_off
cleared-AgreeAll = ground arith

-- After any history of calls and registrations whose times do not fall, the report is exact: the
-- window is the time since the last read or registration, or since time 0 if there was none (1 if no
-- time has passed), and the busy time is the largest of the first cores' busy times since they were
-- last read, as their meters have it, cut off at the window.
pub rocket_devfreq_get_dev_status_exact :
    (h : List (ℕ × Call)) (max_cores : Option ℕ) (req_rate now : ℕ)
    → Timed 0 h now
    → let window = max 1 (now - window_start h 0) in
      (rocket_devfreq_get_dev_status max_cores req_rate now (run h cleared)).0 ≡ record {
        current_frequency = req_rate;
        total_time = window;
        busy_time = min window (peak now (cores_read max_cores) (track h all_off));
      }
unfolding rocket_devfreq_get_dev_status
rocket_devfreq_get_dev_status_exact h max_cores req_rate now w = ground (
  arith,
  scan-peak now now (cores_read max_cores) 0 (run h cleared).cores (track h all_off)
      (run-AgreeAll 0 now h cleared all_off w (omega arith) cleared-AgreeAll) (omega arith)
      (Timed-now 0 now h w).1,
  Timed-now 0 now h w,
  run-last_read h cleared,
  window_start-le 0 now h 0 (omega arith) w,
)
