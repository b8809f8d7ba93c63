-- ===== src/Busy/Examples.antt =====
-- The theorems on the busy-time counters at concrete histories.
use rk3588_npu_gpu.Base.{ℕ, ◌-◌, ◌≡◌, refl, some, List, [], ◌∷◌, arith, max, min}
use rk3588_npu_gpu.Busy.{Counters, cleared, cores_read, rocket_devfreq_get_dev_status}
use rk3588_npu_gpu.Busy.Meters.{peak}
use rk3588_npu_gpu.Busy.Report.{
  Call, goes_busy, goes_idle, reads, registers, run, track, window_start, Timed, all_off,
  rocket_devfreq_get_dev_status_exact,
}
use rk3588_npu_gpu.Busy.Races.{late_reader_reports_full}

-- The driver registers at 10, and reads at 30. Core 1 works from 20 to 50, core 0 from 60 on.
abbrev history : List (ℕ × Call)
history =
    (10, registers)
    ∷ (20, goes_busy (some 1))
    ∷ (30, reads (some 3))
    ∷ (50, goes_idle (some 1))
    ∷ (60, goes_busy (some 0))
    ∷ []

history-Timed : Timed 0 history 100
history-Timed = ground arith

rocket_devfreq_get_dev_status_exact_example :
    let window = max 1 (100 - window_start history 0) in
    (rocket_devfreq_get_dev_status (some 3) 200_000_000 100 (run history cleared)).0 ≡ record {
      current_frequency = 200_000_000;
      total_time = window;
      busy_time = min window (peak 100 (cores_read (some 3)) (track history all_off));
    }
rocket_devfreq_get_dev_status_exact_example =
    rocket_devfreq_get_dev_status_exact history (some 3) 200_000_000 100 history-Timed

-- Core 0 became busy at 60.
abbrev late : Counters
late = record { cores = record { start = 60; busy_ns = 0 } ∷ []; last_read = 30 }

late_reader_reports_full_example :
    let status = (rocket_devfreq_get_dev_status (some 3) 200_000_000 59 late).0 in
    status.busy_time ≡ status.total_time
unfolding cores_read
late_reader_reports_full_example =
    late_reader_reports_full 3 200_000_000 59 0 late (record { start = 60; busy_ns = 0 })
      (omega arith) refl refl (omega arith) (omega arith) (omega arith)
