-- ===== src/Governor.antt =====
-- How the jobs reach the governor: rocket_job.c reports to the busy-time counters of rocket_devfreq.c
-- where it sets and clears `in_flight_job`. The log of a core in Job has these reports; here they are
-- applied to the counters of Busy, between whatever the other cores and the governor do.
pub mod Examples
use rk3588_npu_gpu.Base.{
  ℕ, zero, suc, ◌<◌, ◌≡◌, ◌≢◌, refl, ◌∙◌, Bool, true, false, Option, none, some, List, [], ◌∷◌,
  length, arith,
}
use rk3588_npu_gpu.Busy.{
  Counters, cleared, rocket_df_max_nb, rocket_devfreq_record_busy, rocket_devfreq_record_idle,
  rocket_devfreq_get_dev_status,
}
use rk3588_npu_gpu.Busy.Running.{
  Sized, runs, runs-record_busy, runs-record_idle, runs-record_busy_other, runs-record_idle_other,
  runs-get_dev_status,
}
use rk3588_npu_gpu.Job.{Event, record_busy, record_idle, Log, Env, Core, is_busy}
use rk3588_npu_gpu.Job.Busy.{Call, OneAtATime, Consistent, busy_window, run, run-Consistent}

-- A call of the counters that does not come from the core: a report of core `i`, or a read by the
-- governor, at the time `now`.
pub data Outside : Type 0 where
  busy_core : (now i : ℕ) → Outside
  idle_core : (now i : ℕ) → Outside
  read : (now rate : ℕ) (max_cores : Option ℕ) → Outside

abbrev pub outside : Outside → Counters → Counters
outside (busy_core now i) s = rocket_devfreq_record_busy now (some i) s
outside (idle_core now i) s = rocket_devfreq_record_idle now (some i) s
outside (read now rate max_cores) s = (rocket_devfreq_get_dev_status max_cores rate now s).1

abbrev pub outside_all : List Outside → Counters → Counters
outside_all [] s = s
outside_all (x ∷ xs) s = outside_all xs (outside x s)

-- It is for another core than `k`, and the time is not 0.
abbrev pub Away : ℕ → Outside → Type 0
Away k (busy_core now i) = i ≢ k
Away k (idle_core now i) = i ≢ k
Away k (read now rate max_cores) = 0 < now

abbrev pub AllAway : ℕ → List Outside → Type 0
AllAway k [] = Unit {0}
AllAway k (x ∷ xs) = Away k x × AllAway k xs

-- When each report of the core is made, and what else happens after each of its calls; both may
-- depend on all that the core has done.
pub record Schedule : Type 0 where
  pub at : Log → ℕ
  pub between : Log → List Outside

-- One call of core `k`, at the time `now`.
abbrev pub note : ℕ → ℕ → Event → Counters → Counters
note k now record_busy s = rocket_devfreq_record_busy now (some k) s
note k now record_idle s = rocket_devfreq_record_idle now (some k) s
note k now _ s = s

-- The counters after the log of core `k`.
abbrev pub counters : Schedule → ℕ → Log → Counters
counters g k [] = cleared
counters g k (v ∷ l) = outside_all (g.between (v ∷ l)) (note k (g.at l) v (counters g k l))

cleared-runs : (k : ℕ) → runs k cleared ≡ false
cleared-runs zero = refl
cleared-runs (suc zero) = refl
cleared-runs (suc (suc zero)) = refl
cleared-runs (suc (suc (suc zero))) = refl
cleared-runs (suc (suc (suc (suc k)))) = refl

outside-runs :
    (k : ℕ) (x : Outside) (s : Counters)
    → Away k x
    → Sized s
    → (runs k (outside x s) ≡ runs k s) × Sized (outside x s)
outside-runs k (busy_core now i) s a n = runs-record_busy_other now i k s a n
outside-runs k (idle_core now i) s a n = runs-record_idle_other now i k s a n
outside-runs k (read now rate max_cores) s a n = runs-get_dev_status max_cores rate now k s a n

outside_all-runs :
    (k : ℕ) (xs : List Outside) (s : Counters)
    → AllAway k xs
    → Sized s
    → (runs k (outside_all xs s) ≡ runs k s) × Sized (outside_all xs s)
outside_all-runs k [] s a n = (refl, n)
outside_all-runs k (x ∷ xs) s a n =
    let one = outside-runs k x s a.0 n in
    let rest = outside_all-runs k xs (outside x s) a.1 one.1 in (rest.0 ∙ one.0, rest.1)

module _ (g : Schedule) (k : ℕ) (later : (l : Log) → 0 < g.at l)
    (away : (l : Log) → AllAway k (g.between l)) (small : k < rocket_df_max_nb) where
  -- The counter of the core runs while the window is open in its log.
  note-runs :
      (v : Event) (l : Log) (s : Counters)
      → runs k s ≡ busy_window l
      → Sized s
      → let s' = note k (g.at l) v s in (runs k s' ≡ busy_window (v ∷ l)) × Sized s'
  note-runs record_busy l s r n = runs-record_busy (g.at l) k s (later l) small n
  note-runs record_idle l s r n = runs-record_idle (g.at l) k s small n
  note-runs _ l s r n = (r, n)

  counters-runs : (l : Log) → (runs k (counters g k l) ≡ busy_window l) × Sized (counters g k l)
  counters-runs [] = (cleared-runs k, refl)
  counters-runs (v ∷ l) =
      let before = counters-runs l in
      let one = note-runs v l (counters g k l) before.0 before.1 in
      let rest =
        outside_all-runs k (g.between (v ∷ l)) (note k (g.at l) v (counters g k l)) (away (v ∷ l))
          one.1 in
      (rest.0 ∙ one.0, rest.1)

  -- Whatever calls the scheduler and the interrupts make of a core with at most one job at a time,
  -- and whatever the other cores and the governor do in between, at any times but 0: the core's
  -- busy-time counter runs exactly while the core has a job in flight.
  pub counter_runs_in_flight :
      (e : Env) (xs : List Call) (c : Core)
      → OneAtATime e xs c
      → Consistent c
      → let c' = run e xs c in runs k (counters g k c'.log) ≡ is_busy c'.in_flight_job
  counter_runs_in_flight e xs c o w =
      (counters-runs (run e xs c).log).0 ∙ (run-Consistent e xs c o w).window
