-- ===== src/Governor/Examples.antt =====
-- A core whose job ends by a timeout, while another core reports and the governor reads.
use rk3588_npu_gpu.Base.{
  ℕ, suc, ◌≡◌, ◌≢◌, refl, true, false, none, some, List, [], ◌∷◌, pos, length, arith,
}
use rk3588_npu_gpu.Busy.Running.{runs}
use rk3588_npu_gpu.Job.{Env, Job, Core, Log, is_busy}
use rk3588_npu_gpu.Job.Busy.{Call, run_job_no, interrupt, OneAtATime, Consistent, run}
use rk3588_npu_gpu.Governor.{
  busy_core, idle_core, read, AllAway, Schedule, counters, counter_runs_in_flight,
}

abbrev willing : Env
willing = record { fence_alloc = λ l. true; pm_ret = λ l. pos 0; attach_ret = λ l. pos 0 }

abbrev one_task : Job
one_task = record {
  tasks = record { regcmd = 0x1000; regcmd_count = 108 } ∷ [];
  task_count = 1;
  next_task_idx = 0;
  done_fence = none;
  error = false;
}

abbrev idle : Core
idle = record {
  index = 1;
  reset_pending = false;
  in_flight_job = none;
  emit_seqno = 0;
  jobs = one_task ∷ [];
  log = [];
}

-- The time grows with the log; core 0 reports, and the governor reads, after every call of core 1.
abbrev busy_neighbour : Schedule
busy_neighbour = record {
  at = λ l. suc (length l);
  between = λ l.
      busy_core (suc (length l)) 0
      ∷ read (suc (length l)) 200_000_000 (some 3)
      ∷ idle_core (suc (length l)) 0
      ∷ [];
}

abbrev calls : List Call
calls = run_job_no 0 ∷ interrupt 0x100 ∷ []

calls-OneAtATime : OneAtATime willing calls idle
calls-OneAtATime = (refl, tt)

idle-Consistent : Consistent idle
idle-Consistent = record { window = refl; references = refl }

not_core_one : ◌≢◌ {A = ℕ} 0 1
not_core_one p = absurd (omega arith)

busy_neighbour-AllAway : (l : Log) → AllAway 1 (busy_neighbour.between l)
busy_neighbour-AllAway l = (not_core_one, (omega arith, (not_core_one, tt)))

counter_runs_in_flight_example :
    let c' = run willing calls idle in
    runs 1 (counters busy_neighbour 1 c'.log) ≡ is_busy c'.in_flight_job
counter_runs_in_flight_example =
    counter_runs_in_flight busy_neighbour 1 (λ l. omega arith) busy_neighbour-AllAway (omega arith)
      willing calls idle calls-OneAtATime idle-Consistent
