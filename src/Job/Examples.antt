-- ===== src/Job/Examples.antt =====
-- The theorems on rocket_job.c at a job of two tasks.
use rk3588_npu_gpu.Base.{
  ◌≡◌, refl, ◌++◌, true, false, none, some, List, [], ◌∷◌, pos, length, ◌+◌, ◌^◌,
}
use mathlib.Core.List.{reverse}
use rk3588_npu_gpu.Job.{data_amount, Env, Job, Core, Task, fence, rocket_job_run}
use rk3588_npu_gpu.Job.Busy.{
  Call, run_job_no, interrupt, interrupt_thread, timeout, OneAtATime, Consistent, run,
  run-Consistent,
}
use rk3588_npu_gpu.Job.Bounds.{within, tasks_in_bounds}
use rk3588_npu_gpu.Job.Progress.{Willing, interrupts, started, signals, launches, job_completes}

abbrev willing : Env
willing = record { fence_alloc = λ l. true; pm_ret = λ l. pos 0; attach_ret = λ l. pos 0 }

willing-Willing : Willing willing
willing-Willing = record { makes_fence = λ l. refl; powers = λ l. refl; attaches = λ l. refl }

abbrev conv : Task
conv = record { regcmd = 0x1000; regcmd_count = 108 }

abbrev pool : Task
pool = record { regcmd = 0x2000; regcmd_count = 26 }

abbrev two_tasks : Job
two_tasks = record {
  tasks = conv ∷ pool ∷ [];
  task_count = 2;
  next_task_idx = 0;
  done_fence = none;
  error = false;
}

abbrev idle : Core
idle = record {
  index = 1;
  reset_pending = false;
  in_flight_job = none;
  emit_seqno = 0;
  jobs = two_tasks ∷ [];
  log = [];
}

job_completes_example :
    let r = rocket_job_run willing 0 idle in
    let c' = interrupts (length (conv ∷ pool ∷ [])) r.1 in
    (r.0 ≡ fence 1)
    × (c'.in_flight_job ≡ none)
    × (started c'.log ≡ reverse (launches 1 (conv ∷ pool ∷ [])) ++ started idle.log)
    × (signals c'.log ≡ some 1 ∷ signals idle.log)
job_completes_example =
    job_completes willing willing-Willing 0 two_tasks conv (pool ∷ []) idle refl refl refl refl refl
      refl

-- The job is started, an interrupt comes, and the job then times out.
abbrev calls : List Call
calls = run_job_no 0 ∷ interrupt 0x100 ∷ interrupt_thread ∷ timeout ∷ []

calls-OneAtATime : OneAtATime willing calls idle
calls-OneAtATime = (refl, tt)

idle-Consistent : Consistent idle
idle-Consistent = record { window = refl; references = refl }

run-Consistent_example : Consistent (run willing calls idle)
run-Consistent_example = run-Consistent willing calls idle calls-OneAtATime idle-Consistent

tasks_in_bounds_example : within (run willing calls idle) ≡ true
tasks_in_bounds_example = tasks_in_bounds willing calls idle refl

cut_to_three : data_amount (2 ^ 17 + 3) ≡ data_amount 3
cut_to_three = refl
