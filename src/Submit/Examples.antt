-- ===== src/Submit/Examples.antt =====
-- The theorems on the submit ioctl at a request with two tasks.
use rk3588_npu_gpu.Base.{
  ◌≡◌, refl, true, false, Option, none, some, [], ◌∷◌, ℕ, ℤ, pos, is_zero, ◌==◌,
}
use rk3588_npu_gpu.Job.{Task}
use rk3588_npu_gpu.Submit.{
  Env, Request, copied, copy_loop, rocket_copy_tasks, rocket_ioctl_submit_job, fresh, look_up, push,
  push_locked, acquire_fences, finish, rocket_job_put, attach_fences,
}
use rk3588_npu_gpu.Submit.Tasks.{Justified, copy_loop_complete, copy_loop-Justified}
use rk3588_npu_gpu.Submit.Batch.{Answers, Batch, one_by_one, rocket_ioctl_submit, submit_runs_all}
use rk3588_npu_gpu.Submit.Freed.{given_back, then_freed, submit_then_free}
use rk3588_npu_gpu.Submit.Ledger.{settles}
use rk3588_npu_gpu.Submit.Crashes.{crashes_on_domain, early_error_crashes, submit_settles}

-- Two tasks at 4096, of 16 bytes each; every other address is a fault.
abbrev memory : ℕ → Option Task
memory a = elim (a == 4096) [
  | true ↦ some (record { regcmd = 0x1000; regcmd_count = 108 })
  | false ↦ elim (a == 4112) [
    | true ↦ some (record { regcmd = 0x2000; regcmd_count = 26 })
    | false ↦ none
  ]
]

abbrev kernel : ℤ → Env
kernel sched_init = record {
  sizeof_task = 16;
  user = memory;
  job_alloc = true;
  sched_init = sched_init;
  tasks_alloc = true;
  lookup_in = (pos 0, true);
  lookup_out = (pos 0, true);
  bos_alloc = true;
  lock = pos 0;
  reserve_in = λ i. pos 0;
  depend_in = λ i. pos 0;
  reserve_out = λ i. pos 0;
  depend_out = λ i. pos 0;
}

abbrev request : Request
request = record {
  tasks = 4096;
  task_count = 2;
  task_struct_size = 16;
  in_bo_handle_count = 2;
  out_bo_handle_count = 1;
}

copy_loop_complete_example :
    copy_loop (kernel (pos 0)) request 2 0
    ≡ copied (
        record { regcmd = 0x1000; regcmd_count = 108 }
        ∷ record { regcmd = 0x2000; regcmd_count = 26 }
        ∷ [])
copy_loop_complete_example =
    copy_loop_complete (kernel (pos 0)) request 0
      (record { regcmd = 0x1000; regcmd_count = 108 }
        ∷ record { regcmd = 0x2000; regcmd_count = 26 }
        ∷ [])
      (refl, refl, (refl, refl, tt))

-- A third task would be read past the end.
copy_loop-Justified_example :
    Justified (kernel (pos 0)) request 3 0 (copy_loop (kernel (pos 0)) request 3 0)
copy_loop-Justified_example = copy_loop-Justified (kernel (pos 0)) request 3 0

tasks_copied : is_zero (rocket_copy_tasks (kernel (pos 0)) request fresh).0 ≡ true
unfolding rocket_copy_tasks copy_loop
tasks_copied = refl

submit_settles_example : settles (rocket_ioctl_submit_job (kernel (pos 0)) request) ≡ true
submit_settles_example =
    submit_settles (kernel (pos 0)) request refl refl tasks_copied refl refl refl

-- The scheduler runs the job again after a reset.
submit_then_free_example :
    given_back (then_freed 2 (rocket_ioctl_submit_job (kernel (pos 0)) request)) ≡ true
submit_then_free_example =
    submit_then_free (kernel (pos 0)) request 2 refl refl tasks_copied refl refl refl

-- The task structure is smaller than the driver's.
abbrev short : Request
short = record request { task_struct_size = 8 }

early_error_crashes_example :
    crashes_on_domain (rocket_ioctl_submit_job (kernel (pos 0)) short) ≡ true
unfolding rocket_copy_tasks
early_error_crashes_example = early_error_crashes (kernel (pos 0)) short refl refl refl

-- Two jobs at 8192, of 48 bytes each; the second has no tasks.
abbrev no_tasks : Request
no_tasks = record request { task_count = 0 }

abbrev job_memory : ℕ → Option Request
job_memory a = elim (a == 8192) [
  | true ↦ some request
  | false ↦ elim (a == 8240) [ true ↦ some no_tasks | false ↦ none ]
]

abbrev batch_kernel : Answers
batch_kernel = record {
  sizeof_job = 48;
  user = job_memory;
  jobs_alloc = true;
  env = λ i. kernel (pos 0);
}

abbrev batch : ℕ → Batch
batch n = record { jobs = 8192; job_count = n; job_struct_size = 48; reserved = 0 }

-- The job without tasks fails with -EINVAL, and the ioctl returns 0.
submit_runs_all_example :
    rocket_ioctl_submit batch_kernel (batch 2)
    ≡ record { ret = some (pos 0); results = one_by_one batch_kernel 0 (request ∷ no_tasks ∷ []) }
unfolding rocket_ioctl_submit_job rocket_copy_tasks copy_loop look_up push push_locked
    acquire_fences finish rocket_job_put attach_fences
submit_runs_all_example =
    submit_runs_all batch_kernel (batch 2) (request ∷ no_tasks ∷ []) refl (refl, (refl, tt)) refl
      refl refl refl
