-- ===== src/Submit/Freed.antt =====
-- A job of npu/driver/rocket_job.c from the submit ioctl to rocket_job_free: what is left of it.
use rk3588_npu_gpu.Base.{ℕ, zero, suc, ◌≡◌, refl, Bool, true, false, pos, ◌==◌, is_zero, arith}
use rk3588_npu_gpu.Submit.{
  Env, Request, Pointer, null, valid, dangling, Job, Result, returns, keeps, crashes, emit, fresh,
  put_domain, sched_cleanup, keep_fence, rocket_copy_tasks, rocket_job_cleanup, rocket_job_put,
  rocket_job_free, rocket_ioctl_submit_job,
}
use rk3588_npu_gpu.Submit.Ledger.{ledger, all_even, owned, settles}
use rk3588_npu_gpu.Submit.Crashes.{free_all-ledger, submit_settles}

-- The job's fences when the scheduler runs it `n` times, as it does after resets.
abbrev pub run_times : ℕ → Job → Job
run_times zero j = j
run_times (suc n) j = run_times n (keep_fence j)

-- What becomes of a request: its job, if the scheduler has it, runs `n` times and is freed.
abbrev pub then_freed : ℕ → Result → Result
then_freed n (keeps ret j) = rocket_job_free (run_times n j)
then_freed n r = r

-- Nothing is left.
abbrev pub given_back : Result → Bool
given_back (returns ret l) = all_even (ledger l)
given_back _ = false

keep_fence-owned : (j : Job) → owned j ≡ true → owned (keep_fence j) ≡ true
unfolding keep_fence
keep_fence-owned j h = ground arith

run_times-owned : (n : ℕ) (j : Job) → owned j ≡ true → owned (run_times n j) ≡ true
run_times-owned zero j h = h
run_times-owned (suc n) j h = run_times-owned n (keep_fence j) (keep_fence-owned j h)

cleanup-given_back :
    (p : Pointer) (j : Job)
    → j.tasks ≡ p
    → owned j ≡ true
    → given_back (rocket_job_cleanup (pos 0) j) ≡ true
unfolding rocket_job_cleanup
cleanup-given_back null j q h = ground arith
cleanup-given_back dangling j q h = ground arith
cleanup-given_back (valid ts) j q h = rw q (ground (arith, free_all-ledger (emit put_domain j)))

free-given_back : (j : Job) → owned j ≡ true → given_back (rocket_job_free j) ≡ true
unfolding rocket_job_free rocket_job_put
free-given_back j h =
    let j' = emit sched_cleanup j in ground (arith, cleanup-given_back j'.tasks j' refl)

then_freed-given_back : (n : ℕ) (r : Result) → settles r ≡ true → given_back (then_freed n r) ≡ true
then_freed-given_back n (returns ret l) h = ground arith
then_freed-given_back n (keeps ret j) h =
    free-given_back (run_times n j) (run_times-owned n j (ground arith))
then_freed-given_back n (crashes c l) h = cc

-- A request that the scheduler takes, whose tasks are copied and whose buffers are found, with the
-- array for the reservations allocated: once the ioctl has returned and the scheduler, if it has the
-- job, has run it any number of times and freed it, the job, its tasks, its domain, its buffers, all
-- its fences, the arrays and the reservations have been given back exactly as often as they were
-- taken, without a crash.
pub submit_then_free :
    (e : Env) (r : Request) (n : ℕ)
    → (r.task_count == 0) ≡ false
    → is_zero e.sched_init ≡ true
    → is_zero (rocket_copy_tasks e r fresh).0 ≡ true
    → is_zero e.lookup_in.0 ≡ true
    → is_zero e.lookup_out.0 ≡ true
    → e.bos_alloc ≡ true
    → given_back (then_freed n (rocket_ioctl_submit_job e r)) ≡ true
submit_then_free e r n c s t i o b =
    then_freed-given_back n (rocket_ioctl_submit_job e r) (submit_settles e r c s t i o b)
