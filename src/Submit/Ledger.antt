-- ===== src/Submit/Ledger.antt =====
-- The books of a job of the submit ioctl: what its log says was taken and given back.
use rk3588_npu_gpu.Base.{
  ℕ, suc, ◌+◌, not, Bool, true, false, ◌&&◌, [], ◌∷◌, ◌==◌, is_zero, if◌then◌else◌,
}
use rk3588_npu_gpu.Submit.{
  Event, Log, Pointer, valid, keeps, take_done_fence, put_done_fence, Job, Result, returns, crashes,
  take_job, free_job, take_tasks, free_tasks, take_domain, put_domain, take_fence, put_fence,
  sched_push, take_in_bos, take_out_bos, free_in_bos, free_out_bos, take_bos, free_bos,
  lock_reservations, unlock_reservations,
}

-- How often each thing was taken and given back, and whether the job was pushed.
pub record Ledger : Type 0 where
  pub jobs : ℕ × ℕ
  pub tasks : ℕ × ℕ
  pub domains : ℕ × ℕ
  pub fences : ℕ × ℕ
  pub done : ℕ × ℕ
  pub objects : ℕ × ℕ
  pub arrays : ℕ × ℕ
  pub reservations : ℕ × ℕ
  pub pushed : Bool

abbrev pub took : ℕ × ℕ → ℕ × ℕ
took p = (suc p.0, p.1)

abbrev pub gave : ℕ × ℕ → ℕ × ℕ
gave p = (p.0, suc p.1)

abbrev pub took_many : ℕ → ℕ × ℕ → ℕ × ℕ
took_many n p = (p.0 + n, p.1)

abbrev pub gave_many : ℕ → ℕ × ℕ → ℕ × ℕ
gave_many n p = (p.0, p.1 + n)

abbrev pub count : Event → Ledger → Ledger
count take_job b = record b { jobs = took b.jobs }
count free_job b = record b { jobs = gave b.jobs }
count take_tasks b = record b { tasks = took b.tasks }
count free_tasks b = record b { tasks = gave b.tasks }
count take_domain b = record b { domains = took b.domains }
count put_domain b = record b { domains = gave b.domains }
count take_fence b = record b { fences = took b.fences }
count put_fence b = record b { fences = gave b.fences }
count take_done_fence b = record b { done = took b.done }
count put_done_fence b = record b { done = gave b.done }
count (take_in_bos n) b = record b { objects = took_many n b.objects; arrays = took b.arrays }
count (take_out_bos n) b = record b { objects = took_many n b.objects; arrays = took b.arrays }
count (free_in_bos n) b = record b { objects = gave_many n b.objects; arrays = gave b.arrays }
count (free_out_bos n) b = record b { objects = gave_many n b.objects; arrays = gave b.arrays }
count take_bos b = record b { arrays = took b.arrays }
count free_bos b = record b { arrays = gave b.arrays }
count lock_reservations b = record b { reservations = took b.reservations }
count unlock_reservations b = record b { reservations = gave b.reservations }
count sched_push b = record b { pushed = true }
count _ b = b

abbrev pub ledger : Log → Ledger
ledger [] = record {
  jobs = (0, 0);
  tasks = (0, 0);
  domains = (0, 0);
  fences = (0, 0);
  done = (0, 0);
  objects = (0, 0);
  arrays = (0, 0);
  reservations = (0, 0);
  pushed = false;
}
ledger (v ∷ l) = count v (ledger l)

abbrev pub even : ℕ × ℕ → Bool
even p = p.0 == p.1

abbrev pub kept : ℕ × ℕ → Bool
kept p = p.0 == 1 && p.1 == 0

-- Everything that was taken has been given back.
abbrev pub all_even : Ledger → Bool
all_even b =
    even b.jobs
    && even b.tasks
    && even b.domains
    && even b.fences
    && even b.done
    && even b.objects
    && even b.arrays
    && even b.reservations

abbrev pub is_valid : Pointer → Bool
is_valid (valid ts) = true
is_valid _ = false

-- The buffer objects that the job has references on, and the arrays that they are in.
abbrev pub held_objects : Job → ℕ
held_objects j = (if j.in_bos then j.in_bo_count else 0) + (if j.out_bos then j.out_bo_count else 0)

abbrev pub held_arrays : Job → ℕ
held_arrays j = (if j.in_bos then 1 else 0) + (if j.out_bos then 1 else 0)

-- The scheduler has the only reference to the job, which owns itself, its tasks, its domain and its
-- fence, of which nothing has been given back, the fence of its last run, if it has run, and its
-- buffers; everything else has been given back.
abbrev pub owned : Job → Bool
owned j =
    let b = ledger j.log in
    b.pushed
    && j.refcount == 1
    && j.domain
    && j.inference_done_fence
    && is_valid j.tasks
    && kept b.jobs
    && kept b.tasks
    && kept b.domains
    && kept b.fences
    && b.done.0 == b.done.1 + (if j.done_fence then 1 else 0)
    && b.objects.0 == b.objects.1 + held_objects j
    && b.arrays.0 == b.arrays.1 + held_arrays j
    && even b.reservations

-- A job that is gone was not pushed and has been given back whole; a job that lives on was pushed.
abbrev pub settles : Result → Bool
settles (returns ret l) = not (ledger l).pushed && all_even (ledger l)
settles (keeps ret j) = is_zero ret && owned j
settles (crashes c l) = false
