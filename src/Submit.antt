-- ===== src/Submit.antt =====
-- The submit ioctl of npu/driver/rocket_job.c: the job that a request builds, what it owns, and how
-- it is torn down. The kernel's answers and user memory are an `Env`; an access through a pointer
-- that is null or freed is a `Crash`. The calls that take or give back something are the log,
-- newest first.
pub mod Tasks
pub mod Ledger
pub mod Crashes
pub mod Freed
pub mod Batch
pub mod Examples
use rk3588_npu_gpu.Base.{
  ℕ, zero, suc, ◌+◌, ◌-◌, ◌*◌, ◌%◌, ◌^◌, Bool, true, false, ◌&&◌, ◌||◌, not, Option, none, some,
  List, [], ◌∷◌, ◌++◌, ℤ, pos, ltb, ◌==◌, is_zero, if◌then◌else◌, einval, enomem, efault,
}
use rk3588_npu_gpu.Job.{Task}

-- The requests, as the ioctl's argument has them: struct drm_rocket_job and drm_rocket_submit.
pub record Request : Type 0 where
  pub tasks : ℕ
  pub task_count : ℕ
  pub task_struct_size : ℕ
  pub in_bo_handle_count : ℕ
  pub out_bo_handle_count : ℕ

-- What the kernel answers while one request is handled. `lookup` is the return code of
-- `drm_gem_objects_lookup` and whether it has stored an array; `reserve` and `depend` answer for one
-- buffer object.
pub record Env : Type 0 where
  pub sizeof_task : ℕ
  pub user : ℕ → Option Task
  pub job_alloc : Bool
  pub sched_init : ℤ
  pub tasks_alloc : Bool
  pub lookup_in : ℤ × Bool
  pub lookup_out : ℤ × Bool
  pub bos_alloc : Bool
  pub lock : ℤ
  pub reserve_in : ℕ → ℤ
  pub depend_in : ℕ → ℤ
  pub reserve_out : ℕ → ℤ
  pub depend_out : ℕ → ℤ

pub data Event : Type 0 where
  take_job : Event
  free_job : Event
  take_tasks : Event
  free_tasks : Event
  take_domain : Event
  put_domain : Event
  take_fence : Event
  put_fence : Event
  take_done_fence : Event
  put_done_fence : Event
  take_in_bos : (objects : ℕ) → Event
  take_out_bos : (objects : ℕ) → Event
  free_in_bos : (objects : ℕ) → Event
  free_out_bos : (objects : ℕ) → Event
  take_bos : Event
  free_bos : Event
  lock_reservations : Event
  unlock_reservations : Event
  attach_fence : (objects : ℕ) → Event
  sched_arm : Event
  sched_push : Event
  sched_cleanup : Event

abbrev pub Log : Type 0
Log = List Event

-- A pointer to an array: null, valid, or to memory that has been freed.
pub data Pointer : Type 0 where
  null : Pointer
  valid : List Task → Pointer
  dangling : Pointer

-- `struct rocket_job`, with the log of the request.
pub record Job : Type 0 where
  pub refcount : ℕ
  pub tasks : Pointer
  pub in_bos : Bool
  pub in_bo_count : ℕ
  pub out_bos : Bool
  pub out_bo_count : ℕ
  pub domain : Bool
  pub inference_done_fence : Bool
  pub done_fence : Bool
  pub log : Log

abbrev pub emit : Event → Job → Job
emit v j = record j { log = v ∷ j.log }

-- `kzalloc` and `kref_init`.
abbrev pub fresh : Job
fresh = record {
  refcount = 1;
  tasks = null;
  in_bos = false;
  in_bo_count = 0;
  out_bos = false;
  out_bo_count = 0;
  domain = false;
  inference_done_fence = false;
  done_fence = false;
  log = take_job ∷ [];
}

pub data Crash : Type 0 where
  null_domain : Crash
  double_free : Crash
  null_bos : Crash

-- How a call ends: it returns and the job is gone, or was never made; it returns and the job lives
-- on; or it crashes.
pub data Result : Type 0 where
  returns : ℤ → Log → Result
  keeps : ℤ → Job → Result
  crashes : Crash → Log → Result

-- The address of task `i`: the product is taken on u32, the sum on u64.
abbrev pub task_address : Request → ℕ → ℕ
task_address r i = (r.tasks + i * r.task_struct_size % 2 ^ 32) % 2 ^ 64

-- The loop of `rocket_copy_tasks` for `n` tasks from index `i` on: the tasks, or the error.
pub data Copied : Type 0 where
  copied : List Task → Copied
  failed : ℤ → Copied

abbrev pub cons_task : Task → Copied → Copied
cons_task t (copied ts) = copied (t ∷ ts)
cons_task t (failed ret) = failed ret

-- The body of the loop, on what user memory holds, and the rest of the loop.
abbrev pub copy_task : Option Task → Copied → Copied
copy_task none rest = failed efault
copy_task (some t) rest = if t.regcmd_count == 0 then failed einval else cons_task t rest

pub copy_loop : Env → Request → ℕ → ℕ → Copied
copy_loop e r zero i = copied []
copy_loop e r (suc n) i = copy_task (e.user (task_address r i)) (copy_loop e r n (suc i))

-- At `fail` the array is freed, and the pointer to it stays in the job.
abbrev pub after_copy : Copied → Job → ℤ × Job
after_copy (copied ts) j = (pos 0, record j { tasks = valid ts })
after_copy (failed ret) j = (ret, record (emit free_tasks j) { tasks = dangling })

pub rocket_copy_tasks : Env → Request → Job → ℤ × Job
rocket_copy_tasks e r j =
    if ltb r.task_struct_size e.sizeof_task
    then (einval, j)
    else if r.task_count == 0
    then (pos 0, j)
    else if not e.tasks_alloc
    then (enomem, j)
    else after_copy (copy_loop e r r.task_count 0) (emit take_tasks j)

-- `rocket_acquire_object_fences` for `n` objects from index `i` on.
pub acquire_fences : (ℕ → ℤ) → (ℕ → ℤ) → ℕ → ℕ → ℤ
acquire_fences reserve depend zero i = pos 0
acquire_fences reserve depend (suc n) i =
    let rest = acquire_fences reserve depend n (suc i) in
    if not (is_zero (reserve i))
    then reserve i
    else if not (is_zero (depend i))
    then depend i
    else rest

-- What `rocket_job_push` does under the scheduler's lock.
pub push_locked : Env → Job → ℤ × Job
push_locked e j =
    let j = record (emit take_fence (emit sched_arm j)) { inference_done_fence = true } in
    let ret = acquire_fences e.reserve_in e.depend_in j.in_bo_count 0 in
    if not (is_zero ret)
    then (ret, j)
    else let ret = acquire_fences e.reserve_out e.depend_out j.out_bo_count 0 in
      if not (is_zero ret)
      then (ret, j)
      else (pos 0, emit sched_push (record j { refcount = suc j.refcount }))

-- `rocket_job_cleanup`. A fence that was never made is put as a null pointer, which is allowed.
pub free_all : Job → Job
free_all j =
    let j = if j.done_fence then emit put_done_fence j else j in
    let j = if j.inference_done_fence then emit put_fence j else j in
    let j = if j.in_bos then emit (free_in_bos j.in_bo_count) j else j in
    let j = if j.out_bos then emit (free_out_bos j.out_bo_count) j else j in j

abbrev pub free_tasks_and_job : ℤ → Pointer → Job → Result
free_tasks_and_job ret null j = returns ret (free_job ∷ j.log)
free_tasks_and_job ret (valid ts) j = returns ret (free_job ∷ free_tasks ∷ j.log)
free_tasks_and_job ret dangling j = crashes double_free j.log

pub rocket_job_cleanup : ℤ → Job → Result
rocket_job_cleanup ret j =
    if not j.domain
    then crashes null_domain j.log
    else free_tasks_and_job ret j.tasks (free_all (emit put_domain j))

-- `rocket_job_put`, after which the caller returns `ret`.
pub rocket_job_put : ℤ → Job → Result
rocket_job_put ret j =
    if j.refcount == 1
    then rocket_job_cleanup ret j
    else keeps ret (record j { refcount = j.refcount - 1 })

-- The job's fence in `rocket_job_run`, once it is made.
pub keep_fence : Job → Job
keep_fence j =
    let j = if j.done_fence then emit put_done_fence j else j in
    record (emit take_done_fence j) { done_fence = true }

-- `rocket_job_free`, with which the scheduler ends a job; it returns nothing.
pub rocket_job_free : Job → Result
rocket_job_free j = rocket_job_put (pos 0) (emit sched_cleanup j)

-- `out_cleanup_job`
pub finish : ℤ → Job → Result
finish ret j = rocket_job_put ret (if is_zero ret then j else emit sched_cleanup j)

-- `rocket_attach_object_fences` for the output objects, after a push that succeeded, and the labels
-- `err_unlock` and `err`.
pub attach_fences : ℤ → Job → Job
attach_fences ret j =
    let j = if is_zero ret then emit (attach_fence j.out_bo_count) j else j in
    emit free_bos (emit unlock_reservations j)

-- `rocket_job_push`, and what follows it in the ioctl; a failed allocation leaves a null array,
-- which is written.
pub push : Env → Job → Result
push e j =
    let n = j.in_bo_count + j.out_bo_count in
    if not e.bos_alloc && not (n == 0)
    then crashes null_bos j.log
    else let j = emit take_bos j in
      if not (is_zero e.lock)
      then finish e.lock (emit free_bos j)
      else let (ret, j) = push_locked e (emit lock_reservations j) in
        finish ret (attach_fences ret j)

-- From the first lookup on. A lookup that succeeds and stores an array has taken a reference on each
-- object in it.
pub look_up : Env → Request → Job → Result
look_up e r j =
    let (ret, stored) = e.lookup_in in
    let j = record j { in_bos = stored } in
    if not (is_zero ret)
    then finish ret j
    else let j = if stored then emit (take_in_bos r.in_bo_handle_count) j else j in
      let j = record j { in_bo_count = r.in_bo_handle_count } in
      let (ret, stored) = e.lookup_out in
      let j = record j { out_bos = stored } in
      if not (is_zero ret)
      then finish ret j
      else let j = if stored then emit (take_out_bos r.out_bo_handle_count) j else j in
        push e (record (emit take_domain j) { out_bo_count = r.out_bo_handle_count; domain = true })

pub rocket_ioctl_submit_job : Env → Request → Result
rocket_ioctl_submit_job e r =
    if r.task_count == 0
    then returns einval []
    else if not e.job_alloc
    then returns enomem []
    else if not (is_zero e.sched_init)
    then rocket_job_put e.sched_init fresh
    else let (ret, j) = rocket_copy_tasks e r fresh in
      if not (is_zero ret) then finish ret j else look_up e r j
