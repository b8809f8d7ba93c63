-- ===== src/Submit/Crashes.antt =====
-- How the submit ioctl ends: what is owned when it returns, and the errors that it does not survive.
use rk3588_npu_gpu.Base.{
  ℕ, ◌+◌, ◌≡◌, refl, inl, inr, Bool, true, false, ◌&&◌, List, ◌∷◌, ℤ, pos, ◌==◌, is_zero,
  if◌then◌else◌, arith,
}
use rk3588_npu_gpu.Job.{Task}
use rk3588_npu_gpu.Submit.Ledger.{
  Ledger, gave, gave_many, held_objects, held_arrays, owned, ledger, settles,
}
use rk3588_npu_gpu.Submit.Tasks.{Justified, copy_loop-Justified}
use rk3588_npu_gpu.Submit.{
  Env, Request, valid, Job, Copied, copied, failed, Result, crashes, null_domain, take_tasks,
  take_domain, put_domain, take_in_bos, take_out_bos, take_fence, sched_push, sched_cleanup,
  sched_arm, take_bos, free_bos, lock_reservations, unlock_reservations, attach_fence,
  attach_fences, emit, fresh, copy_loop, after_copy, rocket_copy_tasks, push_locked, free_all,
  rocket_job_cleanup, rocket_job_put, finish, push, look_up, rocket_ioctl_submit_job,
}

abbrev pub crashes_on_domain : Result → Bool
crashes_on_domain (crashes null_domain l) = true
crashes_on_domain _ = false

module _ (e : Env) (r : Request) where
  after_copy-domain : (c : Copied) (j : Job) → (after_copy c j).1.domain ≡ j.domain
  after_copy-domain (copied ts) j = refl
  after_copy-domain (failed ret) j = refl

  after_copy-refcount : (c : Copied) (j : Job) → (after_copy c j).1.refcount ≡ j.refcount
  after_copy-refcount (copied ts) j = refl
  after_copy-refcount (failed ret) j = refl

  copy_tasks-domain :
      ((rocket_copy_tasks e r fresh).1.domain ≡ false)
      × ((rocket_copy_tasks e r fresh).1.refcount ≡ 1)
  unfolding rocket_copy_tasks
  copy_tasks-domain =
      let c = copy_loop e r r.task_count 0 in
      ground (
        arith,
        after_copy-domain c (emit take_tasks fresh),
        after_copy-refcount c (emit take_tasks fresh),
      )

  finish-crashes :
      (ret : ℤ) (j : Job)
      → j.domain ≡ false
      → j.refcount ≡ 1
      → crashes_on_domain (finish ret j) ≡ true
  unfolding finish rocket_job_put rocket_job_cleanup
  finish-crashes ret j d c = ground arith

-- The job once the input buffers have been found.
abbrev found_in : Env → Request → Job → Job
found_in e r j =
    let j = record j { in_bos = e.lookup_in.1 } in
    let j = if e.lookup_in.1 then emit (take_in_bos r.in_bo_handle_count) j else j in
    record j { in_bo_count = r.in_bo_handle_count }

module _ (e : Env) (r : Request) where
  -- A request with a task count above 0, whose job was allocated, crashes on the domain that it has
  -- not taken yet, if the scheduler does not take the job, or the tasks cannot be copied, or the
  -- input or output buffers are not found.
  pub early_error_crashes :
      (r.task_count == 0) ≡ false
      → e.job_alloc ≡ true
      → (is_zero e.sched_init
          && is_zero (rocket_copy_tasks e r fresh).0
          && is_zero e.lookup_in.0
          && is_zero e.lookup_out.0)
        ≡ false
      → crashes_on_domain (rocket_ioctl_submit_job e r) ≡ true
  unfolding rocket_ioctl_submit_job look_up rocket_job_put rocket_job_cleanup
  early_error_crashes n a err =
      let (ret, j) = rocket_copy_tasks e r fresh in
      ground (
        arith,
        copy_tasks-domain e r,
        finish-crashes e r ret j,
        finish-crashes e r e.lookup_in.0 (record j { in_bos = e.lookup_in.1 }),
        finish-crashes e r e.lookup_out.0 (record (found_in e r j) { out_bos = e.lookup_out.1 }),
      )

-- What the job owns once its tasks have been copied.
record Ready (j : Job) : Type 0 where
  refs : j.refcount ≡ 1
  domain : j.domain ≡ false
  fence : j.inference_done_fence ≡ false
  done : j.done_fence ≡ false
  books : ledger j.log ≡ record {
    jobs = (1, 0);
    tasks = (1, 0);
    domains = (0, 0);
    fences = (0, 0);
    done = (0, 0);
    objects = (0, 0);
    arrays = (0, 0);
    reservations = (0, 0);
    pushed = false;
  }
  array : (ts : List Task) × (j.tasks ≡ valid ts)

after_copy-Ready :
    (e : Env) (r : Request) (n i : ℕ) (c : Copied)
    → Justified e r n i c
    → is_zero (after_copy c (emit take_tasks fresh)).0 ≡ true
    → Ready (after_copy c (emit take_tasks fresh)).1
after_copy-Ready e r n i (copied ts) k h = record {
  refs = refl;
  domain = refl;
  fence = refl;
  done = refl;
  books = refl;
  array = (ts, refl);
}
after_copy-Ready e r n i (failed ret) (inl k) h = ground arith
after_copy-Ready e r n i (failed ret) (inr k) h = ground arith

copy_tasks-Ready :
    (e : Env) (r : Request)
    → (r.task_count == 0) ≡ false
    → is_zero (rocket_copy_tasks e r fresh).0 ≡ true
    → Ready (rocket_copy_tasks e r fresh).1
unfolding rocket_copy_tasks
copy_tasks-Ready e r n h =
    let c = copy_loop e r r.task_count 0 in
    ground (arith, after_copy-Ready e r r.task_count 0 c (copy_loop-Justified e r r.task_count 0))

-- Tearing down gives back the fences and the buffers that there are, and no other thing of the
-- ledger.
abbrev pub torn_down : Job → Ledger
torn_down j =
    let b = ledger j.log in
    record b {
      fences = if j.inference_done_fence then gave b.fences else b.fences;
      done = if j.done_fence then gave b.done else b.done;
      objects = gave_many (held_objects j) b.objects;
      arrays = gave_many (held_arrays j) b.arrays;
    }

pub free_all-ledger :
    (j : Job) → let j' = free_all j in (j'.tasks ≡ j.tasks) × (ledger j'.log ≡ torn_down j)
unfolding free_all
free_all-ledger j = ground arith

-- A job whose domain has been taken, before it is pushed.
record Complete (j : Job) : Type 0 where
  refs : j.refcount ≡ 1
  domain : j.domain ≡ true
  done : j.done_fence ≡ false
  jobs : (ledger j.log).jobs ≡ (1, 0)
  tasks : (ledger j.log).tasks ≡ (1, 0)
  domains : (ledger j.log).domains ≡ (1, 0)
  fences : (ledger j.log).fences ≡ (if j.inference_done_fence then 1 else 0, 0)
  dones : (ledger j.log).done ≡ (0, 0)
  objects : (ledger j.log).objects.0 ≡ (ledger j.log).objects.1 + held_objects j
  arrays : (ledger j.log).arrays.0 ≡ (ledger j.log).arrays.1 + held_arrays j
  reservations : (ledger j.log).reservations.0 ≡ (ledger j.log).reservations.1
  pushed : (ledger j.log).pushed ≡ false
  array : (ts : List Task) × (j.tasks ≡ valid ts)

cleanup-settles : (ret : ℤ) (j : Job) → Complete j → settles (rocket_job_cleanup ret j) ≡ true
unfolding rocket_job_cleanup
cleanup-settles ret j c =
    let f = free_all-ledger (emit put_domain j) in rw (c.domain, c.array.1) (ground (arith, f.1, c))

finish-settles : (ret : ℤ) (j : Job) → Complete j → settles (finish ret j) ≡ true
unfolding finish rocket_job_put
finish-settles ret j c =
    ground (arith, cleanup-settles ret j, cleanup-settles ret (emit sched_cleanup j))

finish-pushed :
    (j : Job)
    → j.refcount ≡ 2
    → owned (record j { refcount = 1 }) ≡ true
    → settles (finish (pos 0) j) ≡ true
unfolding finish rocket_job_put
finish-pushed j r o = rw r (ground arith)

module _ (e : Env) (j : Job) where
  push-settles :
      e.bos_alloc ≡ true → Complete j → j.inference_done_fence ≡ false → settles (push e j) ≡ true
  unfolding push push_locked attach_fences
  push-settles b c f =
      let l = emit lock_reservations (emit take_bos j) in
      let j' = record (emit take_fence (emit sched_arm l)) { inference_done_fence = true } in
      let pushed = record j' { refcount = 2; log = sched_push ∷ j'.log } in
      ground (
        arith,
        finish-settles e.lock (emit free_bos (emit take_bos j)),
        finish-settles (push_locked e l).0 (emit free_bos (emit unlock_reservations j')),
        finish-pushed
            (emit free_bos (emit unlock_reservations (emit (attach_fence j.out_bo_count) pushed))),
      )

abbrev found_out : Env → Request → Job → Job
found_out e r j =
    let j = record j { out_bos = e.lookup_out.1 } in
    if e.lookup_out.1 then emit (take_out_bos r.out_bo_handle_count) j else j

-- The job once its domain has been taken.
abbrev with_domain : Env → Request → Job → Job
with_domain e r j = record (emit take_domain (found_out e r (found_in e r j))) {
  out_bo_count = r.out_bo_handle_count;
  domain = true;
}

module _ (e : Env) (r : Request) (j : Job) where
  with_domain-Complete :
      Ready j → Complete (with_domain e r j) × ((with_domain e r j).inference_done_fence ≡ false)
  with_domain-Complete k =
      let (ts, at) = k.array in
      (
        record {
          refs = ground (arith, k.refs);
          domain = refl;
          done = ground (arith, k.done);
          jobs = ground (arith, k.books);
          tasks = ground (arith, k.books);
          domains = ground (arith, k.books);
          fences = ground (arith, k.books, k.fence);
          dones = ground (arith, k.books);
          objects = ground (arith, k.books);
          arrays = ground (arith, k.books);
          reservations = ground (arith, k.books);
          pushed = ground (arith, k.books);
          array = (ts, ground (arith, at));
        },
        ground (arith, k.fence),
      )

  look_up-settles :
      Ready j
      → is_zero e.lookup_in.0 ≡ true
      → is_zero e.lookup_out.0 ≡ true
      → e.bos_alloc ≡ true
      → settles (look_up e r j) ≡ true
  unfolding look_up
  look_up-settles k i o b =
      let (c, f) = with_domain-Complete k in
      ground (arith, push-settles e (with_domain e r j) b c f)

-- A request that the scheduler takes, whose tasks are copied and whose buffers are found, does not
-- crash if the array for the reservations is allocated. On every path that is left it returns, with
-- the reservations unlocked and their array freed: either it returns 0 and the job was pushed, the
-- scheduler has the only reference to it, and it still owns itself, its tasks, its domain, its fence
-- and the buffers that were found; or the job was not pushed, and each of these has been given back
-- exactly as often as it was taken.
pub submit_settles :
    (e : Env) (r : Request)
    → (r.task_count == 0) ≡ false
    → is_zero e.sched_init ≡ true
    → is_zero (rocket_copy_tasks e r fresh).0 ≡ true
    → is_zero e.lookup_in.0 ≡ true
    → is_zero e.lookup_out.0 ≡ true
    → e.bos_alloc ≡ true
    → settles (rocket_ioctl_submit_job e r) ≡ true
unfolding rocket_ioctl_submit_job
submit_settles e r n s c i o b =
    ground
      (arith, look_up-settles e r (rocket_copy_tasks e r fresh).1 (copy_tasks-Ready e r n c) i o b)
