-- ===== src/Submit/Batch.antt =====
-- `rocket_ioctl_submit` of npu/driver/rocket_job.c: the jobs of one request, one after another.
use rk3588_npu_gpu.Base.{
  ℕ, zero, suc, ◌+◌, ◌*◌, ◌%◌, ◌^◌, ◌≡◌, refl, ap, ◌∙◌, ◌⊎◌, inr, Bool, true, false, not, Option,
  none, some, List, [], ◌∷◌, ℤ, pos, ltb, ◌==◌, is_zero, if◌then◌else◌, length, arith, einval,
  enomem, efault,
}
use rk3588_npu_gpu.Submit.{Env, Request, Result, returns, keeps, crashes, rocket_ioctl_submit_job}

-- The argument of the ioctl: `struct drm_rocket_submit`.
pub record Batch : Type 0 where
  pub jobs : ℕ
  pub job_count : ℕ
  pub job_struct_size : ℕ
  pub reserved : ℕ

-- What the kernel answers: the size of `struct drm_rocket_job`, the job that user memory holds at an
-- address, whether the array of jobs is allocated, and the answers for each job.
pub record Answers : Type 0 where
  pub sizeof_job : ℕ
  pub user : ℕ → Option Request
  pub jobs_alloc : Bool
  pub env : ℕ → Env

-- The product is taken on u32, the sum on u64.
abbrev pub job_address : Batch → ℕ → ℕ
job_address b i = (b.jobs + i * b.job_struct_size % 2 ^ 32) % 2 ^ 64

abbrev pub cons_request : Option Request → Option (List Request) → Option (List Request)
cons_request (some r) (some rs) = some (r ∷ rs)
cons_request _ _ = none

-- The loop of `copy_from_user` for `n` jobs from index `i` on, `none` for a fault.
copy_jobs : Answers → Batch → ℕ → ℕ → Option (List Request)
copy_jobs a b zero i = some []
copy_jobs a b (suc n) i = cons_request (a.user (job_address b i)) (copy_jobs a b n (suc i))

abbrev pub and_then : Result → List Result → List Result
and_then (crashes c l) rest = crashes c l ∷ []
and_then r rest = r ∷ rest

-- The loop over the jobs from index `i` on: what each call of `rocket_ioctl_submit_job` did. What it
-- returns is dropped; a crash ends the loop.
pub submit_jobs : Answers → ℕ → List Request → List Result
submit_jobs a i [] = []
submit_jobs a i (r ∷ rs) = and_then (rocket_ioctl_submit_job (a.env i) r) (submit_jobs a (suc i) rs)

abbrev pub is_crash : Result → Bool
is_crash (returns ret l) = false
is_crash (keeps ret j) = false
is_crash (crashes c l) = true

abbrev pub any_crash : List Result → Bool
any_crash [] = false
any_crash (r ∷ rs) = if is_crash r then true else any_crash rs

-- The return code, `none` after a crash, with what the jobs did.
pub record Ended : Type 0 where
  pub ret : Option ℤ
  pub results : List Result

abbrev pub refused : ℤ → Ended
refused ret = record { ret = some ret; results = [] }

abbrev pub submit_copied : Answers → Option (List Request) → Ended
submit_copied a none = refused efault
submit_copied a (some rs) =
    let results = submit_jobs a 0 rs in
    record { ret = if any_crash results then none else some (pos 0); results = results }

pub rocket_ioctl_submit : Answers → Batch → Ended
rocket_ioctl_submit a b =
    if b.job_count == 0
    then refused (pos 0)
    else if ltb b.job_struct_size a.sizeof_job
    then refused einval
    else if not (b.reserved == 0)
    then refused einval
    else if not a.jobs_alloc
    then refused enomem
    else submit_copied a (copy_jobs a b b.job_count 0)

copied-error :
    (a : Answers) (o : Option (List Request))
    → let s = submit_copied a o in (s.ret ≡ none) ⊎ (s.ret ≡ some (pos 0)) ⊎ (s.results ≡ [])
copied-error a none = inr (inr refl)
copied-error a (some rs) = ground arith

-- An ioctl that returns an error has run no job: all jobs are copied before the first is submitted.
pub submit_error_runs_none :
    (a : Answers) (b : Batch) (ret : ℤ)
    → let s = rocket_ioctl_submit a b in s.ret ≡ some ret → is_zero ret ≡ false → s.results ≡ []
unfolding rocket_ioctl_submit
submit_error_runs_none a b ret h n = ground (arith, copied-error a (copy_jobs a b b.job_count 0))

-- User memory holds the jobs `rs` from index `i` on.
abbrev pub HoldsJobs : Answers → Batch → ℕ → List Request → Type 0
HoldsJobs a b i [] = Unit {0}
HoldsJobs a b i (r ∷ rs) = (a.user (job_address b i) ≡ some r) × HoldsJobs a b (suc i) rs

-- Each job on its own, and that none of them crashes.
abbrev pub one_by_one : Answers → ℕ → List Request → List Result
one_by_one a i [] = []
one_by_one a i (r ∷ rs) = rocket_ioctl_submit_job (a.env i) r ∷ one_by_one a (suc i) rs

copy_jobs_complete :
    (a : Answers) (b : Batch) (i : ℕ) (rs : List Request)
    → HoldsJobs a b i rs
    → copy_jobs a b (length rs) i ≡ some rs
unfolding copy_jobs
copy_jobs_complete a b i [] h = refl
copy_jobs_complete a b i (r ∷ rs) h = rw (h.0, copy_jobs_complete a b (suc i) rs h.1) refl

and_then_returns :
    (r : Result) (rest : List Result)
    → (if is_crash r then true else any_crash rest) ≡ false
    → (and_then r rest ≡ r ∷ rest) × (any_crash rest ≡ false)
and_then_returns (returns ret l) rest h = (refl, h)
and_then_returns (keeps ret j) rest h = (refl, h)
and_then_returns (crashes c l) rest h = cc

submit_jobs_complete :
    (a : Answers) (i : ℕ) (rs : List Request)
    → any_crash (one_by_one a i rs) ≡ false
    → submit_jobs a i rs ≡ one_by_one a i rs
unfolding submit_jobs
submit_jobs_complete a i [] h = refl
submit_jobs_complete a i (r ∷ rs) h =
    let first = rocket_ioctl_submit_job (a.env i) r in
    let k = and_then_returns first (one_by_one a (suc i) rs) h in
    rw (submit_jobs_complete a (suc i) rs k.1) k.0

submit_copied_complete :
    (a : Answers) (rs : List Request)
    → any_crash (one_by_one a 0 rs) ≡ false
    → submit_copied a (some rs) ≡ record { ret = some (pos 0); results = one_by_one a 0 rs }
submit_copied_complete a rs h = rw (submit_jobs_complete a 0 rs h, h) refl

-- If user memory holds the jobs, the argument is well-formed, the array is allocated and no job
-- crashes, then each job is handled once, in order, and the ioctl returns 0 whatever they returned:
-- the error of a job is lost.
pub submit_runs_all :
    (a : Answers) (b : Batch) (rs : List Request)
    → b.job_count ≡ length rs
    → HoldsJobs a b 0 rs
    → ltb b.job_struct_size a.sizeof_job ≡ false
    → b.reserved ≡ 0
    → a.jobs_alloc ≡ true
    → any_crash (one_by_one a 0 rs) ≡ false
    → rocket_ioctl_submit a b ≡ record { ret = some (pos 0); results = one_by_one a 0 rs }
unfolding rocket_ioctl_submit
submit_runs_all a b [] n h z v o c = rw n refl
submit_runs_all a b (r ∷ rs) n h z v o c =
    let some_job : (b.job_count == 0) ≡ false = ground (arith, n) in
    let copied : copy_jobs a b b.job_count 0 ≡ some (r ∷ rs) =
      ap (λ k. copy_jobs a b k 0) n ∙ copy_jobs_complete a b 0 (r ∷ rs) h in
    let done = submit_copied_complete a (r ∷ rs) c in rw (copied, done, some_job, z, v, o) refl
