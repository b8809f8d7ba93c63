-- ===== src/Job/Bounds.antt =====
-- The array of tasks of a job is never read past its end.
use rk3588_npu_gpu.Base.{
  ℕ, zero, suc, ◌<◌, ◌≡◌, refl, Bool, true, false, ◌&&◌, not, Option, none, some, List, [], ◌∷◌,
  ltb, leb, ◌==◌, get_elem?, modify, all, all-get_elem?, get_elem?-modify_self, length, arith,
}
use rk3588_npu_gpu.Job.{
  Env, Job, Core, Task, Log, bad_task, emit, start_task, start_next, rocket_job_hw_submit,
  power_and_submit, run_with_fence, run_job, run_found, rocket_job_run, finish_or_continue, pm_get,
  iommu_attach, record_busy, irq_found, irq_in_flight, rocket_job_handle_irq, acknowledge,
  rocket_reset, rocket_job_timedout, rocket_job_irq_handler, with_fence, attach_fence, advance,
}
use rk3588_npu_gpu.Job.Busy.{
  Call, run_job_no, interrupt, interrupt_thread, timeout, timeout_begins, reset_work, step, run,
}

-- The array has `task_count` tasks, and the next one is in it or just past its end.
abbrev pub fits : Job → Bool
fits j = length j.tasks == j.task_count && leb j.next_task_idx j.task_count

-- A read past the end.
abbrev pub overrun : Log → Bool
overrun [] = false
overrun (bad_task ∷ l) = true
overrun (_ ∷ l) = overrun l

abbrev pub within : Core → Bool
within c = all fits c.jobs && not (overrun c.log)

all-modify :
    (p : Job → Bool) (f : Job → Job) (i : ℕ) (js : List Job) (j : Job)
    → all p js ≡ true
    → get_elem? js i ≡ some j
    → p (f j) ≡ true
    → all p (modify f i js) ≡ true
all-modify p f i [] j h g q = refl
all-modify p f zero (x ∷ js) j h g q = ground arith
all-modify p f (suc i) (x ∷ js) j h g q = ground (arith, all-modify p f i js j)

get_elem?-lt : (ts : List Task) (i : ℕ) → i < length ts → (t : Task) × (get_elem? ts i ≡ some t)
get_elem?-lt [] i p = absurd (omega arith)
get_elem?-lt (t ∷ ts) zero p = (t, refl)
get_elem?-lt (t ∷ ts) (suc i) p = get_elem?-lt ts i (omega arith)

start_next-within : (t : Task) (c : Core) → within c ≡ true → within (start_next (some t) c) ≡ true
unfolding start_next start_task
start_next-within t c h = ground arith

module _ (i : ℕ) (j : Job) (c : Core) where
  hw_submit-within :
      within c ≡ true
      → get_elem? c.jobs i ≡ some j
      → ltb j.next_task_idx j.task_count ≡ true
      → within (rocket_job_hw_submit i j c) ≡ true
  unfolding rocket_job_hw_submit
  hw_submit-within h g q =
      let fit = all-get_elem? fits c.jobs i (ground arith) g in
      let (t, at) = get_elem?-lt j.tasks j.next_task_idx (ground arith) in
      let c₁ = record c { jobs = modify advance i c.jobs } in
      rw at (ground (arith, all-modify fits advance i c.jobs j, start_next-within t c₁))

  attach_fence-within :
      (f : ℕ)
      → within c ≡ true
      → get_elem? c.jobs i ≡ some j
      → let c' = attach_fence f i j c in
        (within c' ≡ true) × (get_elem? c'.jobs i ≡ some (with_fence f j))
  unfolding attach_fence
  attach_fence-within f h g =
      let fit = all-get_elem? fits c.jobs i (ground arith) g in
      ground (
        arith,
        all-modify fits (with_fence f) i c.jobs j,
        get_elem?-modify_self (with_fence f) i c.jobs g,
      )

  finish_or_continue-within :
      within c ≡ true → get_elem? c.jobs i ≡ some j → within (finish_or_continue i j c) ≡ true
  unfolding finish_or_continue
  finish_or_continue-within h g = ground (arith, hw_submit-within)

module _ (e : Env) (i : ℕ) (j : Job) (c : Core) where
  power_and_submit-within :
      (f : ℕ)
      → within c ≡ true
      → get_elem? c.jobs i ≡ some j
      → ltb j.next_task_idx j.task_count ≡ true
      → within (power_and_submit e f i j c).1 ≡ true
  unfolding power_and_submit
  power_and_submit-within f h g q =
      let c₁ = emit (pm_get (e.pm_ret c.log)) c in
      let c₂ = emit (iommu_attach (e.attach_ret c₁.log)) c₁ in
      ground (arith, hw_submit-within i j (emit record_busy (record c₂ { in_flight_job = some i })))

module _ (e : Env) (i : ℕ) (c : Core) where
  run_job-within :
      (j : Job) → within c ≡ true → get_elem? c.jobs i ≡ some j → within (run_job e i j c).1 ≡ true
  unfolding run_job run_with_fence
  run_job-within j h g =
      let f : ℕ = suc c.emit_seqno in
      let fit = all-get_elem? fits c.jobs i (ground arith) g in
      ground (
        arith,
        attach_fence-within i j c f,
        power_and_submit-within e i (with_fence f j) (attach_fence f i j c) f,
      )

  run_found-within :
      (o : Option Job)
      → get_elem? c.jobs i ≡ o
      → within c ≡ true
      → within (run_found e i o c).1 ≡ true
  run_found-within none g h = h
  run_found-within (some j) g h = run_job-within j h g

irq_found-within :
    (i : ℕ) (o : Option Job) (c : Core)
    → get_elem? c.jobs i ≡ o
    → within c ≡ true
    → within (irq_found i o c) ≡ true
irq_found-within i none c g h = h
irq_found-within i (some j) c g h = finish_or_continue-within i j c h g

irq_in_flight-within :
    (o : Option ℕ) (c : Core) → within c ≡ true → within (irq_in_flight o c) ≡ true
irq_in_flight-within none c h = h
irq_in_flight-within (some i) c h = irq_found-within i (get_elem? c.jobs i) c refl h

reset-within : (c : Core) → within c ≡ true → within (rocket_reset c) ≡ true
unfolding rocket_reset
reset-within c h = ground arith

step-within : (e : Env) (x : Call) (c : Core) → within c ≡ true → within (step e x c) ≡ true
unfolding step rocket_job_run rocket_job_handle_irq rocket_job_timedout rocket_job_irq_handler
step-within e (run_job_no i) c h = run_found-within e i c (get_elem? c.jobs i) refl h
step-within e (interrupt status) c h = ground arith
step-within e interrupt_thread c h =
    irq_in_flight-within c.in_flight_job (acknowledge c) (ground arith)
step-within e timeout c h = reset-within (record c { reset_pending = true }) h
step-within e timeout_begins c h = h
step-within e reset_work c h = reset-within c h

-- Where every job in the store has `task_count` tasks and starts at one of them or just past the last,
-- no sequence of starts, interrupts, timeouts and resets, in any order and whatever the kernel
-- answers, reads a task past the end of its array, and every job stays such a job.
pub tasks_in_bounds :
    (e : Env) (xs : List Call) (c : Core) → within c ≡ true → within (run e xs c) ≡ true
unfolding run
tasks_in_bounds e [] c h = h
tasks_in_bounds e (x ∷ xs) c h = tasks_in_bounds e xs (step e x c) (step-within e x c h)
