-- ===== src/Job/Busy.antt =====
-- The three places of npu/driver/rocket_job.c that touch `in_flight_job`: the busy window that the
-- governor measures, and the runtime PM references, over any sequence of calls.
use rk3588_npu_gpu.Base.{
  ℕ, suc, ◌+◌, ◌≡◌, refl, Bool, true, false, Option, none, some, List, [], ◌∷◌, is_neg,
  if◌then◌else◌, get_elem?, modify, arith,
}
use rk3588_npu_gpu.Job.{
  Env, Job, Core, Task, Log, record_busy, record_idle, pm_get, pm_put_autosuspend, pm_put_noidle,
  iommu_attach, emit, is_busy, start_task, start_next, next_task, rocket_job_hw_submit,
  power_and_submit, run_with_fence, run_job, run_found, rocket_job_run, finish_or_continue,
  irq_found, irq_in_flight, rocket_job_handle_irq, rocket_reset, rocket_job_timedout,
  rocket_job_irq_handler, with_fence, attach_fence, advance,
}

-- Whether the busy window is open.
abbrev pub busy_window : Log → Bool
busy_window [] = false
busy_window (record_busy ∷ l) = true
busy_window (record_idle ∷ l) = false
busy_window (_ ∷ l) = busy_window l

-- References taken: `pm_runtime_get_sync` keeps its reference when it fails, too.
abbrev pub gets : Log → ℕ
gets [] = 0
gets (pm_get ret ∷ l) = suc (gets l)
gets (_ ∷ l) = gets l

abbrev pub puts : Log → ℕ
puts [] = 0
puts (pm_put_autosuspend ∷ l) = suc (puts l)
puts (pm_put_noidle ∷ l) = suc (puts l)
puts (_ ∷ l) = puts l

-- Runs that were given up because the core could not be powered or attached.
abbrev pub failures : Log → ℕ
failures [] = 0
failures (pm_get ret ∷ l) = if is_neg ret then suc (failures l) else failures l
failures (iommu_attach ret ∷ l) = if is_neg ret then suc (failures l) else failures l
failures (_ ∷ l) = failures l

abbrev pub bit : Bool → ℕ
bit b = if b then 1 else 0

-- A step that starts a task changes neither the window nor the references.
record Quiet (c c' : Core) : Type 0 where
  window : busy_window c'.log ≡ busy_window c.log
  same_gets : gets c'.log ≡ gets c.log
  same_puts : puts c'.log ≡ puts c.log
  same_failures : failures c'.log ≡ failures c.log
  flight : c'.in_flight_job ≡ c.in_flight_job

start_next-Quiet : (t : Option Task) (c : Core) → Quiet c (start_next t c)
unfolding start_next start_task
start_next-Quiet none c = ground arith
start_next-Quiet (some t) c = ground arith

hw_submit-Quiet : (i : ℕ) (j : Job) (c : Core) → Quiet c (rocket_job_hw_submit i j c)
unfolding rocket_job_hw_submit
hw_submit-Quiet i j c =
    ground (arith, start_next-Quiet (next_task j) (record c { jobs = modify advance i c.jobs }))

-- The window is open exactly while a job is in flight; a reference is held for the job in flight,
-- and one for each run that was given up.
pub record Consistent (c : Core) : Type 0 where
  pub window : busy_window c.log ≡ is_busy c.in_flight_job
  pub references : gets c.log ≡ puts c.log + bit (is_busy c.in_flight_job) + failures c.log

module _ (e : Env) (f i : ℕ) (j : Job) (c : Core) where
  power_and_submit-Consistent :
      c.in_flight_job ≡ none → Consistent c → Consistent (power_and_submit e f i j c).1
  unfolding power_and_submit
  power_and_submit-Consistent idle w =
      let c₁ = emit (pm_get (e.pm_ret c.log)) c in
      let c₂ = emit (iommu_attach (e.attach_ret c₁.log)) c₁ in
      ground (arith, hw_submit-Quiet i j (emit record_busy (record c₂ { in_flight_job = some i })))

attach_fence-Quiet : (f i : ℕ) (j : Job) (c : Core) → Quiet c (attach_fence f i j c)
unfolding attach_fence
attach_fence-Quiet f i j c = ground arith

module _ (e : Env) (i : ℕ) (c : Core) where
  run_job-Consistent :
      (j : Job) → c.in_flight_job ≡ none → Consistent c → Consistent (run_job e i j c).1
  unfolding run_job run_with_fence
  run_job-Consistent j idle w =
      let f : ℕ = suc c.emit_seqno in
      ground (
        arith,
        attach_fence-Quiet f i j c,
        power_and_submit-Consistent e f i (with_fence f j) (attach_fence f i j c),
      )

module _ (e : Env) (i : ℕ) (c : Core) where
  run_found-Consistent :
      (o : Option Job) → c.in_flight_job ≡ none → Consistent c → Consistent (run_found e i o c).1
  run_found-Consistent none idle w = w
  run_found-Consistent (some j) idle w = run_job-Consistent e i c j idle w

finish_or_continue-Consistent :
    (i : ℕ) (j : Job) (c : Core)
    → is_busy c.in_flight_job ≡ true
    → Consistent c
    → Consistent (finish_or_continue i j c)
unfolding finish_or_continue
finish_or_continue-Consistent i j c b w = ground (arith, hw_submit-Quiet i j c)

irq_found-Consistent :
    (i : ℕ) (o : Option Job) (c : Core)
    → is_busy c.in_flight_job ≡ true
    → Consistent c
    → Consistent (irq_found i o c)
irq_found-Consistent i none c b w = w
irq_found-Consistent i (some j) c b w = finish_or_continue-Consistent i j c b w

irq_in_flight-Consistent :
    (o : Option ℕ) (c : Core) → o ≡ c.in_flight_job → Consistent c → Consistent (irq_in_flight o c)
irq_in_flight-Consistent none c b w = w
irq_in_flight-Consistent (some i) c b w =
    irq_found-Consistent i (get_elem? c.jobs i) c (ground arith) w

handle_irq-Consistent : (c : Core) → Consistent c → Consistent (rocket_job_handle_irq c)
unfolding rocket_job_handle_irq
handle_irq-Consistent c w = irq_in_flight-Consistent c.in_flight_job _ refl (ground arith)

reset-Consistent : (c : Core) → Consistent c → Consistent (rocket_reset c)
unfolding rocket_reset
reset-Consistent c w = ground arith

irq_handler-Consistent :
    (status : ℕ) (c : Core) → Consistent c → Consistent (rocket_job_irq_handler status c).1
unfolding rocket_job_irq_handler
irq_handler-Consistent status c w = ground arith

-- A call of the driver's scheduler side. `timeout_begins` is the first statement of
-- `rocket_job_timedout` alone, after which an interrupt may come before the rest, `rocket_reset`, has the
-- lock; `reset_work` is that rest, and `rocket_reset_work`.
pub data Call : Type 0 where
  run_job_no : ℕ → Call
  interrupt : (status : ℕ) → Call
  interrupt_thread : Call
  timeout : Call
  timeout_begins : Call
  reset_work : Call

unfoldable pub step : Env → Call → Core → Core
step e (run_job_no i) c = (rocket_job_run e i c).1
step e (interrupt status) c = (rocket_job_irq_handler status c).1
step e interrupt_thread c = rocket_job_handle_irq c
step e timeout c = rocket_job_timedout c
step e timeout_begins c = record c { reset_pending = true }
step e reset_work c = rocket_reset c

unfoldable pub run : Env → List Call → Core → Core
run e [] c = c
run e (x ∷ xs) c = run e xs (step e x c)

-- The scheduler's credit limit of 1: it runs no job while one is in flight.
abbrev pub OneAtATime : Env → List Call → Core → Type 0
OneAtATime e [] c = Unit {0}
OneAtATime e (run_job_no i ∷ xs) c =
    (c.in_flight_job ≡ none) × OneAtATime e xs (step e (run_job_no i) c)
OneAtATime e (x ∷ xs) c = OneAtATime e xs (step e x c)

-- Over any sequence of calls in which the scheduler starts no job while one is in flight, the busy
-- window stays open exactly while a job is in flight, and the runtime PM references taken are those
-- given back, one for the job in flight, and one for each run that could not power or attach the
-- core.
pub run-Consistent :
    (e : Env) (xs : List Call) (c : Core)
    → OneAtATime e xs c
    → Consistent c
    → Consistent (run e xs c)
unfolding run step
run-Consistent e [] c o w = w
run-Consistent e (run_job_no i ∷ xs) c o w =
    run-Consistent e xs _ o.1
      (unfold rocket_job_run in run_found-Consistent e i c (get_elem? c.jobs i) o.0 w)
run-Consistent e (interrupt status ∷ xs) c o w =
    run-Consistent e xs _ o (irq_handler-Consistent status c w)
run-Consistent e (interrupt_thread ∷ xs) c o w = run-Consistent e xs _ o (handle_irq-Consistent c w)
run-Consistent e (timeout ∷ xs) c o w = run-Consistent e xs _ o (
    unfold rocket_job_timedout in
    reset-Consistent (record c { reset_pending = true }) (ground arith))
run-Consistent e (timeout_begins ∷ xs) c o w =
    run-Consistent e xs _ o (record { window = w.window; references = w.references })
run-Consistent e (reset_work ∷ xs) c o w = run-Consistent e xs _ o (reset-Consistent c w)
