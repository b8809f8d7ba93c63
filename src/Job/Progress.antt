-- ===== src/Job/Progress.antt =====
-- A job of npu/driver/rocket_job.c from its start to its fence: the interrupts start its tasks one
-- by one, in order.
use rk3588_npu_gpu.Base.{
  ◌-◌, ◌*◌, ◌/◌, ◌%◌, ◌^◌, Bool, ◌&&◌, ◌==◌, if◌then◌else◌, ℕ, zero, suc, ◌+◌, ◌≡◌, refl, sym, ◌<◌,
  ap, ◌∙◌, true, false, Option, none, some, List, [], ◌∷◌, ◌++◌, is_neg, get_elem?, modify,
  get_elem?-modify_self, length, arith, map,
}
use mathlib.Core.List.{reverse, reverse-cons, append_assoc}
use rk3588_npu_gpu.Registers.{u32}
use rk3588_npu_gpu.Registers.Bits.{bit_and_run}
use rk3588_npu_gpu.Job.{
  Env, Job, Core, Task, Log, RunResult, fence, Window, pc, cna, core, write, data_amount, s_pointer,
  fence_signal, pm_get, iommu_attach, record_busy, emit, start_task, start_next, next_task, advance,
  with_fence, attach_fence, rocket_job_hw_submit, power_and_submit, run_with_fence, run_job,
  run_found, rocket_job_run, finish_or_continue, rocket_job_handle_irq, irq_in_flight, acknowledge,
}

-- What the NPU finds in its registers when a task is started.
pub record Launch : Type 0 where
  pub base_address : ℕ
  pub register_amounts : ℕ
  pub interrupt_mask : ℕ
  pub interrupt_clear : ℕ
  pub task_con : ℕ
  pub task_dma_base_addr : ℕ
  pub cna_s_pointer : ℕ
  pub core_s_pointer : ℕ

abbrev same_window : Window → Window → Bool
same_window pc pc = true
same_window cna cna = true
same_window core core = true
same_window _ _ = false

-- The value last written to a register.
abbrev register : Window → ℕ → Log → ℕ
register w o [] = 0
register w o (write w' o' v ∷ l) = if same_window w w' && o == o' then v else register w o l
register w o (_ ∷ l) = register w o l

abbrev registers : Log → Launch
registers l = record {
  base_address = register pc 0x10 l;
  register_amounts = register pc 0x14 l;
  interrupt_mask = register pc 0x20 l;
  interrupt_clear = register pc 0x24 l;
  task_con = register pc 0x30 l;
  task_dma_base_addr = register pc 0x34 l;
  cna_s_pointer = register cna 0x4 l;
  core_s_pointer = register core 0x4 l;
}

-- The NPU starts a task when 1 is written to OPERATION_ENABLE: the tasks started, newest first.
abbrev pub started : Log → List Launch
started [] = []
started (write w o v ∷ l) =
    if same_window w pc && o == 0x08 && v == 1 then registers l ∷ started l else started l
started (_ ∷ l) = started l

-- The fences signalled.
abbrev pub signals : Log → List (Option ℕ)
signals [] = []
signals (fence_signal f ∷ l) = f ∷ signals l
signals (_ ∷ l) = signals l

-- What a task asks for on the core with the given index: the low 32 bits of the address of its
-- commands, half their number, rounded up, less one, both DPU interrupts, and the core's group.
abbrev pub launch : ℕ → Task → Launch
launch index t = record {
  base_address = t.regcmd % 2 ^ 32;
  register_amounts = data_amount t.regcmd_count;
  interrupt_mask = 0x300;
  interrupt_clear = 0x300;
  task_con = 0x7001;
  task_dma_base_addr = 0;
  cna_s_pointer = s_pointer index;
  core_s_pointer = s_pointer index;
}

abbrev pub launches : ℕ → List Task → List Launch
launches index = map (launch index)

-- From index `k` on the tasks are `rest`.
abbrev From : List Task → ℕ → List Task → Type 0
From ts k [] = Unit {0}
From ts k (t ∷ rest) = (get_elem? ts k ≡ some t) × From ts (suc k) rest

From-cons :
    (d : Task) (ts : List Task) (k : ℕ) (rest : List Task)
    → From ts k rest
    → From (d ∷ ts) (suc k) rest
From-cons d ts k [] h = tt
From-cons d ts k (t ∷ rest) h = (h.0, From-cons d ts (suc k) rest h.1)

From-zero : (ts : List Task) → From ts 0 ts
From-zero [] = tt
From-zero (t ∷ ts) = (refl, From-cons t ts 0 ts (From-zero ts))

-- What one started task leaves.
record Started (t : Task) (i : ℕ) (j : Job) (c c' : Core) : Type 0 where
  order : started c'.log ≡ launch c.index t ∷ started c.log
  same_index : c'.index ≡ c.index
  quiet : signals c'.log ≡ signals c.log
  flight : c'.in_flight_job ≡ c.in_flight_job
  no_reset : c'.reset_pending ≡ c.reset_pending
  stored : c'.jobs ≡ modify advance i c.jobs

u32-data_amount : (n : ℕ) → u32 (data_amount n) ≡ data_amount n
u32-data_amount n =
    let v : ℕ = u32 (u32 (n + 1) / 2 + 2 ^ 32 - 1) in
    rw (bit_and_run 0 16 (u32 (v * 2 ^ 0))) (omega arith)

hw_submit-Started :
    (t : Task) (i : ℕ) (j : Job) (c : Core)
    → c.reset_pending ≡ false
    → next_task j ≡ some t
    → Started t i j c (rocket_job_hw_submit i j c)
unfolding rocket_job_hw_submit start_next start_task
hw_submit-Started t i j c r n =
    rw (r, n)
      (record {
        order =
            ap (λ a. record (launch c.index t) { register_amounts = a } ∷ started c.log)
              (u32-data_amount t.regcmd_count);
        same_index = refl;
        quiet = refl;
        flight = refl;
        no_reset = refl;
        stored = refl;
      })

module _ (i : ℕ) (j : Job) (c : Core) where
  handle_irq-found :
      c.in_flight_job ≡ some i
      → get_elem? c.jobs i ≡ some j
      → rocket_job_handle_irq c ≡ finish_or_continue i j (acknowledge c)
  unfolding rocket_job_handle_irq
  handle_irq-found f g = rw (f, irq_in_flight, g) refl

  handle_irq-last :
      c.in_flight_job ≡ some i
      → get_elem? c.jobs i ≡ some j
      → j.task_count ≡ j.next_task_idx + 0
      → let c' = rocket_job_handle_irq c in
        (c'.in_flight_job ≡ none)
        × (started c'.log ≡ started c.log)
        × (signals c'.log ≡ j.done_fence ∷ signals c.log)
  unfolding finish_or_continue
  handle_irq-last f g n = rw (handle_irq-found f g) (ground arith)

module _ (i : ℕ) (j : Job) (t : Task) (rest : List Task) (c : Core) where
  handle_irq-Started :
      c.in_flight_job ≡ some i
      → get_elem? c.jobs i ≡ some j
      → c.reset_pending ≡ false
      → next_task j ≡ some t
      → j.task_count ≡ j.next_task_idx + length (t ∷ rest)
      → Started t i j c (rocket_job_handle_irq c)
  unfolding finish_or_continue
  handle_irq-Started f g r nt n =
      rw (handle_irq-found i j c f g) (ground (arith, hw_submit-Started t i j (acknowledge c)))

reverse_then :
    (n : ℕ) (t : Task) (rest : List Task) (l : List Launch)
    → reverse (launches n (t ∷ rest)) ++ l ≡ reverse (launches n rest) ++ launch n t ∷ l
reverse_then n t rest l =
    ap (λ xs. xs ++ l) (reverse-cons (launch n t) (launches n rest))
    ∙ append_assoc (reverse (launches n rest)) (launch n t ∷ []) l

-- A task and then the rest of them, on a core that keeps its index.
then_started :
    (n m : ℕ) (t : Task) (rest : List Task) {a b l : List Launch}
    → m ≡ n
    → a ≡ reverse (launches m rest) ++ b
    → b ≡ launch n t ∷ l
    → a ≡ reverse (launches n (t ∷ rest)) ++ l
then_started n m t rest {a} {b} {l} same p q =
    p
    ∙ ap (λ k. reverse (launches k rest) ++ b) same
    ∙ ap (◌++◌ (reverse (launches n rest))) q
    ∙ sym (reverse_then n t rest l)

-- The interrupts that end the tasks of the job.
pub interrupts : ℕ → Core → Core
interrupts zero c = c
interrupts (suc n) c = interrupts n (rocket_job_handle_irq c)

pub interrupts_finish :
    (i : ℕ) (rest : List Task) (j : Job) (c : Core)
    → get_elem? c.jobs i ≡ some j
    → c.in_flight_job ≡ some i
    → c.reset_pending ≡ false
    → j.task_count ≡ j.next_task_idx + length rest
    → From j.tasks j.next_task_idx rest
    → let c' = interrupts (suc (length rest)) c in
      (c'.in_flight_job ≡ none)
      × (started c'.log ≡ reverse (launches c.index rest) ++ started c.log)
      × (signals c'.log ≡ j.done_fence ∷ signals c.log)
unfolding interrupts
interrupts_finish i [] j c g f r n ts = handle_irq-last i j c f g n
interrupts_finish i (t ∷ rest) j c g f r n ts =
    let c' = rocket_job_handle_irq c in
    let s = handle_irq-Started i j t rest c f g r ts.0 n in
    let ih =
      interrupts_finish i rest (advance j) c'
        (rw s.stored (get_elem?-modify_self advance i c.jobs g)) (s.flight ∙ f) (s.no_reset ∙ r)
        (omega arith) ts.1 in
    (
      ih.0,
      then_started c.index c'.index t rest s.same_index ih.1 s.order,
      ih.2 ∙ ap (◌∷◌ j.done_fence) s.quiet,
    )

-- The kernel makes the fence, powers the core and attaches its IOMMU group.
pub record Willing (e : Env) : Type 0 where
  pub makes_fence : (l : Log) → e.fence_alloc l ≡ true
  pub powers : (l : Log) → is_neg (e.pm_ret l) ≡ false
  pub attaches : (l : Log) → is_neg (e.attach_ret l) ≡ false

-- The state of a core that has just been given job `i`.
record Launched (t : Task) (f i : ℕ) (j : Job) (c : Core) (r : RunResult × Core) : Type 0 where
  result : r.0 ≡ fence f
  order : started r.1.log ≡ launch c.index t ∷ started c.log
  same_index : r.1.index ≡ c.index
  quiet : signals r.1.log ≡ signals c.log
  flight : r.1.in_flight_job ≡ some i
  no_reset : r.1.reset_pending ≡ false
  stored : get_elem? r.1.jobs i ≡ some (advance (with_fence f j))

module _ (e : Env) (w : Willing e) (t : Task) (f i : ℕ) (j : Job) (c : Core) where
  power_and_submit-Launched :
      get_elem? c.jobs i ≡ some (with_fence f j)
      → c.reset_pending ≡ false
      → next_task j ≡ some t
      → Launched t f i j c (power_and_submit e f i (with_fence f j) c)
  unfolding power_and_submit
  power_and_submit-Launched g r n =
      let c₁ = emit (pm_get (e.pm_ret c.log)) c in
      let c₂ = emit (iommu_attach (e.attach_ret c₁.log)) c₁ in
      let c₃ = emit record_busy (record c₂ { in_flight_job = some i }) in
      ground (
        arith,
        w.powers c.log,
        w.attaches c₁.log,
        hw_submit-Started t i (with_fence f j) c₃,
        get_elem?-modify_self advance i c.jobs g,
      )

attach_fence-facts :
    (f i : ℕ) (j : Job) (c : Core)
    → (started (attach_fence f i j c).log ≡ started c.log)
      × (signals (attach_fence f i j c).log ≡ signals c.log)
      × ((attach_fence f i j c).index ≡ c.index)
      × ((attach_fence f i j c).reset_pending ≡ c.reset_pending)
      × ((attach_fence f i j c).jobs ≡ modify (with_fence f) i c.jobs)
unfolding attach_fence
attach_fence-facts f i j c = ground arith

rocket_job_run-Launched :
    (e : Env)
    → Willing e
    → (t : Task) (i : ℕ) (j : Job) (c : Core) → get_elem? c.jobs i ≡ some j
    → c.reset_pending ≡ false
    → next_task j ≡ some t
    → j.error ≡ false
    → j.next_task_idx < j.task_count
    → Launched t (suc c.emit_seqno) i j c (rocket_job_run e i c)
unfolding rocket_job_run run_job run_with_fence
rocket_job_run-Launched e w t i j c g r n err lt =
    let f : ℕ = suc c.emit_seqno in
    let c₁ = attach_fence f i j c in
    let facts = attach_fence-facts f i j c in
    rw (g, run_found)
      (ground (
        arith,
        w.makes_fence c.log,
        facts,
        power_and_submit-Launched e w t f i j c₁
            (rw facts.4 (get_elem?-modify_self (with_fence f) i c.jobs g)) (facts.3 ∙ r) n,
      ))

-- A job with at least one task and no error, started from its first task on a core that is not
-- being reset, completes: if the kernel makes the fence, powers and attaches the core, then
-- `rocket_job_run` returns a fresh fence, and after as many interrupts as the job has tasks the NPU
-- has been started once for every task, in order, each time with the registers last written as the
-- task asks for, the fence has been signalled exactly once, and the core is idle.
pub job_completes :
    (e : Env)
    → Willing e
    → (i : ℕ) (j : Job) (t : Task) (rest : List Task) (c : Core) → get_elem? c.jobs i ≡ some j
    → j.tasks ≡ t ∷ rest
    → j.task_count ≡ length (t ∷ rest)
    → j.next_task_idx ≡ 0
    → j.error ≡ false
    → c.reset_pending ≡ false
    → let f : ℕ = suc c.emit_seqno in
      let r = rocket_job_run e i c in
      let c' = interrupts (length (t ∷ rest)) r.1 in
      (r.0 ≡ fence f)
      × (c'.in_flight_job ≡ none)
      × (started c'.log ≡ reverse (launches c.index (t ∷ rest)) ++ started c.log)
      × (signals c'.log ≡ some f ∷ signals c.log)
job_completes e w i j t rest c g ts count start err r =
    let f : ℕ = suc c.emit_seqno in
    let n : next_task j ≡ some t = rw (ts, start) refl in
    let l = rocket_job_run-Launched e w t i j c g r n err (omega arith) in
    let tail : From j.tasks (suc j.next_task_idx) rest =
      rw (ts, start) (From-cons t rest 0 rest (From-zero rest)) in
    let ih =
      interrupts_finish i rest (advance (with_fence f j)) (rocket_job_run e i c).1 l.stored l.flight
        l.no_reset (omega arith) tail in
    (
      l.result,
      ih.0,
      then_started c.index (rocket_job_run e i c).1.index t rest l.same_index ih.1 l.order,
      ih.2 ∙ ap (◌∷◌ (some f)) l.quiet,
    )
