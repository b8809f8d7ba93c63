-- ===== src/Submit/Tasks.antt =====
-- The loop of `rocket_copy_tasks` against the array in user memory.
use rk3588_npu_gpu.Base.{
  ℕ, zero, suc, ◌≡◌, refl, ap, ◌⊎◌, inl, inr, false, Option, none, some, Bool-cases, List, [], ◌∷◌,
  ◌==◌, length, einval, efault, arith,
}
use rk3588_npu_gpu.Job.{Task}
use rk3588_npu_gpu.Submit.{
  Env, Request, Copied, copied, failed, cons_task, copy_task, copy_loop, task_address,
}

-- User memory holds the tasks `ts` from index `i` on, none of them without commands.
abbrev pub Holds : Env → Request → ℕ → List Task → Type 0
Holds e r i [] = Unit {0}
Holds e r i (t ∷ ts) =
    (e.user (task_address r i) ≡ some t) × ((t.regcmd_count == 0) ≡ false) × Holds e r (suc i) ts

-- If user memory holds as many tasks as the request says, none of them without commands, then the
-- loop copies exactly these tasks, in order.
pub copy_loop_complete :
    (e : Env) (r : Request) (i : ℕ) (ts : List Task)
    → Holds e r i ts
    → copy_loop e r (length ts) i ≡ copied ts
unfolding copy_loop
copy_loop_complete e r i [] h = refl
copy_loop_complete e r i (t ∷ ts) h =
    rw (h.0, copy_loop_complete e r (suc i) ts h.2) (ground (arith, h.1))

-- What a result of the loop says about user memory.
abbrev pub Justified : Env → Request → ℕ → ℕ → Copied → Type 0
Justified e r n i (copied ts) = (length ts ≡ n) × Holds e r i ts
Justified e r n i (failed ret) = (ret ≡ einval) ⊎ (ret ≡ efault)

cons_task-Justified :
    (e : Env) (r : Request) (n i : ℕ) (t : Task) (c : Copied)
    → e.user (task_address r i) ≡ some t
    → (t.regcmd_count == 0) ≡ false
    → Justified e r n (suc i) c
    → Justified e r (suc n) i (cons_task t c)
cons_task-Justified e r n i t (copied ts) u k h = (ap suc h.0, (u, k, h.1))
cons_task-Justified e r n i t (failed ret) u k h = h

copy_task-Justified :
    (e : Env) (r : Request) (n i : ℕ) (o : Option Task) (c : Copied)
    → e.user (task_address r i) ≡ o
    → Justified e r n (suc i) c
    → Justified e r (suc n) i (copy_task o c)
copy_task-Justified e r n i none c u h = inr refl
copy_task-Justified e r n i (some t) c u h = elim (Bool-cases (t.regcmd_count == 0)) [
  | inl z ↦ rw z (inl refl)
  | inr k ↦ rw k (cons_task-Justified e r n i t c u k h)
]

-- Whatever user memory holds, the loop ends with the number of tasks that the request says, each
-- as user memory holds it and none without commands, or with -EINVAL or -EFAULT.
pub copy_loop-Justified : (e : Env) (r : Request) (n i : ℕ) → Justified e r n i (copy_loop e r n i)
unfolding copy_loop
copy_loop-Justified e r zero i = (refl, tt)
copy_loop-Justified e r (suc n) i =
    copy_task-Justified e r n i (e.user (task_address r i)) (copy_loop e r n (suc i)) refl
      (copy_loop-Justified e r n (suc i))
