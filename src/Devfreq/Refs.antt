-- ===== src/Devfreq/Refs.antt =====
-- The runtime PM references that npu/driver/rocket_devfreq.c takes and gives back.
use rk3588_npu_gpu.Base.{
  ℕ, zero, suc, ◌+◌, ◌≡◌, refl, ◌&&◌, not, Option, none, some, List, [], ◌∷◌, ℤ, ◌==◌, is_neg,
  if◌then◌else◌, arith,
}
use rk3588_npu_gpu.Devfreq.Kernel.{Env, Log, resume, put, put_autosuspend, mark_last_busy}
use rk3588_npu_gpu.Devfreq.{
  State, Action, Slot, dev_of, make_safe, notify_core, notify_block, rocket_df_notify, pre_on,
  notifier_core, resume_and_get, give_back, hold_from, rocket_devfreq_hold_all, release_from,
  rocket_devfreq_release_all,
}

-- How often `pm_runtime_resume_and_get` has succeeded on core `i`, and how often a reference on it
-- has been given back.
abbrev pub taken : ℕ → Log → ℕ
taken i [] = 0
taken i (resume j ret ∷ l) = if j == i && not (is_neg ret) then suc (taken i l) else taken i l
taken i (_ ∷ l) = taken i l

abbrev pub dropped : ℕ → Log → ℕ
dropped i [] = 0
dropped i (put j ∷ l) = if j == i then suc (dropped i l) else dropped i l
dropped i (put_autosuspend j ∷ l) = if j == i then suc (dropped i l) else dropped i l
dropped i (_ ∷ l) = dropped i l

-- 1 for a bound core among the slots from `j` on.
abbrev pub owed : List Slot → ℕ → ℕ → ℕ
owed [] j i = 0
owed (c ∷ cs) j i = (if c.dev && j == i then 1 else 0) + owed cs (suc j) i

-- 1 for a bound core among the slots below `n`.
abbrev pub given : List Slot → ℕ → ℕ → ℕ
given slots zero i = 0
given slots (suc n) i = given slots n i + (if dev_of slots n && n == i then 1 else 0)

-- What a resume and the notifier that it calls leave alone.
pub record Frame (s s' : State) : Type 0 where
  pub core : s'.core ≡ s.core
  pub refs_held : s'.refs_held ≡ s.refs_held
  pub unsafe : s'.unsafe ≡ s.unsafe
  pub reg : s'.reg ≡ s.reg
  pub notifiers : s'.notifiers ≡ s.notifiers
  pub slots : s'.slots ≡ s.slots

module _ (i : ℕ) where
  release_from-dropped :
      (cs : List Slot) (j : ℕ) (l : Log)
      → dropped i (release_from cs j l) ≡ dropped i l + owed cs j i
  unfolding release_from
  release_from-dropped [] j l = omega arith
  release_from-dropped (c ∷ cs) j l = ground (
    arith,
    release_from-dropped cs (suc j) l,
    release_from-dropped cs (suc j) (put_autosuspend j ∷ mark_last_busy j ∷ l),
  )

  release_from-taken :
      (cs : List Slot) (j : ℕ) (l : Log) → taken i (release_from cs j l) ≡ taken i l
  unfolding release_from
  release_from-taken [] j l = refl
  release_from-taken (c ∷ cs) j l = ground (
    arith,
    release_from-taken cs (suc j) l,
    release_from-taken cs (suc j) (put_autosuspend j ∷ mark_last_busy j ∷ l),
  )

  give_back-dropped :
      (slots : List Slot) (n : ℕ) (l : Log)
      → dropped i (give_back slots n l) ≡ dropped i l + given slots n i
  unfolding give_back
  give_back-dropped slots zero l = omega arith
  give_back-dropped slots (suc n) l =
      ground (arith, give_back-dropped slots n l, give_back-dropped slots n (put n ∷ l))

  give_back-taken :
      (slots : List Slot) (n : ℕ) (l : Log) → taken i (give_back slots n l) ≡ taken i l
  unfolding give_back
  give_back-taken slots zero l = refl
  give_back-taken slots (suc n) l =
      ground (arith, give_back-taken slots n l, give_back-taken slots n (put n ∷ l))

-- A step that neither takes nor gives back a reference.
pub record Still (i : ℕ) (s s' : State) : Type 0 where
  pub frame : Frame s s'
  pub taken_same : taken i s'.log ≡ taken i s.log
  pub dropped_same : dropped i s'.log ≡ dropped i s.log

module _ (e : Env) (i : ℕ) where
  pub notify_core-Still : (j : ℕ) (s : State) → Still i s (notify_core e j s).1
  unfolding notify_core make_safe
  notify_core-Still j s = ground arith

notify_block-Still :
    (e : Env) (i : ℕ) (b : Option ℕ) (a : Action) (s : State) → Still i s (notify_block e b a s).1
unfolding notify_block
notify_block-Still e i none a s = ground arith
notify_block-Still e i (some j) a s = ground (arith, notify_core-Still e i j s)

pub rocket_df_notify-Still :
    (e : Env) (i k : ℕ) (a : Action) (s : State) → Still i s (rocket_df_notify e k a s).1
unfolding rocket_df_notify
rocket_df_notify-Still e i k a s = notify_block-Still e i (notifier_core s.notifiers k) a s

-- The effect of one resume.
pub record Resumed (i j : ℕ) (s : State) (r : ℤ × State) : Type 0 where
  pub frame : Frame s r.1
  pub got : taken i r.1.log ≡ taken i s.log + (if j == i && not (is_neg r.0) then 1 else 0)
  pub gone : dropped i r.1.log ≡ dropped i s.log

pub resume_and_get-Resumed : (e : Env) (i j : ℕ) (s : State) → Resumed i j s (resume_and_get e j s)
unfolding resume_and_get
resume_and_get-Resumed e i j s = ground (arith, rocket_df_notify-Still e i j pre_on s)

-- What a resume returns is what the kernel answers at some log.
pub resume_and_get-answer :
    (e : Env) (j : ℕ) (s : State) → (l : Log) × ((resume_and_get e j s).0 ≡ e.resume_ret l j)
unfolding resume_and_get
resume_and_get-answer e j s = (_, refl)

-- `cs` are the slots from `j` on.
abbrev pub From : List Slot → ℕ → List Slot → Type 0
From slots j [] = Unit {0}
From slots j (c ∷ cs) = (dev_of slots j ≡ c.dev) × From slots (suc j) cs

From-cons :
    (d : Slot) (slots : List Slot) (j : ℕ) (cs : List Slot)
    → From slots j cs
    → From (d ∷ slots) (suc j) cs
From-cons d slots j [] h = tt
From-cons d slots j (c ∷ cs) h = (h.0, From-cons d slots (suc j) cs h.1)

pub From-zero : (slots : List Slot) → From slots 0 slots
From-zero [] = tt
From-zero (c ∷ cs) = (refl, From-cons c cs 0 cs (From-zero cs))

-- The effect of the loop that takes the references from slot `j` on: all of them, or on an error
-- none, those below `j` given back as well.
record Held (i j : ℕ) (cs : List Slot) (s : State) (r : ℤ × State) : Type 0 where
  frame : Frame s r.1
  balance :
      if is_neg r.0
      then dropped i r.1.log + taken i s.log ≡ dropped i s.log + given s.slots j i + taken i r.1.log
      else (taken i r.1.log ≡ taken i s.log + owed cs j i) × (dropped i r.1.log ≡ dropped i s.log)

hold_from-Held :
    (e : Env) (i j : ℕ) (cs : List Slot) (s : State)
    → From s.slots j cs
    → Held i j cs s (hold_from e cs j s)
unfolding hold_from
hold_from-Held e i j [] s f = ground arith
hold_from-Held e i j (c ∷ cs) s f =
    let r = resume_and_get e j s in
    let one = resume_and_get-Resumed e i j s in
    let f' : From r.1.slots (suc j) cs = rw one.frame.slots f.1 in
    ground (
      arith,
      one,
      hold_from-Held e i (suc j) cs s f.1,
      hold_from-Held e i (suc j) cs r.1 f',
      give_back-dropped i s.slots j r.1.log,
      give_back-taken i s.slots j r.1.log,
    )

-- For each core, the references taken are those given back and, while the boost is on record, one
-- for each bound slot with its number.
abbrev pub Balanced : State → Type 0
Balanced s =
    (i : ℕ) → taken i s.log ≡ dropped i s.log + (if s.refs_held then owed s.slots 0 i else 0)

-- The effect of `rocket_devfreq_hold_all`: one reference for each bound slot, or on an error none.
pub record HeldAll (i : ℕ) (s : State) (r : ℤ × State) : Type 0 where
  pub frame : Frame s r.1
  pub balance :
      if is_neg r.0
      then dropped i r.1.log + taken i s.log ≡ dropped i s.log + taken i r.1.log
      else (taken i r.1.log ≡ taken i s.log + owed s.slots 0 i)
        × (dropped i r.1.log ≡ dropped i s.log)

pub hold_all-HeldAll : (e : Env) (i : ℕ) (s : State) → HeldAll i s (rocket_devfreq_hold_all e s)
unfolding rocket_devfreq_hold_all
hold_all-HeldAll e i s = ground (arith, hold_from-Held e i 0 s.slots s (From-zero s.slots))

pub release_all-dropped :
    (i : ℕ) (s : State)
    → (dropped i (rocket_devfreq_release_all s).log ≡ dropped i s.log + owed s.slots 0 i)
      × (taken i (rocket_devfreq_release_all s).log ≡ taken i s.log)
unfolding rocket_devfreq_release_all
release_all-dropped i s =
    (release_from-dropped i s.slots 0 s.log, release_from-taken i s.slots 0 s.log)
