-- ===== src/Busy/Running.antt =====
-- Which counters run: what each call of the counters does to that.
use rk3588_npu_gpu.Base.{
  ℕ, zero, suc, ◌<◌, ◌≡◌, ◌≢◌, refl, ◌∙◌, Bool, true, false, not, Option, none, some, List, [], ◌∷◌,
  leb, ◌==◌, ltb, ap, get_elem?, modify, length, length-modify, if◌then◌else◌, if_both, arith,
}
use rk3588_npu_gpu.Busy.{
  Counter, Counters, rocket_df_max_nb, open_window, close_window, at_core,
  rocket_devfreq_record_busy, rocket_devfreq_record_idle, core_busy, core_read, scan, cores_read,
  rocket_devfreq_get_dev_status,
}

-- Whether the counter of core `k` runs.
abbrev pub runs_in : List Counter → ℕ → Bool
runs_in cs k = elim (get_elem? cs k) [ none ↦ false | some c ↦ not (c.start == 0) ]

abbrev pub runs : ℕ → Counters → Bool
runs k s = runs_in s.cores k

runs_in-modify_self :
    (f : Counter → Counter) (b : Bool) (k : ℕ) (cs : List Counter)
    → ((c : Counter) → not ((f c).start == 0) ≡ b)
    → k < length cs
    → runs_in (modify f k cs) k ≡ b
runs_in-modify_self f b k [] h p = absurd (omega arith)
runs_in-modify_self f b zero (c ∷ cs) h p = h c
runs_in-modify_self f b (suc k) (c ∷ cs) h p = runs_in-modify_self f b k cs h (omega arith)

runs_in-modify_other :
    (f : Counter → Counter) (i k : ℕ) (cs : List Counter)
    → i ≢ k
    → runs_in (modify f i cs) k ≡ runs_in cs k
runs_in-modify_other f i k [] n = refl
runs_in-modify_other f zero zero (c ∷ cs) n = absurd (n refl)
runs_in-modify_other f zero (suc k) (c ∷ cs) n = refl
runs_in-modify_other f (suc i) zero (c ∷ cs) n = refl
runs_in-modify_other f (suc i) (suc k) (c ∷ cs) n =
    runs_in-modify_other f i k cs (λ e. n (ap suc e))

open_window-runs : (now : ℕ) (c : Counter) → 0 < now → not ((open_window now c).start == 0) ≡ true
unfolding open_window
open_window-runs now c p = ground arith

close_window-runs : (now : ℕ) (c : Counter) → not ((close_window now c).start == 0) ≡ false
unfolding close_window
close_window-runs now c = ground arith

-- All four counters are there.
abbrev pub Sized : Counters → Type 0
Sized s = length s.cores ≡ rocket_df_max_nb

module _ (now k : ℕ) (s : Counters) where
  pub runs-record_busy :
      0 < now
      → k < rocket_df_max_nb
      → Sized s
      → let s' = rocket_devfreq_record_busy now (some k) s in (runs k s' ≡ true) × Sized s'
  unfolding rocket_devfreq_record_busy at_core
  runs-record_busy p q n =
      let inside : leb rocket_df_max_nb k ≡ false = ground arith in
      rw inside (
        runs_in-modify_self (open_window now) true k s.cores (λ c. open_window-runs now c p)
            (omega arith),
        length-modify (open_window now) k s.cores ∙ n,
      )

  pub runs-record_idle :
      k < rocket_df_max_nb
      → Sized s
      → let s' = rocket_devfreq_record_idle now (some k) s in (runs k s' ≡ false) × Sized s'
  unfolding rocket_devfreq_record_idle at_core
  runs-record_idle q n =
      let inside : leb rocket_df_max_nb k ≡ false = ground arith in
      rw inside (
        runs_in-modify_self (close_window now) false k s.cores (λ c. close_window-runs now c)
            (omega arith),
        length-modify (close_window now) k s.cores ∙ n,
      )

-- The calls for another core, whose counter is another one.
module _ (now i k : ℕ) (s : Counters) where
  pub runs-record_busy_other :
      i ≢ k
      → Sized s
      → let s' = rocket_devfreq_record_busy now (some i) s in (runs k s' ≡ runs k s) × Sized s'
  unfolding rocket_devfreq_record_busy at_core
  runs-record_busy_other d n =
      if_both {A = Counters} (λ s'. (runs k s' ≡ runs k s) × Sized s') (leb rocket_df_max_nb i)
        (refl, n)
        (
          runs_in-modify_other (open_window now) i k s.cores d,
          length-modify (open_window now) i s.cores ∙ n,
        )

  pub runs-record_idle_other :
      i ≢ k
      → Sized s
      → let s' = rocket_devfreq_record_idle now (some i) s in (runs k s' ≡ runs k s) × Sized s'
  unfolding rocket_devfreq_record_idle at_core
  runs-record_idle_other d n =
      if_both {A = Counters} (λ s'. (runs k s' ≡ runs k s) × Sized s') (leb rocket_df_max_nb i)
        (refl, n)
        (
          runs_in-modify_other (close_window now) i k s.cores d,
          length-modify (close_window now) i s.cores ∙ n,
        )

-- A read restarts the counters that run and no other.
core_read-runs :
    (now : ℕ) (c : Counter) → 0 < now → not ((core_read now c).start == 0) ≡ not (c.start == 0)
unfolding core_read
core_read-runs now c p = ground arith

scan-runs :
    (now n m k : ℕ) (cs : List Counter)
    → 0 < now
    → (runs_in (scan now n m cs).1 k ≡ runs_in cs k) × (length (scan now n m cs).1 ≡ length cs)
unfolding scan
scan-runs now zero m k cs p = (refl, refl)
scan-runs now (suc n) m k [] p = (refl, refl)
scan-runs now (suc n) m zero (c ∷ cs) p =
    let busy = core_busy now c in
    (core_read-runs now c p, ap suc (scan-runs now n (if ltb m busy then busy else m) 0 cs p).1)
scan-runs now (suc n) m (suc k) (c ∷ cs) p =
    let busy = core_busy now c in
    let rest = scan-runs now n (if ltb m busy then busy else m) k cs p in (rest.0, ap suc rest.1)

module _ (max_cores : Option ℕ) (rate now k : ℕ) (s : Counters) where
  pub runs-get_dev_status :
      0 < now
      → Sized s
      → let s' = (rocket_devfreq_get_dev_status max_cores rate now s).1 in
        (runs k s' ≡ runs k s) × Sized s'
  unfolding rocket_devfreq_get_dev_status
  runs-get_dev_status p n =
      let r = scan-runs now (cores_read max_cores) 0 k s.cores p in (r.0, r.1 ∙ n)
