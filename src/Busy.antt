-- ===== src/Busy.antt =====
-- The busy-time counters of npu/driver/rocket_devfreq.c, which the three places of rocket_job.c
-- that touch `in_flight_job` call, and the report that the governor reads. A time is a `ktime_t`
-- in nanoseconds; the time that a function reads with `ktime_get` is its argument `now`, and each
-- function is one critical section of `rocket_df_busy_lock`. A core is given by its index; `none`
-- is the null pointer.
pub mod Meters
pub mod Report
pub mod Races
pub mod Running
pub mod Examples
use rk3588_npu_gpu.Base.{
  ℕ, zero, suc, ◌+◌, ◌-◌, ◌%◌, ◌^◌, Option, none, some, List, [], ◌∷◌, ltb, leb, ◌==◌,
  if◌then◌else◌, modify, replicate,
}

abbrev pub rocket_df_max_nb : ℕ
rocket_df_max_nb = 4

-- u64 arithmetic, and `ktime_to_ns (ktime_sub (a, b))` stored in a u64.
abbrev pub u64 : ℕ → ℕ
u64 n = n % 2 ^ 64

abbrev pub ktime_sub : ℕ → ℕ → ℕ
ktime_sub a b = u64 (a + 2 ^ 64 - b)

-- One entry of `rocket_df_busy`: `start` is 0 while the core is not busy.
pub record Counter : Type 0 where
  pub start : ℕ
  pub busy_ns : ℕ

-- `rocket_df_busy` and `rocket_df_busy_last_read`.
pub record Counters : Type 0 where
  pub cores : List Counter
  pub last_read : ℕ

abbrev pub cleared : Counters
cleared = record {
  cores = replicate rocket_df_max_nb (record { start = 0; busy_ns = 0 });
  last_read = 0;
}

-- What `rocket_devfreq_init` does to them: the first window starts.
abbrev pub start_first_window : ℕ → Counters → Counters
start_first_window now s = record s { last_read = now }

-- The bodies of the two recorders, for the counter of one core.
pub open_window : ℕ → Counter → Counter
open_window now c = if c.start == 0 then record c { start = now } else c

pub close_window : ℕ → Counter → Counter
close_window now c =
    if c.start == 0
    then c
    else record { start = 0; busy_ns = u64 (c.busy_ns + ktime_sub now c.start) }

-- A null core, or an index past the array, changes nothing.
pub at_core : (Counter → Counter) → Option ℕ → Counters → Counters
at_core f none s = s
at_core f (some i) s = if leb rocket_df_max_nb i then s else record s { cores = modify f i s.cores }

pub rocket_devfreq_record_busy : ℕ → Option ℕ → Counters → Counters
rocket_devfreq_record_busy now = at_core (open_window now)

pub rocket_devfreq_record_idle : ℕ → Option ℕ → Counters → Counters
rocket_devfreq_record_idle now = at_core (close_window now)

-- The body of the loop of `rocket_devfreq_get_dev_status`: the time reported for one core, and the
-- counter after the read.
pub core_busy : ℕ → Counter → ℕ
core_busy now c = if c.start == 0 then c.busy_ns else u64 (c.busy_ns + ktime_sub now c.start)

pub core_read : ℕ → Counter → Counter
core_read now c =
    if c.start == 0 then record c { busy_ns = 0 } else record { start = now; busy_ns = 0 }

-- The loop over the first `n` cores, with `max_busy` so far.
pub scan : ℕ → ℕ → ℕ → List Counter → ℕ × List Counter
scan now zero max_busy cs = (max_busy, cs)
scan now (suc n) max_busy [] = (max_busy, [])
scan now (suc n) max_busy (c ∷ cs) =
    let busy = core_busy now c in
    let (m, rest) = scan now n (if ltb max_busy busy then busy else max_busy) cs in
    (m, core_read now c ∷ rest)

-- `struct devfreq_dev_status`
pub record Status : Type 0 where
  pub current_frequency : ℕ
  pub total_time : ℕ
  pub busy_time : ℕ

-- The number of counters read: none without an owner of the device.
pub cores_read : Option ℕ → ℕ
cores_read none = 0
cores_read (some max_cores) = if ltb rocket_df_max_nb max_cores then rocket_df_max_nb else max_cores

-- `max_cores` is that of the owner's device, `none` if there is no owner; `req_rate` is the rate on
-- record. The return value is always 0.
pub rocket_devfreq_get_dev_status : (max_cores : Option ℕ) → ℕ → ℕ → Counters → Status × Counters
unfolding cores_read
rocket_devfreq_get_dev_status max_cores req_rate now s =
    let (max_busy, cores) = scan now (cores_read max_cores) 0 s.cores in
    let window_ns = ktime_sub now s.last_read in
    let window_ns = if window_ns == 0 then 1 else window_ns in
    let max_busy = if ltb window_ns max_busy then window_ns else max_busy in
    (
      record { current_frequency = req_rate; total_time = window_ns; busy_time = max_busy },
      record { cores = cores; last_read = now },
    )
