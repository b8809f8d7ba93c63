-- ===== src/Busy/Meters.antt =====
-- An independent account of the busy time of a core: a meter that adds up the time that passes
-- while the core is on. The counters of rocket_devfreq.c agree with it as long as the times at
-- which the critical sections run do not fall.
use rk3588_npu_gpu.Base.{
  ℕ, zero, suc, ◌+◌, ◌-◌, ◌^◌, ◌≤◌, ◌<◌, ◌≡◌, ◌≢◌, Bool, true, false, List, [], ◌∷◌, arith,
  if◌then◌else◌, max, modify,
}
use rk3588_npu_gpu.Busy.{Counter, open_window, close_window, core_busy, core_read, scan}

-- `total` is the busy time up to time `at`, since the last read.
pub record Meter : Type 0 where
  pub on : Bool
  pub total : ℕ
  pub at : ℕ

abbrev pub advance : ℕ → Meter → Meter
advance t m = record { on = m.on; total = if m.on then m.total + (t - m.at) else m.total; at = t }

abbrev pub switch : Bool → ℕ → Meter → Meter
switch b t m = record (advance t m) { on = b }

abbrev pub reset : ℕ → Meter → Meter
reset t m = record (advance t m) { total = 0 }

-- The counter of a core and its meter, at a time not before the meter's.
pub record Agrees (now : ℕ) (c : Counter) (m : Meter) : Type 0 where
  pub past : m.at ≤ now
  pub room : m.total ≤ m.at
  pub small : now < 2 ^ 63
  pub begun : c.start ≤ m.at
  pub state : if m.on then c.start ≢ 0 else c.start ≡ 0
  pub amount : if m.on then c.busy_ns + (m.at - c.start) ≡ m.total else c.busy_ns ≡ m.total

module _ (t now : ℕ) (c : Counter) (m : Meter) where
  pub open_window-Agrees :
      Agrees t c m
      → t ≤ now
      → 0 < now
      → now < 2 ^ 63
      → Agrees now (open_window now c) (switch true now m)
  unfolding open_window
  open_window-Agrees a le p s = ground arith

  pub close_window-Agrees :
      Agrees t c m → t ≤ now → now < 2 ^ 63 → Agrees now (close_window now c) (switch false now m)
  unfolding close_window
  close_window-Agrees a le s = ground arith

  core_busy-Agrees : Agrees t c m → t ≤ now → now < 2 ^ 63 → core_busy now c ≡ (advance now m).total
  unfolding core_busy
  core_busy-Agrees a le s = ground arith

  core_read-Agrees :
      Agrees t c m → t ≤ now → 0 < now → now < 2 ^ 63 → Agrees now (core_read now c) (reset now m)
  unfolding core_read
  core_read-Agrees a le p s = ground arith

-- Every counter agrees with its meter.
abbrev pub AgreeAll : ℕ → List Counter → List Meter → Type 0
AgreeAll now [] [] = Unit {0}
AgreeAll now (c ∷ cs) (m ∷ ms) = Agrees now c m × AgreeAll now cs ms
AgreeAll now _ _ = ⊥

Agrees-later :
    {t now : ℕ} (c : Counter) (m : Meter) → Agrees t c m → t ≤ now → now < 2 ^ 63 → Agrees now c m
Agrees-later c m a le s = record {
  past = omega arith;
  room = a.room;
  small = s;
  begun = a.begun;
  state = a.state;
  amount = a.amount;
}

pub AgreeAll-later :
    {t now : ℕ} (cs : List Counter) (ms : List Meter)
    → AgreeAll t cs ms
    → t ≤ now
    → now < 2 ^ 63
    → AgreeAll now cs ms
AgreeAll-later [] [] a le s = tt
AgreeAll-later [] (m ∷ ms) a le s = absurd a
AgreeAll-later (c ∷ cs) [] a le s = absurd a
AgreeAll-later (c ∷ cs) (m ∷ ms) a le s = (Agrees-later c m a.0 le s, AgreeAll-later cs ms a.1 le s)

pub AgreeAll-modify :
    {t now : ℕ} (f : Counter → Counter) (g : Meter → Meter)
    → ((c : Counter) (m : Meter) → Agrees t c m → Agrees now (f c) (g m))
    → t ≤ now
    → now < 2 ^ 63
    → (i : ℕ) (cs : List Counter) (ms : List Meter) → AgreeAll t cs ms
    → AgreeAll now (modify f i cs) (modify g i ms)
AgreeAll-modify f g h le s i [] [] a = tt
AgreeAll-modify f g h le s i [] (m ∷ ms) a = absurd a
AgreeAll-modify f g h le s i (c ∷ cs) [] a = absurd a
AgreeAll-modify f g h le s zero (c ∷ cs) (m ∷ ms) a = (h c m a.0, AgreeAll-later cs ms a.1 le s)
AgreeAll-modify f g h le s (suc i) (c ∷ cs) (m ∷ ms) a =
    (Agrees-later c m a.0 le s, AgreeAll-modify f g h le s i cs ms a.1)

-- The largest busy time of the first `n` meters, brought up to `now`.
abbrev pub peak : ℕ → ℕ → List Meter → ℕ
peak now zero ms = 0
peak now (suc n) [] = 0
peak now (suc n) (m ∷ ms) = max (advance now m).total (peak now n ms)

abbrev pub reset_first : ℕ → ℕ → List Meter → List Meter
reset_first now zero ms = ms
reset_first now (suc n) [] = []
reset_first now (suc n) (m ∷ ms) = reset now m ∷ reset_first now n ms

pub scan-peak :
    (t now n acc : ℕ) (cs : List Counter) (ms : List Meter)
    → AgreeAll t cs ms
    → t ≤ now
    → now < 2 ^ 63
    → (scan now n acc cs).0 ≡ max acc (peak now n ms)
unfolding scan
scan-peak t now zero acc cs ms a le s = omega arith
scan-peak t now (suc n) acc [] [] a le s = omega arith
scan-peak t now (suc n) acc [] (m ∷ ms) a le s = absurd a
scan-peak t now (suc n) acc (c ∷ cs) [] a le s = absurd a
scan-peak t now (suc n) acc (c ∷ cs) (m ∷ ms) a le s =
    let busy = core_busy now c in
    ground (
      arith,
      core_busy-Agrees t now c m a.0 le s,
      scan-peak t now n busy cs ms a.1 le s,
      scan-peak t now n acc cs ms a.1 le s,
    )

pub scan-AgreeAll :
    (t now n acc : ℕ) (cs : List Counter) (ms : List Meter)
    → AgreeAll t cs ms
    → t ≤ now
    → 0 < now
    → now < 2 ^ 63
    → AgreeAll now (scan now n acc cs).1 (reset_first now n ms)
unfolding scan
scan-AgreeAll t now zero acc cs ms a le p s = AgreeAll-later cs ms a le s
scan-AgreeAll t now (suc n) acc [] [] a le p s = tt
scan-AgreeAll t now (suc n) acc [] (m ∷ ms) a le p s = absurd a
scan-AgreeAll t now (suc n) acc (c ∷ cs) [] a le p s = absurd a
scan-AgreeAll t now (suc n) acc (c ∷ cs) (m ∷ ms) a le p s =
    (core_read-Agrees t now c m a.0 le p s, scan-AgreeAll t now n _ cs ms a.1 le p s)
