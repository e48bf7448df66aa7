-- ===== src/Figures.antt =====
-- The figures that `cdf_acktime` of HCMonitor/monitor.c has of the samples: `avg`, `goodputcnt` and
-- `sketch_delay`.
pub mod Histogram
pub mod Goodput
pub mod Report
mod Tests
use hcmonitor.Prelude.{
  ℕ, zero, suc, ◌+◌, ◌-◌, ◌/◌, ◌%◌, ◌^◌, pos, ◌==◌, if◌then◌else◌, update, Option, some, none, Bool,
}
use hcmonitor.Floats.{Floats}

-- `SASP` and `TLT`: how many intervals, and how many milliseconds they cover.
abbrev pub sasp : ℕ
sasp = 260

abbrev pub tlt : ℕ
tlt = 26

module _ (F : Floats) where
  -- The loop of `avg`: the sum of the first `n` samples.
  unfoldable pub sum_first : (ℕ → F.Float) → ℕ → F.Float
  sum_first a zero = F.of_int (pos 0)
  sum_first a (suc n) = F.add (sum_first a n) (a n)

  unfoldable pub avg : (ℕ → F.Float) → ℕ → F.Float
  avg a n = F.div (sum_first a n) (F.of_int (pos n))

  -- The loop of `goodputcnt`; `garbage` is what `good_cnt`, which is not initialised, holds before.
  unfoldable pub count_good : ℕ → (ℕ → F.Float) → ℕ → ℕ
  count_good garbage a zero = garbage
  count_good garbage a (suc n) =
      let before = count_good garbage a n in
      if F.lt (a n) (F.of_int (pos 50)) then (before + 1) % 2 ^ 32 else before

  -- `goodputcnt`; the division is one of unsigned ints, and `none` if it is by zero.
  unfoldable pub goodputcnt : ℕ → (ℕ → F.Float) → ℕ → Option F.Float
  goodputcnt garbage a n =
      if n == 0 then none else some (F.of_int (pos (count_good garbage a n / n)))

  -- `step * j`
  unfoldable pub edge : ℕ → F.Float
  edge j = F.mul (F.div (F.of_int (pos tlt)) (F.of_int (pos sasp))) (F.of_int (pos j))

  -- `a[i] < step * j`
  abbrev pub below : (ℕ → F.Float) → ℕ → ℕ → Bool
  below a i j = F.lt (a i) (edge j)

  -- The inner loop of `sketch_delay` for the interval before edge `suc b`, from sample `i` on with
  -- `left` to go: the next sample to look at, and the counts.
  unfoldable pub take_interval : (ℕ → F.Float) → ℕ → ℕ → ℕ → (ℕ → ℕ) → ℕ × (ℕ → ℕ)
  take_interval a b zero i cnt = (i, cnt)
  take_interval a b (suc left) i cnt =
      let rest = take_interval a b left (i + 1) (update cnt b (cnt b + 1)) in
      if below a i (suc b) then rest else (i, cnt)

  -- The outer loop for the first `j` intervals, on `n` samples.
  unfoldable pub intervals : (ℕ → F.Float) → ℕ → ℕ → (ℕ → ℕ) → ℕ × (ℕ → ℕ)
  intervals a n zero cnt = (0, cnt)
  intervals a n (suc j) cnt =
      let (i, counted) = intervals a n j cnt in take_interval a j (n - i) i counted

  -- `sketch_delay`: what `interval_cnt` then is.
  unfoldable pub sketch_delay : (ℕ → F.Float) → ℕ → (ℕ → ℕ) → ℕ → ℕ
  sketch_delay a n cnt = (intervals a n sasp cnt).1
