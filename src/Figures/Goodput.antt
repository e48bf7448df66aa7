-- ===== src/Figures/Goodput.antt =====
-- What `goodputcnt` of HCMonitor/monitor.c returns, whatever its counter begins with.
use hcmonitor.Prelude.{
  ℕ, zero, suc, ◌+◌, ◌/◌, ◌%◌, ◌^◌, ◌<◌, ◌≡◌, refl, arith, pos, ◌==◌, some, false,
}
use hcmonitor.Floats.{Floats}
use hcmonitor.Figures.{count_good, goodputcnt}
use hcmonitor.Figures.Histogram.{tally}

module _ (F : Floats) (garbage : ℕ) (a : ℕ → F.Float) where
  count_good-tally :
      (n : ℕ)
      → garbage < 2 ^ 32
      → count_good F garbage a n
        ≡ (garbage + tally n (λ i. F.lt (a i) (F.of_int (pos 50)))) % 2 ^ 32
  unfolding count_good tally
  count_good-tally zero lt = omega (arith, lt)
  count_good-tally (suc n) lt = ground (arith, count_good-tally n lt)

  -- Of at least one sample, and whatever stands in the counter, which is not initialised: the share
  -- that is returned is what stands there and the number of samples below 50 milliseconds, modulo
  -- 2 ^ 32, divided by the number of samples without a remainder.
  pub goodputcnt-tally :
      (n : ℕ)
      → 0 < n
      → garbage < 2 ^ 32
      → goodputcnt F garbage a n
        ≡ some (
            F.of_int (pos ((garbage + tally n (λ i. F.lt (a i) (F.of_int (pos 50)))) % 2 ^ 32 / n)))
  unfolding goodputcnt
  goodputcnt-tally n lt small =
      let some_sample : (n == 0) ≡ false = ground (arith, lt) in
      rw (some_sample, goodputcnt, count_good-tally n small) refl
