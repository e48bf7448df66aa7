-- ===== src/Figures/Tests.antt =====
-- Three samples, of 0, 0.06 and 0.12 milliseconds.
use hcmonitor.Prelude.{
  ℕ, suc, ◌+◌, ◌*◌, ◌/◌, ◌%◌, ◌^◌, ◌<◌, ◌≤◌, ◌≡◌, refl, arith, ℤ, pos, negsuc, ◌*ℤ◌, ltb_ℤ, true,
  some,
}
use hcmonitor.Floats.Fixed.{fixed, quotient}
use hcmonitor.Figures.{sasp, edge, goodputcnt, sketch_delay}
use hcmonitor.Figures.Histogram.{tally, passed, in_interval, sketch_delay-tally}
use hcmonitor.Figures.Goodput.{goodputcnt-tally}

abbrev samples : ℕ → ℤ
samples i = pos (i * 60000)

sorted : (i k : ℕ) (x : ℤ) → i ≤ k → k < 3 → ltb_ℤ (samples k) x ≡ true → ltb_ℤ (samples i) x ≡ true
sorted i k (pos x) le lt e = ground (arith, le, e)
sorted i k (negsuc x) le lt e = ground (arith, e)

rising : (x : ℤ) (j : ℕ) → ltb_ℤ x (edge fixed j) ≡ true → ltb_ℤ x (edge fixed (suc j)) ≡ true
unfolding edge quotient ◌*ℤ◌
rising (pos x) j e = ground (arith, e)
rising (negsuc x) j e = ground (arith, e)

sketch_delay-tally_example :
    ((b : ℕ)
      → b < sasp
      → sketch_delay fixed samples 3 (λ _. 0) b ≡ 0 + tally 3 (in_interval fixed samples b))
    × ((b : ℕ) → sasp ≤ b → sketch_delay fixed samples 3 (λ _. 0) b ≡ 0)
sketch_delay-tally_example = sketch_delay-tally fixed samples 3 sorted rising (λ _. 0)

-- Two samples are below a tenth of a millisecond.
two_and_one :
    (tally 3 (in_interval fixed samples 0) ≡ 2) × (tally 3 (in_interval fixed samples 1) ≡ 1)
unfolding tally in_interval passed edge quotient ◌*ℤ◌
two_and_one = (refl, refl)

-- The counter begins with 7; the first of the three samples is below 50 milliseconds.
goodputcnt-tally_example :
    goodputcnt fixed 7 samples 3
    ≡ some (
        fixed.of_int
          (pos ((7 + tally 3 (λ i. fixed.lt (samples i) (fixed.of_int (pos 50)))) % 2 ^ 32 / 3)))
goodputcnt-tally_example = goodputcnt-tally fixed 7 samples 3 (omega arith) (omega arith)
