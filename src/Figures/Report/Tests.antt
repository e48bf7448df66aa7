-- ===== src/Figures/Report/Tests.antt =====
-- The report of four samples.
use hcmonitor.Prelude.{ℕ, ◌*◌, ◌-◌, ◌+ℤ◌, ◌-ℤ◌, ◌*ℤ◌, ◌≡◌, refl, pos, arith, ℤ, true, some, map}
use hcmonitor.Floats.Fixed.{fixed, quotient, above}
use hcmonitor.Monitor.Online.{Areas}
use hcmonitor.Figures.Report.{u_table, fraction, rank, comp_inc, CdfLine, Report, report}
use hcmonitor.Figures.Report.Insertion.{insertion, insertion-Sorts}
use hcmonitor.Figures.Report.Lines.{IsSized}
use hcmonitor.Figures.Report.Laws.{sizes, AreApart, AreRight, report-AreRight}

abbrev samples : ℕ → ℤ
samples i = pos (4000000 - i * 1000000)

abbrev areas : Areas fixed
areas = record {
  ack_pri_high = samples;
  ack_pri_low = λ _. pos 0;
  ph_size = 8;
  pl_size = 8;
  num_high = 4;
  num_low = 0;
}

sized : IsSized fixed (sizes fixed insertion insertion-Sorts samples 4 areas 8) u_table
unfolding rank fraction quotient above ◌+ℤ◌ ◌*ℤ◌ ◌-ℤ◌
sized = omega arith

apart : AreApart fixed insertion insertion-Sorts samples 4 areas
unfolding comp_inc
apart = record {
  all = λ i k li lk ne. ground (arith, li, lk, ne);
  high = λ i k li lk ne. ground (arith, li, lk, ne);
  low = λ i k li lk ne. absurd (omega (arith, li));
}

report-AreRight_example :
    (r : Report fixed) × (report fixed insertion
        (λ conn _. conn)
        true
        (λ _. pos 0)
        0
        7
        5
        true
        8
        samples
        4
        areas
        (λ _. 0)
      ≡ some r)
    × (map (λ (l : CdfLine fixed). l.u) r.lines ≡ map (fraction fixed) u_table)
    × AreRight fixed insertion insertion-Sorts samples 4 areas true 0 r.lines
unfolding fraction quotient ◌*ℤ◌
report-AreRight_example =
    report-AreRight fixed insertion insertion-Sorts (λ conn _. conn) true (λ _. pos 0) 0 7 5 true 8
      samples 4 areas (λ _. 0) sized apart
      (
        refl,
        (
          refl,
          (
            refl,
            (
              refl,
              (refl, (refl, (refl, (refl, (refl, (refl, (refl, (refl, (refl, (refl, tt)))))))))),
            ),
          ),
        ),
      )
      refl
