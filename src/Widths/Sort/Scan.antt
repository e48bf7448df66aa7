-- ===== src/Widths/Sort/Scan.antt =====
-- The two scans of `PartSort`.
use native.Mathlib.Decide.{dec_le}
use hcmonitor.Prelude.{
  ℕ, zero, suc, ◌+◌, ◌<◌, ◌≤◌, ◌≡◌, ◌⊎◌, inl, inr, refl, ℤ, ◌≤ℤ◌, ltb_ℤ, arith, Bool-cases, true,
  false,
}
use hcmonitor.Widths.Sort.{scan_down, scan_up}

-- Where `scan_down` stops.
pub record Down (arr : ℕ → ℤ) (tmp : ℤ) (first d e : ℕ) : Type 0 where
  pub le : e ≤ d
  pub passed : (i : ℕ) → first + e < i → i ≤ first + d → tmp ≤ℤ arr i
  pub stopped : (e ≡ 0) ⊎ (ltb_ℤ (arr (first + e)) tmp ≡ true)

pub scan_down-Down :
    (arr : ℕ → ℤ) (tmp : ℤ) (first d : ℕ) → Down arr tmp first d (scan_down arr tmp first d)
unfolding scan_down
scan_down-Down arr tmp first zero = record {
  le = omega arith;
  passed = λ i l u. absurd (omega arith);
  stopped = inl refl;
}
scan_down-Down arr tmp first (suc d) = elim (Bool-cases (ltb_ℤ (arr (first + suc d)) tmp)) [
  | inl e ↦
      rw e (record { le = omega arith; passed = λ i l u. absurd (omega arith); stopped = inr e })
  | inr e ↦
      let r = scan_down-Down arr tmp first d in
      rw e (record {
        le = omega (arith, r.le);
        passed = λ i l u. elim (dec_le i (first + d)) [
          | yes p ↦ r.passed i l p
          | no p ↦ let same : i ≡ first + suc d = omega arith in rw same (ground (arith, e))
        ];
        stopped = r.stopped;
      })
]

-- Where `scan_up` stops.
pub record Up (arr : ℕ → ℤ) (tmp : ℤ) (first d f e : ℕ) : Type 0 where
  pub sum : f + e ≡ first + d
  pub le : first ≤ f
  pub passed : (i : ℕ) → first ≤ i → i < f → arr i ≤ℤ tmp

pub scan_up-Up :
    (arr : ℕ → ℤ) (tmp : ℤ) (first d : ℕ)
    → Up arr tmp first d (scan_up arr tmp first d).0 (scan_up arr tmp first d).1
unfolding scan_up
scan_up-Up arr tmp first zero = record {
  sum = refl;
  le = omega arith;
  passed = λ i l u. absurd (omega arith);
}
scan_up-Up arr tmp first (suc d) = elim (Bool-cases (ltb_ℤ tmp (arr first))) [
  | inl e ↦ rw e (record { sum = refl; le = omega arith; passed = λ i l u. absurd (omega arith) })
  | inr e ↦
      let r = scan_up-Up arr tmp (first + 1) d in
      rw e (record {
        sum = omega (arith, r.sum);
        le = omega (arith, r.le);
        passed = λ i l u. elim (dec_le (first + 1) i) [
          | yes p ↦ r.passed i p u
          | no p ↦ let same : i ≡ first = omega arith in rw same (ground (arith, e))
        ];
      })
]

-- A value that may be passed is passed.
pub scan_up_moves :
    (arr : ℕ → ℤ) (tmp : ℤ) (first d : ℕ)
    → ltb_ℤ tmp (arr first) ≡ false
    → (d ≡ 0) ⊎ ((scan_up arr tmp first d).1 < d)
unfolding scan_up
scan_up_moves arr tmp first zero e = inl refl
scan_up_moves arr tmp first (suc d) e =
    let up = scan_up-Up arr tmp (first + 1) d in inr (rw e (omega (arith, up.sum, up.le)))
