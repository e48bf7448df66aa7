-- ===== src/Widths/Compute.antt =====
-- `compute_data` of pcap_analyse/burst_width.c: the sorted gaps and the width of a group.
use native.Mathlib.Decide.{ℕ_discrete, dec_le}
use std.Path.{fun_ext}
use mathlib.Core.Path.{subst}
use hcmonitor.Prelude.{
  ltb, leb, Bool-cases, true, false, if◌then◌else◌, ℕ, zero, suc, ◌+◌, ◌-◌, ◌*◌, ◌/◌, ◌<◌, ◌≤◌, ◌≡◌,
  ◌⊎◌, inl, inr, refl, ◌∙◌, ℤ, pos, ◌+ℤ◌, ◌-ℤ◌, arith, some, update_self, update_ne,
}
use hcmonitor.Split.{thousandth}
use hcmonitor.Widths.{TimeVal, BurstPkts, pkt_num, ok, exit, fault, fill_gaps, width_of, sort_gaps}
use hcmonitor.Widths.Sort.Range.{Rearranged}
use hcmonitor.Widths.Sort.Laws.{IsSorted, quick-Sorts}

-- A gap between two packets of a group.
abbrev pub gap : (ℕ → TimeVal) → ℕ → ℤ
gap ts j = (ts (j + 1)).tv_usec -ℤ (ts j).tv_usec

fill_gaps_below :
    (rounds j : ℕ) (ts : ℕ → TimeVal) (gaps : ℕ → ℤ) (i : ℕ)
    → i < j
    → fill_gaps rounds j ts gaps i ≡ gaps i
unfolding fill_gaps
fill_gaps_below zero j ts gaps i lt = refl
fill_gaps_below (suc rounds) j ts gaps i lt =
    fill_gaps_below rounds (j + 1) ts _ i (omega arith)
    ∙ update_ne gaps j i _ (λ e. omega (arith, e))

fill_gaps_within :
    (rounds j : ℕ) (ts : ℕ → TimeVal) (gaps : ℕ → ℤ) (i : ℕ)
    → j ≤ i
    → i < j + rounds
    → fill_gaps rounds j ts gaps i ≡ gap ts i
unfolding fill_gaps
fill_gaps_within zero j ts gaps i le lt = absurd (omega arith)
fill_gaps_within (suc rounds) j ts gaps i le lt = elim (ℕ_discrete j i) [
  | yes e ↦
      rw (← e) (fill_gaps_below rounds (j + 1) ts _ j (omega arith) ∙ update_self gaps j (gap ts j))
  | no ne ↦ fill_gaps_within rounds (j + 1) ts _ i (omega (arith, ne)) (omega arith)
]

fill_gaps_beyond :
    (rounds j : ℕ) (ts : ℕ → TimeVal) (gaps : ℕ → ℤ) (i : ℕ)
    → j + rounds ≤ i
    → fill_gaps rounds j ts gaps i ≡ gaps i
unfolding fill_gaps
fill_gaps_beyond zero j ts gaps i le = refl
fill_gaps_beyond (suc rounds) j ts gaps i le =
    fill_gaps_beyond rounds (j + 1) ts _ i (omega (arith, le))
    ∙ update_ne gaps j i _ (λ e. omega (arith, e, le))

-- The gaps of a group between its packets, and what stands in the cells behind them.
abbrev pub gaps_of : BurstPkts → ℕ → ℤ
gaps_of b j = if ltb (j + 1) b.len then gap b.ts j else b.gaps j

fill_gaps-gaps_of : (b : BurstPkts) → fill_gaps (b.len - 1) 0 b.ts b.gaps ≡ gaps_of b
fill_gaps-gaps_of b = fun_ext (λ j. elim (Bool-cases (ltb (j + 1) b.len)) [
  | inl e ↦ rw e (fill_gaps_within (b.len - 1) 0 b.ts b.gaps j (omega arith) (ground (arith, e)))
  | inr e ↦ rw e (fill_gaps_beyond (b.len - 1) 0 b.ts b.gaps j (ground (arith, e)))
])

-- The sort of the gaps of group `i` ends. Where the cells from `i` to before `i + len` are within the
-- million of the array, it rearranges these cells, of which those before `len - 1` hold the gaps
-- of the packets and those from there on what stood in them, and leaves all others; behind it
-- they ascend. Otherwise it runs outside the array.
pub sort_gaps-IsSorted :
    (i : ℕ) (b : BurstPkts)
    → (i + b.len ≤ pkt_num
        → (after : ℕ → ℤ) × (sort_gaps i b ≡ some (ok after))
          × Rearranged i (i + b.len) (gaps_of b) after
          × IsSorted i (i + b.len) after)
      × (pkt_num < i + b.len → sort_gaps i b ≡ some fault)
unfolding sort_gaps
sort_gaps-IsSorted i b =
    let (after, e, r, s) =
      quick-Sorts b.len (fill_gaps (b.len - 1) 0 b.ts b.gaps) i b.len (omega arith) in
    (
      λ le.
          let inside : leb (i + b.len) pkt_num ≡ true = ground (arith, le) in
          (
            after,
            rw (inside, e) refl,
            subst (λ a. Rearranged i (i + b.len) a after) (fill_gaps-gaps_of b) r,
            s,
          ),
      λ lt. let beyond : leb (i + b.len) pkt_num ≡ false = ground (arith, lt) in rw beyond refl,
    )

-- Two times, as the code compares them.
abbrev pub time_at : ℕ → ℕ → TimeVal
time_at s u = record { tv_sec = pos s; tv_usec = pos u }

width_of-same :
    (s u u' : ℕ) → u ≤ u' → width_of (time_at s u) (time_at s u') ≡ ok (pos ((u' - u) / 1000))
unfolding width_of thousandth ◌-ℤ◌ ◌+ℤ◌
width_of-same s u u' le = ground arith

width_of-next :
    (s u u' : ℕ)
    → u' ≤ u
    → u < 1000000
    → width_of (time_at s u) (time_at (s + 1) u') ≡ ok (pos (1000 - (u - u') / 1000))
unfolding width_of thousandth ◌-ℤ◌ ◌+ℤ◌
width_of-next s u u' le lt = ground arith

width_of-outside :
    (s s' u u' : ℕ)
    → ((s' ≡ s) × (u ≤ u') → ⊥)
    → ((s' ≡ s + 1) × (u' ≤ u) → ⊥)
    → width_of (time_at s u) (time_at s' u') ≡ exit
unfolding width_of thousandth ◌-ℤ◌ ◌+ℤ◌
width_of-outside s s' u u' a b = ground arith

-- For times with fewer than a million microseconds: either the width is within a millisecond of the
-- time between the two, which is not negative; or the process ends, and the second time is before
-- the first or more than a second behind it.
pub width_of-bounds :
    (s s' u u' : ℕ)
    → u < 1000000
    → u' < 1000000
    → let a = s * 1000000 + u in
      let b = s' * 1000000 + u' in
      ((w : ℕ) × (width_of (time_at s u) (time_at s' u') ≡ ok (pos w))
        × (a ≤ b)
        × (b < a + w * 1000 + 1000)
        × (a + w * 1000 < b + 1000))
      ⊎ ((width_of (time_at s u) (time_at s' u') ≡ exit) × ((b < a) ⊎ (a + 1000000 < b)))
width_of-bounds s s' u u' lt lt' = elim (ℕ_discrete s' s) [
  | yes e ↦ elim (dec_le u u') [
    | yes le ↦
        inl ((u' - u) / 1000, rw e (width_of-same s u u' le), omega arith, omega arith, omega arith)
    | no gt ↦
        inr
          (width_of-outside s s' u u' (λ p. gt p.1) (λ p. omega (arith, e, p.0)), inl (omega arith))
  ]
  | no ne ↦ elim (ℕ_discrete s' (s + 1)) [
    | yes e ↦ elim (dec_le u' u) [
      | yes le ↦ inl (
        1000 - (u - u') / 1000,
        rw e (width_of-next s u u' le lt),
        omega arith,
        omega arith,
        omega arith,
      )
      | no gt ↦ inr (width_of-outside s s' u u' (λ p. ne p.0) (λ p. gt p.1), inr (omega arith))
    ]
    | no far ↦ inr (
      width_of-outside s s' u u' (λ p. ne p.0) (λ p. far p.0),
      elim (dec_le s s') [
        | yes p ↦ inr (omega (arith, ne, far, p))
        | no p ↦ inl (omega (arith, p))
      ],
    )
  ]
]
