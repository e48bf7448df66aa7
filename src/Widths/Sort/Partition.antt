-- ===== src/Widths/Sort/Partition.antt =====
-- `PartSort`: behind it no value before the pivot is greater than it, and none after it smaller.
use native.Mathlib.Decide.{dec_le, ℕ_discrete}
use hcmonitor.Prelude.{
  ℕ, zero, suc, ◌+◌, ◌<◌, ◌≤◌, ◌≡◌, ◌≢◌, ◌⊎◌, inl, inr, refl, ◌∙◌, ℤ, ◌≤ℤ◌, update, update_self,
  update_ne, arith, some,
}
use hcmonitor.Widths.Sort.{scan_down, scan_up, part_round, part_loop, part_sort}
use hcmonitor.Widths.Sort.Range.{count, one_if, count-update, Rearranged}
use hcmonitor.Widths.Sort.Scan.{scan_down-Down, scan_up-Up, scan_up_moves}

-- The values of `a`, but for the pivot, whose place is the hole.
record Holed (a : ℕ → ℤ) (lo hi : ℕ) (tmp : ℤ) (arr : ℕ → ℤ) (hole : ℕ) : Type 0 where
  counts :
      (v : ℤ) (n : ℕ) → hi ≤ n → count v arr n + one_if tmp v ≡ count v a n + one_if (arr hole) v
  outside : (i : ℕ) → (i < lo) ⊎ (hi ≤ i) → arr i ≡ a i
  source : (i : ℕ) → lo ≤ i → i < hi → (j : ℕ) × (lo ≤ j) × (j < hi) × (arr i ≡ a j)
  pivot : (j : ℕ) × (lo ≤ j) × (j < hi) × (tmp ≡ a j)

module _ (a : ℕ → ℤ) (lo hi : ℕ) (tmp : ℤ) where
  -- A value moves into the hole, and leaves one.
  Holed-move :
      (arr : ℕ → ℤ) (hole p : ℕ)
      → lo ≤ hole
      → hole < hi
      → lo ≤ p
      → p < hi
      → Holed a lo hi tmp arr hole
      → Holed a lo hi tmp (update arr hole (arr p)) p
  Holed-move arr hole p hl hu pl pu s = record {
    counts = λ v n lt.
        let same : update arr hole (arr p) p ≡ arr p = ground arith in
        rw same (omega (arith, count-update v arr n hole (arr p) (omega arith), s.counts v n lt));
    outside = λ i o.
        let ne : hole ≢ i = λ e. elim o [ inl l ↦ omega arith | inr l ↦ omega arith ] in
        update_ne arr hole i (arr p) ne ∙ s.outside i o;
    source = λ i l u. elim (ℕ_discrete hole i) [
      | yes e ↦
          let (j, jl, ju, f) = s.source p pl pu in
          (j, jl, ju, rw (← e) (update_self arr hole (arr p)) ∙ f)
      | no ne ↦
          let (j, jl, ju, f) = s.source i l u in (j, jl, ju, update_ne arr hole i (arr p) ne ∙ f)
    ];
    pivot = s.pivot;
  }

  -- The pivot fills the hole.
  Holed-fill :
      (arr : ℕ → ℤ) (hole : ℕ)
      → lo ≤ hole
      → hole < hi
      → Holed a lo hi tmp arr hole
      → Rearranged lo hi a (update arr hole tmp)
  Holed-fill arr hole hl hu s = record {
    counts = λ v n lt. omega (arith, count-update v arr n hole tmp (omega arith), s.counts v n lt);
    outside = λ i o.
        let ne : hole ≢ i = λ e. elim o [ inl l ↦ omega arith | inr l ↦ omega arith ] in
        update_ne arr hole i tmp ne ∙ s.outside i o;
    source = λ i l u. elim (ℕ_discrete hole i) [
      | yes e ↦ let (j, jl, ju, f) = s.pivot in (j, jl, ju, rw (← e) (update_self arr hole tmp) ∙ f)
      | no ne ↦ let (j, jl, ju, f) = s.source i l u in (j, jl, ju, update_ne arr hole i tmp ne ∙ f)
    ];
  }

  -- Between two rounds: what lies before `first` is small, and what lies behind the distance great.
  record Parting (arr : ℕ → ℤ) (first d : ℕ) : Type 0 where
    low : lo ≤ first
    high : first + d < hi
    below : (i : ℕ) → lo ≤ i → i < first → arr i ≤ℤ tmp
    above : (i : ℕ) → first + d < i → i < hi → tmp ≤ℤ arr i
    holed : Holed a lo hi tmp arr first

  part_round-Parting :
      (arr : ℕ → ℤ) (first d : ℕ)
      → Parting arr first (suc d)
      → let r = part_round arr tmp first (suc d) in Parting r.0 r.1 r.2 × (r.2 ≤ d)
  unfolding part_round
  part_round-Parting arr first d s =
      let d' = scan_down arr tmp first (suc d) in
      let dn = scan_down-Down arr tmp first (suc d) in
      let end = first + d' in
      let lower = update arr first (arr end) in
      let f' = (scan_up lower tmp first d').0 in
      let e' = (scan_up lower tmp first d').1 in
      let up = scan_up-Up lower tmp first d' in
      let bound : end < hi = omega (arith, dn.le, s.high) in
      let h1 =
        Holed-move arr first end s.low (omega (arith, bound)) (omega (arith, s.low)) bound
          s.holed in
      let h2 =
        Holed-move lower end f' (omega (arith, s.low)) bound (omega (arith, s.low, up.le))
          (omega (arith, up.sum, bound)) h1 in
      (
        record {
          low = omega (arith, s.low, up.le);
          high = omega (arith, up.sum, bound);
          below = λ i l u.
              let apart : end ≢ i = λ e. omega (arith, up.sum, e, u) in
              rw (update_ne lower end i (lower f') apart) (elim (dec_le first i) [
                | yes p ↦ up.passed i p u
                | no p ↦
                    rw (update_ne arr first i (arr end) (λ e. omega (arith, e, p)))
                      (s.below i l (omega (arith, p)))
              ]);
          above = λ i l u.
              let far : end < i = omega (arith, up.sum, l) in
              rw
                (
                  update_ne lower end i (lower f') (λ e. omega (arith, e, far)),
                  update_ne arr first i (arr end) (λ e. omega (arith, e, far)),
                )
                (elim (dec_le i (first + suc d)) [
                  | yes p ↦ dn.passed i far p
                  | no p ↦ s.above i (omega (arith, p)) u
                ]);
          holed = h2;
        },
        elim dn.stopped [
          | inl z ↦ omega (arith, up.sum, up.le, z)
          | inr small ↦
              let head : lower first ≡ arr end = update_self arr first (arr end) in
              elim (scan_up_moves lower tmp first d' (rw head (ground (arith, small)))) [
                | inl z ↦ omega (arith, up.sum, up.le, z)
                | inr lt ↦ omega (arith, dn.le, lt)
              ]
        ],
      )

  -- The pivot in its place.
  pub record Parted (b : ℕ → ℤ) (mid : ℕ) : Type 0 where
    pub rearranged : Rearranged lo hi a b
    pub low : lo ≤ mid
    pub high : mid < hi
    pub below : (i : ℕ) → lo ≤ i → i < mid → b i ≤ℤ b mid
    pub above : (i : ℕ) → mid < i → i < hi → b mid ≤ℤ b i

  part_loop-Parted :
      (fuel : ℕ) (arr : ℕ → ℤ) (first d : ℕ)
      → d ≤ fuel
      → Parting arr first d
      → (b : ℕ → ℤ) × (mid : ℕ) × (part_loop fuel arr tmp first d ≡ some (b, mid)) × Parted b mid
  unfolding part_loop
  part_loop-Parted fuel arr first zero le s =
      let b = update arr first tmp in
      let here = update_self arr first tmp in
      (
        b,
        first,
        refl,
        record {
          rearranged = Holed-fill arr first s.low (omega (arith, s.high)) s.holed;
          low = s.low;
          high = omega (arith, s.high);
          below = λ i l u.
              rw (here, update_ne arr first i tmp (λ e. omega (arith, e, u))) (s.below i l u);
          above = λ i l u.
              rw (here, update_ne arr first i tmp (λ e. omega (arith, e, l)))
                (s.above i (omega arith) u);
        },
      )
  part_loop-Parted zero arr first (suc d) le s = absurd (omega arith)
  part_loop-Parted (suc fuel) arr first (suc d) le s =
      let r = part_round arr tmp first (suc d) in
      let (s', fell) = part_round-Parting arr first d s in
      part_loop-Parted fuel r.0 r.1 r.2 (omega (arith, fell)) s'

pub part_sort-Parted :
    (arr : ℕ → ℤ) (first d : ℕ)
    → (b : ℕ → ℤ) × (mid : ℕ) × (part_sort arr first d ≡ some (b, mid))
      × Parted arr first (suc (first + d)) (arr first) b mid
unfolding part_sort
part_sort-Parted arr first d =
    part_loop-Parted arr first (suc (first + d)) (arr first) d arr first d (omega arith) (record {
      low = omega arith;
      high = omega arith;
      below = λ i l u. absurd (omega arith);
      above = λ i l u. absurd (omega arith);
      holed = record {
        counts = λ v n lt. refl;
        outside = λ i o. refl;
        source = λ i l u. (i, l, u, refl);
        pivot = (first, omega arith, omega arith, refl);
      };
    })
