-- ===== src/Widths/Sort/Laws.antt =====
-- `Quick` sorts.
use native.Mathlib.Decide.{dec_lt}
use hcmonitor.Prelude.{ℕ, zero, suc, ◌+◌, ◌-◌, ◌<◌, ◌≤◌, ◌≡◌, inl, inr, refl, ℤ, ◌≤ℤ◌, arith, some}
use hcmonitor.Widths.Sort.{part_sort, quick}
use hcmonitor.Widths.Sort.Range.{Rearranged, Rearranged-refl, Rearranged-trans, Rearranged-widen}
use hcmonitor.Widths.Sort.Partition.{Parted, part_sort-Parted}

-- The cells from `lo` to before `hi` ascend.
abbrev pub IsSorted : ℕ → ℕ → (ℕ → ℤ) → Type 0
IsSorted lo hi b = (i j : ℕ) → lo ≤ i → i < j → j < hi → b i ≤ℤ b j

-- A part that ascends between cells that bound it, on both sides of the pivot.
record Joined (lo mid hi : ℕ) (b : ℕ → ℤ) : Type 0 where
  lower : IsSorted lo mid b
  upper : IsSorted (mid + 1) hi b
  below : (i : ℕ) → lo ≤ i → i < mid → b i ≤ℤ b mid
  above : (i : ℕ) → mid < i → i < hi → b mid ≤ℤ b i

Joined-IsSorted : (lo mid hi : ℕ) (b : ℕ → ℤ) → Joined lo mid hi b → IsSorted lo hi b
Joined-IsSorted lo mid hi b s i j l lt u = elim (dec_lt j mid) [
  | yes p ↦ s.lower i j l lt p
  | no p ↦ elim (dec_lt mid i) [
    | yes q ↦ s.upper i j (omega (arith, q)) lt u
    | no q ↦ elim (dec_lt i mid) [
      | yes r ↦ elim (dec_lt mid j) [
        | yes t ↦ omega (arith, s.below i l r, s.above j t u)
        | no t ↦ let same : j ≡ mid = omega (arith, p, t) in rw same (s.below i l r)
      ]
      | no r ↦
          let same : i ≡ mid = omega (arith, q, r) in
          rw same (s.above j (omega (arith, same, lt)) u)
    ]
  ]
]

-- A bound on the cells of a range is one on the cells behind a rearrangement of it.
upper_bound :
    {lo hi : ℕ} {a b : ℕ → ℤ} (x : ℤ)
    → Rearranged lo hi a b
    → ((i : ℕ) → lo ≤ i → i < hi → a i ≤ℤ x)
    → (i : ℕ) → lo ≤ i
    → i < hi
    → b i ≤ℤ x
upper_bound x r h i l u = let (j, jl, ju, e) = r.source i l u in rw e (h j jl ju)

lower_bound :
    {lo hi : ℕ} {a b : ℕ → ℤ} (x : ℤ)
    → Rearranged lo hi a b
    → ((i : ℕ) → lo ≤ i → i < hi → x ≤ℤ a i)
    → (i : ℕ) → lo ≤ i
    → i < hi
    → x ≤ℤ b i
lower_bound x r h i l u = let (j, jl, ju, e) = r.source i l u in rw e (h j jl ju)

-- The two parts sorted, beside the pivot.
IsSorted-sides :
    (lo mid hi : ℕ) (a b c d : ℕ → ℤ) (tmp : ℤ)
    → Parted a lo hi tmp b mid
    → Rearranged lo mid b c
    → IsSorted lo mid c
    → Rearranged (mid + 1) hi c d
    → IsSorted (mid + 1) hi d
    → Rearranged lo hi a d × IsSorted lo hi d
IsSorted-sides lo mid hi a b c d tmp p rc sc rd sd =
    let cm = rc.outside mid (inr (omega arith)) in
    let dm = rd.outside mid (inl (omega arith)) in
    let keep = λ (i : ℕ) (lt : i < mid). rd.outside i (inl (omega (arith, lt))) in
    (
      Rearranged-trans p.rearranged (
          Rearranged-trans (Rearranged-widen (omega arith) (omega (arith, p.high)) rc)
            (Rearranged-widen (omega (arith, p.low)) (omega arith) rd)),
      Joined-IsSorted lo mid hi d (record {
        lower = λ i j l lt u. rw (keep i (omega (arith, lt, u)), keep j u) (sc i j l lt u);
        upper = sd;
        below = λ i l u.
            rw (keep i u, dm, cm) (upper_bound (b mid) rc (λ k kl ku. p.below k kl ku) i l u);
        above = λ i l u.
            rw (dm, cm)
              (lower_bound (b mid) rd
                (λ k kl ku. rw (rc.outside k (inr (omega arith))) (p.above k (omega arith) ku)) i
                (omega (arith, l)) u);
      }),
    )

-- What `Quick` does to the cells from `lo` to before `hi`, given the distance `d` from the first of
-- them to the last.
abbrev Sorts : ℕ → (ℕ → ℤ) → ℕ → ℕ → ℕ → Type 0
Sorts fuel arr lo d hi =
    (b : ℕ → ℤ) × (quick fuel arr lo d ≡ some b) × Rearranged lo hi arr b × IsSorted lo hi b

Sorts-at :
    (fuel : ℕ) (arr : ℕ → ℤ) (lo : ℕ) {d d' hi hi' : ℕ}
    → d ≡ d'
    → hi ≡ hi'
    → Sorts fuel arr lo d hi
    → Sorts fuel arr lo d' hi'
Sorts-at fuel arr lo {d} {d'} {hi} {hi'} e f s = rw (← e, ← f) s

-- At most one cell is sorted as it is.
Sorts-short : (fuel : ℕ) (arr : ℕ → ℤ) (lo hi : ℕ) → hi ≤ lo + 1 → Sorts fuel arr lo 0 hi
unfolding quick
Sorts-short fuel arr lo hi le =
    (arr, refl, Rearranged-refl lo hi arr, λ i j l lt u. absurd (omega (arith, l, lt, u, le)))

Sorts-sides :
    (fuel lo n mid : ℕ) (arr b : ℕ → ℤ)
    → part_sort arr lo (suc n) ≡ some (b, mid)
    → Parted arr lo (suc (lo + suc n)) (arr lo) b mid
    → Sorts fuel b lo (mid - 1 - lo) mid
    → ((c : ℕ → ℤ) → Sorts fuel c (mid + 1) (lo + suc n - (mid + 1)) (suc (lo + suc n)))
    → Sorts (suc fuel) arr lo (suc n) (suc (lo + suc n))
unfolding quick
Sorts-sides fuel lo n mid arr b e p (c, f, rc, sc) upper =
    let (d, g, rd, sd) = upper c in
    let (r, s) = IsSorted-sides lo mid (suc (lo + suc n)) arr b c d (arr lo) p rc sc rd sd in
    (d, rw (e, f, g, quick), r, s)

-- `Quick` on `n` cells from `first` on, with as much fuel as there are cells but one: it ends,
-- rearranges these cells and leaves the others, and they ascend.
pub quick-Sorts :
    (fuel : ℕ) (arr : ℕ → ℤ) (first n : ℕ)
    → n ≤ suc fuel
    → (b : ℕ → ℤ) × (quick fuel arr first (n - 1) ≡ some b)
      × Rearranged first (first + n) arr b
      × IsSorted first (first + n) b
quick-Sorts fuel arr first zero le = Sorts-short fuel arr first (first + 0) (omega arith)
quick-Sorts fuel arr first (suc zero) le = Sorts-short fuel arr first (first + 1) (omega arith)
quick-Sorts zero arr first (suc (suc n)) le = absurd (omega arith)
quick-Sorts (suc fuel) arr first (suc (suc n)) le =
    let (b, mid, e, p) = part_sort-Parted arr first (suc n) in
    Sorts-at (suc fuel) arr first (omega arith) (omega arith) (
      Sorts-sides fuel first n mid arr b e p
        (Sorts-at fuel b first (omega arith) (omega (arith, p.low))
          (quick-Sorts fuel b first (mid - first) (omega (arith, p.high))))
        (λ c. Sorts-at fuel c (mid + 1) (omega arith) (omega (arith, p.high)) (
          quick-Sorts fuel c (mid + 1) (first + suc (suc n) - (mid + 1))
            (omega (arith, p.low, le)))))
