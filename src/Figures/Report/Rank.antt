-- ===== src/Figures/Report/Rank.antt =====
-- The sample of rank `r` of a sorted array is the r-th smallest.
use hcmonitor.Prelude.{
  ℕ, zero, suc, ◌-◌, ◌<◌, ◌≤◌, ◌≡◌, ◌≢◌, ◌↔◌, pos, negsuc, refl, arith, not, Bool, true, false,
  dec_lt,
}
use hcmonitor.Floats.{Floats}
use hcmonitor.Figures.Histogram.{tally}
use hcmonitor.Figures.Report.{comp_inc}

-- The comparison of the first `n` samples is consistent, as the C standard asks: of two, one way round
-- tells the opposite of the other way round. It is not where two are equal.
abbrev pub IsConsistent : (F : Floats) → (ℕ → F.Float) → ℕ → Type 0
IsConsistent F a n =
    (i k : ℕ)
    → i < n
    → k < n
    → i ≢ k
    → (comp_inc F (a i) (a k) ≡ pos 1) ↔ (comp_inc F (a k) (a i) ≡ negsuc 0)

-- What the C standard says of `qsort` with `compInc`, where that is consistent: the array behind it is
-- a rearrangement, stated by what passes any test, in which no later entry is below an earlier one.
pub record Sorts (F : Floats) (qsort : (ℕ → F.Float) → ℕ → ℕ → F.Float) : Type 0 where
  pub rearranges :
      (a : ℕ → F.Float) (n : ℕ) (p : F.Float → Bool)
      → IsConsistent F a n
      → tally n (λ k. p (qsort a n k)) ≡ tally n (λ k. p (a k))
  pub ascends :
      (a : ℕ → F.Float) (n i k : ℕ)
      → IsConsistent F a n
      → i ≤ k
      → k < n
      → F.lt (qsort a n k) (qsort a n i) ≡ false

tally_bound : (n : ℕ) (p : ℕ → Bool) → tally n p ≤ n
unfolding tally
tally_bound zero p = omega arith
tally_bound (suc n) p = ground (arith, tally_bound n p)

tally-le : (m n : ℕ) (p : ℕ → Bool) → ((k : ℕ) → m ≤ k → k < n → p k ≡ false) → tally n p ≤ m
unfolding tally
tally-le m zero p off = omega arith
tally-le m (suc n) p off = elim (dec_lt n m) [
  | yes few ↦ omega (arith, tally_bound (suc n) p, few)
  | no many ↦
      let rest = tally-le m n p (λ k le lt. off k le (omega (arith, lt))) in
      ground (arith, rest, off n (omega (arith, many)) (omega arith))
]

le-tally : (m n : ℕ) (p : ℕ → Bool) → m ≤ n → ((k : ℕ) → k < m → p k ≡ true) → m ≤ tally n p
unfolding tally
le-tally m zero p le on = le
le-tally m (suc n) p le on = elim (dec_lt n m) [
  | yes last ↦
      let rest = le-tally n n p (omega arith) (λ k lt. on k (omega (arith, lt, last))) in
      ground (arith, rest, on n last, le)
  | no more ↦ ground (arith, le-tally m n p (omega (arith, more)) on)
]

module _ (F : Floats) (qsort : (ℕ → F.Float) → ℕ → ℕ → F.Float) (laws : Sorts F qsort) where
  -- Fewer than `r` of the samples are below `x`, and at least `r` are not above it.
  pub record IsRanked (a : ℕ → F.Float) (n r : ℕ) (x : F.Float) : Type 0 where
    pub below : tally n (λ k. F.lt (a k) x) < r
    pub upto : r ≤ tally n (λ k. not (F.lt x (a k)))

  pub qsort-IsRanked :
      (a : ℕ → F.Float) (n r : ℕ)
      → IsConsistent F a n
      → 1 ≤ r
      → r ≤ n
      → IsRanked a n r (qsort a n (r - 1))
  qsort-IsRanked a n r apart low high =
      let x = qsort a n (r - 1) in
      let few =
        tally-le (r - 1) n (λ k. F.lt (qsort a n k) x)
          (λ k le lt. laws.ascends a n (r - 1) k apart le lt) in
      let many =
        le-tally r n (λ k. not (F.lt x (qsort a n k))) high
          (λ k lt.
            rw (laws.ascends a n k (r - 1) apart (omega (arith, lt)) (omega (arith, low, high)))
              refl) in
      record {
        below = omega (arith, few, laws.rearranges a n (λ y. F.lt y x) apart, low);
        upto = omega (arith, many, laws.rearranges a n (λ y. not (F.lt x y)) apart);
      }
