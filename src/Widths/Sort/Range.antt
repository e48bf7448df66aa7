-- ===== src/Widths/Sort/Range.antt =====
-- What a sort may do to a range of an array.
use native.Mathlib.Decide.{dec_le, dec_lt}
use hcmonitor.Prelude.{
  ◌∙◌, ℕ, zero, suc, ◌+◌, ◌<◌, ◌≤◌, ◌≡◌, ◌⊎◌, inl, inr, refl, ℤ, ◌==ℤ◌, if◌then◌else◌, update,
  arith,
}

-- How often `v` is among the first `n` cells.
unfoldable pub count : ℤ → (ℕ → ℤ) → ℕ → ℕ
count v arr zero = 0
count v arr (suc n) = let rest = count v arr n in if arr n ==ℤ v then rest + 1 else rest

-- One, if two values are the same.
abbrev pub one_if : ℤ → ℤ → ℕ
one_if a v = if a ==ℤ v then 1 else 0

count-update_above :
    (v : ℤ) (arr : ℕ → ℤ) (n i : ℕ) (x : ℤ) → n ≤ i → count v (update arr i x) n ≡ count v arr n
unfolding count
count-update_above v arr zero i x le = refl
count-update_above v arr (suc n) i x le = ground (arith, count-update_above v arr n i x)

-- A write trades the old value for the new one.
pub count-update :
    (v : ℤ) (arr : ℕ → ℤ) (n i : ℕ) (x : ℤ)
    → i < n
    → count v (update arr i x) n + one_if (arr i) v ≡ count v arr n + one_if x v
unfolding count
count-update v arr zero i x lt = absurd (omega arith)
count-update v arr (suc n) i x lt =
    ground (arith, count-update v arr n i x, count-update_above v arr n i x)

-- `b` holds the values of `a`, moved about within the range from `lo` to before `hi`.
pub record Rearranged (lo hi : ℕ) (a b : ℕ → ℤ) : Type 0 where
  pub counts : (v : ℤ) (n : ℕ) → hi ≤ n → count v b n ≡ count v a n
  pub outside : (i : ℕ) → (i < lo) ⊎ (hi ≤ i) → b i ≡ a i
  pub source : (i : ℕ) → lo ≤ i → i < hi → (j : ℕ) × (lo ≤ j) × (j < hi) × (b i ≡ a j)

pub Rearranged-refl : (lo hi : ℕ) (a : ℕ → ℤ) → Rearranged lo hi a a
Rearranged-refl lo hi a = record {
  counts = λ v n lt. refl;
  outside = λ i o. refl;
  source = λ i l u. (i, l, u, refl);
}

pub Rearranged-trans :
    {lo hi : ℕ} {a b c : ℕ → ℤ} → Rearranged lo hi a b → Rearranged lo hi b c → Rearranged lo hi a c
Rearranged-trans r s = record {
  counts = λ v n lt. s.counts v n lt ∙ r.counts v n lt;
  outside = λ i o. s.outside i o ∙ r.outside i o;
  source = λ i l u.
      let (j, jl, ju, e) = s.source i l u in
      let (k, kl, ku, f) = r.source j jl ju in (k, kl, ku, e ∙ f);
}

-- What happens within a part of a range happens within the range.
pub Rearranged-widen :
    {lo hi lo' hi' : ℕ} {a b : ℕ → ℤ}
    → lo ≤ lo'
    → hi' ≤ hi
    → Rearranged lo' hi' a b
    → Rearranged lo hi a b
Rearranged-widen {lo' = lo'} {hi' = hi'} l u r = record {
  counts = λ v n lt. r.counts v n (omega arith);
  outside = λ i o. elim o [
    | inl p ↦ r.outside i (inl (omega arith))
    | inr p ↦ r.outside i (inr (omega arith))
  ];
  source = λ i il iu. elim (dec_le lo' i) [
    | no p ↦ (i, il, iu, r.outside i (inl (omega arith)))
    | yes p ↦ elim (dec_lt i hi') [
      | no q ↦ (i, il, iu, r.outside i (inr (omega arith)))
      | yes q ↦ let (j, jl, ju, e) = r.source i p q in (j, omega arith, omega arith, e)
    ]
  ];
}
