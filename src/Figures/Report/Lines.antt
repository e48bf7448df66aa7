-- ===== src/Figures/Report/Lines.antt =====
-- The loop over `u` reads in bounds, and ends at the end of the table if a zero stands there.
use hcmonitor.Prelude.{
  ℕ, ◌+◌, ◌-◌, ◌^◌, ◌<◌, ◌≤◌, ◌≡◌, refl, arith, ℤ, pos, negsuc, ◌-ℤ◌, ◌==◌, ltb, not, ◌&&◌,
  if◌then◌else◌, Option, some, none, Bool, true, false, List, [], ◌∷◌, ◌++◌, map, Bool-cases, inl,
  inr, length, lt→ltb,
}
use hcmonitor.Floats.{Floats}
use hcmonitor.Figures.Report.{
  Arrays, Sizes, CdfLine, index_of, rank, fraction, pick, pick_some, cleared, percentile,
  percentiles, w_size,
}

-- A rank from 1 to `n`.
abbrev pub InRange : ℕ → ℤ → Type 0
InRange n (pos r) = (1 ≤ r) × (r ≤ n)
InRange n (negsuc r) = ⊥

-- A rank as an index.
unfoldable pub place_of : ℤ → ℕ
place_of (pos r) = r - 1
place_of (negsuc r) = 0

index_of-InRange :
    (n : ℕ) (r : ℤ) → n < 2 ^ 31 → InRange n r → (index_of r ≡ place_of r) × (place_of r < n)
unfolding place_of ◌-ℤ◌
index_of-InRange n (pos r) small (low, high) = ground (arith, low, high, small)
index_of-InRange n (negsuc r) small bad = absurd bad

module _ (F : Floats) where
  -- All entries of a table are above 0, as C tests it, and have a rank among `n`, if there are any.
  abbrev pub AllRanked : ℕ → List (ℕ × ℕ) → Type 0
  AllRanked n [] = Unit
  AllRanked n (p ∷ ps) = (0 < n → InRange n (rank F n (fraction F p))) × AllRanked n ps

  abbrev pub AllNonzero : List (ℕ × ℕ) → Type 0
  AllNonzero [] = Unit
  AllNonzero (p ∷ ps) = (F.eq (fraction F p) (F.of_int (pos 0)) ≡ false) × AllNonzero ps

  pick_lem :
      (a : ℕ → F.Float) (size n : ℕ) (u : F.Float)
      → n < 2 ^ 31
      → n ≤ size
      → InRange n (rank F n u)
      → pick F a size n u ≡ some (a (place_of (rank F n u)))
  unfolding pick
  pick_lem a size n u small fits r =
      let (same, lt) = index_of-InRange n (rank F n u) small r in rw same (ground (arith, lt, fits))

  -- The samples that a line is to have.
  abbrev pub shown_some : Bool → (ℕ → F.Float) → ℕ → F.Float → Option F.Float
  shown_some enable_pri a n u =
      if enable_pri && not (n == 0) then some (a (place_of (rank F n u))) else none

  abbrev pub shown : Bool → Sizes F → Arrays F → F.Float → CdfLine F
  shown enable_pri z s u = record {
    u = u;
    w = s.time (place_of (rank F z.idx u));
    w_high = shown_some enable_pri s.pri_high z.num_high u;
    w_low = shown_some enable_pri s.pri_low z.num_low u;
  }

  -- The arrays as they are at entry `i`.
  unfoldable pub arrays_at : Bool → ℕ → Arrays F → Arrays F
  arrays_at op_mysql i s = if op_mysql && ltb 10 i then cleared F s else s

  -- The lines for a table, from entry `i` on.
  unfoldable pub lines_of : Bool → Bool → Sizes F → ℕ → List (ℕ × ℕ) → Arrays F → List (CdfLine F)
  lines_of op_mysql enable_pri z i [] s = []
  lines_of op_mysql enable_pri z i (p ∷ ps) s =
      shown enable_pri z (arrays_at op_mysql i s) (fraction F p)
      ∷ lines_of op_mysql enable_pri z (i + 1) ps s

  arrays_at-next :
      (op_mysql : Bool) (i : ℕ) (s : Arrays F)
      → (if op_mysql && (i == 10)
          then cleared F (arrays_at op_mysql i s)
          else arrays_at op_mysql i s)
        ≡ arrays_at op_mysql (i + 1) s
  unfolding arrays_at
  arrays_at-next false i s = refl
  arrays_at-next true i s = ground arith

  pick_some_lem :
      (enable_pri : Bool) (a : ℕ → F.Float) (size n : ℕ) (u : F.Float)
      → n < 2 ^ 31
      → n ≤ size
      → (0 < n → InRange n (rank F n u))
      → pick_some F enable_pri a size n u ≡ some (shown_some enable_pri a n u)
  unfolding pick_some
  pick_some_lem enable_pri a size n u small fits r =
      elim (Bool-cases (enable_pri && not (n == 0))) [
        | inr off ↦ rw off refl
        | inl on ↦ rw (on, pick_lem a size n u small fits (r (ground (arith, on)))) refl
      ]

  -- The arrays have room for the samples in them, and every entry of the table a rank.
  pub record IsSized (z : Sizes F) (ps : List (ℕ × ℕ)) : Type 0 where
    pub some_sample : 0 < z.idx
    pub small : (z.idx < 2 ^ 31) × (z.num_high < 2 ^ 31) × (z.num_low < 2 ^ 31)
    pub fits : (z.idx ≤ z.thre) × (z.num_high ≤ z.ph_size) × (z.num_low ≤ z.pl_size)
    pub ranked : AllRanked z.idx ps × AllRanked z.num_high ps × AllRanked z.num_low ps

  percentile_lem :
      (enable_pri : Bool) (z : Sizes F) (s : Arrays F) (p : ℕ × ℕ) (ps : List (ℕ × ℕ))
      → IsSized z (p ∷ ps)
      → percentile F enable_pri z s (fraction F p) ≡ some (shown enable_pri z s (fraction F p))
  unfolding percentile
  percentile_lem enable_pri z s p ps v =
      let u = fraction F p in
      let (fits, high, low) = v.fits in
      let (all, all_high, all_low) = v.ranked in
      rw
        (
          pick_lem s.time z.thre z.idx u (v.small.0) fits (all.0 v.some_sample),
          pick_some_lem enable_pri s.pri_high z.ph_size z.num_high u (v.small.1) high (all_high.0),
          pick_some_lem enable_pri s.pri_low z.pl_size z.num_low u (v.small.2) low (all_low.0),
          percentile,
        )
        refl

  pub percentiles-lines_of :
      (op_mysql enable_pri : Bool) (z : Sizes F) (i : ℕ) (ps : List (ℕ × ℕ)) (x : F.Float)
      (xs : List F.Float) (s : Arrays F)
      → IsSized z ps
      → AllNonzero ps
      → F.eq x (F.of_int (pos 0)) ≡ true
      → i + length ps ≤ w_size
      → percentiles F op_mysql enable_pri z i
          (map (fraction F) ps ++ (x ∷ xs))
          (arrays_at op_mysql i s)
        ≡ some (lines_of op_mysql enable_pri z i ps s)
  unfolding percentiles lines_of
  percentiles-lines_of op_mysql enable_pri z i [] x xs s v nonzero e le = rw e refl
  percentiles-lines_of op_mysql enable_pri z i (p ∷ ps) x xs s v (ne, nonzero) e le =
      let (all, all_high, all_low) = v.ranked in
      let rest : IsSized z ps = record {
        some_sample = v.some_sample;
        small = v.small;
        fits = v.fits;
        ranked = (all.1, all_high.1, all_low.1);
      } in
      let ih =
        percentiles-lines_of op_mysql enable_pri z (i + 1) ps x xs s rest nonzero e
          (omega (arith, le)) in
      rw
        (
          ne,
          lt→ltb i 20 (omega (arith, le)),
          percentile_lem enable_pri z (arrays_at op_mysql i s) p ps v,
          arrays_at-next op_mysql i s,
          ih,
        )
        refl
