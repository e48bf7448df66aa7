-- ===== src/Figures/Report/Laws.antt =====
-- The report is made, and its lines are the nearest-rank percentiles, as long as the arrays are not
-- cleared on the way.
use hcmonitor.Prelude.{
  ℕ, ◌+◌, ◌/◌, ◌<◌, ◌≤◌, ◌≡◌, refl, ap, arith, ℤ, pos, negsuc, ◌==◌, not, ◌&&◌, if◌then◌else◌, some,
  none, Bool, true, false, List, [], ◌∷◌, map, Bool-cases, inl, inr, ltb,
}
use hcmonitor.Floats.{Floats}
use hcmonitor.Monitor.Online.{Areas}
use hcmonitor.Setup.{cat_buff}
use hcmonitor.Figures.{avg, count_good, goodputcnt, sketch_delay}
use hcmonitor.Figures.Report.{
  Arrays, Sizes, CdfLine, u_table, fraction, rank, percentiles, u_memory, Report, report,
}
use hcmonitor.Figures.Report.Rank.{IsConsistent, Sorts, IsRanked, qsort-IsRanked}
use hcmonitor.Figures.Report.Lines.{
  InRange, AllNonzero, IsSized, place_of, lines_of, arrays_at, shown, shown_some,
  percentiles-lines_of,
}

goodputcnt-some :
    (F : Floats) (garbage : ℕ) (a : ℕ → F.Float) (n : ℕ)
    → 0 < n
    → (x : F.Float) × (goodputcnt F garbage a n ≡ some x)
unfolding goodputcnt
goodputcnt-some F garbage a n lt =
    let e : (n == 0) ≡ false = ground (arith, lt) in
    (F.of_int (pos (count_good F garbage a n / n)), rw e refl)

arrays_at-zero : {F : Floats} (op_mysql : Bool) (s : Arrays F) → arrays_at F op_mysql 0 s ≡ s
unfolding arrays_at
arrays_at-zero false s = refl
arrays_at-zero true s = refl

cleared-time :
    {A : Type 0} (n : ℕ)
    → n ≤ cat_buff
    → (r : ℤ) → InRange n r
    → (x : A) (a : ℕ → A) → (if ltb (place_of r) cat_buff then x else a (place_of r)) ≡ x
unfolding place_of
cleared-time n le (pos r) (low, high) x a = ground (arith, le, low, high)
cleared-time n le (negsuc r) bad x a = absurd bad

module _ (F : Floats) (qsort : (ℕ → F.Float) → ℕ → ℕ → F.Float) (laws : Sorts F qsort) where
  -- The entry of rank `r` of the sorted samples.
  sample_of :
      (a : ℕ → F.Float) (n : ℕ) (r : ℤ)
      → IsConsistent F a n
      → InRange n r
      → (k : ℕ) × (r ≡ pos k) × IsRanked F qsort laws a n k (qsort a n (place_of r))
  unfolding place_of
  sample_of a n (pos r) apart (low, high) =
      (r, refl, qsort-IsRanked F qsort laws a n r apart low high)
  sample_of a n (negsuc r) apart bad = absurd bad

  module _ (time : ℕ → F.Float) (idx : ℕ) (a : Areas F) where
    -- A sample of rank `ceil(u * n)` of the first `n` in an array.
    abbrev pub IsPercentile : F.Float → (ℕ → F.Float) → ℕ → F.Float → Type 0
    IsPercentile u xs n x = (k : ℕ) × (rank F n u ≡ pos k) × IsRanked F qsort laws xs n k x

    -- A line, at entry `i`, of the samples, or behind the clearing.
    pub record IsRight (op_mysql : Bool) (i : ℕ) (l : CdfLine F) : Type 0 where
      pub kept :
          (op_mysql && ltb 10 i) ≡ false
          → IsPercentile l.u time idx l.w
            × ((x : F.Float) → l.w_high ≡ some x → IsPercentile l.u a.ack_pri_high a.num_high x)
            × ((x : F.Float) → l.w_low ≡ some x → IsPercentile l.u a.ack_pri_low a.num_low x)
      pub zeroed : (op_mysql && ltb 10 i) ≡ true → idx ≤ cat_buff → l.w ≡ F.of_int (pos 0)

    pub data AreRight (op_mysql : Bool) : ℕ → List (CdfLine F) → Type 0 where
      nil : {i : ℕ} → AreRight op_mysql i []
      cons :
          {i : ℕ} {l : CdfLine F} {ls : List (CdfLine F)}
          → IsRight op_mysql i l
          → AreRight op_mysql (i + 1) ls
          → AreRight op_mysql i (l ∷ ls)

    -- What a priority's area is when it is read.
    abbrev pub area : Bool → ℕ → (ℕ → F.Float) → ℕ → F.Float
    area enable_pri n xs = if enable_pri && not (n == 0) then qsort xs n else xs

    abbrev pub arrays : Bool → Arrays F
    arrays enable_pri = record {
      time = qsort time idx;
      pri_high = area enable_pri a.num_high a.ack_pri_high;
      pri_low = area enable_pri a.num_low a.ack_pri_low;
    }

    abbrev pub sizes : ℕ → Sizes F
    sizes thre = record {
      thre = thre;
      ph_size = a.ph_size;
      pl_size = a.pl_size;
      idx = idx;
      num_high = a.num_high;
      num_low = a.num_low;
    }

  area-IsPercentile :
      (enable_pri : Bool) (xs : ℕ → F.Float) (n : ℕ) (u x : F.Float)
      → IsConsistent F xs n
      → (0 < n → InRange n (rank F n u))
      → shown_some F enable_pri (if enable_pri && not (n == 0) then qsort xs n else xs) n u ≡ some x
      → (k : ℕ) × (rank F n u ≡ pos k) × IsRanked F qsort laws xs n k x
  area-IsPercentile enable_pri xs n u x apart r e = elim (Bool-cases (enable_pri && not (n == 0))) [
    | inr off ↦ absurd (ground (arith, e, off))
    | inl on ↦
        let (k, same, v) = sample_of xs n (rank F n u) apart (r (ground (arith, on))) in
        let y : qsort xs n (place_of (rank F n u)) ≡ x = ground (arith, e, on) in
        (k, same, rw (← y) v)
  ]

  -- No two samples are equal, of all and of either priority.
  pub record AreApart (time : ℕ → F.Float) (idx : ℕ) (a : Areas F) : Type 0 where
    pub all : IsConsistent F time idx
    pub high : IsConsistent F a.ack_pri_high a.num_high
    pub low : IsConsistent F a.ack_pri_low a.num_low

  module _ (time : ℕ → F.Float) (idx thre : ℕ) (a : Areas F) (op_mysql enable_pri : Bool)
      (apart : AreApart time idx a) where
    shown-IsRight :
        (i : ℕ) (p : ℕ × ℕ) (ps : List (ℕ × ℕ))
        → IsSized F (sizes time idx a thre) (p ∷ ps)
        → IsRight time idx a op_mysql i (
            shown F enable_pri
              (sizes time idx a thre)
              (arrays_at F op_mysql i (arrays time idx a enable_pri))
              (fraction F p))
    unfolding arrays_at
    shown-IsRight i p ps v = elim (Bool-cases (op_mysql && ltb 10 i)) [
      | inl gone ↦
          let r = rank F idx (fraction F p) in
          let in_range = (v.ranked.0).0 v.some_sample in
          rw gone (record {
            kept = λ e. cc;
            zeroed = λ e le. cleared-time idx le r in_range (F.of_int (pos 0)) (qsort time idx);
          })
      | inr here ↦
          let (all, all_high, all_low) = v.ranked in
          let u = fraction F p in
          rw here (record {
            kept = λ e. (
              sample_of time idx (rank F idx u) apart.all (all.0 v.some_sample),
              λ x s.
                  area-IsPercentile enable_pri a.ack_pri_high a.num_high u x apart.high (all_high.0)
                    s,
              λ x s.
                  area-IsPercentile enable_pri a.ack_pri_low a.num_low u x apart.low (all_low.0) s,
            );
            zeroed = λ e le. cc;
          })
    ]

    lines_of-AreRight :
        (i : ℕ) (ps : List (ℕ × ℕ))
        → IsSized F (sizes time idx a thre) ps
        → let ls =
            lines_of F op_mysql enable_pri
              (sizes time idx a thre)
              i
              ps
              (arrays time idx a enable_pri) in
          AreRight time idx a op_mysql i ls
          × (map (λ (l : CdfLine F). l.u) ls ≡ map (fraction F) ps)
    unfolding lines_of
    lines_of-AreRight i [] v = (nil, refl)
    lines_of-AreRight i (p ∷ ps) v =
        let (all, all_high, all_low) = v.ranked in
        let rest : IsSized F (sizes time idx a thre) ps = record {
          some_sample = v.some_sample;
          small = v.small;
          fits = v.fits;
          ranked = (all.1, all_high.1, all_low.1);
        } in
        let (right, same) = lines_of-AreRight (i + 1) ps rest in
        (cons (shown-IsRight i p ps v) right, ap (λ (us : List F.Float). fraction F p ∷ us) same)

  -- With a `qsort` that sorts where `compInc` is consistent, at least one sample, fewer than 2 ^ 31, no
  -- two of a kind equal, in arrays that have room for them, where every entry of `u` is not 0 and has a rank from 1 to the number of samples, and a 0
  -- stands behind `u`: the report is made, with a line for each entry of `u` in order. Each sample in
  -- a line is, of the samples of its kind, one of that rank: fewer are below it, and at least as many
  -- are not above it. But under OP_MYSQL, with at most CAT_BUFF samples, the lines behind entry 10 have
  -- 0 for the sample.
  pub report-AreRight :
      (scaled : ℕ → F.Float → ℕ) (op_mysql : Bool) (beyond : ℕ → F.Float) (garbage conn span : ℕ)
      (enable_pri : Bool) (thre : ℕ) (time : ℕ → F.Float) (idx : ℕ) (a : Areas F) (cnt : ℕ → ℕ)
      → IsSized F (sizes time idx a thre) u_table
      → AreApart time idx a
      → AllNonzero F u_table
      → F.eq (beyond 0) (F.of_int (pos 0)) ≡ true
      → (r : Report F) × (report F qsort scaled op_mysql beyond garbage conn span enable_pri thre
            time idx a cnt
          ≡ some r)
        × (map (λ (l : CdfLine F). l.u) r.lines ≡ map (fraction F) u_table)
        × AreRight time idx a op_mysql 0 r.lines
  unfolding report
  report-AreRight scaled op_mysql beyond garbage conn span enable_pri thre time idx a cnt v apart
        nonzero stop =
      let (x, good) = goodputcnt-some F garbage time idx v.some_sample in
      let z = sizes time idx a thre in
      let s = arrays time idx a enable_pri in
      let done =
        percentiles-lines_of F op_mysql enable_pri z 0 u_table (beyond 0)
          (beyond 1 ∷ beyond 2 ∷ beyond 3 ∷ beyond 4 ∷ beyond 5 ∷ beyond 6 ∷ []) s v nonzero stop
          (omega arith) in
      let (right, same) = lines_of-AreRight time idx thre a op_mysql enable_pri apart 0 u_table v in
      let made : Report F = record {
        avg_delay = avg F time idx;
        avg_delay_high =
            if enable_pri && not (a.num_high == 0)
            then some (avg F s.pri_high a.num_high)
            else none;
        avg_delay_low =
            if enable_pri && not (a.num_low == 0) then some (avg F s.pri_low a.num_low) else none;
        gpct = x;
        goodput = scaled conn x / span;
        interval_cnt = sketch_delay F (qsort time idx) idx cnt;
        lines = lines_of F op_mysql enable_pri z 0 u_table s;
      } in
      let begun : percentiles F op_mysql enable_pri z 0 (u_memory F beyond) s
          ≡ some (lines_of F op_mysql enable_pri z 0 u_table s) =
        rw (arrays_at-zero op_mysql s) at done in
      (made, rw (good, begun, report) refl, same, right)
