-- ===== src/Figures/Histogram.antt =====
-- Every sample of an ascending array is counted in its interval.
use native.Mathlib.Decide.{ℕ_discrete, dec_lt}
use hcmonitor.Prelude.{
  ℕ, zero, suc, ◌+◌, ◌-◌, ◌<◌, ◌≤◌, ◌≡◌, ◌≢◌, refl, ◌∙◌, arith, ltb, leb, ◌&&◌, not, if◌then◌else◌,
  update, update_self, update_ne, Bool, true, false, Bool-cases, inl, inr,
}
use hcmonitor.Floats.{Floats}
use hcmonitor.Figures.{below, edge, sasp, take_interval, intervals, sketch_delay}

-- How many of the first `n` numbers pass a test.
unfoldable pub tally : ℕ → (ℕ → Bool) → ℕ
tally zero p = 0
tally (suc n) p = tally n p + (if p n then 1 else 0)

-- The test of a range.
tally-range :
    (m n lo hi : ℕ) (p : ℕ → Bool)
    → lo ≤ hi
    → m ≤ n
    → ((k : ℕ) → k < n → p k ≡ (leb lo k && ltb k hi))
    → tally m p ≡ (if ltb m hi then m else hi) - lo
unfolding tally
tally-range zero n lo hi p le small e = ground (arith, le)
tally-range (suc m) n lo hi p le small e =
    ground
      (arith, tally-range m n lo hi p le (omega (arith, small)) e, e m (omega (arith, small)), le)

module _ (F : Floats) (a : ℕ → F.Float) where
  -- A sample before edge `j`, where no sample is before the first.
  unfoldable pub passed : ℕ → ℕ → Bool
  passed k zero = false
  passed k (suc j) = below F a k (suc j)

  -- A sample in interval `b`: before the edge behind it, and not before its own.
  unfoldable pub in_interval : ℕ → ℕ → Bool
  in_interval b k = below F a k (suc b) && not (passed k b)

  -- What the inner loop does from sample `i` on.
  record Taken (n b i : ℕ) (cnt : ℕ → ℕ) (r : ℕ × (ℕ → ℕ)) : Type 0 where
    from : i ≤ r.0
    to : r.0 ≤ n
    taken : (k : ℕ) → i ≤ k → k < r.0 → below F a k (suc b) ≡ true
    stops : r.0 < n → below F a r.0 (suc b) ≡ false
    counted : r.1 b + i ≡ cnt b + r.0
    others : (c : ℕ) → b ≢ c → r.1 c ≡ cnt c

  take_interval-Taken :
      (n b left i : ℕ) (cnt : ℕ → ℕ)
      → i + left ≡ n
      → Taken n b i cnt (take_interval F a b left i cnt)
  unfolding take_interval
  take_interval-Taken n b zero i cnt e = record {
    from = omega arith;
    to = omega (arith, e);
    taken = λ k le lt. absurd (omega (arith, le, lt));
    stops = λ lt. absurd (omega (arith, e, lt));
    counted = refl;
    others = λ c ne. refl;
  }
  take_interval-Taken n b (suc left) i cnt e = elim (Bool-cases (below F a i (suc b))) [
    | inr no_more ↦ rw no_more (record {
      from = omega arith;
      to = omega (arith, e);
      taken = λ k le lt. absurd (omega (arith, le, lt));
      stops = λ lt. no_more;
      counted = refl;
      others = λ c ne. refl;
    })
    | inl more ↦
        let next = update cnt b (cnt b + 1) in
        let v = take_interval-Taken n b left (i + 1) next (omega (arith, e)) in
        rw more (record {
          from = omega (arith, v.from);
          to = v.to;
          taken = λ k le lt. elim (ℕ_discrete i k) [
            | yes same ↦ rw (← same) more
            | no ne ↦ v.taken k (omega (arith, le, ne)) lt
          ];
          stops = v.stops;
          counted = omega (arith, v.counted, update_self cnt b (cnt b + 1));
          others = λ c ne. v.others c ne ∙ update_ne cnt b c (cnt b + 1) ne;
        })
  ]

  -- What the outer loop has done after `j` intervals.
  record Filled (n j : ℕ) (cnt : ℕ → ℕ) (r : ℕ × (ℕ → ℕ)) : Type 0 where
    within : r.0 ≤ n
    before : (k : ℕ) → k < r.0 → passed k j ≡ true
    behind : (k : ℕ) → r.0 ≤ k → k < n → passed k j ≡ false
    filled : (b : ℕ) → b < j → r.1 b ≡ cnt b + tally n (in_interval b)
    empty : (b : ℕ) → j ≤ b → r.1 b ≡ cnt b

  module _ (n : ℕ)
      (sorted : (i k : ℕ) (x : F.Float) → i ≤ k → k < n → F.lt (a k) x ≡ true → F.lt (a i) x ≡ true)
      (rising : (x : F.Float) (j : ℕ)
        → F.lt x (edge F j) ≡ true
        → F.lt x (edge F (suc j)) ≡ true) where
    passed-suc : (k j : ℕ) → passed k j ≡ true → below F a k (suc j) ≡ true
    unfolding passed
    passed-suc k zero e = absurd (ground (arith, e))
    passed-suc k (suc j) e = rising (a k) (suc j) e

    next-Filled :
        (j : ℕ) (cnt : ℕ → ℕ) (r s : ℕ × (ℕ → ℕ))
        → Filled n j cnt r
        → Taken n j r.0 r.1 s
        → Filled n (suc j) cnt s
    unfolding passed in_interval
    next-Filled j cnt r s v w = record {
      within = w.to;
      before = low;
      behind = high;
      filled = λ b lt. elim (ℕ_discrete j b) [
        | yes same ↦
            rw (← same) (omega (arith, w.counted, w.from, w.to, v.empty j (omega arith), all))
        | no ne ↦ w.others b ne ∙ v.filled b (omega (arith, lt, ne))
      ];
      empty = λ b le. w.others b (λ e. omega (arith, e, le)) ∙ v.empty b (omega (arith, le));
    }
      where
        low : (k : ℕ) → k < s.0 → below F a k (suc j) ≡ true
        low k lt = elim (dec_lt k r.0) [
          | yes early ↦ passed-suc k j (v.before k early)
          | no late ↦ w.taken k (omega (arith, late)) lt
        ]

        high : (k : ℕ) → s.0 ≤ k → k < n → below F a k (suc j) ≡ false
        high k le lt = elim (Bool-cases (below F a k (suc j))) [
          | inr f ↦ f
          | inl t ↦
              let here = sorted s.0 k (edge F (suc j)) le lt t in
              let there = w.stops (omega (arith, le, lt)) in cc
        ]

        test : (k : ℕ) → k < n → in_interval j k ≡ (leb r.0 k && ltb k s.0)
        test k lt = elim (dec_lt k s.0) [
          | no late ↦ ground (arith, high k (omega (arith, late)) lt, late)
          | yes early ↦ elim (dec_lt k r.0) [
            | yes seen ↦ ground (arith, v.before k seen, seen)
            | no fresh ↦
                ground (arith, low k early, v.behind k (omega (arith, fresh)) lt, fresh, early)
          ]
        ]

        all : tally n (in_interval j) + r.0 ≡ s.0
        all =
            ground (
              arith,
              tally-range n n r.0 s.0 (in_interval j) w.from (omega arith) test,
              w.from,
              w.to,
            )

    intervals-Filled : (j : ℕ) (cnt : ℕ → ℕ) → Filled n j cnt (intervals F a n j cnt)
    unfolding intervals passed
    intervals-Filled zero cnt = record {
      within = omega arith;
      before = λ k lt. absurd (omega (arith, lt));
      behind = λ k le lt. refl;
      filled = λ b lt. absurd (omega (arith, lt));
      empty = λ b le. refl;
    }
    intervals-Filled (suc j) cnt =
        let r = intervals F a n j cnt in
        let v = intervals-Filled j cnt in
        next-Filled j cnt r (intervals F a n (suc j) cnt) v
          (take_interval-Taken n j (n - r.0) r.0 r.1 (omega (arith, v.within)))

-- Of samples that ascend, where a number before an edge is before the next edge: to the count of each
-- of the 260 intervals are added just the samples in it, those before the first edge to the first;
-- what stands behind the 260 counts is unchanged.
pub sketch_delay-tally :
    (F : Floats) (a : ℕ → F.Float) (n : ℕ)
    → ((i k : ℕ) (x : F.Float) → i ≤ k → k < n → F.lt (a k) x ≡ true → F.lt (a i) x ≡ true)
    → ((x : F.Float) (j : ℕ) → F.lt x (edge F j) ≡ true → F.lt x (edge F (suc j)) ≡ true)
    → (cnt : ℕ → ℕ)
    → ((b : ℕ) → b < sasp → sketch_delay F a n cnt b ≡ cnt b + tally n (in_interval F a b))
      × ((b : ℕ) → sasp ≤ b → sketch_delay F a n cnt b ≡ cnt b)
unfolding sketch_delay
sketch_delay-tally F a n sorted rising cnt =
    let v = intervals-Filled F a n sorted rising sasp cnt in (v.filled, v.empty)
