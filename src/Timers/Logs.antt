-- ===== src/Timers/Logs.antt =====
-- When the timer core logs.
use hcmonitor.Prelude.{
  ℕ, ◌+◌, ◌-◌, ◌%◌, ◌^◌, ◌≤◌, ◌<◌, ◌≡◌, refl, ◌∙◌, map, arith, leb, ltb, ltb_ℤ, pos, truthy,
  to_unsigned, some, none, List, [], ◌∷◌, Bool-cases, inl, inr, true, false,
}
use hcmonitor.Config.{Mconfig}
use hcmonitor.Hash.{RteHash}
use hcmonitor.Timers.{sub64, Line, Timer, log_bursts, timer_round, timer_loop}

-- Clock readings that do not go back, from `from` on, and stay below 2 ^ 64.
abbrev pub Rises : ℕ → List ℕ → Type 0
Rises from [] = Unit
Rises from (r ∷ rs) = (from ≤ r) × (r < 2 ^ 64) × Rises r rs

Rises-before : (from to : ℕ) (rs : List ℕ) → from ≤ to → Rises to rs → Rises from rs
Rises-before from to [] le a = tt
Rises-before from to (r ∷ rs) le (up, lt, a) = (omega (arith, le, up), lt, a)

-- When a line is due: `prev` is when a reading was last heeded, `last` when a line was last logged.
unfoldable pub log_times : ℕ → ℕ → ℕ → ℕ → List ℕ → List ℕ
log_times drain period last prev [] = []
log_times drain period last prev (r ∷ rs) = elim (ltb (prev + drain) r) [
  | false ↦ log_times drain period last prev rs
  | true ↦ elim (leb (last + period) r) [
    | true ↦ r ∷ log_times drain period r r rs
    | false ↦ log_times drain period last r rs
  ]
]

module _ {h : RteHash} (c : Mconfig) (drain period : ℕ) (on : truthy c.enable_mcc ≡ true)
    (positive : 0 < period) (small : period < 2 ^ 64) where
  -- Readings that come too early are passed over.
  early :
      (r : ℕ) (s : Timer h)
      → s.prev_tsc ≤ r
      → r < 2 ^ 64
      → ltb (s.prev_tsc + drain) r ≡ false
      → timer_round c drain (pos period) r s ≡ (s, none)
  unfolding timer_round
  early r s le lt e =
      let f : ltb drain (sub64 r s.prev_tsc) ≡ false = ground (arith, e, le, lt) in rw f refl

  module _ (r last : ℕ) (s : Timer h) (same : last + s.timer_tsc ≡ s.prev_tsc) (le : s.prev_tsc ≤ r)
      (lt : r < 2 ^ 64) (late : ltb (s.prev_tsc + drain) r ≡ true) where
    heeded : ltb drain (sub64 r s.prev_tsc) ≡ true
    heeded = ground (arith, late, le, lt)

    timed : ltb_ℤ (pos 0) (pos period) ≡ true
    timed = ground (arith, positive)

    run_for : (s.timer_tsc + sub64 r s.prev_tsc) % 2 ^ 64 ≡ r - last
    run_for = omega (arith, same, le, lt)

    ready : leb (to_unsigned (2 ^ 64) (pos period)) (r - last) ≡ leb (last + period) r
    ready = ground (arith, same, le, small)

    not_due :
        leb (last + period) r ≡ false
        → timer_round c drain (pos period) r s
          ≡ (record s { prev_tsc = r; timer_tsc = r - last }, none)
    unfolding timer_round
    not_due e = rw (heeded, timed, run_for, ready, e) refl

    logs :
        leb (last + period) r ≡ true
        → timer_round c drain (pos period) r s
          ≡ log_bursts c (record s { prev_tsc = r; timer_tsc = 0 })
    unfolding timer_round
    logs e = rw (heeded, timed, run_for, ready, e) refl

  log_bursts-some :
      (s : Timer h)
      → (t : Timer h) × (l : Line) × (log_bursts c s ≡ (t, some l))
        × (t.prev_tsc ≡ s.prev_tsc)
        × (t.timer_tsc ≡ s.timer_tsc)
  unfolding log_bursts
  log_bursts-some s = rw on (_, _, refl, refl, refl)

  -- With enable_mcc set and a period that is neither 0 nor 2 ^ 64 or more, from a state whose timer
  -- has run since `last`, over clock readings that do not go back: a reading that is at most
  -- `drain_tsc` behind the last that was heeded is passed over; of the others, a line is logged at the
  -- first that is a period behind `last`, from there at the first that is a period behind that one,
  -- and so on.
  pub timer_loop-log_times :
      (rs : List ℕ) (s : Timer h) (last : ℕ)
      → last + s.timer_tsc ≡ s.prev_tsc
      → Rises s.prev_tsc rs
      → map (λ (x : ℕ × Line). x.0) (timer_loop c drain (pos period) rs s)
        ≡ log_times drain period last s.prev_tsc rs
  unfolding timer_loop log_times
  timer_loop-log_times [] s last e a = refl
  timer_loop-log_times (r ∷ rs) s last e (le, lt, a) =
      elim (Bool-cases (ltb (s.prev_tsc + drain) r)) [
        | inr soon ↦
            let ih = timer_loop-log_times rs s last e (Rises-before s.prev_tsc r rs le a) in
            ground (arith, early r s le lt soon, soon, ih)
        | inl late ↦ elim (Bool-cases (leb (last + period) r)) [
          | inr waits ↦
              let t : Timer h = record s { prev_tsc = r; timer_tsc = r - last } in
              let ih = timer_loop-log_times rs t last (omega (arith, e, le)) a in
              ground (arith, not_due r last s e le lt late waits, late, waits, ih)
          | inl due ↦
              let u : Timer h = record s { prev_tsc = r; timer_tsc = 0 } in
              let (t, l, logged, same, zero) = log_bursts-some u in
              let ih = timer_loop-log_times rs t r (omega (arith, same, zero)) (rw same a) in
              let step = logs r last s e le lt late due ∙ logged in
              ground (arith, step, late, due, ih, same)
        ]
      ]
