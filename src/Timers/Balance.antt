-- ===== src/Timers/Balance.antt =====
-- Over packets and rounds of the timer core, none of them counted while a line is logged, the
-- numbers of the sources and `request_num` go together. A packet that is counted between the write
-- of a number and its reset is outside this: the program loses it.
use hcmonitor.Prelude.{
  ℕ, ◌+◌, ◌%◌, ◌^◌, ◌≡◌, refl, ap, ◌∙◌, arith, ℤ, if◌then◌else◌, Option, some, none, List, [], ◌∷◌,
  Option-cases, inl, inr,
}
use hcmonitor.Config.{Mconfig}
use hcmonitor.Hash.{RteHash}
use hcmonitor.Wire.{Memory}
use hcmonitor.Node.{NodeData}
use hcmonitor.Parse.{Counters}
use hcmonitor.Parse.Burst.{Counted, burst_count, is_burst}
use hcmonitor.Timers.{Line, Timer, timer_round}
use hcmonitor.Timers.Counts.{
  sum_to, sum, sum_to-write_bursts, write_bursts-map, sum-map, burst_count-adds,
  timer_round-Outcome,
}

-- A packet that a processing core counts, or a round of the timer core that no packet falls into.
pub data Event : Type 0 where
  packet : Memory → ℕ → NodeData → Event
  tick : ℕ → Event

-- The six numbers add up to the total, both counted modulo 2 ^ 32.
unfoldable pub IsBalanced : {h : RteHash} → Timer h → Type 0
IsBalanced s = sum_to 6 s.bursts.burst % 2 ^ 32 ≡ s.counters.request_num % 2 ^ 32

-- The same of the lines that are logged.
pub data AreBalanced : List Line → Type 0 where
  none_logged : AreBalanced []
  logged :
      {l : Line} {ls : List Line}
      → sum l.numbers % 2 ^ 32 ≡ l.total % 2 ^ 32
      → AreBalanced ls
      → AreBalanced (l ∷ ls)

module _ {h : RteHash} (c : Mconfig) (drain_tsc : ℕ) (timer_period : ℤ) where
  -- An event, and the line that it logs.
  unfoldable pub happen : Event → Timer h → Option (Timer h × Option Line)
  happen (packet m ip d) s = elim (burst_count h c m ip d s.counters s.bursts) [
    | none ↦ none
    | some r ↦ some (record s { bursts = r.bursts; counters = r.counters }, none)
  ]
  happen (tick cur) s = some (timer_round c drain_tsc timer_period cur s)

  -- A sequence of events: the lines, in order.
  unfoldable pub history : List Event → Timer h → Option (Timer h × List Line)
  history [] s = some (s, [])
  history (e ∷ es) s = elim (happen e s) [
    | none ↦ none
    | some (t, out) ↦ elim (history es t) [
      | none ↦ none
      | some (u, ls) ↦ some (u, elim out [ none ↦ ls | some l ↦ l ∷ ls ])
    ]
  ]

-- The packets with a request label.
unfoldable pub requests : Mconfig → List Event → ℕ
requests c [] = 0
requests c (packet m ip d ∷ es) = (if is_burst c m ip then 1 else 0) + requests c es
requests c (tick cur ∷ es) = requests c es

-- The totals of the lines together.
unfoldable pub totals : List Line → ℕ
totals [] = 0
totals (l ∷ ls) = l.total + totals ls

-- What a sequence of events is to have done to the counts.
record Kept {h : RteHash} (c : Mconfig) (es : List Event) (s t : Timer h) (ls : List Line)
    : Type 0 where
  lines : AreBalanced ls
  balanced : IsBalanced t
  conserved :
      (totals ls + t.counters.request_num) % 2 ^ 32
      ≡ (s.counters.request_num + requests c es) % 2 ^ 32

module _ {h : RteHash} (c : Mconfig) (drain_tsc : ℕ) (timer_period : ℤ) where
  packet-Kept :
      (m : Memory) (ip : ℕ) (d : NodeData) (es : List Event) (s u : Timer h) (ls : List Line)
      (r : Counted h)
      → burst_count h c m ip d s.counters s.bursts ≡ some r
      → (IsBalanced s → IsBalanced (record s { bursts = r.bursts; counters = r.counters }))
        × (Kept c es (record s { bursts = r.bursts; counters = r.counters }) u ls
            → Kept c (packet m ip d ∷ es) s u ls)
  unfolding IsBalanced requests
  packet-Kept m ip d es s u ls r e =
      let (a, b) = burst_count-adds c m ip d s.counters s.bursts r e in
      (
        λ bal. omega (arith, a, b, bal),
        λ v. record {
          lines = v.lines;
          balanced = v.balanced;
          conserved = omega (arith, v.conserved, b);
        },
      )

  tick-Kept :
      (cur : ℕ) (es : List Event) (s u : Timer h) (ls : List Line)
      → IsBalanced s
      → let (t, out) = timer_round c drain_tsc timer_period cur s in
        IsBalanced t
        × (Kept c es t u ls → Kept c (tick cur ∷ es) s u (elim out [ none ↦ ls | some l ↦ l ∷ ls ]))
  unfolding IsBalanced requests totals
  tick-Kept cur es s u ls bal = elim (timer_round-Outcome c drain_tsc timer_period cur s) [
    | inl (a, b, d) ↦ (
      rw (b, d) bal,
      λ v. rw a (record {
        lines = v.lines;
        balanced = v.balanced;
        conserved = omega (arith, v.conserved, ap (λ (n : Counters). n.request_num) d);
      }),
    )
    | inr (a, b, d) ↦
        let f = s.bursts.burst in
        let cleared = sum_to-write_bursts f in
        let same = ap sum (write_bursts-map f) ∙ sum-map f in
        (
          rw (b, d) (omega (arith, cleared)),
          λ v. rw a (record {
            lines = logged (rw same bal) v.lines;
            balanced = v.balanced;
            conserved = omega (arith, v.conserved, d);
          }),
        )
  ]

  kept :
      (es : List Event) (s u : Timer h) (ls : List Line)
      → IsBalanced s
      → history c drain_tsc timer_period es s ≡ some (u, ls)
      → Kept c es s u ls
  unfolding history happen requests totals
  kept [] s u ls bal e =
      let f : s ≡ u = cc in
      let g : [] ≡ ls = cc in
      rw (← f, ← g) (record { lines = none_logged; balanced = bal; conserved = omega arith })
  kept (packet m ip d ∷ es) s u ls bal e =
      elim (Option-cases (burst_count h c m ip d s.counters s.bursts)) [
        | inl out ↦ absurd (ground (arith, e, out))
        | inr (r, ok) ↦
            let (next, back) = packet-Kept m ip d es s u ls r ok in
            let t : Timer h = record s { bursts = r.bursts; counters = r.counters } in
            elim (Option-cases (history c drain_tsc timer_period es t)) [
              | inl out ↦ absurd (ground (arith, e, ok, out))
              | inr ((v, ms), rest) ↦
                  let f : history c drain_tsc timer_period (packet m ip d ∷ es) s ≡ some (v, ms) =
                    ground (arith, ok, rest) in
                  let same : (v, ms) ≡ (u, ls) = cc in
                  back (
                    kept es t u ls (next bal)
                      (rest ∙ ap (λ (p : Timer h × List Line). some p) same))
            ]
      ]
  kept (tick cur ∷ es) s u ls bal e =
      let p = timer_round c drain_tsc timer_period cur s in
      elim (Option-cases (history c drain_tsc timer_period es p.0)) [
        | inl out ↦ absurd (ground (arith, e, out))
        | inr ((v, ms), rest) ↦
            let (next, back) = tick-Kept cur es s v ms bal in
            let w = back (kept es p.0 v ms next rest) in
            let all : List Line = elim p.1 [ none ↦ ms | some l ↦ l ∷ ms ] in
            let f : history c drain_tsc timer_period (tick cur ∷ es) s ≡ some (v, all) =
              rw rest refl in
            let last : v ≡ u = cc in let lines : all ≡ ls = cc in rw (← last, ← lines) w
      ]

  -- Where the six numbers add up to `request_num` modulo 2 ^ 32, no packet is counted outside the
  -- array, and none while a line is being logged (each packet and each round of the timer core is
  -- one step): over any sequence of packets and rounds, every line that is logged has numbers that
  -- add up to its total, those that are left add up to `request_num`, and the totals of the lines
  -- with what is left are what was there before and one for every packet with a request label, all
  -- modulo 2 ^ 32.
  pub history-Kept :
      (es : List Event) (s t : Timer h) (ls : List Line)
      → IsBalanced s
      → history c drain_tsc timer_period es s ≡ some (t, ls)
      → AreBalanced ls
        × IsBalanced t
        × ((totals ls + t.counters.request_num) % 2 ^ 32
            ≡ (s.counters.request_num + requests c es) % 2 ^ 32)
  history-Kept es s t ls bal e = let v = kept es s t ls bal e in (v.lines, v.balanced, v.conserved)
