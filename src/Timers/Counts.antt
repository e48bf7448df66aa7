-- ===== src/Timers/Counts.antt =====
-- What a packet and a round of the timer core do to the numbers of the sources.
use native.Mathlib.Decide.{ℕ_discrete}
use hcmonitor.Prelude.{
  ℕ, zero, suc, ◌+◌, ◌%◌, ◌^◌, ◌≤◌, ◌<◌, ◌≡◌, ◌⊎◌, refl, ap₂, map, arith, Bool, ℤ, pos, negsuc, ltb,
  leb, ltb_ℤ, if◌then◌else◌, Option, some, none, List, [], ◌∷◌, Bool-cases, Option-cases, inl, inr,
  update, update_self, update_ne, truthy, to_unsigned,
}
use hcmonitor.Config.{Mconfig}
use hcmonitor.Hash.{RteHash}
use hcmonitor.Wire.{Memory, src_addr}
use hcmonitor.Node.{NodeData}
use hcmonitor.Parse.{Counters}
use hcmonitor.Parse.Burst.{BurstState, Counted, burst_count, bump_burst, burst_index, is_burst}
use hcmonitor.Timers.{Line, Timer, write_bursts, log_bursts, timer_round, sub64}

-- The numbers of the first `n` sources together.
unfoldable pub sum_to : ℕ → (ℕ → ℕ) → ℕ
sum_to zero f = 0
sum_to (suc n) f = sum_to n f + f n

unfoldable pub sum : List ℕ → ℕ
sum [] = 0
sum (x ∷ xs) = x + sum xs

sum_to-beyond : (n : ℕ) (f : ℕ → ℕ) (i v : ℕ) → n ≤ i → sum_to n (update f i v) ≡ sum_to n f
unfolding sum_to
sum_to-beyond zero f i v le = refl
sum_to-beyond (suc n) f i v le =
    ap₂ ◌+◌ (sum_to-beyond n f i v (omega (arith, le)))
      (update_ne f i n v (λ e. omega (arith, e, le)))

sum_to-update :
    (n : ℕ) (f : ℕ → ℕ) (i v : ℕ) → i < n → sum_to n (update f i v) + f i ≡ sum_to n f + v
unfolding sum_to
sum_to-update zero f i v lt = absurd (omega (arith, lt))
sum_to-update (suc n) f i v lt = elim (ℕ_discrete i n) [
  | yes e ↦ rw e (omega (arith, sum_to-beyond n f n v (omega arith), update_self f n v))
  | no ne ↦ omega (arith, sum_to-update n f i v (omega (arith, lt, ne)), update_ne f i n v ne)
]

burst_index-lt : (z : ℤ) (id : ℕ) → burst_index z ≡ some id → id < 6
unfolding burst_index
burst_index-lt (pos n) id e = ground (arith, e)
burst_index-lt (negsuc n) id e = ground (arith, e)

-- What `burst_count` returns for a packet without a request label, and for one that is counted.
abbrev unchanged : {h : RteHash} → NodeData → Counters → BurstState h → Counted h
unchanged d n s = record { ret = pos 1; node = d; counters = n; bursts = s }

abbrev bumped :
    {h : RteHash} → Memory → ℕ → NodeData → Counters → BurstState h → h.Table → ℕ → Counted h
bumped {h} m ip d n s t id = record {
  ret = pos 1;
  node = record d { key = record (d.key) { ip_src = src_addr m ip } };
  counters = record n { request_num = (n.request_num + 1) % 2 ^ 32 };
  bursts = bump_burst h s t id (src_addr m ip);
}

-- A packet with a request label counts as one.
abbrev pub one_if : Bool → ℕ
one_if b = if b then 1 else 0

-- The six numbers are written in order, and then all are 0.
pub write_bursts-map : (f : ℕ → ℕ) → (write_bursts 0 6 f).0 ≡ map f (0 ∷ 1 ∷ 2 ∷ 3 ∷ 4 ∷ 5 ∷ [])
unfolding write_bursts
write_bursts-map f = refl

pub sum_to-write_bursts : (f : ℕ → ℕ) → sum_to 6 (write_bursts 0 6 f).1 ≡ 0
unfolding write_bursts sum_to
sum_to-write_bursts f = refl

pub sum-map : (f : ℕ → ℕ) → sum (map f (0 ∷ 1 ∷ 2 ∷ 3 ∷ 4 ∷ 5 ∷ [])) ≡ sum_to 6 f
unfolding sum sum_to
sum-map f = omega arith

-- A round of the timer core either leaves what has been counted, or logs and clears it.
abbrev pub Outcome : {h : RteHash} → Timer h → Timer h × Option Line → Type 0
Outcome s (t, out) =
    ((out ≡ none) × (t.bursts ≡ s.bursts) × (t.counters ≡ s.counters))
    ⊎ ((out
          ≡ some (record {
            numbers = (write_bursts 0 6 s.bursts.burst).0;
            total = s.counters.request_num;
          }))
        × (t.bursts.burst ≡ (write_bursts 0 6 s.bursts.burst).1)
        × (t.counters.request_num ≡ 0))

module _ {h : RteHash} (c : Mconfig) where
  -- A packet adds one to a source and to the total, or neither.
  pub burst_count-adds :
      (m : Memory) (ip : ℕ) (d : NodeData) (n : Counters) (s : BurstState h) (r : Counted h)
      → burst_count h c m ip d n s ≡ some r
      → (sum_to 6 r.bursts.burst % 2 ^ 32 ≡ (sum_to 6 s.burst + one_if (is_burst c m ip)) % 2 ^ 32)
        × (r.counters.request_num % 2 ^ 32 ≡ (n.request_num + one_if (is_burst c m ip)) % 2 ^ 32)
  unfolding burst_count bump_burst
  burst_count-adds m ip d n s r e = elim (Bool-cases (is_burst c m ip)) [
    | inr off ↦
        let f : burst_count h c m ip d n s ≡ some (unchanged d n s) = rw off refl in
        let g : unchanged d n s ≡ r = cc in rw (off, ← g) (omega arith, omega arith)
    | inl on ↦
        let t = h.add_key s.table (src_addr m ip ∷ []) in
        elim (Option-cases (burst_index t.0)) [
          | inl out ↦ absurd (ground (arith, e, on, out))
          | inr (id, at_id) ↦
              let lt = burst_index-lt t.0 id at_id in
              let step = sum_to-update 6 s.burst id ((s.burst id + 1) % 2 ^ 32) lt in
              let u = bumped m ip d n s t.1 id in
              let f : burst_count h c m ip d n s ≡ some u = ground (arith, on, at_id) in
              let g : u ≡ r = cc in rw (on, ← g) (omega (arith, step), omega arith)
        ]
  ]

  log_bursts-Outcome : (s : Timer h) → Outcome s (log_bursts c s)
  unfolding log_bursts
  log_bursts-Outcome s = elim (Bool-cases (truthy c.enable_mcc)) [
    | inl on ↦ rw on (inr (refl, refl, refl))
    | inr off ↦ rw off (inl (refl, refl, refl))
  ]

  pub timer_round-Outcome :
      (drain_tsc : ℕ) (timer_period : ℤ) (cur : ℕ) (s : Timer h)
      → Outcome s (timer_round c drain_tsc timer_period cur s)
  unfolding timer_round
  timer_round-Outcome drain_tsc timer_period cur s =
      let diff_tsc = sub64 cur s.prev_tsc in
      let timer_tsc = (s.timer_tsc + diff_tsc) % 2 ^ 64 in
      elim (Bool-cases (ltb drain_tsc diff_tsc)) [
        | inr a ↦ rw a (inl (refl, refl, refl))
        | inl a ↦ elim (Bool-cases (ltb_ℤ (pos 0) timer_period)) [
          | inr b ↦ rw (a, b) (inl (refl, refl, refl))
          | inl b ↦ elim (Bool-cases (leb (to_unsigned (2 ^ 64) timer_period) timer_tsc)) [
            | inr d ↦ rw (a, b, d) (inl (refl, refl, refl))
            | inl d ↦ rw (a, b, d) (log_bursts-Outcome (record s { prev_tsc = cur; timer_tsc = 0 }))
          ]
        ]
      ]
