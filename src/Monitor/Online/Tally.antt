-- ===== src/Monitor/Online/Tally.antt =====
-- The counts of samples by priority in HCMonitor/monitor.c, over the handling of a record.
use hcmonitor.Prelude.{
  ℕ, ◌+◌, ◌%◌, ◌^◌, ◌<◌, ◌≡◌, refl, ◌∙◌, ℤ, pos, truthy, arith, Bool-cases, inl, inr,
}
use hcmonitor.Config.{Mconfig}
use hcmonitor.Floats.{Floats}
use hcmonitor.Hash.{RteHash}
use hcmonitor.Node.{NodeData}
use hcmonitor.Monitor.{
  ReqTemp, Monitor, inc32, prioritise, track, note_request, sample, count_miss, handle,
}
use hcmonitor.Monitor.Rule.{Holds, Samples, process_rule, measure_rule, handle_rule}
use hcmonitor.Monitor.Bounds.{Within, extend-Within}
use hcmonitor.Monitor.Online.Room.{highs, lows, highs-lows, highs-snoc, lows-snoc}

module _ {F : Floats} {h : RteHash} where
  -- The monitor's two counts are those of the samples that it holds.
  pub record Tallied (k : ℕ) (m : Monitor F h) : Type 0 where
    pub within : Within k m
    pub high : highs m.pri m.idx_hy ≡ m.idx_pri_high
    pub low : lows m.pri m.idx_hy ≡ m.idx_pri_low

  -- Nothing that a tally is made of has changed.
  record Untouched (m t : Monitor F h) : Type 0 where
    thre : t.thre ≡ m.thre
    idx_hy : t.idx_hy ≡ m.idx_hy
    pri : t.pri ≡ m.pri
    idx_pri_high : t.idx_pri_high ≡ m.idx_pri_high
    idx_pri_low : t.idx_pri_low ≡ m.idx_pri_low

  untouched : (m : Monitor F h) → Untouched m m
  untouched m = record {
    thre = refl;
    idx_hy = refl;
    pri = refl;
    idx_pri_high = refl;
    idx_pri_low = refl;
  }

  Untouched-Tallied : (k : ℕ) (m t : Monitor F h) → Untouched m t → Tallied k m → Tallied k t
  Untouched-Tallied k m t u w = record {
    within = (u.thre ∙ w.within.0, omega (arith, u.idx_hy, w.within.1));
    high = rw (u.pri, u.idx_hy, u.idx_pri_high) w.high;
    low = rw (u.pri, u.idx_hy, u.idx_pri_low) w.low;
  }

  prioritise-Untouched :
      (c : Mconfig) (p : ℕ) (d : NodeData) (m t : Monitor F h)
      → Untouched m t
      → Untouched m (prioritise c p d t)
  unfolding prioritise
  prioritise-Untouched c p d m t u = ground arith

  track-Untouched :
      (p : ℕ) (d : NodeData) (m t : Monitor F h) → Untouched m t → Untouched m (track p d t)
  unfolding track
  track-Untouched p d m t u = ground arith

  note_request-Untouched :
      (c : Mconfig) (p : ℕ) (d : NodeData) (m t : Monitor F h)
      → Untouched m t
      → Untouched m (note_request c p d t)
  unfolding note_request
  note_request-Untouched c p d m t u = elim (Bool-cases (truthy c.rsp_pri)) [
    | inl e ↦ rw e (track-Untouched p d m t u)
    | inr e ↦ rw e (prioritise-Untouched c p d m _ (track-Untouched p d m t u))
  ]

  count_miss-Untouched : (l : ℤ) (m t : Monitor F h) → Untouched m t → Untouched m (count_miss l t)
  unfolding count_miss
  count_miss-Untouched l m t u = ground arith

  sample-Tallied :
      (k p : ℕ) (d : NodeData) (ack : F.Float) (m : Monitor F h)
      → k + 1 < 2 ^ 32
      → Tallied k m
      → m.idx_hy < m.thre
      → Tallied k (sample p d ack m)
  unfolding sample
  sample-Tallied k p d ack m small w lt =
      let sum = highs-lows m.pri m.idx_hy in
      let next : (m.idx_hy + 1) % 2 ^ 64 ≡ m.idx_hy + 1 = omega (arith, small, w.within) in
      elim (Bool-cases (truthy (m.req_hy_count p).pri)) [
        | inl e ↦ record {
          within = (w.within.0, omega (arith, small, w.within, lt));
          high =
              rw (e, next, highs-snoc m.pri m.idx_hy (pos 1))
                (omega (arith, small, w.within, w.high, sum));
          low = rw (e, next, lows-snoc m.pri m.idx_hy (pos 1)) w.low;
        }
        | inr e ↦ record {
          within = (w.within.0, omega (arith, small, w.within, lt));
          high = rw (e, next, highs-snoc m.pri m.idx_hy (pos 0)) w.high;
          low =
              rw (e, next, lows-snoc m.pri m.idx_hy (pos 0))
                (omega (arith, small, w.within, w.low, sum));
        }
      ]

  Samples-Tallied :
      (k : ℕ) (c : Mconfig) (stray : ReqTemp) (d : NodeData) (p : ℕ) (m : Monitor F h)
      → k + 1 < 2 ^ 32
      → Tallied k m
      → Samples c stray d (λ r. Tallied k (count_miss r.0 r.1)) p m
  Samples-Tallied k c stray d p m small w = record {
    taken = λ ack fresh lt.
        let t = sample p d ack m in
        Untouched-Tallied k t _ (count_miss-Untouched _ t t (untouched t))
          (sample-Tallied k p d ack m small w lt);
    again =
        let t : Monitor F h = record m { rsp_recount = inc32 m.rsp_recount } in
        Untouched-Tallied k m _
          (count_miss-Untouched _ m t (record {
            thre = refl;
            idx_hy = refl;
            pri = refl;
            idx_pri_high = refl;
            idx_pri_low = refl;
          }))
          w;
  }

  pub handle-Tallied :
      (k : ℕ) (c : Mconfig) (stray : ReqTemp) (d : NodeData) (m : Monitor F h)
      → k + 1 < 2 ^ 32
      → Tallied k m
      → Holds (Tallied k) (handle c stray d m)
  handle-Tallied k c stray d m small w =
      let Q : ℤ × Monitor F h → Type 0 = λ r. Tallied k (count_miss r.0 r.1) in
      let seen : Monitor F h = record m { pkt_rep = inc32 m.pkt_rep } in
      let w' : Tallied k seen = record { within = w.within; high = w.high; low = w.low } in
      handle_rule c stray (Tallied k) d m (
        process_rule c stray d Q m
          (λ p t e.
            Untouched-Tallied k m _
              (count_miss-Untouched _ m _ (
                note_request-Untouched c p d m _ (record {
                  thre = refl;
                  idx_hy = refl;
                  pri = refl;
                  idx_pri_high = refl;
                  idx_pri_low = refl;
                })))
              w)
          (λ t.
            Untouched-Tallied k m _
              (count_miss-Untouched _ m seen (record {
                thre = refl;
                idx_hy = refl;
                pri = refl;
                idx_pri_high = refl;
                idx_pri_low = refl;
              }))
              w)
          (λ p t e.
            measure_rule c stray d Q p seen
              (Untouched-Tallied k m _
                (count_miss-Untouched _ m seen (record {
                  thre = refl;
                  idx_hy = refl;
                  pri = refl;
                  idx_pri_high = refl;
                  idx_pri_low = refl;
                }))
                w)
              (rw (extend-Within k seen w.within) (Samples-Tallied k c stray d p seen small w'))
              (rw (extend-Within k seen w.within) (
                Samples-Tallied k c stray d p (prioritise c p d seen) small (
                  Untouched-Tallied k seen _
                    (prioritise-Untouched c p d seen seen (record {
                      thre = refl;
                      idx_hy = refl;
                      pri = refl;
                      idx_pri_high = refl;
                      idx_pri_low = refl;
                    }))
                    w'))))
          (λ t t'. Untouched-Tallied k m _ (count_miss-Untouched _ m m (untouched m)) w))
