-- ===== src/Monitor/Online/Laws.antt =====
-- The samples of an interval fit into the two areas that they are split into.
use hcmonitor.Prelude.{ℕ, ◌+◌, ◌^◌, ◌<◌, ◌≡◌, refl, ◌∙◌, truthy, some, arith, true, List}
use hcmonitor.Config.{Mconfig}
use hcmonitor.Floats.{Floats}
use hcmonitor.Hash.{RteHash}
use hcmonitor.Node.{NodeData}
use hcmonitor.Monitor.{ReqTemp, Monitor, run, clear_slots}
use hcmonitor.Monitor.Rule.{Holds-some, All-Unit, run_rule}
use hcmonitor.Monitor.Online.{Areas, grow_areas, split_by_pri, restart}
use hcmonitor.Monitor.Online.Room.{highs, lows, highs-lows, split-IsSplit, grow_areas-fits}
use hcmonitor.Monitor.Online.Tally.{Tallied, handle-Tallied}

module _ {F : Floats} {h : RteHash} where
  pub split_by_pri-Tallied :
      (k : ℕ) (c : Mconfig) (t : Monitor F h) (a : Areas F)
      → k + 1 < 2 ^ 32
      → truthy c.enable_pri ≡ true
      → Tallied k t
      → (b : Areas F) × (split_by_pri c t.idx_hy t a ≡ some b)
        × (b.num_high ≡ t.idx_pri_high)
        × (b.num_low ≡ t.idx_pri_low)
        × (b.num_high + b.num_low ≡ t.idx_hy)
  unfolding split_by_pri grow_areas
  split_by_pri-Tallied k c t a small on w =
      let sum = highs-lows t.pri t.idx_hy in
      let le = w.within.1 in
      let fits =
        grow_areas-fits t.idx_pri_high t.idx_pri_low a (omega (arith, w.high, sum, le, small))
          (omega (arith, w.low, sum, le, small)) in
      let (b, f, s) =
        split-IsSplit t.time t.pri t.idx_hy (grow_areas t.idx_pri_high t.idx_pri_low a) refl refl
          (omega (arith, w.high, fits.0)) (omega (arith, w.low, fits.1)) in
      (b, rw on f, s.high ∙ w.high, s.low ∙ w.low, omega (arith, s.high, s.low, sum))

  -- Over any records that are handled since the last report, with arrays of fewer than 2 ^ 32 - 1
  -- samples: `cdf_acktime` finds room for every sample in the area of its priority, and fills these
  -- areas to just what the monitor has counted, which together is every sample once. Behind the
  -- restart the counts and the samples agree again.
  run-split_by_pri :
      (c : Mconfig) (stray : ReqTemp) (ds : List NodeData) (m t : Monitor F h) (a : Areas F)
      → m.thre + 1 < 2 ^ 32
      → truthy c.enable_pri ≡ true
      → Tallied m.thre m
      → run c stray ds m ≡ some t
      → (b : Areas F) × (split_by_pri c t.idx_hy t a ≡ some b)
        × (b.num_high ≡ t.idx_pri_high)
        × (b.num_low ≡ t.idx_pri_low)
        × (b.num_high + b.num_low ≡ t.idx_hy)
        × Tallied m.thre (restart t)
  unfolding restart clear_slots highs lows
  run-split_by_pri c stray ds m t a small on w e =
      let w' : Tallied m.thre t =
        Holds-some (Tallied m.thre) (run c stray ds m)
          (run_rule c stray (Tallied m.thre) (λ _. Unit)
            (λ d u x v. handle-Tallied m.thre c stray d u small v) ds m (All-Unit ds) w)
          e in
      let (b, f, high, low, sum) = split_by_pri-Tallied m.thre c t a small on w' in
      (
        b,
        f,
        high,
        low,
        sum,
        record { within = (w'.within.0, omega arith); high = refl; low = refl },
      )
