-- ===== src/Monitor/Online.antt =====
-- The state of `lcore_online` of HCMonitor/monitor.c, the split of the samples by priority with which
-- `cdf_acktime` begins, and the restart of the counters behind it.
pub mod Room
pub mod Tally
pub mod Handed
pub mod Laws
use hcmonitor.Prelude.{
  ℕ, zero, suc, ◌+◌, ◌*◌, ◌/◌, ◌%◌, ◌^◌, ◌<◌, ◌≤◌, ◌≡◌, ◌≢◌, refl, ap, ◌∙◌, sym, ℤ, pos, ltb, ◌==◌,
  ◌&&◌, not, truthy, to_unsigned, if◌then◌else◌, Option, some, none, update, arith, true, false,
  List, Bool-cases, inl, inr,
}
use hcmonitor.Config.{Mconfig}
use hcmonitor.Floats.{Floats}
use hcmonitor.Hash.{RteHash}
use hcmonitor.Node.{NodeData}
use hcmonitor.Monitor.{
  ReqTemp, Monitor, inc32, prioritise, track, note_request, sample, count_miss, extend, handle, run,
  clear_slots,
}
use hcmonitor.Monitor.Rule.{
  Holds, Holds-some, Samples, process_rule, measure_rule, handle_rule, All-Unit, run_rule,
}

-- `ack_pri_high` and `ack_pri_low`, `ph_size` and `pl_size` long, and how much of them is in use.
pub record Areas (F : Floats) : Type 0 where
  pub ack_pri_high : ℕ → F.Float
  pub ack_pri_low : ℕ → F.Float
  pub ph_size : ℕ
  pub pl_size : ℕ
  pub num_high : ℕ
  pub num_low : ℕ

-- The globals of the reporting core beside those of the monitor; `interval_cnt` is cleared behind each
-- report.
pub record Online (F : Floats) (h : RteHash) : Type 0 where
  pub monitor : Monitor F h
  pub areas : Areas F
  pub conn : ℕ
  pub conn_active_mid : ℕ
  pub min_count : ℕ
  pub lock_flag : ℤ

module _ {F : Floats} where
  -- The two tests for room before the split, with the counts of the monitor.
  unfoldable pub grow_areas : ℕ → ℕ → Areas F → Areas F
  grow_areas high low a = record a {
    ph_size = if ltb a.ph_size high then (high + 1) % 2 ^ 32 else a.ph_size;
    pl_size = if ltb a.pl_size low then (low + 1) % 2 ^ 32 else a.pl_size;
    num_high = 0;
    num_low = 0;
  }

  -- One sample goes to its area; a write outside is `none`.
  unfoldable pub place : F.Float → ℤ → Areas F → Option (Areas F)
  place time pri a =
      if truthy pri
      then (if ltb a.num_high a.ph_size
          then some (record a {
            ack_pri_high = update a.ack_pri_high a.num_high time;
            num_high = a.num_high + 1;
          })
          else none)
      else (if ltb a.num_low a.pl_size
          then some (record a {
            ack_pri_low = update a.ack_pri_low a.num_low time;
            num_low = a.num_low + 1;
          })
          else none)

  -- The loop over the first `n` samples.
  unfoldable pub split : (ℕ → F.Float) → (ℕ → ℤ) → ℕ → Areas F → Option (Areas F)
  split time pri zero a = some a
  split time pri (suc n) a = elim (split time pri n a) [
    | none ↦ none
    | some b ↦ place (time n) (pri n) b
  ]

module _ {F : Floats} {h : RteHash} where
  -- The split of `cdf_acktime` on the first `idx` samples.
  unfoldable pub split_by_pri : Mconfig → ℕ → Monitor F h → Areas F → Option (Areas F)
  split_by_pri c idx m a =
      if truthy c.enable_pri
      then split m.time m.pri idx (grow_areas m.idx_pri_high m.idx_pri_low a)
      else some a

  -- What the counters are after the samples were handed over.
  unfoldable pub restart : Monitor F h → Monitor F h
  restart m =
      let cleared = clear_slots (record m { idx_hy = 0; req_recount = 0; rsp_recount = 0 }) in
      record cleared { idx_pri_low = 0; idx_pri_high = 0; recv_pri_low = 0; recv_pri_high = 0 }
