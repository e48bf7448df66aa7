-- ===== src/Setup/Tick.antt =====
-- `lcore_online` of HCMonitor/monitor.c: the end of an interval, with the whole of `cdf_acktime` and
-- `clear`, without OP_MYSQL.
use hcmonitor.Prelude.{
  ℕ, ◌≡◌, arith, ◌+◌, ◌*◌, ◌/◌, ◌%◌, ◌^◌, pos, ltb, ltb_ℤ, ◌+ℤ◌, ◌==◌, ◌&&◌, not, truthy,
  to_unsigned, if◌then◌else◌, Option, some, none, false,
}
use hcmonitor.Config.{Mconfig}
use hcmonitor.Floats.{Floats}
use hcmonitor.Hash.{RteHash}
use hcmonitor.Monitor.Online.{Areas, Online, split_by_pri, restart}
use hcmonitor.Figures.Report.{Report, report}

-- What a report depends on beside the samples: the C library's `qsort`, the arithmetic on doubles,
-- what stands in the memory behind `u`, and in the counter of `goodputcnt`.
pub record Printing (F : Floats) : Type 0 where
  pub qsort : (ℕ → F.Float) → ℕ → ℕ → F.Float
  pub scaled : ℕ → F.Float → ℕ
  pub beyond : ℕ → F.Float
  pub garbage : ℕ

-- `memcpy` of the first `n` samples to `ack_time_hy`, which `clear` has set to 0.
unfoldable pub copied : (F : Floats) → ℕ → (ℕ → F.Float) → ℕ → F.Float
copied F n time i = if ltb i n then time i else F.of_int (pos 0)

module _ {F : Floats} where
  -- What `cdf_acktime` reports behind the split, of `idx` samples in `time` and in the areas.
  unfoldable pub print_samples :
      Printing F → Mconfig → ℕ → ℕ → ℕ → (ℕ → F.Float) → Areas F → Option (Report F)
  print_samples o c conn thre idx time a =
      report F o.qsort o.scaled false o.beyond o.garbage conn (to_unsigned (2 ^ 32) c.interval)
        (truthy c.enable_pri) thre (copied F idx time) idx a (λ _. 0)

  -- What `clear` makes of the areas.
  unfoldable pub clear_areas : Areas F → Areas F
  clear_areas a = record a {
    ack_pri_high = λ _. F.of_int (pos 0);
    ack_pri_low = λ _. F.of_int (pos 0);
  }

-- `BLOCK`
abbrev block : ℕ
block = 1000

module _ {F : Floats} {h : RteHash} where
  -- `lcore_online` before its loop.
  unfoldable pub enter_online : Online F h → Online F h
  enter_online s =
      if ltb_ℤ s.lock_flag (pos block) then record s { lock_flag = s.lock_flag +ℤ pos 1 } else s

  -- A round of its loop, and what it reports; an interval of 0 is a division by zero.
  unfoldable pub tick : Printing F → Mconfig → Online F h → Option (Online F h × Option (Report F))
  tick o c s =
      let m = s.monitor in
      let span = to_unsigned (2 ^ 32) c.interval in
      let idx = m.idx_hy % 2 ^ 32 in
      let counted : Online F h = record s {
        conn = m.conn_active_hy;
        conn_active_mid = m.conn_active_hy * 60 % 2 ^ 32 / span;
        min_count = s.min_count + 1;
        monitor = record m { conn_active_hy = 0 };
      } in
      if span == 0
      then none
      else if truthy s.lock_flag && not (m.idx_hy == 0)
      then elim (split_by_pri c idx m s.areas) [
        | none ↦ none
        | some a ↦ elim (print_samples o c m.conn_active_hy m.thre idx m.time a) [
          | none ↦ none
          | some r ↦ some (
            record counted {
              areas = clear_areas a;
              monitor = restart (record m { conn_active_hy = 0 });
            },
            some r,
          )
        ]
      ]
      else some (record counted { lock_flag = pos 1 }, none)

  pub enter_online-monitor : (s : Online F h) → (enter_online s).monitor ≡ s.monitor
  unfolding enter_online
  enter_online-monitor s = ground arith
