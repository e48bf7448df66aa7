-- ===== src/Timers.antt =====
-- The loops around the clock in `l2fwd_main_loop` of HCMonitor/main.c: the statistics core prints how
-- many requests and responses came since it last did, and the timer core logs and clears the counts
-- of the requests of each source.
pub mod Due
pub mod Logs
pub mod Counts
pub mod Balance
pub mod Stats
mod Tests
use hcmonitor.Prelude.{
  ℕ, zero, suc, ◌+◌, ◌-◌, ◌%◌, ◌^◌, ℤ, pos, leb, ltb, ltb_ℤ, to_unsigned, truthy, if◌then◌else◌,
  update, Option, some, none, List, [], ◌∷◌, ◌&&◌,
}
use hcmonitor.Config.{Mconfig}
use hcmonitor.Hash.{RteHash}
use hcmonitor.Parse.{Counters}
use hcmonitor.Parse.Burst.{BurstState}

-- The difference of two unsigned longs, and of two unsigned ints.
abbrev pub sub64 : ℕ → ℕ → ℕ
sub64 a b = (a + 2 ^ 64 - b) % 2 ^ 64

abbrev pub sub32 : ℕ → ℕ → ℕ
sub32 a b = (a + 2 ^ 32 - b) % 2 ^ 32

-- `timer_stper`: a second of a clock of 2.2 GHz.
abbrev pub timer_stper : ℕ
timer_stper = 2200000000

-- What a round of the statistics core reads: the cycle counter, `pkt_req` and `pkt_rep`.
pub record Reading : Type 0 where
  pub cur_sta : ℕ
  pub pkt_req : ℕ
  pub pkt_rep : ℕ

-- `prev_sta`, `timer_sta`, `prev_req` and `prev_rep`
pub record Tstamp : Type 0 where
  pub prev_sta : ℕ
  pub timer_sta : ℕ
  pub prev_req : ℕ
  pub prev_rep : ℕ

-- What it prints, and when: the requests and the responses since the last time.
pub record Rates : Type 0 where
  pub at : ℕ
  pub requests : ℕ
  pub responses : ℕ

-- A round of the statistics core.
unfoldable pub tstamp_round : Reading → Tstamp → Tstamp × Option Rates
tstamp_round r s =
    let timer_sta = (s.timer_sta + sub64 r.cur_sta s.prev_sta) % 2 ^ 64 in
    if leb timer_stper timer_sta
    then (
      record { prev_sta = r.cur_sta; timer_sta = 0; prev_req = r.pkt_req; prev_rep = r.pkt_rep },
      some (record {
        at = r.cur_sta;
        requests = sub32 r.pkt_req s.prev_req;
        responses = sub32 r.pkt_rep s.prev_rep;
      }),
    )
    else (record s { prev_sta = r.cur_sta; timer_sta = timer_sta }, none)

-- Its loop, over what it reads: what it prints, in order.
unfoldable pub tstamp_loop : List Reading → Tstamp → List Rates
tstamp_loop [] s = []
tstamp_loop (r ∷ rs) s =
    let (t, out) = tstamp_round r s in
    elim out [ none ↦ tstamp_loop rs t | some x ↦ x ∷ tstamp_loop rs t ]

-- A line of the burst log: the number of every source, and `request_num`.
pub record Line : Type 0 where
  pub numbers : List ℕ
  pub total : ℕ

-- The loop of the timer core over the sources, `left` of them from `i` on: each number is written and
-- then cleared.
unfoldable pub write_bursts : ℕ → ℕ → (ℕ → ℕ) → List ℕ × (ℕ → ℕ)
write_bursts i zero burst = ([], burst)
write_bursts i (suc left) burst =
    let (rest, cleared) = write_bursts (suc i) left (update burst i 0) in (burst i ∷ rest, cleared)

-- `prev_tsc` and `timer_tsc`, and the globals that the loop clears.
pub record Timer (h : RteHash) : Type 0 where
  pub prev_tsc : ℕ
  pub timer_tsc : ℕ
  pub bursts : BurstState h
  pub counters : Counters

module _ {h : RteHash} where
  -- The counts are logged, where enable_mcc is set, and start again.
  unfoldable pub log_bursts : Mconfig → Timer h → Timer h × Option Line
  log_bursts c s =
      if truthy c.enable_mcc
      then (let (numbers, burst) = write_bursts 0 6 s.bursts.burst in
          (
            record s {
              bursts = record (s.bursts) { burst = burst };
              counters = record (s.counters) { request_num = 0 };
            },
            some (record { numbers = numbers; total = s.counters.request_num }),
          ))
      else (s, none)

  -- A round of the timer core that reads `cur_tsc`: `drain_tsc` is how long it lets pass at least, and
  -- a `timer_period` that is not positive turns the timer off.
  unfoldable pub timer_round : Mconfig → ℕ → ℤ → ℕ → Timer h → Timer h × Option Line
  timer_round c drain_tsc timer_period cur_tsc s =
      let diff_tsc = sub64 cur_tsc s.prev_tsc in
      let timer_tsc = (s.timer_tsc + diff_tsc) % 2 ^ 64 in
      if ltb drain_tsc diff_tsc
      then (if ltb_ℤ (pos 0) timer_period
          then (if leb (to_unsigned (2 ^ 64) timer_period) timer_tsc
              then log_bursts c (record s { prev_tsc = cur_tsc; timer_tsc = 0 })
              else (record s { prev_tsc = cur_tsc; timer_tsc = timer_tsc }, none))
          else (record s { prev_tsc = cur_tsc }, none))
      else (s, none)

  -- Its loop, over what it reads of the clock: the lines that it logs, each with when.
  unfoldable pub timer_loop : Mconfig → ℕ → ℤ → List ℕ → Timer h → List (ℕ × Line)
  timer_loop c drain_tsc timer_period [] s = []
  timer_loop c drain_tsc timer_period (cur ∷ rs) s =
      let (t, out) = timer_round c drain_tsc timer_period cur s in
      elim out [
        | none ↦ timer_loop c drain_tsc timer_period rs t
        | some l ↦ (cur, l) ∷ timer_loop c drain_tsc timer_period rs t
      ]
