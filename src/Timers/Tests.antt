-- ===== src/Timers/Tests.antt =====
-- The two clock loops and the statistics on small inputs.
use hcmonitor.Prelude.{
  ℕ, ◌+ℤ◌, ◌+◌, ◌*◌, ◌%◌, ◌^◌, ◌<◌, ◌≡◌, refl, pos, arith, List, [], ◌∷◌, map, option_or, ◌==◌,
  if◌then◌else◌,
}
use hcmonitor.Config.{Mconfig, init_config}
use hcmonitor.Hash.Model.{key_list, add_key}
use hcmonitor.Parse.Burst.{ip_num, burst_count, bump_burst, burst_index, is_burst}
use hcmonitor.Ports.{is_enabled}
use hcmonitor.Timers.{
  Reading, Tstamp, Line, Timer, timer_round, timer_loop, log_bursts, write_bursts, tstamp_round,
  tstamp_loop,
}
use hcmonitor.Timers.Logs.{log_times, timer_loop-log_times}
use hcmonitor.Timers.Due.{due, tstamp_loop-due}
use hcmonitor.Timers.Balance.{
  Event, packet, tick, IsBalanced, AreBalanced, happen, history, requests, totals, history-Kept,
}
use hcmonitor.Timers.Counts.{sum_to}
use hcmonitor.Timers.Stats.{Counts, print_stats}
use hcmonitor.Timers.Stats.Sums.{
  over_queues, over_ports, enabled_below, triangle, received_of, port_and_received,
  print_stats-totals,
}
use hcmonitor.Fixtures.{conf, request_frame, empty_node, capture}

-- A second passes, then half of one, then another.
abbrev readings : List Reading
readings =
    record { cur_sta = 2200000000; pkt_req = 5; pkt_rep = 3 }
    ∷ record { cur_sta = 3300000000; pkt_req = 7; pkt_rep = 7 }
    ∷ record { cur_sta = 4400000000; pkt_req = 9; pkt_rep = 8 }
    ∷ []

abbrev begun : Tstamp
begun = record { prev_sta = 0; timer_sta = 0; prev_req = 0; prev_rep = 0 }

tstamp_loop-due_example : tstamp_loop readings begun ≡ due 0 0 0 readings
tstamp_loop-due_example = tstamp_loop-due readings begun 0 refl (omega arith)

prints_twice :
    tstamp_loop readings begun
    ≡ record { at = 2200000000; requests = 5; responses = 3 }
      ∷ record { at = 4400000000; requests = 4; responses = 5 }
      ∷ []
unfolding tstamp_loop tstamp_round
prints_twice = refl

-- A request is counted, and then logged.
abbrev counting : Mconfig
counting = record conf { enable_mcc = pos 1 }

abbrev timer : Timer (key_list ip_num)
timer = record {
  prev_tsc = 0;
  timer_tsc = 0;
  bursts = (capture 4 0 0).bursts;
  counters = (capture 4 0 0).counters;
}

abbrev events : List Event
events = packet request_frame 14 empty_node ∷ tick 1000 ∷ []

abbrev reached : Timer (key_list ip_num) × List Line
reached = option_or (history counting 10 (pos 100) events timer) (timer, [])

timer-IsBalanced : IsBalanced timer
unfolding IsBalanced sum_to
timer-IsBalanced = refl

history-Kept_example :
    AreBalanced reached.1
    × IsBalanced reached.0
    × ((totals reached.1 + reached.0.counters.request_num) % 2 ^ 32
        ≡ (timer.counters.request_num + requests counting events) % 2 ^ 32)
unfolding history happen burst_count bump_burst burst_index is_burst timer_round log_bursts
    write_bursts init_config add_key ◌+ℤ◌
history-Kept_example =
    history-Kept counting 10 (pos 100) events timer reached.0 reached.1 timer-IsBalanced refl

logs_one : reached.1 ≡ record { numbers = 1 ∷ 0 ∷ 0 ∷ 0 ∷ 0 ∷ 0 ∷ []; total = 1 } ∷ []
unfolding history happen burst_count bump_burst burst_index is_burst timer_round log_bursts
    write_bursts init_config add_key ◌+ℤ◌
logs_one = refl

-- Ports 0 and 2, and two queues that received 10 and 5 packets.
abbrev counts : Counts
counts = record {
  rx_que = 2;
  queue_states = λ q. if q == 0 then 10 else 5;
  pkt_free = λ _. 1;
  port_statistics = λ _. record { tx = 1; dropped = 2; freed = 3; tcp_psh = 4 };
}

print_stats-totals_example :
    (map port_and_received (print_stats 5 counts 3).printed ≡ received_of 5 counts 3)
    × ((print_stats 5 counts 3).total_packets_tx ≡ over_ports 5 (λ _. 1) 3 % 2 ^ 64)
    × ((print_stats 5 counts 3).total_packets_dropped ≡ over_ports 5 (λ _. 2) 3 % 2 ^ 64)
    × ((print_stats 5 counts 3).total_packets_freed ≡ over_ports 5 (λ _. 3) 3 % 2 ^ 64)
    × ((print_stats 5 counts 3).total_tcp_psh ≡ over_ports 5 (λ _. 4) 3 % 2 ^ 64)
    × (enabled_below 5 3 * over_queues counts.queue_states 2 < 2 ^ 32
        → (print_stats 5 counts 3).total_packets_rx
          ≡ triangle (enabled_below 5 3) * over_queues counts.queue_states 2 % 2 ^ 64)
print_stats-totals_example = print_stats-totals 5 3 counts

-- The second port is said to have received what both queues did, twice.
twice : received_of 5 counts 3 ≡ (0, 15) ∷ (2, 30) ∷ []
unfolding received_of enabled_below over_ports over_queues is_enabled
twice = refl

-- Of these readings the second is too early; the period is over at the first and at the third.
abbrev clock_readings : List ℕ
clock_readings = 100 ∷ 105 ∷ 300 ∷ 350 ∷ []

timer_loop-log_times_example :
    map (λ (x : ℕ × Line). x.0) (timer_loop counting 10 (pos 100) clock_readings timer)
    ≡ log_times 10 100 0 0 clock_readings
unfolding init_config
timer_loop-log_times_example =
    timer_loop-log_times counting 10 100 refl (omega arith) (omega arith) clock_readings timer 0
      refl (omega arith)

logs_twice : log_times 10 100 0 0 clock_readings ≡ 100 ∷ 300 ∷ []
unfolding log_times
logs_twice = refl
