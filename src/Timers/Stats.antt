-- ===== src/Timers/Stats.antt =====
-- `print_stats` of HCMonitor/main.c: what the statistics core prints of the ports.
pub mod Sums
use mathlib.Core.List.{map-append}
use hcmonitor.Prelude.{
  ℕ, zero, suc, ◌+◌, ◌*◌, ◌%◌, ◌^◌, ◌<◌, ◌≡◌, refl, ◌∙◌, arith, if◌then◌else◌, List, [], ◌∷◌, ◌++◌,
  map, Bool-cases, inl, inr,
}
use hcmonitor.Ports.{is_enabled}

-- `struct l2fwd_port_statistics`, as far as it is printed.
pub record PortStatistics : Type 0 where
  pub tx : ℕ
  pub dropped : ℕ
  pub freed : ℕ
  pub tcp_psh : ℕ

-- What the cores count: `queue_states` and `pkt_free` for the receiving queues, of which there are
-- `rx_que`, and the statistics of the ports.
pub record Counts : Type 0 where
  pub rx_que : ℕ
  pub queue_states : ℕ → ℕ
  pub pkt_free : ℕ → ℕ
  pub port_statistics : ℕ → PortStatistics

-- The numbers printed for a port, without those that the card keeps.
pub record PortReport : Type 0 where
  pub portid : ℕ
  pub sent : ℕ
  pub received : ℕ
  pub tcp : ℕ
  pub freed : ℕ
  pub dropped : ℕ

-- The variables of `print_stats`: two of 32 bits, the totals of 64, and what is printed so far.
pub record Totals : Type 0 where
  pub total_que_rx : ℕ
  pub total_pkt_free : ℕ
  pub total_packets_dropped : ℕ
  pub total_packets_freed : ℕ
  pub total_packets_tx : ℕ
  pub total_packets_rx : ℕ
  pub total_tcp_psh : ℕ
  pub printed : List PortReport

-- The inner loop: the counts of the first `n` queues are added to a variable of 32 bits.
unfoldable pub add_queues : (ℕ → ℕ) → ℕ → ℕ → ℕ
add_queues f zero total = total
add_queues f (suc n) total = (add_queues f n total + f n) % 2 ^ 32

-- A round of the loop over the ports.
unfoldable pub print_port : ℕ → Counts → ℕ → Totals → Totals
print_port mask c portid t =
    let que_rx = add_queues c.queue_states c.rx_que t.total_que_rx in
    let pkt_free = add_queues c.pkt_free c.rx_que t.total_pkt_free in
    let p = c.port_statistics portid in
    if is_enabled mask portid
    then record {
      total_que_rx = que_rx;
      total_pkt_free = pkt_free;
      total_packets_dropped = (t.total_packets_dropped + p.dropped) % 2 ^ 64;
      total_packets_freed = (t.total_packets_freed + p.freed) % 2 ^ 64;
      total_packets_tx = (t.total_packets_tx + p.tx) % 2 ^ 64;
      total_packets_rx = (t.total_packets_rx + que_rx) % 2 ^ 64;
      total_tcp_psh = (t.total_tcp_psh + p.tcp_psh) % 2 ^ 64;
      printed =
          t.printed
          ++ (record {
            portid = portid;
            sent = p.tx;
            received = que_rx;
            tcp = p.tcp_psh;
            freed = pkt_free;
            dropped = p.dropped;
          }
              ∷ []);
    }
    else t

-- `print_stats`, for the first `n` ports.
unfoldable pub print_stats : ℕ → Counts → ℕ → Totals
print_stats mask c zero = record {
  total_que_rx = 0;
  total_pkt_free = 0;
  total_packets_dropped = 0;
  total_packets_freed = 0;
  total_packets_tx = 0;
  total_packets_rx = 0;
  total_tcp_psh = 0;
  printed = [];
}
print_stats mask c (suc n) = print_port mask c n (print_stats mask c n)
