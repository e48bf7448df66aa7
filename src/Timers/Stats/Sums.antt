-- ===== src/Timers/Stats/Sums.antt =====
-- The numbers that `print_stats` prints are sums.
use mathlib.Core.List.{map-append}
use hcmonitor.Prelude.{
  ℕ, zero, suc, ◌+◌, ◌*◌, ◌%◌, ◌^◌, ◌<◌, ◌≡◌, refl, ◌∙◌, arith, if◌then◌else◌, List, [], ◌∷◌, ◌++◌,
  map, Bool-cases, inl, inr,
}
use hcmonitor.Ports.{is_enabled}
use hcmonitor.Timers.Stats.{Counts, PortReport, Totals, add_queues, print_port, print_stats}

-- The sum of a count over the queues, and over the enabled ports.
unfoldable pub over_queues : (ℕ → ℕ) → ℕ → ℕ
over_queues f zero = 0
over_queues f (suc n) = over_queues f n + f n

unfoldable pub over_ports : ℕ → (ℕ → ℕ) → ℕ → ℕ
over_ports mask f zero = 0
over_ports mask f (suc n) = over_ports mask f n + (if is_enabled mask n then f n else 0)

-- The number of enabled ports below `n`, and the sum of the numbers up to `n`.
unfoldable pub enabled_below : ℕ → ℕ → ℕ
enabled_below mask n = over_ports mask (λ _. 1) n

unfoldable pub triangle : ℕ → ℕ
triangle zero = 0
triangle (suc n) = triangle n + suc n

add_queues-lem :
    (f : ℕ → ℕ) (n total a : ℕ)
    → total ≡ a % 2 ^ 32
    → add_queues f n total ≡ (a + over_queues f n) % 2 ^ 32
unfolding add_queues over_queues
add_queues-lem f zero total a e = omega (arith, e)
add_queues-lem f (suc n) total a e = omega (arith, add_queues-lem f n total a e)

triangle-suc : (k : ℕ) → triangle (k + 1) ≡ triangle k + (k + 1)
unfolding triangle
triangle-suc k = ground arith

-- A port more adds all that was received, once more than the port before.
received_total :
    (k q total now : ℕ)
    → (k * q < 2 ^ 32 → total ≡ triangle k * q % 2 ^ 64)
    → now ≡ (k + 1) * q % 2 ^ 32
    → (k + 1) * q < 2 ^ 32
    → (total + now) % 2 ^ 64 ≡ triangle (k + 1) * q % 2 ^ 64
received_total k q total now before e lt =
    let once_more : (k + 1) * q ≡ k * q + q = omega arith in
    let here = before (omega (arith, lt, once_more)) in
    let sum : (triangle k + (k + 1)) * q ≡ triangle k * q + (k + 1) * q = omega arith in
    rw (triangle-suc k, sum) (omega (arith, here, e, lt))

-- The received packets of the ports that are printed, in order: the k-th has k times the packets of
-- all queues.
unfoldable pub received_of : ℕ → Counts → ℕ → List (ℕ × ℕ)
received_of mask c zero = []
received_of mask c (suc n) =
    let before = received_of mask c n in
    let received = enabled_below mask (suc n) * over_queues c.queue_states c.rx_que % 2 ^ 32 in
    if is_enabled mask n then before ++ ((n, received) ∷ []) else before

abbrev pub port_and_received : PortReport → ℕ × ℕ
port_and_received r = (r.portid, r.received)

module _ (mask : ℕ) (c : Counts) where
  -- What the variables hold after the first `n` ports.
  record Summed (n : ℕ) (t : Totals) : Type 0 where
    que_rx : t.total_que_rx ≡ enabled_below mask n * over_queues c.queue_states c.rx_que % 2 ^ 32
    pkt_free : t.total_pkt_free ≡ enabled_below mask n * over_queues c.pkt_free c.rx_que % 2 ^ 32
    dropped :
        t.total_packets_dropped ≡ over_ports mask (λ p. (c.port_statistics p).dropped) n % 2 ^ 64
    freed : t.total_packets_freed ≡ over_ports mask (λ p. (c.port_statistics p).freed) n % 2 ^ 64
    tx : t.total_packets_tx ≡ over_ports mask (λ p. (c.port_statistics p).tx) n % 2 ^ 64
    tcp : t.total_tcp_psh ≡ over_ports mask (λ p. (c.port_statistics p).tcp_psh) n % 2 ^ 64
    rx :
        enabled_below mask n * over_queues c.queue_states c.rx_que < 2 ^ 32
        → t.total_packets_rx
          ≡ triangle (enabled_below mask n) * over_queues c.queue_states c.rx_que % 2 ^ 64
    reports : map port_and_received t.printed ≡ received_of mask c n

  print_stats-Summed : (n : ℕ) → Summed n (print_stats mask c n)
  unfolding print_stats print_port enabled_below over_ports triangle received_of
  print_stats-Summed zero = record {
    que_rx = omega arith;
    pkt_free = omega arith;
    dropped = refl;
    freed = refl;
    tx = refl;
    tcp = refl;
    rx = λ _. omega arith;
    reports = refl;
  }
  print_stats-Summed (suc n) =
      let v = print_stats-Summed n in
      let t = print_stats mask c n in
      let k = over_ports mask (λ _. 1) n in
      let q = over_queues c.queue_states c.rx_que in
      let f = over_queues c.pkt_free c.rx_que in
      elim (Bool-cases (is_enabled mask n)) [
        | inr off ↦
            let same : k + 0 ≡ k = omega arith in
            rw off (record {
              que_rx = rw (off, same) v.que_rx;
              pkt_free = rw (off, same) v.pkt_free;
              dropped = rw off (omega (arith, v.dropped));
              freed = rw off (omega (arith, v.freed));
              tx = rw off (omega (arith, v.tx));
              tcp = rw off (omega (arith, v.tcp));
              rx = rw (off, same) v.rx;
              reports = rw off v.reports;
            })
        | inl on ↦
            let grown = add_queues-lem c.queue_states c.rx_que t.total_que_rx (k * q) v.que_rx in
            let once_more : (k + 1) * q ≡ k * q + q = omega arith in
            let received : add_queues c.queue_states c.rx_que t.total_que_rx
                ≡ (k + 1) * q % 2 ^ 32 =
              omega (arith, grown, once_more) in
            rw on (record {
              que_rx = rw on received;
              pkt_free = rw on (
                  omega (
                    arith,
                    add_queues-lem c.pkt_free c.rx_que t.total_pkt_free (k * f) v.pkt_free,
                  ));
              dropped = rw on (omega (arith, v.dropped));
              freed = rw on (omega (arith, v.freed));
              tx = rw on (omega (arith, v.tx));
              tcp = rw on (omega (arith, v.tcp));
              rx = rw on (λ lt. received_total k q t.total_packets_rx _ v.rx received lt);
              reports =
                  map-append port_and_received t.printed _ ∙ rw (on, received, v.reports) refl;
            })
      ]

-- What is printed of the ports, in order, is as received the packets of all queues, once for the
-- first enabled port, twice for the second, and so on, modulo 2 ^ 32. The totals that are sent,
-- dropped, freed and TCP are the sums over the enabled ports modulo 2 ^ 64; that received is, while
-- the count of a port does not wrap, the packets of all queues times the sum of the numbers from 1
-- to the number of enabled ports, modulo 2 ^ 64.
pub print_stats-totals :
    (mask n : ℕ) (c : Counts)
    → let t = print_stats mask c n in
      let k = enabled_below mask n in
      let received = over_queues c.queue_states c.rx_que in
      (map port_and_received t.printed ≡ received_of mask c n)
      × (t.total_packets_tx ≡ over_ports mask (λ p. (c.port_statistics p).tx) n % 2 ^ 64)
      × (t.total_packets_dropped ≡ over_ports mask (λ p. (c.port_statistics p).dropped) n % 2 ^ 64)
      × (t.total_packets_freed ≡ over_ports mask (λ p. (c.port_statistics p).freed) n % 2 ^ 64)
      × (t.total_tcp_psh ≡ over_ports mask (λ p. (c.port_statistics p).tcp_psh) n % 2 ^ 64)
      × (k * received < 2 ^ 32 → t.total_packets_rx ≡ triangle k * received % 2 ^ 64)
print_stats-totals mask n c =
    let v = print_stats-Summed mask c n in (v.reports, v.tx, v.dropped, v.freed, v.tcp, v.rx)
