-- ===== src/Cores/Roles.antt =====
-- Which loop a core runs, HCMonitor/main.c: the numbers of the cores that `main` sets, and the tests
-- of `l2fwd_main_loop`. The numbers of receiving and processing cores are not negative.
pub mod Covers
use mathlib.Core.Path.{subst}
use native.Mathlib.Nat.{
  div-eq_of_lt-le, div-lt_iff_lt-mul, lt-div-mul-add, div-mul-le_self, div-add-mod, zero-mod,
}
use hcmonitor.Prelude.{
  ℕ, zero, suc, ◌+◌, ◌-◌, ◌*◌, ◌/◌, ◌%◌, ◌<◌, ◌≤◌, ◌≡◌, ◌≢◌, ◌↔◌, ◌⊎◌, refl, sym, if◌then◌else◌,
  true, false, arith, inl, ltb, leb, ◌==◌, ◌&&◌, dec_lt,
}
use hcmonitor.Ports.{is_enabled, conf_ports}
use hcmonitor.Ports.Reading.{conf_ports-first_only}

-- `RX_LCORE` to `SSD_LCORE`
pub record Lcores : Type 0 where
  pub rx : ℕ
  pub pcap : ℕ
  pub monitor : ℕ
  pub timer : ℕ
  pub cdf : ℕ
  pub tstamp : ℕ

-- Where `main` sets them.
unfoldable pub lcores : ℕ → ℕ → Lcores
lcores rx_que pr_que =
    let pcap = 0 + rx_que in
    let monitor = pcap + pr_que in
    let timer = monitor + 1 in
    let cdf = timer + 1 in
    record { rx = 0; pcap = pcap; monitor = monitor; timer = timer; cdf = cdf; tstamp = cdf + 1 }

-- The loop that a core does not leave; a processing core's goes over the rings from `pos` to before
-- `end`.
pub data Role : Type 0 where
  process : ℕ → ℕ → Role
  monitor : Role
  tstamp : Role
  timer : Role
  cdf : Role
  receive : Role
  idle : Role

-- `l2fwd_main_loop` on core `lcore_id`, whose queue configuration has `n_rx_port` ports.
unfoldable pub main_loop : ℕ → ℕ → ℕ → ℕ → Role
main_loop rx_que pr_que n_rx_port lcore_id =
    let l = lcores rx_que pr_que in
    let idx = lcore_id - l.pcap in
    let dive = rx_que / pr_que in
    if leb rx_que lcore_id && ltb lcore_id l.monitor
    then process (idx * dive) ((idx + 1) * dive)
    else if lcore_id == l.monitor
    then monitor
    else if lcore_id == l.tstamp
    then tstamp
    else if lcore_id == l.timer
    then timer
    else if lcore_id == l.cdf
    then cdf
    else if n_rx_port == 0
    then idle
    else receive

-- Core `lcore_id` takes packets out of ring `i`.
unfoldable pub Handles : ℕ → ℕ → ℕ → ℕ → ℕ → Type 0
Handles rx_que pr_que n_rx_port lcore_id i =
    (pos end : ℕ) × (main_loop rx_que pr_que n_rx_port lcore_id ≡ process pos end)
    × (pos ≤ i)
    × (i < end)
