-- ===== src/Ports.antt =====
-- What `main` of HCMonitor/main.c sets up of the ports: where each port's packets would be sent, and
-- which ports a receiving core reads. DPDK gives the number of ports.
pub mod Pairing
pub mod Reading
pub mod Links
mod Tests
use hcmonitor.Prelude.{
  ℕ, zero, suc, ◌+◌, ◌/◌, ◌%◌, ◌^◌, ltb, ◌==◌, not, if◌then◌else◌, update, Bool,
}

-- `(l2fwd_enabled_port_mask & (1 << portid)) != 0`, of a mask of 32 bits.
unfoldable pub is_enabled : ℕ → ℕ → Bool
is_enabled mask portid = not (mask / 2 ^ portid % 2 == 0)

-- `l2fwd_dst_ports`, `last_port` and `nb_ports_in_mask`
pub record Pairs : Type 0 where
  pub dst_ports : ℕ → ℕ
  pub last_port : ℕ
  pub nb_ports_in_mask : ℕ

-- A round of the loop that pairs the ports.
unfoldable pub pair_port : ℕ → ℕ → Pairs → Pairs
pair_port mask portid s =
    if is_enabled mask portid
    then (if s.nb_ports_in_mask % 2 == 0
        then record s { last_port = portid; nb_ports_in_mask = s.nb_ports_in_mask + 1 }
        else record s {
          dst_ports = update (update s.dst_ports portid s.last_port) s.last_port portid;
          nb_ports_in_mask = s.nb_ports_in_mask + 1;
        })
    else s

-- The first `n` rounds.
unfoldable pub pair_first : ℕ → ℕ → Pairs
pair_first mask zero = record { dst_ports = λ _. 0; last_port = 0; nb_ports_in_mask = 0 }
pair_first mask (suc n) = pair_port mask n (pair_first mask n)

-- `l2fwd_dst_ports` behind the loop: an odd port is its own destination.
unfoldable pub pair_ports : ℕ → ℕ → ℕ → ℕ
pair_ports mask nb_ports =
    let s = pair_first mask nb_ports in
    if s.nb_ports_in_mask % 2 == 0 then s.dst_ports else update s.dst_ports s.last_port s.last_port

-- `struct lcore_queue_conf`, as far as the receiving cores read it.
pub record LcoreQueueConf : Type 0 where
  pub n_rx_port : ℕ
  pub n_rx_queue : ℕ
  pub rx_port_list : ℕ → ℕ

-- The inner loop, for the queues from 0 to before `n`: the port goes behind those of the queue, of
-- which it then has one.
unfoldable pub conf_queues : ℕ → ℕ → (ℕ → LcoreQueueConf) → ℕ → LcoreQueueConf
conf_queues portid zero conf = conf
conf_queues portid (suc n) conf =
    let before = conf_queues portid n conf in
    let q = before n in
    update before n (record {
      n_rx_port = 1;
      n_rx_queue = 1;
      rx_port_list = update q.rx_port_list q.n_rx_port portid;
    })

-- The loop over the first `n` ports, `rx_queue` queues to each; `lcore_queue_conf` is zero before.
unfoldable pub conf_ports : ℕ → ℕ → ℕ → ℕ → LcoreQueueConf
conf_ports mask rx_queue zero = λ _. record { n_rx_port = 0; n_rx_queue = 0; rx_port_list = λ _. 0 }
conf_ports mask rx_queue (suc n) =
    let before = conf_ports mask rx_queue n in
    if is_enabled mask n then conf_queues n rx_queue before else before
