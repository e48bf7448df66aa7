-- ===== src/Startup.antt =====
-- `main` of HCMonitor/main.c, up to where it launches the loops of the cores. What DPDK answers is a
-- parameter: whether each call succeeds, which cores are enabled, how many ports there are.
pub mod Boot
pub mod Ready
pub mod Queues
pub mod Launched
pub mod Flows
mod Tests
use hcmonitor.Prelude.{
  ℕ, zero, suc, ◌+◌, ◌%◌, ◌^◌, to_unsigned, Bool, true, false, not, ltb, ◌==◌, if◌then◌else◌,
  Option, some, none, List, [], ◌∷◌, ◌++◌,
}
use hcmonitor.Args.{Args}
use hcmonitor.Config.{Mconfig}
use hcmonitor.Cores.Roles.{Lcores, lcores}
use hcmonitor.Floats.{Floats}
use hcmonitor.Hash.{RteHash}
use hcmonitor.Node.{NodeData}
use hcmonitor.Ports.{is_enabled, pair_ports, LcoreQueueConf, conf_ports}
use hcmonitor.Ports.Links.{Checked, check_all_ports_link_status}
use hcmonitor.Queue.{PrQueue}
use hcmonitor.Queue.Init.{max_que_num, init_queue}
use hcmonitor.Setup.{SetUp, res_setup_hash}

-- The calls of DPDK whose results are tested, with the port and the queue, or how many queues.
pub data Call : Type 0 where
  eal_init : Call
  pool_create : ℕ → Call
  dev_configure : ℕ → ℕ → Call
  rx_queue_setup : ℕ → ℕ → Call
  tx_queue_setup : ℕ → Call
  dev_start : ℕ → Call
  ring_create : ℕ → Call

-- Why `main` is not followed further: `rte_exit`, which ends the program, or with `outside` an access
-- outside of an array, behind which C does not define what it does: it may go on.
pub data Stop : Type 0 where
  failed : Call → Stop
  bad_arguments : Stop
  outside : Stop
  no_ports : Stop
  lcore_disabled : ℕ → Stop
  all_disabled : Stop
  no_table : Stop

-- The calls that were made in order, and whether the program can be followed further.
pub data Outcome : Type 0 where
  stops : List Call → Stop → Outcome
  goes : List Call → Outcome

-- A part of `main`, behind the calls made so far.
abbrev pub Boot : Type 0
Boot = List Call → Outcome

-- What comes behind a part, if that goes on.
unfoldable pub after : Outcome → Boot → Outcome
after (stops made why) k = stops made why
after (goes made) k = k made

infixl 5 ◌>>◌
unfoldable pub ◌>>◌ : Boot → Boot → Boot
(m >> k) calls = after (m calls) k

-- A test that ends the program if it fails.
unfoldable pub test : Bool → Stop → Boot
test true why calls = goes calls
test false why calls = stops calls why

unfoldable pub skip : Boot
skip calls = goes calls

-- The queues that each port gets.
abbrev pub queues_of : Mconfig → ℕ
queues_of c = to_unsigned (2 ^ 16) c.rx_que

-- `nb_ports`, of `count` ports that DPDK has, and `RTE_MAX_ETHPORTS`.
abbrev pub ports_of : ℕ → ℕ → ℕ
ports_of max_ethports count =
    let nb_ports = count % 2 ^ 8 in if ltb max_ethports nb_ports then max_ethports else nb_ports

-- `nb_ports_available` behind the ports from `portid` on, `n` of them.
unfoldable pub available : ℕ → ℕ → ℕ → ℕ → ℕ
available mask zero portid nb = nb
available mask (suc n) portid nb =
    available mask n (portid + 1) (if is_enabled mask portid then nb else (nb + 255) % 2 ^ 8)

module _ (succeeds : Call → Bool) where
  -- A call, and the test of its result.
  unfoldable pub ask : Call → Boot
  ask call calls = test (succeeds call) (failed call) (calls ++ call ∷ [])

  -- The pools of the queues from `q` on, `n` of them; `l2fwd_pktmbuf_pool` has MAX_QUE_NUM entries,
  -- which are NULL before.
  unfoldable pub create_pools : ℕ → ℕ → Boot
  create_pools zero q = skip
  create_pools (suc n) q =
      test (ltb q max_que_num) outside >> ask (pool_create q) >> create_pools n (q + 1)

  -- The output rings, from `portid` on.
  unfoldable pub create_rings : ℕ → ℕ → Boot
  create_rings zero portid = skip
  create_rings (suc n) portid = ask (ring_create portid) >> create_rings n (portid + 1)

module _ (succeeds : Call → Bool) (lcore_is_enabled : ℕ → Bool) where
  -- The receive queues of a port, from `q` on.
  unfoldable pub rx_queues : ℕ → ℕ → ℕ → Boot
  rx_queues portid zero q = skip
  rx_queues portid (suc n) q =
      test (lcore_is_enabled q) (lcore_disabled q)
      >> ask succeeds (rx_queue_setup portid q)
      >> rx_queues portid n (q + 1)

  -- The body of the loop over the ports, for one that is enabled.
  unfoldable pub init_port : ℕ → ℕ → Boot
  init_port rx_queue portid =
      ask succeeds (dev_configure portid rx_queue)
      >> rx_queues portid rx_queue 0
      >> ask succeeds (tx_queue_setup portid)
      >> ask succeeds (dev_start portid)

  -- The loop, from `portid` on.
  unfoldable pub init_ports : ℕ → ℕ → ℕ → ℕ → Boot
  init_ports mask rx_queue zero portid = skip
  init_ports mask rx_queue (suc n) portid =
      (if is_enabled mask portid then init_port rx_queue portid else skip)
      >> init_ports mask rx_queue n (portid + 1)

  -- `main`, up to the output rings. `args_ok` is whether the arguments are accepted.
  unfoldable pub devices : Bool → ℕ → ℕ → ℕ → ℕ → Boot
  devices args_ok mask rx_queue max_ethports count =
      let nb_ports = ports_of max_ethports count in
      ask succeeds eal_init
      >> test args_ok bad_arguments
      >> create_pools succeeds rx_queue 0
      >> test (not (count % 2 ^ 8 == 0)) no_ports
      >> init_ports mask rx_queue nb_ports 0
      >> test (not (available mask nb_ports 0 nb_ports == 0)) all_disabled
      >> create_rings succeeds nb_ports 0

-- Whether the arguments are accepted, and `l2fwd_enabled_port_mask` then.
abbrev pub accepted : Option Args → Bool
accepted none = false
accepted (some a) = true

abbrev pub mask_of : Option Args → ℕ
mask_of none = 0
mask_of (some a) = a.port_mask

-- What the cores are launched with.
pub record Launch (F : Floats) (g h : RteHash) : Type 0 where
  pub dst_ports : ℕ → ℕ
  pub lcore_queue_conf : ℕ → LcoreQueueConf
  pub queues : List (Option PrQueue)
  pub set_up : SetUp F g h
  pub numbers : Lcores
  pub links : Option Checked

-- How `main` comes out, as far as it can be followed.
pub data Main (F : Floats) (g h : RteHash) : Type 0 where
  stopped : List Call → Stop → Main F g h
  launched : List Call → Launch F g h → Main F g h

module _ (F : Floats) (g h : RteHash) (create_req : ℕ → ℕ → Option h.Table)
    (create_burst : ℕ → ℕ → Option g.Table) (succeeds : Call → Bool) (lcore_is_enabled : ℕ → Bool)
    (up : ℕ → ℕ → Bool) where
  -- What `main` prepares of the settings, the ports, the queues and the tables.
  abbrev pub prepared : Mconfig → ℕ → ℕ → List (Option PrQueue) → SetUp F g h → Launch F g h
  prepared c mask nb_ports que tables = record {
    dst_ports = pair_ports mask nb_ports;
    lcore_queue_conf = conf_ports mask (queues_of c) nb_ports;
    queues = que;
    set_up = tables;
    numbers = lcores (to_unsigned (2 ^ 32) c.rx_que) (to_unsigned (2 ^ 32) c.pr_que);
    links = check_all_ports_link_status nb_ports mask up;
  }

  -- `main` behind the output rings, without OP_MYSQL, on settings whose numbers of cores are not
  -- negative; `garbage` is what `malloc` leaves in the queues.
  unfoldable pub launch : Mconfig → (ℕ → NodeData) → ℕ → ℕ → List Call → Main F g h
  launch c garbage mask nb_ports calls = elim (init_queue c garbage) [
    | none ↦ stopped calls outside
    | some (quesize, que) ↦ elim (res_setup_hash F g h create_req create_burst c quesize) [
      | none ↦ stopped calls no_table
      | some tables ↦ launched calls (prepared c mask nb_ports que tables)
    ]
  ]

  unfoldable pub launch_after : Mconfig → (ℕ → NodeData) → ℕ → ℕ → Outcome → Main F g h
  launch_after c garbage mask nb_ports (stops calls why) = stopped calls why
  launch_after c garbage mask nb_ports (goes calls) = launch c garbage mask nb_ports calls

  -- `main`; `args` is what `l2fwd_parse_args` makes of the arguments.
  unfoldable pub main : Mconfig → Option Args → (ℕ → NodeData) → ℕ → ℕ → Main F g h
  main c args garbage max_ethports count =
      launch_after c garbage (mask_of args) (ports_of max_ethports count) (
        devices succeeds lcore_is_enabled (accepted args) (mask_of args) (queues_of c) max_ethports
          count [])
