-- ===== src/Setup.antt =====
-- `res_setup_hash` of HCMonitor/monitor.c: the state that the monitor core begins with.
pub mod Tick
pub mod Session
pub mod Connections
pub mod Views
pub mod Reports
mod Tests
use hcmonitor.Prelude.{
  ℕ, ◌+◌, ◌%◌, ◌^◌, pos, negsuc, Bool, to_unsigned, truthy, if◌then◌else◌, Option, some, none,
}
use hcmonitor.Config.{Mconfig}
use hcmonitor.Floats.{Floats}
use hcmonitor.Hash.{RteHash}
use hcmonitor.Parse.Burst.{BurstState}
use hcmonitor.Monitor.{ReqTemp, Monitor, req_hash_entries, clear_slots}
use hcmonitor.Monitor.Online.{Areas, Online}
use hcmonitor.Timers.{sub64}

-- `CAT_BUFF` and `BURST_HASH_ENTRIES`
abbrev pub cat_buff : ℕ
cat_buff = 80000000

abbrev pub burst_hash_entries : ℕ
burst_hash_entries = 128

-- `key_len` of the request table: the size of `struct http_tuple`, or of `struct ipv4_2tuple`.
abbrev pub req_key_len : Mconfig → ℕ
req_key_len c = if truthy c.enable_http then 12 else 8

-- What it sets up. `quesize` is `QUESIZE`.
pub record SetUp (F : Floats) (g h : RteHash) : Type 0 where
  pub max_size : ℕ
  pub online : Online F h
  pub bursts : BurstState g

-- The areas of the two priorities: with a rate, the high ones have that share of the samples.
unfoldable pub new_areas : (F : Floats) → Mconfig → Areas F
new_areas F c =
    let rate = F.of_bits c.pri_high_rate in
    let has_rate = F.lt (F.of_int (pos 0)) rate in
    let ph_size = to_unsigned (2 ^ 64) (F.to_int (F.mul (F.of_int (pos cat_buff)) rate)) in
    record {
      ack_pri_high = λ _. F.of_int (pos 0);
      ack_pri_low = λ _. F.of_int (pos 0);
      ph_size = if has_rate then ph_size else cat_buff;
      pl_size = if has_rate then sub64 cat_buff ph_size else cat_buff;
      num_high = 0;
      num_low = 0;
    }

-- The globals of the monitor with a new table: the arrays are zero from `calloc`, and the counters are
-- as the program starts.
unfoldable pub new_monitor : (F : Floats) (h : RteHash) → h.Table → Monitor F h
new_monitor F h table = clear_slots (record {
  table = table;
  maxseq = λ _. record {
    req_sent_seq = 0;
    ack_seq = 0;
    rsp_sent_seq = 0;
    ip_src = 0;
    port_src = 0;
    payload_len = 0;
  };
  req_hy_count = λ _. record { count = pos 0; idx = pos 0; pri = pos 0 };
  req_out_if = λ _. record { tv_sec = pos 0; tv_nsec = pos 0 };
  time = λ _. F.of_int (pos 0);
  pri = λ _. pos 0;
  thre = cat_buff;
  idx_hy = 0;
  pkt_req = 0;
  pkt_rep = 0;
  conn_active_hy = 0;
  req_recount = 0;
  rsp_recount = 0;
  recv_pri_high = 0;
  recv_pri_low = 0;
  idx_pri_high = 0;
  idx_pri_low = 0;
  timeout_50 = 0;
  miss_rep = 0;
})

-- What is set up with the two tables.
abbrev pub set_up : (F : Floats) (g h : RteHash) → Mconfig → ℕ → h.Table → g.Table → SetUp F g h
set_up F g h c quesize requests sources = record {
  max_size = quesize;
  online = record {
    monitor = new_monitor F h requests;
    areas = new_areas F c;
    conn = 0;
    conn_active_mid = 0;
    min_count = 0;
    lock_flag = pos 0;
  };
  bursts = record { table = sources; burst = λ _. 0; label = λ _. (0, 0) };
}

-- `res_setup_hash`. `create_req` and `create_burst` are `rte_hash_create` for the two tables, with the
-- entries and the key length; the program exits, `none`, where one of them fails.
unfoldable pub res_setup_hash :
    (F : Floats) (g h : RteHash)
    → (ℕ → ℕ → Option h.Table)
    → (ℕ → ℕ → Option g.Table)
    → Mconfig
    → ℕ
    → Option (SetUp F g h)
res_setup_hash F g h create_req create_burst c quesize =
    elim (create_req req_hash_entries (req_key_len c)) [
      | none ↦ none
      | some requests ↦ elim (create_burst burst_hash_entries 4) [
        | none ↦ none
        | some sources ↦ some (set_up F g h c quesize requests sources)
      ]
    ]
