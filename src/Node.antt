-- ===== src/Node.antt =====
-- `struct node_data` of HCMonitor/rx_queue.h: what is kept of a packet for the latency match.
use hcmonitor.Prelude.{ℕ, ℤ, ◌^◌, List, [], ◌∷◌, truthy, if◌then◌else◌, to_unsigned}
use hcmonitor.Config.{Mconfig}

-- `struct timespec`: two longs.
pub record Timespec : Type 0 where
  pub tv_sec : ℤ
  pub tv_nsec : ℤ

-- `struct ipv4_2tuple` as it lies in memory: two bytes of padding follow the port.
pub record Ipv4Tuple : Type 0 where
  pub ip_src : ℕ
  pub port_src : ℕ
  pub padding : ℕ

-- `struct node_data`. `status` and `key_status` exist in a build with USE_HTTP only.
pub record NodeData : Type 0 where
  pub status : ℤ
  pub key : Ipv4Tuple
  pub key_status : ℤ
  pub ts : Timespec
  pub sent_seq : ℕ
  pub ack_seq : ℕ
  pub total_len : ℕ
  pub type : ℤ
  pub pri : ℤ

-- The bytes that rte_hash reads at `&data->key`, as the fields that they make up: the key length is
-- 12 under `enable_http` (`sizeof(struct http_tuple)`), else 8, and behind the eight bytes of the
-- key stand the low four of `ts.tv_sec`.
unfoldable pub key_bytes : Mconfig → NodeData → List ℕ
key_bytes c d =
    d.key.ip_src
    ∷ d.key.port_src
    ∷ d.key.padding
    ∷ (if truthy c.enable_http then to_unsigned (2 ^ 32) d.ts.tv_sec ∷ [] else [])
