-- ===== src/Fixtures.antt =====
-- Settings, frames and states that the tests run on.
use hcmonitor.Prelude.{ℕ, ℤ, pos, negsuc, List, [], ◌∷◌, ◌++◌, get_or}
use hcmonitor.Config.{Mconfig, init_config}
use hcmonitor.Floats.Fixed.{fixed}
use hcmonitor.Hash.Model.{key_list}
use hcmonitor.Wire.{Memory}
use hcmonitor.Node.{Timespec, NodeData}
use hcmonitor.Parse.Burst.{ip_num}
use hcmonitor.Queue.{Capture}
use hcmonitor.Monitor.{req_hash_entries, ReqTemp, Monitor}

-- setting.cfg as it is shipped, in what the tests read.
abbrev pub conf : Mconfig
unfolding init_config
conf = record init_config {
  enable_http = pos 0;
  req_label = pos 0 ∷ pos 2 ∷ [];
  resp_label = pos 1 ∷ pos 3 ∷ [];
  label_count = pos 2;
  buffer_len = pos 4;
}

abbrev pub frame : List ℕ → Memory
frame bytes (pos a) = get_or bytes a 0
frame bytes (negsuc a) = 0

abbrev ether : List ℕ
ether = 0 ∷ 0 ∷ 0 ∷ 0 ∷ 0 ∷ 0 ∷ 0 ∷ 0 ∷ 0 ∷ 0 ∷ 0 ∷ 0 ∷ 8 ∷ 0 ∷ []

-- An IPv4 header for TCP with 8 bytes of payload, from host `a` to host `b` of 10.0.0.0/24.
abbrev ipv4 : ℕ → ℕ → List ℕ
ipv4 a b = 0x45 ∷ 0 ∷ 0 ∷ 48 ∷ 0 ∷ 0 ∷ 0 ∷ 0 ∷ 64 ∷ 6 ∷ 0 ∷ 0 ∷ 10 ∷ 0 ∷ 0 ∷ a ∷ 10 ∷ 0 ∷ 0 ∷ b ∷ []

-- A TCP header: ports, low bytes of the sequence number and of the acknowledgement.
abbrev tcp : ℕ → ℕ → ℕ → ℕ → List ℕ
tcp sport dport seq ack =
    15 ∷ sport ∷ 15 ∷ dport ∷ 0 ∷ 0 ∷ 3 ∷ seq ∷ 0 ∷ 0 ∷ 3 ∷ ack ∷ 0x50 ∷ 0x18 ∷ 0 ∷ 0 ∷ 0 ∷ 0 ∷ 0
    ∷ 0 ∷ []

-- Eight bytes of payload, with the priority at offset 5 and the label at offset 6.
abbrev body : ℕ → List ℕ
body label = 0 ∷ 0 ∷ 0 ∷ 0 ∷ 0 ∷ 1 ∷ label ∷ 0 ∷ []

abbrev pub request_frame : Memory
request_frame = frame (ether ++ (ipv4 1 2 ++ (tcp 160 80 232 1 ++ body 2)))

abbrev pub response_frame : Memory
response_frame = frame (ether ++ (ipv4 2 1 ++ (tcp 80 160 1 240 ++ body 1)))

abbrev pub clock : ℤ → Timespec
clock s = record { tv_sec = s; tv_nsec = pos 0 }

abbrev pub empty_node : NodeData
empty_node = record {
  status = pos 0;
  key = record { ip_src = 0; port_src = 0; padding = 0 };
  key_status = pos 0;
  ts = record { tv_sec = pos 0; tv_nsec = pos 0 };
  sent_seq = 0;
  ack_seq = 0;
  total_len = 0;
  type = pos 0;
  pri = pos 0;
}

-- A capture side of queues of `size` slots, with the given indices.
abbrev pub capture : ℕ → ℕ → ℕ → Capture (key_list ip_num)
capture size occupy deque = record {
  max_size = size;
  que = λ _. record {
    ring = record { slots = λ _. empty_node; occupy = occupy; deque = deque };
    cap = size;
  };
  counters = record { request_num = 0; response_num = 0 };
  bursts = record { table = []; burst = λ _. 0; label = λ _. (0, 0) };
}

-- What a read outside of `Maxseq` finds.
abbrev pub stray : ReqTemp
stray = record {
  req_sent_seq = 7;
  ack_seq = 7;
  rsp_sent_seq = 7;
  ip_src = 7;
  port_src = 7;
  payload_len = 7;
}

abbrev blank : ReqTemp
blank = record {
  req_sent_seq = 0;
  ack_seq = 0;
  rsp_sent_seq = 0;
  ip_src = 0;
  port_src = 0;
  payload_len = 0;
}

-- A monitor at its start, with room for `n` samples.
abbrev pub monitor_at : ℕ → Monitor fixed (key_list req_hash_entries)
monitor_at n = record {
  table = [];
  maxseq = λ _. blank;
  req_hy_count = λ _. record { count = pos 0; idx = pos 0; pri = negsuc 0 };
  req_out_if = λ _. record { tv_sec = pos 0; tv_nsec = pos 0 };
  time = λ _. pos 0;
  pri = λ _. pos 0;
  thre = n;
  idx_hy = 0;
  pkt_req = 0;
  pkt_rep = 0;
  conn_active_hy = 0;
  req_recount = 0;
  rsp_recount = 0;
  recv_pri_high = 0;
  recv_pri_low = 0;
  idx_pri_high = 0;
  idx_pri_low = 0;
  timeout_50 = 0;
  miss_rep = 0;
}
