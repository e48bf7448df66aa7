-- ===== src/Monitor/Tests.antt =====
-- The monitor on concrete records, with a table that meets the laws of rte_hash.
use hcmonitor.Prelude.{
  ℕ, ◌+◌, ◌*◌, ◌≡◌, ◌↔◌, refl, ℤ, pos, ◌+ℤ◌, ◌-ℤ◌, ◌*ℤ◌, List, [], ◌∷◌, none, some, option_or,
  update, arith,
}
use hcmonitor.Config.{Mconfig, init_config, m_req, m_rsp}
use hcmonitor.Floats.Fixed.{fixed, quotient}
use hcmonitor.Hash.Model.{key_list, key_list-laws, add_key}
use hcmonitor.Node.{NodeData, key_bytes}
use hcmonitor.Fixtures.{stray, monitor_at}
use hcmonitor.Monitor.{
  process_response, measure, record_sample, extend, req_hash_entries, Monitor, latency,
  process_request, note_request, track, prioritise, count_miss, response_time_process, handle, run,
  out_of_window,
}
use hcmonitor.Monitor.Bounds.{response-fault_iff}
use hcmonitor.Monitor.Isolation.{Kept, run-Kept}
use hcmonitor.Monitor.Latency.{handle-latency}

abbrev conf : Mconfig
unfolding init_config
conf = record init_config { enable_http = pos 0 }

-- A record of type `type` from client `ip`, at `ms` milliseconds past five seconds.
abbrev node : ℤ → ℕ → ℕ → ℕ → NodeData
node type ip seq ms = record {
  status = pos 0;
  key = record { ip_src = ip; port_src = 4000; padding = 0 };
  key_status = pos 0;
  ts = record { tv_sec = pos 5; tv_nsec = pos (ms * 1000000) };
  sent_seq = seq;
  ack_seq = 0;
  total_len = 100;
  type = type;
  pri = pos 1;
}

-- Client 1 asks, client 2 asks, client 1 is answered 3 ms after it asked.
abbrev asked : List NodeData
asked = node m_req 1 1000 0 ∷ node m_req 2 5000 1 ∷ []

abbrev answer : NodeData
answer = node m_rsp 1 1100 3

abbrev mid : Monitor fixed (key_list req_hash_entries)
mid = option_or (run conf stray asked (monitor_at 10)) (monitor_at 10)

mid_runs : run conf stray asked (monitor_at 10) ≡ some mid
unfolding run handle response_time_process process_request note_request track prioritise count_miss
    key_bytes init_config add_key
mid_runs = refl

handle-latency_example :
    (t : Monitor fixed (key_list req_hash_entries)) × (handle conf stray answer mid ≡ some t)
    × (t.idx_hy ≡ mid.idx_hy + 1)
    × (t.time ≡ update mid.time mid.idx_hy (latency fixed (answer.ts) ((node m_req 1 1000 0).ts)))
    × (t.miss_rep ≡ mid.miss_rep)
unfolding run handle response_time_process process_request note_request track prioritise count_miss
    key_bytes init_config add_key latency quotient ◌-ℤ◌ ◌*ℤ◌ ◌+ℤ◌
handle-latency_example =
    handle-latency (key_list-laws req_hash_entries) conf stray (monitor_at 10) mid
      (node m_req 1 1000 0) answer (node m_req 2 5000 1 ∷ []) 0 100 refl refl refl
      ((λ e. ground arith), tt) refl (omega arith) (omega arith) (omega arith) (omega arith) refl
      (omega arith) refl mid_runs (omega arith) (omega arith)

-- Client 1 has asked, and the arrays are full.
abbrev full : Monitor fixed (key_list req_hash_entries)
full = record mid { thre = 0 }

response-fault_iff_example :
    (response_time_process conf stray answer full ≡ none) ↔ (full.idx_hy ≡ full.thre)
unfolding run handle response_time_process process_request note_request track prioritise count_miss
    key_bytes init_config add_key latency quotient out_of_window ◌-ℤ◌ ◌*ℤ◌ ◌+ℤ◌
response-fault_iff_example =
    response-fault_iff conf stray answer full 0 refl refl (omega arith) refl refl (omega arith)
      (omega arith)

-- Client 1 has asked.
abbrev one : Monitor fixed (key_list req_hash_entries)
one = option_or (run conf stray (node m_req 1 1000 0 ∷ []) (monitor_at 10)) (monitor_at 10)

-- Then client 2 asks and is answered.
abbrev elsewhere : List NodeData
elsewhere = node m_req 2 5000 1 ∷ node m_rsp 2 5050 2 ∷ []

abbrev later : Monitor fixed (key_list req_hash_entries)
later = option_or (run conf stray elsewhere one) one

run-Kept_example : Kept (key_bytes conf (node m_req 1 1000 0)) 0 one later
unfolding run handle response_time_process process_request note_request track prioritise count_miss
    process_response measure record_sample extend key_bytes init_config add_key latency quotient
    out_of_window ◌-ℤ◌ ◌*ℤ◌ ◌+ℤ◌
run-Kept_example =
    run-Kept (key_list-laws req_hash_entries) conf stray (key_bytes conf (node m_req 1 1000 0)) 0
      elsewhere one later ((λ e. ground arith), ((λ e. ground arith), tt)) refl refl
