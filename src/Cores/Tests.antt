-- ===== src/Cores/Tests.antt =====
-- A core's rounds on a ring of four slots.
use hcmonitor.Prelude.{
  ℕ, ◌+◌, ◌*◌, ◌/◌, ◌%◌, ◌^◌, ◌<◌, ◌↔◌, false, ◌≡◌, ◌≢◌, refl, pos, [], ◌++◌, true, some, option_or,
  arith,
}
use hcmonitor.Config.{init_config, m_req}
use hcmonitor.Floats.Fixed.{fixed}
use hcmonitor.Hash.Model.{key_list, add_key}
use hcmonitor.Ring.{contents, held, IsValid}
use hcmonitor.Queue.Laws.{queued}
use hcmonitor.Parse.Burst.{ip_num}
use hcmonitor.Node.{key_bytes}
use hcmonitor.Monitor.{
  Monitor, req_hash_entries, process_request, note_request, track, prioritise, run, handle,
  response_time_process, count_miss,
}
use hcmonitor.Cores.{Mbuf, Shared, Matching, ring_size, tik_of, receive, process}
use hcmonitor.Cores.Receive.{taken, receive_appends}
use hcmonitor.Cores.Drain.{drains, drains-run}
use hcmonitor.Cores.Roles.{receive as receiving, main_loop, Handles}
use hcmonitor.Cores.Roles.Covers.{main_loop-covers}
use hcmonitor.Ports.{is_enabled, conf_ports}
use hcmonitor.Fixtures.{conf, request_frame, clock, empty_node, capture, stray, monitor_at}

abbrev shared : Shared (key_list ip_num)
shared = record {
  buffers = λ _ _. 0;
  ssd = λ _. record {
    slots = λ _. record { buffer = 0; now = clock (pos 0) };
    occupy = 3;
    deque = 3;
  };
  capture = capture 4 0 0;
  pkt_free = λ _. 0;
  tcp_psh = 0;
  err = 0;
}

abbrev packet : Mbuf
packet = record { buffer = 9; bytes = request_frame; pkt_len = 90 }

valid : IsValid (ring_size conf) (shared.ssd 0)
unfolding init_config
valid = omega arith

receive_appends_example :
    let t = receive conf (clock (pos 5)) 0 packet shared in
    (contents (ring_size conf) (t.ssd 0)
      ≡ contents (ring_size conf) (shared.ssd 0)
        ++ taken (ring_size conf) 90 (tik_of packet (clock (pos 5))) (shared.ssd 0))
    × IsValid (ring_size conf) (t.ssd 0)
    × ((j : ℕ) → 0 ≢ j → t.ssd j ≡ shared.ssd j)
    × (t.buffers 9 ≡ request_frame)
receive_appends_example = receive_appends conf (clock (pos 5)) 0 packet shared valid

-- The packet arrives at core 0.
abbrev arrived : Shared (key_list ip_num)
arrived = receive conf (clock (pos 5)) 0 packet shared

-- Another arrives in another buffer, and the first is processed.
abbrev second : Mbuf
second = record { buffer = 4; bytes = request_frame; pkt_len = 90 }

abbrev both : Shared (key_list ip_num)
both = receive conf (clock (pos 6)) 0 second arrived

abbrev turned : Shared (key_list ip_num)
turned = option_or (process conf 0 both) both

-- A queue that holds one request, and a monitor at its start.
abbrev loaded : Matching fixed (key_list ip_num) (key_list req_hash_entries)
loaded = record {
  capture = record (capture 4 0 0) {
    que = λ _. record {
      ring = record { slots = λ _. record empty_node { type = m_req }; occupy = 1; deque = 0 };
      cap = 4;
    };
  };
  monitor = monitor_at 10;
}

abbrev measured : Monitor fixed (key_list req_hash_entries)
measured = option_or (run conf stray (queued 0 loaded.capture) loaded.monitor) loaded.monitor

drains-run_example :
    (t : Matching fixed (key_list ip_num) (key_list req_hash_entries)) × (drains conf stray 0 1
        loaded
      ≡ some t)
    × (t.monitor ≡ measured)
    × (queued 0 t.capture ≡ [])
unfolding contents held init_config run handle response_time_process process_request note_request
    track prioritise count_miss key_bytes add_key
drains-run_example = drains-run conf stray 0 1 loaded measured (omega arith) refl refl

-- Four receiving cores and two processing cores, with port 0 enabled.
abbrev ports : ℕ → ℕ
ports q = (conf_ports 1 (4 % 2 ^ 16) 1 q).n_rx_port

none_below : (k : ℕ) → k < 0 → is_enabled 1 k ≡ false
none_below k lt = absurd (omega (arith, lt))

main_loop-covers_example :
    ((q : ℕ) → (main_loop 4 2 (ports q) q ≡ receiving) ↔ (q < 4))
    × ((q i : ℕ) → Handles 4 2 (ports q) q i ↔ ((q ≡ 4 + i / 2) × (i < 2 * 2)))
    × (((i : ℕ) → i < 4 → (q : ℕ) × (true ≡ true) × Handles 4 2 (ports q) q i) ↔ (4 % 2 ≡ 0))
unfolding is_enabled
main_loop-covers_example =
    main_loop-covers 1 1 0 4 2 (λ q. true) (omega arith) refl none_below (omega arith) (omega arith)
      (λ q lt. refl)
