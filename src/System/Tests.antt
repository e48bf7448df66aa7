-- ===== src/System/Tests.antt =====
-- One request goes through all three cores.
use hcmonitor.Prelude.{ℕ, ◌<◌, ◌+ℤ◌, ◌≡◌, refl, pos, [], ◌∷◌, ◌++◌, some, option_or, arith}
use hcmonitor.Config.{init_config}
use hcmonitor.Floats.Fixed.{fixed}
use hcmonitor.Hash.Model.{key_list, add_key}
use hcmonitor.Wire.{locate_ip, payload_len}
use hcmonitor.Node.{key_bytes}
use hcmonitor.Parse.{key_extract, classify, store_request}
use hcmonitor.Parse.Burst.{ip_num}
use hcmonitor.Ring.{contents, held, has_room, has_item, put, advance, next}
use hcmonitor.Queue.{slot, make_room, enqueue, in_slot, finish, packet_process}
use hcmonitor.Queue.Laws.{queued, IsSound}
use hcmonitor.Monitor.{
  req_hash_entries, process_request, note_request, track, prioritise, run, handle,
  response_time_process, count_miss,
}
use hcmonitor.Cores.{Mbuf, receive, offer, forward, process, drain}
use hcmonitor.System.{System, receive_at, process_at, drain_at}
use hcmonitor.System.Round.{entered}
use hcmonitor.System.Flow.{start, received, processed, handled, taken_from, Flow-fifo}
use hcmonitor.Fixtures.{conf, request_frame, clock, capture, stray, monitor_at}

abbrev begun : System fixed (key_list ip_num) (key_list req_hash_entries)
begun = record {
  shared = record {
    buffers = λ _ _. 0;
    ssd = λ _. record {
      slots = λ _. record { buffer = 0; now = clock (pos 0) };
      occupy = 3;
      deque = 3;
    };
    capture = capture 4 0 0;
    pkt_free = λ _. 0;
    tcp_psh = 0;
    err = 0;
  };
  monitor = monitor_at 10;
}

abbrev packet : Mbuf
packet = record { buffer = 9; bytes = request_frame; pkt_len = 90 }

abbrev got : System fixed (key_list ip_num) (key_list req_hash_entries)
got = receive_at conf (clock (pos 5)) 0 packet begun

abbrev filed : System fixed (key_list ip_num) (key_list req_hash_entries)
filed = option_or (process_at conf 0 got) got

abbrev seen : System fixed (key_list ip_num) (key_list req_hash_entries)
seen = option_or (drain_at conf stray 0 filed) filed

begun-IsSound : (j : ℕ) → j < 6 → IsSound j begun.shared.capture
begun-IsSound j small = record { valid = omega arith; whole = omega arith }

Flow-fifo_example :
    ((j : ℕ) → j < 6 → IsSound j seen.shared.capture)
    × ([] ++ entered conf 0 got.shared
        ≡ ([] ++ (taken_from 0 filed ∷ [])) ++ queued 0 seen.shared.capture)
    × (run conf stray ([] ++ (taken_from 0 filed ∷ [])) begun.monitor ≡ some seen.monitor)
unfolding receive_at receive offer process_at process forward drain_at drain has_room has_item put
    advance next init_config contents held locate_ip payload_len packet_process finish key_extract
    classify ◌+ℤ◌ in_slot make_room enqueue slot handle response_time_process store_request
    process_request add_key count_miss note_request prioritise track key_bytes
Flow-fifo_example =
    Flow-fifo conf stray 6 0 begun refl (omega arith) begun-IsSound refl
      (handled (processed (received (clock (pos 5)) 0 packet start) refl refl) refl refl)
