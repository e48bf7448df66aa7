-- ===== src/Startup/Tests.antt =====
-- A start on two ports with six queues, and one request from there on.
use hcmonitor.Prelude.{
  ℕ, zero, suc, ◌<◌, ◌+ℤ◌, ◌∷◌, ◌++◌, option_or, arith, ◌≡◌, refl, pos, Bool, true, false, Option,
  some, none, List, [],
}
use hcmonitor.Args.{Args}
use hcmonitor.Config.{Mconfig, init_config}
use hcmonitor.Floats.Fixed.{fixed}
use hcmonitor.Hash.Model.{key_list}
use hcmonitor.Parse.Burst.{ip_num}
use hcmonitor.Monitor.{req_hash_entries}
use hcmonitor.Floats.{Floats}
use hcmonitor.Hash.{RteHash}
use hcmonitor.Ports.{is_enabled}
use hcmonitor.Queue.Init.{init_queue, init_loop}
use hcmonitor.Setup.{res_setup_hash}
use hcmonitor.Startup.{
  Call, dev_start, Stop, failed, Main, stopped, launched, launch, launch_after, devices, ask, test,
  ◌>>◌, after, create_pools, skip, init_ports, init_port, rx_queues, create_rings, available, main,
}
use hcmonitor.Startup.Ready.{Ready}
use mathlib.Core.Option.{some-injective}
use hcmonitor.Hash.Model.{key_list-laws, find_key, add_key}
use hcmonitor.Wire.{locate_ip, payload_len}
use hcmonitor.Node.{key_bytes}
use hcmonitor.Parse.{key_extract, classify, store_request}
use hcmonitor.Ring.{contents, held, has_room, has_item, put, advance, next}
use hcmonitor.Queue.{PrQueue, slot, make_room, enqueue, in_slot, finish, packet_process}
use hcmonitor.Queue.Init.{new_queue}
use hcmonitor.Queue.Laws.{queued, IsSound}
use hcmonitor.Monitor.{
  process_request, note_request, track, prioritise, handle, response_time_process, count_miss,
  clear_slots,
}
use hcmonitor.Monitor.Connection.Refines.{Refines}
use hcmonitor.Setup.{set_up, new_monitor}
use hcmonitor.Setup.Connections.{unseen, known, taken}
use hcmonitor.Cores.{Mbuf, Shared, receive, offer, forward, process, drain}
use hcmonitor.System.{System, receive_at, process_at, drain_at}
use hcmonitor.System.Round.{entered}
use hcmonitor.System.Flow.{start, received, processed, handled, taken_from}
use hcmonitor.Startup.{Launch, prepared}
use hcmonitor.Startup.Flows.{launch_state, main-Flow}
use hcmonitor.Fixtures.{conf, empty_node, clock, capture, request_frame, stray}

abbrev six_queues : Mconfig
six_queues = record conf { rx_que = pos 6 }

abbrev created : ℕ → ℕ → Option (List (List ℕ))
created entries key_len = some []

abbrev both_ports : Option Args
both_ports = some (record { port_mask = 3; rx_queue = 1; timer_period = pos 0 })

-- All calls succeed, but those in `answers`.
abbrev run_main : (Call → Bool) → Main fixed (key_list ip_num) (key_list req_hash_entries)
run_main answers =
    main fixed (key_list ip_num) (key_list req_hash_entries) created created answers (λ _. true)
      (λ _ _. true) six_queues both_ports (λ _. empty_node) 32 2

abbrev no_second : Call → Bool
no_second (dev_start (suc zero)) = false
no_second call = true

abbrev all_calls : Call → Bool
all_calls call = true

abbrev end_of : {F : Floats} {g h : RteHash} → Main F g h → Option Stop
end_of (stopped calls why) = some why
end_of (launched calls l) = none

-- It ends where the second port does not start, and comes to the launch where that starts.
ends_there :
    (end_of (run_main no_second) ≡ some (failed (dev_start 1)))
    × (end_of (run_main (λ _. true)) ≡ none)
unfolding main launch_after devices ask test ◌>>◌ after create_pools skip init_ports init_port
    rx_queues create_rings available is_enabled launch init_queue init_loop res_setup_hash
    init_config
ends_there = (refl, refl)

abbrev calls_of : {F : Floats} {g h : RteHash} → Main F g h → List Call
calls_of (stopped calls why) = calls
calls_of (launched calls l) = calls

abbrev new_queues : ℕ × List (Option PrQueue)
new_queues = option_or (init_queue six_queues (λ _. empty_node)) (0, [])

abbrev six : Launch fixed (key_list ip_num) (key_list req_hash_entries)
six =
    prepared fixed (key_list ip_num) (key_list req_hash_entries) created created all_calls
      (λ _. true) (λ _ _. true) six_queues 3 2 new_queues.1
      (set_up fixed (key_list ip_num) (key_list req_hash_entries) six_queues new_queues.0 [] [])

six_launched : run_main all_calls ≡ launched (calls_of (run_main all_calls)) six
unfolding main launch_after devices ask test ◌>>◌ after create_pools skip init_ports init_port
    rx_queues create_rings available is_enabled launch init_queue init_loop res_setup_hash
    init_config
six_launched = refl

abbrev no_queue : PrQueue
no_queue = new_queue 0 (λ _. empty_node)

abbrev others : Shared (key_list ip_num)
others = record {
  buffers = λ _ _. 0;
  ssd = λ _. record {
    slots = λ _. record { buffer = 0; now = clock (pos 0) };
    occupy = 0;
    deque = 0;
  };
  capture = capture 0 0 0;
  pkt_free = λ _. 0;
  tcp_psh = 0;
  err = 0;
}

abbrev packet : Mbuf
packet = record { buffer = 9; bytes = request_frame; pkt_len = 90 }

-- The packet comes in, is put into queue 0, and is handled.
abbrev begun : System fixed (key_list ip_num) (key_list req_hash_entries)
begun = launch_state no_queue others six

abbrev got : System fixed (key_list ip_num) (key_list req_hash_entries)
got = receive_at six_queues (clock (pos 5)) 0 packet begun

abbrev filed : System fixed (key_list ip_num) (key_list req_hash_entries)
filed = option_or (process_at six_queues 0 got) got

abbrev seen : System fixed (key_list ip_num) (key_list req_hash_entries)
seen = option_or (drain_at six_queues stray 0 filed) filed

main-Flow_example :
    ((j : ℕ) → j < 6 → IsSound j seen.shared.capture)
    × ([] ++ entered six_queues 0 got.shared
        ≡ ([] ++ (taken_from 0 filed ∷ [])) ++ queued 0 seen.shared.capture)
    × Refines unseen
        (known fixed six_queues ([] ++ (taken_from 0 filed ∷ [])))
        (taken fixed six_queues ([] ++ (taken_from 0 filed ∷ [])))
        seen.monitor
unfolding find_key receive_at receive offer process_at process forward drain_at drain has_room
    has_item put advance next init_config contents held locate_ip payload_len packet_process finish
    key_extract classify ◌+ℤ◌ in_slot make_room enqueue slot handle response_time_process
    store_request process_request add_key count_miss note_request prioritise track key_bytes
    init_queue init_loop new_monitor clear_slots
main-Flow_example =
    main-Flow fixed (key_list ip_num) (key_list req_hash_entries) created created all_calls
      (λ _. true) (λ _ _. true) six_queues (λ _. empty_node) both_ports 32 2
      (calls_of (run_main all_calls)) six no_queue others stray 0 (key_list-laws req_hash_entries)
      (λ table made k. (1, rw (← (some-injective _ _ made)) refl)) refl six_launched (omega arith)
      (omega arith)
      (handled (processed (received (clock (pos 5)) 0 packet start) refl refl) refl refl)
