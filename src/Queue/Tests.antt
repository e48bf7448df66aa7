-- ===== src/Queue/Tests.antt =====
-- The packet queues on a request frame.
use hcmonitor.Prelude.{ℕ, ◌+◌, ◌≡◌, ◌≢◌, refl, pos, ◌+ℤ◌, ◌++◌, [], ◌∷◌, some, arith, length}
use hcmonitor.Config.{init_config}
use hcmonitor.Hash.Model.{key_list}
use hcmonitor.Parse.{classify, request}
use hcmonitor.Ring.{next, has_room}
use hcmonitor.Queue.{rebuff, Capture, make_room, packet_process}
use hcmonitor.Queue.Laws.{queued, IsSound, extracted, packet_process-accept}
use hcmonitor.Queue.Growth.{IsFull, packet_process_grows, packet_process_loses}
use hcmonitor.Parse.Burst.{ip_num}
use hcmonitor.Fixtures.{conf, request_frame, clock, capture}

is_request : classify conf request_frame 14 ≡ some request
unfolding classify init_config ◌+ℤ◌
is_request = refl

packet_process-accept_example :
    (t : Capture (key_list ip_num)) × (packet_process conf request_frame 14
        (clock (pos 5))
        8
        0
        (capture 4 2 1)
      ≡ some (pos 1, t))
    × (queued 0 t
        ≡ queued 0 (capture 4 2 1)
          ++ extracted conf request_frame 14 (clock (pos 5)) 8 0 (capture 4 2 1) ∷ [])
    × IsSound 0 t
    × ((j : ℕ) → 0 ≢ j → t.que j ≡ (capture 4 2 1).que j)
unfolding has_room next init_config
packet_process-accept_example =
    packet_process-accept conf request_frame 14 (clock (pos 5)) 8 0 (capture 4 2 1) refl
      (omega arith) refl is_request

-- Three records from index 0 on fill a queue of four slots.
at_front : IsFull 0 (capture 4 3 0)
unfolding has_room next
at_front = record { sound = omega arith; full = refl; small = omega arith }

packet_process_grows_example :
    (t : Capture (key_list ip_num)) × (packet_process conf request_frame 14
        (clock (pos 5))
        8
        0
        (capture 4 3 0)
      ≡ some (pos 1, t))
    × (queued 0 t
        ≡ queued 0 (capture 4 3 0)
          ++ extracted conf request_frame 14 (clock (pos 5)) 8 0 (make_room 0 (capture 4 3 0)) ∷ [])
    × IsSound 0 t
    × (t.max_size ≡ rebuff + 4)
unfolding init_config
packet_process_grows_example =
    packet_process_grows conf request_frame 14 (clock (pos 5)) 8 0 (capture 4 3 0) refl at_front
      refl is_request

-- So do three records from index 2 on, the last of them at index 0.
round_end : IsFull 0 (capture 4 1 2)
unfolding has_room next
round_end = record { sound = omega arith; full = refl; small = omega arith }

packet_process_loses_example :
    (t : Capture (key_list ip_num)) × (packet_process conf request_frame 14
        (clock (pos 5))
        8
        0
        (capture 4 1 2)
      ≡ some (pos 1, t))
    × (length (queued 0 (capture 4 1 2)) + 1 ≡ 4)
    × (queued 0 t ≡ [])
unfolding init_config
packet_process_loses_example =
    packet_process_loses conf request_frame 14 (clock (pos 5)) 8 0 (capture 4 1 2) refl round_end
      (omega arith) is_request
