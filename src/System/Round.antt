-- ===== src/System/Round.antt =====
-- What a round of a processing core or of the monitor core does to the packet queues.
use mathlib.Core.List.{append-nil}
use hcmonitor.Prelude.{
  ℕ, ℤ, ◌≡◌, ◌≢◌, refl, sym, arith, pos, ◌+◌, ◌%◌, ◌^◌, true, false, truthy, ltb, ltb_ℤ, ◌==◌,
  ◌==ℤ◌, ◌&&◌, if◌then◌else◌, some, none, List, [], ◌∷◌, ◌++◌, update, Bool-cases, Option-cases,
  inl, inr,
}
use hcmonitor.Config.{Mconfig}
use hcmonitor.Hash.{RteHash}
use hcmonitor.Wire.{Memory, locate_ip, payload_len, next_proto_id}
use hcmonitor.Node.{Timespec, NodeData}
use hcmonitor.Parse.{Counters, classify, key_extract}
use hcmonitor.Ring.{has_room, has_item, advance, contents}
use hcmonitor.Queue.{Capture, enqueue, make_room, slot, finish, packet_process}
use hcmonitor.Queue.Laws.{
  queued, IsSound, extracted, parsed, make_room_idle, enqueue-queued, enqueue-IsSound,
  enqueue_others, packet_process_stores,
}
use hcmonitor.Cores.{Shared, forward, process, ring_size}

key_extract_rejects :
    (c : Mconfig) (m : Memory) (ip : ℕ) (d : NodeData) (now : Timespec) (len : ℕ) (n : Counters)
    → classify c m ip ≡ none
    → ltb_ℤ (pos 0) (key_extract c m ip d now len n).ret ≡ false
unfolding key_extract
key_extract_rejects c m ip d now len n e = ground (arith, e)

same : {h : RteHash} (i : ℕ) (s : Capture h) (d : NodeData) → (enqueue i s d).max_size ≡ s.max_size
unfolding enqueue
same i s d = refl

module _ {h : RteHash} (c : Mconfig) where
  -- The record of a packet: none without a label.
  unfoldable pub recorded : Memory → ℕ → Timespec → ℕ → ℕ → Capture h → List NodeData
  recorded m ip now len i s = elim (classify c m ip) [
    | none ↦ []
    | some way ↦ extracted c m ip now len i s ∷ []
  ]

  -- What a call puts into its queue, where there is room.
  pub record Grows (i : ℕ) (new : List NodeData) (s t : Capture h) : Type 0 where
    pub size : t.max_size ≡ s.max_size
    pub here : contents t.max_size (t.que i).ring ≡ contents s.max_size (s.que i).ring ++ new
    pub sound : IsSound i t
    pub there : (j : ℕ) → i ≢ j → t.que j ≡ s.que j

  packet_process-Grows :
      (m : Memory) (ip : ℕ) (now : Timespec) (len i : ℕ) (s : Capture h)
      → truthy c.enable_mcc ≡ false
      → IsSound i s
      → has_room s.max_size (s.que i).ring ≡ true
      → (ret : ℤ) × (t : Capture h) × (packet_process c m ip now len i s ≡ some (ret, t))
        × Grows i (recorded m ip now len i s) s t
  unfolding recorded packet_process make_room finish
  packet_process-Grows m ip now len i s off v room = elim (Option-cases (classify c m ip)) [
    | inr (way, labelled) ↦
        let d = extracted c m ip now len i s in
        let s' = parsed c m ip now len i s in
        (
          pos 1,
          enqueue i s' d,
          packet_process_stores c m ip now len i s s off labelled (make_room_idle i s room)
              (omega (arith, v.whole, v.valid.occupy_in)),
          rw (labelled, recorded)
              (record {
                size = same i s' d;
                here = enqueue-queued i s' d v.valid room;
                sound = enqueue-IsSound i s' d (record { valid = v.valid; whole = v.whole });
                there = λ j ne. enqueue_others i j s' d ne;
              }),
        )
    | inl unlabelled ↦
        let r = key_extract c m ip (slot i s) now len s.counters in
        let idle = make_room_idle i s room in
        let no_more = key_extract_rejects c m ip (slot i s) now len s.counters unlabelled in
        (
          r.ret,
          parsed c m ip now len i s,
          rw (idle, off, no_more) refl,
          rw (unlabelled, recorded)
              (record {
                size = refl;
                here = sym (append-nil (queued i s));
                sound = record { valid = v.valid; whole = v.whole };
                there = λ j ne. refl;
              }),
        )
  ]

  -- The records that a processing core's turn at ring `i` puts into queue `i`.
  unfoldable pub entered : ℕ → Shared h → List NodeData
  entered i s =
      let tm = (s.ssd i).slots (s.ssd i).deque in
      let bytes = s.buffers tm.buffer in
      let ip = locate_ip bytes in
      let len = payload_len bytes ip in
      if has_item (s.ssd i) && ((next_proto_id bytes ip == 6) && ltb 0 len)
      then recorded bytes ip tm.now len i s.capture
      else []

  unchanged-Grows : (i : ℕ) (s t : Capture h) → IsSound i s → s ≡ t → Grows i [] s t
  unchanged-Grows i s t v e = rw (← e) (record {
    size = refl;
    here = sym (append-nil (queued i s));
    sound = v;
    there = λ j ne. refl;
  })

  -- A turn ends, and does that.
  pub process-Grows :
      (i : ℕ) (s : Shared h)
      → truthy c.enable_mcc ≡ false
      → IsSound i s.capture
      → has_room s.capture.max_size (s.capture.que i).ring ≡ true
      → (t : Shared h) × (process c i s ≡ some t) × Grows i (entered i s) s.capture t.capture
  unfolding process forward entered
  process-Grows i s off v room =
      let tm = (s.ssd i).slots (s.ssd i).deque in
      let bytes = s.buffers tm.buffer in
      let ip = locate_ip bytes in
      let len = payload_len bytes ip in
      elim (Bool-cases (has_item (s.ssd i))) [
        | inr idle ↦ (
          s,
          rw (idle, process) refl,
          rw (idle, entered) (unchanged-Grows i s.capture s.capture v refl),
        )
        | inl item ↦ elim (Bool-cases ((next_proto_id bytes ip == 6) && ltb 0 len)) [
          | inr other ↦ (
            record s { ssd = update s.ssd i (advance (ring_size c) (s.ssd i)) },
            rw (item, other, process, forward) refl,
            rw (item, other, entered) (unchanged-Grows i s.capture s.capture v refl),
          )
          | inl tcp ↦
              let (ret, t, done, grows) =
                packet_process-Grows bytes ip tm.now len i s.capture off v room in
              (
                record s {
                  capture = t;
                  tcp_psh = (s.tcp_psh + 1) % 2 ^ 64;
                  err = if ret ==ℤ pos 0 then (s.err + 1) % 2 ^ 32 else s.err;
                  ssd = update s.ssd i (advance (ring_size c) (s.ssd i));
                },
                rw (item, tcp, done, process, forward) refl,
                rw (item, tcp, entered) grows,
              )
        ]
      ]
