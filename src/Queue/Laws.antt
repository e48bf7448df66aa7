-- ===== src/Queue/Laws.antt =====
-- `packet_process` on a queue with room: the packet goes to the end, or is left out.
use hcmonitor.Prelude.{
  ℕ, ◌≤◌, ◌<◌, ◌≡◌, pos, true, false, truthy, some, ◌++◌, [], ◌∷◌, List, arith, update_ne, lt→ltb,
  ==_refl, ◌≢◌,
}
use hcmonitor.Config.{Mconfig}
use hcmonitor.Wire.{Memory}
use hcmonitor.Node.{Timespec, NodeData}
use hcmonitor.Hash.{RteHash}
use hcmonitor.Parse.{Direction, Counters, classify, key_extract}
use hcmonitor.Ring.{has_room, contents, IsValid}
use hcmonitor.Ring.Laws.{contents-put, put-IsValid}
use hcmonitor.Queue.{Capture, make_room, enqueue, in_slot, slot, finish, packet_process}

key_extract_accepts :
    (c : Mconfig) (m : Memory) (ip : ℕ) (d : NodeData) (now : Timespec) (len : ℕ) (n : Counters)
    {way : Direction}
    → classify c m ip ≡ some way
    → (key_extract c m ip d now len n).ret ≡ pos 1
unfolding key_extract
key_extract_accepts c m ip d now len n e = ground arith

module _ {h : RteHash} where
  -- What a queue holds.
  abbrev pub queued : ℕ → Capture h → List NodeData
  queued i s = contents s.max_size (s.que i).ring

  -- A queue whose allocation is as long as `max_size` says, with both indices in range.
  pub record IsSound (i : ℕ) (s : Capture h) : Type 0 where
    pub valid : IsValid s.max_size (s.que i).ring
    pub whole : s.max_size ≤ (s.que i).cap

  -- The record that `key_extract` makes of the packet in the slot of queue `i`.
  abbrev pub extracted : Mconfig → Memory → ℕ → Timespec → ℕ → ℕ → Capture h → NodeData
  extracted c m ip now len i s = (key_extract c m ip (slot i s) now len s.counters).node

  pub make_room_idle :
      (i : ℕ) (s : Capture h) → has_room s.max_size (s.que i).ring ≡ true → make_room i s ≡ s
  unfolding make_room
  make_room_idle i s room = rw room

  pub enqueue-queued :
      (i : ℕ) (s : Capture h) (d : NodeData)
      → IsValid s.max_size (s.que i).ring
      → has_room s.max_size (s.que i).ring ≡ true
      → queued i (enqueue i s d) ≡ queued i s ++ d ∷ []
  unfolding enqueue
  enqueue-queued i s d v room = rw (==_refl i) (contents-put s.max_size v d room)

  pub enqueue-IsSound :
      (i : ℕ) (s : Capture h) (d : NodeData) → IsSound i s → IsSound i (enqueue i s d)
  unfolding enqueue
  enqueue-IsSound i s d v = record {
    valid = rw (==_refl i) (put-IsValid s.max_size v.valid d);
    whole = rw (==_refl i) v.whole;
  }

  pub enqueue_others :
      (i j : ℕ) (s : Capture h) (d : NodeData) → i ≢ j → (enqueue i s d).que j ≡ s.que j
  unfolding enqueue
  enqueue_others i j s d ne = update_ne s.que i j _ ne

  -- The counters after a parse.
  abbrev pub parsed : Mconfig → Memory → ℕ → Timespec → ℕ → ℕ → Capture h → Capture h
  parsed c m ip now len i s = record s {
    counters = (key_extract c m ip (slot i s) now len s.counters).counters;
  }

  -- What `packet_process` returns for a labelled packet, `s'` being the state once there is room.
  pub packet_process_stores :
      (c : Mconfig) (m : Memory) (ip : ℕ) (now : Timespec) (len i : ℕ) (s s' : Capture h)
      {way : Direction}
      → truthy c.enable_mcc ≡ false
      → classify c m ip ≡ some way
      → make_room i s ≡ s'
      → (s'.que i).ring.occupy < (s'.que i).cap
      → packet_process c m ip now len i s
        ≡ some (pos 1, enqueue i (parsed c m ip now len i s') (extracted c m ip now len i s'))
  unfolding packet_process finish in_slot
  packet_process_stores c m ip now len i s s' off e made inside =
      rw
        (made, off, key_extract_accepts c m ip (slot i s') now len s'.counters e, lt→ltb _ _ inside)

  -- With `enable_mcc` off, a labelled packet that finds room: the call returns 1, its record goes to the end of queue `i`
  -- (and to no other queue), and the queue stays sound.
  pub packet_process-accept :
      (c : Mconfig) (m : Memory) (ip : ℕ) (now : Timespec) (len i : ℕ) (s : Capture h)
      {way : Direction}
      → truthy c.enable_mcc ≡ false
      → IsSound i s
      → has_room s.max_size (s.que i).ring ≡ true
      → classify c m ip ≡ some way
      → (t : Capture h) × (packet_process c m ip now len i s ≡ some (pos 1, t))
        × (queued i t ≡ queued i s ++ extracted c m ip now len i s ∷ [])
        × IsSound i t
        × ((j : ℕ) → i ≢ j → t.que j ≡ s.que j)
  packet_process-accept c m ip now len i s off v room e =
      let d = extracted c m ip now len i s in
      let s' = parsed c m ip now len i s in
      (
        enqueue i s' d,
        packet_process_stores c m ip now len i s s off e (make_room_idle i s room) (omega arith),
        enqueue-queued i s' d v.valid room,
        enqueue-IsSound i s' d (record { valid = v.valid; whole = v.whole }),
        λ j ne. enqueue_others i j s' d ne,
      )
