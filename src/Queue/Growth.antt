-- ===== src/Queue/Growth.antt =====
-- `packet_process` on a full queue: `max_size` grows by `REBUFF`, and the indices stay as they are.
use hcmonitor.Prelude.{
  ℕ, ◌+◌, ◌^◌, ◌≤◌, ◌<◌, ◌≡◌, refl, pos, false, truthy, some, ◌++◌, [], ◌∷◌, arith, ==_refl, length,
  ◌∙◌, ap, sym,
}
use hcmonitor.Config.{Mconfig}
use hcmonitor.Wire.{Memory}
use hcmonitor.Node.{Timespec, NodeData}
use hcmonitor.Hash.{RteHash}
use hcmonitor.Parse.{Direction, classify}
use hcmonitor.Ring.{next, has_room, put}
use hcmonitor.Ring.Laws.{
  full-next, full-held, has_room_of_next, has_item-put_reaches, put-IsValid, next_cases,
  contents-empty, length-contents,
}
use hcmonitor.Ring.Growth.{contents-grow}
use hcmonitor.Queue.{rebuff, Capture, make_room, enqueue, packet_process}
use hcmonitor.Queue.Laws.{
  queued, IsSound, extracted, parsed, enqueue-queued, enqueue-IsSound, packet_process_stores,
}

module _ {h : RteHash} where
  -- A sound queue that is full, with room below 2 ^ 63 for the growth.
  pub record IsFull (i : ℕ) (s : Capture h) : Type 0 where
    pub sound : IsSound i s
    pub full : has_room s.max_size (s.que i).ring ≡ false
    pub small : rebuff + s.max_size ≤ 2 ^ 63

  record Grown (i : ℕ) (s t : Capture h) : Type 0 where
    size : t.max_size ≡ rebuff + s.max_size
    ring : (t.que i).ring ≡ (s.que i).ring
    cap : (t.que i).cap ≡ rebuff + s.max_size

  make_room-Grown : (i : ℕ) (s : Capture h) → IsFull i s → Grown i s (make_room i s)
  unfolding make_room
  make_room-Grown i s v =
      rw (v.full)
        (record { size = omega arith; ring = rw (==_refl i); cap = rw (==_refl i) (omega arith) })

  -- Unless the items run over the end, the queue holds the same items after the growth, and has
  -- room for one more.
  Grown-queued :
      (i : ℕ) (s t : Capture h)
      → IsFull i s
      → Grown i s t
      → (s.que i).ring.deque ≡ 0
      → queued i t ≡ queued i s
  Grown-queued i s t v g front =
      rw (g.size, g.ring)
        (sym (
          contents-grow (s.que i).ring.slots s.max_size (rebuff + s.max_size) _ _ (omega arith)
            v.sound.valid.occupy_in (omega arith) v.small))

  -- The consumer's index, by way of the producer's.
  full_index :
      (i : ℕ) (s : Capture h)
      → IsFull i s
      → next s.max_size (s.que i).ring.occupy ≡ (s.que i).ring.deque
  full_index i s v = full-next s.max_size (s.que i).ring v.full

  Grown-next :
      (i : ℕ) (s t : Capture h)
      → IsFull i s
      → Grown i s t
      → next t.max_size (t.que i).ring.occupy ≡ (s.que i).ring.occupy + 1
  Grown-next i s t v g =
      rw (g.size, g.ring)
        (omega (
          arith,
          next_cases (rebuff + s.max_size) (s.que i).ring.occupy v.small
              (omega (arith, v.sound.valid.occupy_in)),
        ))

  Grown-IsSound : (i : ℕ) (s t : Capture h) → IsFull i s → Grown i s t → IsSound i t
  Grown-IsSound i s t v g = record {
    valid =
        rw (g.size, g.ring)
          (record {
            small = v.small;
            occupy_in = omega (arith, v.sound.valid.occupy_in);
            deque_in = omega (arith, v.sound.valid.deque_in);
          });
    whole = omega (arith, g.cap, g.size);
  }

  Grown-deque :
      (i : ℕ) (s t : Capture h) → Grown i s t → (t.que i).ring.deque ≡ (s.que i).ring.deque
  Grown-deque i s t g = rw (g.ring)

  enqueue-max_size : (i : ℕ) (s : Capture h) (d : NodeData) → (enqueue i s d).max_size ≡ s.max_size
  unfolding enqueue
  enqueue-max_size i s d = refl

  enqueue-ring :
      (i : ℕ) (s : Capture h) (d : NodeData)
      → ((enqueue i s d).que i).ring ≡ put s.max_size d (s.que i).ring
  unfolding enqueue
  enqueue-ring i s d = rw (==_refl i)

  -- An item behind index 0 that is next in turn puts the grown queue one step from its consumer.
  Grown-reaches :
      (i : ℕ) (s t : Capture h)
      → IsFull i s
      → Grown i s t
      → 0 < (s.que i).ring.deque
      → next t.max_size (t.que i).ring.occupy ≡ (t.que i).ring.deque
  Grown-reaches i s t v g front = omega (
    arith,
    Grown-next i s t v g,
    Grown-deque i s t g,
    full_index i s v,
    next_cases s.max_size (s.que i).ring.occupy v.sound.valid.small v.sound.valid.occupy_in,
  )

  -- With `enable_mcc` off, a labelled packet that meets a full queue whose oldest item stands at index 0: the queue grows by
  -- `REBUFF`, keeps its items, and takes the record of the packet at its end.
  pub packet_process_grows :
      (c : Mconfig) (m : Memory) (ip : ℕ) (now : Timespec) (len i : ℕ) (s : Capture h)
      {way : Direction}
      → truthy c.enable_mcc ≡ false
      → IsFull i s
      → (s.que i).ring.deque ≡ 0
      → classify c m ip ≡ some way
      → (t : Capture h) × (packet_process c m ip now len i s ≡ some (pos 1, t))
        × (queued i t ≡ queued i s ++ extracted c m ip now len i (make_room i s) ∷ [])
        × IsSound i t
        × (t.max_size ≡ rebuff + s.max_size)
  packet_process_grows c m ip now len i s off v front e =
      let g = make_room-Grown i s v in
      let s' = make_room i s in
      let sound = Grown-IsSound i s s' v g in
      let d = extracted c m ip now len i s' in
      let room =
        has_room_of_next s'.max_size (s'.que i).ring
          (omega (arith, Grown-next i s s' v g, Grown-deque i s s' g)) in
      let p = parsed c m ip now len i s' in
      (
        enqueue i p d,
        packet_process_stores c m ip now len i s s' off e refl
            (omega (arith, sound.valid.occupy_in, sound.whole)),
        enqueue-queued i p d sound.valid room
            ∙ ap (λ q. q ++ d ∷ []) (Grown-queued i s s' v g front),
        enqueue-IsSound i p d (record { valid = sound.valid; whole = sound.whole }),
        enqueue-max_size i p d ∙ g.size,
      )

  -- With `enable_mcc` off, a labelled packet that meets a full queue whose items run over the end of the array: the call
  -- still returns 1, and leaves a queue that looks empty, so that every item is lost.
  pub packet_process_loses :
      (c : Mconfig) (m : Memory) (ip : ℕ) (now : Timespec) (len i : ℕ) (s : Capture h)
      {way : Direction}
      → truthy c.enable_mcc ≡ false
      → IsFull i s
      → 0 < (s.que i).ring.deque
      → classify c m ip ≡ some way
      → (t : Capture h) × (packet_process c m ip now len i s ≡ some (pos 1, t))
        × (length (queued i s) + 1 ≡ s.max_size)
        × (queued i t ≡ [])
  packet_process_loses c m ip now len i s off v front e =
      let g = make_room-Grown i s v in
      let s' = make_room i s in
      let sound = Grown-IsSound i s s' v g in
      let d = extracted c m ip now len i s' in
      let p = parsed c m ip now len i s' in
      (
        enqueue i p d,
        packet_process_stores c m ip now len i s s' off e refl
            (omega (arith, sound.valid.occupy_in, sound.whole)),
        rw (length-contents s.max_size v.sound.valid) (full-held s.max_size v.sound.valid v.full),
        rw (enqueue-max_size i p d, enqueue-ring i p d)
            (contents-empty s'.max_size (put-IsValid s'.max_size sound.valid d) (
              has_item-put_reaches s'.max_size (s'.que i).ring d (Grown-reaches i s s' v g front))),
      )
