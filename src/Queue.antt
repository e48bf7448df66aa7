-- ===== src/Queue.antt =====
-- The packet queues: `InitQueue` of HCMonitor/rx_queue.c and `packet_process` of
-- HCMonitor/monitor.c, which parses a packet into the slot of its queue, growing the queue where
-- it is full.
pub mod Laws
pub mod Growth
pub mod Init
mod Tests
use hcmonitor.Prelude.{
  ℕ, ◌+◌, ◌%◌, ◌^◌, ℤ, pos, truthy, ltb, ltb_ℤ, if◌then◌else◌, update, Option, some, none, Bool,
  not, ◌&&◌,
}
use hcmonitor.Config.{Mconfig}
use hcmonitor.Wire.{Memory}
use hcmonitor.Node.{Timespec, NodeData}
use hcmonitor.Hash.{RteHash}
use hcmonitor.Parse.{Counters, Parsed, key_extract}
use hcmonitor.Parse.Burst.{BurstState, Counted, burst_count, is_burst}
use hcmonitor.Ring.{Ring, has_room, put, next}

-- `REBUFF`
abbrev pub rebuff : ℕ
rebuff = 200000

-- `struct pr_queue`; `cap` is the number of slots that `RxQue` was last allocated with.
pub record PrQueue : Type 0 where
  pub ring : Ring NodeData
  pub cap : ℕ

-- The globals of the capture side. `max_size` is shared by all queues.
pub record Capture (h : RteHash) : Type 0 where
  pub max_size : ℕ
  pub que : ℕ → PrQueue
  pub counters : Counters
  pub bursts : BurstState h

module _ {h : RteHash} where
  -- The `else` of the test for room: `max_size` goes up, and this queue alone is reallocated.
  unfoldable pub make_room : ℕ → Capture h → Capture h
  make_room i s =
      if has_room s.max_size (s.que i).ring
      then s
      else (let size = (rebuff + s.max_size) % 2 ^ 64 in
          record s {
            max_size = size;
            que = update s.que i (record { ring = (s.que i).ring; cap = size });
          })

  -- What the parser stored stands in the slot; under `la_key > 0` the queue moves on.
  unfoldable pub enqueue : ℕ → Capture h → NodeData → Capture h
  enqueue i s d = record s {
    que = update s.que i (record (s.que i) { ring = put s.max_size d (s.que i).ring });
  }

  -- Whether the slot at `occupy` lies in the allocation.
  unfoldable pub in_slot : ℕ → Capture h → Bool
  in_slot i s = ltb (s.que i).ring.occupy (s.que i).cap

  -- The slot that the packet is parsed into.
  unfoldable pub slot : ℕ → Capture h → NodeData
  slot i s = (s.que i).ring.slots (s.que i).ring.occupy

  -- What `packet_process` does with a parser's result. `stores` says whether the parser wrote the
  -- slot: a write outside the allocation is `none`.
  unfoldable pub finish : ℕ → Capture h → Bool → ℤ → NodeData → Option (ℤ × Capture h)
  finish i s stores la_key d =
      if stores && not (in_slot i s)
      then none
      else if ltb_ℤ (pos 0) la_key
      then some (pos 1, enqueue i s d)
      else some (la_key, s)

  -- `packet_process` for queue `i` and a packet whose IP header stands at `ip`.
  unfoldable pub packet_process :
      Mconfig → Memory → ℕ → Timespec → ℕ → ℕ → Capture h → Option (ℤ × Capture h)
  packet_process c m ip now len i s =
      let s' = make_room i s in
      if truthy c.enable_mcc
      then elim (burst_count h c m ip (slot i s') s'.counters s'.bursts) [
        | none ↦ none
        | some r ↦
            finish i (record s' { counters = r.counters; bursts = r.bursts }) (is_burst c m ip)
              r.ret r.node
      ]
      else (let r = key_extract c m ip (slot i s') now len s'.counters in
          finish i (record s' { counters = r.counters }) (ltb_ℤ (pos 0) r.ret) r.ret r.node)
