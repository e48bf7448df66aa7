-- ===== src/Cores.antt =====
-- The loops of the cores, HCMonitor/main.c: a receiving core puts what it gets from the card into
-- its ring, a processing core takes packets from there to the packet queues, and the monitor core
-- takes records from those to the latency match. Each function is one round of a loop for one ring.
pub mod Receive
pub mod Order
pub mod Drain
pub mod Roles
mod Tests
use hcmonitor.Prelude.{
  ℕ, ◌+◌, ◌%◌, ◌^◌, ℤ, pos, negsuc, ◌==ℤ◌, ltb, ◌==◌, ◌&&◌, if◌then◌else◌, update, Option, some,
  none, to_unsigned,
}
use hcmonitor.Config.{Mconfig}
use hcmonitor.Floats.{Floats}
use hcmonitor.Hash.{RteHash}
use hcmonitor.Node.{Timespec, NodeData}
use hcmonitor.Wire.{Memory, locate_ip, payload_len, next_proto_id}
use hcmonitor.Ring.{Ring, has_room, has_item, put, advance}
use hcmonitor.Queue.{PrQueue, Capture, packet_process}
use hcmonitor.Monitor.{ReqTemp, Monitor, handle}

-- `struct tik_mbuf`. The code copies the `struct rte_mbuf` of a packet, which points to the buffer
-- that holds the packet's bytes: the buffer, by its number in the pool, is what is kept.
pub record TikMbuf : Type 0 where
  pub buffer : ℕ
  pub now : Timespec

-- A packet that `rte_eth_rx_burst` returns: the buffer that the card was given by the pool, the
-- bytes that it wrote there, and `pkt_len`.
pub record Mbuf : Type 0 where
  pub buffer : ℕ
  pub bytes : Memory
  pub pkt_len : ℕ

-- What the receiving and the processing cores share. `buffers` is the memory of the pool, whose
-- buffers the card may write again once they are freed.
pub record Shared (h : RteHash) : Type 0 where
  pub buffers : ℕ → Memory
  pub ssd : ℕ → Ring TikMbuf
  pub capture : Capture h
  pub pkt_free : ℕ → ℕ
  pub tcp_psh : ℕ
  pub err : ℕ

abbrev pub inc32 : ℕ → ℕ
inc32 n = (n + 1) % 2 ^ 32

-- `conf->buffer_len` where it meets an unsigned long.
abbrev pub ring_size : Mconfig → ℕ
ring_size c = to_unsigned (2 ^ 64) c.buffer_len

-- The slot that a received packet fills.
abbrev pub tik_of : Mbuf → Timespec → TikMbuf
tik_of m now = record { buffer = m.buffer; now = now }

-- The ring after a packet of `pkt_len` bytes: short packets, and those that meet a full ring, are
-- left out.
unfoldable pub offer : ℕ → ℕ → TikMbuf → Ring TikMbuf → Ring TikMbuf
offer size pkt_len t r = if ltb 70 pkt_len then (if has_room size r then put size t r else r) else r

module _ {h : RteHash} where
  -- The body of the loop over a burst, for core `i`: the packet's buffer is freed in any case.
  unfoldable pub receive : Mconfig → Timespec → ℕ → Mbuf → Shared h → Shared h
  receive c ts i m s = record s {
    buffers = update s.buffers m.buffer m.bytes;
    ssd = update s.ssd i (offer (ring_size c) m.pkt_len (tik_of m ts) (s.ssd i));
    pkt_free = update s.pkt_free i (inc32 (s.pkt_free i));
  }

  -- What both `l2fwd_simple_forward` and the loop of a processing core do with a packet: a TCP
  -- packet with a payload is parsed into queue `i`, and one that is not taken counts in `err`.
  unfoldable pub forward : Mconfig → Timespec → ℕ → Memory → Shared h → Option (Shared h)
  forward c now i bytes s =
      let ip = locate_ip bytes in
      let len = payload_len bytes ip in
      if (next_proto_id bytes ip == 6) && ltb 0 len
      then elim (packet_process c bytes ip now len i s.capture) [
        | none ↦ none
        | some (ret, capture) ↦ some (record s {
          capture = capture;
          tcp_psh = (s.tcp_psh + 1) % 2 ^ 64;
          err = if ret ==ℤ pos 0 then inc32 s.err else s.err;
        })
      ]
      else some s

  -- `l2fwd_simple_forward`, under MIRROR: the packet is freed behind it.
  unfoldable pub simple_forward : Mconfig → Timespec → ℕ → Mbuf → Shared h → Option (Shared h)
  simple_forward c now i m s = elim (forward c now i m.bytes s) [
    | none ↦ none
    | some t ↦ some (record t { pkt_free = update t.pkt_free i (inc32 (t.pkt_free i)) })
  ]

  -- A round of a processing core for ring `i`: it reads the buffer as it now is.
  unfoldable pub process : Mconfig → ℕ → Shared h → Option (Shared h)
  process c i s =
      let r = s.ssd i in
      if has_item r
      then (let tm = r.slots r.deque in
          elim (forward c tm.now i (s.buffers tm.buffer) s) [
            | none ↦ none
            | some t ↦ some (record t { ssd = update t.ssd i (advance (ring_size c) (t.ssd i)) })
          ])
      else some s

-- The monitor core's view: the packet queues and the latency match.
pub record Matching (F : Floats) (g h : RteHash) : Type 0 where
  pub capture : Capture g
  pub monitor : Monitor F h

module _ {F : Floats} {g h : RteHash} where
  -- A round of the monitor core for queue `i`.
  unfoldable pub drain : Mconfig → ReqTemp → ℕ → Matching F g h → Option (Matching F g h)
  drain c stray i s =
      let q = s.capture.que i in
      if has_item q.ring
      then elim (handle c stray (q.ring.slots q.ring.deque) s.monitor) [
        | none ↦ none
        | some m ↦ some (record {
          capture = record (s.capture) {
            que = update s.capture.que i (record q { ring = advance s.capture.max_size q.ring });
          };
          monitor = m;
        })
      ]
      else some s
