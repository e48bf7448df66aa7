-- ===== src/Cores/Order.antt =====
-- A receiving core and a processing core on one ring, in any interleaving with the others.
use hcmonitor.Prelude.{map, ℕ, ◌≡◌, ◌≢◌, true, some, List, [], ◌∷◌, ◌++◌, update}
use hcmonitor.Config.{Mconfig}
use hcmonitor.Hash.{RteHash}
use hcmonitor.Node.{Timespec}
use hcmonitor.Wire.{Memory}
use hcmonitor.Ring.{has_item, advance, contents}
use hcmonitor.Monitor.Rule.{All}
use hcmonitor.Cores.{TikMbuf, Mbuf, Shared, ring_size, tik_of, receive, process}
use hcmonitor.Cores.Receive.{taken}

module _ {h : RteHash} where
  -- The state after a packet of ring `i` was forwarded.
  abbrev advanced : Mconfig → ℕ → Shared h → Shared h
  advanced c i u = record u { ssd = update u.ssd i (advance (ring_size c) (u.ssd i)) }

  -- An entry of a ring with the bytes of its buffer, which are what is processed.
  abbrev pub seen : Shared h → TikMbuf → TikMbuf × Memory
  seen s t = (t, s.buffers t.buffer)

  -- No entry of ring `i` has this buffer.
  abbrev pub IsFree : Mconfig → ℕ → ℕ → Shared h → Type 0
  IsFree c i buffer s = All (λ (t : TikMbuf). buffer ≢ t.buffer) (contents (ring_size c) (s.ssd i))

  -- What ring `i` takes of a packet, with the bytes of the packet.
  abbrev pub arrival : Mconfig → Timespec → ℕ → Mbuf → Shared h → List (TikMbuf × Memory)
  arrival c ts i m s =
      map (λ (t : TikMbuf). (t, m.bytes)) (taken (ring_size c) m.pkt_len (tik_of m ts) (s.ssd i))

  -- The packets that ring `i` took, with their bytes, those that were processed from it, with the
  -- bytes that were, and the state, after an interleaving of the rounds of all receiving and
  -- processing cores in which no packet comes in a buffer that the ring still holds.
  pub data Reach (c : Mconfig) (i : ℕ) (s0 : Shared h)
      : List (TikMbuf × Memory) → List (TikMbuf × Memory) → Shared h → Type 0 where
    start : Reach c i s0 [] [] s0
    arrive :
        {a p : List (TikMbuf × Memory)} {s : Shared h} (ts : Timespec) (m : Mbuf)
        → IsFree c i m.buffer s
        → Reach c i s0 a p s
        → Reach c i s0 (a ++ arrival c ts i m s) p (receive c ts i m s)
    elsewhere :
        {a p : List (TikMbuf × Memory)} {s : Shared h} (ts : Timespec) (j : ℕ) (m : Mbuf)
        → j ≢ i
        → IsFree c i m.buffer s
        → Reach c i s0 a p s
        → Reach c i s0 a p (receive c ts j m s)
    turn :
        {a p : List (TikMbuf × Memory)} {s t : Shared h}
        → Reach c i s0 a p s
        → has_item (s.ssd i) ≡ true
        → process c i s ≡ some t
        → Reach c i s0 a (p ++ seen s ((s.ssd i).slots (s.ssd i).deque) ∷ []) t
    turn_elsewhere :
        {a p : List (TikMbuf × Memory)} {s t : Shared h} (j : ℕ)
        → j ≢ i
        → Reach c i s0 a p s
        → has_item (s.ssd j) ≡ true
        → process c j s ≡ some t
        → Reach c i s0 a p t
