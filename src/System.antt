-- ===== src/System.antt =====
-- The program as a whole, HCMonitor/main.c: the rounds of all receiving cores, of all processing
-- cores and of the monitor core, on what they share.
pub mod Round
pub mod Flow
mod Tests
use hcmonitor.Prelude.{ℕ, Option, some, none, List, [], ◌∷◌, ltb, ◌==◌, ◌&&◌, if◌then◌else◌}
use hcmonitor.Config.{Mconfig}
use hcmonitor.Floats.{Floats}
use hcmonitor.Hash.{RteHash}
use hcmonitor.Node.{Timespec, NodeData}
use hcmonitor.Monitor.{ReqTemp, Monitor}
use hcmonitor.Cores.{Mbuf, Shared, Matching, receive, process, drain}

-- The globals of all cores.
pub record System (F : Floats) (g h : RteHash) : Type 0 where
  pub shared : Shared g
  pub monitor : Monitor F h

module _ {F : Floats} {g h : RteHash} (c : Mconfig) where
  -- Core `j` receives a packet.
  unfoldable pub receive_at : Timespec → ℕ → Mbuf → System F g h → System F g h
  receive_at ts j m s = record s { shared = receive c ts j m s.shared }

  -- The core that processes ring `j` has its turn there.
  unfoldable pub process_at : ℕ → System F g h → Option (System F g h)
  process_at j s = elim (process c j s.shared) [
    | none ↦ none
    | some t ↦ some (record s { shared = t })
  ]

  -- The monitor core has its turn at queue `j`.
  unfoldable pub drain_at : ReqTemp → ℕ → System F g h → Option (System F g h)
  drain_at stray j s =
      elim (drain c stray j (record { capture = s.shared.capture; monitor = s.monitor })) [
        | none ↦ none
        | some t ↦
            some
              (record { shared = record (s.shared) { capture = t.capture }; monitor = t.monitor })
      ]
