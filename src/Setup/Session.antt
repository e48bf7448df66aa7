-- ===== src/Setup/Session.antt =====
-- The monitor from its set-up on: records that are handled, and ends of intervals.
use hcmonitor.Prelude.{refl, arith, Option, some, none, List, [], ◌∷◌}
use hcmonitor.Config.{Mconfig}
use hcmonitor.Floats.{Floats}
use hcmonitor.Hash.{RteHash}
use hcmonitor.Node.{NodeData}
use hcmonitor.Monitor.{ReqTemp, handle, clear_slots}
use hcmonitor.Monitor.Online.{Online}
use hcmonitor.Monitor.Online.Room.{highs, lows}
use hcmonitor.Monitor.Online.Tally.{Tallied}
use hcmonitor.Figures.Report.{Report}
use hcmonitor.Setup.{cat_buff, new_monitor}
use hcmonitor.Setup.Tick.{Printing, tick}

-- The monitor core handles a record, or an interval ends.
pub data Step : Type 0 where
  node : NodeData → Step
  interval : Step

-- A report comes before those behind it.
unfoldable pub with_report : {F : Floats} → Option (Report F) → List (Report F) → List (Report F)
with_report none rs = rs
with_report (some r) rs = r ∷ rs

module _ {F : Floats} {h : RteHash} (o : Printing F) (c : Mconfig) (stray : ReqTemp) where
  unfoldable pub move : Step → Online F h → Option (Online F h × Option (Report F))
  move (node d) s = elim (handle c stray d s.monitor) [
    | none ↦ none
    | some m ↦ some (record s { monitor = m }, none)
  ]
  move interval s = tick o c s

  -- A sequence of steps, with the reports that are made in order.
  unfoldable pub session : List Step → Online F h → Option (Online F h × List (Report F))
  session [] s = some (s, [])
  session (e ∷ es) s = elim (move e s) [
    | none ↦ none
    | some (t, out) ↦ elim (session es t) [
      | none ↦ none
      | some (u, rs) ↦ some (u, with_report out rs)
    ]
  ]

pub new_monitor-Tallied :
    (F : Floats) (h : RteHash) (t : h.Table) → Tallied cat_buff (new_monitor F h t)
unfolding new_monitor clear_slots highs lows
new_monitor-Tallied F h t = record { within = (refl, omega arith); high = refl; low = refl }
