-- ===== src/Setup/Views.antt =====
-- What HCMonitor/monitor.c promises from the set-up on, without its tables and arrays: the connections
-- that are known, the samples of the interval, and those that are reported at its end.
use hcmonitor.Prelude.{
  ℕ, Bool, true, ◌==◌, ◌&&◌, not, if◌then◌else◌, Option, some, none, List, [], ◌∷◌, ◌++◌, length,
}
use hcmonitor.Config.{Mconfig}
use hcmonitor.Floats.{Floats}
use hcmonitor.Node.{key_bytes}
use hcmonitor.Monitor.Connection.{Conn, emitted, next_conns}
use hcmonitor.Setup.Session.{Step, node, interval}
use hcmonitor.Setup.Connections.{unseen}

-- `taken` are the samples of the interval, each with its priority. `on` is whether an end of an
-- interval with samples reports them.
pub record View (F : Floats) : Type 0 where
  pub conns : List ℕ → Option Conn
  pub taken : List (F.Float × Bool)
  pub on : Bool

-- When samples are reported, a connection is forgotten but for the time of its request.
unfoldable pub forget : Option Conn → Option Conn
forget none = none
forget (some q) = some (record unseen { out = q.out })

-- What is there before anything is seen.
abbrev pub nothing : (F : Floats) → View F
nothing F = record { conns = λ _. none; taken = []; on = true }

module _ (F : Floats) (c : Mconfig) where
  -- An end of the interval reports, if there are samples.
  unfoldable pub reports : View F → Bool
  reports v = v.on && not (length v.taken == 0)

  unfoldable pub see : Step → View F → View F
  see (node d) v = record v {
    conns = next_conns F c unseen d v.conns;
    taken = v.taken ++ emitted F c unseen d (v.conns (key_bytes c d));
  }
  see interval v =
      if reports v
      then record v { conns = λ k. forget (v.conns k); taken = [] }
      else record v { on = true }

  unfoldable pub view : List Step → View F → View F
  view [] v = v
  view (e ∷ es) v = view es (see e v)

  -- The samples that each report is made of.
  unfoldable pub reported : List Step → View F → List (List (F.Float × Bool))
  reported [] v = []
  reported (node d ∷ es) v = reported es (see (node d) v)
  reported (interval ∷ es) v =
      let rest = reported es (see interval v) in if reports v then v.taken ∷ rest else rest
