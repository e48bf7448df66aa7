-- ===== src/Setup/Connections.antt =====
-- What HCMonitor/monitor.c begins with, and what is known of the connections from there on.
use hcmonitor.Prelude.{ℕ, ◌≡◌, refl, arith, pos, negsuc, Bool, Option, none, List, []}
use hcmonitor.Config.{Mconfig}
use hcmonitor.Floats.{Floats}
use hcmonitor.Hash.{RteHash}
use hcmonitor.Node.{NodeData}
use hcmonitor.Monitor.{clear_slots}
use hcmonitor.Monitor.Connection.{Conn, conn_of, samples}
use hcmonitor.Monitor.Connection.Refines.{Refines}
use hcmonitor.Setup.{new_monitor}

-- A connection of which nothing was seen.
abbrev pub unseen : Conn
unseen = record {
  seqs = record {
    req_sent_seq = 0;
    ack_seq = 0;
    rsp_sent_seq = 0;
    ip_src = 0;
    port_src = 0;
    payload_len = 0;
  };
  vars = record { count = pos 0; idx = pos 0; pri = negsuc 0 };
  out = record { tv_sec = pos 0; tv_nsec = pos 0 };
}

pub new_monitor-Refines :
    {F : Floats} {h : RteHash} (table : h.Table)
    → ((k : List ℕ) → (n : ℕ) × (h.lookup table k ≡ negsuc n))
    → Refines unseen (λ _. none) [] (new_monitor F h table)
unfolding new_monitor clear_slots
new_monitor-Refines table empty = record {
  here = λ k p e. let (n, f) = empty k in absurd (ground (arith, e, f));
  absent = λ k n e. refl;
  free = λ p e. refl;
  taken = record { count = refl; there = λ i x e. absurd (ground (arith, e)); small = omega arith };
}

module _ (F : Floats) (c : Mconfig) where
  -- What is known of a connection after records: what its own make of it.
  abbrev pub known : List NodeData → List ℕ → Option Conn
  known ds k = conn_of F c unseen k ds none

  -- The samples of records.
  abbrev pub taken : List NodeData → List (F.Float × Bool)
  taken = samples F c unseen (λ _. none)
