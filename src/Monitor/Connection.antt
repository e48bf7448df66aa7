-- ===== src/Monitor/Connection.antt =====
-- What HCMonitor/monitor.c promises of a connection, without its tables: what is kept of it is made
-- of its own records, and each response is answered from that.
pub mod Slots
pub mod Taken
pub mod Answers
pub mod Keys
pub mod Refines
pub mod Faults
pub mod Advances
pub mod Runs
use hcmonitor.Prelude.{
  ℕ, pos, ◌==ℤ◌, ltb, truthy, Bool, if◌then◌else◌, Option, some, none, option_or, List, [], ◌∷◌,
  ◌++◌,
}
use hcmonitor.Config.{Mconfig, m_req, m_rsp}
use hcmonitor.Floats.{Floats}
use hcmonitor.Hash.Model.{same_key}
use hcmonitor.Node.{Timespec, NodeData, key_bytes}
use hcmonitor.Monitor.{ReqTemp, ReqVars, out_of_window, latency}

-- A connection: its last request, its counters, and when the request was seen.
pub record Conn : Type 0 where
  pub seqs : ReqTemp
  pub vars : ReqVars
  pub out : Timespec

-- A request that is beyond the last one is the last one from now on.
unfoldable pub asked : NodeData → Conn → Conn
asked d q =
    if ltb q.seqs.req_sent_seq d.sent_seq
    then record {
      seqs = record (q.seqs) {
        req_sent_seq = d.sent_seq;
        ip_src = d.key.ip_src;
        port_src = d.key.port_src;
        ack_seq = d.ack_seq;
        payload_len = d.total_len;
      };
      vars = if q.vars.count ==ℤ pos 0 then record (q.vars) { count = pos 1 } else q.vars;
      out = d.ts;
    }
    else q

-- The priority is that of the record.
unfoldable pub rated : Mconfig → NodeData → Conn → Conn
rated c d q = record q {
  vars = record (q.vars) { pri = if d.pri ==ℤ c.pri_high_label then pos 1 else pos 0 };
}

-- What a response comes to: it is not matched, is before its request, was seen already, or is a
-- sample with a priority.
pub data Answer (F : Floats) : Type 0 where
  missed : Answer F
  early : Answer F
  again : Answer F
  sampled : F.Float → Bool → Answer F

-- The priority of a response counts where the settings say so.
abbrev pub heard : Mconfig → NodeData → Conn → Conn
heard c d q = if truthy c.rsp_pri then rated c d q else q

unfoldable pub answer : (F : Floats) → Mconfig → NodeData → Conn → Answer F
answer F c d q =
    let ack = latency F d.ts q.out in
    if out_of_window q.seqs d
    then missed
    else if F.lt (F.of_int (pos 0)) ack
    then (if ltb q.seqs.rsp_sent_seq d.sent_seq
        then sampled ack (truthy (heard c d q).vars.pri)
        else again)
    else early

-- What is kept of the connection then.
unfoldable pub answered : {F : Floats} → Mconfig → NodeData → Conn → Answer F → Conn
answered c d q missed = q
answered c d q early = q
answered c d q again = heard c d q
answered c d q (sampled ack high) = record (heard c d q) {
  seqs = record (q.seqs) { rsp_sent_seq = d.sent_seq };
}

unfoldable pub sample_of : {F : Floats} → Answer F → List (F.Float × Bool)
sample_of missed = []
sample_of early = []
sample_of again = []
sample_of (sampled ack high) = (ack, high) ∷ []

module _ (F : Floats) (c : Mconfig) (blank : Conn) where
  -- A record of a connection, which is blank before its first request.
  unfoldable pub conn_step : NodeData → Option Conn → Option Conn
  conn_step d o =
      if d.type ==ℤ m_req
      then (let q = asked d (option_or o blank) in
          some (if truthy c.rsp_pri then q else rated c d q))
      else if d.type ==ℤ m_rsp
      then elim o [ none ↦ none | some q ↦ some (answered c d q (answer F c d q)) ]
      else o

  -- The sample that a record is, if it is one.
  unfoldable pub emitted : NodeData → Option Conn → List (F.Float × Bool)
  emitted d none = []
  emitted d (some q) =
      if d.type ==ℤ m_req then [] else if d.type ==ℤ m_rsp then sample_of (answer F c d q) else []

  -- A connection, by its key, over records of any connections: others pass it by.
  unfoldable pub conn_of : List ℕ → List NodeData → Option Conn → Option Conn
  conn_of k [] o = o
  conn_of k (d ∷ ds) o = conn_of k ds (if same_key (key_bytes c d) k then conn_step d o else o)

  -- What is known of each connection behind a record.
  abbrev pub next_conns : NodeData → (List ℕ → Option Conn) → List ℕ → Option Conn
  next_conns d conns k = if same_key (key_bytes c d) k then conn_step d (conns k) else conns k

  -- The samples of records, where `conns` is what is known of each connection before.
  unfoldable pub samples : (List ℕ → Option Conn) → List NodeData → List (F.Float × Bool)
  samples conns [] = []
  samples conns (d ∷ ds) = emitted d (conns (key_bytes c d)) ++ samples (next_conns d conns) ds
