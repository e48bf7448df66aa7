-- ===== src/Monitor.antt =====
-- The latency match of HCMonitor/monitor.c: `response_time_process` and `clear`, over the globals
-- and the three arrays that rte_hash positions index.
pub mod Cases
pub mod Rule
pub mod Match
pub mod Bounds
pub mod Online
pub mod Isolation
pub mod Latency
pub mod Connection
mod Tests
use hcmonitor.Prelude.{
  ℕ, ◌+◌, ◌-◌, ◌*◌, ◌%◌, ◌^◌, ◌<◌, ℤ, pos, negsuc, ◌-ℤ◌, ◌*ℤ◌, ◌==ℤ◌, truthy, ltb, if◌then◌else◌,
  update, Option, some, none, Bool, List, [], ◌∷◌,
}
use hcmonitor.Config.{Mconfig, m_req, m_rsp}
use hcmonitor.Floats.{Floats}
use hcmonitor.Hash.{RteHash}
use hcmonitor.Node.{Timespec, NodeData, key_bytes}

-- `REQ_HASH_ENTRIES`, the length of the three arrays.
abbrev pub req_hash_entries : ℕ
req_hash_entries = 67108864

-- `struct req_vars`
pub record ReqVars : Type 0 where
  pub count : ℤ
  pub idx : ℤ
  pub pri : ℤ

-- `struct req_temp`
pub record ReqTemp : Type 0 where
  pub req_sent_seq : ℕ
  pub ack_seq : ℕ
  pub rsp_sent_seq : ℕ
  pub ip_src : ℕ
  pub port_src : ℕ
  pub payload_len : ℕ

-- The globals. `table` is `req_lookup_struct[0]`; `time` and `pri` are the arrays of `ack_time`,
-- which are `thre` long; the counters are 32 bits wide, `idx_hy` and `thre` 64.
pub record Monitor (F : Floats) (h : RteHash) : Type 0 where
  pub table : h.Table
  pub maxseq : ℕ → ReqTemp
  pub req_hy_count : ℕ → ReqVars
  pub req_out_if : ℕ → Timespec
  pub time : ℕ → F.Float
  pub pri : ℕ → ℤ
  pub thre : ℕ
  pub idx_hy : ℕ
  pub pkt_req : ℕ
  pub pkt_rep : ℕ
  pub conn_active_hy : ℕ
  pub req_recount : ℕ
  pub rsp_recount : ℕ
  pub recv_pri_high : ℕ
  pub recv_pri_low : ℕ
  pub idx_pri_high : ℕ
  pub idx_pri_low : ℕ
  pub timeout_50 : ℕ
  pub miss_rep : ℕ

-- `n++` of an unsigned int and of an unsigned long.
abbrev pub inc32 : ℕ → ℕ
inc32 n = (n + 1) % 2 ^ 32

abbrev pub inc64 : ℕ → ℕ
inc64 n = (n + 1) % 2 ^ 64

-- `data->sent_seq - Maxseq[ret].req_sent_seq > Maxseq[ret].payload_len`, on uint32_t.
unfoldable pub out_of_window : ReqTemp → NodeData → Bool
out_of_window q d = ltb q.payload_len ((d.sent_seq + 2 ^ 32 - q.req_sent_seq) % 2 ^ 32)

-- `ack`, in milliseconds: the seconds as a long, the nanoseconds through a float.
unfoldable pub latency : (F : Floats) → Timespec → Timespec → F.Float
latency F now then' =
    F.add (F.of_int ((now.tv_sec -ℤ then'.tv_sec) *ℤ pos 1000))
      (F.div (F.of_int (now.tv_nsec -ℤ then'.tv_nsec)) (F.of_int (pos 1000000)))

module _ {F : Floats} {h : RteHash} where
  open F use {Float, of_int, lt}

  -- The branches of a request that go by sequence number: one beyond the last seen is taken down,
  -- any other is a retransmission.
  unfoldable pub track : ℕ → NodeData → Monitor F h → Monitor F h
  track p d m =
      if ltb (m.maxseq p).req_sent_seq d.sent_seq
      then (let first = (m.req_hy_count p).count ==ℤ pos 0 in
          record m {
            req_hy_count =
                if first
                then update m.req_hy_count p (record (m.req_hy_count p) { count = pos 1 })
                else m.req_hy_count;
            conn_active_hy = if first then inc32 m.conn_active_hy else m.conn_active_hy;
            maxseq = update m.maxseq p (record (m.maxseq p) {
              req_sent_seq = d.sent_seq;
              ip_src = d.key.ip_src;
              port_src = d.key.port_src;
              ack_seq = d.ack_seq;
              payload_len = d.total_len;
            });
            req_out_if = update m.req_out_if p d.ts;
          })
      else record m { req_recount = inc32 m.req_recount }

  -- The priority of a packet, counted and noted at its connection.
  unfoldable pub prioritise : Mconfig → ℕ → NodeData → Monitor F h → Monitor F h
  prioritise c p d m =
      if d.pri ==ℤ c.pri_high_label
      then record m {
        recv_pri_high = inc32 m.recv_pri_high;
        req_hy_count = update m.req_hy_count p (record (m.req_hy_count p) { pri = pos 1 });
      }
      else record m {
        recv_pri_low = inc32 m.recv_pri_low;
        req_hy_count = update m.req_hy_count p (record (m.req_hy_count p) { pri = pos 0 });
      }

  -- A request whose position is known.
  unfoldable pub note_request : Mconfig → ℕ → NodeData → Monitor F h → Monitor F h
  note_request c p d m =
      let m' = track p d m in if truthy c.rsp_pri then m' else prioritise c p d m'

  -- The branch for M_REQ; the code tests `ret`, which is 0, where it means `ret_req`, so that a
  -- failed insertion goes on to write at a negative index: `none`.
  unfoldable pub process_request : Mconfig → NodeData → Monitor F h → Option (ℤ × Monitor F h)
  process_request c d m =
      let m' : Monitor F h = record m { pkt_req = inc32 m.pkt_req } in
      let r = h.add_key m.table (key_bytes c d) in
      elim (r.0) [
        | negsuc e ↦ none
        | pos p ↦
            if ltb p req_hash_entries
            then some (pos 1, note_request c p d (record m' { table = r.1 }))
            else none
      ]

  -- `if(idx_hy > thre)`: the arrays are reallocated.
  unfoldable pub extend : Monitor F h → Monitor F h
  extend m = if ltb m.thre m.idx_hy then record m { thre = m.idx_hy * 2 % 2 ^ 64 } else m

  -- The sample is taken down at `idx_hy`.
  unfoldable pub sample : ℕ → NodeData → Float → Monitor F h → Monitor F h
  sample p d ack m =
      let high = truthy (m.req_hy_count p).pri in
      record m {
        maxseq = update m.maxseq p (record (m.maxseq p) { rsp_sent_seq = d.sent_seq });
        idx_pri_high = if high then inc32 m.idx_pri_high else m.idx_pri_high;
        idx_pri_low = if high then m.idx_pri_low else inc32 m.idx_pri_low;
        pri = update m.pri m.idx_hy (if high then pos 1 else pos 0);
        time = update m.time m.idx_hy ack;
        idx_hy = inc64 m.idx_hy;
        timeout_50 = if lt (of_int (pos 50)) ack then inc32 m.timeout_50 else m.timeout_50;
      }

  -- A response whose request is known: a sample outside the arrays is `none`, one that was already
  -- answered is a retransmission.
  unfoldable pub record_sample : ℕ → NodeData → Float → Monitor F h → Option (ℤ × Monitor F h)
  record_sample p d ack m =
      if ltb (m.maxseq p).rsp_sent_seq d.sent_seq
      then (if ltb m.idx_hy m.thre then some (pos 1, sample p d ack m) else none)
      else some (negsuc 1, record m { rsp_recount = inc32 m.rsp_recount })

  unfoldable pub measure : Mconfig → ℕ → NodeData → Monitor F h → Option (ℤ × Monitor F h)
  measure c p d m =
      let ack = latency F d.ts (m.req_out_if p) in
      if lt (of_int (pos 0)) ack
      then (let m' = extend m in
          record_sample p d ack (if truthy c.rsp_pri then prioritise c p d m' else m'))
      else some (pos 1, m)

  -- The branch for M_RSP. `stray` is what a read of `Maxseq` at a negative index finds: the window is
  -- tested before `ret` is.
  unfoldable pub process_response :
      Mconfig → ReqTemp → NodeData → Monitor F h → Option (ℤ × Monitor F h)
  process_response c stray d m =
      let m' : Monitor F h = record m { pkt_rep = inc32 m.pkt_rep } in
      elim (h.lookup m.table (key_bytes c d)) [
        | negsuc e ↦ if out_of_window stray d then some (negsuc 1, m') else some (negsuc 1, m')
        | pos p ↦
            if ltb p req_hash_entries
            then (if out_of_window (m.maxseq p) d then some (negsuc 1, m') else measure c p d m')
            else none
      ]

  -- `response_time_process`: 1, -2 for a response that is not matched, -1 for any other packet.
  unfoldable pub response_time_process :
      Mconfig → ReqTemp → NodeData → Monitor F h → Option (ℤ × Monitor F h)
  response_time_process c stray d m =
      if d.type ==ℤ m_req
      then process_request c d m
      else if d.type ==ℤ m_rsp
      then process_response c stray d m
      else some (negsuc 0, m)

  -- What the loop of the monitor core makes of a result: -2 counts in `miss_rep`.
  unfoldable pub count_miss : ℤ → Monitor F h → Monitor F h
  count_miss label m = if label ==ℤ negsuc 1 then record m { miss_rep = inc32 m.miss_rep } else m

  unfoldable pub handle : Mconfig → ReqTemp → NodeData → Monitor F h → Option (Monitor F h)
  handle c stray d m = elim (response_time_process c stray d m) [
    | none ↦ none
    | some (label, m') ↦ some (count_miss label m')
  ]

  -- The monitor core on a sequence of records.
  unfoldable pub run : Mconfig → ReqTemp → List NodeData → Monitor F h → Option (Monitor F h)
  run c stray [] m = some m
  run c stray (d ∷ ds) m = elim (handle c stray d m) [ none ↦ none | some m' ↦ run c stray ds m' ]

  -- `clear`, as far as the latency match reads what it resets.
  unfoldable pub clear_slots : Monitor F h → Monitor F h
  clear_slots m = record m {
    req_hy_count = λ _. record { count = pos 0; idx = pos 0; pri = negsuc 0 };
    maxseq = λ _. record {
      req_sent_seq = 0;
      ack_seq = 0;
      rsp_sent_seq = 0;
      ip_src = 0;
      port_src = 0;
      payload_len = 0;
    };
  }
