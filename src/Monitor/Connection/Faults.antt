-- ===== src/Monitor/Connection/Faults.antt =====
-- Where the monitor fails: the writes of HCMonitor/monitor.c outside of its arrays.
use hcmonitor.Prelude.{
  ℕ, ◌≤◌, ◌≡◌, ◌⊎◌, pos, negsuc, ℤ-cases, ◌==ℤ◌, truthy, lt→ltb, true, Bool-cases, inl, inr, none,
  Option-cases, arith,
}
use hcmonitor.Config.{Mconfig, m_req, m_rsp}
use hcmonitor.Floats.{Floats}
use hcmonitor.Hash.{RteHash, HashLaws}
use hcmonitor.Node.{NodeData, key_bytes}
use hcmonitor.Monitor.{
  req_hash_entries, ReqTemp, Monitor, inc32, out_of_window, latency, prioritise, extend,
  record_sample, measure, process_request, process_response, response_time_process, handle,
}

module _ {F : Floats} {h : RteHash} where
  full_of :
      (p : ℕ) (d : NodeData) (ack : F.Float) (m : Monitor F h)
      → record_sample p d ack m ≡ none
      → m.thre ≤ m.idx_hy
  unfolding record_sample
  full_of p d ack m e = ground (arith, e)

  prioritise_full :
      (c : Mconfig) (p : ℕ) (d : NodeData) (m : Monitor F h)
      → (prioritise c p d m).thre ≤ (prioritise c p d m).idx_hy
      → m.thre ≤ m.idx_hy
  unfolding prioritise
  prioritise_full c p d m e = ground (arith, e)

  extend_full : (m : Monitor F h) → (extend m).thre ≤ (extend m).idx_hy → m.thre ≤ m.idx_hy
  unfolding extend
  extend_full m e = ground (arith, e)

  measure_full :
      (c : Mconfig) (p : ℕ) (d : NodeData) (m : Monitor F h)
      → measure c p d m ≡ none
      → m.thre ≤ m.idx_hy
  unfolding measure
  measure_full c p d m e =
      elim (Bool-cases (F.lt (F.of_int (pos 0)) (latency F d.ts (m.req_out_if p)))) [
        | inr f ↦ absurd (ground (arith, rw (f, measure) at e))
        | inl f ↦ elim (Bool-cases (truthy c.rsp_pri)) [
          | inl g ↦
              extend_full m
                (prioritise_full c p d (extend m) (full_of p d _ _ (rw (f, g, measure) at e)))
          | inr g ↦ extend_full m (full_of p d _ _ (rw (f, g, measure) at e))
        ]
      ]

  -- A request that the table does not take, or no room for a sample.
  abbrev pub Fault : Mconfig → NodeData → Monitor F h → Type 0
  Fault c d m =
      (((d.type ==ℤ m_req) ≡ true) × ((n : ℕ) × ((h.add_key m.table (key_bytes c d)).0 ≡ negsuc n)))
      ⊎ (m.thre ≤ m.idx_hy)

  module _ (laws : HashLaws h req_hash_entries) (c : Mconfig) (stray : ReqTemp) (d : NodeData)
      (m : Monitor F h) where
    request-Fault : (d.type ==ℤ m_req) ≡ true → process_request c d m ≡ none → Fault c d m
    unfolding process_request
    request-Fault ty e = elim (ℤ-cases (h.add_key m.table (key_bytes c d)).0) [
      | inr (n, f) ↦ inl (ty, (n, f))
      | inl (p, f) ↦
          let u = (h.add_key m.table (key_bytes c d)).1 in
          let small =
            laws.bound u (key_bytes c d) p (laws.lookup-add_key m.table (key_bytes c d) p f) in
          absurd (ground (arith, rw (f, process_request, lt→ltb p req_hash_entries small) at e))
    ]

    response-Fault : process_response c stray d m ≡ none → Fault c d m
    unfolding process_response
    response-Fault e = elim (ℤ-cases (h.lookup m.table (key_bytes c d))) [
      | inr (n, f) ↦ elim (Bool-cases (out_of_window stray d)) [
        | inl g ↦ absurd (ground (arith, rw (f, process_response, g) at e))
        | inr g ↦ absurd (ground (arith, rw (f, process_response, g) at e))
      ]
      | inl (p, f) ↦
          let small = lt→ltb p req_hash_entries (laws.bound m.table (key_bytes c d) p f) in
          elim (Bool-cases (out_of_window (m.maxseq p) d)) [
            | inl g ↦ absurd (ground (arith, rw (f, process_response, small, g) at e))
            | inr g ↦ inr (
                measure_full c p d (record m { pkt_rep = inc32 m.pkt_rep })
                  (rw (f, process_response, small, g) at e))
          ]
    ]

    process-Fault : response_time_process c stray d m ≡ none → Fault c d m
    unfolding response_time_process
    process-Fault e = elim (Bool-cases (d.type ==ℤ m_req)) [
      | inl f ↦ request-Fault f (rw (f, response_time_process) at e)
      | inr f ↦ elim (Bool-cases (d.type ==ℤ m_rsp)) [
        | inl g ↦ response-Fault (rw (f, g, response_time_process) at e)
        | inr g ↦ absurd (ground (arith, rw (f, g, response_time_process) at e))
      ]
    ]

    pub handle-Fault : handle c stray d m ≡ none → Fault c d m
    unfolding handle
    handle-Fault e = elim (Option-cases (response_time_process c stray d m)) [
      | inl f ↦ process-Fault f
      | inr (r, f) ↦ absurd (ground (arith, rw (f, handle) at e))
    ]
