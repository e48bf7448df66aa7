-- ===== src/Monitor/Bounds.antt =====
-- The arrays of samples: where they are written, and that they never grow.
use hcmonitor.Prelude.{
  ℕ, ◌<◌, ◌≤◌, ◌≡◌, refl, ℤ, pos, truthy, true, false, some, none, List, arith, ge→ltb, Bool-cases,
  inl, inr, ◌↔◌,
}
use hcmonitor.Config.{Mconfig, m_rsp}
use hcmonitor.Floats.{Floats}
use hcmonitor.Hash.{RteHash}
use hcmonitor.Node.{NodeData, key_bytes}
use hcmonitor.Monitor.{
  req_hash_entries, ReqTemp, Monitor, inc32, out_of_window, latency, track, prioritise,
  note_request, extend, sample, record_sample, measure, response_time_process, count_miss, handle,
  run,
}
use hcmonitor.Monitor.Cases.{response_measure}
use hcmonitor.Monitor.Rule.{
  Holds, Holds-some, Samples, process_rule, measure_rule, handle_rule, All-Unit, run_rule,
}

module _ {F : Floats} {h : RteHash} where
  -- The arrays are `k` long, and the samples lie in them.
  abbrev pub Within : ℕ → Monitor F h → Type 0
  Within k m = (m.thre ≡ k) × (m.idx_hy ≤ k)

  prioritise-Within :
      (k : ℕ) (c : Mconfig) (p : ℕ) (d : NodeData) (m : Monitor F h)
      → Within k m
      → Within k (prioritise c p d m)
  unfolding prioritise
  prioritise-Within k c p d m w = ground arith

  track-Within : (k p : ℕ) (d : NodeData) (m : Monitor F h) → Within k m → Within k (track p d m)
  unfolding track
  track-Within k p d m w = ground arith

  note_request-Within :
      (k : ℕ) (c : Mconfig) (p : ℕ) (d : NodeData) (m : Monitor F h)
      → Within k m
      → Within k (note_request c p d m)
  unfolding note_request
  note_request-Within k c p d m w = elim (Bool-cases (truthy c.rsp_pri)) [
    | inl e ↦ rw e (track-Within k p d m w)
    | inr e ↦ rw e (prioritise-Within k c p d _ (track-Within k p d m w))
  ]

  sample-Within :
      (k p : ℕ) (d : NodeData) (ack : F.Float) (m : Monitor F h)
      → Within k m
      → m.idx_hy < m.thre
      → Within k (sample p d ack m)
  unfolding sample
  sample-Within k p d ack m w lt = (w.0, omega arith)

  count_miss-Within : (k : ℕ) (l : ℤ) (m : Monitor F h) → Within k m → Within k (count_miss l m)
  unfolding count_miss
  count_miss-Within k l m w = ground arith

  -- Samples within the arrays leave nothing to extend.
  pub extend-Within : (k : ℕ) (m : Monitor F h) → Within k m → extend m ≡ m
  unfolding extend
  extend-Within k m w = rw (ge→ltb m.thre m.idx_hy (omega arith))

  Samples-Within :
      (k : ℕ) (c : Mconfig) (stray : ReqTemp) (d : NodeData) (p : ℕ) (m : Monitor F h)
      → Within k m
      → Samples c stray d (λ r. Within k (count_miss r.0 r.1)) p m
  Samples-Within k c stray d p m w = record {
    taken = λ ack fresh lt. count_miss-Within k _ _ (sample-Within k p d ack m w lt);
    again = count_miss-Within k _ _ w;
  }

  handle-Within :
      (k : ℕ) (c : Mconfig) (stray : ReqTemp) (d : NodeData) (m : Monitor F h)
      → Within k m
      → Holds (Within k) (handle c stray d m)
  handle-Within k c stray d m w =
      let Q : ℤ × Monitor F h → Type 0 = λ r. Within k (count_miss r.0 r.1) in
      handle_rule c stray (Within k) d m (
        process_rule c stray d Q m
          (λ p t e. count_miss-Within k _ _ (note_request-Within k c p d _ w))
          (λ t. count_miss-Within k _ _ w)
          (λ p t e.
            let m' : Monitor F h = record m { pkt_rep = inc32 m.pkt_rep } in
            measure_rule c stray d Q p m' (count_miss-Within k _ _ w)
              (rw (extend-Within k m' w) (Samples-Within k c stray d p m' w))
              (rw (extend-Within k m' w) (
                Samples-Within k c stray d p (prioritise c p d m')
                  (prioritise-Within k c p d m' w))))
          (λ t t'. count_miss-Within k _ _ w))

  -- Over any sequence of records that is handled, starting with the samples within the arrays: the
  -- arrays keep their length, so that the growth that the code has for them never happens, and the
  -- samples stay within.
  pub run-thre :
      (c : Mconfig) (stray : ReqTemp) (ds : List NodeData) (m t : Monitor F h)
      → m.idx_hy ≤ m.thre
      → run c stray ds m ≡ some t
      → (t.thre ≡ m.thre) × (t.idx_hy ≤ t.thre)
  run-thre c stray ds m t le e =
      let w =
        Holds-some (Within m.thre) (run c stray ds m)
          (run_rule c stray (Within m.thre) (λ _. Unit)
            (λ d m' u w'. handle-Within m.thre c stray d m' w') ds m (All-Unit ds) (refl, le))
          e in
      (w.0, omega (arith, w.0, w.1))

  record_sample_fault :
      (p : ℕ) (d : NodeData) (ack : F.Float) (m : Monitor F h)
      → (m.maxseq p).rsp_sent_seq < d.sent_seq
      → m.idx_hy ≤ m.thre
      → (record_sample p d ack m ≡ none) ↔ (m.idx_hy ≡ m.thre)
  unfolding record_sample
  record_sample_fault p d ack m fresh le = ground arith

  prioritise_fault :
      (c : Mconfig) (p : ℕ) (d : NodeData) (m : Monitor F h)
      → (((prioritise c p d m).maxseq p).rsp_sent_seq ≡ (m.maxseq p).rsp_sent_seq)
        × ((prioritise c p d m).idx_hy ≡ m.idx_hy)
        × ((prioritise c p d m).thre ≡ m.thre)
  unfolding prioritise
  prioritise_fault c p d m = ground arith

  measure_fault :
      (c : Mconfig) (p : ℕ) (d : NodeData) (m : Monitor F h)
      → F.lt (F.of_int (pos 0)) (latency F d.ts (m.req_out_if p)) ≡ true
      → (m.maxseq p).rsp_sent_seq < d.sent_seq
      → m.idx_hy ≤ m.thre
      → (measure c p d m ≡ none) ↔ (m.idx_hy ≡ m.thre)
  unfolding measure
  measure_fault c p d m positive fresh le = elim (Bool-cases (truthy c.rsp_pri)) [
    | inl e ↦
        let (same, idx, thre) = prioritise_fault c p d m in
        let l =
          record_sample_fault p d (latency F d.ts (m.req_out_if p)) (prioritise c p d m)
            (omega arith) (omega arith) in
        rw (positive, extend-Within m.thre m (refl, le), e)
          ((λ q. omega (arith, l.0 q)), λ q. l.1 (omega arith))
    | inr e ↦
        rw (positive, extend-Within m.thre m (refl, le), e) (record_sample_fault p d _ m fresh le)
  ]

  -- A response that is to be sampled is written outside the arrays exactly when they are full to the
  -- last entry: the test for growth lets an index equal to their length pass.
  pub response-fault_iff :
      (c : Mconfig) (stray : ReqTemp) (d : NodeData) (m : Monitor F h) (p : ℕ)
      → d.type ≡ m_rsp
      → h.lookup m.table (key_bytes c d) ≡ pos p
      → p < req_hash_entries
      → out_of_window (m.maxseq p) d ≡ false
      → F.lt (F.of_int (pos 0)) (latency F d.ts (m.req_out_if p)) ≡ true
      → (m.maxseq p).rsp_sent_seq < d.sent_seq
      → m.idx_hy ≤ m.thre
      → (response_time_process c stray d m ≡ none) ↔ (m.idx_hy ≡ m.thre)
  response-fault_iff c stray d m p t found small inside positive fresh le =
      rw (response_measure c stray d m p t found small inside)
        (measure_fault c p d (record m { pkt_rep = inc32 m.pkt_rep }) positive fresh le)
