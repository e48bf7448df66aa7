-- ===== src/Monitor/Latency.antt =====
-- The latency that the monitor keeps is that between a request and its own response.
use hcmonitor.Prelude.{
  ℕ, ◌+◌, ◌%◌, ◌^◌, ◌<◌, ◌≤◌, ◌≡◌, ◌≢◌, ◌∙◌, pos, true, some, List, ◌∷◌, arith, update, ap,
}
use hcmonitor.Config.{Mconfig, m_req, m_rsp}
use hcmonitor.Floats.{Floats}
use hcmonitor.Hash.{RteHash, HashLaws}
use hcmonitor.Node.{NodeData, key_bytes}
use hcmonitor.Monitor.{
  req_hash_entries, ReqTemp, Monitor, inc32, latency, note_request, handle, run,
}
use hcmonitor.Monitor.Cases.{request_noted, response_measure}
use hcmonitor.Monitor.Match.{
  Noted, note_request-Noted, measure-Sampled, handle_done, window_of_payload,
}
use hcmonitor.Monitor.Isolation.{Kept, run-Kept}
use hcmonitor.Monitor.Rule.{All}

module _ {F : Floats} {h : RteHash} (laws : HashLaws h req_hash_entries) (c : Mconfig)
    (stray : ReqTemp) where
  run-cons :
      (d : NodeData) (ds : List NodeData) (m t u : Monitor F h)
      → handle c stray d m ≡ some t
      → run c stray (d ∷ ds) m ≡ some u
      → run c stray ds t ≡ some u
  unfolding run
  run-cons d ds m t u e f = rw (e, run) at f

  -- The state that a request leaves, and what is known of it later.
  abbrev after : NodeData → ℕ → Monitor F h → Monitor F h
  after q p m =
      note_request c p q
        (record m { pkt_req = inc32 m.pkt_req; table = (h.add_key m.table (key_bytes c q)).1 })

  -- A fresh request whose key the table takes, then any records of other keys, and then the first
  -- response of the same key that acknowledges bytes of the request's payload, later than the
  -- request and while the sample arrays have room, with a table that meets the laws: the response is handled and not missed, and adds exactly one sample, at the end: the
  -- time between the request and the response.
  pub handle-latency :
      (m u : Monitor F h) (q r : NodeData) (ds : List NodeData) (p k : ℕ)
      → q.type ≡ m_req
      → r.type ≡ m_rsp
      → key_bytes c r ≡ key_bytes c q
      → All (λ d. key_bytes c d ≢ key_bytes c q) ds
      → (h.add_key m.table (key_bytes c q)).0 ≡ pos p
      → (m.maxseq p).req_sent_seq < q.sent_seq
      → q.sent_seq < 2 ^ 32
      → k ≤ q.total_len
      → q.total_len < 2 ^ 16
      → r.sent_seq ≡ (q.sent_seq + k) % 2 ^ 32
      → (m.maxseq p).rsp_sent_seq < r.sent_seq
      → F.lt (F.of_int (pos 0)) (latency F r.ts q.ts) ≡ true
      → run c stray (q ∷ ds) m ≡ some u
      → u.idx_hy < u.thre
      → u.thre < 2 ^ 64
      → (t : Monitor F h) × (handle c stray r u ≡ some t)
        × (t.idx_hy ≡ u.idx_hy + 1)
        × (t.time ≡ update u.time u.idx_hy (latency F r.ts q.ts))
        × (t.miss_rep ≡ u.miss_rep)
  handle-latency m u q r ds p k tq tr same others added fresh word fits short ack first later ran
        room small =
      let n : Noted p q _ (after q p m) = note_request-Noted c p q _ fresh in
      let inside =
        laws.bound _ (key_bytes c q) p (laws.lookup-add_key m.table (key_bytes c q) p added) in
      let kept : Kept (key_bytes c q) p (after q p m) u =
        run-Kept laws c stray (key_bytes c q) p ds (after q p m) u others
          (rw (n.table) (laws.lookup-add_key m.table (key_bytes c q) p added))
          (run-cons q ds m (after q p m) u
            (handle_done c stray q m _ (request_noted c stray q m p tq added inside)) ran) in
      let v : Monitor F h = record u { pkt_rep = inc32 u.pkt_rep } in
      let out = kept.same.out ∙ n.out in
      let seq = ap (λ w. w.req_sent_seq) kept.same.seqs ∙ n.seq in
      let len = ap (λ w. w.payload_len) kept.same.seqs ∙ n.len in
      let rsp = ap (λ w. w.rsp_sent_seq) kept.same.seqs ∙ n.rsp in
      let (t, e, s) = measure-Sampled c p r v (rw out later) (omega (arith, rsp)) room small in
      (
        t,
        handle_done c stray r u t (
            response_measure c stray r u p tr (rw same kept.found) inside
              (window_of_payload q r (u.maxseq p) k seq len word fits short ack)
            ∙ e),
        s.idx,
        s.time ∙ rw out,
        s.miss,
      )
