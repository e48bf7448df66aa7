-- ===== src/Monitor/Match.antt =====
-- What a fresh request leaves, and what a response that is sampled adds.
use hcmonitor.Prelude.{
  ℕ, ◌+◌, ◌-◌, ◌%◌, ◌^◌, ◌<◌, ◌≤◌, ◌≡◌, refl, pos, truthy, true, false, some, update, arith, lt→ltb,
  ge→ltb, Bool-cases, inl, inr,
}
use hcmonitor.Config.{Mconfig}
use hcmonitor.Floats.{Floats}
use hcmonitor.Hash.{RteHash}
use hcmonitor.Node.{NodeData}
use hcmonitor.Monitor.{
  ReqTemp, Monitor, out_of_window, latency, track, prioritise, note_request, extend, sample,
  record_sample, measure, response_time_process, count_miss, handle,
}

-- What a fresh request leaves at its position, and what it leaves alone.
pub record Noted {F : Floats} {h : RteHash} (p : ℕ) (d : NodeData) (m t : Monitor F h)
    : Type 0 where
  pub seq : (t.maxseq p).req_sent_seq ≡ d.sent_seq
  pub len : (t.maxseq p).payload_len ≡ d.total_len
  pub rsp : (t.maxseq p).rsp_sent_seq ≡ (m.maxseq p).rsp_sent_seq
  pub out : t.req_out_if p ≡ d.ts
  pub table : t.table ≡ m.table
  pub idx : t.idx_hy ≡ m.idx_hy
  pub room : t.thre ≡ m.thre
  pub time : t.time ≡ m.time
  pub miss : t.miss_rep ≡ m.miss_rep

-- What an accepted sample leaves.
pub record Sampled {F : Floats} {h : RteHash} (m t : Monitor F h) (ack : F.Float) : Type 0 where
  pub idx : t.idx_hy ≡ m.idx_hy + 1
  pub time : t.time ≡ update m.time m.idx_hy ack
  pub miss : t.miss_rep ≡ m.miss_rep

-- An acknowledgement of at most the payload lies in the window of its request.
pub window_of_payload :
    (q r : NodeData) (t : ReqTemp) (k : ℕ)
    → t.req_sent_seq ≡ q.sent_seq
    → t.payload_len ≡ q.total_len
    → q.sent_seq < 2 ^ 32
    → k ≤ q.total_len
    → q.total_len < 2 ^ 16
    → r.sent_seq ≡ (q.sent_seq + k) % 2 ^ 32
    → out_of_window t r ≡ false
unfolding out_of_window
window_of_payload q r t k es el word fits short ack = ge→ltb _ _ (omega arith)

module _ {F : Floats} {h : RteHash} where
  track-Noted :
      (p : ℕ) (d : NodeData) (m : Monitor F h)
      → (m.maxseq p).req_sent_seq < d.sent_seq
      → Noted p d m (track p d m)
  unfolding track
  track-Noted p d m fresh = ground arith

  prioritise-Noted :
      (c : Mconfig) (p : ℕ) (d : NodeData) (m t : Monitor F h)
      → Noted p d m t
      → Noted p d m (prioritise c p d t)
  unfolding prioritise
  prioritise-Noted c p d m t n = ground arith

  pub note_request-Noted :
      (c : Mconfig) (p : ℕ) (d : NodeData) (m : Monitor F h)
      → (m.maxseq p).req_sent_seq < d.sent_seq
      → Noted p d m (note_request c p d m)
  unfolding note_request
  note_request-Noted c p d m fresh = elim (Bool-cases (truthy c.rsp_pri)) [
    | inl e ↦ rw e (track-Noted p d m fresh)
    | inr e ↦ rw e (prioritise-Noted c p d m (track p d m) (track-Noted p d m fresh))
  ]

  sample-Sampled :
      (p : ℕ) (d : NodeData) (ack : F.Float) (m : Monitor F h)
      → m.idx_hy < 2 ^ 64 - 1
      → Sampled m (sample p d ack m) ack
  unfolding sample
  sample-Sampled p d ack m small = record { idx = omega arith; time = refl; miss = refl }

  record_sample-fresh :
      (p : ℕ) (d : NodeData) (ack : F.Float) (m : Monitor F h)
      → (m.maxseq p).rsp_sent_seq < d.sent_seq
      → m.idx_hy < m.thre
      → record_sample p d ack m ≡ some (pos 1, sample p d ack m)
  unfolding record_sample
  record_sample-fresh p d ack m fresh room = rw (lt→ltb _ _ fresh, lt→ltb _ _ room)

  -- `prioritise` touches counters and priorities only.
  prioritise_room :
      (c : Mconfig) (p : ℕ) (d : NodeData) (m : Monitor F h)
      → (m.maxseq p).rsp_sent_seq < d.sent_seq
      → m.idx_hy < m.thre
      → (((prioritise c p d m).maxseq p).rsp_sent_seq < d.sent_seq)
        × ((prioritise c p d m).idx_hy < (prioritise c p d m).thre)
        × ((prioritise c p d m).thre ≡ m.thre)
  unfolding prioritise
  prioritise_room c p d m fresh room = ground arith

  prioritise-Sampled :
      (c : Mconfig) (p : ℕ) (d : NodeData) (ack : F.Float) (m t : Monitor F h)
      → Sampled (prioritise c p d m) t ack
      → Sampled m t ack
  unfolding prioritise
  prioritise-Sampled c p d ack m t s = ground arith

  extend_idle : (m : Monitor F h) → m.idx_hy < m.thre → extend m ≡ m
  unfolding extend
  extend_idle m room = rw (ge→ltb m.thre m.idx_hy (omega arith))

  pub measure-Sampled :
      (c : Mconfig) (p : ℕ) (d : NodeData) (m : Monitor F h)
      → F.lt (F.of_int (pos 0)) (latency F d.ts (m.req_out_if p)) ≡ true
      → (m.maxseq p).rsp_sent_seq < d.sent_seq
      → m.idx_hy < m.thre
      → m.thre < 2 ^ 64
      → (t : Monitor F h) × (measure c p d m ≡ some (pos 1, t))
        × Sampled m t (latency F d.ts (m.req_out_if p))
  unfolding measure
  measure-Sampled c p d m positive fresh room small = elim (Bool-cases (truthy c.rsp_pri)) [
    | inl e ↦
        let (fresh', room', same) = prioritise_room c p d m fresh room in
        let t = sample p d (latency F d.ts (m.req_out_if p)) (prioritise c p d m) in
        (
          t,
          rw (positive, extend_idle m room, e) (record_sample-fresh p d _ _ fresh' room'),
          prioritise-Sampled c p d _ m t (sample-Sampled p d _ _ (omega arith)),
        )
    | inr e ↦ (
      sample p d (latency F d.ts (m.req_out_if p)) m,
      rw (positive, extend_idle m room, e) (record_sample-fresh p d _ m fresh room),
      sample-Sampled p d _ m (omega arith),
    )
  ]

  pub handle_done :
      (c : Mconfig) (stray : ReqTemp) (d : NodeData) (m t : Monitor F h)
      → response_time_process c stray d m ≡ some (pos 1, t)
      → handle c stray d m ≡ some t
  unfolding handle count_miss
  handle_done c stray d m t e = rw (e, handle)
