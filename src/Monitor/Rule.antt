-- ===== src/Monitor/Rule.antt =====
-- A rule for properties that every outcome of `response_time_process` has: one premise for each of
-- its branches.
use hcmonitor.Prelude.{
  ℕ, ◌<◌, ◌≡◌, ◌≢◌, ℤ, pos, negsuc, ◌==ℤ◌, ==ℤ_iff, truthy, Option, some, none, ltb, ltb→lt,
  Option-cases, List, [], ◌∷◌, Bool-cases, inl, inr, ℤ-cases, arith,
}
use mathlib.Core.Option.{some-injective}
use hcmonitor.Config.{Mconfig, m_req, m_rsp}
use hcmonitor.Floats.{Floats}
use hcmonitor.Hash.{RteHash}
use hcmonitor.Node.{NodeData, key_bytes}
use hcmonitor.Monitor.{
  req_hash_entries, ReqTemp, Monitor, inc32, out_of_window, latency, prioritise, note_request,
  extend, sample, record_sample, measure, process_request, process_response, response_time_process,
  count_miss, handle, run,
}

-- The property of a result, if there is one.
abbrev pub Holds {ℓ} : {A : Type 0} → (A → Type ℓ) → Option A → Type ℓ
Holds P none = Unit
Holds P (some a) = P a

pub Holds-some {ℓ} :
    {A : Type 0} (P : A → Type ℓ) (o : Option A) {a : A} → Holds P o → o ≡ some a → P a
Holds-some P o h e = rw e at h

module _ {F : Floats} {h : RteHash} (c : Mconfig) (stray : ReqTemp) (d : NodeData)
    (P : ℤ × Monitor F h → Type 0) where
  -- The states in which a sample is taken: after the arrays were extended, and perhaps after the
  -- response's priority was noted.
  pub record Samples (p : ℕ) (m : Monitor F h) : Type 0 where
    pub taken :
        (ack : F.Float)
        → (m.maxseq p).rsp_sent_seq < d.sent_seq
        → m.idx_hy < m.thre
        → P (pos 1, sample p d ack m)
    pub again : P (negsuc 1, record m { rsp_recount = inc32 m.rsp_recount })

  record_sample_rule :
      (p : ℕ) (m : Monitor F h) (ack : F.Float) → Samples p m → Holds P (record_sample p d ack m)
  unfolding record_sample
  record_sample_rule p m ack s = elim (Bool-cases (ltb (m.maxseq p).rsp_sent_seq d.sent_seq)) [
    | inl e ↦ elim (Bool-cases (ltb m.idx_hy m.thre)) [
      | inl r ↦ rw (e, r) (s.taken ack (ltb→lt _ _ e) (ltb→lt _ _ r))
      | inr r ↦ rw (e, r) tt
    ]
    | inr e ↦ rw e (s.again)
  ]

  pub measure_rule :
      (p : ℕ) (m : Monitor F h)
      → P (pos 1, m)
      → Samples p (extend m)
      → Samples p (prioritise c p d (extend m))
      → Holds P (measure c p d m)
  unfolding measure
  measure_rule p m idle plain noted =
      elim (Bool-cases (F.lt (F.of_int (pos 0)) (latency F d.ts (m.req_out_if p)))) [
        | inl e ↦ elim (Bool-cases (truthy c.rsp_pri)) [
          | inl r ↦ rw (e, r) (record_sample_rule p _ _ noted)
          | inr r ↦ rw (e, r) (record_sample_rule p _ _ plain)
        ]
        | inr e ↦ rw e idle
      ]

  request_rule :
      (m : Monitor F h)
      → ((p : ℕ)
          → (h.add_key m.table (key_bytes c d)).0 ≡ pos p
          → p < req_hash_entries
          → P (
            pos 1,
            note_request c p d (record m {
              pkt_req = inc32 m.pkt_req;
              table = (h.add_key m.table (key_bytes c d)).1;
            }),
          ))
      → Holds P (process_request c d m)
  unfolding process_request
  request_rule m req = elim (ℤ-cases (h.add_key m.table (key_bytes c d)).0) [
    | inl (p, e) ↦ elim (Bool-cases (ltb p req_hash_entries)) [
      | inl r ↦ rw (e, process_request, r) (req p e (ltb→lt _ _ r))
      | inr r ↦ rw (e, process_request, r) tt
    ]
    | inr (n, e) ↦ rw (e, process_request) tt
  ]

  response_rule :
      (m : Monitor F h)
      → P (negsuc 1, record m { pkt_rep = inc32 m.pkt_rep })
      → ((p : ℕ)
          → h.lookup m.table (key_bytes c d) ≡ pos p
          → Holds P (measure c p d (record m { pkt_rep = inc32 m.pkt_rep })))
      → Holds P (process_response c stray d m)
  unfolding process_response
  response_rule m miss hit = elim (ℤ-cases (h.lookup m.table (key_bytes c d))) [
    | inl (p, e) ↦ elim (Bool-cases (ltb p req_hash_entries)) [
      | inl r ↦ elim (Bool-cases (out_of_window (m.maxseq p) d)) [
        | inl w ↦ rw (e, process_response, r, w) miss
        | inr w ↦ rw (e, process_response, r, w) (hit p e)
      ]
      | inr r ↦ rw (e, process_response, r) tt
    ]
    | inr (n, e) ↦ elim (Bool-cases (out_of_window stray d)) [
      | inl w ↦ rw (e, process_response, w) miss
      | inr w ↦ rw (e, process_response, w) miss
    ]
  ]

  -- One premise for a request, one for a response that is not matched, one for a response that is,
  -- and one for any other packet.
  pub process_rule :
      (m : Monitor F h)
      → ((p : ℕ)
          → d.type ≡ m_req
          → (h.add_key m.table (key_bytes c d)).0 ≡ pos p
          → P (
            pos 1,
            note_request c p d (record m {
              pkt_req = inc32 m.pkt_req;
              table = (h.add_key m.table (key_bytes c d)).1;
            }),
          ))
      → (d.type ≡ m_rsp → P (negsuc 1, record m { pkt_rep = inc32 m.pkt_rep }))
      → ((p : ℕ)
          → d.type ≡ m_rsp
          → h.lookup m.table (key_bytes c d) ≡ pos p
          → Holds P (measure c p d (record m { pkt_rep = inc32 m.pkt_rep })))
      → (d.type ≢ m_req → d.type ≢ m_rsp → P (negsuc 0, m))
      → Holds P (response_time_process c stray d m)
  unfolding response_time_process
  process_rule m req miss hit other = elim (Bool-cases (d.type ==ℤ m_req)) [
    | inl q ↦ rw q (request_rule m (λ p e lt. req p ((==ℤ_iff _ _).0 q) e))
    | inr q ↦ elim (Bool-cases (d.type ==ℤ m_rsp)) [
      | inl r ↦
          rw (q, r)
            (response_rule m (miss ((==ℤ_iff _ _).0 r)) (λ p e. hit p ((==ℤ_iff _ _).0 r) e))
      | inr r ↦ rw (q, r) (other (λ e. ground arith) (λ e. ground arith))
    ]
  ]

abbrev pub All {ℓ κ} : {A : Type ℓ} → (A → Type κ) → List A → Type κ
All P [] = Unit
All P (x ∷ xs) = P x × All P xs

module _ {F : Floats} {h : RteHash} (c : Mconfig) (stray : ReqTemp) (I : Monitor F h → Type 0) where
  pub handle_rule :
      (d : NodeData) (m : Monitor F h)
      → Holds (λ r. I (count_miss r.0 r.1)) (response_time_process c stray d m)
      → Holds I (handle c stray d m)
  unfolding handle
  handle_rule d m hold = elim (Option-cases (response_time_process c stray d m)) [
    | inl e ↦ rw (e, handle) tt
    | inr (r, e) ↦ rw (e, handle) (Holds-some _ _ hold e)
  ]

  -- What every record keeps, a sequence of records keeps.
  pub run_rule :
      (A : NodeData → Type 0)
      → ((d : NodeData) (m : Monitor F h) → A d → I m → Holds I (handle c stray d m))
      → (ds : List NodeData) (m : Monitor F h) → All A ds
      → I m
      → Holds I (run c stray ds m)
  unfolding run
  run_rule A keep [] m a i = i
  run_rule A keep (d ∷ ds) m a i = elim (Option-cases (handle c stray d m)) [
    | inl e ↦ rw (e, run) tt
    | inr (t, e) ↦ rw (e, run) (run_rule A keep ds t a.1 (Holds-some I _ (keep d m a.0 i) e))
  ]

pub All-Unit {ℓ} : {A : Type ℓ} (xs : List A) → All (λ _. Unit {0}) xs
All-Unit [] = tt
All-Unit (x ∷ xs) = (tt, All-Unit xs)

-- A sequence that is handled begins with a record that is.
pub run_inv :
    {F : Floats} {h : RteHash} (c : Mconfig) (stray : ReqTemp) (d : NodeData) (ds : List NodeData)
    (m t : Monitor F h)
    → run c stray (d ∷ ds) m ≡ some t
    → (u : Monitor F h) × (handle c stray d m ≡ some u) × (run c stray ds u ≡ some t)
unfolding run
run_inv c stray d ds m t e = elim (Option-cases (handle c stray d m)) [
  | inl f ↦ absurd (ground arith)
  | inr (u, f) ↦ (u, f, rw (f, run) at e)
]

pub run_nil :
    {F : Floats} {h : RteHash} (c : Mconfig) (stray : ReqTemp) (ds : List NodeData)
    (m t : Monitor F h)
    → ds ≡ []
    → run c stray ds m ≡ some t
    → m ≡ t
unfolding run
run_nil c stray [] m t n e = some-injective _ _ e
run_nil c stray (d ∷ ds) m t n e = cc
