-- ===== src/Monitor/Isolation.antt =====
-- Records of other connections leave what is known of a connection alone, so that a response is
-- measured against its own request whatever is handled in between.
use hcmonitor.Prelude.{ℕ, ◌≡◌, ◌≢◌, refl, ℤ, pos, truthy, some, List, arith, Bool-cases, inl, inr}
use hcmonitor.Config.{Mconfig}
use hcmonitor.Floats.{Floats}
use hcmonitor.Hash.{RteHash, HashLaws}
use hcmonitor.Node.{NodeData, key_bytes}
use hcmonitor.Monitor.{
  req_hash_entries, ReqTemp, Monitor, inc32, track, prioritise, note_request, extend, sample,
  count_miss, handle, run,
}
use hcmonitor.Monitor.Rule.{
  Holds, Holds-some, Samples, process_rule, measure_rule, handle_rule, All, run_rule,
}

-- The positions of two keys are two.
ne_of_keys :
    {h : RteHash} (laws : HashLaws h req_hash_entries) (t : h.Table) {j k : List ℕ} {a b : ℕ}
    → j ≢ k
    → h.lookup t j ≡ pos a
    → h.lookup t k ≡ pos b
    → a ≢ b
ne_of_keys {h} laws t {j} {k} {a} {b} ne f g same = ne (laws.distinct t j k b (rw (← same) f) g)

module _ {F : Floats} {h : RteHash} where
  -- What is known at position `p` is the same in both states.
  pub record Same (p : ℕ) (m t : Monitor F h) : Type 0 where
    pub seqs : t.maxseq p ≡ m.maxseq p
    pub vars : t.req_hy_count p ≡ m.req_hy_count p
    pub out : t.req_out_if p ≡ m.req_out_if p

  prioritise-Same :
      (c : Mconfig) (p j : ℕ) (d : NodeData) (m t : Monitor F h)
      → j ≢ p
      → Same p m t
      → Same p m (prioritise c j d t)
  unfolding prioritise
  prioritise-Same c p j d m t ne s = ground arith

  track-Same :
      (p j : ℕ) (d : NodeData) (m t : Monitor F h) → j ≢ p → Same p m t → Same p m (track j d t)
  unfolding track
  track-Same p j d m t ne s = ground arith

  note_request-Same :
      (c : Mconfig) (p j : ℕ) (d : NodeData) (m t : Monitor F h)
      → j ≢ p
      → Same p m t
      → Same p m (note_request c j d t)
  unfolding note_request
  note_request-Same c p j d m t ne s = elim (Bool-cases (truthy c.rsp_pri)) [
    | inl e ↦ rw e (track-Same p j d m t ne s)
    | inr e ↦ rw e (prioritise-Same c p j d m _ ne (track-Same p j d m t ne s))
  ]

  sample-Same :
      (p j : ℕ) (d : NodeData) (ack : F.Float) (m t : Monitor F h)
      → j ≢ p
      → Same p m t
      → Same p m (sample j d ack t)
  unfolding sample
  sample-Same p j d ack m t ne s = ground arith

  extend-Same : (p : ℕ) (m t : Monitor F h) → Same p m t → Same p m (extend t)
  unfolding extend
  extend-Same p m t s = ground arith

  count_miss-Same : (p : ℕ) (l : ℤ) (m t : Monitor F h) → Same p m t → Same p m (count_miss l t)
  unfolding count_miss
  count_miss-Same p l m t s = ground arith

  -- The table goes its own way.
  note_request-table :
      (c : Mconfig) (j : ℕ) (d : NodeData) (t : Monitor F h)
      → (note_request c j d t).table ≡ t.table
  unfolding note_request track prioritise
  note_request-table c j d t = ground arith

  prioritise-table :
      (c : Mconfig) (j : ℕ) (d : NodeData) (t : Monitor F h) → (prioritise c j d t).table ≡ t.table
  unfolding prioritise
  prioritise-table c j d t = ground arith

  extend-table : (t : Monitor F h) → (extend t).table ≡ t.table
  unfolding extend
  extend-table t = ground arith

  pub sample-table :
      (j : ℕ) (d : NodeData) (ack : F.Float) (t : Monitor F h) → (sample j d ack t).table ≡ t.table
  unfolding sample
  sample-table j d ack t = refl

  count_miss-table : (l : ℤ) (t : Monitor F h) → (count_miss l t).table ≡ t.table
  unfolding count_miss
  count_miss-table l t = ground arith

  -- Position `p` is still that of key `k`, and what is known there is as in `m`.
  pub record Kept (k : List ℕ) (p : ℕ) (m t : Monitor F h) : Type 0 where
    pub same : Same p m t
    pub found : h.lookup t.table k ≡ pos p

  count_miss-Kept :
      {k : List ℕ} {p : ℕ} {m t : Monitor F h} (l : ℤ) → Kept k p m t → Kept k p m (count_miss l t)
  count_miss-Kept {p} {m} {t} l e = record {
    same = count_miss-Same p l m t e.same;
    found = rw (count_miss-table l t) e.found;
  }

  prioritise-Kept :
      {k : List ℕ} {p : ℕ} {m t : Monitor F h} (c : Mconfig) (j : ℕ) (d : NodeData)
      → j ≢ p
      → Kept k p m t
      → Kept k p m (prioritise c j d t)
  prioritise-Kept {p} {m} {t} c j d ne e = record {
    same = prioritise-Same c p j d m t ne e.same;
    found = rw (prioritise-table c j d t) e.found;
  }

  extend-Kept : {k : List ℕ} {p : ℕ} {m t : Monitor F h} → Kept k p m t → Kept k p m (extend t)
  extend-Kept {p} {m} {t} e = record {
    same = extend-Same p m t e.same;
    found = rw (extend-table t) e.found;
  }

  Samples-Kept :
      {k : List ℕ} {p : ℕ} {m t : Monitor F h} (c : Mconfig) (stray : ReqTemp) (d : NodeData)
      (j : ℕ)
      → j ≢ p
      → Kept k p m t
      → Samples c stray d (λ r. Kept k p m (count_miss r.0 r.1)) j t
  Samples-Kept {p} {m} {t} c stray d j ne e = record {
    taken = λ ack fresh lt. count_miss-Kept _ (record {
      same = sample-Same p j d ack m t ne e.same;
      found = rw (sample-table j d ack t) e.found;
    });
    again = count_miss-Kept _ (record {
      same = record { seqs = e.same.seqs; vars = e.same.vars; out = e.same.out };
      found = e.found;
    });
  }

  handle-Kept :
      (laws : HashLaws h req_hash_entries) (c : Mconfig) (stray : ReqTemp) (k : List ℕ) (p : ℕ)
      (m : Monitor F h) (d : NodeData) (t : Monitor F h)
      → key_bytes c d ≢ k
      → Kept k p m t
      → Holds (Kept k p m) (handle c stray d t)
  handle-Kept laws c stray k p m d t other e =
      let Q : ℤ × Monitor F h → Type 0 = λ r. Kept k p m (count_miss r.0 r.1) in
      let same' = e.same in
      let seen : Kept k p m (record t { pkt_rep = inc32 t.pkt_rep }) = record {
        same = record { seqs = same'.seqs; vars = same'.vars; out = same'.out };
        found = e.found;
      } in
      handle_rule c stray (Kept k p m) d t (
        process_rule c stray d Q t
          (λ j ty added.
            let u = (h.add_key t.table (key_bytes c d)).1 in
            let still = laws.add_key_keeps t.table (key_bytes c d) k p e.found in
            let ne =
              ne_of_keys laws u other (laws.lookup-add_key t.table (key_bytes c d) j added) still in
            count_miss-Kept _ (record {
              same =
                  note_request-Same c p j d m _ ne
                    (record { seqs = same'.seqs; vars = same'.vars; out = same'.out });
              found = rw (note_request-table c j d _) still;
            }))
          (λ ty. count_miss-Kept _ seen)
          (λ j ty found.
            let ne = ne_of_keys laws t.table other found e.found in
            measure_rule c stray d Q j _ (count_miss-Kept _ seen)
              (Samples-Kept c stray d j ne (extend-Kept seen))
              (Samples-Kept c stray d j ne (prioritise-Kept c j d ne (extend-Kept seen))))
          (λ n n'. count_miss-Kept _ e))

  -- Records of other keys, in any number and order, leave what is known of a connection that
  -- the table holds as it was, with a table that meets the laws.
  pub run-Kept :
      (laws : HashLaws h req_hash_entries) (c : Mconfig) (stray : ReqTemp) (k : List ℕ) (p : ℕ)
      (ds : List NodeData) (m t : Monitor F h)
      → All (λ d. key_bytes c d ≢ k) ds
      → h.lookup m.table k ≡ pos p
      → run c stray ds m ≡ some t
      → Kept k p m t
  run-Kept laws c stray k p ds m t others found e =
      Holds-some (Kept k p m) (run c stray ds m)
        (run_rule c stray (Kept k p m) (λ d. key_bytes c d ≢ k)
          (λ d u other kept. handle-Kept laws c stray k p m d u other kept) ds m others
          (record { same = record { seqs = refl; vars = refl; out = refl }; found = found }))
        e
