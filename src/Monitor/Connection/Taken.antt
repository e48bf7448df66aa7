-- ===== src/Monitor/Connection/Taken.antt =====
-- The samples in the arrays of the monitor, as a list.
use hcmonitor.Prelude.{
  ℕ, ◌^◌, ◌<◌, ◌≡◌, ◌≢◌, sym, ◌∙◌, truthy, Bool, inl, inr, some, List, [], ◌∷◌, ◌++◌, length,
  length-append, get_elem?, update_self, update_ne, arith,
}
use hcmonitor.Floats.{Floats}
use hcmonitor.Hash.{RteHash}
use hcmonitor.Node.{NodeData}
use hcmonitor.Monitor.{Monitor, sample}
use hcmonitor.Monitor.Online.Handed.{flag, get_elem?-snoc}

module _ {F : Floats} {h : RteHash} where
  -- The samples that were taken are the first of the arrays.
  pub record IsTaken (xs : List (F.Float × Bool)) (m : Monitor F h) : Type 0 where
    pub count : m.idx_hy ≡ length xs
    pub there :
        (i : ℕ) (x : F.Float × Bool)
        → get_elem? xs i ≡ some x
        → (m.time i ≡ x.0) × (m.pri i ≡ flag x.1)
    pub small : m.thre < 2 ^ 64

  -- What a record leaves alone of the table and the samples.
  pub record Quiet (m t : Monitor F h) : Type 0 where
    pub table : t.table ≡ m.table
    pub idx : t.idx_hy ≡ m.idx_hy
    pub time : t.time ≡ m.time
    pub pri : t.pri ≡ m.pri
    pub small : m.thre < 2 ^ 64 → t.thre < 2 ^ 64

  pub Quiet-IsTaken :
      {xs : List (F.Float × Bool)} {m t : Monitor F h} → Quiet m t → IsTaken xs m → IsTaken xs t
  Quiet-IsTaken v w = record {
    count = v.idx ∙ w.count;
    there = λ i x e. rw (v.time, v.pri) (w.there i x e);
    small = v.small w.small;
  }

  pub sample-IsTaken :
      (xs : List (F.Float × Bool)) (p : ℕ) (d : NodeData) (ack : F.Float) (m : Monitor F h)
      → m.idx_hy < m.thre
      → IsTaken xs m
      → IsTaken (xs ++ (ack, truthy (m.req_hy_count p).pri) ∷ []) (sample p d ack m)
  unfolding sample
  sample-IsTaken xs p d ack m room v = record {
    count = omega (
      arith,
      v.count,
      v.small,
      room,
      length-append xs ((ack, truthy (m.req_hy_count p).pri) ∷ []),
    );
    there = λ i x e. elim (get_elem?-snoc xs _ x i e) [
      | inl (f, lt) ↦
          let ne : m.idx_hy ≢ i = (λ g. omega (arith, g, lt, v.count)) in
          rw
            (
              update_ne m.time m.idx_hy i ack ne,
              update_ne m.pri m.idx_hy i (flag (truthy (m.req_hy_count p).pri)) ne,
            )
            (v.there i x f)
      | inr (f, same) ↦
          let here : m.idx_hy ≡ i = v.count ∙ sym f in
          rw (← same, ← here)
            (
              update_self m.time m.idx_hy ack,
              update_self m.pri m.idx_hy (flag (truthy (m.req_hy_count p).pri)),
            )
    ];
    small = v.small;
  }
