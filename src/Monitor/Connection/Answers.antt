-- ===== src/Monitor/Connection/Answers.antt =====
-- What the monitor makes of a response whose connection it knows.
use hcmonitor.Prelude.{
  ℕ, ◌<◌, ◌≡◌, refl, ap, ◌∙◌, pos, truthy, ltb, ltb→lt, Bool, true, false, if◌then◌else◌,
  Bool-cases, inl, inr, List, ◌++◌, arith,
}
use mathlib.Core.Path.{ap₂}
use hcmonitor.Config.{Mconfig}
use hcmonitor.Floats.{Floats}
use hcmonitor.Hash.{RteHash}
use hcmonitor.Node.{NodeData}
use hcmonitor.Monitor.{
  ReqTemp, ReqVars, Monitor, inc32, out_of_window, latency, prioritise, extend, sample,
  record_sample, measure,
}
use mathlib.Core.List.{append-nil}
use hcmonitor.Monitor.Rule.{Holds}
use hcmonitor.Monitor.Isolation.{sample-table}
use hcmonitor.Monitor.Connection.{
  Conn, rated, Answer, early, again, sampled, heard, answer, answered, sample_of,
}
use hcmonitor.Monitor.Connection.Taken.{IsTaken, Quiet, Quiet-IsTaken, sample-IsTaken}
use hcmonitor.Monitor.Connection.Slots.{conn_at, Puts, prioritise-Puts, sample-Puts}

heard-seqs : (c : Mconfig) (d : NodeData) (q : Conn) → (heard c d q).seqs ≡ q.seqs
unfolding rated
heard-seqs c d q = elim (Bool-cases (truthy c.rsp_pri)) [ inl e ↦ rw e refl | inr e ↦ rw e refl ]

module _ {F : Floats} {h : RteHash} where
  -- The state in which a sample is taken.
  abbrev ready : Mconfig → ℕ → NodeData → Monitor F h → Monitor F h
  ready c p d m = if truthy c.rsp_pri then prioritise c p d (extend m) else extend m

  prioritise-Quiet :
      (c : Mconfig) (p : ℕ) (d : NodeData) (m : Monitor F h) → Quiet m (prioritise c p d m)
  unfolding prioritise
  prioritise-Quiet c p d m = ground arith

  extend-Quiet : (m : Monitor F h) → Quiet m (extend m)
  unfolding extend
  extend-Quiet m = ground arith

  extend-conn_at : (m : Monitor F h) (j : ℕ) → conn_at (extend m) j ≡ conn_at m j
  unfolding extend
  extend-conn_at m j = elim (Bool-cases (ltb m.thre m.idx_hy)) [
    | inl e ↦ rw (e, extend) refl
    | inr e ↦ rw (e, extend) refl
  ]

  Quiet-trans : {m t u : Monitor F h} → Quiet m t → Quiet t u → Quiet m u
  Quiet-trans v w = record {
    table = w.table ∙ v.table;
    idx = w.idx ∙ v.idx;
    time = w.time ∙ v.time;
    pri = w.pri ∙ v.pri;
    small = λ lt. w.small (v.small lt);
  }

  record Readies (c : Mconfig) (p : ℕ) (d : NodeData) (m t : Monitor F h) : Type 0 where
    quiet : Quiet m t
    puts : Puts p (heard c d (conn_at m p)) m t

  ready-Readies :
      (c : Mconfig) (p : ℕ) (d : NodeData) (m : Monitor F h) → Readies c p d m (ready c p d m)
  ready-Readies c p d m = elim (Bool-cases (truthy c.rsp_pri)) [
    | inl e ↦
        let v = prioritise-Puts c p d (extend m) in
        rw e (record {
          quiet = Quiet-trans (extend-Quiet m) (prioritise-Quiet c p d (extend m));
          puts = record {
            here = rw e (v.here ∙ ap (rated c d) (extend-conn_at m p));
            there = λ j ne. v.there j ne ∙ extend-conn_at m j;
          };
        })
    | inr e ↦ rw e (record {
      quiet = extend-Quiet m;
      puts = record { here = rw e (extend-conn_at m p); there = λ j ne. extend-conn_at m j };
    })
  ]

  -- What a response leaves that is answered by the slot at position `p`.
  pub record Replies (c : Mconfig) (p : ℕ) (d : NodeData) (xs : List (F.Float × Bool))
      (m t : Monitor F h) : Type 0 where
    pub table : t.table ≡ m.table
    pub puts : Puts p (answered c d (conn_at m p) (answer F c d (conn_at m p))) m t
    pub taken : IsTaken (xs ++ sample_of (answer F c d (conn_at m p))) t

  pub Replies-of :
      {c : Mconfig} {p : ℕ} {d : NodeData} {xs : List (F.Float × Bool)} {m : Monitor F h}
      (t : Monitor F h) (r : Answer F)
      → answer F c d (conn_at m p) ≡ r
      → t.table ≡ m.table
      → Puts p (answered c d (conn_at m p) r) m t
      → IsTaken (xs ++ sample_of r) t
      → Replies c p d xs m t
  Replies-of t r e same v w = record { table = same; puts = rw e v; taken = rw e w }

  module _ (c : Mconfig) (p : ℕ) (d : NodeData) (xs : List (F.Float × Bool)) (m n : Monitor F h)
      (v : Readies c p d m n) (w : IsTaken xs m) (near : out_of_window (m.maxseq p) d ≡ false)
      (later : F.lt (F.of_int (pos 0)) (latency F d.ts (m.req_out_if p)) ≡ true) where
    ready-seqs : n.maxseq p ≡ m.maxseq p
    ready-seqs = ap (λ (x : Conn). x.seqs) v.puts.here ∙ heard-seqs c d (conn_at m p)

    ready-vars : n.req_hy_count p ≡ (heard c d (conn_at m p)).vars
    ready-vars = ap (λ (x : Conn). x.vars) v.puts.here

    again-Replies :
        ltb (m.maxseq p).rsp_sent_seq d.sent_seq ≡ false
        → Replies c p d xs m (record n { rsp_recount = inc32 n.rsp_recount })
    unfolding answer answered sample_of
    again-Replies f =
        Replies-of _ again (rw (near, later, f, answer) refl) v.quiet.table
          (record { here = v.puts.here; there = v.puts.there })
          (rw (append-nil xs) (
            Quiet-IsTaken
              (record { table = refl; idx = refl; time = refl; pri = refl; small = λ lt. lt })
              (Quiet-IsTaken v.quiet w)))

    sample-Replies :
        ltb (m.maxseq p).rsp_sent_seq d.sent_seq ≡ true
        → n.idx_hy < n.thre
        → let ack = latency F d.ts (m.req_out_if p) in Replies c p d xs m (sample p d ack n)
    unfolding answer answered sample_of
    sample-Replies f room =
        let ack = latency F d.ts (m.req_out_if p) in
        let high = truthy (heard c d (conn_at m p)).vars.pri in
        let s = sample-Puts p d ack n in
        let taken = sample-IsTaken xs p d ack n room (Quiet-IsTaken v.quiet w) in
        Replies-of _ (sampled ack high) (rw (near, later, f, answer) refl)
          (sample-table p d ack n ∙ v.quiet.table)
          (record {
            here =
                s.here
                ∙ ap₂
                    (λ (q : Conn) (x : ReqTemp). record q {
                      seqs = record x { rsp_sent_seq = d.sent_seq };
                    })
                    v.puts.here ready-seqs;
            there = λ j ne. s.there j ne ∙ v.puts.there j ne;
          })
          (rw (ap (λ (x : ReqVars). truthy x.pri) ready-vars) at taken)

    record_sample-Replies :
        Holds (λ r. Replies c p d xs m r.1) (record_sample p d (latency F d.ts (m.req_out_if p)) n)
    unfolding record_sample
    record_sample-Replies = elim (Bool-cases (ltb (m.maxseq p).rsp_sent_seq d.sent_seq)) [
      | inr f ↦ rw (ready-seqs, f, record_sample) (again-Replies f)
      | inl f ↦ elim (Bool-cases (ltb n.idx_hy n.thre)) [
        | inl r ↦ rw (ready-seqs, f, r, record_sample) (sample-Replies f (ltb→lt _ _ r))
        | inr r ↦ rw (ready-seqs, f, r, record_sample) tt
      ]
    ]

  pub measure-Replies :
      (c : Mconfig) (p : ℕ) (d : NodeData) (xs : List (F.Float × Bool)) (m : Monitor F h)
      → out_of_window (m.maxseq p) d ≡ false
      → IsTaken xs m
      → Holds (λ r. Replies c p d xs m r.1) (measure c p d m)
  unfolding measure answered sample_of answer
  measure-Replies c p d xs m near w =
      elim (Bool-cases (F.lt (F.of_int (pos 0)) (latency F d.ts (m.req_out_if p)))) [
        | inr e ↦
            rw (e, measure)
              (Replies-of m early (rw (near, e, answer) refl) refl
                (record { here = refl; there = λ j ne. refl }) (rw (append-nil xs) w))
        | inl e ↦
            rw (e, measure)
              (record_sample-Replies c p d xs m (ready c p d m) (ready-Readies c p d m) w near e)
      ]
