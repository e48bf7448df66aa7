-- ===== src/Monitor/Connection/Slots.antt =====
-- The slot of a position in the arrays of the monitor, as a connection.
use hcmonitor.Prelude.{
  ℕ, ◌≡◌, ◌≢◌, refl, ap, ◌∙◌, ==_refl, pos, ◌==ℤ◌, ltb, truthy, ◌==◌, if◌then◌else◌, Bool-cases,
  inl, inr, arith, false,
}
use hcmonitor.Config.{Mconfig}
use hcmonitor.Floats.{Floats}
use hcmonitor.Hash.{RteHash}
use hcmonitor.Node.{NodeData}
use hcmonitor.Monitor.{Monitor, track, prioritise, note_request, sample}
use hcmonitor.Monitor.Connection.{Conn, asked, rated}

ne_test : (p j : ℕ) → p ≢ j → (p == j) ≡ false
ne_test p j ne = ground (arith, ne)

module _ {F : Floats} {h : RteHash} where
  abbrev pub conn_at : Monitor F h → ℕ → Conn
  conn_at m p = record { seqs = m.maxseq p; vars = m.req_hy_count p; out = m.req_out_if p }

  -- A change at position `p` that makes `x` of the slot there.
  pub record Puts (p : ℕ) (x : Conn) (m t : Monitor F h) : Type 0 where
    pub here : conn_at t p ≡ x
    pub there : (j : ℕ) → p ≢ j → conn_at t j ≡ conn_at m j

  track-Puts :
      (p : ℕ) (d : NodeData) (m : Monitor F h) → Puts p (asked d (conn_at m p)) m (track p d m)
  unfolding track asked
  track-Puts p d m = elim (Bool-cases (ltb (m.maxseq p).req_sent_seq d.sent_seq)) [
    | inl e ↦ elim (Bool-cases ((m.req_hy_count p).count ==ℤ pos 0)) [
      | inl f ↦
          rw (e, f, track)
            (record { here = rw (==_refl p) refl; there = λ j ne. rw (ne_test p j ne) refl })
      | inr f ↦
          rw (e, f, track)
            (record { here = rw (==_refl p) refl; there = λ j ne. rw (ne_test p j ne) refl })
    ]
    | inr e ↦ rw (e, track) (record { here = refl; there = λ j ne. refl })
  ]

  pub prioritise-Puts :
      (c : Mconfig) (p : ℕ) (d : NodeData) (m : Monitor F h)
      → Puts p (rated c d (conn_at m p)) m (prioritise c p d m)
  unfolding prioritise rated
  prioritise-Puts c p d m = elim (Bool-cases (d.pri ==ℤ c.pri_high_label)) [
    | inl e ↦
        rw (e, prioritise)
          (record { here = rw (==_refl p) refl; there = λ j ne. rw (ne_test p j ne) refl })
    | inr e ↦
        rw (e, prioritise)
          (record { here = rw (==_refl p) refl; there = λ j ne. rw (ne_test p j ne) refl })
  ]

  pub note_request-Puts :
      (c : Mconfig) (p : ℕ) (d : NodeData) (m : Monitor F h)
      → let q = asked d (conn_at m p) in
        Puts p (if truthy c.rsp_pri then q else rated c d q) m (note_request c p d m)
  unfolding note_request
  note_request-Puts c p d m =
      let v = track-Puts p d m in
      elim (Bool-cases (truthy c.rsp_pri)) [
        | inl e ↦ rw (e, note_request) v
        | inr e ↦
            let w = prioritise-Puts c p d (track p d m) in
            rw (e, note_request)
              (record {
                here = w.here ∙ ap (rated c d) v.here;
                there = λ j ne. w.there j ne ∙ v.there j ne;
              })
      ]

  pub sample-Puts :
      (p : ℕ) (d : NodeData) (ack : F.Float) (m : Monitor F h)
      → Puts p
          (record (conn_at m p) { seqs = record (m.maxseq p) { rsp_sent_seq = d.sent_seq } })
          m
          (sample p d ack m)
  unfolding sample
  sample-Puts p d ack m = record {
    here = rw (==_refl p) refl;
    there = λ j ne. rw (ne_test p j ne) refl;
  }
