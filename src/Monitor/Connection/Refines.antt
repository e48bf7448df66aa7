-- ===== src/Monitor/Connection/Refines.antt =====
-- The tables of the monitor hold the connections, and its arrays the samples.
use hcmonitor.Prelude.{
  ℕ, ◌≡◌, ◌≢◌, refl, ap, sym, ◌∙◌, pos, negsuc, ℤ-cases, ◌==ℤ◌, Bool, true, false, inl, inr, Option,
  some, none, option_or, List, [], ◌++◌, arith,
}
use mathlib.Core.Path.{subst}
use mathlib.Core.List.{append-nil}
use hcmonitor.Config.{Mconfig, m_req, m_rsp}
use hcmonitor.Floats.{Floats}
use hcmonitor.Hash.{RteHash, HashLaws}
use hcmonitor.Hash.Model.{pos_injective}
use hcmonitor.Node.{NodeData, key_bytes}
use hcmonitor.Monitor.{req_hash_entries, ReqTemp, Monitor, inc32, track, prioritise, note_request}
use hcmonitor.Monitor.Connection.{Conn, conn_step, emitted, next_conns}
use hcmonitor.Monitor.Connection.Keys.{
  own_or_other, next-here, next-there, requested, emitted_request, responded, add_key-Inserted,
}
use hcmonitor.Monitor.Connection.Slots.{conn_at, note_request-Puts}
use hcmonitor.Monitor.Connection.Taken.{IsTaken, Quiet, Quiet-IsTaken}
use hcmonitor.Monitor.Connection.Answers.{Replies}

module _ {F : Floats} {h : RteHash} (blank : Conn) where
  -- A key that is in the table has its connection in its slot, and one that is not has none; a slot
  -- without a key is blank; the samples are the first of the arrays.
  pub record Refines (conns : List ℕ → Option Conn) (xs : List (F.Float × Bool)) (m : Monitor F h)
      : Type 0 where
    pub here : (k : List ℕ) (p : ℕ) → h.lookup m.table k ≡ pos p → conns k ≡ some (conn_at m p)
    pub absent : (k : List ℕ) (n : ℕ) → h.lookup m.table k ≡ negsuc n → conns k ≡ none
    pub free : (p : ℕ) → ((k : List ℕ) → h.lookup m.table k ≢ pos p) → conn_at m p ≡ blank
    pub taken : IsTaken xs m

module _ {F : Floats} {h : RteHash} (laws : HashLaws h req_hash_entries) (c : Mconfig)
    (stray : ReqTemp) (blank : Conn) where
  -- The slot that a key gets is that of its connection, or blank.
  slot_before :
      (conns : List ℕ → Option Conn) (xs : List (F.Float × Bool)) (m : Monitor F h) (k0 : List ℕ)
      (p : ℕ)
      → (h.add_key m.table k0).0 ≡ pos p
      → Refines blank conns xs m
      → option_or (conns k0) blank ≡ conn_at m p
  slot_before conns xs m k0 p e v =
      let w = add_key-Inserted laws k0 p m.table e in
      elim (ℤ-cases (h.lookup m.table k0)) [
        | inl (q, f) ↦ let same = sym (w.stays k0 q f) ∙ w.own in rw (v.here k0 p (f ∙ same)) refl
        | inr (n, f) ↦ rw (v.absent k0 n f) (
            sym (
              v.free p (λ k g.
                let same = laws.distinct _ k k0 p (w.stays k p g) w.own in
                absurd (ground (arith, f, rw same at g)))))
      ]

  note_request-Quiet : (p : ℕ) (d : NodeData) (m : Monitor F h) → Quiet m (note_request c p d m)
  unfolding note_request track prioritise
  note_request-Quiet p d m = ground arith

  -- The table and the counters are no part of the samples.
  moved :
      {xs : List (F.Float × Bool)} {m : Monitor F h} (n : ℕ) (t : h.Table)
      → IsTaken xs m
      → IsTaken xs (record m { pkt_req = n; table = t })
  moved n t v = record { count = v.count; there = v.there; small = v.small }

  pub request-Refines :
      (conns : List ℕ → Option Conn) (xs : List (F.Float × Bool)) (d : NodeData) (m : Monitor F h)
      (p : ℕ)
      → (d.type ==ℤ m_req) ≡ true
      → (h.add_key m.table (key_bytes c d)).0 ≡ pos p
      → Refines blank conns xs m
      → Refines blank
          (next_conns F c blank d conns)
          (xs ++ emitted F c blank d (conns (key_bytes c d)))
          (note_request c p d
            (record m { pkt_req = inc32 m.pkt_req; table = (h.add_key m.table (key_bytes c d)).1 }))
  request-Refines conns xs d m p ty e v =
      let k0 = key_bytes c d in
      let u : Monitor F h = record m {
        pkt_req = inc32 m.pkt_req;
        table = (h.add_key m.table k0).1;
      } in
      let w = add_key-Inserted laws k0 p m.table e in
      let t : Monitor F h = note_request c p d u in
      let quiet = note_request-Quiet p d u in
      let puts = note_request-Puts c p d u in
      let made =
        requested F c blank d (conns k0) (conn_at m p) ty (slot_before conns xs m k0 p e v) in
      let apart =
        λ (k : List ℕ) (q : ℕ) (ne : k0 ≢ k) (f : h.lookup u.table k ≡ pos q) (same : p ≡ q).
          ne (laws.distinct u.table k0 k q (w.own ∙ ap pos same) f) in
      record {
        here = λ k q f.
            let g = rw quiet.table at f in
            elim (own_or_other c d k) [
              | inl own ↦
                  let same : p ≡ q = pos_injective (sym w.own ∙ rw (← own) at g) in
                  next-here F c blank d conns k own
                  ∙ ap (λ j. conn_step F c blank d (conns j)) (sym own)
                  ∙ made
                  ∙ ap some (sym puts.here ∙ ap (conn_at t) same)
              | inr ne ↦
                  next-there F c blank d conns k ne
                  ∙ v.here k q (w.back k q ne g)
                  ∙ ap some (sym (puts.there q (apart k q ne g)))
            ];
        absent = λ k n f.
            let g = rw quiet.table at f in
            elim (own_or_other c d k) [
              | inl own ↦ absurd (ground (arith, w.own, rw (← own) at g))
              | inr ne ↦
                  let (l, lost) = w.gone k n g in
                  next-there F c blank d conns k ne ∙ v.absent k l lost
            ];
        free = λ q none_has.
            let ne : p ≢ q = (λ same. none_has k0 (rw quiet.table (w.own ∙ ap pos same))) in
            puts.there q ne ∙ v.free q (λ k f. none_has k (rw quiet.table (w.stays k q f)));
        taken =
            rw (emitted_request F c blank d (conns k0) ty, append-nil xs)
              (Quiet-IsTaken
                (record {
                  table = quiet.table;
                  idx = quiet.idx;
                  time = quiet.time;
                  pri = quiet.pri;
                  small = quiet.small;
                })
                (moved u.pkt_req u.table v.taken));
      }

  -- A response, answered by the slot of its connection.
  pub replied-Refines :
      (conns : List ℕ → Option Conn) (xs : List (F.Float × Bool)) (d : NodeData) (m t : Monitor F h)
      (p : ℕ)
      → (d.type ==ℤ m_req) ≡ false
      → (d.type ==ℤ m_rsp) ≡ true
      → h.lookup m.table (key_bytes c d) ≡ pos p
      → Refines blank conns xs m
      → Replies c p d xs m t
      → Refines blank
          (next_conns F c blank d conns)
          (xs ++ emitted F c blank d (conns (key_bytes c d)))
          t
  replied-Refines conns xs d m t p not_req is_rsp found v w =
      let k0 = key_bytes c d in
      let known = v.here k0 p found in
      let made = responded F c blank d (conns k0) (conn_at m p) not_req is_rsp known in
      record {
        here = λ k q f.
            let g = rw w.table at f in
            elim (own_or_other c d k) [
              | inl own ↦
                  let same : p ≡ q = pos_injective (sym found ∙ rw (← own) at g) in
                  next-here F c blank d conns k own
                  ∙ ap (λ j. conn_step F c blank d (conns j)) (sym own)
                  ∙ made.0
                  ∙ ap some (sym w.puts.here ∙ ap (conn_at t) same)
              | inr ne ↦
                  next-there F c blank d conns k ne
                  ∙ v.here k q g
                  ∙ ap some (
                      sym (
                        w.puts.there q
                          (λ same. ne (laws.distinct m.table k0 k q (found ∙ ap pos same) g))))
            ];
        absent = λ k n f.
            let g = rw w.table at f in
            elim (own_or_other c d k) [
              | inl own ↦ absurd (ground (arith, found, rw (← own) at g))
              | inr ne ↦ next-there F c blank d conns k ne ∙ v.absent k n g
            ];
        free = λ q none_has.
            let ne : p ≢ q = (λ same. none_has k0 (rw w.table (found ∙ ap pos same))) in
            w.puts.there q ne ∙ v.free q (λ k f. none_has k (rw w.table f));
        taken = rw made.1 w.taken;
      }

  -- A record that leaves all connections alone.
  pub passed-Refines :
      (conns : List ℕ → Option Conn) (xs : List (F.Float × Bool)) (d : NodeData) (m : Monitor F h)
      (n : ℕ)
      → conn_step F c blank d (conns (key_bytes c d)) ≡ conns (key_bytes c d)
      → emitted F c blank d (conns (key_bytes c d)) ≡ []
      → Refines blank conns xs m
      → Refines blank
          (next_conns F c blank d conns)
          (xs ++ emitted F c blank d (conns (key_bytes c d)))
          (record m { pkt_rep = n })
  passed-Refines conns xs d m n stays no_sample v =
      let same = λ (k : List ℕ).
        elim (own_or_other c d k) as (λ _. next_conns F c blank d conns k ≡ conns k) [
          | inl own ↦
              next-here F c blank d conns k own
              ∙ subst (λ j. conn_step F c blank d (conns j) ≡ conns j) own stays
          | inr ne ↦ next-there F c blank d conns k ne
        ] in
      record {
        here = λ k p f. same k ∙ v.here k p f;
        absent = λ k l f. same k ∙ v.absent k l f;
        free = v.free;
        taken =
            rw (no_sample, append-nil xs)
              (record { count = v.taken.count; there = v.taken.there; small = v.taken.small });
      }
