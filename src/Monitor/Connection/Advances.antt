-- ===== src/Monitor/Connection/Advances.antt =====
-- The monitor on one record, against the connections by themselves.
use hcmonitor.Prelude.{
  ℕ, ◌≡◌, refl, ℤ, negsuc, ℤ-cases, ◌==ℤ◌, ltb, Bool, true, false, Bool-cases, inl, inr, Option,
  some, none, List, ◌++◌,
}
use mathlib.Core.List.{append-nil}
use hcmonitor.Config.{Mconfig, m_req, m_rsp}
use hcmonitor.Floats.{Floats}
use hcmonitor.Hash.{RteHash, HashLaws}
use hcmonitor.Node.{NodeData, key_bytes}
use hcmonitor.Monitor.{
  req_hash_entries, ReqTemp, Monitor, inc32, out_of_window, process_request, process_response,
  measure, response_time_process, count_miss, handle,
}
use hcmonitor.Monitor.Rule.{Holds, handle_rule}
use hcmonitor.Monitor.Connection.{Conn, missed, answer, answered, sample_of, emitted, next_conns}
use hcmonitor.Monitor.Connection.Taken.{IsTaken}
use hcmonitor.Monitor.Connection.Answers.{Replies, Replies-of, measure-Replies}
use hcmonitor.Monitor.Connection.Keys.{unknown, other_type}
use hcmonitor.Monitor.Connection.Refines.{Refines, request-Refines, replied-Refines, passed-Refines}

Holds-map :
    {A : Type 0} {P Q : A → Type 0} → ((a : A) → P a → Q a) → (o : Option A) → Holds P o → Holds Q o
Holds-map f none v = v
Holds-map f (some a) v = f a v

module _ {F : Floats} {h : RteHash} (laws : HashLaws h req_hash_entries) (c : Mconfig)
    (stray : ReqTemp) (blank : Conn) where
  -- What is known behind a record, and the samples.
  abbrev pub Advances :
      (List ℕ → Option Conn) → List (F.Float × Bool) → NodeData → Monitor F h → Type 0
  Advances conns xs d t =
      Refines blank (next_conns F c blank d conns)
        (xs ++ emitted F c blank d (conns (key_bytes c d))) t

  count_miss-Refines :
      {conns : List ℕ → Option Conn} {xs : List (F.Float × Bool)} (l : ℤ) (t : Monitor F h)
      → Refines blank conns xs t
      → Refines blank conns xs (count_miss l t)
  unfolding count_miss
  count_miss-Refines l t v = elim (Bool-cases (l ==ℤ negsuc 1)) [
    | inl e ↦
        rw (e, count_miss)
          (record {
            here = v.here;
            absent = v.absent;
            free = v.free;
            taken = record { count = v.taken.count; there = v.taken.there; small = v.taken.small };
          })
    | inr e ↦ rw (e, count_miss) v
  ]

  request-Advances :
      (conns : List ℕ → Option Conn) (xs : List (F.Float × Bool)) (d : NodeData) (m : Monitor F h)
      → (d.type ==ℤ m_req) ≡ true
      → Refines blank conns xs m
      → Holds (λ r. Advances conns xs d r.1) (process_request c d m)
  unfolding process_request
  request-Advances conns xs d m e v = elim (ℤ-cases (h.add_key m.table (key_bytes c d)).0) [
    | inl (p, f) ↦ elim (Bool-cases (ltb p req_hash_entries)) [
      | inl b ↦ rw (f, process_request, b) (request-Refines laws c stray blank conns xs d m p e f v)
      | inr b ↦ rw (f, process_request, b) tt
    ]
    | inr (n, f) ↦ rw (f, process_request) tt
  ]

  -- A response that is outside the window of its connection is not matched.
  missed-Replies :
      (xs : List (F.Float × Bool)) (d : NodeData) (m : Monitor F h) (p : ℕ)
      → out_of_window (m.maxseq p) d ≡ true
      → IsTaken xs m
      → Replies c p d xs m m
  unfolding answer answered sample_of
  missed-Replies xs d m p g v =
      Replies-of m missed (rw (g, answer) refl) refl (record { here = refl; there = λ j ne. refl })
        (rw (append-nil xs) v)

  response-Advances :
      (conns : List ℕ → Option Conn) (xs : List (F.Float × Bool)) (d : NodeData) (m : Monitor F h)
      → (d.type ==ℤ m_req) ≡ false
      → (d.type ==ℤ m_rsp) ≡ true
      → Refines blank conns xs m
      → Holds (λ r. Advances conns xs d r.1) (process_response c stray d m)
  unfolding process_response
  response-Advances conns xs d m e f v =
      let k0 = key_bytes c d in
      let m' : Monitor F h = record m { pkt_rep = inc32 m.pkt_rep } in
      elim (ℤ-cases (h.lookup m.table k0)) [
        | inl (p, found) ↦ elim (Bool-cases (ltb p req_hash_entries)) [
          | inr b ↦ rw (found, process_response, b) tt
          | inl b ↦
              let w = v.taken in
              let taken : IsTaken xs m' = record {
                count = w.count;
                there = w.there;
                small = w.small;
              } in
              let advance = λ (t : Monitor F h) (r : Replies c p d xs m' t).
                replied-Refines laws c stray blank conns xs d m t p e f found v (record {
                  table = r.table;
                  puts = record { here = r.puts.here; there = r.puts.there };
                  taken = r.taken;
                }) in
              elim (Bool-cases (out_of_window (m.maxseq p) d)) [
                | inl g ↦
                    rw (found, process_response, b, g)
                      (advance m' (missed-Replies xs d m' p g taken))
                | inr g ↦
                    rw (found, process_response, b, g)
                      (Holds-map (λ r. advance r.1) (measure c p d m')
                        (measure-Replies c p d xs m' g taken))
              ]
        ]
        | inr (n, lost) ↦
            let (stays, no_sample) = unknown F c blank d (conns k0) e f (v.absent k0 n lost) in
            let w =
              passed-Refines laws c stray blank conns xs d m (inc32 m.pkt_rep) stays no_sample v in
            elim (Bool-cases (out_of_window stray d)) [
              | inl g ↦ rw (lost, process_response, g) w
              | inr g ↦ rw (lost, process_response, g) w
            ]
      ]

  process-Advances :
      (conns : List ℕ → Option Conn) (xs : List (F.Float × Bool)) (d : NodeData) (m : Monitor F h)
      → Refines blank conns xs m
      → Holds (λ r. Advances conns xs d r.1) (response_time_process c stray d m)
  unfolding response_time_process
  process-Advances conns xs d m v = elim (Bool-cases (d.type ==ℤ m_req)) [
    | inl e ↦ rw (e, response_time_process) (request-Advances conns xs d m e v)
    | inr e ↦ elim (Bool-cases (d.type ==ℤ m_rsp)) [
      | inl f ↦ rw (e, f, response_time_process) (response-Advances conns xs d m e f v)
      | inr f ↦
          let (stays, no_sample) = other_type F c blank d (conns (key_bytes c d)) e f in
          rw (e, f, response_time_process)
            (passed-Refines laws c stray blank conns xs d m m.pkt_rep stays no_sample v)
    ]
  ]

  -- One record, in a monitor that refines the connections.
  pub handle-Advances :
      (conns : List ℕ → Option Conn) (xs : List (F.Float × Bool)) (d : NodeData) (m : Monitor F h)
      → Refines blank conns xs m
      → Holds (Advances conns xs d) (handle c stray d m)
  handle-Advances conns xs d m v = handle_rule c stray (Advances conns xs d) d m (
      Holds-map (λ r. count_miss-Refines r.0 r.1) (response_time_process c stray d m)
        (process-Advances conns xs d m v))
