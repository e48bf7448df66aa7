-- ===== src/Setup/Reports/Keeps.antt =====
-- Sessions of the monitor from the set-up on, against what is promised of them.
use hcmonitor.Prelude.{
  ◌+ℤ◌, Bool, ℕ, ◌^◌, ◌≡◌, ◌⊎◌, ◌==◌, refl, ap, arith, negsuc, ◌==ℤ◌, truthy, to_unsigned, true,
  false, Option, some, none, Option-cases, List, [], ◌∷◌, ◌++◌, length, inl, inr,
}
use hcmonitor.Config.{Mconfig, m_req}
use hcmonitor.Floats.{Floats}
use hcmonitor.Hash.{RteHash, HashLaws}
use hcmonitor.Node.{NodeData, key_bytes}
use hcmonitor.Monitor.{ReqTemp, req_hash_entries, handle}
use hcmonitor.Monitor.Online.{Online}
use hcmonitor.Monitor.Connection.Faults.{handle-Fault}
use hcmonitor.Setup.{SetUp, set_up, cat_buff, burst_hash_entries, req_key_len, res_setup_hash}
use mathlib.Core.Option.{some-injective}
use hcmonitor.Figures.Report.{Report}
use hcmonitor.Setup.Tick.{Printing, enter_online, tick}
use hcmonitor.Setup.Session.{Step, node, interval, with_report, move, session, new_monitor-Tallied}
use hcmonitor.Setup.Connections.{new_monitor-Refines}
use hcmonitor.Setup.Reports.{IsReport, Shows, node-Shows, reporting, silent, failing, interval-Ends}
use hcmonitor.Setup.Views.{View, nothing, reports, see, view, reported}

module _ {F : Floats} (o : Printing F) (c : Mconfig) where
  -- Reports, each of its samples.
  pub data AreReports : List (List (F.Float × Bool)) → List (Report F) → Type 0 where
    no_reports : AreReports [] []
    one_more :
        {xs : List (F.Float × Bool)} {r : Report F} {xss : List (List (F.Float × Bool))}
        {rs : List (Report F)}
        → IsReport o c xs (some r)
        → AreReports xss rs
        → AreReports (xs ∷ xss) (r ∷ rs)

module _ {F : Floats} {h : RteHash} (o : Printing F) (c : Mconfig) (stray : ReqTemp) where
  -- The record for which there is no room: a request that the table does not take, or a sample behind
  -- as many as the arrays have entries.
  unfoldable pub IsFull : View F → NodeData → Online F h → Type 0
  IsFull v d s =
      (((d.type ==ℤ m_req) ≡ true)
        × ((n : ℕ) × ((h.add_key s.monitor.table (key_bytes c d)).0 ≡ negsuc n)))
      ⊎ (length v.taken ≡ cat_buff)

  -- Why a step is not made.
  unfoldable pub Stops : Step → View F → Online F h → Type 0
  Stops (node d) v s = (handle c stray d s.monitor ≡ none) × IsFull v d s
  Stops interval v s = (reports F c v ≡ true) × (tick o c s ≡ none) × IsReport o c v.taken none

  -- A session that was made: the view of it, and its reports.
  abbrev pub Made : List Step → View F → Online F h → Type 0
  Made es v s =
      (t : Online F h) × (rs : List (Report F)) × (session o c stray es s ≡ some (t, rs))
      × Shows (view F c es v) t
      × AreReports o c (reported F c es v) rs

  -- How a session may go: it comes to its end, or to a step that is not made.
  unfoldable pub Keeps : List Step → View F → Online F h → Type 0
  Keeps es v s =
      Made es v s
      ⊎ ((xs : List Step) × (e : Step) × (ys : List Step) × (t : Online F h) × (rs : List
            (Report F))
          × (es ≡ xs ++ (e ∷ ys))
          × (session o c stray xs s ≡ some (t, rs))
          × Shows (view F c xs v) t
          × AreReports o c (reported F c xs v) rs
          × Stops e (view F c xs v) t)

  -- A step that is made, with its report if it has one.
  after-Keeps :
      (e : Step) (es : List Step) (v : View F) (s t : Online F h) (out : Option (Report F))
      → move o c stray e s ≡ some (t, out)
      → ((xs : List Step) (rs : List (Report F))
          → AreReports o c (reported F c xs (see F c e v)) rs
          → AreReports o c (reported F c (e ∷ xs) v) (with_report out rs))
      → Keeps es (see F c e v) t
      → Keeps (e ∷ es) v s
  unfolding Keeps session view
  after-Keeps e es v s t out made add (inl (u, rs, ends, w, ok)) =
      inl (u, with_report out rs, rw (made, ends, session) refl, w, add es rs ok)
  after-Keeps e es v s t out made add (inr (xs, d, ys, u, rs, same, ends, w, ok, stop)) = inr (
    e ∷ xs,
    d,
    ys,
    u,
    with_report out rs,
    ap (λ (l : List Step). e ∷ l) same,
    rw (made, ends, session) refl,
    w,
    add xs rs ok,
    stop,
  )

module _ {F : Floats} {h : RteHash} (laws : HashLaws h req_hash_entries) (o : Printing F)
    (c : Mconfig) (stray : ReqTemp) where
  handle-IsFull :
      (v : View F) (d : NodeData) (s : Online F h)
      → Shows v s
      → handle c stray d s.monitor ≡ none
      → IsFull o c stray v d s
  unfolding IsFull
  handle-IsFull v d s w out = elim (handle-Fault laws c stray d s.monitor out) [
    | inl refused ↦ inl refused
    | inr le ↦
        inr (omega (arith, le, w.tallied.within.0, w.tallied.within.1, w.monitor.taken.count))
  ]

  module _ (on : truthy c.enable_pri ≡ true)
      (span : (to_unsigned (2 ^ 32) c.interval == 0) ≡ false) where
    session-Keeps :
        (es : List Step) (v : View F) (s : Online F h) → Shows v s → Keeps o c stray es v s
    unfolding Keeps session move view reported Stops with_report
    session-Keeps [] v s w = inl (s, [], refl, w, no_reports)
    session-Keeps (node d ∷ es) v s w = elim (Option-cases (handle c stray d s.monitor)) [
      | inl out ↦
          inr ([], node d, es, s, [], refl, refl, w, no_reports, (out, handle-IsFull v d s w out))
      | inr (m, ok) ↦
          let t : Online F h = record s { monitor = m } in
          after-Keeps o c stray (node d) es v s t none (rw (ok, move) refl) (λ xs rs a. a)
            (session-Keeps es (see F c (node d) v) t (node-Shows laws c stray d v s m ok w))
    ]
    session-Keeps (interval ∷ es) v s w = elim (interval-Ends laws c stray o on span v s w) [
      | reporting t r e made w' is ↦
          after-Keeps o c stray interval es v s t (some r) made
            (λ xs rs a. rw (e, reported) (one_more is a))
            (session-Keeps es (see F c interval v) t w')
      | silent t e made w' ↦
          after-Keeps o c stray interval es v s t none made (λ xs rs a. rw (e, reported) a)
            (session-Keeps es (see F c interval v) t w')
      | failing e out is ↦ inr ([], interval, es, s, [], refl, refl, w, no_reports, (e, out, is))
    ]

set_up-Shows :
    (F : Floats) (g h : RteHash) (c : Mconfig) (quesize : ℕ) (requests : h.Table)
    (sources : g.Table)
    → ((k : List ℕ) → (n : ℕ) × (h.lookup requests k ≡ negsuc n))
    → Shows (nothing F) (enter_online (set_up F g h c quesize requests sources).online)
unfolding enter_online ◌+ℤ◌
set_up-Shows F g h c quesize requests sources empty = record {
  monitor = new_monitor-Refines requests empty;
  tallied = new_monitor-Tallied F h requests;
  on = refl;
}

-- What is set up shows nothing, with a table that is empty when it is created.
pub res_setup_hash-Shows :
    (F : Floats) (g h : RteHash) (create_req : ℕ → ℕ → Option h.Table)
    (create_burst : ℕ → ℕ → Option g.Table) (c : Mconfig) (quesize : ℕ) (u : SetUp F g h)
    → ((table : h.Table)
        → create_req req_hash_entries (req_key_len c) ≡ some table
        → (k : List ℕ) → (n : ℕ) × (h.lookup table k ≡ negsuc n))
    → res_setup_hash F g h create_req create_burst c quesize ≡ some u
    → Shows (nothing F) (enter_online u.online)
unfolding res_setup_hash
res_setup_hash-Shows F g h create_req create_burst c quesize u empty e =
    elim (Option-cases (create_req req_hash_entries (req_key_len c))) [
      | inl f ↦ absurd (ground (arith, e, f))
      | inr (requests, made) ↦ elim (Option-cases (create_burst burst_hash_entries 4)) [
        | inl f ↦ absurd (ground (arith, e, made, f))
        | inr (sources, also) ↦
            let same : set_up F g h c quesize requests sources ≡ u =
              some-injective _ _ (rw (made, also, res_setup_hash) at e) in
            rw (← same) (set_up-Shows F g h c quesize requests sources (empty requests made))
      ]
    ]

-- With enable_pri set, an interval that is not 0, and a table that meets the laws and is empty when it
-- is created. From the set-up and the start of the reporting core, over any records and ends of
-- intervals, where no record is handled while an interval ends: the monitor holds for each
-- connection what its own records and the ends of intervals make of it, and no other connection; its
-- arrays hold the samples that these connections make in the interval, in their order; and each
-- interval with samples brings one report, which `cdf_acktime` makes of just its samples, in their
-- order, and of those of either priority in their areas. That is so to the end, or to a first step
-- that is not made: a record that is written outside an array, where the table takes no request or as
-- many samples were taken as the arrays have entries; or a report on just the samples of the
-- interval that reads or writes outside an array.
pub res_setup_hash-Keeps :
    (F : Floats) (g h : RteHash) (create_req : ℕ → ℕ → Option h.Table)
    (create_burst : ℕ → ℕ → Option g.Table) (o : Printing F) (c : Mconfig) (quesize : ℕ)
    (stray : ReqTemp) (u : SetUp F g h) (es : List Step)
    → HashLaws h req_hash_entries
    → ((table : h.Table)
        → create_req req_hash_entries (req_key_len c) ≡ some table
        → (k : List ℕ) → (n : ℕ) × (h.lookup table k ≡ negsuc n))
    → truthy c.enable_pri ≡ true
    → (to_unsigned (2 ^ 32) c.interval == 0) ≡ false
    → res_setup_hash F g h create_req create_burst c quesize ≡ some u
    → Keeps o c stray es (nothing F) (enter_online u.online)
res_setup_hash-Keeps F g h create_req create_burst o c quesize stray u es laws empty on span e =
    session-Keeps laws o c stray on span es (nothing F) (enter_online u.online)
      (res_setup_hash-Shows F g h create_req create_burst c quesize u empty e)
