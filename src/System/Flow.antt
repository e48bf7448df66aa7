-- ===== src/System/Flow.antt =====
-- The records of a packet queue, from the packets to the monitor, over any interleaving of the cores.
use mathlib.Core.Path.{subst}
use mathlib.Core.List.{append_assoc}
use hcmonitor.Prelude.{
  ℕ, ◌<◌, ◌≡◌, ◌≢◌, refl, ap, sym, ◌∙◌, arith, true, false, truthy, some, List, [], ◌∷◌, ◌++◌,
  update, update_self, update_ne, Option-cases, inl, inr, ℕ_discrete,
}
use hcmonitor.Config.{Mconfig}
use hcmonitor.Floats.{Floats}
use hcmonitor.Hash.{RteHash}
use hcmonitor.Node.{Timespec, NodeData}
use hcmonitor.Ring.{has_room, has_item, advance}
use hcmonitor.Ring.Laws.{contents-advance, advance-IsValid}
use hcmonitor.Queue.{Capture}
use hcmonitor.Queue.Laws.{queued, IsSound}
use hcmonitor.Monitor.{ReqTemp, Monitor, handle, run}
use hcmonitor.Cores.{Mbuf, receive, drain}
use hcmonitor.System.{System, receive_at, process_at, drain_at}
use hcmonitor.System.Round.{entered, Grows, process-Grows}

run_snoc :
    {F : Floats} {h : RteHash} (c : Mconfig) (stray : ReqTemp) (ds : List NodeData) (d : NodeData)
    (m t u : Monitor F h)
    → run c stray ds m ≡ some t
    → handle c stray d t ≡ some u
    → run c stray (ds ++ (d ∷ [])) m ≡ some u
unfolding run
run_snoc c stray [] d m t u e f = let same : m ≡ t = cc in rw (same, f, run) refl
run_snoc c stray (x ∷ ds) d m t u e f = elim (Option-cases (handle c stray x m)) [
  | inl out ↦ absurd (ground (arith, e, out))
  | inr (v, ok) ↦ rw (ok, run) (run_snoc c stray ds d v t u (rw (ok, run) at e) f)
]

-- A queue that is not worked on stays sound.
still-IsSound :
    {g : RteHash} (j : ℕ) (s t : Capture g)
    → t.max_size ≡ s.max_size
    → t.que j ≡ s.que j
    → IsSound j s
    → IsSound j t
still-IsSound j s t size same v = record {
  valid = rw (size, same) v.valid;
  whole = rw (size, same) v.whole;
}

Grows-IsSound :
    {g : RteHash} (c : Mconfig) (j k : ℕ) (new : List NodeData) (s t : Capture g)
    → Grows c j new s t
    → IsSound k s
    → IsSound k t
Grows-IsSound c j k new s t w v = elim (ℕ_discrete j k) [
  | yes e ↦ subst (λ (l : ℕ). IsSound l t) e w.sound
  | no ne ↦ still-IsSound k s t w.size (w.there k ne) v
]

-- The record that the monitor core takes from queue `j`.
abbrev pub taken_from : {F : Floats} {g h : RteHash} → ℕ → System F g h → NodeData
taken_from j s = (s.shared.capture.que j).ring.slots (s.shared.capture.que j).ring.deque

module _ {F : Floats} {g h : RteHash} (c : Mconfig) (stray : ReqTemp) (n i : ℕ) where
  -- From `s0` on: the records that entered queue `i`, those of them that were handled, the records
  -- that were handled of all queues, and the state. A queue that a core works on is one of the first
  -- `n`, and has room where it is written.
  pub data Flow (s0 : System F g h)
      : List NodeData → List NodeData → List NodeData → System F g h → Type 0 where
    start : Flow s0 [] [] [] s0
    received :
        {a p all : List NodeData} {s : System F g h} (ts : Timespec) (j : ℕ) (m : Mbuf)
        → Flow s0 a p all s
        → Flow s0 a p all (receive_at c ts j m s)
    processed :
        {a p all : List NodeData} {s t : System F g h}
        → Flow s0 a p all s
        → has_room s.shared.capture.max_size (s.shared.capture.que i).ring ≡ true
        → process_at c i s ≡ some t
        → Flow s0 (a ++ entered c i s.shared) p all t
    processed_elsewhere :
        {a p all : List NodeData} {s t : System F g h} (j : ℕ)
        → j < n
        → j ≢ i
        → Flow s0 a p all s
        → has_room s.shared.capture.max_size (s.shared.capture.que j).ring ≡ true
        → process_at c j s ≡ some t
        → Flow s0 a p all t
    handled :
        {a p all : List NodeData} {s t : System F g h}
        → Flow s0 a p all s
        → has_item (s.shared.capture.que i).ring ≡ true
        → drain_at c stray i s ≡ some t
        → Flow s0 a (p ++ (taken_from i s ∷ [])) (all ++ (taken_from i s ∷ [])) t
    handled_elsewhere :
        {a p all : List NodeData} {s t : System F g h} (j : ℕ)
        → j < n
        → j ≢ i
        → Flow s0 a p all s
        → has_item (s.shared.capture.que j).ring ≡ true
        → drain_at c stray j s ≡ some t
        → Flow s0 a p (all ++ (taken_from j s ∷ [])) t

  process_at-Grows :
      (j : ℕ) (s t : System F g h)
      → truthy c.enable_mcc ≡ false
      → IsSound j s.shared.capture
      → has_room s.shared.capture.max_size (s.shared.capture.que j).ring ≡ true
      → process_at c j s ≡ some t
      → Grows c j (entered c j s.shared) s.shared.capture t.shared.capture × (t.monitor ≡ s.monitor)
  unfolding process_at
  process_at-Grows j s t off v room e =
      let (u, done, grows) = process-Grows c j s.shared off v room in
      let f : process_at c j s ≡ some (record s { shared = u }) = rw (done, process_at) refl in
      let same : record s { shared = u } ≡ t = cc in rw (← same) (grows, refl)

  -- What the monitor core's turn at queue `j` does.
  record Drains (j : ℕ) (s t : System F g h) : Type 0 where
    size : t.shared.capture.max_size ≡ s.shared.capture.max_size
    cap : (t.shared.capture.que j).cap ≡ (s.shared.capture.que j).cap
    ring :
        (t.shared.capture.que j).ring
        ≡ advance s.shared.capture.max_size (s.shared.capture.que j).ring
    there : (k : ℕ) → j ≢ k → t.shared.capture.que k ≡ s.shared.capture.que k
    done : handle c stray (taken_from j s) s.monitor ≡ some t.monitor

  drain_at-Drains :
      (j : ℕ) (s t : System F g h)
      → has_item (s.shared.capture.que j).ring ≡ true
      → drain_at c stray j s ≡ some t
      → Drains j s t
  unfolding drain_at drain
  drain_at-Drains j s t item e = elim (Option-cases (handle c stray (taken_from j s) s.monitor)) [
    | inl out ↦ absurd (ground (arith, e, item, out))
    | inr (m, ok) ↦
        let q = s.shared.capture.que j in
        let moved =
          update s.shared.capture.que j
            (record q { ring = advance s.shared.capture.max_size q.ring }) in
        let u : System F g h = record {
          shared = record (s.shared) { capture = record (s.shared.capture) { que = moved } };
          monitor = m;
        } in
        let f : drain_at c stray j s ≡ some u = rw (item, ok, drain_at, drain) refl in
        let same : u ≡ t = cc in
        let here =
          update_self s.shared.capture.que j
            (record q { ring = advance s.shared.capture.max_size q.ring }) in
        rw (← same) (record {
          size = refl;
          cap = rw here refl;
          ring = rw here refl;
          there = λ k ne. update_ne s.shared.capture.que j k _ ne;
          done = ok;
        })
  ]

  Drains-IsSound :
      (j k : ℕ) (s t : System F g h)
      → Drains j s t
      → IsSound k s.shared.capture
      → IsSound k t.shared.capture
  Drains-IsSound j k s t w v = elim (ℕ_discrete j k) [
    | yes e ↦
        let v' : IsSound j s.shared.capture =
          subst (λ (l : ℕ). IsSound l s.shared.capture) (sym e) v in
        subst (λ (l : ℕ). IsSound l t.shared.capture) e
          (record {
            valid = rw (w.size, w.ring) (advance-IsValid s.shared.capture.max_size v'.valid);
            whole = rw (w.size, w.cap) v'.whole;
          })
    | no ne ↦ still-IsSound k s.shared.capture t.shared.capture w.size (w.there k ne) v
  ]

  -- From `n` sound queues, of which queue `i` is empty, without enable_mcc, over any interleaving of
  -- the rounds of all cores on them, in which the queues that are written have room: the records that
  -- entered queue `i` are those of them that were handled, followed by those that it holds, in order;
  -- and the monitor is what handling the records of all queues, in the order in which they were taken,
  -- makes of it. All `n` queues stay sound.
  pub Flow-fifo :
      (s0 : System F g h) {a p all : List NodeData} {s : System F g h}
      → truthy c.enable_mcc ≡ false
      → i < n
      → ((j : ℕ) → j < n → IsSound j s0.shared.capture)
      → queued i s0.shared.capture ≡ []
      → Flow s0 a p all s
      → ((j : ℕ) → j < n → IsSound j s.shared.capture)
        × (a ≡ p ++ queued i s.shared.capture)
        × (run c stray all s0.monitor ≡ some s.monitor)
  unfolding run receive_at receive
  Flow-fifo s0 off lt v e start = (v, sym e, refl)
  Flow-fifo s0 off lt v e (received ts j m r) = Flow-fifo s0 off lt v e r
  Flow-fifo s0 off lt v e (processed {p} {s} {t} r room made) =
      let (ok, fifo, ran) = Flow-fifo s0 off lt v e r in
      let (w, same) = process_at-Grows i s t off (ok i lt) room made in
      (
        λ k below. Grows-IsSound c i k _ s.shared.capture t.shared.capture w (ok k below),
        rw (w.here, fifo) (append_assoc p _ _),
        rw same ran,
      )
  Flow-fifo s0 off lt v e (processed_elsewhere {p} {s} {t} j small ne r room made) =
      let (ok, fifo, ran) = Flow-fifo s0 off lt v e r in
      let (w, same) = process_at-Grows j s t off (ok j small) room made in
      (
        λ k below. Grows-IsSound c j k _ s.shared.capture t.shared.capture w (ok k below),
        rw (w.size, w.there i ne) fifo,
        rw same ran,
      )
  Flow-fifo s0 off lt v e (handled {p} {all} {s} {t} r item made) =
      let (ok, fifo, ran) = Flow-fifo s0 off lt v e r in
      let w = drain_at-Drains i s t item made in
      let head = contents-advance s.shared.capture.max_size (ok i lt).valid item in
      (
        λ k below. Drains-IsSound i k s t w (ok k below),
        rw (w.size, w.ring) (fifo ∙ ap (λ l. p ++ l) head ∙ sym (append_assoc p _ _)),
        run_snoc c stray all _ s0.monitor s.monitor t.monitor ran w.done,
      )
  Flow-fifo s0 off lt v e (handled_elsewhere {p} {all} {s} {t} j small ne r item made) =
      let (ok, fifo, ran) = Flow-fifo s0 off lt v e r in
      let w = drain_at-Drains j s t item made in
      (
        λ k below. Drains-IsSound j k s t w (ok k below),
        rw (w.size, w.there i ne) fifo,
        run_snoc c stray all _ s0.monitor s.monitor t.monitor ran w.done,
      )
