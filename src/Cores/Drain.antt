-- ===== src/Cores/Drain.antt =====
-- The monitor core hands the records of a queue to the latency match in the order in which they
-- were enqueued.
use hcmonitor.Prelude.{
  ℕ, zero, suc, ◌≡◌, refl, true, Option, some, none, List, [], ◌∷◌, arith, Bool-cases, inl, inr,
  length, ==_refl, update, ap,
}
use hcmonitor.Config.{Mconfig}
use hcmonitor.Floats.{Floats}
use hcmonitor.Hash.{RteHash}
use hcmonitor.Node.{NodeData}
use hcmonitor.Ring.{has_item, advance, IsValid}
use hcmonitor.Ring.Laws.{contents-advance, contents-empty, advance-IsValid}
use hcmonitor.Queue.Laws.{queued}
use hcmonitor.Monitor.{ReqTemp, Monitor, handle, run}
use hcmonitor.Monitor.Rule.{run_inv, run_nil}
use hcmonitor.Cores.{Matching, drain}

nil_of_length : (l : List NodeData) → length l ≡ 0 → l ≡ []
nil_of_length [] e = refl
nil_of_length (x ∷ l) e = absurd (omega arith)

module _ {F : Floats} {g h : RteHash} (c : Mconfig) (stray : ReqTemp) (i : ℕ) where
  -- The loop, `n` rounds of it.
  unfoldable pub drains : ℕ → Matching F g h → Option (Matching F g h)
  unfolding drain
  drains zero s = some s
  drains (suc n) s = elim (drain c stray i s) [ none ↦ none | some t ↦ drains n t ]

  -- The state after a record was handled.
  abbrev drained : Matching F g h → Monitor F h → Matching F g h
  drained s m = record {
    capture = record (s.capture) {
      que =
          update s.capture.que i
            (record (s.capture.que i) { ring = advance s.capture.max_size (s.capture.que i).ring });
    };
    monitor = m;
  }

  drain_item :
      (s : Matching F g h) (m : Monitor F h)
      → has_item (s.capture.que i).ring ≡ true
      → handle c stray ((s.capture.que i).ring.slots (s.capture.que i).ring.deque) s.monitor
        ≡ some m
      → drain c stray i s ≡ some (drained s m)
  unfolding drain
  drain_item s m item e = rw (item, e)

  drained-ring :
      (s : Matching F g h) (m : Monitor F h)
      → ((drained s m).capture.que i).ring ≡ advance s.capture.max_size (s.capture.que i).ring
  drained-ring s m = rw (==_refl i)

  drains_step :
      (n : ℕ) (s t u : Matching F g h)
      → drain c stray i s ≡ some t
      → drains n t ≡ some u
      → drains (suc n) s ≡ some u
  unfolding drains
  drains_step n s t u e f = rw (e, drains) f

  -- Rounds of the loop, as many as the queue holds records, do to the monitor what the records do in
  -- their order, and leave the queue empty.
  pub drains-run :
      (n : ℕ) (s : Matching F g h) (m : Monitor F h)
      → IsValid s.capture.max_size (s.capture.que i).ring
      → length (queued i s.capture) ≡ n
      → run c stray (queued i s.capture) s.monitor ≡ some m
      → (t : Matching F g h) × (drains n s ≡ some t) × (t.monitor ≡ m) × (queued i t.capture ≡ [])
  unfolding drains
  drains-run zero s m v e f =
      let none_left = nil_of_length _ e in
      (s, refl, run_nil c stray _ s.monitor m none_left f, none_left)
  drains-run (suc n) s m v e f = elim (Bool-cases (has_item (s.capture.que i).ring)) [
    | inl item ↦
        let head = contents-advance s.capture.max_size v item in
        let (u, g, rest) = run_inv c stray _ _ s.monitor m (rw head at f) in
        let s' = drained s u in
        let (t, ran, done, empty) =
          drains-run n s' m (rw (drained-ring s u) (advance-IsValid s.capture.max_size v))
            (rw (drained-ring s u) (omega (arith, ap length head, e)))
            (rw (drained-ring s u) rest) in
        (t, drains_step n s s' t (drain_item s u item g) ran, done, empty)
    | inr empty ↦ absurd (omega (arith, e, ap length (contents-empty s.capture.max_size v empty)))
  ]
