-- ===== src/Setup/Reports.antt =====
-- The monitor and its reports from the set-up on, against what is promised of them.
pub mod Keeps
use hcmonitor.Prelude.{
  ℕ, ◌+◌, ◌*◌, ◌/◌, ◌%◌, ◌^◌, ◌<◌, ◌≤◌, ◌≡◌, ◌⊎◌, ◌==◌, ◌&&◌, not, refl, sym, ◌∙◌, ap, arith, ℤ,
  pos, negsuc, ◌==ℤ◌, truthy, to_unsigned, if◌then◌else◌, Bool, true, false, Bool-cases, Option,
  some, none, Option-cases, List, [], ◌∷◌, ◌++◌, length, get_elem?, inl, inr,
}
use hcmonitor.Config.{Mconfig, m_req}
use hcmonitor.Floats.{Floats}
use hcmonitor.Hash.{RteHash, HashLaws}
use hcmonitor.Node.{NodeData, key_bytes}
use hcmonitor.Monitor.{ReqTemp, Monitor, req_hash_entries, handle, clear_slots}
use hcmonitor.Monitor.Rule.{Holds-some}
use hcmonitor.Monitor.Online.{Areas, Online, split_by_pri, restart}
use hcmonitor.Monitor.Online.Handed.{IsHanded, split_by_pri-IsHanded}
use hcmonitor.Monitor.Online.Room.{highs, lows}
use hcmonitor.Monitor.Online.Laws.{split_by_pri-Tallied}
use hcmonitor.Monitor.Online.Tally.{Tallied, handle-Tallied}
use hcmonitor.Monitor.Connection.{Conn, next_conns, emitted}
use hcmonitor.Monitor.Connection.Slots.{conn_at}
use hcmonitor.Monitor.Connection.Taken.{IsTaken}
use hcmonitor.Monitor.Connection.Refines.{Refines}
use hcmonitor.Monitor.Connection.Faults.{handle-Fault}
use hcmonitor.Monitor.Connection.Advances.{Advances, handle-Advances}
use hcmonitor.Setup.{
  SetUp, set_up, new_areas, new_monitor, cat_buff, burst_hash_entries, req_key_len, res_setup_hash,
}
use mathlib.Core.Option.{some-injective}
use mathlib.Core.Path.{subst}
use hcmonitor.Figures.Report.{Report}
use hcmonitor.Setup.Tick.{Printing, print_samples, clear_areas, tick}
use hcmonitor.Setup.Session.{Step, node, interval, move, session, new_monitor-Tallied}
use hcmonitor.Setup.Connections.{unseen}
use hcmonitor.Setup.Views.{View, forget, reports, see, view}

module _ {F : Floats} (o : Printing F) (c : Mconfig) where
  -- What comes of a report on samples, which may also run outside of an array: `cdf_acktime` goes
  -- about it with these samples in its array, and in the two areas by priority.
  pub record IsReport (xs : List (F.Float × Bool)) (out : Option (Report F)) : Type 0 where
    pub conn : ℕ
    pub time : ℕ → F.Float
    pub areas : Areas F
    pub times : (i : ℕ) (x : F.Float × Bool) → get_elem? xs i ≡ some x → time i ≡ x.0
    pub handed : IsHanded xs areas
    pub made : print_samples o c conn cat_buff (length xs) time areas ≡ out

module _ {F : Floats} {h : RteHash} where
  -- The monitor is as the view has it.
  pub record Shows (v : View F) (s : Online F h) : Type 0 where
    pub monitor : Refines unseen v.conns v.taken s.monitor
    pub tallied : Tallied cat_buff s.monitor
    pub on : truthy s.lock_flag ≡ v.on

  -- The number of active connections is no part of the view.
  moved :
      {conns : List ℕ → Option Conn} {xs : List (F.Float × Bool)} {m : Monitor F h}
      → Refines unseen conns xs m
      → Refines unseen conns xs (record m { conn_active_hy = 0 })
  moved v = record {
    here = v.here;
    absent = v.absent;
    free = v.free;
    taken = record { count = v.taken.count; there = v.taken.there; small = v.taken.small };
  }

  restart-Refines :
      {conns : List ℕ → Option Conn} {xs : List (F.Float × Bool)} {m : Monitor F h}
      → Refines unseen conns xs m
      → Refines unseen (λ k. forget (conns k)) [] (restart (record m { conn_active_hy = 0 }))
  unfolding restart clear_slots forget
  restart-Refines v = record {
    here = λ k p e. rw (v.here k p e) refl;
    absent = λ k n e. rw (v.absent k n e) refl;
    free = λ p e. ap (λ (q : Conn). record unseen { out = q.out }) (v.free p e);
    taken = record {
      count = refl;
      there = λ i x e. absurd (ground (arith, e));
      small = v.taken.small;
    };
  }

  restart-Tallied :
      (m : Monitor F h)
      → Tallied cat_buff m
      → Tallied cat_buff (restart (record m { conn_active_hy = 0 }))
  unfolding restart clear_slots highs lows
  restart-Tallied m w = record { within = (w.within.0, omega arith); high = refl; low = refl }

  module _ (laws : HashLaws h req_hash_entries) (c : Mconfig) (stray : ReqTemp) where
    pub node-Shows :
        (d : NodeData) (v : View F) (s : Online F h) (m : Monitor F h)
        → handle c stray d s.monitor ≡ some m
        → Shows v s
        → Shows (see F c (node d) v) (record s { monitor = m })
    unfolding see
    node-Shows d v s m made w = record {
      monitor =
          Holds-some (Advances laws c stray unseen v.conns v.taken d) (handle c stray d s.monitor)
            (handle-Advances laws c stray unseen v.conns v.taken d s.monitor w.monitor) made;
      tallied =
          Holds-some (Tallied cat_buff) (handle c stray d s.monitor)
            (handle-Tallied cat_buff c stray d s.monitor (omega arith) w.tallied) made;
      on = w.on;
    }

    -- How the end of an interval may go: with a report, without, or no further than to a report
    -- that fails.
    pub data Ends (o : Printing F) (v : View F) (s : Online F h) : Type 0 where
      reporting :
          (t : Online F h) (r : Report F)
          → reports F c v ≡ true
          → tick o c s ≡ some (t, some r)
          → Shows (see F c interval v) t
          → IsReport o c v.taken (some r)
          → Ends o v s
      silent :
          (t : Online F h)
          → reports F c v ≡ false
          → tick o c s ≡ some (t, none)
          → Shows (see F c interval v) t
          → Ends o v s
      failing : reports F c v ≡ true → tick o c s ≡ none → IsReport o c v.taken none → Ends o v s

    module _ (o : Printing F) (on : truthy c.enable_pri ≡ true)
        (span : (to_unsigned (2 ^ 32) c.interval == 0) ≡ false) (v : View F) (s : Online F h)
        (w : Shows v s) where
      tick-test : (truthy s.lock_flag && not (s.monitor.idx_hy == 0)) ≡ reports F c v
      unfolding reports
      tick-test = rw (w.on, w.monitor.taken.count) refl

      -- What stands before the report, and how it comes out.
      interval-IsReport :
          (a : Areas F) (out : Option (Report F))
          → split_by_pri c s.monitor.idx_hy s.monitor s.areas ≡ some a
          → print_samples o c s.monitor.conn_active_hy s.monitor.thre s.monitor.idx_hy
              s.monitor.time a
            ≡ out
          → IsReport o c v.taken out
      interval-IsReport a out split e =
          let m = s.monitor in
          let held = w.monitor.taken in
          record {
            conn = m.conn_active_hy;
            time = m.time;
            areas = a;
            times = λ i x f. (held.there i x f).0;
            handed =
                split_by_pri-IsHanded c m.idx_hy m v.taken s.areas a on held.count held.there split;
            made =
                subst (λ n. print_samples o c m.conn_active_hy n (length v.taken) m.time a ≡ out)
                  w.tallied.within.0
                  (subst (λ n. print_samples o c m.conn_active_hy m.thre n m.time a ≡ out)
                    held.count e);
          }

      interval-reporting : reports F c v ≡ true → Ends o v s
      unfolding see tick
      interval-reporting e =
          let m = s.monitor in
          let (a, split, _, _, _) =
            split_by_pri-Tallied cat_buff c m s.areas (omega arith) on w.tallied in
          let whole : m.idx_hy % 2 ^ 32 ≡ m.idx_hy = omega (arith, w.tallied.within.1) in
          elim (Option-cases (print_samples o c m.conn_active_hy m.thre m.idx_hy m.time a)) [
            | inl f ↦
                failing e (rw (span, tick-test, e, whole, split, whole, f) refl)
                  (interval-IsReport a none split f)
            | inr (r, f) ↦
                reporting
                  (record s {
                    conn = m.conn_active_hy;
                    conn_active_mid =
                        m.conn_active_hy * 60 % 2 ^ 32 / to_unsigned (2 ^ 32) c.interval;
                    min_count = s.min_count + 1;
                    areas = clear_areas a;
                    monitor = restart (record m { conn_active_hy = 0 });
                  })
                  r e (rw (span, tick-test, e, whole, split, whole, f) refl)
                  (rw e (record {
                    monitor = restart-Refines w.monitor;
                    tallied = restart-Tallied m w.tallied;
                    on = w.on;
                  }))
                  (interval-IsReport a (some r) split f)
          ]

      interval-silent : reports F c v ≡ false → Ends o v s
      unfolding see tick
      interval-silent e =
          let m = s.monitor in
          let k = w.tallied in
          silent
            (record s {
              conn = m.conn_active_hy;
              conn_active_mid = m.conn_active_hy * 60 % 2 ^ 32 / to_unsigned (2 ^ 32) c.interval;
              min_count = s.min_count + 1;
              monitor = record m { conn_active_hy = 0 };
              lock_flag = pos 1;
            })
            e (rw (span, tick-test, e) refl)
            (rw e (record {
              monitor = moved w.monitor;
              tallied = record { within = k.within; high = k.high; low = k.low };
              on = refl;
            }))

      pub interval-Ends : Ends o v s
      interval-Ends = elim (Bool-cases (reports F c v)) [
        | inl e ↦ interval-reporting e
        | inr e ↦ interval-silent e
      ]
