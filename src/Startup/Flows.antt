-- ===== src/Startup/Flows.antt =====
-- The program from the launch of the cores by `main` of HCMonitor/main.c on.
use hcmonitor.Prelude.{
  ℕ, ◌<◌, ◌≡◌, refl, arith, negsuc, Bool, false, truthy, Option, some, none, List, [], ◌++◌,
  get_elem?,
}
use mathlib.Core.Path.{subst}
use hcmonitor.Args.{Args}
use hcmonitor.Config.{Mconfig}
use hcmonitor.Floats.{Floats}
use hcmonitor.Hash.{RteHash, HashLaws}
use hcmonitor.Node.{NodeData}
use hcmonitor.Ring.{contents, held}
use hcmonitor.Queue.{PrQueue}
use hcmonitor.Queue.Init.{max_que_num, new_queue}
use hcmonitor.Queue.Laws.{queued, IsSound}
use hcmonitor.Monitor.{ReqTemp, req_hash_entries}
use hcmonitor.Monitor.Connection.Refines.{Refines}
use hcmonitor.Monitor.Connection.Runs.{run-Refines}
use hcmonitor.Setup.{req_key_len}
use hcmonitor.Setup.Connections.{unseen, known, taken}
use hcmonitor.Setup.Tick.{enter_online-monitor}
use hcmonitor.Setup.Reports.Keeps.{res_setup_hash-Shows}
use hcmonitor.Cores.{Shared}
use hcmonitor.System.{System}
use hcmonitor.System.Flow.{Flow, Flow-fifo}
use hcmonitor.Startup.{Call, Launch, launched, main}
use hcmonitor.Startup.Queues.{Fills}
use hcmonitor.Startup.Launched.{IsPrepared, main-HasLaunched}

-- An entry of `PrQue`; `absent` is what a NULL pointer, or a read outside of it, would show.
abbrev entry : PrQueue → Option (Option PrQueue) → PrQueue
entry absent none = absent
entry absent (some none) = absent
entry absent (some (some q)) = q

module _ {F : Floats} {g h : RteHash} where
  -- What the cores begin with: the queues and tables of `main`, and of all else what is there.
  abbrev pub launch_state : PrQueue → Shared g → Launch F g h → System F g h
  launch_state absent rest l = record {
    shared = record rest {
      capture = record {
        max_size = l.set_up.max_size;
        que = λ j. entry absent (get_elem? l.queues j);
        counters = rest.capture.counters;
        bursts = l.set_up.bursts;
      };
    };
    monitor = l.set_up.online.monitor;
  }

contents-new_queue :
    (size : ℕ) (garbage : ℕ → NodeData) → contents size (new_queue size garbage).ring ≡ []
unfolding contents held
contents-new_queue size garbage = refl

launch-IsSound :
    {F : Floats} {g h : RteHash} (c : Mconfig) (garbage : ℕ → NodeData) (absent : PrQueue)
    (rest : Shared g) (l : Launch F g h)
    → Fills c garbage l.set_up.max_size l.queues
    → 0 < l.set_up.max_size
    → (j : ℕ) → j < max_que_num
    → let s = (launch_state absent rest l).shared.capture in IsSound j s × (queued j s ≡ [])
launch-IsSound c garbage absent rest l v lt j small =
    let (n, f, e) = v.share in
    let que = (launch_state absent rest l).shared.capture.que in
    let same : que j ≡ new_queue l.set_up.max_size garbage = rw (v.fresh j small) refl in
    (
      record {
        valid = rw same (record { small = omega (arith, e); occupy_in = lt; deque_in = lt });
        whole = rw same (omega arith);
      },
      rw same (contents-new_queue l.set_up.max_size garbage),
    )

-- With enable_mcc off, queues that have slots, and a table that meets the laws and is empty when it is
-- created. Where `main` launches the cores, from there on, over any interleaving of the rounds of all
-- cores on the 6 queues, in which the queues that are written have room: the queues stay sound; the
-- records that entered queue `i` are those of them that were handled, followed by those that it
-- holds, in order; and the monitor has taken just the samples that the handled records of each
-- connection make by themselves, in their order, and holds for each connection what its own records
-- make of it, and no other connection.
pub main-Flow :
    (F : Floats) (g h : RteHash) (create_req : ℕ → ℕ → Option h.Table)
    (create_burst : ℕ → ℕ → Option g.Table) (succeeds : Call → Bool) (lcore_is_enabled : ℕ → Bool)
    (up : ℕ → ℕ → Bool) (c : Mconfig) (garbage : ℕ → NodeData) (args : Option Args)
    (max_ethports count : ℕ) (calls : List Call) (l : Launch F g h) (absent : PrQueue)
    (rest : Shared g) (stray : ReqTemp) (i : ℕ) {a p all : List NodeData} {s : System F g h}
    → HashLaws h req_hash_entries
    → ((table : h.Table)
        → create_req req_hash_entries (req_key_len c) ≡ some table
        → (k : List ℕ) → (n : ℕ) × (h.lookup table k ≡ negsuc n))
    → truthy c.enable_mcc ≡ false
    → main F g h create_req create_burst succeeds lcore_is_enabled up c args garbage max_ethports
        count
      ≡ launched calls l
    → 0 < l.set_up.max_size
    → i < max_que_num
    → Flow c stray max_que_num i (launch_state absent rest l) a p all s
    → ((j : ℕ) → j < max_que_num → IsSound j s.shared.capture)
      × (a ≡ p ++ queued i s.shared.capture)
      × Refines unseen (known F c all) (taken F c all) s.monitor
unfolding IsPrepared
main-Flow F g h create_req create_burst succeeds lcore_is_enabled up c garbage args max_ethports
      count calls l absent rest stray i laws empty off made slots lt flow =
    let (_, _, prepared) =
      main-HasLaunched F g h create_req create_burst succeeds lcore_is_enabled up c garbage args
        max_ethports count in
    let (fills, ready) =
      subst (IsPrepared F g h create_req create_burst succeeds lcore_is_enabled up c garbage) made
        prepared in
    let (size, e) = ready.tables in
    let shows = res_setup_hash-Shows F g h create_req create_burst c size l.set_up empty e in
    let begins =
      subst (λ m. Refines unseen (λ _. none) [] m) (enter_online-monitor l.set_up.online)
        shows.monitor in
    let sound = launch-IsSound c garbage absent rest l fills slots in
    let (ok, fifo, ran) =
      Flow-fifo c stray max_que_num i (launch_state absent rest l) off lt
        (λ j small. (sound j small).0) (sound i lt).1 flow in
    (
      ok,
      fifo,
      run-Refines laws c stray unseen (λ _. none) [] _ l.set_up.online.monitor _ begins ran,
    )
