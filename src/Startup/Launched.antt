-- ===== src/Startup/Launched.antt =====
-- When `main` launches the cores, and what calls it has made.
use hcmonitor.Prelude.{
  ℕ, ◌≤◌, ◌≡◌, ◌≢◌, ◌↔◌, refl, arith, pos, ℤ-cases, Bool, true, Option, some, none, Option-cases,
  List, [], inl, inr,
}
use hcmonitor.Args.{Args}
use hcmonitor.Config.{Mconfig}
use hcmonitor.Floats.{Floats}
use hcmonitor.Hash.{RteHash}
use hcmonitor.Monitor.{req_hash_entries}
use hcmonitor.Node.{NodeData}
use hcmonitor.Queue.Init.{max_que_num, init_queue, init_queue-in_bounds}
use hcmonitor.Ports.Links.{check_all_ports_link_status-Ends}
use hcmonitor.Setup.{burst_hash_entries, req_key_len, set_up, res_setup_hash}
use hcmonitor.Startup.{
  Call, Stop, outside, no_table, Outcome, stops, goes, Launch, prepared, Main, stopped, launched,
  accepted, mask_of, queues_of, ports_of, devices, launch, launch_after, main,
}
use hcmonitor.Startup.Boot.{going, IsTest, Honest, Honest-test}
use hcmonitor.Startup.Queues.{Fills, init_queue-Fills}
use hcmonitor.Startup.Ready.{Ready, devices-Part}

-- The calls of a run, and whether the cores are launched.
unfoldable pub outcome : {F : Floats} {g h : RteHash} → Main F g h → Outcome
outcome (stopped calls why) = stops calls why
outcome (launched calls l) = goes calls

unfoldable pub HasLaunched : {F : Floats} {g h : RteHash} → Main F g h → Type 0
HasLaunched (stopped calls why) = ⊥
HasLaunched (launched calls l) = Unit

-- There are as many queues as the loop of InitQueue writes.
enough_queues :
    (c : Mconfig) (garbage : ℕ → NodeData)
    → (init_queue c garbage ≢ none) ↔ ((n : ℕ) × (c.rx_que ≡ pos n) × (max_que_num ≤ n))
unfolding init_queue
enough_queues c garbage = elim (ℤ-cases c.rx_que) [
  | inl (n, e) ↦
      let (f, g) = init_queue-in_bounds c garbage n e in
      ((λ ne. (n, e, f ne)), λ (k, same, le). g (ground (arith, e, same, le)))
  | inr (n, e) ↦
      rw (e, init_queue) ((λ ne. absurd (ne refl)), λ (k, same, le). absurd (ground (arith, same)))
]

module _ (g h : RteHash) (create_req : ℕ → ℕ → Option h.Table)
    (create_burst : ℕ → ℕ → Option g.Table) (c : Mconfig) where
  -- What `main` needs besides the devices.
  pub record TablesReady : Type 0 where
    pub queues : (n : ℕ) × (c.rx_que ≡ pos n) × (max_que_num ≤ n)
    pub requests : create_req req_hash_entries (req_key_len c) ≢ none
    pub bursts : create_burst burst_hash_entries 4 ≢ none

module _ (F : Floats) (g h : RteHash) (create_req : ℕ → ℕ → Option h.Table)
    (create_burst : ℕ → ℕ → Option g.Table) (succeeds : Call → Bool) (lcore_is_enabled : ℕ → Bool)
    (up : ℕ → ℕ → Bool) (c : Mconfig) (garbage : ℕ → NodeData) where
  -- The tables are those of `res_setup_hash`, and the links were waited for.
  pub record IsSetUp (l : Launch F g h) : Type 0 where
    pub tables : (size : ℕ) × (res_setup_hash F g h create_req create_burst c size ≡ some l.set_up)
    pub links : l.links ≢ none

  -- The cores are launched with queues as `init_queue` leaves them, and with such tables.
  unfoldable pub IsPrepared : Main F g h → Type 0
  IsPrepared (stopped calls why) = Unit
  IsPrepared (launched calls l) = Fills c garbage l.set_up.max_size l.queues × IsSetUp l

  -- How `launch` comes out.
  data Launches (calls : List Call) (r : Main F g h) : Type 0 where
    all_ready :
        (l : Launch F g h)
        → TablesReady g h create_req create_burst c
        → Fills c garbage l.set_up.max_size l.queues
        → IsSetUp l
        → r ≡ launched calls l
        → Launches calls r
    not_ready :
        (why : Stop)
        → IsTest why
        → ¬ (TablesReady g h create_req create_burst c)
        → r ≡ stopped calls why
        → Launches calls r

  launch-Launches :
      (mask nb_ports : ℕ) (calls : List Call)
      → Launches calls (
          launch F g h create_req create_burst succeeds lcore_is_enabled up c garbage mask nb_ports
            calls)
  unfolding launch res_setup_hash IsTest
  launch-Launches mask nb_ports calls =
      let (f, b) = enough_queues c garbage in
      elim (Option-cases (init_queue c garbage)) [
        | inl e ↦ not_ready outside tt (λ v. b v.queues e) (rw (e, launch) refl)
        | inr ((size, que), e) ↦ elim (Option-cases (create_req req_hash_entries (req_key_len c))) [
          | inl no_requests ↦
              not_ready no_table tt (λ v. v.requests no_requests)
                (rw (e, no_requests, launch, res_setup_hash) refl)
          | inr (requests, made) ↦ elim (Option-cases (create_burst burst_hash_entries 4)) [
            | inl no_bursts ↦
                not_ready no_table tt (λ v. v.bursts no_bursts)
                  (rw (e, made, no_bursts, launch, res_setup_hash) refl)
            | inr (bursts, also) ↦
                let ready : TablesReady g h create_req create_burst c = record {
                  queues = f (λ n. ground (arith, n, e));
                  requests = λ n. ground (arith, n, made);
                  bursts = λ n. ground (arith, n, also);
                } in
                let tables = set_up F g h c size requests bursts in
                let l =
                  prepared F g h create_req create_burst succeeds lcore_is_enabled up c mask
                    nb_ports que tables in
                let (last, delays, checked, bound, before, then_up) =
                  check_all_ports_link_status-Ends nb_ports mask up in
                let is_set_up : IsSetUp l = record {
                  tables = (size, rw (made, also, res_setup_hash) refl);
                  links = λ n. ground (arith, n, checked);
                } in
                all_ready l ready (init_queue-Fills c garbage size que e) is_set_up
                  (rw (e, made, also, launch, res_setup_hash) refl)
          ]
        ]
      ]

  launch_after-HasLaunched :
      (mask nb_ports : ℕ) (o : Outcome) {P : Type 0}
      → (going o ≡ true) ↔ P
      → Honest succeeds o
      → let r =
          launch_after F g h create_req create_burst succeeds lcore_is_enabled up c garbage mask
            nb_ports o in
        (HasLaunched r ↔ (P × TablesReady g h create_req create_burst c))
        × Honest succeeds (outcome r)
        × IsPrepared r
  unfolding launch_after HasLaunched outcome going Honest IsPrepared
  launch_after-HasLaunched mask nb_ports (stops calls why) (f, b) v =
      (((λ e. absurd e), λ (p, q). absurd (ground (arith, b p))), v, tt)
  launch_after-HasLaunched mask nb_ports (goes calls) (f, b) v =
      elim (launch-Launches mask nb_ports calls) [
        | all_ready l ready filled s e ↦ rw e (((λ _. (f refl, ready)), λ _. tt), v, (filled, s))
        | not_ready why t lacks e ↦
            rw e (((λ x. absurd x), λ (p, q). lacks q), Honest-test succeeds calls why t v, tt)
      ]

  pub main-HasLaunched :
      (args : Option Args) (max_ethports count : ℕ)
      → let r =
          main F g h create_req create_burst succeeds lcore_is_enabled up c args garbage
            max_ethports count in
        (HasLaunched r ↔ (
          Ready succeeds lcore_is_enabled
            (accepted args)
            (mask_of args)
            (queues_of c)
            max_ethports
            count
          × TablesReady g h create_req create_burst c))
        × Honest succeeds (outcome r)
        × IsPrepared r
  unfolding main
  main-HasLaunched args max_ethports count =
      let v =
        devices-Part succeeds lcore_is_enabled (accepted args) (mask_of args) (queues_of c)
          max_ethports count in
      launch_after-HasLaunched (mask_of args) (ports_of max_ethports count)
        (devices succeeds lcore_is_enabled (accepted args) (mask_of args) (queues_of c) max_ethports
          count [])
        (v.goes_on []) (v.honest [] tt)
