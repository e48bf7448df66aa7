-- ===== src/Startup/Ready.antt =====
-- When `main` sets all devices up.
use native.Mathlib.Decide.{ℕ_discrete}
use hcmonitor.Prelude.{
  ℕ, zero, suc, ◌+◌, ◌-◌, ◌%◌, ◌^◌, ◌<◌, ◌≤◌, ◌≡◌, ◌≢◌, ◌↔◌, ◌⊎◌, refl, arith, Bool, true, not, ltb,
  ◌==◌, Bool-cases, inl, inr,
}
use hcmonitor.Ports.{is_enabled}
use hcmonitor.Queue.Init.{max_que_num}
use hcmonitor.Startup.{
  Call, Stop, eal_init, pool_create, dev_configure, rx_queue_setup, tx_queue_setup, dev_start,
  ring_create, lcore_disabled, outside, no_ports, all_disabled, bad_arguments, test, ports_of,
  available, create_pools, rx_queues, init_port, init_ports, create_rings, devices,
}
use hcmonitor.Startup.Boot.{
  IsTest, Range, Range-zero, Range-suc, Part, then-Part, test-Part, skip-Part, ask-Part, iff-Part,
}

-- Some port is left exactly if there were more than the loop looks at, or one of those is enabled.
available-some :
    (mask n portid nb : ℕ)
    → n ≤ nb
    → nb < 2 ^ 8
    → (available mask n portid nb ≢ 0)
      ↔ ((n < nb) ⊎ ((j : ℕ) × (portid ≤ j) × (j < portid + n) × (is_enabled mask j ≡ true)))
unfolding available
available-some mask zero portid nb le small = (
  (λ ne. inl (ground (arith, ne))),
  λ s e. elim s [
    | inl lt ↦ omega (arith, lt, e)
    | inr (j, low, high, on) ↦ omega (arith, low, high)
  ],
)
available-some mask (suc n) portid nb le small = elim (Bool-cases (is_enabled mask portid)) [
  | inl on ↦
      let (f, g) = available-some mask n (portid + 1) nb (omega (arith, le)) small in
      rw (on, available)
        ((λ _. inr (portid, omega arith, omega arith, on)), λ _. g (inl (omega (arith, le))))
  | inr off ↦
      let less : (nb + 255) % 2 ^ 8 ≡ nb - 1 = omega (arith, le, small) in
      let (f, g) =
        available-some mask n (portid + 1) (nb - 1) (omega (arith, le)) (omega (arith, small)) in
      rw (off, less, available)
        (
          (λ ne. elim (f ne) [
            | inl lt ↦ inl (omega (arith, lt))
            | inr (j, low, high, on) ↦ inr (j, omega (arith, low), omega (arith, high), on)
          ]),
          λ s. elim s [
            | inl lt ↦ g (inl (omega (arith, lt, le)))
            | inr (j, low, high, on) ↦ elim (ℕ_discrete portid j) [
              | yes e ↦ absurd (ground (arith, off, rw (← e) at on))
              | no ne ↦ g (inr (j, omega (arith, low, ne), omega (arith, high), on))
            ]
          ],
        )
]

module _ (succeeds : Call → Bool) (lcore_is_enabled : ℕ → Bool) where
  -- A receive queue can be set up, and the core that reads it is enabled.
  abbrev pub QueueReady : ℕ → ℕ → Type 0
  QueueReady portid q = (lcore_is_enabled q ≡ true) × (succeeds (rx_queue_setup portid q) ≡ true)

  -- A pool can be created, and has its entry.
  abbrev pub PoolReady : ℕ → Type 0
  PoolReady q = (ltb q max_que_num ≡ true) × (succeeds (pool_create q) ≡ true)

  -- All calls for a port succeed.
  pub record PortReady (rx_queue portid : ℕ) : Type 0 where
    pub configured : succeeds (dev_configure portid rx_queue) ≡ true
    pub receives : Range rx_queue 0 (QueueReady portid)
    pub sends : succeeds (tx_queue_setup portid) ≡ true
    pub started : succeeds (dev_start portid) ≡ true

  abbrev EnabledReady : ℕ → ℕ → ℕ → Type 0
  EnabledReady mask rx_queue portid = is_enabled mask portid ≡ true → PortReady rx_queue portid

  create_pools-Part : (n q : ℕ) → Part succeeds (create_pools succeeds n q) (Range n q PoolReady)
  unfolding create_pools IsTest
  create_pools-Part zero q = iff-Part (Range-zero q PoolReady) skip-Part
  create_pools-Part (suc n) q = iff-Part (Range-suc n q PoolReady) (
      then-Part (then-Part (test-Part (ltb q max_que_num) outside tt) (ask-Part (pool_create q)))
        (create_pools-Part n (q + 1)))

  create_rings-Part :
      (n q : ℕ)
      → Part succeeds (create_rings succeeds n q) (Range n q (λ j. succeeds (ring_create j) ≡ true))
  unfolding create_rings
  create_rings-Part zero q =
      iff-Part (Range-zero q (λ j. succeeds (ring_create j) ≡ true)) skip-Part
  create_rings-Part (suc n) q =
      iff-Part (Range-suc n q (λ j. succeeds (ring_create j) ≡ true))
        (then-Part (ask-Part (ring_create q)) (create_rings-Part n (q + 1)))

  rx_queues-Part :
      (portid n q : ℕ)
      → Part succeeds
          (rx_queues succeeds lcore_is_enabled portid n q)
          (Range n q (QueueReady portid))
  unfolding rx_queues IsTest
  rx_queues-Part portid zero q = iff-Part (Range-zero q (QueueReady portid)) skip-Part
  rx_queues-Part portid (suc n) q = iff-Part (Range-suc n q (QueueReady portid)) (
      then-Part
        (then-Part (test-Part (lcore_is_enabled q) (lcore_disabled q) tt)
          (ask-Part (rx_queue_setup portid q)))
        (rx_queues-Part portid n (q + 1)))

  init_port-Part :
      (rx_queue portid : ℕ)
      → Part succeeds
          (init_port succeeds lcore_is_enabled rx_queue portid)
          (PortReady rx_queue portid)
  unfolding init_port
  init_port-Part rx_queue portid =
      iff-Part
        (
          (λ (((a, b), c), d). record { configured = a; receives = b; sends = c; started = d }),
          λ v. (((v.configured, v.receives), v.sends), v.started),
        )
        (then-Part
          (then-Part
            (then-Part (ask-Part (dev_configure portid rx_queue))
              (rx_queues-Part portid rx_queue 0))
            (ask-Part (tx_queue_setup portid)))
          (ask-Part (dev_start portid)))

  init_ports-Part :
      (mask rx_queue n portid : ℕ)
      → Part succeeds
          (init_ports succeeds lcore_is_enabled mask rx_queue n portid)
          (Range n portid (EnabledReady mask rx_queue))
  unfolding init_ports
  init_ports-Part mask rx_queue zero portid =
      iff-Part (Range-zero portid (EnabledReady mask rx_queue)) skip-Part
  init_ports-Part mask rx_queue (suc n) portid =
      let rest = init_ports-Part mask rx_queue n (portid + 1) in
      iff-Part (Range-suc n portid (EnabledReady mask rx_queue))
        (elim (Bool-cases (is_enabled mask portid)) [
          | inl on ↦
              rw on (
                then-Part (iff-Part ((λ v _. v), λ f. f refl) (init_port-Part rx_queue portid))
                  rest)
          | inr off ↦
              rw off
                (then-Part (iff-Part ((λ _ e. absurd (ground (arith, e))), λ _. tt) skip-Part) rest)
        ])

  -- What `main` needs of the devices: all arguments and calls are accepted, some port is there and
  -- enabled, and the pools have their entries.
  pub record Ready (args_ok : Bool) (mask rx_queue max_ethports count : ℕ) : Type 0 where
    pub eal : succeeds eal_init ≡ true
    pub arguments : args_ok ≡ true
    pub pools : Range rx_queue 0 PoolReady
    pub some_port : count % 2 ^ 8 ≢ 0
    pub ports : Range (ports_of max_ethports count) 0 (EnabledReady mask rx_queue)
    pub some_enabled : (j : ℕ) × (j < ports_of max_ethports count) × (is_enabled mask j ≡ true)
    pub rings : Range (ports_of max_ethports count) 0 (λ j. succeeds (ring_create j) ≡ true)

  not_zero-Part :
      (n : ℕ) (why : Stop) {P : Type 0}
      → IsTest why
      → (n ≢ 0) ↔ P
      → Part succeeds (test (not (n == 0)) why) P
  not_zero-Part n why v (f, g) =
      iff-Part ((λ e. f (ground (arith, e))), λ p. let ne = g p in ground (arith, ne))
        (test-Part (not (n == 0)) why v)

  pub devices-Part :
      (args_ok : Bool) (mask rx_queue max_ethports count : ℕ)
      → Part succeeds
          (devices succeeds lcore_is_enabled args_ok mask rx_queue max_ethports count)
          (Ready args_ok mask rx_queue max_ethports count)
  unfolding devices IsTest
  devices-Part args_ok mask rx_queue max_ethports count =
      let nb = ports_of max_ethports count in
      let small : nb < 2 ^ 8 = ground arith in
      let (f, g) = available-some mask nb 0 nb (omega arith) small in
      let enabled : (available mask nb 0 nb ≢ 0)
          ↔ ((j : ℕ) × (j < nb) × (is_enabled mask j ≡ true)) =
        (
          (λ ne. elim (f ne) [
            | inl lt ↦ absurd (omega (arith, lt))
            | inr (j, low, high, on) ↦ (j, omega (arith, high), on)
          ]),
          λ (j, lt, on). g (inr (j, omega arith, omega (arith, lt), on)),
        ) in
      iff-Part
        (
          (λ ((((((a, b), c), d), e), i), k). record {
            eal = a;
            arguments = b;
            pools = c;
            some_port = d;
            ports = e;
            some_enabled = i;
            rings = k;
          }),
          λ v. (
            (((((v.eal, v.arguments), v.pools), v.some_port), v.ports), v.some_enabled),
            v.rings,
          ),
        )
        (then-Part
          (then-Part
            (then-Part
              (then-Part
                (then-Part (then-Part (ask-Part eal_init) (test-Part args_ok bad_arguments tt))
                  (create_pools-Part rx_queue 0))
                (not_zero-Part (count % 2 ^ 8) no_ports tt ((λ ne. ne), λ ne. ne)))
              (init_ports-Part mask rx_queue nb 0))
            (not_zero-Part (available mask nb 0 nb) all_disabled tt enabled))
          (create_rings-Part nb 0))
