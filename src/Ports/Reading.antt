-- ===== src/Ports/Reading.antt =====
-- Which ports the receiving cores read.
use native.Mathlib.Decide.{ℕ_discrete}
use hcmonitor.Prelude.{
  ℕ, zero, suc, ◌<◌, ◌≤◌, ◌≡◌, refl, sym, ◌∙◌, update, update_self, update_ne, true, false, arith,
  Bool-cases, inl, inr, ap,
}
use hcmonitor.Ports.{is_enabled, LcoreQueueConf, conf_queues, conf_ports}

-- What a port leaves at a queue.
abbrev given : ℕ → LcoreQueueConf → LcoreQueueConf
given portid q = record {
  n_rx_port = 1;
  n_rx_queue = 1;
  rx_port_list = update q.rx_port_list q.n_rx_port portid;
}

conf_queues-beyond :
    (portid n : ℕ) (conf : ℕ → LcoreQueueConf) (q : ℕ)
    → n ≤ q
    → conf_queues portid n conf q ≡ conf q
unfolding conf_queues
conf_queues-beyond portid zero conf q le = refl
conf_queues-beyond portid (suc n) conf q le =
    let before = conf_queues portid n conf in
    update_ne before n q (given portid (before n)) (λ e. omega (arith, e, le))
    ∙ conf_queues-beyond portid n conf q (omega (arith, le))

conf_queues-below :
    (portid n : ℕ) (conf : ℕ → LcoreQueueConf) (q : ℕ)
    → q < n
    → conf_queues portid n conf q ≡ given portid (conf q)
unfolding conf_queues
conf_queues-below portid zero conf q lt = absurd (omega (arith, lt))
conf_queues-below portid (suc n) conf q lt =
    let before = conf_queues portid n conf in
    let last = given portid (before n) in
    elim (ℕ_discrete n q) [
      | yes e ↦ rw (← e) (
          update_self before n last
          ∙ ap (given portid) (conf_queues-beyond portid n conf n (omega arith)))
      | no ne ↦
          update_ne before n q last ne ∙ conf_queues-below portid n conf q (omega (arith, lt, ne))
    ]

module _ (mask rx_queue q : ℕ) where
  -- Nothing is set up before an enabled port.
  conf_ports-none :
      (n : ℕ)
      → ((k : ℕ) → k < n → is_enabled mask k ≡ false)
      → (conf_ports mask rx_queue n q).n_rx_port ≡ 0
  unfolding conf_ports
  conf_ports-none zero off = refl
  conf_ports-none (suc n) off =
      rw (off n (omega arith)) (conf_ports-none n (λ k lt. off k (omega (arith, lt))))

  conf_ports-beyond : (n : ℕ) → rx_queue ≤ q → (conf_ports mask rx_queue n q).n_rx_port ≡ 0
  unfolding conf_ports
  conf_ports-beyond zero le = refl
  conf_ports-beyond (suc n) le = elim (Bool-cases (is_enabled mask n)) [
    | inl on ↦ rw on (
        rw (conf_queues-beyond n rx_queue (conf_ports mask rx_queue n) q le)
          (conf_ports-beyond n le))
    | inr off ↦ rw off (conf_ports-beyond n le)
  ]

  conf_ports-first :
      (n p : ℕ)
      → p < n
      → is_enabled mask p ≡ true
      → ((k : ℕ) → k < p → is_enabled mask k ≡ false)
      → q < rx_queue
      → ((conf_ports mask rx_queue n q).n_rx_port ≡ 1)
        × ((conf_ports mask rx_queue n q).rx_port_list 0 ≡ p)
  unfolding conf_ports
  conf_ports-first zero p lt on off small = absurd (omega (arith, lt))
  conf_ports-first (suc n) p lt on off small =
      let before = conf_ports mask rx_queue n in
      let step = conf_queues-below n rx_queue before q small in
      elim (ℕ_discrete p n) [
        | yes e ↦
            let here : is_enabled mask n ≡ true = rw (← e) on in
            let empty = conf_ports-none n (λ k lt. off k (rw e lt)) in
            rw (here, step) (refl, rw empty (update_self (before q).rx_port_list 0 n ∙ sym e))
        | no ne ↦
            let (one, first) = conf_ports-first n p (omega (arith, lt, ne)) on off small in
            elim (Bool-cases (is_enabled mask n)) [
              | inr no_port ↦ rw no_port (one, first)
              | inl more ↦
                  rw (more, step)
                    (
                      refl,
                      rw one
                          (update_ne (before q).rx_port_list 1 0 n (λ e. omega (arith, e)) ∙ first),
                    )
            ]
      ]

-- Each queue below `rx_queue` ends with one port to read, which is the first that is enabled,
-- however many are; a queue from `rx_queue` on has none.
pub conf_ports-first_only :
    (mask rx_queue n p q : ℕ)
    → p < n
    → is_enabled mask p ≡ true
    → ((k : ℕ) → k < p → is_enabled mask k ≡ false)
    → let c = conf_ports mask rx_queue n q in
      (q < rx_queue → (c.n_rx_port ≡ 1) × (c.rx_port_list 0 ≡ p)) × (rx_queue ≤ q → c.n_rx_port ≡ 0)
conf_ports-first_only mask rx_queue n p q lt on off =
    (conf_ports-first mask rx_queue q n p lt on off, conf_ports-beyond mask rx_queue q n)
