-- ===== src/Cores/Roles/Covers.antt =====
-- Which ring falls to which processing core, and when every ring falls to one.
use mathlib.Core.Path.{subst}
use native.Mathlib.Nat.{
  div-eq_of_lt-le, div-lt_iff_lt-mul, lt-div-mul-add, div-mul-le_self, div-add-mod, zero-mod,
}
use hcmonitor.Prelude.{
  ℕ, zero, suc, ◌+◌, ◌-◌, ◌*◌, ◌/◌, ◌%◌, ◌^◌, ◌<◌, ◌≤◌, ◌≡◌, ◌≢◌, ◌↔◌, ◌⊎◌, refl, sym, Bool, true,
  false, arith, inl, ltb, leb, ◌&&◌, dec_lt,
}
use hcmonitor.Ports.{is_enabled, conf_ports}
use hcmonitor.Ports.Reading.{conf_ports-first_only}
use hcmonitor.Cores.Roles.{lcores, process, receive, main_loop, Handles}

-- A range that has an item has a width.
positive : (d p i : ℕ) → i < p * d → 0 < d
positive zero p i k = omega (arith, k)
positive (suc d) p i k = omega arith

module _ (rx_que pr_que : ℕ) where
  main_loop-process :
      (n_rx_port idx : ℕ)
      → idx < pr_que
      → main_loop rx_que pr_que n_rx_port (rx_que + idx)
        ≡ process (idx * (rx_que / pr_que)) ((idx + 1) * (rx_que / pr_que))
  unfolding main_loop lcores
  main_loop-process n_rx_port idx lt =
      let e : rx_que + idx - (0 + rx_que) ≡ idx = omega arith in
      let in_range : (leb rx_que (rx_que + idx) && ltb (rx_que + idx) (0 + rx_que + pr_que))
          ≡ true =
        ground (arith, lt) in
      rw (in_range, e) refl

  -- Only a processing core has rings to process.
  process-main_loop :
      (n_rx_port lcore_id pos end : ℕ)
      → main_loop rx_que pr_que n_rx_port lcore_id ≡ process pos end
      → (rx_que ≤ lcore_id) × (lcore_id < rx_que + pr_que)
  unfolding main_loop lcores
  process-main_loop n_rx_port lcore_id pos end e = ground (arith, e)

  main_loop-receive :
      (n_rx_port lcore_id : ℕ)
      → n_rx_port ≢ 0
      → (main_loop rx_que pr_que n_rx_port lcore_id ≡ receive)
        ↔ ((lcore_id < rx_que) ⊎ (rx_que + pr_que + 3 < lcore_id))
  unfolding main_loop lcores
  main_loop-receive n_rx_port lcore_id ne = ground (arith, ne)

  idle-receive :
      (n_rx_port lcore_id : ℕ)
      → n_rx_port ≡ 0
      → main_loop rx_que pr_que n_rx_port lcore_id ≢ receive
  unfolding main_loop lcores
  idle-receive n_rx_port lcore_id e r = ground (arith, e, r)

  -- The core that ring `i` falls to.
  Handles-core :
      (n_rx_port i : ℕ)
      → i < pr_que * (rx_que / pr_que)
      → Handles rx_que pr_que n_rx_port (rx_que + i / (rx_que / pr_que)) i
  unfolding Handles
  Handles-core n_rx_port i lt =
      let d = rx_que / pr_que in
      let w : 0 < d = positive d pr_que i lt in
      let above : i < i / d * d + d = lt-div-mul-add w in
      let next : (i / d + 1) * d ≡ i / d * d + d = omega arith in
      (
        i / d * d,
        (i / d + 1) * d,
        main_loop-process n_rx_port (i / d) ((div-lt_iff_lt-mul w).1 lt),
        div-mul-le_self i d,
        omega (arith, above, next),
      )

  -- The rings of the processing core with index `idx`.
  processed :
      (n_rx_port idx i : ℕ)
      → idx < pr_que
      → Handles rx_que pr_que n_rx_port (rx_que + idx) i
      → (idx ≡ i / (rx_que / pr_que)) × (i < pr_que * (rx_que / pr_que))
  unfolding Handles
  processed n_rx_port idx i few (pos, end, e, le, lt) =
      let d = rx_que / pr_que in
      let r = main_loop-process n_rx_port idx few in
      let low : idx * d ≡ pos = cc in
      let high : (idx + 1) * d ≡ end = cc in
      let inside : i < (idx + 1) * d = rw high lt in
      let w : 0 < d = positive d (idx + 1) i inside in
      let q : i / d ≡ idx = div-eq_of_lt-le d (rw low le) inside in
      (sym q, (div-lt_iff_lt-mul w).0 (rw q few))

  Handles-range :
      (n_rx_port lcore_id i : ℕ)
      → Handles rx_que pr_que n_rx_port lcore_id i
      → (rx_que ≤ lcore_id) × (lcore_id < rx_que + pr_que)
  unfolding Handles
  Handles-range n_rx_port lcore_id i (pos, end, e, le, lt) =
      process-main_loop n_rx_port lcore_id pos end e

  -- There is no other.
  core-Handles :
      (n_rx_port lcore_id i : ℕ)
      → Handles rx_que pr_que n_rx_port lcore_id i
      → (lcore_id ≡ rx_que + i / (rx_que / pr_que)) × (i < pr_que * (rx_que / pr_que))
  core-Handles n_rx_port lcore_id i h =
      let (low, high) = Handles-range n_rx_port lcore_id i h in
      let here : lcore_id ≡ rx_que + (lcore_id - rx_que) = omega (arith, low) in
      let (q, lt) =
        processed n_rx_port (lcore_id - rx_que) i (omega (arith, low, high))
          (subst (λ (l : ℕ). Handles rx_que pr_que n_rx_port l i) here h) in
      (omega (arith, here, q), lt)

-- Every ring is below `pr_que * (rx_que / pr_que)` only where `pr_que` divides `rx_que`.
rest-mod :
    (rx_que pr_que : ℕ)
    → 0 < pr_que
    → ((i : ℕ) → i < rx_que → i < pr_que * (rx_que / pr_que))
    → rx_que % pr_que ≡ 0
rest-mod zero pr_que lt all = zero-mod pr_que
rest-mod (suc r) pr_que lt all = omega (arith, all r (omega arith), div-add-mod (suc r) pr_que)

-- Of fewer than 2 ^ 16 receiving cores, as `main` cuts their number down to so many, and `pr_que`
-- processing cores, one at least, all of which are enabled, and with an enabled port: the loop that
-- a core would run is that of receiving exactly if its number is below `rx_que`; ring `i` is
-- processed by core `rx_que + i / dive`, for the quotient `dive` of `rx_que` by `pr_que`, if `i` is
-- below `pr_que * dive`, and by no other core; and every ring that is filled is processed by some
-- core that is enabled exactly if `pr_que` divides `rx_que`.
pub main_loop-covers :
    (mask n p rx_que pr_que : ℕ) (lcore_is_enabled : ℕ → Bool)
    → p < n
    → is_enabled mask p ≡ true
    → ((k : ℕ) → k < p → is_enabled mask k ≡ false)
    → 0 < pr_que
    → rx_que < 2 ^ 16
    → ((q : ℕ) → q < rx_que + pr_que → lcore_is_enabled q ≡ true)
    → let ports = λ (q : ℕ). (conf_ports mask (rx_que % 2 ^ 16) n q).n_rx_port in
      let dive = rx_que / pr_que in
      ((q : ℕ) → (main_loop rx_que pr_que (ports q) q ≡ receive) ↔ (q < rx_que))
      × ((q i : ℕ)
          → Handles rx_que pr_que (ports q) q i ↔ ((q ≡ rx_que + i / dive) × (i < pr_que * dive)))
      × (((i : ℕ)
            → i < rx_que
            → (q : ℕ) × (lcore_is_enabled q ≡ true) × Handles rx_que pr_que (ports q) q i)
          ↔ (rx_que % pr_que ≡ 0))
main_loop-covers mask n p rx_que pr_que lcore_is_enabled lt on off some_core small enabled =
    let ports = λ (q : ℕ). (conf_ports mask (rx_que % 2 ^ 16) n q).n_rx_port in
    let dive = rx_que / pr_que in
    (
      λ q. receives q,
      λ q i. (
        core-Handles rx_que pr_que (ports q) q i,
        λ (e, k).
            subst (λ (l : ℕ). Handles rx_que pr_que (ports q) l i) (sym e)
              (Handles-core rx_que pr_que (ports q) i k),
      ),
      (
        λ all.
            rest-mod rx_que pr_que some_core
              (λ i k. let (q, _, h) = all i k in (core-Handles rx_que pr_que (ports q) q i h).1),
        λ e i k.
            let inside : i < pr_que * dive = omega (arith, e, k, div-add-mod rx_que pr_que) in
            let h = Handles-core rx_que pr_que (ports (rx_que + i / dive)) i inside in
            (
              rx_que + i / dive,
              enabled (rx_que + i / dive)
                  (Handles-range rx_que pr_que (ports (rx_que + i / dive)) (rx_que + i / dive) i
                    h).1,
              h,
            ),
      ),
    )
  where
    receives :
        (q : ℕ)
        → (main_loop rx_que pr_que (conf_ports mask (rx_que % 2 ^ 16) n q).n_rx_port q ≡ receive)
          ↔ (q < rx_que)
    receives q =
        let same : rx_que ≡ rx_que % 2 ^ 16 = omega (arith, small) in
        let (below, beyond) = conf_ports-first_only mask (rx_que % 2 ^ 16) n p q lt on off in
        elim (dec_lt q rx_que) [
          | yes k ↦
              let e = (below (rw (← same) k)).0 in
              (λ _. k, λ _. (main_loop-receive rx_que pr_que _ q (omega (arith, e))).1 (inl k))
          | no k ↦
              let e = beyond (omega (arith, k, same)) in
              (λ r. absurd (idle-receive rx_que pr_que _ q e r), λ c. absurd (k c))
        ]
