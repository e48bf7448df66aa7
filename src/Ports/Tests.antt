-- ===== src/Ports/Tests.antt =====
-- Four ports, of which some are enabled.
use hcmonitor.Prelude.{
  ℕ, zero, suc, ◌%◌, ◌<◌, ◌≤◌, ◌≡◌, ◌⊎◌, refl, arith, Bool, true, false, ltb, some, [], ◌∷◌,
}
use hcmonitor.Ports.{is_enabled, pair_port, pair_first, pair_ports, conf_ports}
use hcmonitor.Ports.Pairing.{pair_ports-involutive}
use hcmonitor.Ports.Reading.{conf_ports-first_only}
use hcmonitor.Ports.Links.{
  AreUp, print_links, all_ports_up, check_from, check_all_ports_link_status,
  check_all_ports_link_status-Ends,
}

-- Ports 0, 1 and 3.
pair_ports-involutive_example :
    (is_enabled 11 0 ≡ true
      → (is_enabled 11 (pair_ports 11 4 0) ≡ true)
        × (pair_ports 11 4 0 < 4)
        × (pair_ports 11 4 (pair_ports 11 4 0) ≡ 0)
        × (pair_ports 11 4 0 ≡ 0 → (pair_first 11 4).nb_ports_in_mask % 2 ≡ 1))
    × (is_enabled 11 0 ≡ false → pair_ports 11 4 0 ≡ 0)
pair_ports-involutive_example = pair_ports-involutive 11 4 0 (omega arith)

pairs : (pair_ports 11 4 0 ≡ 1) × (pair_ports 11 4 1 ≡ 0) × (pair_ports 11 4 3 ≡ 3)
unfolding pair_ports pair_first pair_port is_enabled
pairs = (refl, refl, refl)

below_two : (k : ℕ) → k < 2 → is_enabled 12 k ≡ false
unfolding is_enabled
below_two zero lt = refl
below_two (suc zero) lt = refl
below_two (suc (suc k)) lt = absurd (omega (arith, lt))

-- Ports 2 and 3.
conf_ports-first_only_example :
    (1 < 2 → ((conf_ports 12 2 4 1).n_rx_port ≡ 1) × ((conf_ports 12 2 4 1).rx_port_list 0 ≡ 2))
    × (2 ≤ 1 → (conf_ports 12 2 4 1).n_rx_port ≡ 0)
unfolding is_enabled
conf_ports-first_only_example = conf_ports-first_only 12 2 4 2 1 (omega arith) refl below_two

-- Both links come up in the fifth round.
abbrev links : ℕ → ℕ → Bool
links k p = ltb 4 k

check_all_ports_link_status-Ends_example :
    (last delays : ℕ) × (check_all_ports_link_status 2 3 links
      ≡ some (record {
        round = suc last;
        delays = delays;
        shown = print_links 3 (links (suc last)) 0 2;
      }))
    × (last < 90)
    × ((j : ℕ) → j < last → ¬ AreUp 3 2 (links j))
    × ((AreUp 3 2 (links last) × (delays ≡ last))
        ⊎ (¬ AreUp 3 2 (links last) × (last ≡ 89) × (delays ≡ 90)))
check_all_ports_link_status-Ends_example = check_all_ports_link_status-Ends 2 3 links

waits_five :
    check_all_ports_link_status 2 3 links
    ≡ some (record { round = 6; delays = 5; shown = (0, true) ∷ (1, true) ∷ [] })
unfolding check_all_ports_link_status check_from all_ports_up is_enabled print_links
waits_five = refl
