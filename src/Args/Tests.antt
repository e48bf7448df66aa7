-- ===== src/Args/Tests.antt =====
-- A command line, with decimal digits read by a small function.
use hcmonitor.Prelude.{ℕ, ◌-◌, ◌<◌, ◌≡◌, ◌↔◌, true, refl, pos, [], ◌∷◌}
use hcmonitor.Args.{
  Text, Numbers, initial_args, queue_opt, mask_opt, parse_args, parse_opt, parse_nqueue,
  parse_portmask,
}
use hcmonitor.Args.Laws.{IsSane, has_mask, parse_args-IsSane}

-- One digit is a number; more are not.
abbrev digit : Text → ℕ × Text
digit [] = (0, [])
digit (x ∷ xs) = (x - b'0', xs)

abbrev numbers : Numbers
numbers = record { strtoul = λ s b. digit s; strtol = λ s b. (pos (digit s).0, (digit s).1) }

parse_args-IsSane_example :
    let b = record initial_args { port_mask = 3; rx_queue = 4 } in
    IsSane b
    × ((0 < b.port_mask) ↔ (has_mask (queue_opt (b'4' ∷ []) ∷ mask_opt (b'3' ∷ []) ∷ []) ≡ true))
unfolding parse_args parse_opt parse_nqueue parse_portmask
parse_args-IsSane_example =
    parse_args-IsSane numbers (queue_opt (b'4' ∷ []) ∷ mask_opt (b'3' ∷ []) ∷ [])
      (record initial_args { port_mask = 3; rx_queue = 4 }) refl
