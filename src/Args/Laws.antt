-- ===== src/Args/Laws.antt =====
-- What the command line can set.
use hcmonitor.Prelude.{
  ◌-◌, ◌^◌, ◌<◌, ◌≡◌, ◌≢◌, ◌⊎◌, inl, inr, refl, pos, negsuc, ltb_ℤ, ◌==◌, ◌||◌, ◌&&◌, ◌↔◌, not,
  to_unsigned, Bool, true, false, Bool-cases, Option-cases, some, none, List, [], ◌∷◌, arith,
}
use mathlib.Core.Option.{some-injective}
use mathlib.Core.Path.{subst}
use hcmonitor.Args.{
  Numbers, Args, initial_args, Opt, is_empty, mask_opt, queue_opt, period_opt, other_opt, Text,
  max_rx_queue_per_lcore, parse_portmask, parse_nqueue, parse_timer_period, timer_of, parse_opt,
  parse_args,
}

-- A queue number that an lcore has room for, and a period that is not negative.
abbrev pub IsSane : Args → Type 0
IsSane a =
    (0 < a.rx_queue)
    × (a.rx_queue < max_rx_queue_per_lcore)
    × (ltb_ℤ a.timer_period (pos 0) ≡ false)

-- An option for the port mask, and whether there is one.
unfoldable pub is_mask : Opt → Bool
is_mask (mask_opt s) = true
is_mask (queue_opt s) = false
is_mask (period_opt s) = false
is_mask other_opt = false

unfoldable pub has_mask : List Opt → Bool
has_mask [] = false
has_mask (o ∷ os) = is_mask o || has_mask os

not_empty : (l : Text) → l ≢ [] → is_empty l ≡ false
not_empty [] ne = absurd (ne refl)
not_empty (x ∷ xs) ne = refl

none-some : {b : Args} → none ≡ some b → ⊥
none-some e = cc

module _ (lib : Numbers) where
  parse_nqueue_bound : (s : Text) → parse_nqueue lib s < max_rx_queue_per_lcore
  unfolding parse_nqueue
  parse_nqueue_bound s = ground arith

  parse_opt-IsSane : (o : Opt) (a b : Args) → IsSane a → parse_opt lib o a ≡ some b → IsSane b
  unfolding parse_opt
  parse_opt-IsSane (mask_opt s) a b h e =
      elim (Bool-cases (to_unsigned (2 ^ 32) (parse_portmask lib s) == 0)) [
        | inl z ↦ absurd (none-some (rw (z, parse_opt) at e))
        | inr z ↦ subst (λ x. IsSane x) (some-injective _ _ (rw (z, parse_opt) at e)) h
      ]
  parse_opt-IsSane (queue_opt s) a b h e = elim (Bool-cases (parse_nqueue lib s == 0)) [
    | inl z ↦ absurd (none-some (rw (z, parse_opt) at e))
    | inr z ↦
        subst (λ x. IsSane x) (some-injective _ _ (rw (z, parse_opt) at e))
          (ground (arith, z), parse_nqueue_bound s, h.2)
  ]
  parse_opt-IsSane (period_opt s) a b h e =
      elim (Bool-cases (ltb_ℤ (timer_of lib (parse_timer_period lib s)) (pos 0))) [
        | inl z ↦ absurd (none-some (rw (z, parse_opt) at e))
        | inr z ↦ subst (λ x. IsSane x) (some-injective _ _ (rw (z, parse_opt) at e)) (h.0, h.1, z)
      ]
  parse_opt-IsSane other_opt a b h e = absurd (none-some e)

  keeps-IsSane : (os : List Opt) (a b : Args) → IsSane a → parse_args lib os a ≡ some b → IsSane b
  unfolding parse_args
  keeps-IsSane [] a b h e = subst (λ x. IsSane x) (some-injective _ _ e) h
  keeps-IsSane (o ∷ os) a b h e = elim (Option-cases (parse_opt lib o a)) [
    | inl z ↦ absurd (none-some (rw (z, parse_args) at e))
    | inr (c, z) ↦ keeps-IsSane os c b (parse_opt-IsSane o a c h z) (rw (z, parse_args) at e)
  ]

  -- An accepted option sets the mask if it is one for that, to some port, and keeps it otherwise.
  parse_opt-port_mask :
      (o : Opt) (a b : Args)
      → parse_opt lib o a ≡ some b
      → (b.port_mask == 0) ≡ ((a.port_mask == 0) && not (is_mask o))
  unfolding parse_opt is_mask
  parse_opt-port_mask (mask_opt s) a b e =
      elim (Bool-cases (to_unsigned (2 ^ 32) (parse_portmask lib s) == 0)) [
        | inl z ↦ absurd (none-some (rw (z, parse_opt) at e))
        | inr z ↦
            subst (λ (x : Args). (x.port_mask == 0) ≡ ((a.port_mask == 0) && false))
              (some-injective _ _ (rw (z, parse_opt) at e)) (ground (arith, z))
      ]
  parse_opt-port_mask (queue_opt s) a b e = elim (Bool-cases (parse_nqueue lib s == 0)) [
    | inl z ↦ absurd (none-some (rw (z, parse_opt) at e))
    | inr z ↦
        subst (λ (x : Args). (x.port_mask == 0) ≡ ((a.port_mask == 0) && true))
          (some-injective _ _ (rw (z, parse_opt) at e)) (ground arith)
  ]
  parse_opt-port_mask (period_opt s) a b e =
      elim (Bool-cases (ltb_ℤ (timer_of lib (parse_timer_period lib s)) (pos 0))) [
        | inl z ↦ absurd (none-some (rw (z, parse_opt) at e))
        | inr z ↦
            subst (λ (x : Args). (x.port_mask == 0) ≡ ((a.port_mask == 0) && true))
              (some-injective _ _ (rw (z, parse_opt) at e)) (ground arith)
      ]
  parse_opt-port_mask other_opt a b e = absurd (none-some e)

  parse_args-port_mask :
      (os : List Opt) (a b : Args)
      → parse_args lib os a ≡ some b
      → (b.port_mask == 0) ≡ ((a.port_mask == 0) && not (has_mask os))
  unfolding parse_args has_mask
  parse_args-port_mask [] a b e =
      subst (λ (x : Args). (x.port_mask == 0) ≡ ((a.port_mask == 0) && true)) (some-injective _ _ e)
        (ground arith)
  parse_args-port_mask (o ∷ os) a b e = elim (Option-cases (parse_opt lib o a)) [
    | inl z ↦ absurd (none-some (rw (z, parse_args) at e))
    | inr (c, z) ↦
        ground (
          arith,
          parse_opt-port_mask o a c z,
          parse_args-port_mask os c b (rw (z, parse_args) at e),
        )
  ]

  -- From the settings that the program starts with, options that are all accepted leave a queue
  -- number between 1 and 15 and a period that is not negative, and some port exactly if one of them
  -- is a port mask.
  pub parse_args-IsSane :
      (os : List Opt) (b : Args)
      → parse_args lib os initial_args ≡ some b
      → IsSane b × ((0 < b.port_mask) ↔ (has_mask os ≡ true))
  parse_args-IsSane os b e =
      let mask = parse_args-port_mask os initial_args b e in
      (keeps-IsSane os initial_args b (omega arith, omega arith, refl) e, ground (arith, mask))

  parse_portmask_rejects :
      (s : Text)
      → ((s ≡ []) ⊎ ((lib.strtoul s 16).1 ≢ [])) ⊎ ((lib.strtoul s 16).0 ≡ 0)
      → parse_portmask lib s ≡ negsuc 0
  unfolding parse_portmask
  parse_portmask_rejects s bad = elim bad [
    | inl b ↦ elim b [
      | inl e ↦ rw e refl
      | inr ne ↦ elim (Bool-cases (is_empty s)) [
        | inl y ↦ rw (y, parse_portmask) refl
        | inr y ↦ rw (y, not_empty _ ne, parse_portmask) refl
      ]
    ]
    | inr z ↦ elim (Bool-cases (is_empty s || not (is_empty (lib.strtoul s 16).1))) [
      | inl y ↦ rw (y, parse_portmask) refl
      | inr y ↦ rw (y, z, parse_portmask) refl
    ]
  ]

  -- A port mask that cannot be read, or is 0, passes the test for 0 of its caller, and enables all
  -- 32 ports, whatever the mask was before.
  parse_opt-any_mask :
      (s : Text) (a : Args)
      → ((s ≡ []) ⊎ ((lib.strtoul s 16).1 ≢ [])) ⊎ ((lib.strtoul s 16).0 ≡ 0)
      → parse_opt lib (mask_opt s) a ≡ some (record a { port_mask = 2 ^ 32 - 1 })
  unfolding parse_opt
  parse_opt-any_mask s a bad = rw (parse_portmask_rejects s bad) refl
