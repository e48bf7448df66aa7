-- ===== src/Args.antt =====
-- The command line of HCMonitor/main.c. `getopt_long` is not among the sources: its results are a
-- list of options. So are `strtoul` and `strtol`: each gives a value and the text behind it.
pub mod Laws
mod Tests
use hcmonitor.Prelude.{
  ℕ, zero, suc, ◌+◌, ◌-◌, ◌*◌, ◌%◌, ◌^◌, ℤ, pos, negsuc, ◌*ℤ◌, ltb_ℤ, ltb, ◌==◌, ◌||◌, not,
  if◌then◌else◌, int_of_word, to_unsigned, Bool, true, false, Option, some, none, List, [], ◌∷◌,
}

-- A text, by its characters.
abbrev pub Text : Type 0
Text = List ℕ

pub record Numbers : Type 0 where
  pub strtoul : Text → ℕ → ℕ × Text
  pub strtol : Text → ℕ → ℤ × Text

abbrev is_empty : Text → Bool
is_empty [] = true
is_empty (x ∷ xs) = false

-- `l2fwd_enabled_port_mask`, `l2fwd_rx_queue_per_lcore` and `timer_period`
pub record Args : Type 0 where
  pub port_mask : ℕ
  pub rx_queue : ℕ
  pub timer_period : ℤ

-- What they are as the program starts.
abbrev pub initial_args : Args
initial_args = record { port_mask = 0; rx_queue = 1; timer_period = pos 11000000 }

-- The options `p`, `q` and `T` with their arguments, and any other.
pub data Opt : Type 0 where
  mask_opt : Text → Opt
  queue_opt : Text → Opt
  period_opt : Text → Opt
  other_opt : Opt

-- `MAX_RX_QUEUE_PER_LCORE`, `MAX_TIMER_PERIOD` and `TIMER_MILLISECOND`
abbrev pub max_rx_queue_per_lcore : ℕ
max_rx_queue_per_lcore = 16

abbrev pub max_timer_period : ℕ
max_timer_period = 86400

abbrev pub timer_millisecond : ℕ
timer_millisecond = 2200000

-- A 64-bit word as an int64_t.
abbrev signed64 : ℕ → ℤ
signed64 w = if ltb w (2 ^ 63) then pos w else negsuc (2 ^ 64 - 1 - w)

module _ (lib : Numbers) where
  open lib use {strtoul, strtol}

  -- `l2fwd_parse_portmask`
  unfoldable pub parse_portmask : Text → ℤ
  parse_portmask portmask =
      let (pm, end) = strtoul portmask 16 in
      if is_empty portmask || not (is_empty end)
      then negsuc 0
      else if pm == 0
      then negsuc 0
      else int_of_word (pm % 2 ^ 32)

  -- `l2fwd_parse_nqueue`
  unfoldable pub parse_nqueue : Text → ℕ
  parse_nqueue q_arg =
      let (n, end) = strtoul q_arg 10 in
      if is_empty q_arg || not (is_empty end)
      then 0
      else if n == 0
      then 0
      else if not (ltb n max_rx_queue_per_lcore)
      then 0
      else n

  -- `l2fwd_parse_timer_period`; the long is cut down to an int.
  unfoldable pub parse_timer_period : Text → ℤ
  parse_timer_period q_arg =
      let (l, end) = strtol q_arg 10 in
      let n = int_of_word (to_unsigned (2 ^ 32) l) in
      if is_empty q_arg || not (is_empty end)
      then negsuc 0
      else if not (ltb_ℤ n (pos max_timer_period))
      then negsuc 0
      else n

  -- The product with 1000 is one of ints, taken to wrap; that with `TIMER_MILLISECOND` is one of
  -- unsigned longs.
  unfoldable pub timer_of : ℤ → ℤ
  timer_of n =
      let ms = int_of_word (to_unsigned (2 ^ 32) (n *ℤ pos 1000)) in
      signed64 (to_unsigned (2 ^ 64) ms * timer_millisecond % 2 ^ 64)

  -- A case of the `switch`; `none` is the return of -1.
  unfoldable pub parse_opt : Opt → Args → Option Args
  parse_opt (mask_opt arg) a =
      let mask = to_unsigned (2 ^ 32) (parse_portmask arg) in
      if mask == 0 then none else some (record a { port_mask = mask })
  parse_opt (queue_opt arg) a =
      let n = parse_nqueue arg in if n == 0 then none else some (record a { rx_queue = n })
  parse_opt (period_opt arg) a =
      let period = timer_of (parse_timer_period arg) in
      if ltb_ℤ period (pos 0) then none else some (record a { timer_period = period })
  parse_opt other_opt a = none

  -- The loop of `l2fwd_parse_args`.
  unfoldable pub parse_args : List Opt → Args → Option Args
  parse_args [] a = some a
  parse_args (o ∷ os) a = elim (parse_opt o a) [ none ↦ none | some b ↦ parse_args os b ]
