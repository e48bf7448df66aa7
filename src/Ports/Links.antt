-- ===== src/Ports/Links.antt =====
-- How long the program waits for the links of its ports, and what it then prints.
use native.Mathlib.Decide.{ℕ_discrete}
use hcmonitor.Prelude.{
  ℕ, zero, suc, ◌+◌, ◌<◌, ◌≤◌, ◌≡◌, ◌≢◌, ◌⊎◌, refl, if◌then◌else◌, Bool, true, false, arith,
  Bool-cases, inl, inr, Option, some, none, List, [], ◌∷◌, not, ◌&&◌, ◌||◌, ◌==◌,
}
use hcmonitor.Ports.{is_enabled}

-- What `check_all_ports_link_status` leaves on the screen: the round it printed in, how many times
-- it waited 100 ms, and the ports it printed, each with whether its link is up.
pub record Checked : Type 0 where
  pub round : ℕ
  pub delays : ℕ
  pub shown : List (ℕ × Bool)

-- The inner loop before the flag is set, for `left` ports from `portid` on: `all_ports_up`.
unfoldable pub all_ports_up : ℕ → (ℕ → Bool) → ℕ → ℕ → Bool
all_ports_up mask up portid zero = true
all_ports_up mask up portid (suc left) =
    if is_enabled mask portid && not (up portid)
    then false
    else all_ports_up mask up (suc portid) left

-- The inner loop after: it prints.
unfoldable pub print_links : ℕ → (ℕ → Bool) → ℕ → ℕ → List (ℕ × Bool)
print_links mask up portid zero = []
print_links mask up portid (suc left) =
    let rest = print_links mask up (suc portid) left in
    if is_enabled mask portid then (portid, up portid) ∷ rest else rest

-- The outer loop, from `count` on with `left` rounds to go; `up` gives the links of each round, as
-- `rte_eth_link_get_nowait` does. It is `none` if the loop ends with nothing printed.
unfoldable pub check_from : ℕ → ℕ → (ℕ → ℕ → Bool) → Bool → ℕ → ℕ → Option Checked
check_from mask port_num up print_flag count zero = none
check_from mask port_num up print_flag count (suc left) =
    let all = all_ports_up mask (up count) 0 port_num in
    let rest = check_from mask port_num up (all || (count == 89)) (suc count) left in
    if print_flag
    then some (record { round = count; delays = 0; shown = print_links mask (up count) 0 port_num })
    else elim rest [
      | none ↦ none
      | some c ↦ some (record c { delays = if all then c.delays else suc c.delays })
    ]

-- `check_all_ports_link_status`
unfoldable pub check_all_ports_link_status : ℕ → ℕ → (ℕ → ℕ → Bool) → Option Checked
check_all_ports_link_status port_num mask up = check_from mask port_num up false 0 91

-- Every enabled port below `n` is up.
unfoldable pub AreUp : ℕ → ℕ → (ℕ → Bool) → Type 0
AreUp mask n up = (p : ℕ) → p < n → is_enabled mask p ≡ true → up p ≡ true

module _ (mask : ℕ) (up : ℕ → Bool) where
  all_ports_up-true :
      (portid left : ℕ)
      → all_ports_up mask up portid left ≡ true
      → (p : ℕ) → portid ≤ p
      → p < portid + left
      → is_enabled mask p ≡ true
      → up p ≡ true
  unfolding all_ports_up
  all_ports_up-true portid zero e p le lt on = absurd (omega (arith, le, lt))
  all_ports_up-true portid (suc left) e p le lt on = elim (ℕ_discrete portid p) [
    | yes same ↦ elim (Bool-cases (up p)) [ inl u ↦ u | inr d ↦ ground (arith, same, e, on, d) ]
    | no ne ↦
        all_ports_up-true (suc portid) left (ground (arith, e)) p (omega (arith, le, ne))
          (omega (arith, lt)) on
  ]

  all_ports_up_complete :
      (portid left : ℕ)
      → ((p : ℕ) → portid ≤ p → p < portid + left → is_enabled mask p ≡ true → up p ≡ true)
      → all_ports_up mask up portid left ≡ true
  unfolding all_ports_up
  all_ports_up_complete portid zero a = refl
  all_ports_up_complete portid (suc left) a =
      let rest =
        all_ports_up_complete (suc portid) left
          (λ p le lt. a p (omega (arith, le)) (omega (arith, lt))) in
      elim (Bool-cases (is_enabled mask portid)) [
        | inl on ↦ rw (on, a portid (omega arith) (omega arith) on) rest
        | inr off ↦ rw off rest
      ]

all_ports_up-AreUp :
    (mask n : ℕ) (up : ℕ → Bool) → all_ports_up mask up 0 n ≡ true → AreUp mask n up
unfolding AreUp
all_ports_up-AreUp mask n up e p lt on =
    all_ports_up-true mask up 0 n e p (omega arith) (omega (arith, lt)) on

not-AreUp : (mask n : ℕ) (up : ℕ → Bool) → all_ports_up mask up 0 n ≡ false → ¬ AreUp mask n up
unfolding AreUp
not-AreUp mask n up e a =
    let t = all_ports_up_complete mask up 0 n (λ p le lt on. a p (omega (arith, lt)) on) in cc

module _ (mask n : ℕ) (up : ℕ → ℕ → Bool) where
  -- From `count` on with no flag, the loop prints in round `suc last`.
  record Ends (count left : ℕ) : Type 0 where
    last : ℕ
    delays : ℕ
    result :
        check_from mask n up false count left
        ≡ some (record {
          round = suc last;
          delays = delays;
          shown = print_links mask (up (suc last)) 0 n;
        })
    soon : count ≤ last
    bound : last < 90
    waited : (j : ℕ) → count ≤ j → j < last → ¬ AreUp mask n (up j)
    reason :
        (AreUp mask n (up last) × (delays + count ≡ last))
        ⊎ (¬ AreUp mask n (up last) × (last ≡ 89) × (delays + count ≡ 90))

  -- The flag is set: the next round prints.
  next-Ends :
      (count left : ℕ)
      → (all_ports_up mask (up count) 0 n ≡ true)
        ⊎ ((all_ports_up mask (up count) 0 n ≡ false) × (count ≡ 89))
      → count < 90
      → Ends count (suc (suc left))
  unfolding check_from
  next-Ends count left (inl e) lt = record {
    last = count;
    delays = 0;
    result = ground (arith, e);
    soon = omega arith;
    bound = lt;
    waited = λ j le k. absurd (omega (arith, le, k));
    reason = inl (all_ports_up-AreUp mask n (up count) e, omega arith);
  }
  next-Ends count left (inr (e, f)) lt = record {
    last = count;
    delays = 1;
    result = ground (arith, e, f);
    soon = omega arith;
    bound = lt;
    waited = λ j le k. absurd (omega (arith, le, k));
    reason = inr (not-AreUp mask n (up count) e, f, omega (arith, f));
  }

  later-Ends :
      (count left : ℕ)
      → all_ports_up mask (up count) 0 n ≡ false
      → count ≢ 89
      → Ends (suc count) left
      → Ends count (suc left)
  unfolding check_from
  later-Ends count left e ne v =
      let off : (count == 89) ≡ false = ground (arith, ne) in
      record {
        last = v.last;
        delays = suc v.delays;
        result = ground (arith, e, off, v.result);
        soon = omega (arith, v.soon);
        bound = v.bound;
        waited = λ j le k. elim (ℕ_discrete count j) [
          | yes same ↦ rw (← same) (not-AreUp mask n (up count) e)
          | no other ↦ v.waited j (omega (arith, le, other)) k
        ];
        reason = elim v.reason [
          | inl (a, d) ↦ inl (a, omega (arith, d))
          | inr (a, l, d) ↦ inr (a, l, omega (arith, d))
        ];
      }

  check_from-Ends : (left count : ℕ) → count + left ≡ 91 → count < 90 → Ends count left
  check_from-Ends zero count e lt = absurd (omega (arith, e, lt))
  check_from-Ends (suc zero) count e lt = absurd (omega (arith, e, lt))
  check_from-Ends (suc (suc left)) count e lt =
      elim (Bool-cases (all_ports_up mask (up count) 0 n)) [
        | inl a ↦ next-Ends count left (inl a) lt
        | inr d ↦ elim (ℕ_discrete count 89) [
          | yes f ↦ next-Ends count left (inr (d, f)) lt
          | no ne ↦
              later-Ends count (suc left) d ne
                (check_from-Ends (suc left) (suc count) (omega (arith, e)) (omega (arith, lt, ne)))
        ]
      ]

-- The check ends: it prints the links once, in a round `suc last` of at most 90, as they are in that
-- round. Some enabled port was down in each round before `last`, and the program waited in each of
-- them; in round `last` either all enabled ports were up, or it was the 90th round in which one was
-- down and it waited 90 times.
pub check_all_ports_link_status-Ends :
    (n mask : ℕ) (up : ℕ → ℕ → Bool)
    → (last delays : ℕ) × (check_all_ports_link_status n mask up
        ≡ some (record {
          round = suc last;
          delays = delays;
          shown = print_links mask (up (suc last)) 0 n;
        }))
      × (last < 90)
      × ((j : ℕ) → j < last → ¬ AreUp mask n (up j))
      × ((AreUp mask n (up last) × (delays ≡ last))
          ⊎ (¬ AreUp mask n (up last) × (last ≡ 89) × (delays ≡ 90)))
unfolding check_all_ports_link_status
check_all_ports_link_status-Ends n mask up =
    let v = check_from-Ends mask n up 91 0 refl (omega arith) in
    (
      v.last,
      v.delays,
      v.result,
      v.bound,
      (λ j lt. v.waited j (omega arith) lt),
      elim v.reason [
        | inl (a, d) ↦ inl (a, omega (arith, d))
        | inr (a, l, d) ↦ inr (a, l, omega (arith, d))
      ],
    )
