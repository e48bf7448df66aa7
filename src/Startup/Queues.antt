-- ===== src/Startup/Queues.antt =====
-- The queues that `main` launches the cores with.
use hcmonitor.Prelude.{
  ℕ, zero, suc, ◌+◌, ◌/◌, ◌%◌, ◌^◌, ◌<◌, ◌≤◌, ◌≡◌, refl, sym, ap, ◌∙◌, arith, pos, ℤ-cases, Option,
  some, none, Option-cases, List, set, replicate, length, get_elem?, get_elem?-set_self,
  get_elem?-set_ne, ltb, Bool-cases, ℕ_discrete, inl, inr,
}
use mathlib.Core.Path.{subst}
use mathlib.Core.Option.{some-injective}
use hcmonitor.Config.{Mconfig}
use hcmonitor.Node.{NodeData}
use hcmonitor.Queue.{PrQueue}
use hcmonitor.Queue.Init.{bufsize, max_que_num, new_queue, init_loop, init_queue}

-- An entry before the one that the loop is at stays.
init_loop-before :
    (rounds i size : ℕ) (garbage : ℕ → NodeData) (que end : List (Option PrQueue)) (j : ℕ)
    → init_loop rounds i size garbage que ≡ some end
    → j < i
    → get_elem? end j ≡ get_elem? que j
unfolding init_loop
init_loop-before zero i size garbage que end j e lt = let same : que ≡ end = cc in rw same refl
init_loop-before (suc rounds) i size garbage que end j e lt =
    elim (Bool-cases (ltb i (length que))) [
      | inl b ↦
          let q = some (new_queue size garbage) in
          init_loop-before rounds (i + 1) size garbage (set que i q) end j (rw (b, init_loop) at e)
            (omega (arith, lt))
          ∙ get_elem?-set_ne que i j q (λ f. omega (arith, lt, f))
      | inr b ↦ absurd (ground (arith, e, b))
    ]

-- Those that it comes by are new queues.
init_loop-new :
    (rounds i size : ℕ) (garbage : ℕ → NodeData) (que end : List (Option PrQueue)) (j : ℕ)
    → init_loop rounds i size garbage que ≡ some end
    → i ≤ j
    → j < i + rounds
    → get_elem? end j ≡ some (some (new_queue size garbage))
unfolding init_loop
init_loop-new zero i size garbage que end j e le lt = absurd (omega (arith, le, lt))
init_loop-new (suc rounds) i size garbage que end j e le lt =
    elim (Bool-cases (ltb i (length que))) [
      | inl b ↦
          let q = some (new_queue size garbage) in
          let rest = rw (b, init_loop) at e in
          elim (ℕ_discrete i j) [
            | yes f ↦
                subst (λ k. get_elem? end k ≡ some q) f
                  (init_loop-before rounds (i + 1) size garbage (set que i q) end i rest
                      (omega arith)
                    ∙ get_elem?-set_self que i q (ground (arith, b)))
            | no ne ↦
                init_loop-new rounds (i + 1) size garbage (set que i q) end j rest
                  (omega (arith, le, ne)) (omega (arith, lt))
          ]
      | inr b ↦ absurd (ground (arith, e, b))
    ]

-- What `init_queue` leaves.
pub record Fills (c : Mconfig) (garbage : ℕ → NodeData) (size : ℕ) (que : List (Option PrQueue))
    : Type 0 where
  pub share : (n : ℕ) × (c.rx_que ≡ pos n) × (size ≡ bufsize / n % 2 ^ 32)
  pub fresh : (j : ℕ) → j < max_que_num → get_elem? que j ≡ some (some (new_queue size garbage))

pub init_queue-Fills :
    (c : Mconfig) (garbage : ℕ → NodeData) (size : ℕ) (que : List (Option PrQueue))
    → init_queue c garbage ≡ some (size, que)
    → Fills c garbage size que
unfolding init_queue
init_queue-Fills c garbage size que e = elim (ℤ-cases c.rx_que) [
  | inr (n, f) ↦ absurd (ground (arith, rw f at e))
  | inl (n, f) ↦
      let share = bufsize / n % 2 ^ 32 in
      elim (Bool-cases (ltb 0 n)) [
        | inr b ↦ absurd (ground (arith, rw (f, b) at e))
        | inl b ↦ elim (Option-cases (init_loop max_que_num 0 share garbage (replicate n none))) [
          | inl out ↦ absurd (ground (arith, rw (f, b, out, init_queue) at e))
          | inr (end, done) ↦
              let made = some-injective _ _ (rw (f, b, done, init_queue) at e) in
              let same : share ≡ size = ap (λ p. p.0) made in
              let whole : end ≡ que = ap (λ p. p.1) made in
              record {
                share = (n, f, sym same);
                fresh = λ j lt.
                    rw (← whole, ← same)
                      (init_loop-new max_que_num 0 share garbage (replicate n none) end j done
                        (omega arith) (omega (arith, lt)));
              }
        ]
      ]
]
