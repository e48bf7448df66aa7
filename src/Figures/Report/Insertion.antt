-- ===== src/Figures/Report/Insertion.antt =====
-- A sort for the tests to run the report with, and that it is one.
use native.Mathlib.Decide.{ℕ_discrete}
use hcmonitor.Prelude.{
  ℕ, zero, suc, ◌+◌, ◌<◌, ◌≤◌, ◌≡◌, refl, ◌∙◌, arith, ℤ, pos, negsuc, ltb_ℤ, if◌then◌else◌, Bool,
  true, false, update, update_self, update_ne, Bool-cases, inl, inr,
}
use hcmonitor.Floats.Fixed.{fixed}
use hcmonitor.Figures.Histogram.{tally}
use hcmonitor.Figures.Report.Rank.{Sorts}

-- `x` goes behind those of the first `n` that are not above it.
unfoldable pub insert_at : ℕ → (ℕ → ℤ) → ℤ → ℕ → ℤ
insert_at zero b x = update b 0 x
insert_at (suc n) b x =
    let rest = insert_at n (update b (suc n) (b n)) x in
    if ltb_ℤ x (b n) then rest else update b (suc n) x

unfoldable pub insertion : (ℕ → ℤ) → ℕ → ℕ → ℤ
insertion a zero = a
insertion a (suc n) = insert_at n (insertion a n) (a n)

insert_at_above : (n : ℕ) (b : ℕ → ℤ) (x : ℤ) (j : ℕ) → n < j → insert_at n b x j ≡ b j
unfolding insert_at
insert_at_above zero b x j lt = update_ne b 0 j x (λ e. omega (arith, e, lt))
insert_at_above (suc n) b x j lt = elim (Bool-cases (ltb_ℤ x (b n))) [
  | inr no_more ↦ rw no_more (update_ne b (suc n) j x (λ e. omega (arith, e, lt)))
  | inl more ↦ rw more (
      insert_at_above n (update b (suc n) (b n)) x j (omega (arith, lt))
      ∙ update_ne b (suc n) j (b n) (λ e. omega (arith, e, lt)))
]

tally-update :
    (n i : ℕ) (b : ℕ → ℤ) (v : ℤ) (p : ℤ → Bool)
    → n ≤ i
    → tally n (λ k. p (update b i v k)) ≡ tally n (λ k. p (b k))
unfolding tally
tally-update zero i b v p le = refl
tally-update (suc n) i b v p le =
    let here = update_ne b i n v (λ e. omega (arith, e, le)) in
    rw (here, tally-update n i b v p (omega (arith, le))) refl

tally-insert_at :
    (n : ℕ) (b : ℕ → ℤ) (x : ℤ) (p : ℤ → Bool)
    → tally (suc n) (λ k. p (insert_at n b x k)) ≡ tally n (λ k. p (b k)) + (if p x then 1 else 0)
unfolding tally insert_at
tally-insert_at zero b x p = rw (update_self b 0 x) refl
tally-insert_at (suc n) b x p = elim (Bool-cases (ltb_ℤ x (b n))) [
  | inr no_more ↦ rw no_more (
      rw (update_self b (suc n) x)
        (omega (arith, tally-update (suc n) (suc n) b x p (omega arith))))
  | inl more ↦
      let c = update b (suc n) (b n) in
      let top = insert_at_above n c x (suc n) (omega arith) ∙ update_self b (suc n) (b n) in
      let ih = tally-insert_at n c x p in
      let low = tally-update n (suc n) b (b n) p (omega arith) in
      rw more (rw top (omega (arith, ih, low)))
]

-- `x` is not above `y`.
abbrev AtMost : ℤ → ℤ → Type 0
AtMost x y = ltb_ℤ y x ≡ false

AtMost-trans : (x y z : ℤ) → AtMost x y → AtMost y z → AtMost x z
AtMost-trans (pos x) (pos y) (pos z) e f = ground (arith, e, f)
AtMost-trans (pos x) (pos y) (negsuc z) e f = ground (arith, e, f)
AtMost-trans (pos x) (negsuc y) z e f = ground (arith, e, f)
AtMost-trans (negsuc x) y (pos z) e f = ground arith
AtMost-trans (negsuc x) (pos y) (negsuc z) e f = ground (arith, e, f)
AtMost-trans (negsuc x) (negsuc y) (negsuc z) e f = ground (arith, e, f)

AtMost-refl : (x : ℤ) → AtMost x x
AtMost-refl (pos x) = ground arith
AtMost-refl (negsuc x) = ground arith

AtMost-of_lt : (x y : ℤ) → ltb_ℤ x y ≡ true → AtMost x y
AtMost-of_lt (pos x) (pos y) e = ground (arith, e)
AtMost-of_lt (pos x) (negsuc y) e = ground (arith, e)
AtMost-of_lt (negsuc x) (pos y) e = ground arith
AtMost-of_lt (negsuc x) (negsuc y) e = ground (arith, e)

-- The first `n` ascend.
abbrev Ascend : ℕ → (ℕ → ℤ) → Type 0
Ascend n b = (i k : ℕ) → i ≤ k → k < n → AtMost (b i) (b k)

insert_at-AtMost :
    (n : ℕ) (b : ℕ → ℤ) (x m : ℤ)
    → AtMost x m
    → ((k : ℕ) → k < n → AtMost (b k) m)
    → (k : ℕ) → k < suc n
    → AtMost (insert_at n b x k) m
unfolding insert_at
insert_at-AtMost zero b x m le all k lt =
    let e : 0 ≡ k = omega (arith, lt) in rw (← e) (rw (update_self b 0 x) le)
insert_at-AtMost (suc n) b x m le all k lt = elim (Bool-cases (ltb_ℤ x (b n))) [
  | inr no_more ↦ rw no_more (elim (ℕ_discrete (suc n) k) [
    | yes e ↦ rw (← e) (rw (update_self b (suc n) x) le)
    | no ne ↦ rw (update_ne b (suc n) k x ne) (all k (omega (arith, lt, ne)))
  ])
  | inl more ↦
      let c = update b (suc n) (b n) in
      rw more (elim (ℕ_discrete (suc n) k) [
        | yes e ↦ rw (← e) (
            rw (insert_at_above n c x (suc n) (omega arith) ∙ update_self b (suc n) (b n))
              (all n (omega arith)))
        | no ne ↦
            insert_at-AtMost n c x m le
              (λ j k.
                rw (update_ne b (suc n) j (b n) (λ e. omega (arith, e, k)))
                  (all j (omega (arith, k))))
              k (omega (arith, lt, ne))
      ])
]

insert_at-Ascend : (n : ℕ) (b : ℕ → ℤ) (x : ℤ) → Ascend n b → Ascend (suc n) (insert_at n b x)
unfolding insert_at
insert_at-Ascend zero b x asc i k le lt =
    let e : i ≡ k = omega (arith, le, lt) in rw e (AtMost-refl (update b 0 x k))
insert_at-Ascend (suc n) b x asc i k le lt = elim (Bool-cases (ltb_ℤ x (b n))) [
  | inr no_more ↦
      let kept =
        λ (j : ℕ) (few : j < suc n). update_ne b (suc n) j x (λ e. omega (arith, e, few)) in
      rw no_more (elim (ℕ_discrete (suc n) k) [
        | no ne ↦
            let few : k < suc n = omega (arith, lt, ne) in
            rw (kept k few, kept i (omega (arith, le, few))) (asc i k le few)
        | yes e ↦ rw (← e) (
            rw (update_self b (suc n) x) (elim (ℕ_discrete (suc n) i) [
              | yes f ↦ rw (← f) (rw (update_self b (suc n) x) (AtMost-refl x))
              | no ne ↦
                  let few : i < suc n = omega (arith, le, e, ne) in
                  rw (kept i few) (
                    AtMost-trans (b i) (b n) x (asc i n (omega (arith, few)) (omega arith)) no_more)
            ]))
      ])
  | inl more ↦
      let c = update b (suc n) (b n) in
      let kept =
        λ (j : ℕ) (few : j < suc n). update_ne b (suc n) j (b n) (λ e. omega (arith, e, few)) in
      let top = insert_at_above n c x (suc n) (omega arith) ∙ update_self b (suc n) (b n) in
      let low = insert_at-Ascend n c x (λ j l u v.
        rw (kept j (omega (arith, u, v)), kept l (omega (arith, v)))
          (asc j l u (omega (arith, v)))) in
      rw more (elim (ℕ_discrete (suc n) k) [
        | no ne ↦ low i k le (omega (arith, lt, ne))
        | yes e ↦ rw (← e) (
            rw top (elim (ℕ_discrete (suc n) i) [
              | yes f ↦ rw (← f) (rw top (AtMost-refl (b n)))
              | no ne ↦
                  insert_at-AtMost n c x (b n) (AtMost-of_lt x (b n) more)
                    (λ j v.
                      rw (kept j (omega (arith, v))) (asc j n (omega (arith, v)) (omega arith)))
                    i (omega (arith, le, e, ne))
            ]))
      ])
]

insertion-Ascend : (n : ℕ) (a : ℕ → ℤ) → Ascend n (insertion a n)
unfolding insertion
insertion-Ascend zero a i k le lt = absurd (omega (arith, lt))
insertion-Ascend (suc n) a i k le lt =
    insert_at-Ascend n (insertion a n) (a n) (insertion-Ascend n a) i k le lt

tally-insertion :
    (n : ℕ) (a : ℕ → ℤ) (p : ℤ → Bool) → tally n (λ k. p (insertion a n k)) ≡ tally n (λ k. p (a k))
unfolding insertion tally
tally-insertion zero a p = refl
tally-insertion (suc n) a p =
    tally-insert_at n (insertion a n) (a n) p ∙ omega (arith, tally-insertion n a p)

pub insertion-Sorts : Sorts fixed insertion
insertion-Sorts = record {
  rearranges = λ a n p _. tally-insertion n a p;
  ascends = λ a n i k _ le lt. insertion-Ascend n a i k le lt;
}
