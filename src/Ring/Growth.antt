-- ===== src/Ring/Growth.antt =====
-- A ring whose size grows while its indices stay.
use hcmonitor.Prelude.{ℕ, zero, suc, ◌+◌, ◌^◌, ◌≤◌, ◌<◌, ◌≡◌, refl, ap, ◌∷◌, arith, ge→ltb}
use hcmonitor.Ring.{next, window, held, contents}
use hcmonitor.Ring.Laws.{next_cases}

module _ {ℓ} {A : Type ℓ} (s : ℕ → A) (size size' : ℕ) where
  -- A window that does not reach the end reads the same under a greater size.
  window-grow :
      (n d : ℕ)
      → size ≤ size'
      → size' ≤ 2 ^ 63
      → d + n < size
      → window size s d n ≡ window size' s d n
  unfolding window
  window-grow zero d le small h = refl
  window-grow (suc n) d le small h =
      let e : next size d ≡ suc d = omega (arith, next_cases size d (omega arith) (omega arith)) in
      let e' : next size' d ≡ suc d =
        omega (arith, next_cases size' d (omega arith) (omega arith)) in
      rw (e, e') (ap (◌∷◌ (s d)) (window-grow n (suc d) le small (omega arith)))

  -- So a ring whose items do not run over the end keeps them.
  pub contents-grow :
      (occupy deque : ℕ)
      → deque ≤ occupy
      → occupy < size
      → size ≤ size'
      → size' ≤ 2 ^ 63
      → contents size (record { slots = s; occupy = occupy; deque = deque })
        ≡ contents size' (record { slots = s; occupy = occupy; deque = deque })
  unfolding contents held
  contents-grow o d le lt grow small = rw (ge→ltb o d le) (window-grow _ d grow small (omega arith))
