-- ===== src/Ring/Laws.antt =====
-- A ring of HCMonitor behaves as the queue of its contents.
use hcmonitor.Prelude.{
  ℕ, zero, suc, ◌+◌, ◌^◌, ◌<◌, ◌≤◌, ◌≡◌, ◌↔◌, ◌≢◌, not, ◌==◌, refl, ap, ap₂, ◌∙◌, ◌⊎◌, inl, inr,
  true, false, [], ◌∷◌, ◌++◌, length, update, update_ne, update_self, arith,
}
use native.Mathlib.Numerals.{add-one}
use hcmonitor.Ring.{Ring, next, has_room, has_item, put, advance, window, held, contents, IsValid}

-- The next index is one on, or 0 at the end.
pub next_cases :
    (size i : ℕ)
    → size ≤ 2 ^ 63
    → i < size
    → ((next size i ≡ i + 1) × (i + 1 < size)) ⊎ ((next size i ≡ 0) × (i + 1 ≡ size))
unfolding next
next_cases size i small h = grind arith

module _ (size : ℕ) (small : size ≤ 2 ^ 63) where
  -- Index `i` is `n` steps on from `h`.
  abbrev IsSteps : ℕ → ℕ → ℕ → Type 0
  IsSteps h n i = (h + n ≡ i) ⊎ (h + n ≡ i + size)

  IsSteps-next :
      (h n i : ℕ)
      → h < size
      → i < size
      → suc n < size
      → IsSteps h (suc n) i
      → (next size h < size) × IsSteps (next size h) n i
  IsSteps-next h n i hh hi hn st = elim (next_cases size h small hh) [
    | inl e ↦ (omega arith, elim st [ inl p ↦ inl (omega arith) | inr p ↦ inr (omega arith) ])
    | inr e ↦ (omega arith, inl (omega arith))
  ]

module _ {ℓ} {A : Type ℓ} (size : ℕ) (small : size ≤ 2 ^ 63) where
  -- A write outside the window leaves it alone.
  window-update :
      (s : ℕ → A) (x : A) (n h i : ℕ)
      → h < size
      → i < size
      → n < size
      → IsSteps size small h n i
      → window size (update s i x) h n ≡ window size s h n
  unfolding window
  window-update s x zero h i hh hi hn st = refl
  window-update s x (suc n) h i hh hi hn st =
      let (hh', st') = IsSteps-next size small h n i hh hi hn st in
      ap₂ ◌∷◌ (update_ne s i h x (omega arith))
        (window-update s x n (next size h) i hh' hi (omega arith) st')

  -- A window one longer ends in the slot that follows it.
  window_snoc :
      (s : ℕ → A) (n h i : ℕ)
      → h < size
      → i < size
      → n < size
      → IsSteps size small h n i
      → window size s h (suc n) ≡ window size s h n ++ s i ∷ []
  unfolding window
  window_snoc s zero h i hh hi hn st = ap (λ j. s j ∷ []) (omega arith)
  window_snoc s (suc n) h i hh hi hn st =
      let (hh', st') = IsSteps-next size small h n i hh hi hn st in
      ap (◌∷◌ (s h)) (window_snoc s n (next size h) i hh' hi (omega arith) st')

module _ {ℓ} {A : Type ℓ} (size : ℕ) where
  length-window : (s : ℕ → A) (n h : ℕ) → length (window size s h n) ≡ n
  unfolding window
  length-window s zero h = refl
  length-window s (suc n) h = ap suc (length-window s n (next size h))

module _ {ℓ} {A : Type ℓ} (size : ℕ) {r : Ring A} (v : IsValid size r) where
  held-IsSteps : IsSteps size v.small r.deque (held size r) r.occupy × (held size r < size)
  unfolding held
  held-IsSteps = ground arith

  pub length-contents : length (contents size r) ≡ held size r
  unfolding contents
  length-contents = length-window size r.slots (held size r) r.deque

  pub put-IsValid : (x : A) → IsValid size (put size x r)
  unfolding put
  put-IsValid x = ground (arith, next_cases size r.occupy v.small v.occupy_in)

  pub advance-IsValid : IsValid size (advance size r)
  unfolding advance
  advance-IsValid = ground (arith, next_cases size r.deque v.small v.deque_in)

  pub held-put : (x : A) → has_room size r ≡ true → held size (put size x r) ≡ held size r + 1
  unfolding held put has_room
  held-put x room = ground (arith, next_cases size r.occupy v.small v.occupy_in)

  -- While there is room, a put appends.
  pub contents-put :
      (x : A) → has_room size r ≡ true → contents size (put size x r) ≡ contents size r ++ x ∷ []
  unfolding contents put
  contents-put x room =
      let (st, fits) = held-IsSteps in
      rw (held-put x room) (
        rw add-one (
          window_snoc size v.small (update r.slots r.occupy x) (held size r) r.deque r.occupy
            v.deque_in v.occupy_in fits st
          ∙ ap₂ (λ w y. w ++ y ∷ [])
              (window-update size v.small r.slots x (held size r) r.deque r.occupy v.deque_in
                v.occupy_in fits st)
              (update_self r.slots r.occupy x)))

  held-advance : has_item r ≡ true → held size r ≡ suc (held size (advance size r))
  unfolding held advance has_item
  held-advance item = ground (arith, next_cases size r.deque v.small v.deque_in)

  -- An item that is there stands at the head, and leaves by `advance`.
  pub contents-advance :
      has_item r ≡ true → contents size r ≡ r.slots r.deque ∷ contents size (advance size r)
  unfolding contents advance
  contents-advance item = rw (held-advance item)

  held-empty : has_item r ≡ false → held size r ≡ 0
  unfolding held has_item
  held-empty item = ground arith

  -- An empty ring has no contents.
  pub contents-empty : has_item r ≡ false → contents size r ≡ []
  unfolding contents
  contents-empty item = rw (held-empty item)

  pub full-held : has_room size r ≡ false → held size r + 1 ≡ size
  unfolding has_room held
  full-held full = ground (arith, next_cases size r.occupy v.small v.occupy_in)

  -- The ring is full when it holds one item less than its size.
  pub has_room-held : (has_room size r ≡ true) ↔ (held size r + 1 < size)
  unfolding has_room held
  has_room-held = ground (arith, next_cases size r.occupy v.small v.occupy_in)

module _ {ℓ} {A : Type ℓ} (size : ℕ) (r : Ring A) where
  -- A ring without room is one step short of its consumer.
  pub full-next : has_room size r ≡ false → next size r.occupy ≡ r.deque
  unfolding has_room
  full-next full = ground arith

  pub has_room_of_next : next size r.occupy ≢ r.deque → has_room size r ≡ true
  unfolding has_room
  has_room_of_next ne = ground arith

  -- A put that reaches the consumer's index leaves a ring that looks empty.
  pub has_item-put_reaches :
      (x : A) → next size r.occupy ≡ r.deque → has_item (put size x r) ≡ false
  unfolding has_item put
  has_item-put_reaches x e = rw e (==_refl' r.deque)
    where
      ==_refl' : (n : ℕ) → not (n == n) ≡ false
      ==_refl' n = ground arith
