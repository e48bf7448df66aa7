-- ===== src/Ring.antt =====
-- The rings between the cores: `struct ssd_queue` of HCMonitor/main.c and `struct pr_queue` of
-- HCMonitor/rx_queue.h. A producer writes the slot at `occupy` and moves it on; a consumer reads
-- the slot at `deque` and moves that on. Both indices are unsigned longs, taken modulo a size.
pub mod Laws
pub mod Growth
use hcmonitor.Prelude.{
  ℕ, zero, suc, ◌+◌, ◌-◌, ◌%◌, ◌^◌, ◌<◌, ◌≤◌, Bool, not, ◌==◌, ltb, if◌then◌else◌, List, [], ◌∷◌,
  update,
}

pub record Ring {ℓ} (A : Type ℓ) : Type ℓ where
  pub slots : ℕ → A
  pub occupy : ℕ
  pub deque : ℕ

-- `(i + 1) % size` on unsigned longs.
unfoldable pub next : ℕ → ℕ → ℕ
next size i = (i + 1) % 2 ^ 64 % size

module _ {ℓ} {A : Type ℓ} where
  -- `(occupy + 1) % size != deque`
  unfoldable pub has_room : ℕ → Ring A → Bool
  has_room size r = not (next size r.occupy == r.deque)

  -- `occupy != deque`
  unfoldable pub has_item : Ring A → Bool
  has_item r = not (r.occupy == r.deque)

  -- The producer fills its slot and moves on.
  unfoldable pub put : ℕ → A → Ring A → Ring A
  put size x r = record r { slots = update r.slots r.occupy x; occupy = next size r.occupy }

  -- The consumer is done with its slot.
  unfoldable pub advance : ℕ → Ring A → Ring A
  advance size r = record r { deque = next size r.deque }

  -- The slots between the indices, the oldest first: `n` of them from index `d`.
  pub window : ℕ → (ℕ → A) → ℕ → ℕ → List A
  window size s d zero = []
  window size s d (suc n) = s d ∷ window size s (next size d) n

  -- How many items the ring holds.
  unfoldable pub held : ℕ → Ring A → ℕ
  held size r = if ltb r.occupy r.deque then r.occupy + size - r.deque else r.occupy - r.deque

  unfoldable pub contents : ℕ → Ring A → List A
  unfolding window
  contents size r = window size r.slots r.deque (held size r)

  -- Both indices are in range, and their sums do not wrap.
  pub record IsValid (size : ℕ) (r : Ring A) : Type 0 where
    pub small : size ≤ 2 ^ 63
    pub occupy_in : r.occupy < size
    pub deque_in : r.deque < size
