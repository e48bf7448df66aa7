-- ===== src/Monitor/Online/Room.antt =====
-- The split of the samples into their areas, `cdf_acktime` of HCMonitor/monitor.c.
use hcmonitor.Prelude.{
  ℕ, zero, suc, ◌+◌, ◌^◌, ◌<◌, ◌≤◌, ◌≡◌, refl, ap, ℤ, lt→ltb, truthy, if◌then◌else◌, some, update,
  update_self, update_ne, arith, Bool-cases, inl, inr,
}
use hcmonitor.Floats.{Floats}
use hcmonitor.Monitor.Online.{Areas, grow_areas, place, split}

-- How many of the first `n` samples are of high priority, and how many are not.
unfoldable pub highs : (ℕ → ℤ) → ℕ → ℕ
highs pri zero = 0
highs pri (suc n) = let rest = highs pri n in if truthy (pri n) then rest + 1 else rest

unfoldable pub lows : (ℕ → ℤ) → ℕ → ℕ
lows pri zero = 0
lows pri (suc n) = let rest = lows pri n in if truthy (pri n) then rest else rest + 1

suc_add : (n : ℕ) → n + 1 ≡ suc n
suc_add n = omega arith

pub highs-lows : (pri : ℕ → ℤ) (n : ℕ) → highs pri n + lows pri n ≡ n
unfolding highs lows
highs-lows pri zero = refl
highs-lows pri (suc n) = ground (arith, highs-lows pri n)

-- A sample behind the first `n` does not count among them.
highs-update : (pri : ℕ → ℤ) (n i : ℕ) (v : ℤ) → n ≤ i → highs (update pri i v) n ≡ highs pri n
unfolding highs
highs-update pri zero i v le = refl
highs-update pri (suc n) i v le =
    rw (highs-update pri n i v (omega arith), update_ne pri i n v (λ e. omega arith)) refl

lows-update : (pri : ℕ → ℤ) (n i : ℕ) (v : ℤ) → n ≤ i → lows (update pri i v) n ≡ lows pri n
unfolding lows
lows-update pri zero i v le = refl
lows-update pri (suc n) i v le =
    rw (lows-update pri n i v (omega arith), update_ne pri i n v (λ e. omega arith)) refl

pub highs-snoc :
    (pri : ℕ → ℤ) (n : ℕ) (v : ℤ)
    → highs (update pri n v) (n + 1) ≡ (if truthy v then highs pri n + 1 else highs pri n)
unfolding highs
highs-snoc pri n v = rw (suc_add n, highs-update pri n n v (omega arith), update_self pri n v) refl

pub lows-snoc :
    (pri : ℕ → ℤ) (n : ℕ) (v : ℤ)
    → lows (update pri n v) (n + 1) ≡ (if truthy v then lows pri n else lows pri n + 1)
unfolding lows
lows-snoc pri n v = rw (suc_add n, lows-update pri n n v (omega arith), update_self pri n v) refl

module _ {F : Floats} where
  -- What a split leaves: the counts, within sizes that stay.
  pub record IsSplit (pri : ℕ → ℤ) (n : ℕ) (a b : Areas F) : Type 0 where
    pub high : b.num_high ≡ highs pri n
    pub low : b.num_low ≡ lows pri n
    pub high_size : b.ph_size ≡ a.ph_size
    pub low_size : b.pl_size ≡ a.pl_size

  place-IsSplit :
      (time : ℕ → F.Float) (pri : ℕ → ℤ) (n : ℕ) (a b : Areas F)
      → highs pri (suc n) ≤ a.ph_size
      → lows pri (suc n) ≤ a.pl_size
      → IsSplit pri n a b
      → (b' : Areas F) × (place (time n) (pri n) b ≡ some b') × IsSplit pri (suc n) a b'
  unfolding place highs lows
  place-IsSplit time pri n a b fh fl s = elim (Bool-cases (truthy (pri n))) [
    | inl e ↦
        let fits : b.num_high < b.ph_size = omega (arith, (rw e at fh), s.high, s.high_size) in
        (
          record b {
            ack_pri_high = update b.ack_pri_high b.num_high (time n);
            num_high = b.num_high + 1;
          },
          rw (e, lt→ltb _ _ fits) refl,
          record {
            high = rw e (ap (λ x. x + 1) s.high);
            low = rw e s.low;
            high_size = s.high_size;
            low_size = s.low_size;
          },
        )
    | inr e ↦
        let fits : b.num_low < b.pl_size = omega (arith, (rw e at fl), s.low, s.low_size) in
        (
          record b {
            ack_pri_low = update b.ack_pri_low b.num_low (time n);
            num_low = b.num_low + 1;
          },
          rw (e, lt→ltb _ _ fits) refl,
          record {
            high = rw e s.high;
            low = rw e (ap (λ x. x + 1) s.low);
            high_size = s.high_size;
            low_size = s.low_size;
          },
        )
  ]

  pub split-IsSplit :
      (time : ℕ → F.Float) (pri : ℕ → ℤ) (n : ℕ) (a : Areas F)
      → a.num_high ≡ 0
      → a.num_low ≡ 0
      → highs pri n ≤ a.ph_size
      → lows pri n ≤ a.pl_size
      → (b : Areas F) × (split time pri n a ≡ some b) × IsSplit pri n a b
  unfolding split highs lows
  split-IsSplit time pri zero a zh zl fh fl =
      (a, refl, record { high = zh; low = zl; high_size = refl; low_size = refl })
  split-IsSplit time pri (suc n) a zh zl fh fl =
      let (b, e, s) = split-IsSplit time pri n a zh zl (ground arith) (ground arith) in
      let (b', e', s') = place-IsSplit time pri n a b fh fl s in (b', rw (e, split) e', s')

  pub grow_areas-fits :
      (high low : ℕ) (a : Areas F)
      → high + 1 < 2 ^ 32
      → low + 1 < 2 ^ 32
      → (high ≤ (grow_areas high low a).ph_size) × (low ≤ (grow_areas high low a).pl_size)
  unfolding grow_areas
  grow_areas-fits high low a h l = ground arith
