-- ===== src/Widths/Exist.antt =====
-- The group of a network, as `exist` finds it.
use native.Mathlib.Decide.{ℕ_discrete}
use hcmonitor.Prelude.{
  ℕ, zero, suc, ◌+◌, ◌<◌, ◌≤◌, ◌≡◌, ◌≢◌, refl, sym, ◌∙◌, ◌==◌, some, none, List, [], ◌∷◌, ◌++◌,
  arith, Bool-cases, inl, inr,
}
use hcmonitor.Widths.{TimeVal, IpGroups, net, exist_from, exist}

-- The time stamps of a group, the oldest first: cells 1 to `len`.
unfoldable pub stamps : (ℕ → TimeVal) → ℕ → List TimeVal
stamps ts zero = []
stamps ts (suc n) = stamps ts n ++ ts (suc n) ∷ []

pub none-some : {A : Type 0} (a : A) → none ≡ some a → ⊥
none-some a e = cc

-- What the groups hold for a network.
unfoldable pub view : IpGroups → ℕ → List TimeVal
view g addr = elim (exist g addr) [ none ↦ [] | some i ↦ stamps (g.bursts i).ts (g.bursts i).len ]

-- Fewer than ten groups, one to a network; a group that is not in use is empty.
pub record IsGrouped (g : IpGroups) : Type 0 where
  pub few : g.len < 10
  pub apart : (i j : ℕ) → i < j → j < g.len → net (g.src_ip i) ≢ net (g.src_ip j)
  pub free : (i : ℕ) → g.len ≤ i → (g.bursts i).len ≡ 0

-- The group that `exist_from` finds.
pub exist_from_found :
    (rounds i : ℕ) (src_ip : ℕ → ℕ) (addr h : ℕ)
    → exist_from rounds i src_ip addr ≡ some h
    → (i ≤ h) × (h < i + rounds) × (net (src_ip h) ≡ net addr)
unfolding exist_from
exist_from_found zero i src_ip addr h e = cc
exist_from_found (suc rounds) i src_ip addr h e =
    ground (arith, exist_from_found rounds (i + 1) src_ip addr h)

pub exist_from-none :
    (rounds i : ℕ) (src_ip : ℕ → ℕ) (addr h : ℕ)
    → exist_from rounds i src_ip addr ≡ none
    → i ≤ h
    → h < i + rounds
    → net (src_ip h) ≢ net addr
unfolding exist_from
exist_from-none zero i src_ip addr h e l u = absurd (omega arith)
exist_from-none (suc rounds) i src_ip addr h e l u =
    elim (Bool-cases (net (src_ip i) == net addr)) [
      | inl q ↦ absurd (none-some i (sym (rw q at e)))
      | inr q ↦ elim (ℕ_discrete i h) [
        | yes same ↦ λ f. ground (arith, q, same, f)
        | no ne ↦
            exist_from-none rounds (i + 1) src_ip addr h (rw q at e) (omega (arith, ne))
              (omega arith)
      ]
    ]

-- With distinct networks, the group of the network is the one that is found.
pub exist_from_at :
    (rounds i : ℕ) (src_ip : ℕ → ℕ) (addr h : ℕ)
    → ((j : ℕ) → i ≤ j → j < h → net (src_ip j) ≢ net addr)
    → i ≤ h
    → h < i + rounds
    → net (src_ip h) ≡ net addr
    → exist_from rounds i src_ip addr ≡ some h
unfolding exist_from
exist_from_at zero i src_ip addr h before l u e = absurd (omega arith)
exist_from_at (suc rounds) i src_ip addr h before l u e = elim (ℕ_discrete i h) [
  | yes same ↦ ground (arith, same, e)
  | no ne ↦
      let rest =
        exist_from_at rounds (i + 1) src_ip addr h (λ j jl ju. before j (omega (arith, jl)) ju)
          (omega (arith, ne)) (omega arith) e in
      ground (arith, before i (omega arith) (omega (arith, ne)), rest)
]

pub exist_from_absent :
    (rounds i : ℕ) (src_ip : ℕ → ℕ) (addr : ℕ)
    → ((j : ℕ) → i ≤ j → j < i + rounds → net (src_ip j) ≢ net addr)
    → exist_from rounds i src_ip addr ≡ none
unfolding exist_from
exist_from_absent zero i src_ip addr absent = refl
exist_from_absent (suc rounds) i src_ip addr absent =
    let rest =
      exist_from_absent rounds (i + 1) src_ip addr
        (λ j jl ju. absent j (omega (arith, jl)) (omega (arith, ju))) in
    ground (arith, absent i (omega arith) (omega arith), rest)

module _ (g : IpGroups) (v : IsGrouped g) (a : ℕ) where
  pub exist-some : (h : ℕ) → h < g.len → net (g.src_ip h) ≡ net a → exist g a ≡ some h
  unfolding exist
  exist-some h lt e =
      exist_from_at g.len 0 g.src_ip a h (λ j jl ju f. v.apart j h ju lt (f ∙ sym e)) (omega arith)
        (omega arith) e

  pub exist-none : ((h : ℕ) → h < g.len → net (g.src_ip h) ≢ net a) → exist g a ≡ none
  unfolding exist
  exist-none absent = exist_from_absent g.len 0 g.src_ip a (λ j jl ju. absent j (omega arith))

pub exist-found :
    (g : IpGroups) (a h : ℕ) → exist g a ≡ some h → (h < g.len) × (net (g.src_ip h) ≡ net a)
unfolding exist
exist-found g a h e = let r = exist_from_found g.len 0 g.src_ip a h e in (omega (arith, r.1), r.2)

pub exist-absent :
    (g : IpGroups) (a h : ℕ) → exist g a ≡ none → h < g.len → net (g.src_ip h) ≢ net a
unfolding exist
exist-absent g a h e lt = exist_from-none g.len 0 g.src_ip a h e (omega arith) (omega arith)

-- The view of a network with a group, and of one without.
pub view-some :
    (g : IpGroups) (a h : ℕ)
    → exist g a ≡ some h
    → view g a ≡ stamps (g.bursts h).ts (g.bursts h).len
unfolding view
view-some g a h e = rw (e, view)

pub view-none : (g : IpGroups) (a : ℕ) → exist g a ≡ none → view g a ≡ []
unfolding view
view-none g a e = rw (e, view)
