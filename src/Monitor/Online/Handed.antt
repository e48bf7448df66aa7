-- ===== src/Monitor/Online/Handed.antt =====
-- What `cdf_acktime` of HCMonitor/monitor.c puts into the areas of the two priorities, from a list of
-- samples that the arrays hold.
use hcmonitor.Prelude.{
  ℕ, zero, suc, ◌+◌, ◌<◌, ◌≡◌, ◌⊎◌, refl, sym, ap, ◌∙◌, ℤ, pos, ltb, truthy, if◌then◌else◌, update,
  update_self, update_ne, arith, Bool, true, false, Bool-cases, inl, inr, some, Option-cases, List,
  [], ◌∷◌, ◌++◌, length, length-append, get_elem?,
}
use mathlib.Core.Option.{some-injective}
use mathlib.Core.List.{append-nil}
use hcmonitor.Config.{Mconfig}
use hcmonitor.Hash.{RteHash}
use hcmonitor.Monitor.{Monitor}
use hcmonitor.Floats.{Floats}
use hcmonitor.Monitor.Online.{Areas, grow_areas, place, split, split_by_pri}

abbrev pub flag : Bool → ℤ
flag high = if high then pos 1 else pos 0

-- An entry of a list with one more is one of the list, or the one behind it.
pub get_elem?-snoc :
    {A : Type 0} (xs : List A) (x y : A) (i : ℕ)
    → get_elem? (xs ++ x ∷ []) i ≡ some y
    → ((get_elem? xs i ≡ some y) × (i < length xs)) ⊎ ((i ≡ length xs) × (x ≡ y))
get_elem?-snoc [] x y zero e = inr (refl, some-injective _ _ e)
get_elem?-snoc [] x y (suc i) e = absurd (ground (arith, e))
get_elem?-snoc (z ∷ xs) x y zero e = inl (e, omega arith)
get_elem?-snoc (z ∷ xs) x y (suc i) e = elim (get_elem?-snoc xs x y i e) [
  | inl (f, lt) ↦ inl (f, omega (arith, lt))
  | inr (f, same) ↦ inr (ap suc f, same)
]

get_elem?-init :
    {A : Type 0} (xs : List A) (x : A) (i : ℕ) (y : A)
    → get_elem? xs i ≡ some y
    → get_elem? (xs ++ x ∷ []) i ≡ some y
get_elem?-init [] x i y e = absurd (ground (arith, e))
get_elem?-init (z ∷ xs) x zero y e = e
get_elem?-init (z ∷ xs) x (suc i) y e = get_elem?-init xs x i y e

get_elem?-last : {A : Type 0} (xs : List A) (x : A) → get_elem? (xs ++ x ∷ []) (length xs) ≡ some x
get_elem?-last [] x = refl
get_elem?-last (z ∷ xs) x = get_elem?-last xs x

-- A list that is not empty ends with an entry.
init_last : {A : Type 0} (z : A) (zs : List A) → (xs : List A) × (x : A) × (z ∷ zs ≡ xs ++ x ∷ [])
init_last z [] = ([], z, refl)
init_last z (y ∷ zs) = let (xs, x, e) = init_last y zs in (z ∷ xs, x, ap (λ (l : List _). z ∷ l) e)

module _ {A : Type 0} where
  -- The samples of a priority, in their order.
  unfoldable pub picks : Bool → List (A × Bool) → List A
  picks true [] = []
  picks false [] = []
  picks true ((a, true) ∷ xs) = a ∷ picks true xs
  picks true ((a, false) ∷ xs) = picks true xs
  picks false ((a, true) ∷ xs) = picks false xs
  picks false ((a, false) ∷ xs) = a ∷ picks false xs

  picks-snoc :
      (high : Bool) (xs : List (A × Bool)) (x : A × Bool)
      → picks high (xs ++ x ∷ []) ≡ picks high xs ++ picks high (x ∷ [])
  unfolding picks
  picks-snoc true [] x = refl
  picks-snoc true ((a, true) ∷ xs) x = ap (λ (l : List A). a ∷ l) (picks-snoc true xs x)
  picks-snoc true ((a, false) ∷ xs) x = picks-snoc true xs x
  picks-snoc false [] x = refl
  picks-snoc false ((a, true) ∷ xs) x = picks-snoc false xs x
  picks-snoc false ((a, false) ∷ xs) x = ap (λ (l : List A). a ∷ l) (picks-snoc false xs x)

  -- The first `n` entries of an array are those of a list.
  pub record IsFilled (area : ℕ → A) (n : ℕ) (xs : List A) : Type 0 where
    pub count : n ≡ length xs
    pub there : (i : ℕ) (x : A) → get_elem? xs i ≡ some x → area i ≡ x

  IsFilled-nil : (area : ℕ → A) → IsFilled area 0 []
  IsFilled-nil area = record { count = refl; there = λ i x e. absurd (ground (arith, e)) }

  IsFilled-snoc :
      (area : ℕ → A) (n : ℕ) (xs : List A) (x : A)
      → IsFilled area n xs
      → IsFilled (update area n x) (n + 1) (xs ++ x ∷ [])
  IsFilled-snoc area n xs x v = record {
    count = omega (arith, v.count, length-append xs (x ∷ []));
    there = λ i y e. elim (get_elem?-snoc xs x y i e) [
      | inl (f, lt) ↦
          update_ne area n i x (λ same. omega (arith, same, lt, v.count)) ∙ v.there i y f
      | inr (f, same) ↦ let at : n ≡ i = v.count ∙ sym f in rw (← at) (update_self area n x ∙ same)
    ];
  }

module _ {F : Floats} where
  -- The areas hold the samples by their priority.
  pub record IsHanded (xs : List (F.Float × Bool)) (a : Areas F) : Type 0 where
    pub high : IsFilled a.ack_pri_high a.num_high (picks true xs)
    pub low : IsFilled a.ack_pri_low a.num_low (picks false xs)

  place-IsHanded :
      (xs : List (F.Float × Bool)) (time : F.Float) (high : Bool) (a b : Areas F)
      → IsHanded xs a
      → place time (flag high) a ≡ some b
      → IsHanded (xs ++ (time, high) ∷ []) b
  unfolding place picks
  place-IsHanded xs time true a b v e = elim (Bool-cases (ltb a.num_high a.ph_size)) [
    | inr f ↦ absurd (ground (arith, rw (f, place) at e))
    | inl f ↦ rw (← (some-injective _ _ (rw (f, place) at e))) (record {
      high =
          rw (picks-snoc true xs (time, true))
            (IsFilled-snoc a.ack_pri_high a.num_high (picks true xs) time v.high);
      low = rw (picks-snoc false xs (time, true), append-nil (picks false xs)) v.low;
    })
  ]
  place-IsHanded xs time false a b v e = elim (Bool-cases (ltb a.num_low a.pl_size)) [
    | inr f ↦ absurd (ground (arith, rw (f, place) at e))
    | inl f ↦ rw (← (some-injective _ _ (rw (f, place) at e))) (record {
      high = rw (picks-snoc true xs (time, false), append-nil (picks true xs)) v.high;
      low =
          rw (picks-snoc false xs (time, false))
            (IsFilled-snoc a.ack_pri_low a.num_low (picks false xs) time v.low);
    })
  ]

  split-IsHanded :
      (n : ℕ) (time : ℕ → F.Float) (pri : ℕ → ℤ) (xs : List (F.Float × Bool)) (a b : Areas F)
      → n ≡ length xs
      → ((i : ℕ) (x : F.Float × Bool)
          → get_elem? xs i ≡ some x
          → (time i ≡ x.0) × (pri i ≡ flag x.1))
      → a.num_high ≡ 0
      → a.num_low ≡ 0
      → split time pri n a ≡ some b
      → IsHanded xs b
  unfolding split picks
  split-IsHanded zero time pri [] a b count there zh zl e = rw (← (some-injective _ _ e)) (record {
    high = rw zh (IsFilled-nil a.ack_pri_high);
    low = rw zl (IsFilled-nil a.ack_pri_low);
  })
  split-IsHanded zero time pri (x ∷ xs) a b count there zh zl e = absurd (omega (arith, count))
  split-IsHanded (suc n) time pri [] a b count there zh zl e = absurd (omega (arith, count))
  split-IsHanded (suc n) time pri (z ∷ zs) a b count there zh zl e =
      elim (Option-cases (split time pri n a)) [
        | inl f ↦ absurd (ground (arith, rw (f, split) at e))
        | inr (u, f) ↦
            let (xs, x, same) = init_last z zs in
            let short : n ≡ length xs =
              omega (arith, count, ap length same, length-append xs (x ∷ [])) in
            let at = λ (i : ℕ) (y : F.Float × Bool) (g : get_elem? (xs ++ x ∷ []) i ≡ some y).
              there i y (rw same g) in
            let last = at n x (rw short (get_elem?-last xs x)) in
            let w =
              split-IsHanded n time pri xs a u short (λ i y g. at i y (get_elem?-init xs x i y g))
                zh zl f in
            rw same (place-IsHanded xs x.0 x.1 u b w (rw (last.0, last.1) at (rw (f, split) at e)))
      ]

  -- What is handed over with enable_pri set.
  pub split_by_pri-IsHanded :
      {h : RteHash} (c : Mconfig) (n : ℕ) (m : Monitor F h) (xs : List (F.Float × Bool))
      (a b : Areas F)
      → truthy c.enable_pri ≡ true
      → n ≡ length xs
      → ((i : ℕ) (x : F.Float × Bool)
          → get_elem? xs i ≡ some x
          → (m.time i ≡ x.0) × (m.pri i ≡ flag x.1))
      → split_by_pri c n m a ≡ some b
      → IsHanded xs b
  unfolding split_by_pri grow_areas
  split_by_pri-IsHanded c n m xs a b on count there e =
      split-IsHanded n m.time m.pri xs (grow_areas m.idx_pri_high m.idx_pri_low a) b count there
        refl refl (rw (on, split_by_pri) at e)
