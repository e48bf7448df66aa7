-- ===== src/Hash/Model.antt =====
-- An `RteHash` that meets the laws: the keys in the order in which they were added.
use hcmonitor.Prelude.{
  ℕ, zero, suc, ◌<◌, ◌≡◌, ◌↔◌, sym, ap, ◌∙◌, ℤ, pos, negsuc, Bool, true, false, ◌&&◌, ◌==◌, ltb,
  ltb→lt, if◌then◌else◌, List, [], ◌∷◌, ◌++◌, length, Option, some, none, arith, Option-cases,
  Bool-cases, inl, inr, ℤ-cases, ◌⊎◌, ◌≢◌, refl,
}
use hcmonitor.Hash.{RteHash, HashLaws}

unfoldable pub same_key : List ℕ → List ℕ → Bool
same_key [] [] = true
same_key (a ∷ j) (b ∷ k) = (a == b) && same_key j k
same_key _ _ = false

-- The index of the first key that is equal.
unfoldable pub find : List (List ℕ) → List ℕ → Option ℕ
unfolding same_key
find [] k = none
find (j ∷ t) k = elim (same_key j k) [
  | true ↦ some 0
  | false ↦ elim (find t k) [ none ↦ none | some i ↦ some (suc i) ]
]

-- -2 is -ENOENT, -28 is -ENOSPC.
unfoldable pub find_key : ℕ → List (List ℕ) → List ℕ → ℤ
unfolding find
find_key n t k = elim (find t k) [ none ↦ negsuc 1 | some i ↦ if ltb i n then pos i else negsuc 1 ]

unfoldable pub add_key : ℕ → List (List ℕ) → List ℕ → ℤ × List (List ℕ)
unfolding find_key
add_key n t k = elim (find_key n t k) [
  | pos i ↦ (pos i, t)
  | negsuc e ↦ if ltb (length t) n then (pos (length t), t ++ k ∷ []) else (negsuc 27, t)
]

abbrev pub key_list : ℕ → RteHash
key_list n = record { Table = List (List ℕ); empty = []; add_key = add_key n; lookup = find_key n }

pub same_key_iff : (j k : List ℕ) → (same_key j k ≡ true) ↔ (j ≡ k)
unfolding same_key
same_key_iff [] [] = ground arith
same_key_iff [] (b ∷ k) = ground arith
same_key_iff (a ∷ j) [] = ground arith
same_key_iff (a ∷ j) (b ∷ k) = ground (arith, same_key_iff j k)

find-lt : (t : List (List ℕ)) (k : List ℕ) (i : ℕ) → find t k ≡ some i → i < length t
unfolding find
find-lt [] k i e = ground arith
find-lt (j ∷ t) k i e = elim (Bool-cases (same_key j k)) [
  | inl s ↦ ground arith
  | inr s ↦ elim (Option-cases (find t k)) [
    | inl n ↦ ground arith
    | inr (l, f) ↦ ground (arith, find-lt t k l)
  ]
]

find_unique :
    (t : List (List ℕ)) (j k : List ℕ) (i : ℕ) → find t j ≡ some i → find t k ≡ some i → j ≡ k
unfolding find
find_unique [] j k i e f = ground arith
find_unique (l ∷ t) j k zero e f = ground (arith, same_key_iff l j, same_key_iff l k)
find_unique (l ∷ t) j k (suc i) e f =
    ground (arith, find_unique t j k i, same_key_iff l j, same_key_iff l k)

find-append :
    (t : List (List ℕ)) (j k : List ℕ) (i : ℕ) → find t j ≡ some i → find (t ++ k ∷ []) j ≡ some i
unfolding find
find-append [] j k i e = ground arith
find-append (l ∷ t) j k zero e = ground arith
find-append (l ∷ t) j k (suc i) e = ground (arith, find-append t j k i)

find_last :
    (t : List (List ℕ)) (k : List ℕ) → find t k ≡ none → find (t ++ k ∷ []) k ≡ some (length t)
unfolding find
find_last [] k e = ground (arith, same_key_iff k k)
find_last (l ∷ t) k e = ground (arith, find_last t k)

find_other :
    (t : List (List ℕ)) (j k : List ℕ) → j ≢ k → find t j ≡ none → find (t ++ k ∷ []) j ≡ none
unfolding find
find_other [] j k ne e = ground (arith, same_key_iff k j, ne)
find_other (l ∷ t) j k ne e = ground (arith, find_other t j k ne)

find_key_iff :
    (n : ℕ) (t : List (List ℕ)) (k : List ℕ) (p : ℕ)
    → (find_key n t k ≡ pos p) ↔ ((find t k ≡ some p) × (p < n))
unfolding find_key
find_key_iff n t k p = elim (Option-cases (find t k)) [
  | inl e ↦ rw (e, find_key) (ground arith)
  | inr (i, e) ↦ rw (e, find_key) (ground arith)
]

not_found :
    (n : ℕ) (t : List (List ℕ)) (k : List ℕ) {q : ℕ}
    → find_key n t k ≡ negsuc q
    → length t < n
    → find t k ≡ none
not_found n t k e room = elim (Option-cases (find t k)) [
  | inl f ↦ f
  | inr (i, f) ↦
      let g : find_key n t k ≡ pos i =
        (find_key_iff n t k i).1 (f, omega (arith, find-lt t k i f)) in
      cc
]

-- What `add_key` does, by whether the key is there and whether there is room.
add_key_cases :
    (n : ℕ) (t : List (List ℕ)) (k : List ℕ)
    → ((p : ℕ) × (find_key n t k ≡ pos p) × (add_key n t k ≡ (pos p, t)))
      ⊎ (((find t k ≡ none) × (length t < n) × (add_key n t k ≡ (pos (length t), t ++ k ∷ [])))
          ⊎ (add_key n t k ≡ (negsuc 27, t)))
unfolding add_key
add_key_cases n t k = elim (ℤ-cases (find_key n t k)) [
  | inl (p, e) ↦ inl (p, e, rw (e, add_key))
  | inr (q, e) ↦ elim (Bool-cases (ltb (length t) n)) [
    | inl r ↦ inr (inl (not_found n t k e (ltb→lt _ _ r), ltb→lt _ _ r, rw (e, add_key, r)))
    | inr r ↦ inr (inr (rw (e, add_key, r)))
  ]
]

pub pos_injective : {a b : ℕ} → pos a ≡ pos b → a ≡ b
pos_injective e = ground arith

module _ (n : ℕ) where
  lookup_add :
      (t : List (List ℕ)) (k : List ℕ) (p : ℕ)
      → (add_key n t k).0 ≡ pos p
      → find_key n (add_key n t k).1 k ≡ pos p
  lookup_add t k p e = elim (add_key_cases n t k) [
    | inl (q, f, a) ↦ rw a (f ∙ sym (ap (λ r. r.0) a) ∙ e)
    | inr (inl (f, lt, a)) ↦ rw a (
        (find_key_iff n _ k p).1 (
          find_last t k f ∙ ap some (pos_injective (sym (ap (λ r. r.0) a) ∙ e)),
          rw (← pos_injective (sym (ap (λ r. r.0) a) ∙ e)) lt,
        ))
    | inr (inr a) ↦ cc (ap (λ r. r.0) a)
  ]

  add_keeps :
      (t : List (List ℕ)) (k j : List ℕ) (p : ℕ)
      → find_key n t j ≡ pos p
      → find_key n (add_key n t k).1 j ≡ pos p
  add_keeps t k j p e = elim (add_key_cases n t k) [
    | inl (q, f, a) ↦ rw a e
    | inr (inl (f, lt, a)) ↦
        let (g, h) = (find_key_iff n t j p).0 e in
        rw a ((find_key_iff n _ j p).1 (find-append t j k p g, h))
    | inr (inr a) ↦ rw a e
  ]

  add_again :
      (t : List (List ℕ)) (k : List ℕ) (p : ℕ) → find_key n t k ≡ pos p → (add_key n t k).0 ≡ pos p
  unfolding add_key
  add_again t k p e = rw (e, add_key)

  absent_iff :
      (t : List (List ℕ)) (j : List ℕ) (q : ℕ)
      → find_key n t j ≡ negsuc q
      → (find t j ≡ none) ⊎ ((i : ℕ) × (find t j ≡ some i) × (ltb i n ≡ false))
  unfolding find_key
  absent_iff t j q e = elim (Option-cases (find t j)) [
    | inl f ↦ inl f
    | inr (i, f) ↦ inr (i, f, ground (arith, rw (f, find_key) at e))
  ]

  add_other :
      (t : List (List ℕ)) (k j : List ℕ) (q : ℕ)
      → j ≢ k
      → find_key n t j ≡ negsuc q
      → (l : ℕ) × (find_key n (add_key n t k).1 j ≡ negsuc l)
  unfolding find_key
  add_other t k j q ne e = elim (add_key_cases n t k) [
    | inl (r, f, a) ↦ rw a (q, e)
    | inr (inl (f, lt, a)) ↦ elim (absent_iff t j q e) [
      | inl g ↦ rw a (1, rw (find_other t j k ne g, find_key) refl)
      | inr (i, g, out) ↦ rw a (1, rw (find-append t j k i g, out, find_key) refl)
    ]
    | inr (inr a) ↦ rw a (q, e)
  ]

  pub key_list-laws : HashLaws (key_list n) n
  key_list-laws = record {
    lookup-add_key = lookup_add;
    add_key_keeps = add_keeps;
    add_key_other = add_other;
    add_key_again = add_again;
    distinct = λ t j k p e f.
        find_unique t j k p ((find_key_iff n t j p).0 e).0 ((find_key_iff n t k p).0 f).0;
    bound = λ t k p e. ((find_key_iff n t k p).0 e).1;
  }
