-- ===== src/Ports/Pairing.antt =====
-- Every enabled port has a destination that is enabled, and is the destination of that port.
use native.Mathlib.Decide.{ℕ_discrete}
use hcmonitor.Prelude.{
  ℕ, zero, suc, ◌+◌, ◌%◌, ◌<◌, ◌≡◌, ◌≢◌, refl, sym, ◌∙◌, ◌==◌, update, update_self, update_ne, true,
  false, arith, Bool-cases, inl, inr, ==_iff,
}
use hcmonitor.Ports.{is_enabled, Pairs, pair_port, pair_first, pair_ports}

-- Two ports below `n` that are each other's destination.
record Paired (mask n : ℕ) (dst : ℕ → ℕ) (p : ℕ) : Type 0 where
  enabled : is_enabled mask (dst p) ≡ true
  low : dst p < n
  back : dst (dst p) ≡ p
  other : dst p ≢ p

-- With an even number of ports so far all are paired; with an odd number all but `last_port`, which
-- no pair has.
record IsPaired (mask n : ℕ) (s : Pairs) : Type 0 where
  even :
      s.nb_ports_in_mask % 2 ≡ 0
      → (p : ℕ) → p < n
      → is_enabled mask p ≡ true
      → Paired mask n s.dst_ports p
  odd :
      s.nb_ports_in_mask % 2 ≡ 1
      → (p : ℕ) → p < n
      → is_enabled mask p ≡ true
      → p ≢ s.last_port
      → Paired mask n s.dst_ports p × (s.dst_ports p ≢ s.last_port)
  last : s.nb_ports_in_mask % 2 ≡ 1 → (s.last_port < n) × (is_enabled mask s.last_port ≡ true)
  off : (p : ℕ) → is_enabled mask p ≡ false → s.dst_ports p ≡ 0

-- A port is not both enabled and not.
two_ways : (mask p : ℕ) {q : ℕ} → p ≡ q → is_enabled mask p ≡ true → is_enabled mask q ≡ false → ⊥
two_ways mask p e on off = cc

module _ (mask n : ℕ) where
  Paired-suc : (dst : ℕ → ℕ) (p : ℕ) → Paired mask n dst p → Paired mask (suc n) dst p
  Paired-suc dst p v = record {
    enabled = v.enabled;
    low = omega (arith, v.low);
    back = v.back;
    other = v.other;
  }

  -- A port that is skipped.
  skip-IsPaired :
      (s : Pairs) → is_enabled mask n ≡ false → IsPaired mask n s → IsPaired mask (suc n) s
  skip-IsPaired s off v =
      let below = λ (p : ℕ) (lt : p < suc n) (on : is_enabled mask p ≡ true). below_of p lt on in
      record {
        even = λ e p lt on. Paired-suc s.dst_ports p (v.even e p (below p lt on) on);
        odd = λ e p lt on ne.
            let (q, r) = v.odd e p (below p lt on) on ne in (Paired-suc s.dst_ports p q, r);
        last = λ e. let (lt, on) = v.last e in (omega (arith, lt), on);
        off = v.off;
      }
    where
      below_of : (p : ℕ) → p < suc n → is_enabled mask p ≡ true → p < n
      below_of p lt on = elim (ℕ_discrete p n) [
        | yes e ↦ absurd (two_ways mask p e on off)
        | no ne ↦ omega arith
      ]

  -- A port that waits for another.
  hold-IsPaired :
      (s : Pairs)
      → is_enabled mask n ≡ true
      → s.nb_ports_in_mask % 2 ≡ 0
      → IsPaired mask n s
      → IsPaired mask
          (suc n)
          (record s { last_port = n; nb_ports_in_mask = s.nb_ports_in_mask + 1 })
  hold-IsPaired s on e v = record {
    even = λ f p lt q. absurd (omega (arith, e, f));
    odd = λ f p lt q ne.
        let r = v.even e p (omega (arith, ne)) q in
        (Paired-suc s.dst_ports p r, λ same. omega (arith, same, r.low));
    last = λ f. (omega arith, on);
    off = v.off;
  }

  -- A port that meets the one that waits.
  join-IsPaired :
      (s : Pairs)
      → is_enabled mask n ≡ true
      → s.nb_ports_in_mask % 2 ≡ 1
      → IsPaired mask n s
      → IsPaired mask (suc n) (record s {
        dst_ports = update (update s.dst_ports n s.last_port) s.last_port n;
        nb_ports_in_mask = s.nb_ports_in_mask + 1;
      })
  join-IsPaired s on e v =
      let (lt, lon) = v.last e in
      let half = update s.dst_ports n s.last_port in
      let dst = update half s.last_port n in
      let at_last = update_self half s.last_port n in
      let apart : s.last_port ≢ n = λ f. omega (arith, f, lt) in
      let at_n = update_ne half s.last_port n n apart ∙ update_self s.dst_ports n s.last_port in
      let there_at = λ (p : ℕ) (a : s.last_port ≢ p) (b : n ≢ p).
        update_ne half s.last_port p n a ∙ update_ne s.dst_ports n p s.last_port b in
      record {
        even = λ f p u q. elim (ℕ_discrete n p) [
          | yes g ↦ rw (← g) (record {
            enabled = rw at_n lon;
            low = rw at_n (omega (arith, lt));
            back = rw (at_n, at_last);
            other = rw at_n apart;
          })
          | no g ↦ elim (ℕ_discrete s.last_port p) [
            | yes h ↦ rw (← h) (record {
              enabled = rw at_last on;
              low = rw at_last (omega arith);
              back = rw (at_last, at_n);
              other = rw at_last (λ k. apart (sym k));
            })
            | no h ↦
                let (r, t) = v.odd e p (omega (arith, g)) q (λ k. h (sym k)) in
                let here = there_at p h g in
                let there =
                  there_at (s.dst_ports p) (λ k. t (sym k)) (λ k. omega (arith, k, r.low)) in
                record {
                  enabled = rw here r.enabled;
                  low = rw here (omega (arith, r.low));
                  back = rw (here, there) r.back;
                  other = rw here r.other;
                }
          ]
        ];
        odd = λ f p u q ne. absurd (omega (arith, e, f));
        last = λ f. absurd (omega (arith, e, f));
        off = λ p o.
            there_at p (λ f. two_ways mask s.last_port f lon o) (λ f. two_ways mask n f on o)
            ∙ v.off p o;
      }

  pair_port-IsPaired : (s : Pairs) → IsPaired mask n s → IsPaired mask (suc n) (pair_port mask n s)
  unfolding pair_port
  pair_port-IsPaired s v = elim (Bool-cases (is_enabled mask n)) [
    | inr off ↦ rw (off, pair_port) (skip-IsPaired s off v)
    | inl on ↦ elim (Bool-cases (s.nb_ports_in_mask % 2 == 0)) [
      | inl e ↦ rw (on, e, pair_port) (hold-IsPaired s on ((==_iff _ _).0 e) v)
      | inr e ↦ rw (on, e, pair_port) (join-IsPaired s on (ground (arith, e)) v)
    ]
  ]

pair_first-IsPaired : (mask n : ℕ) → IsPaired mask n (pair_first mask n)
unfolding pair_first
pair_first-IsPaired mask zero = record {
  even = λ e p lt on. absurd (omega arith);
  odd = λ e p lt on ne. absurd (omega arith);
  last = λ e. absurd (omega arith);
  off = λ p o. refl;
}
pair_first-IsPaired mask (suc n) =
    pair_port-IsPaired mask n (pair_first mask n) (pair_first-IsPaired mask n)

-- The destination of an enabled port is an enabled port, whose destination is the port itself; a
-- port is its own destination only if the number of enabled ports is odd. A port that is not
-- enabled has destination 0.
pub pair_ports-involutive :
    (mask n p : ℕ)
    → p < n
    → let dst = pair_ports mask n in
      (is_enabled mask p ≡ true
        → (is_enabled mask (dst p) ≡ true)
          × (dst p < n)
          × (dst (dst p) ≡ p)
          × (dst p ≡ p → (pair_first mask n).nb_ports_in_mask % 2 ≡ 1))
      × (is_enabled mask p ≡ false → dst p ≡ 0)
unfolding pair_ports
pair_ports-involutive mask n p lt =
    let s = pair_first mask n in
    let v = pair_first-IsPaired mask n in
    elim (Bool-cases (s.nb_ports_in_mask % 2 == 0)) [
      | inl e ↦
          rw (e, pair_ports)
            (
              (λ on.
                  let r = v.even ((==_iff _ _).0 e) p lt on in
                  (r.enabled, r.low, r.back, λ f. absurd (r.other f))),
              v.off p,
            )
      | inr e ↦
          let odd : s.nb_ports_in_mask % 2 ≡ 1 = ground (arith, e) in
          let (last, lon) = v.last odd in
          let own = update_self s.dst_ports s.last_port s.last_port in
          let there_at =
            λ (q : ℕ) (a : s.last_port ≢ q). update_ne s.dst_ports s.last_port q s.last_port a in
          rw (e, pair_ports)
            (
              (λ on. elim (ℕ_discrete s.last_port p) [
                | yes f ↦ rw (← f) (rw own lon, rw own last, rw (own, own), λ _. odd)
                | no f ↦
                    let (r, t) = v.odd odd p lt on (λ k. f (sym k)) in
                    (
                      rw (there_at p f) r.enabled,
                      rw (there_at p f) r.low,
                      rw (there_at p f, there_at (s.dst_ports p) (λ k. t (sym k))) r.back,
                      λ _. odd,
                    )
              ]),
              λ o. there_at p (λ f. two_ways mask s.last_port f lon o) ∙ v.off p o,
            )
    ]
