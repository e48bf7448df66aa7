-- ===== src/Widths/Groups.antt =====
-- The groups of pcap_analyse/burst_width.c, as a table from networks to time stamps.
use native.Mathlib.Decide.{ℕ_discrete}
use hcmonitor.Prelude.{
  ℕ, ℤ, zero, suc, ◌+◌, ◌*◌, ◌^◌, ◌<◌, ◌≡◌, ◌≢◌, refl, sym, ◌∙◌, ◌==◌, ==_iff, if◌then◌else◌, none,
  update, update_self, update_ne, List, [], ◌∷◌, ◌++◌, arith, Bool-cases, Option-cases, inl, inr,
}
use hcmonitor.Widths.{TimeVal, IpGroups, net, exist_from, exist, no_groups}
use hcmonitor.Widths.Exist.{
  stamps, view, IsGrouped, exist-some, exist-none, exist-found, exist-absent, view-some, view-none,
}

stamps-update :
    (ts : ℕ → TimeVal) (n i : ℕ) (t : TimeVal) → n < i → stamps (update ts i t) n ≡ stamps ts n
unfolding stamps
stamps-update ts zero i t lt = refl
stamps-update ts (suc n) i t lt =
    rw (stamps-update ts n i t (omega arith), update_ne ts i (suc n) t (λ e. omega (arith, e)))

stamps-snoc :
    (ts : ℕ → TimeVal) (n : ℕ) (t : TimeVal)
    → stamps (update ts (n + 1) t) (n + 1) ≡ stamps ts n ++ t ∷ []
unfolding stamps
stamps-snoc ts n t =
    let e : n + 1 ≡ suc n = omega arith in
    rw (e, stamps-update ts n (suc n) t (omega arith), update_self ts (suc n) t)

-- A view behind a packet of network `net addr` with time stamp `t`.
abbrev pub after : IpGroups → ℕ → TimeVal → ℕ → List TimeVal
after g addr t a = if net a == net addr then view g a ++ t ∷ [] else view g a

-- The groups after a stamp.
abbrev pub stamped : TimeVal → ℕ → IpGroups → IpGroups
stamped ts host g =
    let b = g.bursts host in
    record g {
      bursts = update g.bursts host (record b { len = b.len + 1; ts = update b.ts (b.len + 1) ts });
    }

module _ (g : IpGroups) (v : IsGrouped g) (addr host : ℕ) (t : TimeVal) (lt : host < g.len)
    (here : net (g.src_ip host) ≡ net addr) where
  pub stamped-IsGrouped : IsGrouped (stamped t host g)
  stamped-IsGrouped = record {
    few = v.few;
    apart = v.apart;
    free = λ i le. rw (update_ne g.bursts host i _ (λ e. omega (arith, e, le))) (v.free i le);
  }

  -- The group that the stamp went to.
  stamped-host :
      (a : ℕ) → net (g.src_ip host) ≡ net a → view (stamped t host g) a ≡ view g a ++ t ∷ []
  stamped-host a same =
      view-some (stamped t host g) a host
        (exist-some (stamped t host g) stamped-IsGrouped a host lt same)
      ∙ rw (update_self g.bursts host _, view-some g a host (exist-some g v a host lt same))
          (stamps-snoc (g.bursts host).ts (g.bursts host).len t)

  -- Any other.
  stamped-elsewhere : (a : ℕ) → net (g.src_ip host) ≢ net a → view (stamped t host g) a ≡ view g a
  unfolding exist
  stamped-elsewhere a other = elim (Option-cases (exist g a)) [
    | inl e ↦ view-none (stamped t host g) a e ∙ sym (view-none g a e)
    | inr (j, e) ↦
        let apart : host ≢ j = λ same. other (rw same ((exist-found g a j e).1)) in
        view-some (stamped t host g) a j e
        ∙ rw (update_ne g.bursts host j _ apart) (sym (view-some g a j e))
  ]

  pub stamped-view : (a : ℕ) → view (stamped t host g) a ≡ after g addr t a
  stamped-view a = elim (Bool-cases (net a == net addr)) [
    | inl q ↦ rw q (stamped-host a (here ∙ sym ((==_iff _ _).0 q)))
    | inr q ↦ rw q (stamped-elsewhere a (λ e. ground (arith, q, here, e)))
  ]

-- The groups with a new one for a network that has none.
abbrev pub opened : ℕ → IpGroups → IpGroups
opened addr g = record g {
  bursts = update g.bursts g.len (record (g.bursts g.len) { src_ip = net addr * 2 ^ 8 });
  src_ip = update g.src_ip g.len addr;
  len = g.len + 1;
}

module _ (g : IpGroups) (v : IsGrouped g) (addr : ℕ) (new : exist g addr ≡ none)
    (room : g.len + 1 < 10) where
  pub opened-IsGrouped : IsGrouped (opened addr g)
  opened-IsGrouped = record {
    few = room;
    apart = λ i j lt u. elim (ℕ_discrete g.len j) [
      | yes e ↦
          rw
            (
              ← e,
              update_self g.src_ip g.len addr,
              update_ne g.src_ip g.len i addr (λ f. omega (arith, e, f, lt)),
            )
            (exist-absent g addr i new (omega (arith, e, lt)))
      | no ne ↦
          rw
            (
              update_ne g.src_ip g.len j addr ne,
              update_ne g.src_ip g.len i addr (λ f. omega (arith, f, lt, u)),
            )
            (v.apart i j lt (omega (arith, ne, u)))
    ];
    free = λ i le.
        rw (update_ne g.bursts g.len i _ (λ e. omega (arith, e, le)))
          (v.free i (omega (arith, le)));
  }

  pub opened-host : net ((opened addr g).src_ip g.len) ≡ net addr
  opened-host = rw (update_self g.src_ip g.len addr)

  opened-empty : stamps ((opened addr g).bursts g.len).ts ((opened addr g).bursts g.len).len ≡ []
  unfolding stamps
  opened-empty = rw (update_self g.bursts g.len _, v.free g.len (omega arith))

  pub opened-view : (a : ℕ) → view (opened addr g) a ≡ view g a
  opened-view a = elim (Option-cases (exist g a)) [
    | inr (j, e) ↦
        let (lt, at) = exist-found g a j e in
        let old : net ((opened addr g).src_ip j) ≡ net a =
          rw (update_ne g.src_ip g.len j addr (λ f. omega (arith, f, lt))) at in
        view-some (opened addr g) a j
          (exist-some (opened addr g) opened-IsGrouped a j (omega (arith, lt)) old)
        ∙ rw (update_ne g.bursts g.len j _ (λ f. omega (arith, f, lt))) (sym (view-some g a j e))
    | inl e ↦ elim (ℕ_discrete (net addr) (net a)) [
      | yes same ↦
          view-some (opened addr g) a g.len
            (exist-some (opened addr g) opened-IsGrouped a g.len (omega arith) (opened-host ∙ same))
          ∙ opened-empty
          ∙ sym (view-none g a e)
      | no ne ↦
          view-none (opened addr g) a (
            exist-none (opened addr g) opened-IsGrouped a (λ h lt. elim (ℕ_discrete g.len h) [
              | yes f ↦ rw (← f, update_self g.src_ip g.len addr) ne
              | no f ↦
                  rw (update_ne g.src_ip g.len h addr f)
                    (exist-absent g a h e (omega (arith, f, lt)))
            ]))
          ∙ sym (view-none g a e)
    ]
  ]

-- The groups at the start.
module _ (ts : ℕ → ℕ → TimeVal) (gaps : ℕ → ℕ → ℤ) where
  pub no_groups-IsGrouped : IsGrouped (no_groups ts gaps)
  unfolding no_groups
  no_groups-IsGrouped = record {
    few = omega arith;
    apart = λ i j lt u. absurd (omega arith);
    free = λ i le. refl;
  }

  pub no_groups-view : (a : ℕ) → view (no_groups ts gaps) a ≡ []
  unfolding view exist exist_from no_groups
  no_groups-view a = refl
