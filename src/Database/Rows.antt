-- ===== src/Database/Rows.antt =====
-- What `insert_mysql_hy` sends for one line of a report.
use hcmonitor.Prelude.{
  ℕ, ◌+◌, ◌≡◌, refl, sym, ap, ◌∙◌, ℤ, pos, negsuc, ◌==ℤ◌, ltb, ◌==◌, ◌&&◌, truthy, if◌then◌else◌,
  Bool, true, false, Bool-cases, inl, inr, List, [], ◌∷◌, ◌++◌,
}
use mathlib.Core.Path.{subst}
use mathlib.Core.List.{append_assoc}
use hcmonitor.Floats.{Floats}
use hcmonitor.Figures.Report.{CdfLine}
use hcmonitor.Database.{
  Connection, g_conn, Platform, Query, update_chart, update_model, insert_concurrency, insert_99,
  Client, send, send_totals, note_peak, insert_mysql_hy,
}

-- The highest number of connections.
abbrev pub peak_of : ℕ → ℕ → ℕ
peak_of mid pek = if ltb pek mid then mid else pek

truthy_sign : (b : Bool) → truthy (if b then pos 0 else negsuc 0) ≡ (if b then false else true)
truthy_sign true = refl
truthy_sign false = refl

truthy_alone :
    (b : Bool) → truthy (if b then pos 0 else negsuc 0) ≡ (if b && true then false else true)
truthy_alone true = refl
truthy_alone false = refl

and_three : (a b c : Bool) → (a && b && c) ≡ (a && (b && (c && true)))
and_three false b c = refl
and_three true false c = refl
and_three true true false = refl
and_three true true true = refl

module _ {F : Floats} where
  -- The queries that go with entry 10.
  unfoldable pub totals : ℕ → ℕ → ℤ → Platform → ℕ → F.Float → List (Connection × Query F)
  totals mid goodput sec pf peak x =
      (g_conn, update_model pf peak goodput)
      ∷ (g_conn, insert_concurrency pf sec mid)
      ∷ (g_conn, insert_99 pf sec x)
      ∷ []

  -- The queries for the entry `i` with line `l`: its row, and behind entry 10 the totals.
  unfoldable pub row : ℕ → ℕ → (ℕ → ℤ) → Platform → ℕ → ℕ → CdfLine F → List (Connection × Query F)
  row mid goodput sec pf peak i l =
      (g_conn, update_chart pf l.u l.w (i + 1))
      ∷ (if i == 10 then totals mid goodput (sec i) pf peak l.w else [])

  module _ (reply : List (Connection × Query F) → Connection × Query F → ℤ) where
    -- All of some queries, behind those before, are answered with 0.
    unfoldable pub all_zero : List (Connection × Query F) → List (Connection × Query F) → Bool
    all_zero before [] = true
    all_zero before (q ∷ qs) = (reply before q ==ℤ pos 0) && all_zero (before ++ q ∷ []) qs

    module _ (mid goodput : ℕ) (sec : ℕ → ℤ) where
      -- Queries are sent, and `ok` is whether all are answered with 0.
      record Sends (qs : List (Connection × Query F)) (s : Client F) (ok : Bool) (t : Client F)
          : Type 0 where
        sent : t.sent ≡ s.sent ++ qs
        pf : t.pf ≡ s.pf
        peak : t.conn_active_pek ≡ s.conn_active_pek
        result : ok ≡ all_zero s.sent qs

      send_totals-Sends :
          (at : ℤ) (x : F.Float) (s : Client F)
          → let r = send_totals reply mid goodput at x s in
            Sends (totals mid goodput at s.pf s.conn_active_pek x) s (r.0) (r.1)
      unfolding send_totals send totals all_zero
      send_totals-Sends at x s = record {
        sent =
            append_assoc (s.sent ++ _ ∷ []) (_ ∷ []) (_ ∷ [])
            ∙ append_assoc s.sent (_ ∷ []) (_ ∷ _ ∷ []);
        pf = refl;
        peak = refl;
        result = and_three (reply s.sent _ ==ℤ pos 0) _ _;
      }

      -- What `insert_mysql_hy` does.
      pub record Inserts (i : ℕ) (l : CdfLine F) (s : Client F) (r : ℤ × Client F) : Type 0 where
        pub sent :
            (r.1).sent ≡ s.sent ++ row mid goodput sec s.pf (peak_of mid s.conn_active_pek) i l
        pub pf : (r.1).pf ≡ s.pf
        pub peak : (r.1).conn_active_pek ≡ peak_of mid s.conn_active_pek
        pub result : truthy (r.0) ≡ (
            if all_zero s.sent (row mid goodput sec s.pf (peak_of mid s.conn_active_pek) i l)
            then false
            else true)

      row-ten :
          (pf : Platform) (peak i : ℕ) (l : CdfLine F)
          → (i == 10) ≡ true
          → row mid goodput sec pf peak i l
            ≡ (g_conn, update_chart pf l.u l.w (i + 1)) ∷ totals mid goodput (sec i) pf peak l.w
      unfolding row
      row-ten pf peak i l e = rw e refl

      row-other :
          (pf : Platform) (peak i : ℕ) (l : CdfLine F)
          → (i == 10) ≡ false
          → row mid goodput sec pf peak i l ≡ (g_conn, update_chart pf l.u l.w (i + 1)) ∷ []
      unfolding row
      row-other pf peak i l e = rw e refl

      pub insert_mysql_hy-Inserts :
          (i : ℕ) (l : CdfLine F) (s : Client F)
          → Inserts i l s (insert_mysql_hy reply mid goodput (sec i) l.w l.u i s)
      unfolding insert_mysql_hy note_peak send all_zero
      insert_mysql_hy-Inserts i l s =
          let begun = note_peak reply mid goodput i s in
          let q : Connection × Query F = (g_conn, update_chart s.pf l.u l.w (i + 1)) in
          let s1 : Client F = record begun { sent = s.sent ++ q ∷ [] } in
          let more = send_totals-Sends (sec i) l.w s1 in
          elim (Bool-cases (i == 10)) [
            | inl e ↦
                let m = send_totals reply mid goodput (sec i) l.w s1 in
                let done : insert_mysql_hy reply mid goodput (sec i) l.w l.u i s
                    ≡ ((if (reply s.sent q ==ℤ pos 0) && m.0 then pos 0 else negsuc 0), m.1) =
                  rw (e, insert_mysql_hy) refl in
                subst (λ r. Inserts i l s r) (sym done)
                  (record {
                    sent =
                        more.sent
                        ∙ append_assoc s.sent (q ∷ []) _
                        ∙ ap (λ r. s.sent ++ r)
                            (sym (row-ten s.pf (peak_of mid s.conn_active_pek) i l e));
                    pf = more.pf;
                    peak = more.peak;
                    result =
                        rw (row-ten s.pf (peak_of mid s.conn_active_pek) i l e, ← more.result)
                          (truthy_sign ((reply s.sent q ==ℤ pos 0) && m.0));
                  })
            | inr e ↦
                let done : insert_mysql_hy reply mid goodput (sec i) l.w l.u i s
                    ≡ ((if reply s.sent q ==ℤ pos 0 then pos 0 else negsuc 0), s1) =
                  rw (e, insert_mysql_hy) refl in
                subst (λ r. Inserts i l s r) (sym done)
                  (record {
                    sent = rw (row-other s.pf (peak_of mid s.conn_active_pek) i l e) refl;
                    pf = refl;
                    peak = refl;
                    result =
                        rw (row-other s.pf (peak_of mid s.conn_active_pek) i l e)
                          (truthy_alone (reply s.sent q ==ℤ pos 0));
                  })
          ]
