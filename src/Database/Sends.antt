-- ===== src/Database/Sends.antt =====
-- What a report sends to the database, whatever it answers.
use hcmonitor.Prelude.{
  ℕ, ◌+◌, ◌≡◌, refl, sym, ap, ◌∙◌, arith, ℤ, truthy, if◌then◌else◌, Bool, true, false, Bool-cases,
  inl, inr, List, [], ◌∷◌, ◌++◌,
}
use mathlib.Core.List.{append_assoc}
use hcmonitor.Floats.{Floats}
use hcmonitor.Figures.Report.{CdfLine}
use hcmonitor.Database.{
  Connection, g_conn, Platform, Query, autocommit_off, commit, Client, send, insert_mysql_hy, tag,
  send_lines, send_report,
}
use hcmonitor.Database.Rows.{peak_of, row, all_zero, Inserts, insert_mysql_hy-Inserts}

peak_of_same : (mid pek : ℕ) → peak_of mid (peak_of mid pek) ≡ peak_of mid pek
peak_of_same mid pek = ground arith

append_empty : {A : Type 0} (xs : List A) → xs ++ [] ≡ xs
append_empty [] = refl
append_empty (x ∷ xs) = ap (λ l. x ∷ l) (append_empty xs)

swapped :
    {A : Type 0} (b : Bool) (x y : A)
    → (if (if b then false else true) then x else y) ≡ (if b then y else x)
swapped true x y = refl
swapped false x y = refl

module _ {F : Floats} where
  -- Those for the lines from entry `i` on.
  unfoldable pub rows :
      ℕ → ℕ → (ℕ → ℤ) → Platform → ℕ → ℕ → List (CdfLine F) → List (Connection × Query F)
  rows mid goodput sec pf peak i [] = []
  rows mid goodput sec pf peak i (l ∷ ls) =
      row mid goodput sec pf peak i l ++ rows mid goodput sec pf peak (i + 1) ls

  -- The tag changes nothing else.
  record SameBut (s t : Client F) : Type 0 where
    sent : t.sent ≡ s.sent
    pf : t.pf ≡ s.pf
    peak : t.conn_active_pek ≡ s.conn_active_pek

  tag-SameBut : (r : ℤ) (s : Client F) → SameBut s (tag r s)
  unfolding tag
  tag-SameBut r s = elim (Bool-cases (truthy r)) [
    | inl e ↦ rw (e, tag) (record { sent = refl; pf = refl; peak = refl })
    | inr e ↦ rw (e, tag) (record { sent = refl; pf = refl; peak = refl })
  ]

  module _ (reply : List (Connection × Query F) → Connection × Query F → ℤ) where
    module _ (mid goodput : ℕ) (sec : ℕ → ℤ) where
      -- The entries of which some query is not answered with 0.
      unfoldable pub failing :
          List (Connection × Query F) → Platform → ℕ → ℕ → List (CdfLine F) → List ℕ
      failing before pf peak i [] = []
      failing before pf peak i (l ∷ ls) =
          let own = row mid goodput sec pf peak i l in
          let rest = failing (before ++ own) pf peak (i + 1) ls in
          if all_zero reply before own then rest else i ∷ rest

      -- What `send_lines` does.
      record Lines (i : ℕ) (ls : List (CdfLine F)) (s : Client F) (r : List ℕ × Client F)
          : Type 0 where
        sent : (r.1).sent ≡ s.sent ++ rows mid goodput sec s.pf (peak_of mid s.conn_active_pek) i ls
        errors : r.0 ≡ failing s.sent s.pf (peak_of mid s.conn_active_pek) i ls

      -- The lines behind one that was sent.
      next-Lines :
          (i : ℕ) (l : CdfLine F) (ls : List (CdfLine F)) (s : Client F) (r : ℤ × Client F)
          (next : Client F) (m : List ℕ × Client F)
          → Inserts reply mid goodput sec i l s r
          → next.sent ≡ (r.1).sent
          → next.pf ≡ (r.1).pf
          → next.conn_active_pek ≡ (r.1).conn_active_pek
          → Lines (i + 1) ls next m
          → Lines i (l ∷ ls) s ((if truthy (r.0) then i ∷ m.0 else m.0), m.1)
      unfolding rows failing
      next-Lines i l ls s r next m v a b c w =
          let own = row mid goodput sec s.pf (peak_of mid s.conn_active_pek) i l in
          let peak : peak_of mid next.conn_active_pek ≡ peak_of mid s.conn_active_pek =
            ap (peak_of mid) (c ∙ v.peak) ∙ peak_of_same mid s.conn_active_pek in
          let later = rw (a ∙ v.sent, b ∙ v.pf, peak) at w.sent in
          let errs = rw (a ∙ v.sent, b ∙ v.pf, peak) at w.errors in
          record {
            sent = later ∙ append_assoc s.sent own _;
            errors = rw (v.result, errs) (swapped (all_zero reply s.sent own) _ _);
          }

      send_lines-Lines :
          (i : ℕ) (ls : List (CdfLine F)) (s : Client F)
          → Lines i ls s (send_lines reply mid goodput sec i ls s)
      unfolding send_lines rows failing
      send_lines-Lines i [] s = record { sent = sym (append_empty s.sent); errors = refl }
      send_lines-Lines i (l ∷ ls) s =
          let r = insert_mysql_hy reply mid goodput (sec i) l.w l.u i s in
          let v = insert_mysql_hy-Inserts reply mid goodput sec i l s in
          let t = tag (r.0) (r.1) in
          let same = tag-SameBut (r.0) (r.1) in
          next-Lines i l ls s r t (send_lines reply mid goodput sec (i + 1) ls t) v same.sent
            same.pf same.peak (send_lines-Lines (i + 1) ls t)

      -- `cdf_acktime` sends, whatever the server answers: the start of a transaction; for every entry
      -- the row with its sample, with the totals behind entry 10; and the end of the transaction. An
      -- error is printed for just the entries of which some query is not answered with 0.
      pub send_report-rows :
          (ls : List (CdfLine F)) (s : Client F)
          → let peak = peak_of mid s.conn_active_pek in
            let begun = s.sent ++ (g_conn, autocommit_off) ∷ [] in
            let (errors, t) = send_report reply mid goodput sec ls s in
            (t.sent ≡ begun ++ (rows mid goodput sec s.pf peak 0 ls ++ (g_conn, commit) ∷ []))
            × (errors ≡ failing begun s.pf peak 0 ls)
      unfolding send_report send
      send_report-rows ls s =
          let begun : Client F = record s { sent = s.sent ++ (g_conn, autocommit_off) ∷ [] } in
          let v = send_lines-Lines 0 ls begun in
          (ap (λ l. l ++ (g_conn, commit) ∷ []) v.sent ∙ append_assoc begun.sent _ _, v.errors)
