-- ===== src/Database.antt =====
-- HCMonitor/send_sql.c, and the calls of it under OP_MYSQL in HCMonitor/monitor.c. A query is what
-- its text is formatted from; the text itself is not modelled. What the MySQL server answers to a
-- query, which may depend on all queries before, is a parameter.
pub mod Rows
pub mod Sends
mod Tests
use hcmonitor.Prelude.{
  ℕ, zero, suc, ◌+◌, ◌*◌, ℤ, pos, negsuc, ◌-ℤ◌, ◌==ℤ◌, ltb, ltb_ℤ, ◌==◌, not, ◌&&◌, if◌then◌else◌,
  truthy, Bool, List, [], ◌∷◌, ◌++◌,
}
use hcmonitor.Config.{Mconfig}
use hcmonitor.Floats.{Floats}
use hcmonitor.Figures.Report.{CdfLine}

-- `g_conn`, `g_conn_10` and `g_conn_init`
pub data Connection : Type 0 where
  g_conn : Connection
  g_conn_10 : Connection
  g_conn_init : Connection

-- `pf`, which is empty until `init_mysql` sets it.
pub data Platform : Type 0 where
  unset : Platform
  hy : Platform
  x86 : Platform

module _ (F : Floats) where
  -- The queries, by the arguments of their formats.
  pub data Query : Type 0 where
    set_names : Query
    autocommit_off : Query
    commit : Query
    update_chart : Platform → F.Float → F.Float → ℕ → Query
    update_model : Platform → ℕ → ℕ → Query
    reset_model : Platform → Query
    insert_concurrency : Platform → ℤ → ℕ → Query
    insert_99 : Platform → ℤ → F.Float → Query

  -- The globals, and the queries that were sent, in order.
  pub record Client : Type 0 where
    pub pf : Platform
    pub conn_active_pek : ℕ
    pub insert_tag : ℤ
    pub timecnt : ℤ
    pub sent : List (Connection × Query)

-- What the loop over `u` does with the result of `insert_mysql_hy`, but for the error that it prints.
unfoldable pub tag : {F : Floats} → ℤ → Client F → Client F
tag result s = if truthy result then s else record s { insert_tag = pos 1 }

module _ {F : Floats} (reply : List (Connection × Query F) → Connection × Query F → ℤ) where
  -- `mysql_real_query`: its result, and the query is sent.
  unfoldable pub send : Connection × Query F → Client F → ℤ × Client F
  send q s = (reply s.sent q, record s { sent = s.sent ++ q ∷ [] })

  -- `executesql`, for `set names utf8`
  unfoldable pub executesql : Query F → Client F → ℤ × Client F
  executesql q s =
      let (t, s1) = send (g_conn, q) s in
      let (t_10, s2) = send (g_conn_10, q) s1 in
      let (t_init, s3) = send (g_conn_init, q) s2 in
      if truthy t
      then (negsuc 0, s1)
      else if truthy t_10
      then (negsuc 0, s2)
      else if truthy t_init
      then (negsuc 0, s3)
      else (pos 0, s3)

  -- `init_mysql`; `connects` is whether `mysql_real_connect` succeeds.
  unfoldable pub init_mysql : (Connection → Bool) → Mconfig → Client F → ℤ × Client F
  init_mysql connects c s =
      let named = record s { pf = if truthy c.enable_hy then hy else x86 } in
      let (failed, t) = executesql set_names named in
      if not (connects g_conn)
      then (negsuc 0, s)
      else if not (connects g_conn_10)
      then (negsuc 0, s)
      else if not (connects g_conn_init)
      then (negsuc 0, s)
      else if truthy failed
      then (negsuc 0, t)
      else (pos 0, t)

  module _ (conn_active_mid goodput : ℕ) where
    -- The queries that go with entry 10.
    unfoldable pub send_totals : ℤ → F.Float → Client F → Bool × Client F
    send_totals sec x s =
        let (t_model, s1) = send (g_conn, update_model s.pf s.conn_active_pek goodput) s in
        let (t_conn, s2) = send (g_conn, insert_concurrency s1.pf sec conn_active_mid) s1 in
        let (t_99, s3) = send (g_conn, insert_99 s2.pf sec x) s2 in
        ((t_model ==ℤ pos 0) && (t_conn ==ℤ pos 0) && (t_99 ==ℤ pos 0), s3)

    -- The highest number of connections, and `timecnt`.
    unfoldable pub note_peak : ℕ → Client F → Client F
    note_peak i s = record s {
      conn_active_pek =
          if ltb s.conn_active_pek conn_active_mid then conn_active_mid else s.conn_active_pek;
      timecnt = if (i == 10) && ltb_ℤ (pos 100) s.timecnt then pos 0 else s.timecnt;
    }

    -- `insert_mysql_hy`, at second `sec`. What its call of `clear` does to the arrays is in `percentiles`.
    unfoldable pub insert_mysql_hy : ℤ → F.Float → F.Float → ℕ → Client F → ℤ × Client F
    insert_mysql_hy sec x y i s =
        let begun = note_peak i s in
        let (t, s1) = send (g_conn, update_chart begun.pf y x (i + 1)) begun in
        let (all, s2) = send_totals sec x s1 in
        if i == 10
        then ((if (t ==ℤ pos 0) && all then pos 0 else negsuc 0), s2)
        else ((if t ==ℤ pos 0 then pos 0 else negsuc 0), s1)

    -- What the loop over `u` in `cdf_acktime` does with the lines from entry `i` on: the entries that
    -- an error is printed for, and the globals. The seconds are those of the calls.
    unfoldable pub send_lines : (ℕ → ℤ) → ℕ → List (CdfLine F) → Client F → List ℕ × Client F
    send_lines sec i [] s = ([], s)
    send_lines sec i (l ∷ ls) s =
        let (result, t) = insert_mysql_hy (sec i) l.w l.u i s in
        let (errors, end) = send_lines sec (i + 1) ls (tag result t) in
        ((if truthy result then i ∷ errors else errors), end)

    -- The calls of `cdf_acktime`: the result of the first is only printed.
    unfoldable pub send_report : (ℕ → ℤ) → List (CdfLine F) → Client F → List ℕ × Client F
    send_report sec ls s =
        let (t, begun) = send (g_conn, autocommit_off) s in
        let (errors, sent) = send_lines sec 0 ls begun in
        let (u, end) = send (g_conn, commit) sent in (errors, end)

  -- `insert_mysql_init`, at second `sec`.
  unfoldable pub insert_mysql_init : ℤ → ℕ → Client F → ℤ × Client F
  insert_mysql_init sec i s =
      let at = sec -ℤ pos (10 * i) in
      let (t_conn, s1) = send (g_conn_init, insert_concurrency s.pf at 0) s in
      let (t_99, s2) = send (g_conn_init, insert_99 s.pf at (F.of_int (pos 0))) s1 in
      let (t_model, s3) = send (g_conn_init, reset_model s.pf) s2 in
      if ltb 0 i
      then (if (t_conn ==ℤ pos 0) && (t_99 ==ℤ pos 0) && (t_model ==ℤ pos 0)
          then (pos 0, s3)
          else (negsuc 0, s3))
      else (pos 0, s)

  -- The loop of `lcore_online` before its rounds, for `i` from its argument down to 1.
  unfoldable pub insert_init : (ℕ → ℤ) → ℕ → Client F → Client F
  insert_init sec zero s = s
  insert_init sec (suc i) s =
      let (t, begun) = send (g_conn_init, autocommit_off) s in
      let (result, sent) = insert_mysql_init (sec (suc i)) (suc i) begun in
      let (u, end) = send (g_conn_init, commit) sent in
      insert_init sec i (if truthy t then begun else end)

  -- `insert_mysql_inter`, at second `sec`.
  unfoldable pub insert_mysql_inter : ℤ → F.Float → ℕ → Client F → ℤ × Client F
  insert_mysql_inter sec delay conn s =
      let (t_conn, s1) = send (g_conn_10, insert_concurrency s.pf sec conn) s in
      let (t_99, s2) = send (g_conn_10, insert_99 s.pf sec delay) s1 in
      if (t_conn ==ℤ pos 0) && (t_99 ==ℤ pos 0) then (pos 0, s2) else (negsuc 0, s2)
