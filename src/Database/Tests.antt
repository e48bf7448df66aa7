-- ===== src/Database/Tests.antt =====
-- A report of twelve lines, of which the third is refused.
use hcmonitor.Prelude.{
  ℕ, zero, suc, ◌≡◌, refl, ℤ, pos, negsuc, none, Bool, true, false, List, [], ◌∷◌, ◌++◌, length,
  replicate,
}
use hcmonitor.Floats.Fixed.{fixed}
use hcmonitor.Figures.Report.{CdfLine}
use hcmonitor.Database.{
  Connection, g_conn, g_conn_init, unset, x86, Query, autocommit_off, commit, update_chart, Client,
  send, init_mysql, send_totals, note_peak, insert_mysql_hy, tag, send_lines, send_report,
  insert_mysql_init, insert_init,
}
use hcmonitor.Database.Rows.{peak_of}
use hcmonitor.Database.Sends.{rows, failing, send_report-rows}
use hcmonitor.Fixtures.{conf}

abbrev line : CdfLine fixed
line = record { u = pos 500; w = pos 20000; w_high = none; w_low = none }

abbrev twelve : List (CdfLine fixed)
twelve = replicate 12 line

abbrev client : Client fixed
client = record { pf = x86; conn_active_pek = 3; insert_tag = pos 0; timecnt = pos 0; sent = [] }

-- The row with id 3 is refused.
abbrev refuses : List (Connection × Query fixed) → Connection × Query fixed → ℤ
refuses before (g_conn, update_chart pf y x (suc (suc (suc zero)))) = pos 1
refuses before q = pos 0

abbrev clock : ℕ → ℤ
clock i = pos 1000

send_report-rows_example :
    let peak = peak_of 7 client.conn_active_pek in
    let begun = client.sent ++ (g_conn, autocommit_off) ∷ [] in
    let (errors, t) = send_report refuses 7 5 clock twelve client in
    (t.sent ≡ begun ++ (rows 7 5 clock client.pf peak 0 twelve ++ (g_conn, commit) ∷ []))
    × (errors ≡ failing refuses 7 5 clock begun client.pf peak 0 twelve)
send_report-rows_example = send_report-rows refuses 7 5 clock twelve client

twelve_rows :
    let (errors, t) = send_report refuses 7 5 clock twelve client in
    (errors ≡ 2 ∷ []) × (length t.sent ≡ 17) × (t.conn_active_pek ≡ 7) × (t.insert_tag ≡ pos 1)
unfolding send_report send_lines insert_mysql_hy note_peak send send_totals tag
twelve_rows = (refl, refl, refl, refl)

-- The third connection fails: nothing is sent, and the platform stays unset.
abbrev no_init : Connection → Bool
no_init g_conn_init = false
no_init c = true

connects_twice :
    let s : Client fixed = record client { pf = unset } in
    init_mysql refuses no_init conf s ≡ (negsuc 0, s)
unfolding init_mysql
connects_twice = refl

-- Twenty rows of the past, in a transaction each.
past : length (insert_init refuses clock 20 client).sent ≡ 100
unfolding insert_init insert_mysql_init send
past = refl
