-- ===== src/Setup/Tests.antt =====
-- The set-up with tables that are created.
use hcmonitor.Prelude.{
  ℕ, ◌*◌, ◌≡◌, refl, ℤ, pos, ◌+ℤ◌, ◌-ℤ◌, ◌*ℤ◌, true, Option, some, List, [], ◌∷◌,
}
use mathlib.Core.Option.{some-injective}
use hcmonitor.Config.{Mconfig, init_config, m_req, m_rsp}
use hcmonitor.Floats.Fixed.{fixed, quotient}
use hcmonitor.Hash.{HashLaws}
use hcmonitor.Hash.Model.{key_list, key_list-laws, same_key, find_key}
use hcmonitor.Node.{NodeData, key_bytes}
use hcmonitor.Parse.Burst.{ip_num}
use hcmonitor.Monitor.{req_hash_entries, latency, out_of_window}
use hcmonitor.Monitor.Connection.{
  asked, rated, answer, answered, sample_of, conn_step, emitted, samples,
}
use hcmonitor.Setup.{SetUp, set_up, res_setup_hash}
use hcmonitor.Setup.Views.{nothing, reports, view, see, reported, forget}
use hcmonitor.Setup.Tick.{Printing, enter_online}
use hcmonitor.Figures.Report.Insertion.{insertion}
use hcmonitor.Setup.Reports.Keeps.{Keeps, res_setup_hash-Keeps}
use hcmonitor.Setup.Session.{Step, node, interval}
use hcmonitor.Setup.Connections.{taken}
use hcmonitor.Fixtures.{conf, stray}

abbrev reporting : Mconfig
reporting = record conf { enable_pri = pos 1; interval = pos 5 }

abbrev created : ℕ → ℕ → Option (List (List ℕ))
created entries key_len = some []

-- A record of type `type` from client `ip`, at `ms` milliseconds past five seconds.
abbrev packet : ℤ → ℕ → ℕ → ℕ → NodeData
packet type ip seq ms = record {
  status = pos 0;
  key = record { ip_src = ip; port_src = 4000; padding = 0 };
  key_status = pos 0;
  ts = record { tv_sec = pos 5; tv_nsec = pos (ms * 1000000) };
  sent_seq = seq;
  ack_seq = 0;
  total_len = 100;
  type = type;
  pri = pos 1;
}

-- Two clients ask, and are answered after three milliseconds and after six; the first answer comes
-- once more.
abbrev two_clients : List NodeData
two_clients =
    packet m_req 1 1000 0
    ∷ packet m_req 2 5000 1
    ∷ packet m_rsp 1 1100 3
    ∷ packet m_rsp 2 5100 7
    ∷ packet m_rsp 1 1100 8
    ∷ []

abbrev table_laws : HashLaws (key_list req_hash_entries) req_hash_entries
table_laws = key_list-laws req_hash_entries

two_samples : taken fixed conf two_clients ≡ (pos 3000000, true) ∷ (pos 6000000, true) ∷ []
unfolding samples emitted conn_step same_key asked rated answer answered sample_of key_bytes
    init_config latency quotient out_of_window ◌-ℤ◌ ◌*ℤ◌ ◌+ℤ◌
two_samples = refl

-- An interval ends, client 1 asks and is answered, the
-- interval ends, and client 1 is answered once more.
abbrev steps : List Step
steps =
    interval
    ∷ node (packet m_req 1 1000 0)
    ∷ node (packet m_rsp 1 1100 3)
    ∷ interval
    ∷ node (packet m_rsp 1 1150 4)
    ∷ []

abbrev begun : SetUp fixed (key_list ip_num) (key_list req_hash_entries)
begun = set_up fixed (key_list ip_num) (key_list req_hash_entries) reporting 9 [] []

-- A report that sorts by insertion, with a 0 behind `u`.
abbrev printing : Printing fixed
printing = record { qsort = insertion; scaled = λ conn _. conn; beyond = λ _. pos 0; garbage = 7 }

res_setup_hash-Keeps_example :
    Keeps printing reporting stray steps (nothing fixed) (enter_online begun.online)
unfolding res_setup_hash find_key init_config
res_setup_hash-Keeps_example =
    res_setup_hash-Keeps fixed (key_list ip_num) (key_list req_hash_entries) created created
      printing reporting 9 stray begun steps table_laws
      (λ table made k. (1, rw (← (some-injective _ _ made)) refl)) refl refl refl

-- One report is due, and the late answer finds its connection forgotten.
one_report :
    (reported fixed reporting steps (nothing fixed) ≡ ((pos 3000000, true) ∷ []) ∷ [])
    × ((view fixed reporting steps (nothing fixed)).taken ≡ [])
unfolding view see reported reports forget emitted conn_step same_key asked rated answer answered
    sample_of key_bytes init_config latency quotient out_of_window ◌-ℤ◌ ◌*ℤ◌ ◌+ℤ◌
one_report = (refl, refl)
