-- ===== src/Timers/Due.antt =====
-- When the statistics core prints, and what.
use hcmonitor.Prelude.{
  ℕ, ◌+◌, ◌-◌, ◌^◌, ◌≤◌, ◌<◌, ◌≡◌, refl, arith, leb, if◌then◌else◌, some, none, List, [], ◌∷◌,
  Bool-cases, inl, inr, true, false,
}
use hcmonitor.Timers.{sub32, Reading, Tstamp, Rates, timer_stper, tstamp_round, tstamp_loop}

-- Clock readings that do not go back, from `from` on, and stay below 2 ^ 64.
abbrev pub Ascends : ℕ → List Reading → Type 0
Ascends from [] = Unit
Ascends from (r ∷ rs) = (from ≤ r.cur_sta) × (r.cur_sta < 2 ^ 64) × Ascends r.cur_sta rs

-- What is to be printed: `last` is when it last was, with `req` and `rep` the numbers of then.
unfoldable pub due : ℕ → ℕ → ℕ → List Reading → List Rates
due last req rep [] = []
due last req rep (r ∷ rs) = elim (leb (last + timer_stper) r.cur_sta) [
  | true ↦
      record { at = r.cur_sta; requests = sub32 r.pkt_req req; responses = sub32 r.pkt_rep rep }
      ∷ due r.cur_sta r.pkt_req r.pkt_rep rs
  | false ↦ due last req rep rs
]

round-due :
    (r : Reading) (s : Tstamp) (last : ℕ)
    → last + s.timer_sta ≡ s.prev_sta
    → s.prev_sta ≤ r.cur_sta
    → r.cur_sta < 2 ^ 64
    → tstamp_round r s ≡ (
        if leb (last + timer_stper) r.cur_sta
        then (
          record {
            prev_sta = r.cur_sta;
            timer_sta = 0;
            prev_req = r.pkt_req;
            prev_rep = r.pkt_rep;
          },
          some (record {
            at = r.cur_sta;
            requests = sub32 r.pkt_req s.prev_req;
            responses = sub32 r.pkt_rep s.prev_rep;
          }),
        )
        else (record s { prev_sta = r.cur_sta; timer_sta = r.cur_sta - last }, none))
unfolding tstamp_round
round-due r s last e le lt = ground (arith, e, le, lt)

-- From a state whose timer has run since `last`, over clock readings that do not go back: the core
-- prints at the first reading that is a period behind `last`, from there at the first that is a
-- period behind that one, and so on; each time the number of requests and of responses since.
pub tstamp_loop-due :
    (rs : List Reading) (s : Tstamp) (last : ℕ)
    → last + s.timer_sta ≡ s.prev_sta
    → Ascends s.prev_sta rs
    → tstamp_loop rs s ≡ due last s.prev_req s.prev_rep rs
unfolding tstamp_loop due
tstamp_loop-due [] s last e a = refl
tstamp_loop-due (r ∷ rs) s last e (le, lt, a) =
    let step = round-due r s last e le lt in
    let next : Tstamp = record {
      prev_sta = r.cur_sta;
      timer_sta = 0;
      prev_req = r.pkt_req;
      prev_rep = r.pkt_rep;
    } in
    let on : Tstamp = record s { prev_sta = r.cur_sta; timer_sta = r.cur_sta - last } in
    elim (Bool-cases (leb (last + timer_stper) r.cur_sta)) [
      | inl b ↦
          let ih = tstamp_loop-due rs next r.cur_sta (omega arith) a in ground (arith, step, b, ih)
      | inr b ↦
          let ih = tstamp_loop-due rs on last (ground (arith, b, e, le)) a in
          ground (arith, step, b, ih)
    ]
