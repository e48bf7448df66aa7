-- ===== src/Widths/Laws.antt =====
-- What `add` makes of the packets of a capture.
use hcmonitor.Prelude.{
  ℕ, ℤ, zero, suc, ◌+◌, ◌<◌, ◌≤◌, ◌≡◌, ◌^◌, ◌*◌, refl, sym, ap, ◌∙◌, ltb, leb, ltb→lt, ltb→ge, ◌⊎◌,
  ◌==◌, ◌&&◌, if◌then◌else◌, some, none, List, [], ◌∷◌, ◌++◌, length, length-append, update_self,
  arith, Bool-cases, Option-cases, inl, inr,
}
use hcmonitor.Split.{Input, pkt_hdr, readable, next_offset}
use hcmonitor.Widths.{
  TimeVal, IpGroups, Run, ok, exit, fault, net, exist, create, stamp, add, no_groups, pkt_num, walk,
  process_pcap, src_addr_at, ts_at,
}
use hcmonitor.Widths.Exist.{view, IsGrouped, exist-found, stamps, view-some}
use hcmonitor.Widths.Groups.{
  opened, stamped-IsGrouped, stamped-view, opened-IsGrouped, opened-host, opened-view,
  no_groups-IsGrouped, no_groups-view,
}

-- A packet, as `add` gets it.
abbrev pub Arrival : Type 0
Arrival = ℕ × TimeVal

-- The time stamps of the packets of a network, in order.
abbrev pub of_net : ℕ → List Arrival → List TimeVal
of_net a [] = []
of_net a ((addr, t) ∷ ps) = let rest = of_net a ps in if net a == net addr then t ∷ rest else rest

-- The groups hold just these packets.
pub record Holding (ps : List Arrival) (g : IpGroups) : Type 0 where
  pub grouped : IsGrouped g
  pub holds : (a : ℕ) → view g a ≡ of_net a ps

of_net-snoc :
    (a : ℕ) (ps : List Arrival) (addr : ℕ) (t : TimeVal)
    → of_net a (ps ++ (addr, t) ∷ [])
      ≡ (if net a == net addr then of_net a ps ++ t ∷ [] else of_net a ps)
of_net-snoc a [] addr t = refl
of_net-snoc a ((b, u) ∷ ps) addr t = ground (arith, of_net-snoc a ps addr t)

-- What may come of a packet: it is taken, it comes from a tenth network, or its group is full.
abbrev pub Added : List Arrival → Arrival → IpGroups → Run IpGroups → Type 0
Added ps (addr, t) g (ok g') = Holding (ps ++ (addr, t) ∷ []) g'
Added ps (addr, t) g exit = (g.len ≡ 9) × (exist g addr ≡ none)
Added ps (addr, t) g fault = pkt_num ≤ length (view g addr) + 1

length-stamps : (ts : ℕ → TimeVal) (n : ℕ) → length (stamps ts n) ≡ n
unfolding stamps
length-stamps ts zero = refl
length-stamps ts (suc n) =
    omega (arith, length-append (stamps ts n) (ts (suc n) ∷ []), length-stamps ts n)

-- A stamp in the group of the packet's network.
stamp-Added :
    (ps : List Arrival) (addr h : ℕ) (t : TimeVal) (g g0 : IpGroups)
    → IsGrouped g
    → ((a : ℕ) → view g a ≡ of_net a ps)
    → h < g.len
    → net (g.src_ip h) ≡ net addr
    → (pkt_num ≤ (g.bursts h).len + 1 → pkt_num ≤ length (view g0 addr) + 1)
    → Added ps (addr, t) g0 (stamp t h g)
unfolding stamp
stamp-Added ps addr h t g g0 v holds lt here full =
    elim (Bool-cases (ltb ((g.bursts h).len + 1) pkt_num)) [
      | inl e ↦ rw e (record {
        grouped = stamped-IsGrouped g v addr h t lt here;
        holds =
            λ a. stamped-view g v addr h t lt here a ∙ rw (holds a) (sym (of_net-snoc a ps addr t));
      })
      | inr e ↦ rw e (full (ltb→ge _ _ e))
    ]

-- A new group has room.
fresh :
    (addr : ℕ) (g : IpGroups)
    → (g.bursts g.len).len ≡ 0
    → pkt_num ≤ ((opened addr g).bursts g.len).len + 1
    → ⊥
fresh addr g z le = omega (
  arith,
  z,
  (rw (update_self g.bursts g.len (record (g.bursts g.len) { src_ip = net addr * 2 ^ 8 })) at le),
)

pub add-Added :
    (last : TimeVal) (ps : List Arrival) (addr : ℕ) (t : TimeVal) (g : IpGroups)
    → Holding ps g
    → Added ps (addr, t) g (add addr t (some last) g)
unfolding add create
add-Added last ps addr t g s = elim (Option-cases (exist g addr)) [
  | inr (h, e) ↦
      let (lt, here) = exist-found g addr h e in
      rw (e, add)
        (stamp-Added ps addr h t g g s.grouped s.holds lt here (λ le. omega (
          arith,
          ap length (view-some g addr h e),
          length-stamps (g.bursts h).ts (g.bursts h).len,
          le,
        )))
  | inl e ↦ elim (Bool-cases (ltb (g.len + 1) 10)) [
    | inl r ↦
        let room = ltb→lt _ _ r in
        rw (e, r, add)
          (stamp-Added ps addr g.len t (opened addr g) g (opened-IsGrouped g s.grouped addr e room)
            (λ a. opened-view g s.grouped addr e room a ∙ s.holds a) (omega arith)
            (opened-host g s.grouped addr e room)
            (λ le. absurd (fresh addr g (s.grouped.free g.len (omega arith)) le)))
    | inr r ↦ rw (e, r, add) (omega (arith, s.grouped.few, ltb→ge _ _ r), e)
  ]
]

-- The packets of a capture that have all their headers, from offset `o` on.
pub arrivals : ℕ → Input → ℕ → List Arrival
arrivals zero f o = []
arrivals (suc fuel) f o =
    let rest = arrivals fuel f (next_offset f o) in
    if ltb o (2 ^ 31) && leb (o + 16) f.size
    then (if readable f o then (src_addr_at f o, ts_at f o) ∷ rest else rest)
    else []

-- What may come of packets: the groups hold them all; or one of them is the first that comes from a
-- tenth network, or that finds its group full, while the groups hold all before it.
pub data Taken (ps : List Arrival) : Run IpGroups → Type 0 where
  all_held : (g : IpGroups) → Holding ps g → Taken ps (ok g)
  tenth :
      (before behind : List Arrival) (p : Arrival) (g : IpGroups)
      → ps ≡ before ++ p ∷ behind
      → Holding before g
      → g.len ≡ 9
      → exist g p.0 ≡ none
      → Taken ps exit
  full :
      (before behind : List Arrival) (p : Arrival) (g : IpGroups)
      → ps ≡ before ++ p ∷ behind
      → Holding before g
      → pkt_num ≤ length (view g p.0) + 1
      → Taken ps fault

append_one : (ps qs : List Arrival) (p : Arrival) → ps ++ p ∷ qs ≡ (ps ++ p ∷ []) ++ qs
append_one [] qs p = refl
append_one (x ∷ ps) qs p = ap (λ l. x ∷ l) (append_one ps qs p)

append_none : (ps : List Arrival) → ps ++ [] ≡ ps
append_none [] = refl
append_none (x ∷ ps) = ap (λ l. x ∷ l) (append_none ps)

Run-cases : {A : Type 0} (r : Run A) → ((a : A) × (r ≡ ok a)) ⊎ ((r ≡ exit) ⊎ (r ≡ fault))
Run-cases (ok a) = inl (a, refl)
Run-cases exit = inr (inl refl)
Run-cases fault = inr (inr refl)

-- The loop on groups that hold the packets before offset `o`.
walk-Taken :
    (last : TimeVal) (f : Input)
    → ((o : ℕ) → o + 16 ≤ f.size → o + 16 + (pkt_hdr f o).caplen < 2 ^ 32)
    → (fuel o : ℕ) (ps : List Arrival) (g : IpGroups) → f.size < fuel + o
    → 0 < fuel
    → Holding ps g
    → (r : Run IpGroups) × (walk fuel f (some last) o g ≡ some r)
      × Taken (ps ++ arrivals fuel f o) r
unfolding walk arrivals next_offset
walk-Taken last f fits zero o ps g lt p s = absurd (omega arith)
walk-Taken last f fits (suc fuel) o ps g lt p s =
    elim (Bool-cases (ltb o (2 ^ 31) && leb (o + 16) f.size)) [
      | inr q ↦ (ok g, rw (q, walk), rw (q, append_none ps) (all_held g s))
      | inl q ↦
          let inside : o + 16 ≤ f.size = ground (arith, q) in
          let next : next_offset f o ≡ o + 16 + (pkt_hdr f o).caplen =
            omega (arith, fits o inside) in
          let on = λ (qs : List Arrival) (t : IpGroups).
            walk-Taken last f fits fuel (next_offset f o) qs t (omega (arith, next, inside, lt))
              (omega (arith, inside, lt)) in
          elim (Bool-cases (readable f o)) [
            | inr b ↦ let (r, e, t) = on ps g s in (r, rw (q, b, walk) e, rw (q, b) t)
            | inl b ↦
                let rest = arrivals fuel f (next_offset f o) in
                let addr = src_addr_at f o in
                let t = ts_at f o in
                elim (Run-cases (add addr t (some last) g)) [
                  | inl (g', e) ↦
                      let (r, w, k) =
                        on (ps ++ (addr, t) ∷ []) g' (rw e at (add-Added last ps addr t g s)) in
                      (r, rw (q, b, e, walk) w, rw (q, b, append_one ps rest (addr, t)) k)
                  | inr (inl e) ↦
                      let (nine, new) = rw e at (add-Added last ps addr t g s) in
                      (
                        exit,
                        rw (q, b, e, walk),
                        rw (q, b) (tenth ps rest (addr, t) g refl s nine new),
                      )
                  | inr (inr e) ↦ (
                    fault,
                    rw (q, b, e, walk),
                    rw (q, b)
                        (full ps rest (addr, t) g refl s (rw e at (add-Added last ps addr t g s))),
                  )
                ]
          ]
    ]

no_groups-Holding : (ts : ℕ → ℕ → TimeVal) (gaps : ℕ → ℕ → ℤ) → Holding [] (no_groups ts gaps)
no_groups-Holding ts gaps = record {
  grouped = no_groups-IsGrouped ts gaps;
  holds = no_groups-view ts gaps;
}

-- What comes of packets where `pkt_header_last` cannot be read.
unfoldable pub unreadable : List Arrival → IpGroups → Run IpGroups
unreadable [] g = ok g
unreadable (p ∷ ps) g = fault

walk-unreadable :
    (f : Input)
    → ((o : ℕ) → o + 16 ≤ f.size → o + 16 + (pkt_hdr f o).caplen < 2 ^ 32)
    → (fuel o : ℕ) (g : IpGroups) → f.size < fuel + o
    → 0 < fuel
    → walk fuel f none o g ≡ some (unreadable (arrivals fuel f o) g)
unfolding walk arrivals add unreadable next_offset
walk-unreadable f fits zero o g lt p = absurd (omega arith)
walk-unreadable f fits (suc fuel) o g lt p =
    elim (Bool-cases (ltb o (2 ^ 31) && leb (o + 16) f.size)) [
      | inr q ↦ rw (q, walk, arrivals) refl
      | inl q ↦
          let inside : o + 16 ≤ f.size = ground (arith, q) in
          let next : next_offset f o ≡ o + 16 + (pkt_hdr f o).caplen =
            omega (arith, fits o inside) in
          elim (Bool-cases (readable f o)) [
            | inr b ↦
                rw (q, b, walk, arrivals)
                  (walk-unreadable f fits fuel (next_offset f o) g (omega (arith, next, inside, lt))
                    (omega (arith, inside, lt)))
            | inl b ↦ rw (q, b, walk, arrivals) refl
          ]
    ]

-- Of a capture in which no packet header, read at any offset, claims a length that would take the
-- offset behind it to 2 ^ 32: as much fuel as it has bytes, and one, is enough. Where the memory that
-- `pkt_header_last`, which is never set, points to can be read, then either the groups are of
-- distinct networks, and hold for every network the time stamps of its packets that have all their
-- headers, in order; or the process ended at the first packet of a tenth network, or wrote outside
-- an array at the packet after the 999999 that a group has room for, with the packets before it held
-- in that way. Where it cannot be read, the process fails at the first packet that has all its
-- headers, and leaves the groups empty if there is none.
pub process_pcap-Taken :
    (f : Input) (ts : ℕ → ℕ → TimeVal) (gaps : ℕ → ℕ → ℤ)
    → ((o : ℕ) → o + 16 ≤ f.size → o + 16 + (pkt_hdr f o).caplen < 2 ^ 32)
    → ((last : TimeVal)
        → (r : Run IpGroups) × (process_pcap f (some last) (f.size + 1) (no_groups ts gaps)
            ≡ some r)
          × Taken (arrivals (f.size + 1) f 24) r)
      × (process_pcap f none (f.size + 1) (no_groups ts gaps)
          ≡ some (unreadable (arrivals (f.size + 1) f 24) (no_groups ts gaps)))
unfolding process_pcap
process_pcap-Taken f ts gaps fits = (
  λ last.
      walk-Taken last f fits (f.size + 1) 24 [] (no_groups ts gaps) (omega arith) (omega arith)
        (no_groups-Holding ts gaps),
  walk-unreadable f fits (f.size + 1) 24 (no_groups ts gaps) (omega arith) (omega arith),
)
