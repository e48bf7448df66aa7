-- ===== src/Split/Laws.antt =====
-- The files that a capture is split into.
use hcmonitor.Prelude.{
  ℕ, zero, suc, ◌+◌, ◌^◌, ◌<◌, ◌≤◌, ◌≡◌, ◌≢◌, ◌↔◌, ◌⊎◌, inl, inr, refl, sym, ap, ◌∙◌, pos, ◌-ℤ◌,
  ltb, leb, ◌&&◌, Bool-cases, Option-cases, some, none, List, [], ◌∷◌, ◌++◌, arith, if◌then◌else◌,
}
use mathlib.Core.Path.{subst}
use mathlib.Core.Option.{some-injective}
use hcmonitor.Monitor.Rule.{All}
use hcmonitor.Split.Groups.{
  concat, append_nil, append_assoc, concat-snoc, All-snoc, IsBurst, IsGrouped, flat, flat_start,
  starts, Opened-IsBurst, visit-Moved,
}
use hcmonitor.Split.{
  Input, thousandth, less_second, pkt_hdr, readable, Packet, packet_at, State, visit, next_offset,
  walk, process_pcap, start_state,
}

-- For times that do not run before the epoch, `less_second` takes exactly the packets of the same
-- second that are less than 701 ms behind, and those of the next that are at most 700 ms behind.
pub less_second-window :
    (s s' u u' c c' l l' : ℕ)
    → (less_second
          (record { tv_sec = pos s; tv_usec = pos u; caplen = c; len = l })
          (record { tv_sec = pos s'; tv_usec = pos u'; caplen = c'; len = l' })
        ≡ pos 0)
      ↔ (((s' ≡ s) × (u' < u + 701000)) ⊎ ((s' ≡ s + 1) × (u' + 300000 ≤ u)))
unfolding less_second thousandth ◌-ℤ◌
less_second-window s s' u u' c c' l l' = ground arith

-- The packets from offset `o` on that have all their headers.
pub picked : (ℕ → ℕ) → Input → ℕ → ℕ → List Packet
picked stray f zero o = []
picked stray f (suc fuel) o =
    let rest = picked stray f fuel (next_offset f o) in
    if ltb o (2 ^ 31) && leb (o + 16) f.size
    then (if readable f o then packet_at stray f o ∷ rest else rest)
    else []

walk-Moved :
    (stray : ℕ → ℕ) (f : Input) (fuel o : ℕ) (s t : State)
    → IsGrouped s
    → walk stray f fuel o s ≡ some t
    → (flat t ≡ flat s ++ picked stray f fuel o) × IsGrouped t
unfolding walk picked
walk-Moved stray f zero o s t g e = cc
walk-Moved stray f (suc fuel) o s t g e =
    elim (Bool-cases (ltb o (2 ^ 31) && leb (o + 16) f.size)) [
      | inl q ↦
          let v = visit-Moved stray f o s g in
          let r =
            walk-Moved stray f fuel (next_offset f o) (visit stray f o s) t v.grouped
              (rw (q, walk) at e) in
          (
            elim (Bool-cases (readable f o)) [
              | inl b ↦ rw (q, b, r.0, v.kept, b) (append_assoc (flat s) _ _)
              | inr b ↦
                  rw (q, b, r.0, v.kept, b)
                    (ap (λ l. l ++ picked stray f fuel (next_offset f o)) (append_nil (flat s)))
            ],
            r.1,
          )
      | inr q ↦
          let same = some-injective _ _ (rw (q, walk) at e) in
          rw q (ap flat (sym same) ∙ sym (append_nil _), subst (λ x. IsGrouped x) same g)
    ]

-- The offsets go up, where no packet claims a length that wraps around.
walk_total :
    (stray : ℕ → ℕ) (f : Input)
    → ((o : ℕ) → o + 16 ≤ f.size → o + 16 + (pkt_hdr f o).caplen < 2 ^ 32)
    → (fuel o : ℕ) (s : State) → f.size < fuel + o
    → 0 < fuel
    → walk stray f fuel o s ≢ none
unfolding walk next_offset
walk_total stray f fits zero o s lt p = absurd (omega arith)
walk_total stray f fits (suc fuel) o s lt p =
    elim (Bool-cases (ltb o (2 ^ 31) && leb (o + 16) f.size)) [
      | inl q ↦
          let inside : o + 16 ≤ f.size = ground (arith, q) in
          let next : next_offset f o ≡ o + 16 + (pkt_hdr f o).caplen =
            omega (arith, fits o inside) in
          rw q (
            walk_total stray f fits fuel (next_offset f o) (visit stray f o s)
              (omega (arith, next, inside, lt)) (omega (arith, inside, lt)))
      | inr q ↦ rw q (λ e. cc)
    ]

-- Of a capture in which no packet header, read at any offset, claims a length that would take the
-- offset behind it to 2 ^ 32: as much fuel as it has bytes, and one, is enough; the files taken together are the packets that
-- have all their headers, each once and in order; and within every file all packets pass
-- `less_second` on the first.
pub process_pcap-bursts :
    (stray : ℕ → ℕ) (f : Input)
    → ((o : ℕ) → o + 16 ≤ f.size → o + 16 + (pkt_hdr f o).caplen < 2 ^ 32)
    → (files : List (List Packet)) × (process_pcap stray f (f.size + 1) ≡ some files)
      × (concat files ≡ picked stray f (f.size + 1) 24)
      × All IsBurst files
unfolding process_pcap
process_pcap-bursts stray f fits =
    let clean : IsGrouped start_state = record {
      whole = tt;
      open_file = starts start_state.pkt_header_0;
    } in
    elim (Option-cases (walk stray f (f.size + 1) 24 start_state)) [
      | inl e ↦
          absurd (walk_total stray f fits (f.size + 1) 24 start_state (omega arith) (omega arith) e)
      | inr (t, e) ↦
          let (same, g) = walk-Moved stray f (f.size + 1) 24 start_state t clean e in
          (
            t.closed ++ t.current ∷ [],
            rw (e, process_pcap) refl,
            concat-snoc t.closed t.current ∙ flat_start start_state t _ refl refl same,
            All-snoc IsBurst t.closed t.current g.whole (Opened-IsBurst _ _ _ g.open_file),
          )
    ]
