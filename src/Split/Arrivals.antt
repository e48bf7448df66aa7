-- ===== src/Split/Arrivals.antt =====
-- The loop of pcap_analyse/split_pcap_bytime.c over packets that are complete.
use hcmonitor.Prelude.{
  ℕ, zero, suc, ◌+◌, ◌<◌, ◌^◌, ◌%◌, ◌≡◌, ◌≢◌, refl, sym, ◌∙◌, pos, ◌==◌, arith, ltb, leb, ◌&&◌,
  true, false, some, List, [], ◌∷◌, ◌++◌, length, length-append,
}
use mathlib.Core.Path.{ap₂}
use hcmonitor.Monitor.Rule.{All}
use hcmonitor.Split.Groups.{
  concat, append_nil, append_assoc, concat-snoc, All-snoc, IsBurst, IsGrouped, Opened-IsBurst, flat,
  flat_start, same_hdr, starts, write-flat, write-IsGrouped, note_first-flat, note_first-IsGrouped,
  note_first-pkt_header_0,
}
use hcmonitor.Split.Output.{
  written, input_of, output, Stands, input_of-Stands, Stands-front, Stands-behind, Stands-pkt_hdr,
  Stands-readable, Stands-copy,
}
use hcmonitor.Split.{
  PktHdr, Input, less_second, pkt_hdr, readable, Packet, packet_at, State, note_first, write, visit,
  next_offset, walk, process_pcap, start_state,
}

-- A packet that is complete: its bytes begin with its header, are as many as that says, and have an
-- Ethernet and an IP header.
pub record IsWhole (p : Packet) : Type 0 where
  pub agrees : pkt_hdr (input_of p.cs) 0 ≡ p.hdr
  pub sized : length p.cs ≡ 16 + p.hdr.caplen
  pub headers : readable (input_of p.cs) 0 ≡ true

-- A packet with its headers, and those of a file.
unfoldable arrive : Packet → State → State
arrive p s = write p (note_first p.hdr s)

unfoldable arrivals : List Packet → State → State
arrivals [] s = s
arrivals (p ∷ ps) s = arrivals ps (arrive p s)

module _ (stray : ℕ → ℕ) (f : Input) (small : f.size < 2 ^ 31) where
  -- What is read where a complete packet stands.
  record Read (o : ℕ) (p : Packet) : Type 0 where
    packet : packet_at stray f o ≡ p
    hdr : pkt_hdr f o ≡ p.hdr
    has_headers : readable f o ≡ true
    next : next_offset f o ≡ o + length p.cs

  Stands-Read : (o : ℕ) (p : Packet) → IsWhole p → Stands f o p.cs → Read o p
  unfolding packet_at next_offset
  Stands-Read o p w v =
      let h : pkt_hdr f o ≡ p.hdr = Stands-pkt_hdr v (omega (arith, w.sized)) ∙ w.agrees in
      let count : (16 + p.hdr.caplen) % 2 ^ 32 ≡ length p.cs =
        omega (arith, w.sized, v.inside, small) in
      record {
        packet = rw (h, count, Stands-copy stray f o p.cs v) refl;
        hdr = h;
        has_headers = Stands-readable v w.headers;
        next = rw h (omega (arith, w.sized, v.inside, small));
      }

  visit-arrive : (o : ℕ) (p : Packet) (s : State) → Read o p → visit stray f o s ≡ arrive p s
  unfolding visit arrive
  visit-arrive o p s r = rw (r.has_headers, r.packet, r.hdr) refl

  -- The loop over complete packets that stand up to the end of the file.
  walk-arrivals :
      (fuel o : ℕ) (ps : List Packet) (s : State)
      → All IsWhole ps
      → Stands f o (written ps)
      → o + length (written ps) ≡ f.size
      → length (written ps) < fuel
      → walk stray f fuel o s ≡ some (arrivals ps s)
  unfolding walk arrivals written
  walk-arrivals zero o ps s w v e lt = absurd (omega (arith, lt))
  walk-arrivals (suc fuel) o [] s w v e lt =
      let stop : (ltb o (2 ^ 31) && leb (o + 16) f.size) ≡ false = ground (arith, e) in rw stop refl
  walk-arrivals (suc fuel) o (p ∷ ps) s (w, ws) v e lt =
      let r = Stands-Read o p w (Stands-front p.cs (written ps) v) in
      let n = length-append p.cs (written ps) in
      let go : (ltb o (2 ^ 31) && leb (o + 16) f.size) ≡ true =
        ground (arith, e, n, w.sized, small) in
      rw (go, r.next, visit-arrive o p s r)
        (walk-arrivals fuel (o + length p.cs) ps (arrive p s) ws (Stands-behind p.cs (written ps) v)
          (omega (arith, e, n)) (omega (arith, lt, n, w.sized)))

arrive-IsGrouped : (p : Packet) (s : State) → IsGrouped s → IsGrouped (arrive p s)
unfolding arrive
arrive-IsGrouped p s g =
    write-IsGrouped p (note_first p.hdr s) (note_first-pkt_header_0 p.hdr s)
      (note_first-IsGrouped p.hdr s g)

arrivals-flat : (ps : List Packet) (s : State) → flat (arrivals ps s) ≡ flat s ++ ps
unfolding arrivals arrive
arrivals-flat [] s = sym (append_nil (flat s))
arrivals-flat (p ∷ ps) s =
    rw
      (
        arrivals-flat ps (write p (note_first p.hdr s)),
        write-flat p (note_first p.hdr s),
        note_first-flat p.hdr s,
      )
      (append_assoc (flat s) (p ∷ []) ps)

arrivals-IsGrouped : (ps : List Packet) (s : State) → IsGrouped s → IsGrouped (arrivals ps s)
unfolding arrivals
arrivals-IsGrouped [] s g = g
arrivals-IsGrouped (p ∷ ps) s g = arrivals-IsGrouped ps (arrive p s) (arrive-IsGrouped p s g)

arrive_near :
    (h : PktHdr) (p : Packet) (s : State)
    → s.pkt_header_0 ≡ h
    → s.i ≢ 0
    → less_second h p.hdr ≡ pos 0
    → ((arrive p s).pkt_header_0 ≡ h) × ((arrive p s).i ≢ 0) × ((arrive p s).closed ≡ s.closed)
unfolding arrive note_first write
arrive_near h p s e ne near =
    let begun : (s.i == 0) ≡ false = ground (arith, ne) in
    rw (begun, e, near) (refl, (λ z. omega (arith, z)), refl)

-- Packets that pass `less_second` on the first are put into the open file.
arrivals-closed :
    (h : PktHdr) (ps : List Packet) (s : State)
    → s.pkt_header_0 ≡ h
    → s.i ≢ 0
    → All (λ q. less_second h q.hdr ≡ pos 0) ps
    → (arrivals ps s).closed ≡ s.closed
unfolding arrivals arrive note_first write
arrivals-closed h [] s e ne near = refl
arrivals-closed h (p ∷ ps) s e ne (near, rest) =
    let kept = arrive_near h p s e ne near in
    arrivals-closed h ps (arrive p s) kept.0 kept.1 rest ∙ kept.2

arrive_first :
    (p : Packet)
    → let s = arrive p start_state in (s.pkt_header_0 ≡ p.hdr) × (s.i ≢ 0) × (s.closed ≡ [])
unfolding arrive note_first write
arrive_first p = rw (same_hdr p.hdr) (refl, (λ z. omega (arith, z)), refl)

arrivals_first-closed :
    (p : Packet) (ps : List Packet)
    → All (λ q. less_second p.hdr q.hdr ≡ pos 0) ps
    → (arrivals (p ∷ ps) start_state).closed ≡ []
unfolding arrivals
arrivals_first-closed p ps near =
    let first = arrive_first p in
    arrivals-closed p.hdr ps (arrive p start_state) first.0 first.1 near ∙ first.2

-- The files of complete packets.
pub files_of : List Packet → List (List Packet)
files_of ps = let t = arrivals ps start_state in t.closed ++ t.current ∷ []

pub process_pcap-files_of :
    (stray : ℕ → ℕ) (header : List ℕ) (ps : List Packet)
    → length header ≡ 24
    → All IsWhole ps
    → (output header ps).size < 2 ^ 31
    → process_pcap stray (output header ps) ((output header ps).size + 1) ≡ some (files_of ps)
unfolding process_pcap output input_of files_of
process_pcap-files_of stray header ps e w small =
    let n = length-append header (written ps) in
    let v : Stands (output header ps) 24 (written ps) =
      rw (← e) (input_of-Stands header (written ps)) in
    rw
      (
        walk-arrivals stray (output header ps) small (length (header ++ written ps) + 1) 24 ps
            start_state w v (omega (arith, n, e)) (omega (arith, n, e)),
        process_pcap,
      )
      refl

pub concat-files_of : (ps : List Packet) → concat (files_of ps) ≡ ps
unfolding files_of
concat-files_of ps =
    let t = arrivals ps start_state in
    concat-snoc t.closed t.current
    ∙ flat_start start_state t ps refl refl (arrivals-flat ps start_state)

pub files_of-IsBurst : (ps : List Packet) → All IsBurst (files_of ps)
unfolding files_of
files_of-IsBurst ps =
    let clean : IsGrouped start_state = record {
      whole = tt;
      open_file = starts start_state.pkt_header_0;
    } in
    let t = arrivals ps start_state in
    let g = arrivals-IsGrouped ps start_state clean in
    All-snoc IsBurst t.closed t.current g.whole (Opened-IsBurst _ _ _ g.open_file)

-- A burst is one file.
pub IsBurst-files_of : (ps : List Packet) → IsBurst ps → files_of ps ≡ ps ∷ []
unfolding files_of IsBurst arrivals concat
IsBurst-files_of [] b = refl
IsBurst-files_of (p ∷ ps) near =
    let all = concat-files_of (p ∷ ps) in
    let none_closed = arrivals_first-closed p ps near in
    let t = arrivals (p ∷ ps) start_state in
    let open_file : t.current ≡ p ∷ ps = sym (append_nil t.current) ∙ rw none_closed at all in
    ap₂ (λ (xs : List (List Packet)) x. xs ++ x ∷ []) none_closed open_file
