-- ===== src/Widths/Tests.antt =====
-- The sort, the groups and the widths on small inputs.
use hcmonitor.Prelude.{
  ℕ, ◌+◌, ◌*◌, ◌<◌, ◌≤◌, ◌≡◌, ◌^◌, ◌⊎◌, refl, ℤ, pos, negsuc, Option, some, none, [], ◌∷◌, get_or,
  arith, if◌then◌else◌, ◌==◌,
}
use hcmonitor.Split.{Input, pkt_hdr}
use hcmonitor.Widths.{
  TimeVal, BurstPkts, pkt_num, fault, sort_gaps, IpGroups, Run, ok, exit, no_groups, process_pcap,
  width_of,
}
use hcmonitor.Widths.Sort.{quick, part_sort, part_loop, part_round, scan_down, scan_up}
use hcmonitor.Widths.Sort.Range.{Rearranged}
use hcmonitor.Widths.Sort.Laws.{IsSorted, quick-Sorts}
use hcmonitor.Widths.Laws.{arrivals, Taken, unreadable, process_pcap-Taken}
use hcmonitor.Widths.Compute.{gaps_of, time_at, sort_gaps-IsSorted, width_of-bounds}

abbrev mixed : ℕ → ℤ
mixed i = get_or (pos 5 ∷ negsuc 2 ∷ pos 9 ∷ pos 5 ∷ pos 0 ∷ []) i (pos 0)

-- The cells behind a sort, read off.
abbrev cell : Option (ℕ → ℤ) → ℕ → ℤ
cell none i = pos 0
cell (some b) i = b i

quick-mixed :
    cell (quick 4 mixed 0 4) 0 ∷ cell (quick 4 mixed 0 4) 1 ∷ cell (quick 4 mixed 0 4) 4 ∷ []
    ≡ negsuc 2 ∷ pos 0 ∷ pos 9 ∷ []
unfolding quick part_sort part_loop part_round scan_down scan_up
quick-mixed = refl

quick-Sorts_example :
    (b : ℕ → ℤ) × (quick 4 mixed 0 4 ≡ some b) × Rearranged 0 5 mixed b × IsSorted 0 5 b
quick-Sorts_example = quick-Sorts 4 mixed 0 5 (omega arith)

-- One packet of 34 bytes, from 10.0.0.1.
abbrev short : Input
short = record {
  bytes = λ o. if o == 32 then 34 else if o == 66 then 10 else if o == 69 then 1 else 0;
  size = 74;
}

short_fits : (o : ℕ) → o + 16 ≤ short.size → o + 16 + (pkt_hdr short o).caplen < 2 ^ 32
unfolding pkt_hdr
short_fits o le = ground arith

abbrev begun : IpGroups
begun = no_groups (λ i j. time_at 0 0) (λ i j. pos 7)

process_pcap-Taken_example :
    ((last : TimeVal)
      → (r : Run IpGroups) × (process_pcap short (some last) 75 begun ≡ some r)
        × Taken (arrivals 75 short 24) r)
    × (process_pcap short none 75 begun ≡ some (unreadable (arrivals 75 short 24) begun))
process_pcap-Taken_example = process_pcap-Taken short (λ i j. time_at 0 0) (λ i j. pos 7) short_fits

width_of-bounds_example :
    ((w : ℕ) × (width_of (time_at 4 900000) (time_at 5 200500) ≡ ok (pos w))
      × (4 * 1000000 + 900000 ≤ 5 * 1000000 + 200500)
      × (5 * 1000000 + 200500 < 4 * 1000000 + 900000 + w * 1000 + 1000)
      × (4 * 1000000 + 900000 + w * 1000 < 5 * 1000000 + 200500 + 1000))
    ⊎ ((width_of (time_at 4 900000) (time_at 5 200500) ≡ exit)
        × ((5 * 1000000 + 200500 < 4 * 1000000 + 900000)
            ⊎ (4 * 1000000 + 900000 + 1000000 < 5 * 1000000 + 200500)))
width_of-bounds_example = width_of-bounds 4 5 900000 200500 (omega arith) (omega arith)

-- Group 1, with three packets.
abbrev three : BurstPkts
three = record {
  src_ip = 0x0a000000;
  len = 3;
  ts = λ j. time_at 4 (j * j * 100);
  gaps = λ j. pos 7;
  width = pos 0;
}

sort_gaps-IsSorted_example :
    (1 + 3 ≤ pkt_num
      → (after : ℕ → ℤ) × (sort_gaps 1 three ≡ some (ok after))
        × Rearranged 1 4 (gaps_of three) after
        × IsSorted 1 4 after)
    × (pkt_num < 1 + 3 → sort_gaps 1 three ≡ some fault)
sort_gaps-IsSorted_example = sort_gaps-IsSorted 1 three
