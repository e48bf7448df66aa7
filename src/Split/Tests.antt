-- ===== src/Split/Tests.antt =====
-- A small capture.
use hcmonitor.Prelude.{
  ℕ, ◌+◌, ◌<◌, ◌≤◌, ◌^◌, ◌≡◌, ◌↔◌, ◌⊎◌, pos, ◌-ℤ◌, refl, some, List, [], ◌∷◌, replicate, arith,
  if◌then◌else◌, ◌==◌,
}
use hcmonitor.Monitor.Rule.{All}
use hcmonitor.Split.{
  Input, Packet, less_second, pkt_hdr, readable, process_pcap, walk, visit, note_first, write,
  thousandth, next_offset, packet_at, copy,
}
use hcmonitor.Split.Groups.{concat, IsBurst}
use hcmonitor.Split.Laws.{less_second-window, picked, process_pcap-bursts}
use hcmonitor.Split.Output.{written, input_of, output}
use hcmonitor.Split.Arrivals.{IsWhole}
use hcmonitor.Split.RoundTrip.{process_pcap-output}

abbrev five : ℕ
five = 5

less_second-window_example :
    (less_second
        (record { tv_sec = pos 4; tv_usec = pos 900000; caplen = 60; len = 60 })
        (record { tv_sec = pos 5; tv_usec = pos 600000; caplen = 60; len = 60 })
      ≡ pos 0)
    ↔ (((five ≡ 4) × (600000 < 900000 + 701000)) ⊎ ((five ≡ 4 + 1) × (600000 + 300000 ≤ 900000)))
less_second-window_example = less_second-window 4 5 900000 600000 60 60 60 60

-- One packet of 34 bytes behind the file header, and a second that is cut off: its length and its
-- time are bytes 32 and 74 to 77.
abbrev short : Input
short = record { bytes = λ o. if o == 32 then 34 else if o == 82 then 34 else 0; size = 124 }

short_fits : (o : ℕ) → o + 16 ≤ short.size → o + 16 + (pkt_hdr short o).caplen < 2 ^ 32
unfolding pkt_hdr
short_fits o le = ground arith

process_pcap-bursts_example :
    (files : List (List Packet)) × (process_pcap (λ _. 0) short 125 ≡ some files)
    × (concat files ≡ picked (λ _. 0) short 125 24)
    × All IsBurst files
process_pcap-bursts_example = process_pcap-bursts (λ _. 0) short short_fits

-- Two packets of 34 bytes, in seconds 0 and 2.
abbrev packet_of : ℕ → Packet
packet_of sec = record {
  hdr = record { tv_sec = pos sec; tv_usec = pos 0; caplen = 34; len = 34 };
  cs = sec ∷ 0 ∷ 0 ∷ 0 ∷ 0 ∷ 0 ∷ 0 ∷ 0 ∷ 34 ∷ 0 ∷ 0 ∷ 0 ∷ 34 ∷ 0 ∷ 0 ∷ 0 ∷ replicate 34 0;
}

abbrev two_packets : List Packet
two_packets = packet_of 0 ∷ packet_of 2 ∷ []

two_packets-IsWhole : All IsWhole two_packets
unfolding pkt_hdr readable input_of
two_packets-IsWhole = (
  record { agrees = refl; sized = refl; headers = refl },
  (record { agrees = refl; sized = refl; headers = refl }, tt),
)

process_pcap-output_example :
    (files : List (List Packet)) × (process_pcap
        (λ _. 0)
        (output (replicate 24 0) two_packets)
        ((output (replicate 24 0) two_packets).size + 1)
      ≡ some files)
    × (concat files ≡ two_packets)
    × All
        (λ file.
          process_pcap
            (λ _. 0)
            (output (replicate 24 0) file)
            ((output (replicate 24 0) file).size + 1)
          ≡ some (file ∷ []))
        files
unfolding output input_of written
process_pcap-output_example =
    process_pcap-output (λ _. 0) (replicate 24 0) two_packets refl two_packets-IsWhole (omega arith)

-- They are split.
two_files :
    process_pcap (λ _. 0) (output (replicate 24 0) two_packets) 3
    ≡ some ((packet_of 0 ∷ []) ∷ (packet_of 2 ∷ []) ∷ [])
unfolding process_pcap walk visit note_first write less_second thousandth next_offset packet_at copy
    readable pkt_hdr ◌-ℤ◌ output input_of written
two_files = refl
