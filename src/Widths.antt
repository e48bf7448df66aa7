-- ===== src/Widths.antt =====
-- pcap_analyse/burst_width.c: the packets of a capture are grouped by the /24 network that they come
-- from, and of each group the gaps between packets are sorted and its width is taken.
pub mod Sort
pub mod Exist
pub mod Groups
pub mod Laws
pub mod Compute
mod Tests
use hcmonitor.Prelude.{
  ℕ, zero, suc, ◌+◌, ◌-◌, ◌*◌, ◌/◌, ◌%◌, ◌^◌, ℤ, pos, negsuc, ◌+ℤ◌, ◌-ℤ◌, ◌==ℤ◌, ltb_ℤ, ltb, leb,
  ◌==◌, ◌&&◌, not, if◌then◌else◌, Option, some, none, update, true, false,
}
use hcmonitor.Split.{PktHdr, Input, pkt_hdr, readable, next_offset, thousandth}
use hcmonitor.Widths.Sort.{quick}

-- `struct time_val`
pub record TimeVal : Type 0 where
  pub tv_sec : ℤ
  pub tv_usec : ℤ

-- `struct burst_pkts`; `ts` and `gaps` have a million cells each.
pub record BurstPkts : Type 0 where
  pub src_ip : ℕ
  pub len : ℕ
  pub ts : ℕ → TimeVal
  pub gaps : ℕ → ℤ
  pub width : ℤ

-- `ip_groups_global` and `bursts_global`
pub record IpGroups : Type 0 where
  pub len : ℕ
  pub src_ip : ℕ → ℕ
  pub bursts : ℕ → BurstPkts

-- A result, the end of the process by `exit(-1)`, or an access outside an array.
pub data Run {ℓ} (A : Type ℓ) : Type ℓ where
  ok : A → Run A
  exit : Run A
  fault : Run A

-- `PKT_NUM`, the length of the arrays that `main` allocates.
abbrev pub pkt_num : ℕ
pkt_num = 1000000

-- The network of an address: `addr >> 8`.
abbrev pub net : ℕ → ℕ
net addr = addr / 2 ^ 8

-- The loop of `exist`, from index `i`; `none` is its -1.
unfoldable pub exist_from : ℕ → ℕ → (ℕ → ℕ) → ℕ → Option ℕ
exist_from zero i src_ip addr = none
exist_from (suc rounds) i src_ip addr =
    let rest = exist_from rounds (i + 1) src_ip addr in
    if net (src_ip i) == net addr then some i else rest

-- `exist`
unfoldable pub exist : IpGroups → ℕ → Option ℕ
exist g addr = exist_from g.len 0 g.src_ip addr

-- `create`: the tenth group ends the process.
unfoldable pub create : ℕ → IpGroups → Run (ℕ × IpGroups)
create addr g =
    if ltb (g.len + 1) 10
    then ok (
      g.len,
      record g {
        bursts = update g.bursts g.len (record (g.bursts g.len) { src_ip = net addr * 2 ^ 8 });
        src_ip = update g.src_ip g.len addr;
        len = g.len + 1;
      },
    )
    else exit

-- The end of `add`: the count goes up first, so that the first time stamp stands in cell 1.
unfoldable pub stamp : TimeVal → ℕ → IpGroups → Run IpGroups
stamp ts host g =
    let b = g.bursts host in
    if ltb (b.len + 1) pkt_num
    then ok (record g {
      bursts = update g.bursts host (record b { len = b.len + 1; ts = update b.ts (b.len + 1) ts });
    })
    else fault

-- The call of `add`. `last` is what a read of `pkt_header_last->ts` finds, whose pointer is never set:
-- `none` is memory that cannot be read. `add` makes no use of it.
unfoldable pub add : ℕ → TimeVal → Option TimeVal → IpGroups → Run IpGroups
add addr ts none g = fault
add addr ts (some last) g = elim (exist g addr) [
  | some host ↦ stamp ts host g
  | none ↦ elim (create addr g) [ ok (host, g') ↦ stamp ts host g' | exit ↦ exit | fault ↦ fault ]
]

-- `ntohl(ip_header->src_addr)`, of the packet whose header stands at `o`.
unfoldable pub src_addr_at : Input → ℕ → ℕ
src_addr_at f o =
    let vlan = f.bytes (o + 28) * 2 ^ 8 + f.bytes (o + 29) == 0x8100 in
    let a = (if vlan then o + 34 else o + 30) + 12 in
    f.bytes a * 2 ^ 24 + f.bytes (a + 1) * 2 ^ 16 + f.bytes (a + 2) * 2 ^ 8 + f.bytes (a + 3)

unfoldable pub ts_at : Input → ℕ → TimeVal
ts_at f o = record { tv_sec = (pkt_hdr f o).tv_sec; tv_usec = (pkt_hdr f o).tv_usec }

-- The loop of `process_pcap`, from offset `o`; `none` is a lack of fuel. The headers are read as in
-- split_pcap_bytime.c.
unfoldable pub walk : ℕ → Input → Option TimeVal → ℕ → IpGroups → Option (Run IpGroups)
walk zero f last o g = none
walk (suc fuel) f last o g = elim (ltb o (2 ^ 31) && leb (o + 16) f.size) [
  | false ↦ some (ok g)
  | true ↦ elim (if readable f o then add (src_addr_at f o) (ts_at f o) last g else ok g) [
    | ok g' ↦ walk fuel f last (next_offset f o) g'
    | exit ↦ some exit
    | fault ↦ some fault
  ]
]

-- `process_pcap`
unfoldable pub process_pcap : Input → Option TimeVal → ℕ → IpGroups → Option (Run IpGroups)
process_pcap f last fuel g = walk fuel f last 24 g

-- The gaps of a group, from index `j` on.
unfoldable pub fill_gaps : ℕ → ℕ → (ℕ → TimeVal) → (ℕ → ℤ) → ℕ → ℤ
fill_gaps zero j ts gaps = gaps
fill_gaps (suc rounds) j ts gaps =
    fill_gaps rounds (j + 1) ts (update gaps j ((ts (j + 1)).tv_usec -ℤ (ts j).tv_usec))

-- The width between two time stamps, in milliseconds.
unfoldable pub width_of : TimeVal → TimeVal → Run ℤ
width_of first last =
    let sec = last.tv_sec -ℤ first.tv_sec in
    let usec = last.tv_usec -ℤ first.tv_usec in
    if (sec ==ℤ pos 1) && not (ltb_ℤ (pos 0) usec)
    then ok (pos 1000 +ℤ thousandth usec)
    else if (sec ==ℤ pos 0) && not (ltb_ℤ usec (pos 0))
    then ok (thousandth usec)
    else exit

-- `Quick(&bursts_global[i].gaps[i], 0, bursts_global[i].len-1)`: the sort begins at cell `i`, and
-- may come to cells behind the array.
unfoldable pub sort_gaps : ℕ → BurstPkts → Option (Run (ℕ → ℤ))
sort_gaps i b =
    let sorted = quick b.len (fill_gaps (b.len - 1) 0 b.ts b.gaps) i (b.len - 1) in
    if leb (i + b.len) pkt_num
    then elim sorted [ none ↦ none | some gaps ↦ some (ok gaps) ]
    else some fault

-- A round of `compute_data`; `none` is a lack of fuel of the sort.
unfoldable pub compute_group : ℕ → BurstPkts → Option (Run BurstPkts)
compute_group i b = elim (sort_gaps i b) [
  | none ↦ none
  | some sorted ↦ elim sorted [
    | exit ↦ some exit
    | fault ↦ some fault
    | ok gaps ↦ elim (width_of (b.ts 1) (b.ts (b.len - 1))) [
      | ok w ↦ some (ok (record b { gaps = gaps; width = w }))
      | exit ↦ some exit
      | fault ↦ some fault
    ]
  ]
]

-- `compute_data`, from group `i`.
unfoldable pub compute_data : ℕ → ℕ → IpGroups → Option (Run IpGroups)
compute_data zero i g = some (ok g)
compute_data (suc rounds) i g = elim (compute_group i (g.bursts i)) [
  | none ↦ none
  | some r ↦ elim r [
    | ok b ↦ compute_data rounds (i + 1) (record g { bursts = update g.bursts i b })
    | exit ↦ some exit
    | fault ↦ some fault
  ]
]

-- The state that `main` sets up; what `malloc` leaves in the arrays is `ts` and `gaps`.
unfoldable pub no_groups : (ℕ → ℕ → TimeVal) → (ℕ → ℕ → ℤ) → IpGroups
no_groups ts gaps = record {
  len = 0;
  src_ip = λ _. 0;
  bursts = λ i. record { src_ip = 0; len = 0; ts = ts i; gaps = gaps i; width = pos 0 };
}

-- `main`, up to the printing of the results.
unfoldable pub main :
    Input → Option TimeVal → (ℕ → ℕ → TimeVal) → (ℕ → ℕ → ℤ) → Option (Run IpGroups)
main f last ts gaps = elim (process_pcap f last (f.size + 1) (no_groups ts gaps)) [
  | none ↦ none
  | some r ↦ elim r [ ok g ↦ compute_data g.len 0 g | exit ↦ some exit | fault ↦ some fault ]
]
