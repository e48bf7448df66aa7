-- ===== src/Split.antt =====
-- pcap_analyse/split_pcap_bytime.c: a capture is split into files of packets that lie close together
-- in time. The input file is its bytes and its size; each output file is the list of the packets
-- that are written behind a copy of the file header.
pub mod Groups
pub mod Laws
pub mod Output
pub mod Arrivals
pub mod RoundTrip
mod Tests
use hcmonitor.Prelude.{
  ℕ, zero, suc, ◌+◌, ◌*◌, ◌/◌, ◌%◌, ◌^◌, ℤ, pos, negsuc, ◌-ℤ◌, ◌==ℤ◌, ltb_ℤ, ltb, leb, ◌==◌, ◌&&◌,
  if◌then◌else◌, int_of_word, Bool, Option, some, none, List, [], ◌∷◌, ◌++◌, not,
}

-- `struct time_val` and `struct pcap_pkthdr`, in one record.
pub record PktHdr : Type 0 where
  pub tv_sec : ℤ
  pub tv_usec : ℤ
  pub caplen : ℕ
  pub len : ℕ

-- The input: its bytes and their number.
pub record Input : Type 0 where
  pub bytes : ℕ → ℕ
  pub size : ℕ

-- `x / 1000` on an int, which rounds towards 0.
unfoldable pub thousandth : ℤ → ℤ
thousandth (pos n) = pos (n / 1000)
thousandth (negsuc n) = pos 0 -ℤ pos ((n + 1) / 1000)

-- `less_second`
unfoldable less_second : PktHdr → PktHdr → ℤ
less_second zero_hdr current =
    let sec = current.tv_sec -ℤ zero_hdr.tv_sec in
    let usec = current.tv_usec -ℤ zero_hdr.tv_usec in
    if (sec ==ℤ pos 0) && not (ltb_ℤ (pos 700) (thousandth usec))
    then pos 0
    else if (sec ==ℤ pos 1) && not (ltb_ℤ (negsuc 299) (thousandth usec))
    then pos 0
    else negsuc 0

-- A little-endian word of the file, as `fread` puts it into an integer.
abbrev le32 : Input → ℕ → ℕ
le32 f o = f.bytes o + f.bytes (o + 1) * 2 ^ 8 + f.bytes (o + 2) * 2 ^ 16 + f.bytes (o + 3) * 2 ^ 24

-- The packet header at an offset.
unfoldable pub pkt_hdr : Input → ℕ → PktHdr
pkt_hdr f o = record {
  tv_sec = int_of_word (le32 f o);
  tv_usec = int_of_word (le32 f (o + 4));
  caplen = le32 f (o + 8);
  len = le32 f (o + 12);
}

-- Whether the Ethernet header and the IP header behind it, which may follow a VLAN tag, can be read.
unfoldable pub readable : Input → ℕ → Bool
readable f o =
    let vlan = f.bytes (o + 28) * 2 ^ 8 + f.bytes (o + 29) == 0x8100 in
    leb (o + 30) f.size && leb ((if vlan then o + 34 else o + 30) + 20) f.size

-- The bytes from offset `o` on, `n` of them: past the end of the file the array `cs` keeps what the
-- stack held, which is `stray`.
unfoldable pub copy : (ℕ → ℕ) → Input → ℕ → ℕ → List ℕ
copy stray f o zero = []
copy stray f o (suc n) = (if ltb o f.size then f.bytes o else stray o) ∷ copy stray f (o + 1) n

-- A packet as it is written: its header, for the time, and the bytes.
record Packet : Type 0 where
  hdr : PktHdr
  cs : List ℕ

unfoldable packet_at : (ℕ → ℕ) → Input → ℕ → Packet
packet_at stray f o = record {
  hdr = pkt_hdr f o;
  cs = copy stray f o ((16 + (pkt_hdr f o).caplen) % 2 ^ 32);
}

-- The locals of `process_pcap`: `pkt_header_0`, `i`, the global `times`, the files that are closed,
-- and the one that is open.
record State : Type 0 where
  pkt_header_0 : PktHdr
  i : ℕ
  times : ℕ
  closed : List (List Packet)
  current : List Packet

-- The first test of a round: the first packet sets the time.
unfoldable note_first : PktHdr → State → State
note_first h s = if s.i == 0 then record s { pkt_header_0 = h } else s

-- The packet is written, into a new file if it lies too far behind.
unfoldable write : Packet → State → State
write p s =
    if less_second s.pkt_header_0 p.hdr ==ℤ pos 0
    then record s { i = s.i + 1; current = s.current ++ p ∷ [] }
    else record s {
      pkt_header_0 = p.hdr;
      i = s.i + 1;
      times = s.times + 1;
      closed = s.closed ++ s.current ∷ [];
      current = p ∷ [];
    }

-- The packet at an offset.
unfoldable visit : (ℕ → ℕ) → Input → ℕ → State → State
visit stray f o s =
    let noted = note_first (pkt_hdr f o) s in
    if readable f o then write (packet_at stray f o) noted else noted

-- `pkt_offset` behind a packet. It is an int: from 2 ^ 31 on it is negative, and `fseek` fails.
unfoldable pub next_offset : Input → ℕ → ℕ
next_offset f o = (o + 16 + (pkt_hdr f o).caplen) % 2 ^ 32

-- The loop, from offset `o`; `none` is a lack of fuel.
unfoldable walk : (ℕ → ℕ) → Input → ℕ → ℕ → State → Option State
walk stray f zero o s = none
walk stray f (suc fuel) o s =
    let rest = walk stray f fuel (next_offset f o) (visit stray f o s) in
    if ltb o (2 ^ 31) && leb (o + 16) f.size then rest else some s

-- The locals before the loop; `pkt_header_0` is cleared by `memset`.
abbrev start_state : State
start_state = record {
  pkt_header_0 = record { tv_sec = pos 0; tv_usec = pos 0; caplen = 0; len = 0 };
  i = 0;
  times = 1;
  closed = [];
  current = [];
}

-- `process_pcap`, from behind the file header.
unfoldable process_pcap : (ℕ → ℕ) → Input → ℕ → Option (List (List Packet))
process_pcap stray f fuel = elim (walk stray f fuel 24 start_state) [
  | none ↦ none
  | some s ↦ some (s.closed ++ s.current ∷ [])
]
