-- ===== src/Wire.antt =====
-- Frames in memory: the headers that HCMonitor/main.c, monitor.c and http_parse.c read through
-- DPDK's `rte_ether_hdr`, `rte_ipv4_hdr` and `rte_tcp_hdr`, on a little-endian machine.
use hcmonitor.Prelude.{ℕ, ◌+◌, ◌-◌, ◌*◌, ◌/◌, ◌%◌, ◌^◌, ℤ, pos, ◌+ℤ◌, if◌then◌else◌, ◌==◌}

-- The byte at each address, address 0 being the first byte of the frame. The code checks no bound,
-- and an offset from the settings may be negative.
abbrev pub Memory : Type 0
Memory = ℤ → ℕ

-- `rte_be_to_cpu_16` and `rte_be_to_cpu_32` of what stands at an address.
abbrev pub be16 : Memory → ℕ → ℕ
be16 m a = m (pos a) % 256 * 256 + m (pos (a + 1)) % 256

abbrev pub be32 : Memory → ℕ → ℕ
be32 m a = be16 m a * 2 ^ 16 + be16 m (a + 2)

-- `sizeof` the Ethernet, VLAN and IPv4 headers, and `RTE_ETHER_TYPE_VLAN`.
abbrev pub ether_hdr_size : ℕ
ether_hdr_size = 14

abbrev pub vlan_hdr_size : ℕ
vlan_hdr_size = 4

abbrev pub ipv4_hdr_size : ℕ
ipv4_hdr_size = 20

abbrev pub ether_type_vlan : ℕ
ether_type_vlan = 0x8100

-- Fields of the IPv4 header at `ip`.
abbrev pub total_length : Memory → ℕ → ℕ
total_length m ip = be16 m (ip + 2)

abbrev pub next_proto_id : Memory → ℕ → ℕ
next_proto_id m ip = m (pos (ip + 9)) % 256

abbrev pub src_addr : Memory → ℕ → ℕ
src_addr m ip = be32 m (ip + 12)

abbrev pub dst_addr : Memory → ℕ → ℕ
dst_addr m ip = be32 m (ip + 16)

-- Fields of the TCP header at `tcp`.
abbrev pub src_port : Memory → ℕ → ℕ
src_port m tcp = be16 m tcp

abbrev pub dst_port : Memory → ℕ → ℕ
dst_port m tcp = be16 m (tcp + 2)

abbrev pub sent_seq : Memory → ℕ → ℕ
sent_seq m tcp = be32 m (tcp + 4)

abbrev pub recv_ack : Memory → ℕ → ℕ
recv_ack m tcp = be32 m (tcp + 8)

abbrev pub data_off : Memory → ℕ → ℕ
data_off m tcp = m (pos (tcp + 12)) % 256

-- `(struct rte_tcp_hdr *)((unsigned char *) ip_hdr + sizeof(struct rte_ipv4_hdr))`
abbrev pub tcp_of : ℕ → ℕ
tcp_of ip = ip + ipv4_hdr_size

-- `(unsigned char *) tcp + (tcp->data_off >> 2)`
abbrev pub payload_of : Memory → ℕ → ℕ
payload_of m tcp = tcp + data_off m tcp / 4

-- `p[offset]` for an int offset.
abbrev pub byte_at : Memory → ℕ → ℤ → ℕ
byte_at m p offset = m (pos p +ℤ offset) % 256

-- The address of the IP header, behind a VLAN tag if there is one.
unfoldable pub locate_ip : Memory → ℕ
locate_ip m =
    if be16 m 12 == ether_type_vlan then vlan_hdr_size + ether_hdr_size else ether_hdr_size

-- `payload_len`, a uint16_t: the mask 0xf0 keeps the high four bits of `data_off`.
unfoldable pub payload_len : Memory → ℕ → ℕ
payload_len m ip =
    (total_length m ip + 2 ^ 16 - ipv4_hdr_size - data_off m (tcp_of ip) / 16 * 16 / 4) % 2 ^ 16
