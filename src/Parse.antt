-- ===== src/Parse.antt =====
-- What is read out of a packet: `key_extract` and `burst_count` of HCMonitor/monitor.c, and
-- `https_parse` and `http_parse` of HCMonitor/http_parse.c (which a build with USE_HTTP takes
-- instead). Each gets the queue slot that the packet will stand in, and returns its result code
-- and the slot.
pub mod Burst
pub mod Http
pub mod Laws
mod Tests
use hcmonitor.Prelude.{
  ℕ, ◌+◌, ◌%◌, ◌^◌, ℤ, pos, ◌==ℤ◌, char_of_byte, get_or, Bool, ◌||◌, List, if◌then◌else◌, Option,
  some, none, true, false,
}
use hcmonitor.Config.{Mconfig, m_req, m_rsp}
use hcmonitor.Wire.{
  Memory, src_addr, dst_addr, src_port, dst_port, sent_seq, recv_ack, tcp_of, payload_of, byte_at,
}
use hcmonitor.Node.{Timespec, Ipv4Tuple, NodeData}

-- `req_bit[poffset] == label[0] || req_bit[poffset] == label[1]`
abbrev pub has_label : List ℤ → ℕ → Bool
has_label labels b = (pos b ==ℤ get_or labels 0 (pos 0)) || (pos b ==ℤ get_or labels 1 (pos 0))

-- Which way a packet goes.
pub data Direction : Type 0 where
  request response : Direction

-- `key_extract`: the label byte of the payload tells requests from responses.
unfoldable pub classify : Mconfig → Memory → ℕ → Option Direction
classify c m ip =
    let label = byte_at m (payload_of m (tcp_of ip)) c.label_offset in
    if has_label c.req_label label
    then some request
    else if has_label c.resp_label label
    then some response
    else none

-- What `key_extract` stores for a request: the client is the sender.
unfoldable pub store_request : Mconfig → Memory → ℕ → NodeData → Timespec → ℕ → NodeData
store_request c m ip d now len =
    let tcp = tcp_of ip in
    record d {
      key = record (d.key) { ip_src = src_addr m ip; port_src = src_port m tcp };
      type = m_req;
      pri = char_of_byte (byte_at m (payload_of m tcp) c.pri_offset);
      total_len = len;
      sent_seq = sent_seq m tcp;
      ack_seq = recv_ack m tcp;
      ts = now;
    }

-- What it stores for a response: the client is the receiver, and the acknowledgement of the server
-- takes the place of the sequence number.
unfoldable pub store_response : Mconfig → Memory → ℕ → NodeData → Timespec → ℕ → NodeData
store_response c m ip d now len =
    let tcp = tcp_of ip in
    record d {
      key = record (d.key) { ip_src = dst_addr m ip; port_src = dst_port m tcp };
      type = m_rsp;
      pri = char_of_byte (byte_at m (payload_of m tcp) c.pri_offset);
      total_len = len;
      sent_seq = recv_ack m tcp;
      ack_seq = sent_seq m tcp;
      ts = now;
    }

-- `request_num` and `response_num`, which `key_extract` counts.
pub record Counters : Type 0 where
  pub request_num : ℕ
  pub response_num : ℕ

abbrev pub inc32 : ℕ → ℕ
inc32 n = (n + 1) % 2 ^ 32

-- The result of a parser: its code, the slot, the counters.
pub record Parsed : Type 0 where
  pub ret : ℤ
  pub node : NodeData
  pub counters : Counters

unfoldable pub key_extract : Mconfig → Memory → ℕ → NodeData → Timespec → ℕ → Counters → Parsed
key_extract c m ip d now len n = elim (classify c m ip) [
  | none ↦ record { ret = pos 0; node = d; counters = n }
  | some way ↦ elim way [
    | request ↦ record {
      ret = pos 1;
      node = store_request c m ip d now len;
      counters = record n { request_num = inc32 n.request_num };
    }
    | response ↦ record {
      ret = pos 1;
      node = store_response c m ip d now len;
      counters = record n { response_num = inc32 n.response_num };
    }
  ]
]
