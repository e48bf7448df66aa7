-- ===== src/Parse/Http.antt =====
-- HCMonitor/http_parse.c: the parsers of a build with USE_HTTP.
pub mod Methods
use hcmonitor.Prelude.{
  ℕ, ◌+◌, ℤ, pos, negsuc, ◌==◌, ◌==ℤ◌, ltb_ℤ, char_of_byte, char_of_int, Bool, ◌&&◌, if◌then◌else◌,
}
use hcmonitor.Config.{Mconfig, m_req, m_rsp}
use hcmonitor.Wire.{
  Memory, src_addr, dst_addr, src_port, dst_port, sent_seq, recv_ack, tcp_of, payload_of, byte_at,
}
use hcmonitor.Node.{Timespec, NodeData}

-- The request methods of http_parse.h.
abbrev pub get_code : ℤ
get_code = pos 1

abbrev pub post_code : ℤ
post_code = pos 2

abbrev pub head_code : ℤ
head_code = pos 3

abbrev pub put_code : ℤ
put_code = pos 4

abbrev pub delete_code : ℤ
delete_code = pos 5

abbrev pub trace_code : ℤ
trace_code = pos 6

-- The status line: `p[9]`, `p[10]` and `p[11]` are the digits of the status code.
unfoldable pub status_line : (ℕ → ℕ) → NodeData → NodeData
status_line p d =
    if p 9 == b'2'
    then (if (p 10 == b'0') && (p 11 == b'0')
        then record d { status = get_code; type = m_rsp }
        else d)
    else (if p 9 == b'4'
        then (if p 10 == b'0' then record d { status = get_code; type = m_rsp } else d)
        else d)

-- The `switch` of `http_parse`, on the first bytes of the payload. A case that does not apply
-- leaves the slot as it was.
unfoldable pub http_switch : (ℕ → ℕ) → NodeData → NodeData
unfolding status_line
http_switch p d =
    if p 0 == b'G'
    then record d { type = m_req; status = get_code }
    else if p 0 == b'H'
    then (if p 1 == b'T'
        then status_line p d
        else (if p 1 == b'E' then record d { status = head_code; type = m_req } else d))
    else if p 0 == b'P'
    then (if p 1 == b'O'
        then record d { type = m_req; status = post_code }
        else (if p 1 == b'U'
            then record d { type = m_req; status = put_code }
            else record d { type = m_req }))
    else if p 0 == b'D'
    then record d { status = delete_code; type = m_req }
    else if p 0 == b'T'
    then record d { status = trace_code; type = m_req }
    else d

-- A parser's result code and the slot.
pub record Read : Type 0 where
  pub ret : ℤ
  pub node : NodeData

-- `http_parse`: `status` is reset, `type` is not.
unfoldable pub http_parse : Mconfig → Memory → ℕ → NodeData → Timespec → ℕ → Read
http_parse c m ip slot now len =
    let tcp = tcp_of ip in
    let p = payload_of m tcp in
    let d = http_switch (λ i. m (pos (p + i))) (record slot { status = negsuc 0 }) in
    if d.type ==ℤ m_req
    then record {
      ret = pos 1;
      node = record d {
        pri = char_of_byte (byte_at m p c.pri_offset);
        key = record (d.key) { ip_src = src_addr m ip; port_src = src_port m tcp };
        key_status = d.status;
        total_len = len;
        sent_seq = sent_seq m tcp;
        ts = now;
      };
    }
    else if d.type ==ℤ m_rsp
    then record {
      ret = pos 1;
      node = record d {
        key = record (d.key) { ip_src = dst_addr m ip; port_src = dst_port m tcp };
        key_status = d.status;
        total_len = len;
        sent_seq = recv_ack m tcp;
        ts = now;
      };
    }
    else record { ret = pos 0; node = d }

-- `https_parse`: the server's port tells the direction, the length of the payload the priority.
unfoldable pub https_parse : Mconfig → Memory → ℕ → NodeData → Timespec → ℕ → Read
https_parse c m ip d now len =
    let tcp = tcp_of ip in
    if pos (dst_port m tcp) ==ℤ c.server_port
    then record {
      ret = pos 1;
      node = record d {
        key = record (d.key) { ip_src = src_addr m ip; port_src = src_port m tcp };
        type = m_req;
        pri = if ltb_ℤ c.pkt_len (pos len) then char_of_int c.pri_high_label else pos 0;
        total_len = len;
        sent_seq = sent_seq m tcp;
        ack_seq = recv_ack m tcp;
        ts = now;
      };
    }
    else if pos (src_port m tcp) ==ℤ c.server_port
    then record {
      ret = pos 1;
      node = record d {
        key = record (d.key) { ip_src = dst_addr m ip; port_src = dst_port m tcp };
        type = m_rsp;
        total_len = len;
        key_status = d.status;
        sent_seq = recv_ack m tcp;
        ts = now;
      };
    }
    else record { ret = pos 0; node = d }
