-- ===== src/Parse/Burst.antt =====
-- `burst_count` of HCMonitor/monitor.c, taken in place of `key_extract` under `enable_mcc`: how
-- many requests each of the sources sent since the timer loop last wrote the counts out.
use hcmonitor.Prelude.{
  ℕ, ◌+◌, ◌/◌, ◌%◌, ℤ, pos, negsuc, [], ◌∷◌, Option, some, none, Bool, ◌==◌, if◌then◌else◌, update,
}
use hcmonitor.Config.{Mconfig}
use hcmonitor.Wire.{Memory, src_addr, tcp_of, payload_of, byte_at}
use hcmonitor.Node.{NodeData}
use hcmonitor.Hash.{RteHash}
use hcmonitor.Parse.{Counters, has_label, inc32}

-- `IP_NUM`, the length of `burst` and (as `HM * NM`) of `ip_src`.
abbrev pub ip_num : ℕ
ip_num = 6

-- The globals that it works on. `label` is what `sprintf` prints into `ip_src[id]`: the two low
-- bytes of the address.
pub record BurstState (h : RteHash) : Type 0 where
  pub table : h.Table
  pub burst : ℕ → ℕ
  pub label : ℕ → ℕ × ℕ

-- `id % IP_NUM` of an int, as an index of the two arrays; `none` where it is negative.
unfoldable pub burst_index : ℤ → Option ℕ
burst_index (pos id) = some (id % ip_num)
burst_index (negsuc e) = if (e + 1) % ip_num == 0 then some 0 else none

-- A packet with a request label is counted at its source's index.
unfoldable pub bump_burst : (h : RteHash) → BurstState h → h.Table → ℕ → ℕ → BurstState h
bump_burst h s t id ip = record {
  table = t;
  burst = update s.burst id (inc32 (s.burst id));
  label = update s.label id (ip / 256 % 256, ip % 256);
}

-- The result code, the slot, and the globals.
pub record Counted (h : RteHash) : Type 0 where
  pub ret : ℤ
  pub node : NodeData
  pub counters : Counters
  pub bursts : BurstState h

-- Whether the packet bears a request label.
unfoldable pub is_burst : Mconfig → Memory → ℕ → Bool
is_burst c m ip = has_label c.req_label (byte_at m (payload_of m (tcp_of ip)) c.label_offset)

-- `burst_count`; `none` is a write outside the arrays. The key is `struct burst_tuple`: the address
-- alone. It returns 1 for every packet.
unfoldable pub burst_count :
    (h : RteHash) → Mconfig → Memory → ℕ → NodeData → Counters → BurstState h → Option (Counted h)
unfolding bump_burst is_burst
burst_count h c m ip d n s =
    if is_burst c m ip
    then (let r = h.add_key s.table (src_addr m ip ∷ []) in
        elim (burst_index r.0) [
          | none ↦ none
          | some id ↦ some (record {
            ret = pos 1;
            node = record d { key = record (d.key) { ip_src = src_addr m ip } };
            counters = record n { request_num = inc32 n.request_num };
            bursts = bump_burst h s r.1 id (src_addr m ip);
          })
        ])
    else some (record { ret = pos 1; node = d; counters = n; bursts = s })
