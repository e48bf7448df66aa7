-- ===== src/Monitor/Cases.antt =====
-- What each packet does to the monitor, branch by branch.
use hcmonitor.Prelude.{
  ℕ, ◌<◌, ◌≡◌, pos, negsuc, true, false, some, none, lt→ltb, Bool-cases, inl, inr,
}
use hcmonitor.Config.{Mconfig, m_req, m_rsp}
use hcmonitor.Floats.{Floats}
use hcmonitor.Hash.{RteHash}
use hcmonitor.Node.{NodeData, key_bytes}
use hcmonitor.Monitor.{
  req_hash_entries, ReqTemp, Monitor, inc32, out_of_window, note_request, process_request, measure,
  process_response, response_time_process,
}

module _ {F : Floats} {h : RteHash} (c : Mconfig) (stray : ReqTemp) where
  -- A response of a connection that the table does not hold changes nothing but the count of
  -- responses, whatever a read at the negative position finds.
  pub response_unknown :
      (d : NodeData) (m : Monitor F h) {e : ℕ}
      → d.type ≡ m_rsp
      → h.lookup m.table (key_bytes c d) ≡ negsuc e
      → response_time_process c stray d m ≡ some (negsuc 1, record m { pkt_rep = inc32 m.pkt_rep })
  unfolding response_time_process process_response
  response_unknown d m t e =
      simp (t, e, process_response)
        (elim (Bool-cases (out_of_window stray d)) [ inl o ↦ rw o | inr o ↦ rw o ])

  -- One whose acknowledgement lies outside the payload of its request likewise.
  pub response_outside :
      (d : NodeData) (m : Monitor F h) (p : ℕ)
      → d.type ≡ m_rsp
      → h.lookup m.table (key_bytes c d) ≡ pos p
      → p < req_hash_entries
      → out_of_window (m.maxseq p) d ≡ true
      → response_time_process c stray d m ≡ some (negsuc 1, record m { pkt_rep = inc32 m.pkt_rep })
  unfolding response_time_process process_response
  response_outside d m p t e small out = simp (t, e, process_response, out, lt→ltb p _ small)

  -- Any other response of a known connection is measured.
  pub response_measure :
      (d : NodeData) (m : Monitor F h) (p : ℕ)
      → d.type ≡ m_rsp
      → h.lookup m.table (key_bytes c d) ≡ pos p
      → p < req_hash_entries
      → out_of_window (m.maxseq p) d ≡ false
      → response_time_process c stray d m ≡ measure c p d (record m { pkt_rep = inc32 m.pkt_rep })
  unfolding response_time_process process_response
  response_measure d m p t e small out = simp (t, e, process_response, out, lt→ltb p _ small)

  -- A request for which the table has a position.
  pub request_noted :
      (d : NodeData) (m : Monitor F h) (p : ℕ)
      → d.type ≡ m_req
      → (h.add_key m.table (key_bytes c d)).0 ≡ pos p
      → p < req_hash_entries
      → response_time_process c stray d m
        ≡ some (
          pos 1,
          note_request c p d (record m {
            pkt_req = inc32 m.pkt_req;
            table = (h.add_key m.table (key_bytes c d)).1;
          }),
        )
  unfolding response_time_process process_request
  request_noted d m p t e small = simp (t, e, process_request, lt→ltb p _ small)

  -- A request for which the table has none is written out of bounds.
  pub request_fault :
      (d : NodeData) (m : Monitor F h) {e : ℕ}
      → d.type ≡ m_req
      → (h.add_key m.table (key_bytes c d)).0 ≡ negsuc e
      → response_time_process c stray d m ≡ none
  unfolding response_time_process process_request
  request_fault d m t e = simp (t, e, process_request)
