-- ===== src/Parse/Tests.antt =====
-- The parsers on the two directions of a connection.
use hcmonitor.Prelude.{
  ℕ, ◌^◌, ◌≡◌, ◌↔◌, ◌⊎◌, refl, pos, ◌+ℤ◌, [], ◌∷◌, truthy, to_unsigned, true, arith, get_or,
}
use hcmonitor.Config.{m_req, m_rsp, init_config}
use hcmonitor.Node.{key_bytes}
use hcmonitor.Parse.{classify, Counters, key_extract}
use hcmonitor.Parse.Laws.{key_extract-key_bytes}
use hcmonitor.Parse.Http.{http_switch, http_parse, post_code}
use hcmonitor.Parse.Http.Methods.{post, http_switch-method, http_parse-stale}
use hcmonitor.Fixtures.{conf, request_frame, response_frame, clock, empty_node}

abbrev none_yet : Counters
none_yet = record { request_num = 0; response_num = 0 }

key_extract-key_bytes_example :
    let q = (key_extract conf request_frame 14 empty_node (clock (pos 5)) 8 none_yet).node in
    let r = (key_extract conf response_frame 14 empty_node (clock (pos 6)) 8 none_yet).node in
    (q.type ≡ m_req)
    × (r.type ≡ m_rsp)
    × (q.sent_seq ≡ 1000)
    × (r.sent_seq ≡ 1008)
    × ((key_bytes conf r ≡ key_bytes conf q) ↔ (
        (empty_node.key.padding ≡ empty_node.key.padding)
        × (truthy conf.enable_http ≡ true
            → to_unsigned (2 ^ 32) (pos 6) ≡ to_unsigned (2 ^ 32) (pos 5))))
unfolding classify init_config ◌+ℤ◌
key_extract-key_bytes_example =
    key_extract-key_bytes conf request_frame response_frame 14 14 empty_node empty_node
      (clock (pos 5)) (clock (pos 6)) 8 8 none_yet none_yet (record { address = refl; port = refl })
      refl refl

-- "POST /"
abbrev post_line : ℕ → ℕ
post_line i = get_or (b'P' ∷ b'O' ∷ b'S' ∷ b'T' ∷ b' ' ∷ b'/' ∷ []) i 0

http_switch-method_example :
    ((http_switch post_line empty_node).type ≡ m_req)
    × ((http_switch post_line empty_node).status ≡ post_code)
http_switch-method_example =
    http_switch-method post_line empty_node post (refl, (refl, (refl, (refl, tt))))

-- The payload of the request frame begins with a zero byte.
http_parse-stale_example :
    ((http_parse conf request_frame 14 empty_node (clock (pos 5)) 8).ret ≡ pos 1)
    ↔ ((empty_node.type ≡ m_req) ⊎ (empty_node.type ≡ m_rsp))
http_parse-stale_example =
    http_parse-stale conf request_frame 14 empty_node (clock (pos 5)) 8 (omega arith)
