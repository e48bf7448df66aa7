-- ===== src/Parse/Laws.antt =====
-- What `key_extract` makes of the two directions of a connection.
use hcmonitor.Prelude.{
  ℕ, ◌^◌, ◌≡◌, ◌↔◌, refl, truthy, to_unsigned, true, Bool-cases, inl, inr, some,
}
use hcmonitor.Config.{Mconfig, m_req, m_rsp}
use hcmonitor.Wire.{Memory, src_addr, dst_addr, src_port, dst_port, sent_seq, recv_ack, tcp_of}
use hcmonitor.Node.{Timespec, NodeData, key_bytes}
use hcmonitor.Parse.{
  request, response, Counters, classify, store_request, store_response, key_extract,
}

-- A request and a response of one client: what the client sends and what is sent to it.
pub record IsExchange (m m' : Memory) (ip ip' : ℕ) : Type 0 where
  pub address : src_addr m ip ≡ dst_addr m' ip'
  pub port : src_port m (tcp_of ip) ≡ dst_port m' (tcp_of ip')

key_extract-request :
    (c : Mconfig) (m : Memory) (ip : ℕ) (d : NodeData) (now : Timespec) (len : ℕ) (n : Counters)
    → classify c m ip ≡ some request
    → (key_extract c m ip d now len n).node ≡ store_request c m ip d now len
unfolding key_extract
key_extract-request c m ip d now len n e = rw (e, key_extract)

key_extract-response :
    (c : Mconfig) (m : Memory) (ip : ℕ) (d : NodeData) (now : Timespec) (len : ℕ) (n : Counters)
    → classify c m ip ≡ some response
    → (key_extract c m ip d now len n).node ≡ store_response c m ip d now len
unfolding key_extract
key_extract-response c m ip d now len n e = rw (e, key_extract)

module _ (c : Mconfig) (m m' : Memory) (ip ip' : ℕ) (d d' : NodeData) (now now' : Timespec)
    (len len' : ℕ) where
  stored-key_bytes :
      IsExchange m m' ip ip'
      → (key_bytes c (store_response c m' ip' d' now' len')
          ≡ key_bytes c (store_request c m ip d now len))
        ↔ ((d'.key.padding ≡ d.key.padding)
            × (truthy c.enable_http ≡ true
                → to_unsigned (2 ^ 32) now'.tv_sec ≡ to_unsigned (2 ^ 32) now.tv_sec))
  unfolding key_bytes store_request store_response
  stored-key_bytes x = elim (Bool-cases (truthy c.enable_http)) [
    | inl e ↦ rw e (
      (λ q. (cc, λ t. cc)),
      λ q. let pad = q.0 in let sec = q.1 refl in let a = x.address in let b = x.port in cc,
    )
    | inr e ↦
        rw e ((λ q. (cc, λ t. cc)), λ q. let pad = q.0 in let a = x.address in let b = x.port in cc)
  ]

  -- Of a labelled request and a labelled response of one client, whatever slots they are parsed into:
  -- the first is taken down as a request with the sequence number it was sent with, the second as
  -- a response with the number that it acknowledges, and the table finds them under the same key
  -- exactly if the paddings of the two slots agree and, under `enable_http`, the two packets
  -- arrived in the same second (modulo 2 ^ 32).
  pub key_extract-key_bytes :
      (n n' : Counters)
      → IsExchange m m' ip ip'
      → classify c m ip ≡ some request
      → classify c m' ip' ≡ some response
      → let q = (key_extract c m ip d now len n).node in
        let r = (key_extract c m' ip' d' now' len' n').node in
        (q.type ≡ m_req)
        × (r.type ≡ m_rsp)
        × (q.sent_seq ≡ sent_seq m (tcp_of ip))
        × (r.sent_seq ≡ recv_ack m' (tcp_of ip'))
        × ((key_bytes c r ≡ key_bytes c q) ↔ (
            (d'.key.padding ≡ d.key.padding)
            × (truthy c.enable_http ≡ true
                → to_unsigned (2 ^ 32) now'.tv_sec ≡ to_unsigned (2 ^ 32) now.tv_sec)))
  unfolding store_request store_response
  key_extract-key_bytes n n' x e e' =
      rw
        (key_extract-request c m ip d now len n e, key_extract-response c m' ip' d' now' len' n' e')
        (refl, refl, refl, refl, stored-key_bytes x)
