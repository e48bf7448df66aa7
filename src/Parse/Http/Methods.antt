-- ===== src/Parse/Http/Methods.antt =====
-- What `http_parse` recognises, against the request lines and status lines of HTTP/1.
use hcmonitor.Prelude.{
  ℕ, ◌+◌, ◌≡◌, ◌≢◌, ◌↔◌, ◌⊎◌, refl, ℤ, pos, negsuc, arith, List, [], ◌∷◌, inl, inr, ◌==ℤ◌, ==ℤ_iff,
  Bool-cases,
}
use hcmonitor.Config.{Mconfig, m_req, m_rsp}
use hcmonitor.Wire.{Memory, tcp_of, payload_of}
use hcmonitor.Node.{Timespec, NodeData}
use hcmonitor.Parse.Http.{
  get_code, post_code, head_code, put_code, delete_code, trace_code, http_switch, http_parse,
}

-- The methods that http_parse.h names.
pub data Method : Type 0 where
  get post head put delete trace : Method

abbrev pub method_text : Method → List ℕ
method_text get = b'G' ∷ b'E' ∷ b'T' ∷ []
method_text post = b'P' ∷ b'O' ∷ b'S' ∷ b'T' ∷ []
method_text head = b'H' ∷ b'E' ∷ b'A' ∷ b'D' ∷ []
method_text put = b'P' ∷ b'U' ∷ b'T' ∷ []
method_text delete = b'D' ∷ b'E' ∷ b'L' ∷ b'E' ∷ b'T' ∷ b'E' ∷ []
method_text trace = b'T' ∷ b'R' ∷ b'A' ∷ b'C' ∷ b'E' ∷ []

abbrev pub method_code : Method → ℤ
method_code get = get_code
method_code post = post_code
method_code head = head_code
method_code put = put_code
method_code delete = delete_code
method_code trace = trace_code

-- The text stands at index `i`.
abbrev pub Spells : (ℕ → ℕ) → ℕ → List ℕ → Type 0
Spells p i [] = Unit
Spells p i (b ∷ bs) = (p i ≡ b) × Spells p (i + 1) bs

-- A payload that begins with one of the six method names of http_parse.h, GET, HEAD, POST, PUT,
-- DELETE and TRACE, is a request of that method, whatever stood in the slot before.
pub http_switch-method :
    (p : ℕ → ℕ) (d : NodeData) (k : Method)
    → Spells p 0 (method_text k)
    → ((http_switch p d).type ≡ m_req) × ((http_switch p d).status ≡ method_code k)
unfolding http_switch
http_switch-method p d get s = ground arith
http_switch-method p d post s = ground arith
http_switch-method p d head s = ground arith
http_switch-method p d put s = ground arith
http_switch-method p d delete s = ground arith
http_switch-method p d trace s = ground arith

-- No letter that a method or a status line begins with.
abbrev pub IsForeign : ℕ → Type 0
IsForeign b = (b ≢ b'G') × (b ≢ b'H') × (b ≢ b'P') × (b ≢ b'D') × (b ≢ b'T')

foreign_switch : (p : ℕ → ℕ) (d : NodeData) → IsForeign (p 0) → http_switch p d ≡ d
unfolding http_switch
foreign_switch p d f = ground arith

module _ (c : Mconfig) (m : Memory) (ip : ℕ) (slot : NodeData) (now : Timespec) (len : ℕ) where
  -- A payload that begins with none of the letters that the parser knows is taken exactly if the slot
  -- still bears the type of an earlier request or response, since the parser does not reset it.
  pub http_parse-stale :
      IsForeign (m (pos (payload_of m (tcp_of ip) + 0)))
      → ((http_parse c m ip slot now len).ret ≡ pos 1) ↔ ((slot.type ≡ m_req) ⊎ (slot.type ≡ m_rsp))
  unfolding http_parse
  http_parse-stale f =
      rw
        (foreign_switch (λ i. m (pos (payload_of m (tcp_of ip) + i)))
          (record slot { status = negsuc 0 }) f)
        (elim (Bool-cases (slot.type ==ℤ m_req)) [
          | inl q ↦ rw q ((λ _. inl ((==ℤ_iff _ _).0 q)), λ _. refl)
          | inr q ↦ elim (Bool-cases (slot.type ==ℤ m_rsp)) [
            | inl r ↦ rw (q, r) ((λ _. inr ((==ℤ_iff _ _).0 r)), λ _. refl)
            | inr r ↦
                rw (q, r)
                  ((λ z. cc), λ z. ground (arith, ==ℤ_iff slot.type m_req, ==ℤ_iff slot.type m_rsp))
          ]
        ])
