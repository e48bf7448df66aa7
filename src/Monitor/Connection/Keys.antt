-- ===== src/Monitor/Connection/Keys.antt =====
-- Keys of records, and the table behind an insertion.
use hcmonitor.Prelude.{
  ℕ, ◌≡◌, ◌≢◌, ◌⊎◌, refl, sym, ◌∙◌, pos, negsuc, ℤ-cases, true, false, if◌then◌else◌, Bool-cases,
  inl, inr, Option, some, none, option_or, [], ◌==ℤ◌, truthy, List, arith,
}
use hcmonitor.Config.{Mconfig, m_req, m_rsp}
use hcmonitor.Floats.{Floats}
use hcmonitor.Hash.{RteHash, HashLaws}
use hcmonitor.Hash.Model.{same_key, same_key_iff}
use hcmonitor.Node.{NodeData, key_bytes}
use hcmonitor.Monitor.{req_hash_entries}
use hcmonitor.Monitor.Connection.{
  Conn, asked, rated, answer, answered, sample_of, conn_step, emitted, next_conns,
}

-- Keys are told apart.
pub own_or_other :
    (c : Mconfig) (d : NodeData) (k : List ℕ) → (key_bytes c d ≡ k) ⊎ (key_bytes c d ≢ k)
own_or_other c d k = elim (Bool-cases (same_key (key_bytes c d) k)) [
  | inl e ↦ inl ((same_key_iff (key_bytes c d) k).0 e)
  | inr e ↦ inr (λ f. ground (arith, e, (same_key_iff (key_bytes c d) k).1 f))
]

module _ (F : Floats) (c : Mconfig) (blank : Conn) where
  pub next-here :
      (d : NodeData) (conns : List ℕ → Option Conn) (k : List ℕ)
      → key_bytes c d ≡ k
      → next_conns F c blank d conns k ≡ conn_step F c blank d (conns k)
  next-here d conns k e = rw ((same_key_iff (key_bytes c d) k).1 e) refl

  pub next-there :
      (d : NodeData) (conns : List ℕ → Option Conn) (k : List ℕ)
      → key_bytes c d ≢ k
      → next_conns F c blank d conns k ≡ conns k
  next-there d conns k ne = elim (Bool-cases (same_key (key_bytes c d) k)) [
    | inl e ↦ absurd (ne ((same_key_iff (key_bytes c d) k).0 e))
    | inr e ↦ rw e refl
  ]

  -- A request makes its connection, or goes on with it.
  pub requested :
      (d : NodeData) (o : Option Conn) (q : Conn)
      → (d.type ==ℤ m_req) ≡ true
      → option_or o blank ≡ q
      → conn_step F c blank d o
        ≡ some (let r = asked d q in if truthy c.rsp_pri then r else rated c d r)
  unfolding conn_step
  requested d o q e f = rw (e, f, conn_step) refl

  pub emitted_request :
      (d : NodeData) (o : Option Conn) → (d.type ==ℤ m_req) ≡ true → emitted F c blank d o ≡ []
  unfolding emitted
  emitted_request d none e = refl
  emitted_request d (some q) e = rw (e, emitted) refl

  -- A response goes by what is known of its connection.
  pub responded :
      (d : NodeData) (o : Option Conn) (q : Conn)
      → (d.type ==ℤ m_req) ≡ false
      → (d.type ==ℤ m_rsp) ≡ true
      → o ≡ some q
      → (conn_step F c blank d o ≡ some (answered c d q (answer F c d q)))
        × (emitted F c blank d o ≡ sample_of (answer F c d q))
  unfolding conn_step emitted
  responded d o q e f g = rw (g, conn_step, emitted, e, f) (refl, refl)

  pub unknown :
      (d : NodeData) (o : Option Conn)
      → (d.type ==ℤ m_req) ≡ false
      → (d.type ==ℤ m_rsp) ≡ true
      → o ≡ none
      → (conn_step F c blank d o ≡ o) × (emitted F c blank d o ≡ [])
  unfolding conn_step emitted
  unknown d o e f g = rw (g, conn_step, emitted, e, f) (refl, refl)

  pub other_type :
      (d : NodeData) (o : Option Conn)
      → (d.type ==ℤ m_req) ≡ false
      → (d.type ==ℤ m_rsp) ≡ false
      → (conn_step F c blank d o ≡ o) × (emitted F c blank d o ≡ [])
  unfolding conn_step emitted
  other_type d none e f = rw (conn_step, emitted, e, f) (refl, refl)
  other_type d (some q) e f = rw (conn_step, emitted, e, f) (refl, refl)

module _ {h : RteHash} (laws : HashLaws h req_hash_entries) where
  -- The table behind an insertion.
  pub record Inserted (k0 : List ℕ) (p : ℕ) (t u : h.Table) : Type 0 where
    pub own : h.lookup u k0 ≡ pos p
    pub back : (k : List ℕ) (q : ℕ) → k0 ≢ k → h.lookup u k ≡ pos q → h.lookup t k ≡ pos q
    pub stays : (k : List ℕ) (q : ℕ) → h.lookup t k ≡ pos q → h.lookup u k ≡ pos q
    pub gone : (k : List ℕ) (n : ℕ) → h.lookup u k ≡ negsuc n → (l : ℕ) × (h.lookup t k ≡ negsuc l)

  pub add_key-Inserted :
      (k0 : List ℕ) (p : ℕ) (t : h.Table)
      → (h.add_key t k0).0 ≡ pos p
      → Inserted k0 p t (h.add_key t k0).1
  add_key-Inserted k0 p t e = record {
    own = laws.lookup-add_key t k0 p e;
    back = λ k q ne f. elim (ℤ-cases (h.lookup t k)) [
      | inl (r, g) ↦ g ∙ sym (laws.add_key_keeps t k0 k r g) ∙ f
      | inr (n, g) ↦
          let (l, lost) = laws.add_key_other t k0 k n (λ same. ne (sym same)) g in
          absurd (ground (arith, f, lost))
    ];
    stays = λ k q f. laws.add_key_keeps t k0 k q f;
    gone = λ k n f. elim (ℤ-cases (h.lookup t k)) [
      | inl (r, g) ↦ absurd (ground (arith, f, laws.add_key_keeps t k0 k r g))
      | inr (l, g) ↦ (l, g)
    ];
  }
