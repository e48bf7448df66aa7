-- ===== src/Cores/Receive.antt =====
-- The ring of a receiving core takes packets in order, while it has room.
use hcmonitor.Prelude.{
  ℕ, ◌+◌, ◌≡◌, ◌≢◌, ltb, lt→ltb, ◌&&◌, if◌then◌else◌, List, [], ◌∷◌, ◌++◌, arith, Bool-cases, inl,
  inr, update_ne, ==_refl, sym,
}
use mathlib.Core.List.{append-nil}
use hcmonitor.Config.{Mconfig}
use hcmonitor.Hash.{RteHash}
use hcmonitor.Node.{Timespec}
use hcmonitor.Ring.{Ring, has_room, contents, held, IsValid}
use hcmonitor.Ring.Laws.{contents-put, put-IsValid, has_room-held}
use hcmonitor.Cores.{TikMbuf, Mbuf, Shared, ring_size, tik_of, offer, receive}

-- What a packet adds to the ring: itself, if it is longer than 70 bytes and the ring holds fewer
-- than its size less one.
abbrev pub taken : ℕ → ℕ → TikMbuf → Ring TikMbuf → List TikMbuf
taken size len t r = if ltb 70 len && ltb (held size r + 1) size then t ∷ [] else []

module _ (size len : ℕ) (t : TikMbuf) (r : Ring TikMbuf) (v : IsValid size r) where
  pub offer-IsValid : IsValid size (offer size len t r)
  unfolding offer
  offer-IsValid = elim (Bool-cases (ltb 70 len)) [
    | inl e ↦ elim (Bool-cases (has_room size r)) [
      | inl f ↦ rw (e, f) (put-IsValid size v t)
      | inr f ↦ rw (e, f) v
    ]
    | inr e ↦ rw e v
  ]

  has_room_test : has_room size r ≡ ltb (held size r + 1) size
  has_room_test = elim (Bool-cases (has_room size r)) [
    | inl f ↦ rw (f, lt→ltb _ _ ((has_room-held size v).0 f))
    | inr f ↦ ground (arith, has_room-held size v)
  ]

  pub offer-contents : contents size (offer size len t r) ≡ contents size r ++ taken size len t r
  unfolding offer
  offer-contents = rw (← has_room_test) (elim (Bool-cases (ltb 70 len)) [
    | inl e ↦ elim (Bool-cases (has_room size r)) [
      | inl f ↦ rw (e, f) (contents-put size v t f)
      | inr f ↦ rw (e, f) (sym (append-nil (contents size r)))
    ]
    | inr e ↦ rw e (sym (append-nil (contents size r)))
  ])

module _ {h : RteHash} where
  receive-ssd :
      (c : Mconfig) (ts : Timespec) (i : ℕ) (m : Mbuf) (s : Shared h)
      → (receive c ts i m s).ssd i ≡ offer (ring_size c) m.pkt_len (tik_of m ts) (s.ssd i)
  unfolding receive
  receive-ssd c ts i m s = rw (==_refl i)

  -- A received packet goes to the end of the core's own ring if it is longer than 70 bytes and there
  -- is room, and else is dropped; what the ring held stays, and so do the other rings. Its buffer
  -- then holds the packet's bytes.
  pub receive_appends :
      (c : Mconfig) (ts : Timespec) (i : ℕ) (m : Mbuf) (s : Shared h)
      → IsValid (ring_size c) (s.ssd i)
      → let t = receive c ts i m s in
        (contents (ring_size c) (t.ssd i)
          ≡ contents (ring_size c) (s.ssd i)
            ++ taken (ring_size c) m.pkt_len (tik_of m ts) (s.ssd i))
        × IsValid (ring_size c) (t.ssd i)
        × ((j : ℕ) → i ≢ j → t.ssd j ≡ s.ssd j)
        × (t.buffers m.buffer ≡ m.bytes)
  unfolding receive
  receive_appends c ts i m s v = (
    rw (==_refl i) (offer-contents (ring_size c) m.pkt_len (tik_of m ts) (s.ssd i) v),
    rw (==_refl i) (offer-IsValid (ring_size c) m.pkt_len (tik_of m ts) (s.ssd i) v),
    (λ j ne. update_ne s.ssd i j _ ne),
    rw (==_refl m.buffer),
  )
