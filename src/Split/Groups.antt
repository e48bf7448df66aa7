-- ===== src/Split/Groups.antt =====
-- The files of pcap_analyse/split_pcap_bytime.c over one round of its loop.
use hcmonitor.Prelude.{
  ℕ, ◌+◌, ◌≡◌, ◌≢◌, inl, inr, refl, sym, ap, ◌∙◌, pos, ◌-ℤ◌, ◌==ℤ◌, ==ℤ_iff, ◌==◌, ==_iff,
  Bool-cases, List, [], ◌∷◌, ◌++◌, arith, if◌then◌else◌,
}
use hcmonitor.Monitor.Rule.{All}
use hcmonitor.Split.{
  PktHdr, Input, thousandth, less_second, pkt_hdr, readable, Packet, packet_at, State, note_first,
  write, visit,
}

unfoldable pub concat : List (List Packet) → List Packet
concat [] = []
concat (x ∷ xs) = x ++ concat xs

pub append_nil : (xs : List Packet) → xs ++ [] ≡ xs
append_nil [] = refl
append_nil (x ∷ xs) = ap (λ l. x ∷ l) (append_nil xs)

pub append_assoc : (xs ys zs : List Packet) → (xs ++ ys) ++ zs ≡ xs ++ (ys ++ zs)
append_assoc [] ys zs = refl
append_assoc (x ∷ xs) ys zs = ap (λ l. x ∷ l) (append_assoc xs ys zs)

pub concat-snoc :
    (xs : List (List Packet)) (y : List Packet) → concat (xs ++ y ∷ []) ≡ concat xs ++ y
unfolding concat
concat-snoc [] y = append_nil y
concat-snoc (x ∷ xs) y = ap (λ l. x ++ l) (concat-snoc xs y) ∙ sym (append_assoc x (concat xs) y)

pub All-snoc :
    {A : Type 0} (P : A → Type 0) (xs : List A) (y : A) → All P xs → P y → All P (xs ++ y ∷ [])
All-snoc P [] y a b = (b, tt)
All-snoc P (x ∷ xs) y a b = (a.0, All-snoc P xs y a.1 b)

-- A file in which every packet passes `less_second` on the first.
unfoldable pub IsBurst : List Packet → Type 0
IsBurst [] = Unit
IsBurst (p ∷ ps) = All (λ q. less_second p.hdr q.hdr ≡ pos 0) ps

-- Files that are closed are bursts, and so is the open one, whose first packet has the time that
-- the next is measured against.
pub Opened : PktHdr → ℕ → List Packet → Type 0
Opened h i [] = i ≡ 0
Opened h i (p ∷ ps) = (i ≢ 0) × (h ≡ p.hdr) × All (λ q. less_second p.hdr q.hdr ≡ pos 0) ps

pub record IsGrouped (s : State) : Type 0 where
  pub whole : All IsBurst s.closed
  pub open_file : Opened s.pkt_header_0 s.i s.current

pub flat : State → List Packet
flat s = concat s.closed ++ s.current

pub write-flat : (p : Packet) (s : State) → flat (write p s) ≡ flat s ++ p ∷ []
unfolding write flat
write-flat p s = elim (Bool-cases (less_second s.pkt_header_0 p.hdr ==ℤ pos 0)) [
  | inl e ↦ rw e (sym (append_assoc (concat s.closed) s.current (p ∷ [])))
  | inr e ↦ rw (e, concat-snoc s.closed s.current) refl
]

pub same_hdr : (h : PktHdr) → less_second h h ≡ pos 0
unfolding less_second thousandth ◌-ℤ◌
same_hdr h = ground arith

pub Opened-IsBurst : (h : PktHdr) (i : ℕ) (c : List Packet) → Opened h i c → IsBurst c
unfolding Opened IsBurst
Opened-IsBurst h i [] o = tt
Opened-IsBurst h i (p ∷ ps) o = o.2

Opened-snoc :
    (h : PktHdr) (i : ℕ) (c : List Packet) (p : Packet)
    → (i ≡ 0 → h ≡ p.hdr)
    → less_second h p.hdr ≡ pos 0
    → Opened h i c
    → Opened h (i + 1) (c ++ p ∷ [])
unfolding Opened
Opened-snoc h i [] p z e o = ((λ q. omega (arith, q)), z o, tt)
Opened-snoc h i (x ∷ xs) p z e o = (
  (λ q. omega (arith, q)),
  o.1,
  All-snoc (λ q. less_second x.hdr q.hdr ≡ pos 0) xs p o.2 (rw (← o.1) e),
)

pub write-IsGrouped :
    (p : Packet) (s : State)
    → (s.i ≡ 0 → s.pkt_header_0 ≡ p.hdr)
    → IsGrouped s
    → IsGrouped (write p s)
unfolding write Opened
write-IsGrouped p s z g = elim (Bool-cases (less_second s.pkt_header_0 p.hdr ==ℤ pos 0)) [
  | inl e ↦
      rw (e, write)
        (record {
          whole = g.whole;
          open_file = Opened-snoc s.pkt_header_0 s.i s.current p z ((==ℤ_iff _ _).0 e) g.open_file;
        })
  | inr e ↦
      rw (e, write)
        (record {
          whole = All-snoc IsBurst s.closed s.current g.whole (Opened-IsBurst _ _ _ g.open_file);
          open_file = ((λ q. omega (arith, q)), refl, tt);
        })
]

pub flat_start :
    (s t : State) (l : List Packet)
    → s.closed ≡ []
    → s.current ≡ []
    → flat t ≡ flat s ++ l
    → concat t.closed ++ t.current ≡ l
unfolding flat concat
flat_start s t l a b e = rw (a, b) at e

pub starts : (h : PktHdr) → Opened h 0 []
unfolding Opened
starts h = refl

-- A record of what a round keeps.
pub record Moved (stray : ℕ → ℕ) (f : Input) (o : ℕ) (s t : State) : Type 0 where
  pub kept : flat t ≡ flat s ++ (if readable f o then packet_at stray f o ∷ [] else [])
  pub grouped : IsGrouped t

reopened : (h h' : PktHdr) (i : ℕ) (c : List Packet) → i ≡ 0 → Opened h i c → Opened h' i c
unfolding Opened
reopened h h' i [] z o = o
reopened h h' i (p ∷ ps) z o = absurd (o.0 z)

pub note_first-IsGrouped : (h : PktHdr) (s : State) → IsGrouped s → IsGrouped (note_first h s)
unfolding note_first
note_first-IsGrouped h s g = elim (Bool-cases (s.i == 0)) [
  | inl e ↦
      rw (e, note_first)
        (record {
          whole = g.whole;
          open_file = reopened s.pkt_header_0 h s.i s.current ((==_iff _ _).0 e) g.open_file;
        })
  | inr e ↦ rw (e, note_first) g
]

pub note_first-flat : (h : PktHdr) (s : State) → flat (note_first h s) ≡ flat s
unfolding note_first flat
note_first-flat h s = elim (Bool-cases (s.i == 0)) [ inl e ↦ rw e refl | inr e ↦ rw e refl ]

pub note_first-pkt_header_0 :
    (h : PktHdr) (s : State) → (note_first h s).i ≡ 0 → (note_first h s).pkt_header_0 ≡ h
unfolding note_first
note_first-pkt_header_0 h s = ground arith

pub visit-Moved :
    (stray : ℕ → ℕ) (f : Input) (o : ℕ) (s : State)
    → IsGrouped s
    → Moved stray f o s (visit stray f o s)
unfolding visit packet_at
visit-Moved stray f o s g =
    let h = pkt_hdr f o in
    let noted = note_first h s in
    let g' = note_first-IsGrouped h s g in
    elim (Bool-cases (readable f o)) [
      | inl e ↦ record {
        kept = rw (e, write-flat (packet_at stray f o) noted, note_first-flat h s) refl;
        grouped =
            rw e (write-IsGrouped (packet_at stray f o) noted (note_first-pkt_header_0 h s) g');
      }
      | inr e ↦ record {
        kept = rw (e, note_first-flat h s) (sym (append_nil _));
        grouped = rw e g';
      }
    ]
