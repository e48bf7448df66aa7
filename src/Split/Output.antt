-- ===== src/Split/Output.antt =====
-- A file that pcap_analyse/split_pcap_bytime.c writes: the file header and the bytes of its packets.
use hcmonitor.Prelude.{
  ℕ, zero, suc, ◌+◌, ◌<◌, ◌≤◌, ◌≡◌, refl, ap, ◌∙◌, arith, true, List, [], ◌∷◌, ◌++◌, length,
  length-append, get_or, lt→ltb,
}
use hcmonitor.Split.{Input, le32, pkt_hdr, readable, copy, Packet}

-- The bytes of the packets, as they follow each other.
unfoldable pub written : List Packet → List ℕ
written [] = []
written (p ∷ ps) = p.cs ++ written ps

-- A file of these bytes, as it is read again.
unfoldable pub input_of : List ℕ → Input
input_of bs = record { bytes = λ o. get_or bs o 0; size = length bs }

-- The file: 24 bytes of `file_header_0`, and the packets.
unfoldable pub output : List ℕ → List Packet → Input
output header ps = input_of (header ++ written ps)

-- The bytes `bs` stand in the file from offset `o` on.
pub record Stands (f : Input) (o : ℕ) (bs : List ℕ) : Type 0 where
  pub same : (i : ℕ) → i < length bs → f.bytes (o + i) ≡ get_or bs i 0
  pub inside : o + length bs ≤ f.size

get_or-append : (xs ys : List ℕ) (i : ℕ) → i < length xs → get_or (xs ++ ys) i 0 ≡ get_or xs i 0
get_or-append [] ys i lt = absurd (omega (arith, lt))
get_or-append (x ∷ xs) ys zero lt = refl
get_or-append (x ∷ xs) ys (suc i) lt = get_or-append xs ys i (omega (arith, lt))

get_or-behind : (xs ys : List ℕ) (i : ℕ) → get_or (xs ++ ys) (length xs + i) 0 ≡ get_or ys i 0
get_or-behind [] ys i = ap (λ j. get_or ys j 0) (omega arith)
get_or-behind (x ∷ xs) ys i =
    let place : suc (length xs) + i ≡ suc (length xs + i) = omega arith in
    ap (λ j. get_or (x ∷ xs ++ ys) j 0) place ∙ get_or-behind xs ys i

pub input_of-Stands : (xs ys : List ℕ) → Stands (input_of (xs ++ ys)) (length xs) ys
unfolding input_of
input_of-Stands xs ys = record {
  same = λ i lt. get_or-behind xs ys i;
  inside = omega (arith, length-append xs ys);
}

pub Stands-front : {f : Input} {o : ℕ} (xs ys : List ℕ) → Stands f o (xs ++ ys) → Stands f o xs
Stands-front xs ys v =
    let n = length-append xs ys in
    record {
      same = λ i lt. v.same i (omega (arith, lt, n)) ∙ get_or-append xs ys i lt;
      inside = omega (arith, v.inside, n);
    }

pub Stands-behind :
    {f : Input} {o : ℕ} (xs ys : List ℕ) → Stands f o (xs ++ ys) → Stands f (o + length xs) ys
Stands-behind {f} {o} xs ys v =
    let n = length-append xs ys in
    record {
      same = λ i lt.
          let place : o + length xs + i ≡ o + (length xs + i) = omega arith in
          ap f.bytes place ∙ v.same (length xs + i) (omega (arith, lt, n)) ∙ get_or-behind xs ys i;
      inside = omega (arith, v.inside, n);
    }

-- What is read of the bytes in the file is what is read of them alone.
Stands-bytes :
    {f : Input} {o : ℕ} {bs : List ℕ}
    → Stands f o bs
    → (i j : ℕ) → j ≡ o + i
    → i < length bs
    → f.bytes j ≡ (input_of bs).bytes i
unfolding input_of
Stands-bytes {f} v i j e lt = ap f.bytes e ∙ v.same i lt

Stands-le32 :
    {f : Input} {o : ℕ} {bs : List ℕ}
    → Stands f o bs
    → (i j : ℕ) → j ≡ o + i
    → i + 3 < length bs
    → le32 f j ≡ le32 (input_of bs) i
Stands-le32 v i j e lt =
    rw
      (
        Stands-bytes v i j e (omega (arith, lt)),
        Stands-bytes v (i + 1) (j + 1) (omega (arith, e)) (omega (arith, lt)),
        Stands-bytes v (i + 2) (j + 2) (omega (arith, e)) (omega (arith, lt)),
        Stands-bytes v (i + 3) (j + 3) (omega (arith, e)) lt,
      )
      refl

pub Stands-pkt_hdr :
    {f : Input} {o : ℕ} {bs : List ℕ}
    → Stands f o bs
    → 16 ≤ length bs
    → pkt_hdr f o ≡ pkt_hdr (input_of bs) 0
unfolding pkt_hdr
Stands-pkt_hdr {f} {o} v le =
    rw
      (
        Stands-le32 v 0 o (omega arith) (omega (arith, le)),
        Stands-le32 v 4 (o + 4) refl (omega (arith, le)),
        Stands-le32 v 8 (o + 8) refl (omega (arith, le)),
        Stands-le32 v 12 (o + 12) refl (omega (arith, le)),
      )
      refl

pub Stands-readable :
    {f : Input} {o : ℕ} {bs : List ℕ}
    → Stands f o bs
    → readable (input_of bs) 0 ≡ true
    → readable f o ≡ true
unfolding readable input_of
Stands-readable {f} {o} {bs} v e =
    let long : 30 ≤ length bs = ground (arith, e) in
    let first = Stands-bytes v 28 (o + 28) refl (omega (arith, long)) in
    let second = Stands-bytes v 29 (o + 29) refl (omega (arith, long)) in
    rw (first, second, input_of) (ground (arith, e, v.inside))

pub Stands-copy :
    (stray : ℕ → ℕ) (f : Input) (o : ℕ) (bs : List ℕ)
    → Stands f o bs
    → copy stray f o (length bs) ≡ bs
unfolding copy input_of
Stands-copy stray f o [] v = refl
Stands-copy stray f o (b ∷ bs) v =
    let here : f.bytes o ≡ b = Stands-bytes v 0 o (omega arith) (omega arith) in
    let rest = Stands-copy stray f (o + 1) bs (Stands-behind (b ∷ []) bs v) in
    rw (lt→ltb o f.size (omega (arith, v.inside)), here, rest) refl
