-- ===== src/Split/RoundTrip.antt =====
-- A file that pcap_analyse/split_pcap_bytime.c writes, read again.
use hcmonitor.Prelude.{
  ℕ, ◌+◌, ◌<◌, ◌≤◌, ◌^◌, ◌≡◌, ap, ◌∙◌, arith, some, List, [], ◌∷◌, ◌++◌, length, length-append,
}
use hcmonitor.Monitor.Rule.{All}
use hcmonitor.Split.Groups.{concat, IsBurst}
use hcmonitor.Split.Output.{written, input_of, output}
use hcmonitor.Split.{Packet, process_pcap}
use hcmonitor.Split.Arrivals.{
  IsWhole, files_of, process_pcap-files_of, concat-files_of, files_of-IsBurst, IsBurst-files_of,
}

-- Among files that together are complete packets, every file is of complete packets, and no longer.
record Part (ps file : List Packet) : Type 0 where
  whole : All IsWhole file
  fits : length (written file) ≤ length (written ps)

written-append :
    (xs ys : List Packet) → length (written (xs ++ ys)) ≡ length (written xs) + length (written ys)
unfolding written
written-append [] ys = omega arith
written-append (x ∷ xs) ys =
    let n = length-append x.cs (written xs) in
    let m = length-append x.cs (written (xs ++ ys)) in omega (arith, n, m, written-append xs ys)

All-append : (P : Packet → Type 0) (xs ys : List Packet) → All P (xs ++ ys) → All P xs × All P ys
All-append P [] ys a = (tt, a)
All-append P (x ∷ xs) ys (p, a) = let (front, back) = All-append P xs ys a in ((p, front), back)

All-map :
    {A : Type 0} {P Q : A → Type 0} → ((a : A) → P a → Q a) → (xs : List A) → All P xs → All Q xs
All-map f [] a = tt
All-map f (x ∷ xs) (p, a) = (f x p, All-map f xs a)

All-zip :
    {A : Type 0} {P Q R : A → Type 0}
    → ((a : A) → P a → Q a → R a)
    → (xs : List A) → All P xs
    → All Q xs
    → All R xs
All-zip f [] a b = tt
All-zip f (x ∷ xs) (p, a) (q, b) = (f x p q, All-zip f xs a b)

concat-Part :
    (files : List (List Packet)) → All IsWhole (concat files) → All (Part (concat files)) files
unfolding concat
concat-Part [] w = tt
concat-Part (x ∷ xs) w =
    let (front, back) = All-append IsWhole x (concat xs) w in
    let n = written-append x (concat xs) in
    (
      record { whole = front; fits = omega (arith, n) },
      All-map (λ file part. record { whole = part.whole; fits = omega (arith, n, part.fits) }) xs
          (concat-Part xs back),
    )

-- Of a file of complete packets, behind a file header of 24 bytes, and of fewer than 2 ^ 31 bytes: as
-- much fuel as it has bytes, and one, is enough; the files that it is split into are, together, its
-- packets in order; and each of them, written behind the same header and split again, is one file,
-- of the same packets.
pub process_pcap-output :
    (stray : ℕ → ℕ) (header : List ℕ) (ps : List Packet)
    → length header ≡ 24
    → All IsWhole ps
    → (output header ps).size < 2 ^ 31
    → (files : List (List Packet)) × (process_pcap stray
          (output header ps)
          ((output header ps).size + 1)
        ≡ some files)
      × (concat files ≡ ps)
      × All
          (λ file.
            process_pcap stray (output header file) ((output header file).size + 1)
            ≡ some (file ∷ []))
          files
unfolding output input_of
process_pcap-output stray header ps e w small =
    let all = concat-files_of ps in
    let parts = concat-Part (files_of ps) (rw all w) in
    let n = length-append header (written ps) in
    let again =
      λ (file : List Packet) (burst : IsBurst file) (part : Part (concat (files_of ps)) file).
        let m = length-append header (written file) in
        let fits : length (written file) ≤ length (written ps) = rw all at part.fits in
        process_pcap-files_of stray header file e part.whole (omega (arith, n, m, fits, small))
        ∙ ap some (IsBurst-files_of file burst) in
    (
      files_of ps,
      process_pcap-files_of stray header ps e w small,
      all,
      All-zip again (files_of ps) (files_of-IsBurst ps) parts,
    )
